-- ===== src/Billing/HandledEvents.antt =====
-- internal/billing: the processing of any event, the repair of adjustments and the reconciler, as
-- sequences of the units that PostgreSQL commits.
use glass_eqserver.Prelude.{ℕ, zero, suc, ◌+◌, Bytes, List, [], ◌∷◌, Option, none, some}
use glass_eqserver.Store.Tables.{
  Time, CheckoutOrder, StripeEvent, AdjustmentKind, refund, dispute, BillingAdjustment, Db,
}
use glass_eqserver.Store.Effect.{M}
use glass_eqserver.Store.Keeps.{Keeps, Keeps-pure, Keeps-throw, Keeps-bind, keeps_rules}
use glass_eqserver.Billing.Objects.{
  CheckoutSession, StripeSubscription, Invoice, PaymentIntent, InvoicePayment,
}
use glass_eqserver.Billing.Ledger.{BillingEvent}
use glass_eqserver.Billing.Processor.{EventProcessor}
use glass_eqserver.Billing.Adjustment.{
  PurchaseIdentity, Adjustment, reported_refund, reported_dispute, reported, retrieve_adjustment,
}
use glass_eqserver.Billing.AdjustmentView.{
  Identified, AdjustmentView, identify_subscription, identify_invoice, identify_payment,
  identify_intent, adjustment_identity, listed_session, adjusted_session, view_perpetual,
  view_resolved, view_monthly, hydrate_adjustment,
}
use glass_eqserver.Billing.AdjustmentCommit.{Prepared}
use glass_eqserver.Billing.AdjustmentEvent.{
  purchase_named, adopt_adjusted, lookup_adjusted, adjusted_order, cancel_billing, confirm,
  confirm_prepared, adjust_order, process_adjustment, repair, repair_found,
  repair_pending_adjustment,
}
use glass_eqserver.Billing.Process.{
  process_session, process_checkout, process_new, process_event, process,
}
use glass_eqserver.Billing.Reconciler.{
  Reconciler, Scan, caught, processor_at, reconcile_session, scan_paid, scan_session, scan_page,
  scan_link, run_links,
}
use glass_eqserver.Billing.AdjustmentKept.{identity-kept}
use glass_eqserver.Billing.Handled.{KeepsUnits, request_rules, ensure-kept, process_monthly-kept}

module _ {P : Db → Type 0} (p : EventProcessor) (n : ℕ) where
  reported-kept :
      (now : Time) (kind : AdjustmentKind) (id : Bytes) → Keeps P (reported p now n kind id)
  unfolding reported reported_refund reported_dispute
  reported-kept now refund id = search request_rules depth 12
  reported-kept now dispute id = search request_rules depth 12

  pub retrieve-kept : (now : Time) (e : BillingEvent) → Keeps P (retrieve_adjustment p now n e)
  unfolding retrieve_adjustment
  retrieve-kept now e = search (request_rules, reported-kept) depth 20

  subscription-kept :
      (intent id : Bytes) (i : Invoice) → Keeps P (identify_subscription p n intent id i)
  unfolding identify_subscription
  subscription-kept intent id i = search request_rules depth 12

  payment-kept :
      (a : Adjustment) (id : Bytes) (x : Option InvoicePayment)
      → Keeps P (identify_payment p n a id x)
  unfolding identify_payment identify_invoice
  payment-kept a id none = Keeps-pure _
  payment-kept a id (some x) = search (request_rules, subscription-kept) depth 20

  intent-kept : (a : Adjustment) (i : Option PaymentIntent) → Keeps P (identify_intent p n a i)
  unfolding identify_intent
  intent-kept a none = Keeps-pure _
  intent-kept a (some i) = search (request_rules, payment-kept) depth 20

  pub identified-kept : (a : Adjustment) → Keeps P (adjustment_identity p n a)
  unfolding adjustment_identity
  identified-kept a = intent-kept a _

  session-kept :
      (id : Option Bytes) (o : CheckoutOrder) (intent : Bytes) (s : Option StripeSubscription)
      → Keeps P (adjusted_session p n id o intent s)
  unfolding adjusted_session listed_session
  session-kept none o intent s = search request_rules depth 20
  session-kept (some id) o intent s = search request_rules

  perpetual-kept :
      (a : Adjustment) (i : PaymentIntent) (o : CheckoutOrder) (s : CheckoutSession)
      (x : Identified)
      → Keeps P (view_perpetual p n a i o s x)
  unfolding view_perpetual
  perpetual-kept a i o s x = search request_rules depth 20

  monthly-kept :
      (a : Adjustment) (o : CheckoutOrder) (s : CheckoutSession) (x : Identified)
      → Keeps P (view_monthly p n a o s x)
  unfolding view_monthly view_resolved
  monthly-kept a o s x = search request_rules depth 40

  pub hydrate-kept :
      (e : BillingEvent) (o : CheckoutOrder) (now : Time) → Keeps P (hydrate_adjustment p n e o now)
  unfolding hydrate_adjustment
  hydrate-kept e o now =
      search
        (request_rules, retrieve-kept, identified-kept, session-kept, perpetual-kept, monthly-kept)
        depth 40

module _ {P : Db → Type 0} (p : EventProcessor) (k : KeepsUnits p P) where
  module _ (e : BillingEvent) (now : Time) where
    adopt-kept :
        (i : PurchaseIdentity) (s : Option CheckoutSession) → Keeps P (adopt_adjusted p e now i s)
    unfolding adopt_adjusted
    adopt-kept i none = Keeps-pure _
    adopt-kept i (some s) = search (request_rules, ensure-kept p k, identity-kept) depth 20

    lookup-kept :
        (i : PurchaseIdentity) (x : Option PaymentIntent) → Keeps P (lookup_adjusted p e now i x)
    unfolding lookup_adjusted purchase_named
    lookup-kept i none = Keeps-pure _
    lookup-kept i (some x) = search (request_rules, adopt-kept) depth 20

    order-kept :
        (a : Adjustment) (i : PurchaseIdentity) (o : Option CheckoutOrder)
        → Keeps P (adjusted_order p e now a i o)
    unfolding adjusted_order
    order-kept a i none = lookup-kept i _
    order-kept a i (some o) = Keeps-pure _

    cancel-kept : (o : CheckoutOrder) (v : AdjustmentView) → Keeps P (cancel_billing p e now o v)
    unfolding cancel_billing
    cancel-kept o v = search (request_rules, hydrate-kept) depth 20

    confirm-kept : (o : CheckoutOrder) (v : AdjustmentView) → Keeps P (confirm p e now o v)
    unfolding confirm
    confirm-kept o v = search (request_rules, cancel-kept, k.committed) depth 20

    prepared-kept : (v : AdjustmentView) (x : Prepared) → Keeps P (confirm_prepared p e now v x)
    unfolding confirm_prepared
    prepared-kept v x = search (request_rules, confirm-kept) depth 20

    adjust-kept : (o : Option CheckoutOrder) → Keeps P (adjust_order p e now o)
    unfolding adjust_order
    adjust-kept none = search (request_rules, k.prepared)
    adjust-kept (some o) = search (request_rules, hydrate-kept, prepared-kept, k.prepared) depth 20

    pub process_adjustment-kept : Keeps P (process_adjustment p e now)
    unfolding process_adjustment
    process_adjustment-kept =
        search
          (request_rules, retrieve-kept, identified-kept, identity-kept, order-kept, adjust-kept)
          depth 20

    checkout-kept : Keeps P (process_checkout p e now)
    unfolding process_checkout process_session
    checkout-kept =
        search (request_rules, ensure-kept p k, k.monthly, k.perpetual, process_monthly-kept p k)
          depth 20

    pub process_event-kept : Keeps P (process_event p e now)
    unfolding process_event process_new
    process_event-kept =
        search
          (
            request_rules,
            k.events,
            process_adjustment-kept,
            process_monthly-kept p k,
            checkout-kept,
          )
          depth 20

  pub process-kept :
      (unmarshal : Bytes → Option BillingEvent) (body : Bytes) (now : Time)
      → Keeps P (process p unmarshal body now)
  unfolding process
  process-kept unmarshal body now = search (request_rules, process_event-kept)

  repaired-kept :
      (now : Time) (x : Option (BillingAdjustment × Option StripeEvent))
      → Keeps P (repair_found p now x)
  unfolding repair_found repair
  repaired-kept now none = Keeps-pure _
  repaired-kept now (some (a, event)) = search (request_rules, process_adjustment-kept) depth 20

  pub repair-kept : (now : Time) → Keeps P (repair_pending_adjustment p now)
  unfolding repair_pending_adjustment
  repair-kept now = search (request_rules, repaired-kept)

Keeps-caught : {P : Db → Type 0} (m : M (Unit {0})) → Keeps P m → Keeps P (caught m)
unfolding caught
Keeps-caught m k = record { at = λ d v h. k.at d v h }

module _ {P : Db → Type 0} (r : Reconciler)
    (k : (link : Bytes) (n : ℕ) → KeepsUnits (processor_at r link n) P) (today : Time) where
  reconciled-kept :
      (link : Bytes) (n : ℕ) (id : Bytes) → Keeps P (reconcile_session r today link n id)
  unfolding reconcile_session
  reconciled-kept link n id =
      search (request_rules, process_event-kept (processor_at r link n) (k link n)) depth 12

  scanned-kept :
      (n : ℕ) (link : Bytes) (s : Option CheckoutSession) (x : Scan)
      → Keeps P (scan_session r today n link s x)
  unfolding scan_session scan_paid
  scanned-kept n link s x = search (request_rules, reconciled-kept, Keeps-caught) depth 20

  page-kept :
      (n : ℕ) (link : Bytes) (xs : List (Option CheckoutSession)) (x : Scan)
      → Keeps P (scan_page r today n link xs x)
  unfolding scan_page
  page-kept n link [] x = Keeps-pure x
  page-kept n link (s ∷ rest) x =
      Keeps-bind _ _ (scanned-kept n link s x) (page-kept (n + 1) link rest)

  link-kept :
      (fuel seen : ℕ) (link cursor : Bytes) (x : Scan)
      → Keeps P (scan_link r today fuel seen link cursor x)
  unfolding scan_link
  link-kept zero seen link cursor x = Keeps-throw _
  link-kept (suc fuel) seen link cursor x =
      search (request_rules, page-kept, link-kept fuel) depth 20

  pub run_links-kept : Keeps P (run_links r today)
  unfolding run_links
  run_links-kept = search (keeps_rules, link-kept)
