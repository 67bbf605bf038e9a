-- ===== src/Billing/Handled.antt =====
-- internal/billing: what a property has to survive in order to survive the processing of events,
-- the repair of adjustments and the reconciler's scan: the units that PostgreSQL commits.
use glass_eqserver.Prelude.{Bytes, List, [], ◌∷◌, Option, none, some}
use glass_eqserver.Store.Tables.{Time, CheckoutOrder, Db}
use glass_eqserver.Store.Effect.{execute, transact}
use glass_eqserver.Store.Keeps.{Keeps, Keeps-pure, keeps_rules}
use glass_eqserver.Billing.Objects.{CheckoutSession, StripeSubscription, Invoice, InvoicePayment}
use glass_eqserver.Billing.Client.{
  Stripe, CheckoutClient, retrieve_purchase, retrieve_subscription, retrieve_invoice, first_session,
  find_purchase_by_subscription, list_payment_link_sessions,
}
use glass_eqserver.Billing.AdjustmentClient.{
  retrieve_refund, retrieve_dispute, retrieve_charge, first_payment, find_invoice_payment,
  sole_purchase, subscription_purchases, payment_purchases, purchases_of, find_purchase,
  cancel_subscription,
}
use glass_eqserver.Billing.Ledger.{BillingEvent, insert_event, insert_order}
use glass_eqserver.Billing.Processor.{
  EventProcessor, Offer, record_purchase, record_offer, ensure_payment_link_order, settle_perpetual,
}
use glass_eqserver.Billing.MonthlyRows.{Snapshot}
use glass_eqserver.Billing.MonthlyCommit.{commit_monthly_event}
use glass_eqserver.Billing.AdjustmentView.{AdjustmentView}
use glass_eqserver.Billing.AdjustmentCommit.{prepare_adjustment, commit_adjustment}
use glass_eqserver.Billing.MonthlyEvent.{
  Naming, by_session, by_subscription, unnamed, named_by_invoice, naming, adopt_session,
  adopt_purchase, or_adopt, find_order, session_named, initial_invoice, first_invoice,
  later_invoice, newest_invoice, invoice_id, hydrate, commit_incomplete, process_owned,
  process_monthly_event,
}
use glass_eqserver.Billing.Kept.{billing_rules}

pub record KeepsUnits (p : EventProcessor) (P : Db → Type 0) : Type 0 where
  pub events : (e : BillingEvent) → Keeps P (execute (insert_event e))
  pub orders : (o : CheckoutOrder) → Keeps P (execute (insert_order o))
  pub perpetual :
      (e : BillingEvent) (session : CheckoutSession) (now : Time)
      → Keeps P (transact (settle_perpetual p e session now))
  pub monthly :
      (e : BillingEvent) (now : Time) (x : Option Snapshot)
      → Keeps P (commit_monthly_event p e now x)
  pub prepared :
      (e : BillingEvent) (now : Time) (v : Option AdjustmentView)
      → Keeps P (prepare_adjustment p e now v)
  pub committed :
      (e : BillingEvent) (now : Time) (v : AdjustmentView) → Keeps P (commit_adjustment p e now v)

-- The requests to Stripe write nothing.
module _ {P : Db → Type 0} (c : CheckoutClient) (x : Stripe) where
  pub purchase-kept : (id : Bytes) → Keeps P (retrieve_purchase c x id)
  unfolding retrieve_purchase
  purchase-kept id = search keeps_rules depth 12

  pub subscription-kept : (id : Bytes) → Keeps P (retrieve_subscription c x id)
  unfolding retrieve_subscription
  subscription-kept id = search keeps_rules depth 12

  pub invoice-kept : (id : Bytes) → Keeps P (retrieve_invoice c x id)
  unfolding retrieve_invoice
  invoice-kept id = search keeps_rules depth 12

  first-kept : (xs : List (Option CheckoutSession)) → Keeps P (first_session c x xs)
  unfolding first_session
  first-kept [] = search keeps_rules
  first-kept (s ∷ []) = search keeps_rules
  first-kept (s ∷ t ∷ rest) = search keeps_rules

  pub find_purchase-kept : (id : Bytes) → Keeps P (find_purchase_by_subscription c x id)
  unfolding find_purchase_by_subscription
  find_purchase-kept id = search (keeps_rules, first-kept) depth 12

  pub list-kept : (link after : Bytes) → Keeps P (list_payment_link_sessions c x link after)
  unfolding list_payment_link_sessions
  list-kept link after = search keeps_rules depth 12

  pub refund-kept : (id : Bytes) → Keeps P (retrieve_refund c x id)
  unfolding retrieve_refund
  refund-kept id = search keeps_rules depth 12

  pub dispute-kept : (id : Bytes) → Keeps P (retrieve_dispute c x id)
  unfolding retrieve_dispute
  dispute-kept id = search keeps_rules depth 12

  pub charge-kept : (id : Bytes) → Keeps P (retrieve_charge c x id)
  unfolding retrieve_charge
  charge-kept id = search keeps_rules depth 12

  first_payment-kept :
      (id : Bytes) (xs : List (Option InvoicePayment)) → Keeps P (first_payment c x id xs)
  unfolding first_payment
  first_payment-kept id [] = search keeps_rules
  first_payment-kept id (s ∷ []) = search keeps_rules
  first_payment-kept id (s ∷ t ∷ rest) = search keeps_rules

  pub payment-kept : (id : Bytes) → Keeps P (find_invoice_payment c x id)
  unfolding find_invoice_payment
  payment-kept id = search (keeps_rules, first_payment-kept) depth 12

  sole-kept :
      (later : Stripe) (xs : List (Option CheckoutSession)) → Keeps P (sole_purchase c x later xs)
  unfolding sole_purchase retrieve_purchase
  sole-kept later [] = search keeps_rules
  sole-kept later (s ∷ []) = search keeps_rules depth 12
  sole-kept later (s ∷ t ∷ rest) = search keeps_rules

  page-kept : (payment subscription : Bytes) → Keeps P (purchases_of c x payment subscription)
  unfolding purchases_of subscription_purchases payment_purchases
  page-kept payment subscription = search keeps_rules depth 12

  pub find-kept :
      (later : Stripe) (payment subscription : Bytes)
      → Keeps P (find_purchase c x later payment subscription)
  unfolding find_purchase
  find-kept later payment subscription = search (keeps_rules, page-kept, sole-kept) depth 12

  pub cancel-kept : (id : Bytes) → Keeps P (cancel_subscription c x id)
  unfolding cancel_subscription
  cancel-kept id = search keeps_rules depth 12

pub ruleset request_rules = (
  billing_rules, purchase-kept, subscription-kept, invoice-kept, find_purchase-kept, list-kept,
  refund-kept, dispute-kept, charge-kept, payment-kept, find-kept, cancel-kept,
)

module _ {P : Db → Type 0} (p : EventProcessor) (k : KeepsUnits p P) where
  purchase_recorded :
      (s : CheckoutSession) (o : Offer) (now : Time) → Keeps P (record_purchase s o now)
  unfolding record_purchase
  purchase_recorded s o now = search (keeps_rules, k.orders) depth 20

  offer_recorded :
      (s : CheckoutSession) (o : Option Offer) (now : Time) → Keeps P (record_offer s o now)
  unfolding record_offer
  offer_recorded s none now = Keeps-pure _
  offer_recorded s (some o) now = purchase_recorded s o now

  pub ensure-kept : (s : CheckoutSession) (now : Time) → Keeps P (ensure_payment_link_order p s now)
  unfolding ensure_payment_link_order
  ensure-kept s now = offer_recorded s _ now

  module _ (e : BillingEvent) (now : Time) where
    named-kept : Keeps P (named_by_invoice p e now)
    unfolding named_by_invoice
    named-kept = search request_rules depth 12

    naming-kept : (s : Option CheckoutSession) → Keeps P (naming p e now s)
    unfolding naming
    naming-kept none = search (keeps_rules, named-kept)
    naming-kept (some s) = Keeps-pure _

    adopt_session-kept :
        (id : Bytes) (s : Option CheckoutSession) → Keeps P (adopt_session p e now id s)
    unfolding adopt_session
    adopt_session-kept id none = Keeps-pure _
    adopt_session-kept id (some s) = search (request_rules, ensure-kept) depth 20

    or_adopt-kept : (id : Bytes) (o : Option CheckoutOrder) → Keeps P (or_adopt p e now id o)
    unfolding or_adopt adopt_purchase
    or_adopt-kept id none = search (request_rules, adopt_session-kept) depth 20
    or_adopt-kept id (some o) = Keeps-pure _

    find_order-kept : (x : Naming) → Keeps P (find_order p e now x)
    unfolding find_order
    find_order-kept unnamed = Keeps-pure _
    find_order-kept (by_session id) = search request_rules
    find_order-kept (by_subscription id) = search (request_rules, or_adopt-kept)

    session_named-kept : (x : Naming) (o : CheckoutOrder) → Keeps P (session_named p e now x o)
    unfolding session_named
    session_named-kept unnamed o = search keeps_rules
    session_named-kept (by_session id) o = search keeps_rules
    session_named-kept (by_subscription id) o = search keeps_rules

    initial-kept :
        (o : CheckoutOrder) (s : StripeSubscription) (id : Bytes) (i : Invoice)
        → Keeps P (first_invoice p e now o s id i)
    unfolding first_invoice initial_invoice
    initial-kept o s id i = search request_rules depth 20

    newest-kept :
        (o : CheckoutOrder) (s : StripeSubscription) (i : Invoice)
        → Keeps P (newest_invoice p e now o s i)
    unfolding newest_invoice later_invoice
    newest-kept o s i = search request_rules depth 20

    invoice_id-kept : (id : Option Bytes) → Keeps P (invoice_id p e now id)
    unfolding invoice_id
    invoice_id-kept id = search keeps_rules

    hydrate-kept :
        (x : Naming) (o : CheckoutOrder) (s : CheckoutSession) → Keeps P (hydrate p e now x o s)
    unfolding hydrate
    hydrate-kept x o s =
        search (request_rules, initial-kept, newest-kept, invoice_id-kept, k.monthly) depth 40

    incomplete-kept :
        (x : Naming) (o : CheckoutOrder) (s : CheckoutSession)
        → Keeps P (commit_incomplete p e now x o s)
    unfolding commit_incomplete
    incomplete-kept x o s = search (request_rules, k.monthly)

    owned-kept : (x : Naming) (o : Option CheckoutOrder) → Keeps P (process_owned p e now x o)
    unfolding process_owned
    owned-kept x none = k.monthly _ _ _
    owned-kept x (some o) =
        search (request_rules, session_named-kept, hydrate-kept, incomplete-kept) depth 20

    pub process_monthly-kept :
        (s : Option CheckoutSession) → Keeps P (process_monthly_event p e now s)
    unfolding process_monthly_event
    process_monthly-kept s = search (request_rules, naming-kept, find_order-kept, owned-kept)
