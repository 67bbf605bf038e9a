-- ===== src/Billing/AdjustmentEvent.antt =====
-- internal/billing/adjustment_event.go: an event on a refund or a dispute, and the repair of one
-- that was left pending.
use glass_eqserver.Prelude.{
  Bool, true, false, ◌&&◌, ◌||◌, not, Bytes, codes, List, [], ◌∷◌, Option, none, some, is_some, ltb,
  bytes_eq, find_row, exists_row, if◌then◌else◌, ◌==◌,
}
use glass_eqserver.Store.Tables.{
  Time, CheckoutOrder, StripeEvent, AdjustmentKind, refund, dispute, BillingAdjustment, Db,
  is_monthly,
}
use glass_eqserver.Store.Effect.{
  M, nil_dereference, invalid_adjustment, snapshot_changed, database, pure, throw_if, or_throw,
  query, ◌>>=◌, ◌>>◌,
}
use glass_eqserver.Activation.Time.{unix}
use glass_eqserver.Activation.Purchase.{is_empty}
use glass_eqserver.Billing.Objects.{CheckoutSession, PaymentIntent, some_such}
use glass_eqserver.Billing.AdjustmentClient.{find_purchase, cancel_subscription}
use glass_eqserver.Billing.Ledger.{BillingEvent, when}
use glass_eqserver.Billing.Processor.{EventProcessor, ensure_payment_link_order}
use glass_eqserver.Billing.Adjustment.{
  PurchaseIdentity, no_identity, Adjustment, read_purchase_order, retrieve_adjustment,
}
use glass_eqserver.Billing.AdjustmentView.{AdjustmentView, adjustment_identity, hydrate_adjustment}
use glass_eqserver.Billing.AdjustmentRows.{is_adjustment, is_of_order}
use glass_eqserver.Billing.AdjustmentApply.{subscription_can_bill}
use glass_eqserver.Billing.AdjustmentCommit.{Prepared, prepare_adjustment, commit_adjustment}

abbrev pub is_cancellation : Bytes → BillingAdjustment → Bool
is_cancellation order_id a = is_of_order order_id a && a.cancel_required

abbrev pub identified_by : PurchaseIdentity → CheckoutSession → Bool
identified_by i session =
    if is_empty i.subscription_id
    then some_such session.payment_intent (λ x. bytes_eq x.id i.payment_id)
    else some_such session.subscription (λ id. bytes_eq id i.subscription_id)

module _ (p : EventProcessor) (e : BillingEvent) (now : Time) where
  unfoldable pub purchase_named : PurchaseIdentity → M (Option CheckoutSession)
  purchase_named i =
      if is_empty i.subscription_id
      then find_purchase p.checkout (p.stripe 5) (p.stripe 6) i.payment_id []
      else find_purchase p.checkout (p.stripe 5) (p.stripe 6) [] i.subscription_id

  unfoldable pub adopt_adjusted :
      PurchaseIdentity → Option CheckoutSession → M (Option CheckoutOrder)
  adopt_adjusted i none = pure none
  adopt_adjusted i (some session) = do
    throw_if (not (identified_by i session)) invalid_adjustment
    owned ← ensure_payment_link_order p session now
    if owned
        then read_purchase_order (record no_identity { session_id = session.id })
        else pure none

  unfoldable pub lookup_adjusted :
      PurchaseIdentity → Option PaymentIntent → M (Option CheckoutOrder)
  unfolding purchase_named adopt_adjusted
  lookup_adjusted i none = pure none
  lookup_adjusted i (some intent) = do session ← purchase_named i; adopt_adjusted i session

  unfoldable pub adjusted_order :
      Adjustment → PurchaseIdentity → Option CheckoutOrder → M (Option CheckoutOrder)
  unfolding lookup_adjusted
  adjusted_order a i none = lookup_adjusted i a.charge.payment_intent
  adjusted_order a i (some order) = pure (some order)

  abbrev pub same_view : AdjustmentView → AdjustmentView → Bool
  same_view a b = bytes_eq a.adjustment.charge_id b.adjustment.charge_id

  -- A subscription that can still bill is canceled, and read again.
  unfoldable pub cancel_billing : CheckoutOrder → AdjustmentView → M AdjustmentView
  cancel_billing order view = do
    s ← or_throw view.subscription nil_dereference
    when (subscription_can_bill s) (cancel_subscription p.checkout (p.stripe 16) s.id)
    current ← hydrate_adjustment p 17 e order now
    t ← or_throw current.subscription nil_dereference
    throw_if (not (same_view current view) || subscription_can_bill t) snapshot_changed
    pure current

  unfoldable pub confirm : CheckoutOrder → AdjustmentView → M (Unit {0})
  unfolding cancel_billing
  confirm order view = do
    required ← query (λ d. exists_row (is_cancellation order.id) d.billing_adjustments)
    final ← if required && is_monthly order.plan then cancel_billing order view else pure view
    commit_adjustment p e now final

  abbrev pub with_order : CheckoutOrder → AdjustmentView → AdjustmentView
  with_order order view = record view { order = order }

  unfoldable pub confirm_prepared : AdjustmentView → Prepared → M (Unit {0})
  unfolding confirm
  confirm_prepared view x =
      if x.done
      then pure tt
      else (or_throw x.order nil_dereference >>= λ order. confirm order (with_order order view))

  unfoldable pub adjust_order : Option CheckoutOrder → M (Unit {0})
  unfolding confirm_prepared
  adjust_order none = do prepared ← prepare_adjustment p e now none; pure tt
  adjust_order (some order) = do
    view ← hydrate_adjustment p 7 e order now
    prepared ← prepare_adjustment p e now (some view)
    confirm_prepared view prepared

  unfoldable pub process_adjustment : M (Unit {0})
  unfolding adjusted_order adjust_order
  process_adjustment = do
    a ← retrieve_adjustment p now 0 e
    x ← adjustment_identity p 0 a
    found ← read_purchase_order x.identity
    order ← adjusted_order a x.identity found
    adjust_order order

abbrev pub kind_word : AdjustmentKind → Bytes
kind_word refund = codes "refund"
kind_word dispute = codes "dispute"

-- The pending adjustment that was touched first; the lowest ID breaks a tie.
unfoldable pub byte_less : Bytes → Bytes → Bool
byte_less [] [] = false
byte_less [] (y ∷ ys) = true
byte_less (x ∷ xs) [] = false
byte_less (x ∷ xs) (y ∷ ys) = ltb x y || (x == y && byte_less xs ys)

abbrev pub touched_before : BillingAdjustment → BillingAdjustment → Bool
touched_before a b =
    ltb a.updated_at b.updated_at
    || (a.updated_at == b.updated_at && byte_less a.stripe_object_id b.stripe_object_id)

abbrev pub sooner : BillingAdjustment → Option BillingAdjustment → Option BillingAdjustment
sooner a none = some a
sooner a (some b) = some (if touched_before b a then b else a)

unfoldable pub oldest_pending : List BillingAdjustment → Option BillingAdjustment
oldest_pending [] = none
oldest_pending (a ∷ rest) =
    let later = oldest_pending rest in if a.pending then sooner a later else later

abbrev pub created_before : StripeEvent → StripeEvent → Bool
created_before a b =
    ltb a.stripe_created_at b.stripe_created_at
    || (a.stripe_created_at == b.stripe_created_at && byte_less a.stripe_event_id b.stripe_event_id)

abbrev pub sooner_event : StripeEvent → Option StripeEvent → Option StripeEvent
sooner_event a none = some a
sooner_event a (some b) = some (if created_before b a then b else a)

abbrev pub retryable : Bytes → StripeEvent → Bool
retryable object_id e = bytes_eq e.object_id object_id && not (is_some e.processed)

-- The first event on the object that is not processed.
unfoldable pub retryable_event : Bytes → List StripeEvent → Option StripeEvent
retryable_event object_id [] = none
retryable_event object_id (e ∷ rest) =
    let later = retryable_event object_id rest in
    if retryable object_id e then sooner_event e later else later

abbrev pub repeated_event : BillingAdjustment → StripeEvent → BillingEvent
unfolding unix
repeated_event a row = record {
  id = row.stripe_event_id;
  object = [];
  api_version = [];
  event_type = row.event_type;
  created = unix row.stripe_created_at;
  livemode = none;
  object_id = a.stripe_object_id;
  object_kind = kind_word a.kind;
}

-- The pending adjustment with the event to repeat, of one SELECT.
unfoldable pub pending_adjustment : Db → Option (BillingAdjustment × Option StripeEvent)
unfolding oldest_pending retryable_event
pending_adjustment d = elim (oldest_pending d.billing_adjustments) [
  | none ↦ none
  | some a ↦ some (a, retryable_event a.stripe_object_id d.stripe_events)
]

module _ (p : EventProcessor) (now : Time) where
  unfoldable pub repair : BillingAdjustment → Option StripeEvent → M Bool
  repair a event = do
    row ← or_throw event database
    process_adjustment p (repeated_event a row) now
    found ← query (λ d. find_row (is_adjustment a.stripe_object_id) d.billing_adjustments)
    left ← or_throw found database
    throw_if left.pending invalid_adjustment
    pure true

  unfoldable pub repair_found : Option (BillingAdjustment × Option StripeEvent) → M Bool
  repair_found none = pure false
  repair_found (some (a, event)) = repair a event

  -- Whether there was one to repair.
  unfoldable pub repair_pending_adjustment : M Bool
  unfolding pending_adjustment repair_found
  repair_pending_adjustment = do found ← query pending_adjustment; repair_found found
