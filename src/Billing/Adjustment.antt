-- ===== src/Billing/Adjustment.antt =====
-- internal/billing/adjustment.go: what is fetched from Stripe of a refund or a dispute, and of the
-- purchase behind it. The requests are numbered from `n`.
use glass_eqserver.Prelude.{
  ℕ, ◌+◌, Bool, true, false, ◌&&◌, ◌||◌, not, Bytes, codes, List, [], ◌∷◌, Option, none, some,
  bytes_eq, select_rows, if◌then◌else◌,
}
use glass_eqserver.Prelude.Int.{ℤ, pos, ltb_ℤ}
use glass_eqserver.Store.Tables.{
  Time, CheckoutOrder, AdjustmentKind, AdjustmentState, blocking, resolved, refund, dispute,
}
use glass_eqserver.Store.Effect.{
  M, invalid_adjustment, pure, throw, throw_if, or_throw, query, ◌>>=◌, ◌>>◌,
}
use glass_eqserver.Activation.Purchase.{is_empty}
use glass_eqserver.Billing.Objects.{
  RefundStatus, succeeded, other_refund, DisputeStatus, needs_response, under_review, lost, won,
  warning_closed, prevented, warning_needs_response, warning_under_review, other_dispute,
  ChargeDetails, PaymentIntent, some_such,
}
use glass_eqserver.Billing.Client.{same_bool, valid_stripe_id}
use glass_eqserver.Billing.AdjustmentClient.{retrieve_refund, retrieve_dispute, retrieve_charge}
use glass_eqserver.Billing.Monthly.{unix_time}
use glass_eqserver.Billing.Ledger.{BillingEvent, holds_text, is_order}
use glass_eqserver.Billing.Decode.{latest_creation}
use glass_eqserver.Billing.Processor.{EventProcessor}

pub record PurchaseIdentity : Type 0 where
  pub session_id : Bytes
  pub reference_id : Bytes
  pub subscription_id : Bytes
  pub payment_id : Bytes

abbrev pub no_identity : PurchaseIdentity
no_identity = record { session_id = []; reference_id = []; subscription_id = []; payment_id = [] }

-- The source's `metadataID` is always empty.
abbrev pub identifies : PurchaseIdentity → CheckoutOrder → Bool
identifies i o =
    holds_text o.stripe_checkout_session_id i.session_id
    || is_order i.reference_id o
    || is_order [] o
    || holds_text o.stripe_subscription_id i.subscription_id
    || holds_text o.stripe_payment_intent_id i.payment_id

unfoldable pub sole_purchase_order : List CheckoutOrder → M (Option CheckoutOrder)
sole_purchase_order [] = pure none
sole_purchase_order (o ∷ []) = pure (some o)
sole_purchase_order (o ∷ other ∷ rest) = throw invalid_adjustment

unfoldable pub read_purchase_order : PurchaseIdentity → M (Option CheckoutOrder)
unfolding sole_purchase_order
read_purchase_order i = do
  rows ← query (λ d. select_rows (identifies i) d.checkout_orders)
  sole_purchase_order rows

pub record Adjustment : Type 0 where
  pub id : Bytes
  pub kind : AdjustmentKind
  pub state : Option AdjustmentState
  pub charge_id : Bytes
  pub effective_at : Time
  pub charge : ChargeDetails

-- What a refund and a dispute have in common.
pub record Reported : Type 0 where
  pub kind : AdjustmentKind
  pub state : Option AdjustmentState
  pub charge_id : Bytes
  pub created : ℤ
  pub amount : ℤ
  pub currency : Bytes
  pub payment_intent : Option Bytes

-- The state that a status leads to, if the status is one that is known.
unfoldable pub refund_state : RefundStatus → Option (Option AdjustmentState)
refund_state succeeded = some (some blocking)
refund_state (other_refund word) = none
refund_state _ = some none

unfoldable pub dispute_state : DisputeStatus → Option (Option AdjustmentState)
dispute_state needs_response = some (some blocking)
dispute_state under_review = some (some blocking)
dispute_state lost = some (some blocking)
dispute_state won = some (some resolved)
dispute_state warning_closed = some (some resolved)
dispute_state prevented = some (some resolved)
dispute_state warning_needs_response = some none
dispute_state warning_under_review = some none
dispute_state (other_dispute word) = none

abbrev pub kind_of : BillingEvent → AdjustmentKind
kind_of e = if bytes_eq e.object_kind (codes "refund") then refund else dispute

-- An intent that the refund or the dispute names is the charge's.
unfoldable pub intent_matches : Option Bytes → Option PaymentIntent → Bool
intent_matches none intent = true
intent_matches (some id) intent = is_empty id || some_such intent (λ i. bytes_eq i.id id)

abbrev pub is_blocking_state : Option AdjustmentState → Bool
is_blocking_state (some blocking) = true
is_blocking_state _ = false

abbrev pub is_resolved_state : Option AdjustmentState → Bool
is_resolved_state (some resolved) = true
is_resolved_state _ = false

-- A partial refund leaves the access.
unfoldable pub effective_state : Reported → ChargeDetails → Option AdjustmentState
effective_state r charge = elim r.kind [
  | refund ↦ if ltb_ℤ r.amount charge.amount then none else r.state
  | dispute ↦ r.state
]

-- A refund fits its charge.
unfoldable pub amounts_fit : Reported → ChargeDetails → Bool
unfolding effective_state
amounts_fit r charge = elim r.kind [
  | refund ↦
      not (ltb_ℤ charge.amount r.amount)
      && (not (is_blocking_state (effective_state r charge))
          || (charge.refunded && not (ltb_ℤ charge.amount_refunded r.amount)))
  | dispute ↦ true
]

module _ (p : EventProcessor) (now : Time) (n : ℕ) where
  unfoldable pub reported_refund : Bytes → M Reported
  unfolding refund_state
  reported_refund id = do
    x ← retrieve_refund p.checkout (p.stripe n) id
    charge ← or_throw x.charge invalid_adjustment
    state ← or_throw (refund_state x.status) invalid_adjustment
    pure (record {
      kind = refund;
      state = state;
      charge_id = charge;
      created = x.created;
      amount = x.amount;
      currency = x.currency;
      payment_intent = x.payment_intent;
    })

  unfoldable pub reported_dispute : Bytes → M Reported
  unfolding dispute_state
  reported_dispute id = do
    x ← retrieve_dispute p.checkout (p.stripe n) id
    throw_if (not (same_bool x.livemode p.live_mode)) invalid_adjustment
    charge ← or_throw x.charge invalid_adjustment
    state ← or_throw (dispute_state x.status) invalid_adjustment
    pure (record {
      kind = dispute;
      state = state;
      charge_id = charge;
      created = x.created;
      amount = x.amount;
      currency = x.currency;
      payment_intent = x.payment_intent;
    })

  unfoldable pub reported : AdjustmentKind → Bytes → M Reported
  reported refund id = reported_refund id
  reported dispute id = reported_dispute id

  abbrev pub reported_valid : Reported → Bool
  reported_valid r =
      valid_stripe_id p.checkout.platform r.charge_id (codes "ch_")
      && ltb_ℤ (pos 0) r.amount
      && ltb_ℤ (pos 0) r.created
      && not (ltb_ℤ (latest_creation now) r.created)

  abbrev pub charge_valid : Reported → ChargeDetails → Bool
  charge_valid r charge =
      same_bool charge.livemode p.live_mode
      && ltb_ℤ (pos 0) charge.amount
      && bytes_eq charge.currency r.currency
      && intent_matches r.payment_intent charge.payment_intent

  unfoldable pub retrieve_adjustment : BillingEvent → M Adjustment
  unfolding intent_matches effective_state amounts_fit unix_time
  retrieve_adjustment e = do
    r ← reported (kind_of e) e.object_id
    throw_if (not (reported_valid r)) invalid_adjustment
    charge ← retrieve_charge p.checkout (p.stripe (n + 1)) r.charge_id
    throw_if (not (charge_valid r charge)) invalid_adjustment
    throw_if (not (amounts_fit r charge)) invalid_adjustment
    pure (record {
      id = e.object_id;
      kind = r.kind;
      state = effective_state r charge;
      charge_id = r.charge_id;
      effective_at = unix_time r.created;
      charge = charge;
    })
