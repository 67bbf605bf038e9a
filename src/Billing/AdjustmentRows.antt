-- ===== src/Billing/AdjustmentRows.antt =====
-- internal/billing/adjustment_event.go: the rows that a refund or a dispute reads and writes.
use glass_eqserver.Prelude.{
  Bool, true, false, ◌&&◌, ◌||◌, not, Bytes, List, [], ◌∷◌, Option, none, some, ltb, bytes_eq,
  find_row, exists_row, update_rows, if◌then◌else◌,
}
use glass_eqserver.Store.Tables.{
  Time, License, LicenseState, Subscription, CheckoutOrder, OrderState, AdjustmentKind, refund,
  dispute, AdjustmentState, BillingAdjustment, Db, is_blocking,
}
use glass_eqserver.Entitlement.Claims.{other_billing}
use glass_eqserver.Billing.Projection.{SubscriptionProjection}
use glass_eqserver.Billing.Ledger.{is_blocked_by}
use glass_eqserver.Billing.MonthlyRows.{is_of_license, subscription_allowed, projected}

abbrev pub is_adjustment : Bytes → BillingAdjustment → Bool
is_adjustment id a = bytes_eq a.stripe_object_id id

abbrev pub is_refund : AdjustmentKind → Bool
is_refund refund = true
is_refund dispute = false

-- The CHECK constraint on the kind and the state.
abbrev pub adjustment_allowed : BillingAdjustment → Bool
adjustment_allowed a = not (is_refund a.kind) || is_blocking a.state

-- INSERT … ON CONFLICT (stripe_object_id) DO NOTHING.
unfoldable pub insert_adjustment : BillingAdjustment → Db → Option (Db × Unit {0})
insert_adjustment new d =
    if exists_row (is_adjustment new.stripe_object_id) d.billing_adjustments
    then some (d, tt)
    else if adjustment_allowed new
    then some (record d { billing_adjustments = new ∷ d.billing_adjustments }, tt)
    else none

abbrev pub refused : (BillingAdjustment → BillingAdjustment) → BillingAdjustment → Bool
refused f a = not (adjustment_allowed (f a))

-- UPDATE billing_adjustments … WHERE stripe_object_id = $1.
unfoldable pub update_adjustment :
    Bytes → (BillingAdjustment → BillingAdjustment) → Db → Option (Db × Unit {0})
update_adjustment id f d =
    if exists_row (λ a. is_adjustment id a && refused f a) d.billing_adjustments
    then none
    else some (
      record d { billing_adjustments = update_rows (is_adjustment id) f d.billing_adjustments },
      tt,
    )

abbrev pub is_of_order : Bytes → BillingAdjustment → Bool
is_of_order order_id a = bytes_eq a.order_id order_id

abbrev pub without_cancellation : BillingAdjustment → BillingAdjustment
without_cancellation a = record a { cancel_required = false }

unfoldable pub clear_cancellations : Bytes → Db → Option (Db × Unit {0})
clear_cancellations order_id d = some (
  record d {
    billing_adjustments =
        update_rows (is_of_order order_id) without_cancellation d.billing_adjustments;
  },
  tt,
)

abbrev pub intended : AdjustmentState → Bool → Time → BillingAdjustment → BillingAdjustment
intended state cancel now a = record a {
  state = state;
  pending = true;
  cancel_required = a.cancel_required || cancel;
  updated_at = now;
}

abbrev pub confirmed : Time → BillingAdjustment → BillingAdjustment
confirmed now a = record a { pending = false; updated_at = now }

abbrev pub in_state : AdjustmentState → BillingAdjustment → BillingAdjustment
in_state state a = record a { state = state }

-- What blocks an order: whether a refund does, whether anything does, and since when.
pub record Restriction : Type 0 where
  pub refund : Bool
  pub blocked : Bool
  pub effective_at : Option Time

abbrev pub earliest : Time → Option Time → Option Time
earliest t none = some t
earliest t (some u) = some (if ltb t u then t else u)

unfoldable pub first_effect : Bytes → List BillingAdjustment → Option Time
first_effect order_id [] = none
first_effect order_id (a ∷ rest) =
    let later = first_effect order_id rest in
    if is_blocked_by order_id a then earliest a.effective_at later else later

unfoldable pub restriction_of : Bytes → Db → Restriction
unfolding first_effect
restriction_of order_id d = record {
  refund = exists_row (λ a. is_blocked_by order_id a && is_refund a.kind) d.billing_adjustments;
  blocked = exists_row (is_blocked_by order_id) d.billing_adjustments;
  effective_at = first_effect order_id d.billing_adjustments;
}

abbrev pub license_is : Bytes → License → Bool
license_is id l = bytes_eq l.id id

abbrev pub with_state : LicenseState → Time → License → License
with_state state now l = record l { state = state; updated_at = now }

unfoldable pub update_license_state : Bytes → LicenseState → Time → Db → Option (Db × Unit {0})
update_license_state id state now d =
    some (record d { licenses = update_rows (license_is id) (with_state state now) d.licenses }, tt)

abbrev pub least : Time → Time → Time
least a b = if ltb a b then a else b

-- LEAST(COALESCE(terminal_at, $2), $2, recovery_until).
abbrev pub terminal_time : Time → Subscription → Time
terminal_time effective_at r = elim r.terminal_at [
  | none ↦ least effective_at r.recovery_until
  | some t ↦ least (least t effective_at) r.recovery_until
]

abbrev pub terminated : Time → Subscription → Subscription
terminated effective_at r = record r { terminal_at = some (terminal_time effective_at r) }

unfoldable pub terminate_subscription : Bytes → Time → Db → Option (Db × Unit {0})
terminate_subscription license_id effective_at d = some (
  record d {
    subscriptions =
        update_rows (is_of_license license_id) (terminated effective_at) d.subscriptions;
  },
  tt,
)

abbrev pub restored : SubscriptionProjection → Subscription → Subscription
restored p r = record (projected p r) { terminal_at = none }

unfoldable pub restore_subscription : Bytes → SubscriptionProjection → Db → Option (Db × Unit {0})
restore_subscription license_id p d = elim (find_row (is_of_license license_id) d.subscriptions) [
  | none ↦ some (d, tt)
  | some r ↦
      if subscription_allowed (restored p r) d
      then some (
        record d {
          subscriptions = update_rows (is_of_license license_id) (restored p) d.subscriptions;
        },
        tt,
      )
      else none
]

abbrev pub refused_purchase : Bytes → Option Bytes → Option Bytes → CheckoutOrder → CheckoutOrder
refused_purchase session_id payment_id subscription_id o = record o {
  state = OrderState.failed;
  stripe_checkout_session_id = some session_id;
  stripe_payment_intent_id = payment_id;
  stripe_subscription_id = subscription_id;
}

-- The source's zero `subscriptionProjection`.
abbrev pub no_projection : SubscriptionProjection
no_projection = record {
  state = other_billing [];
  period_end = 0;
  recovery_until = 0;
  last_paid_invoice = [];
}
