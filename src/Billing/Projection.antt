-- ===== src/Billing/Projection.antt =====
-- internal/billing/subscription.go: the projection of a Stripe subscription that entitlements are
-- issued from.
pub mod Deadlines
pub mod Repeat
use glass_eqserver.Prelude.{
  ℕ, ◌+◌, Bool, true, false, ◌&&◌, not, Bytes, Option, none, some, ltb, bytes_eq, if◌then◌else◌,
}
use glass_eqserver.Entitlement.Claims.{BillingState, recovering, ending, lapsed}
use glass_eqserver.Store.Tables.{Time}
use glass_eqserver.Billing.Objects.{
  SubscriptionStatus, past_due, unpaid, canceled, CancellationReason, cancellation_requested,
  payment_failed, payment_disputed, other_reason, StripeSubscription,
}

pub record SubscriptionProjection : Type 0 where
  pub state : BillingState
  pub period_end : Time
  pub recovery_until : Time
  pub last_paid_invoice : Bytes

-- 14 * 24 * time.Hour.
abbrev pub recovery_period : ℕ
recovery_period = 1209600000000

unfoldable pub max_recovery_deadline : Time → Time → Time
max_recovery_deadline a b = if ltb a b then b else a

-- A newer paid invoice moves the period, and gives the full recovery period behind it.
unfoldable pub apply_payment : SubscriptionProjection → Bytes → Time → SubscriptionProjection
apply_payment p invoice paid_end =
    if ltb p.period_end paid_end && not (bytes_eq invoice p.last_paid_invoice)
    then record p {
      period_end = paid_end;
      last_paid_invoice = invoice;
      recovery_until = paid_end + recovery_period;
    }
    else p

abbrev pub ended : SubscriptionProjection → SubscriptionProjection
ended p = record p { state = ending; recovery_until = p.period_end }

abbrev pub in_recovery : SubscriptionProjection → SubscriptionProjection
in_recovery p = record p {
  state = recovering;
  recovery_until = max_recovery_deadline p.recovery_until (p.period_end + recovery_period);
}

abbrev pub current : SubscriptionProjection → SubscriptionProjection
current p = record p {
  state = BillingState.active;
  recovery_until = p.period_end + recovery_period;
}

abbrev pub run_out : SubscriptionProjection → SubscriptionProjection
run_out p = record p { state = lapsed }

unfoldable pub apply_cancellation :
    Option CancellationReason → SubscriptionProjection → Option SubscriptionProjection
apply_cancellation none p = none
apply_cancellation (some cancellation_requested) p =
    some (record p { state = lapsed; recovery_until = p.period_end })
apply_cancellation (some payment_failed) p = some (run_out p)
apply_cancellation (some payment_disputed) p = some (run_out p)
apply_cancellation (some (other_reason word)) p = none

-- `none` stands for ErrInvalidSubscription.
unfoldable pub apply_status :
    SubscriptionStatus
    → StripeSubscription
    → Time
    → SubscriptionProjection
    → Option SubscriptionProjection
unfolding max_recovery_deadline apply_cancellation
apply_status SubscriptionStatus.active s now p =
    if s.cancel_at_period_end
    then some (ended p)
    else if ltb now p.period_end
    then some (current p)
    else some (in_recovery p)
apply_status past_due s now p =
    if s.cancel_at_period_end then some (ended p) else some (in_recovery p)
apply_status SubscriptionStatus.unpaid s now p = some (run_out p)
apply_status canceled s now p = apply_cancellation s.cancellation_details p
apply_status _ s now p = none

abbrev pub is_ending : BillingState → Bool
is_ending ending = true
is_ending _ = false

-- A subscription that is ending has lapsed once its period is over.
unfoldable pub settle_ending : Time → Option SubscriptionProjection → Option SubscriptionProjection
settle_ending now none = none
settle_ending now (some p) =
    some (if is_ending p.state && not (ltb now p.period_end) then run_out p else p)

unfoldable pub reconcile_subscription :
    SubscriptionProjection
    → StripeSubscription
    → Bytes
    → Time
    → Time
    → Option SubscriptionProjection
unfolding apply_payment apply_status settle_ending
reconcile_subscription previous s invoice paid_end now =
    settle_ending now (apply_status s.status s now (apply_payment previous invoice paid_end))
