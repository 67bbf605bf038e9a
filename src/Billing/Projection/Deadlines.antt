-- ===== src/Billing/Projection/Deadlines.antt =====
-- internal/billing/subscription.go: the deadlines and the states that a reconciliation leaves.
use glass_eqserver.Prelude.{◌+◌, ◌≤◌, ◌<◌, Bytes, Option, none, some, ◌≡◌, ◌⊎◌, arith}
use glass_eqserver.Entitlement.Claims.{BillingState, recovering, ending, lapsed}
use glass_eqserver.Store.Tables.{Time}
use glass_eqserver.Billing.Objects.{
  SubscriptionStatus, past_due, canceled, incomplete, incomplete_expired, trialing, paused,
  other_status, StripeSubscription,
}
use glass_eqserver.Billing.Projection.{
  SubscriptionProjection, recovery_period, apply_payment, apply_status, settle_ending,
  reconcile_subscription,
}

-- `CHECK (billing_period_end <= recovery_until)` of the table `subscriptions`.
pub record IsOrdered (p : SubscriptionProjection) : Type 0 where
  pub ordered : p.period_end ≤ p.recovery_until

-- What each state says of the deadlines at the time of the reconciliation.
abbrev pub StateFits : Time → SubscriptionProjection → BillingState → Type 0
StateFits now p BillingState.active =
    (now < p.period_end) × (p.recovery_until ≡ p.period_end + recovery_period)
StateFits now p recovering = p.period_end + recovery_period ≤ p.recovery_until
StateFits now p ending = (now < p.period_end) × (p.recovery_until ≡ p.period_end)
StateFits now p lapsed = Unit
StateFits now p _ = ⊥

-- The properties of one reconciliation, for the projection that it returns.
pub record Reconciled (previous : SubscriptionProjection) (invoice : Bytes) (paid_end now : Time)
    (p : SubscriptionProjection) : Type 0 where
  pub ordered : p.period_end ≤ p.recovery_until
  pub monotone : previous.period_end ≤ p.period_end
  pub fits : StateFits now p p.state
  pub source :
      (p.period_end ≡ previous.period_end)
      ⊎ ((p.period_end ≡ paid_end) × (p.last_paid_invoice ≡ invoice))

abbrev pub Holds : (SubscriptionProjection → Type 0) → Option SubscriptionProjection → Type 0
Holds P none = Unit
Holds P (some p) = P p

module _ (previous : SubscriptionProjection) (invoice : Bytes) (paid_end now : Time) where
  -- What holds between the payment and the status.
  abbrev Paid : SubscriptionProjection → Type 0
  Paid p =
      (p.period_end ≤ p.recovery_until)
      × (previous.period_end ≤ p.period_end)
      × ((p.period_end ≡ previous.period_end)
          ⊎ ((p.period_end ≡ paid_end) × (p.last_paid_invoice ≡ invoice)))

  apply_payment-Paid :
      previous.period_end ≤ previous.recovery_until → Paid (apply_payment previous invoice paid_end)
  unfolding apply_payment
  apply_payment-Paid h = ground arith

  status-Reconciled :
      (status : SubscriptionStatus) (s : StripeSubscription) (p : SubscriptionProjection)
      → Paid p
      → Holds
          (Reconciled previous invoice paid_end now)
          (settle_ending now (apply_status status s now p))
  unfolding apply_status settle_ending
  status-Reconciled SubscriptionStatus.active s p h = ground arith
  status-Reconciled past_due s p h = ground arith
  status-Reconciled SubscriptionStatus.unpaid s p h = ground arith
  status-Reconciled canceled s p h = ground arith
  status-Reconciled incomplete s p h = tt
  status-Reconciled incomplete_expired s p h = tt
  status-Reconciled trialing s p h = tt
  status-Reconciled paused s p h = tt
  status-Reconciled (other_status word) s p h = tt

-- From a projection whose period ends no later than its recovery deadline, and whatever Stripe
-- reports, a reconciliation that succeeds keeps that order, never moves the period's end back,
-- moves it only to the end of the invoice that it records, and returns one of four states: active,
-- only before the period's end and with the full recovery period; recovering, with at least that
-- much; ending, only before the period's end and with no recovery; or lapsed.
pub reconcile_subscription-Reconciled :
    (previous : SubscriptionProjection) (s : StripeSubscription) (invoice : Bytes)
    (paid_end now : Time)
    → previous.period_end ≤ previous.recovery_until
    → Holds
        (Reconciled previous invoice paid_end now)
        (reconcile_subscription previous s invoice paid_end now)
unfolding reconcile_subscription
reconcile_subscription-Reconciled previous s invoice paid_end now h =
    status-Reconciled previous invoice paid_end now s.status s
      (apply_payment previous invoice paid_end) (apply_payment-Paid previous invoice paid_end now h)
