-- ===== src/Billing/Projection/Repeat.antt =====
-- internal/billing/subscription.go: an event that is delivered again.
use glass_eqserver.Prelude.{Bytes, some, ◌≡◌, bytes_eq_refl, arith}
use glass_eqserver.Store.Tables.{Time}
use glass_eqserver.Billing.Objects.{
  SubscriptionStatus, past_due, canceled, incomplete, incomplete_expired, trialing, paused,
  other_status, StripeSubscription,
}
use glass_eqserver.Billing.Projection.{
  SubscriptionProjection, apply_payment, apply_status, settle_ending, reconcile_subscription,
}

-- No second payment is applied for an invoice that the projection has.
abbrev Settled : Bytes → Time → SubscriptionProjection → Type 0
Settled invoice paid_end p = apply_payment p invoice paid_end ≡ p

status_twice :
    (status : SubscriptionStatus) (s : StripeSubscription) (invoice : Bytes) (paid_end now : Time)
    (p q : SubscriptionProjection)
    → Settled invoice paid_end p
    → settle_ending now (apply_status status s now p) ≡ some q
    → settle_ending now (apply_status status s now (apply_payment q invoice paid_end)) ≡ some q
unfolding apply_status settle_ending apply_payment
status_twice SubscriptionStatus.active s invoice paid_end now p q h e = ground arith
status_twice past_due s invoice paid_end now p q h e = ground arith
status_twice SubscriptionStatus.unpaid s invoice paid_end now p q h e = ground arith
status_twice canceled s invoice paid_end now p q h e = ground arith
status_twice incomplete s invoice paid_end now p q h e = cc
status_twice incomplete_expired s invoice paid_end now p q h e = cc
status_twice trialing s invoice paid_end now p q h e = cc
status_twice paused s invoice paid_end now p q h e = cc
status_twice (other_status word) s invoice paid_end now p q h e = cc

apply_payment-Settled :
    (p : SubscriptionProjection) (invoice : Bytes) (paid_end : Time)
    → Settled invoice paid_end (apply_payment p invoice paid_end)
unfolding apply_payment
apply_payment-Settled p invoice paid_end = ground (arith, bytes_eq_refl invoice)

-- Where a reconciliation succeeds, reconciling a second time with the same report at the same time
-- changes nothing more.
pub reconcile_subscription_idem :
    (previous p : SubscriptionProjection) (s : StripeSubscription) (invoice : Bytes)
    (paid_end now : Time)
    → reconcile_subscription previous s invoice paid_end now ≡ some p
    → reconcile_subscription p s invoice paid_end now ≡ some p
unfolding reconcile_subscription
reconcile_subscription_idem previous p s invoice paid_end now e =
    status_twice s.status s invoice paid_end now (apply_payment previous invoice paid_end) p
      (apply_payment-Settled previous invoice paid_end) e
