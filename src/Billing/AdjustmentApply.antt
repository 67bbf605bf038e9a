-- ===== src/Billing/AdjustmentApply.antt =====
-- internal/billing/adjustment_event.go: what the refunds and disputes of an order do to its
-- license, inside the transaction of one of them. The source reads fields of the session and of
-- the subscription that it has validated; here a missing one is refused.
use glass_eqserver.Prelude.{
  ◌+◌, ◌*◌, Bool, true, false, ◌&&◌, ◌||◌, not, Bytes, codes, Option, none, some, ltb, bytes_eq,
  find_row, if◌then◌else◌,
}
use glass_eqserver.Prelude.Int.{ltb_ℤ}
use glass_eqserver.Store.Tables.{
  Time, License, LicenseState, CheckoutOrder, is_monthly, is_perpetual, license_is_active,
}
use glass_eqserver.Store.Effect.{
  M, nil_dereference, invalid_adjustment, invalid_subscription, database, pure, throw_if, or_throw,
  query, execute, ◌>>=◌, ◌>>◌,
}
use glass_eqserver.Activation.Time.{day}
use glass_eqserver.Activation.Purchase.{issue_purchased_license}
use glass_eqserver.Billing.Objects.{
  SubscriptionStatus, canceled, incomplete_expired, past_due, StripeSubscription, Invoice,
  ChargeDetails, is_paid_invoice, some_such,
}
use glass_eqserver.Billing.AdjustmentClient.{is_canceled}
use glass_eqserver.Billing.Projection.{
  SubscriptionProjection, apply_payment, reconcile_subscription,
}
use glass_eqserver.Billing.Ledger.{BillingEvent, when, update_order}
use glass_eqserver.Billing.Processor.{
  EventProcessor, no_change, fulfilled_outcome, fulfil_perpetual,
}
use glass_eqserver.Billing.MonthlyRows.{
  is_of_license, new_subscription, insert_subscription, projection_of, monthly_fulfilled_by,
}
use glass_eqserver.Billing.MonthlyCommit.{period_of}
use glass_eqserver.Billing.Adjustment.{is_resolved_state}
use glass_eqserver.Billing.AdjustmentView.{AdjustmentView}
use glass_eqserver.Billing.AdjustmentRows.{
  Restriction, license_is, update_license_state, terminate_subscription, restore_subscription,
  refused_purchase, no_projection,
}

unfoldable pub subscription_can_bill : StripeSubscription → Bool
subscription_can_bill s = not (has_stopped s.status)
  where
    has_stopped : SubscriptionStatus → Bool
    has_stopped canceled = true
    has_stopped incomplete_expired = true
    has_stopped _ = false

-- The license of an order, if it has one, and its projection.
pub record Standing : Type 0 where
  pub license : Option (Bytes × LicenseState)
  pub previous : SubscriptionProjection

abbrev pub is_refunded : LicenseState → Bool
is_refunded LicenseState.refunded = true
is_refunded _ = false

abbrev pub is_charged_back : LicenseState → Bool
is_charged_back LicenseState.charged_back = true
is_charged_back _ = false

abbrev pub is_revoked : LicenseState → Bool
is_revoked LicenseState.revoked = true
is_revoked _ = false

abbrev pub license_such : (LicenseState → Bool) → Option (Bytes × LicenseState) → Bool
license_such p none = false
license_such p (some (id, state)) = p state

abbrev pub refund_word : Bool → Bytes
refund_word true = codes "refunded"
refund_word false = codes "charged_back"

abbrev pub refund_license_state : Bool → LicenseState
refund_license_state true = LicenseState.refunded
refund_license_state false = LicenseState.charged_back

module _ (p : EventProcessor) (e : BillingEvent) (now : Time) (view : AdjustmentView) where
  abbrev pub same_owner : License → CheckoutOrder → Bool
  same_owner l order =
      some_such view.session.customer (λ c. bytes_eq l.stripe_customer_id c)
      && (not (is_monthly order.plan)
          || some_such l.stripe_subscription_id
              (λ id. some_such view.subscription (λ s. bytes_eq id s.id)))

  unfoldable pub previous_projection : Bytes → CheckoutOrder → M SubscriptionProjection
  previous_projection id order =
      if is_monthly order.plan
      then (query (λ d. find_row (is_of_license id) d.subscriptions) >>= λ found.
          or_throw found database >>= λ row. pure (projection_of row))
      else pure no_projection

  unfoldable pub lock_license : Bytes → CheckoutOrder → M Standing
  unfolding previous_projection
  lock_license id order = do
    found ← query (λ d. find_row (license_is id) d.licenses)
    l ← or_throw found database
    throw_if (not (same_owner l order)) invalid_adjustment
    previous ← if is_revoked l.state then pure no_projection else previous_projection id order
    pure (record { license = some (id, l.state); previous = previous })

  unfoldable pub standing : Option Bytes → CheckoutOrder → M Standing
  standing none order = pure (record { license = none; previous = no_projection })
  standing (some id) order = lock_license id order

  unfoldable pub refuse_order : CheckoutOrder → M (Unit {0})
  refuse_order order =
      if is_monthly order.plan
      then (or_throw view.subscription nil_dereference >>= λ s.
          execute (update_order order.id (refused_purchase view.session.id none (some s.id))))
      else (or_throw view.session.payment_intent nil_dereference >>= λ i.
          execute (update_order order.id (refused_purchase view.session.id (some i.id) none)))

  unfoldable pub terminate : Bytes → Option Time → M (Unit {0})
  terminate id effective_at = do
    t ← or_throw effective_at database
    execute (terminate_subscription id t)

  unfoldable pub restrict_license :
      CheckoutOrder → Restriction → Option (Bytes × LicenseState) → M Bytes
  unfolding refuse_order terminate
  restrict_license order r none = do refuse_order order; pure (refund_word r.refund)
  restrict_license order r (some (id, state)) =
      if is_refunded state && not r.refund
      then pure no_change
      else (execute (update_license_state id (refund_license_state r.refund) now)
          >> (when (is_monthly order.plan) (terminate id r.effective_at)
              >> pure (refund_word r.refund)))

  -- A subscription that can still bill is canceled first.
  abbrev pub can_bill : CheckoutOrder → Bool
  can_bill order = is_monthly order.plan && some_such view.subscription subscription_can_bill

  unfoldable pub restrict : CheckoutOrder → Restriction → Option (Bytes × LicenseState) → M Bytes
  restrict order r license =
      if can_bill order then pure no_change else restrict_license order r license

  abbrev pub may_restore : SubscriptionStatus → Bool
  may_restore SubscriptionStatus.active = true
  may_restore past_due = true
  may_restore SubscriptionStatus.unpaid = true
  may_restore canceled = true
  may_restore _ = false

  -- One round of the loop over the invoices.
  unfoldable pub with_invoice :
      CheckoutOrder
      → StripeSubscription
      → Option Invoice
      → SubscriptionProjection
      → M SubscriptionProjection
  unfolding period_of
  with_invoice order s invoice previous = do
    end ← period_of p e now invoice s order
    i ← or_throw invoice nil_dereference
    pure (apply_payment previous i.id end)

  abbrev pub without_retry : StripeSubscription → SubscriptionProjection → SubscriptionProjection
  without_retry s x = if is_canceled s.status then record x { recovery_until = x.period_end } else x

  unfoldable pub restored_projection :
      CheckoutOrder
      → StripeSubscription
      → SubscriptionProjection
      → M (SubscriptionProjection × Bool)
  unfolding with_invoice
  restored_projection order s previous = do
    first ← with_invoice order s view.initial previous
    second ← with_invoice order s view.invoice first
    third ← with_invoice order s view.latest second
    end ← period_of p e now view.latest s order
    latest ← or_throw view.latest nil_dereference
    next_projection ←
        or_throw (reconcile_subscription third s latest.id end now) invalid_subscription
    let final = without_retry s next_projection
    pure (final, ltb now (final.recovery_until + 7 * day))

  -- The projection, and whether it entitles to anything still.
  unfoldable pub restoration_projection :
      CheckoutOrder → SubscriptionProjection → M (SubscriptionProjection × Bool)
  unfolding restored_projection
  restoration_projection order previous =
      if some_such view.initial (λ i. is_paid_invoice i.status)
      then (or_throw view.subscription nil_dereference >>= λ s.
          if may_restore s.status
          then restored_projection order s previous
          else pure (previous, false))
      else pure (previous, false)

  unfoldable pub issue_monthly_purchase : CheckoutOrder → SubscriptionProjection → M Bytes
  issue_monthly_purchase order projection = do
    customer ← or_throw view.session.customer nil_dereference
    subscription ← or_throw view.session.subscription nil_dereference
    email ← or_throw view.session.customer_details nil_dereference
    license_id ←
        issue_purchased_license p.licenses
          (record {
            plan = order.plan;
            subscription_id = subscription;
            policy_version = order.policy_version;
            customer_id = customer;
            email = email;
          })
          now
    execute (insert_subscription (new_subscription license_id projection))
    execute
        (update_order order.id (monthly_fulfilled_by license_id now view.session.id subscription))
    pure fulfilled_outcome

  unfoldable pub restore_license :
      CheckoutOrder → Bytes → LicenseState → SubscriptionProjection → M Bytes
  restore_license order id state projection =
      if is_charged_back state || license_is_active state
      then (execute (update_license_state id LicenseState.active now)
          >> (when (is_monthly order.plan) (execute (restore_subscription id projection))
              >> pure (codes "restored")))
      else pure no_change

  -- `issuePerpetualPurchase` has the statements of the event's own fulfilment.
  unfoldable pub restore :
      CheckoutOrder → Option (Bytes × LicenseState) → SubscriptionProjection → M Bytes
  unfolding issue_monthly_purchase
  restore order none projection =
      if is_perpetual order.plan
      then fulfil_perpetual p e view.session now order
      else issue_monthly_purchase order projection
  restore order (some (id, state)) projection = restore_license order id state projection

  unfoldable pub restore_monthly :
      CheckoutOrder → Option (Bytes × LicenseState) → SubscriptionProjection → M Bytes
  unfolding restoration_projection
  restore_monthly order license previous = do
    (projection, eligible) ← restoration_projection order previous
    if not eligible && not (license_such license_is_active license)
        then pure no_change
        else restore order license projection

  abbrev pub still_charged : ChargeDetails → Bool
  still_charged c = c.paid && not c.refunded && ltb_ℤ c.amount_refunded c.amount

  abbrev pub restorable : CheckoutOrder → Option (Bytes × LicenseState) → Bool
  restorable order license =
      is_resolved_state view.adjustment.state
      && not (license_such is_refunded license)
      && not (license_such license_is_active license && is_perpetual order.plan)
      && still_charged view.adjustment.charge

  unfoldable pub resolve :
      CheckoutOrder → Option (Bytes × LicenseState) → SubscriptionProjection → M Bytes
  unfolding restore_monthly restore
  resolve order license previous =
      if not (restorable order license)
      then pure no_change
      else if is_monthly order.plan
      then restore_monthly order license previous
      else restore order license no_projection

  unfoldable pub apply_restriction : CheckoutOrder → Restriction → Standing → M Bytes
  unfolding restrict resolve
  apply_restriction order r x =
      if license_such is_revoked x.license
      then pure no_change
      else if r.blocked
      then restrict order r x.license
      else resolve order x.license x.previous
