-- ===== src/Billing/MonthlyCommit.antt =====
-- internal/billing/monthly_event.go: the transaction that applies a monthly purchase to the order,
-- the license and the subscription.
pub mod Revision
use glass_eqserver.Prelude.{
  ℕ, ◌+◌, Bool, true, false, ◌&&◌, ◌||◌, not, Bytes, codes, [], Option, none, some, is_some, ltb,
  bytes_eq, find_row, if◌then◌else◌, ◌==◌,
}
use glass_eqserver.Entitlement.Payload.{billing_word}
use glass_eqserver.Store.Tables.{
  Time, License, Subscription, CheckoutOrder, OrderState, Db, license_is_active,
}
use glass_eqserver.Store.Effect.{
  M, nil_dereference, invalid_subscription, snapshot_changed, database, pure, throw, throw_if,
  or_throw, query, execute, transact, ◌>>=◌, ◌>>◌,
}
use glass_eqserver.Activation.Purchase.{issue_purchased_license}
use glass_eqserver.Billing.Objects.{StripeSubscription, Invoice, CheckoutSession, is_paid_invoice}
use glass_eqserver.Billing.Projection.{SubscriptionProjection, reconcile_subscription}
use glass_eqserver.Billing.Monthly.{validate_monthly_session, monthly_invoice_period}
use glass_eqserver.Billing.Ledger.{
  BillingEvent, when, holds_text, is_order, update_order, advanced, complete_event,
  matching_billing_event, billing_restriction,
}
use glass_eqserver.Billing.Processor.{
  EventProcessor, no_change, ignored_unowned, fulfilled_outcome, failed_outcome, is_failure,
}
use glass_eqserver.Billing.MonthlyRows.{
  Snapshot, read_monthly_order, is_of_license, update_subscription, new_subscription,
  insert_subscription, projection_of, same_projection, is_active, has_ended, is_expired,
  is_paid_cancellation, monthly_fulfilled_by, unpaid_with, id_of, first_projection,
}

abbrev pub has_license_id : Bytes → License → Bool
has_license_id id l = bytes_eq l.id id

module _ (p : EventProcessor) (event : BillingEvent) (now : Time) where
  -- monthlyInvoicePeriod refuses a nil invoice.
  unfoldable pub period_of : Option Invoice → StripeSubscription → CheckoutOrder → M Time
  period_of none s order = throw invalid_subscription
  period_of (some invoice) s order =
      or_throw (monthly_invoice_period p.checkout.platform invoice s order p.products.monthly)
        invalid_subscription

  module _ (x : Snapshot) where
    unfoldable pub reconcile_license : Bytes → CheckoutOrder → StripeSubscription → M Bytes
    unfolding period_of
    reconcile_license license_id order s = do
      found ← query (λ d. find_row (is_of_license license_id) d.subscriptions)
      row ← or_throw found database
      paid_end ← period_of x.latest s order
      latest ← or_throw x.latest nil_dereference
      projection ←
          or_throw (reconcile_subscription (projection_of row) s latest.id paid_end now)
            invalid_subscription
      execute (update_subscription license_id projection)
      pure (
          if same_projection projection (projection_of row)
          then no_change
          else billing_word projection.state)

    unfoldable pub update_license : Bytes → CheckoutOrder → M Bytes
    update_license license_id order = do
      found ← query (λ d. find_row (has_license_id license_id) d.licenses)
      license ← or_throw found database
      subscription_id ← or_throw license.stripe_subscription_id database
      s ← or_throw x.subscription invalid_subscription
      customer ← or_throw s.customer nil_dereference
      throw_if (not (bytes_eq customer license.stripe_customer_id && bytes_eq s.id subscription_id))
          invalid_subscription
      if license_is_active license.state
          then reconcile_license license_id order s
          else pure no_change

    unfoldable pub issue_monthly_license : CheckoutOrder → StripeSubscription → M Bytes
    issue_monthly_license order s = do
      customer ← or_throw x.session.customer nil_dereference
      email ← or_throw x.session.customer_details nil_dereference
      issue_purchased_license p.licenses
          (record {
            plan = order.plan;
            subscription_id = s.id;
            policy_version = order.policy_version;
            customer_id = customer;
            email = email;
          })
          now

    unfoldable pub fulfil_paid :
        CheckoutOrder → StripeSubscription → Invoice → Time → Time → M Bytes
    fulfil_paid order s initial initial_end paid_end = do
      latest ← or_throw x.latest nil_dereference
      projection ←
          or_throw
            (reconcile_subscription (first_projection initial initial_end) s latest.id paid_end now)
            invalid_subscription
      license_id ← issue_monthly_license order s
      execute (insert_subscription (new_subscription license_id projection))
      execute (update_order order.id (monthly_fulfilled_by license_id now x.session.id s.id))
      pure fulfilled_outcome

    -- A cancellation by the customer leaves the service that is paid for.
    unfoldable pub fulfil_monthly : CheckoutOrder → StripeSubscription → Invoice → M Bytes
    unfolding period_of
    fulfil_monthly order s initial = do
      paid_end ← period_of x.latest s order
      initial_end ← period_of (some initial) s order
      if is_paid_cancellation s && not (ltb now initial_end)
          then pure no_change
          else fulfil_paid order s initial initial_end paid_end

    abbrev pub subscription_ended : Option StripeSubscription → Bool
    subscription_ended none = false
    subscription_ended (some s) = has_ended s.status

    abbrev pub purchase_failed : Bool
    purchase_failed =
        is_expired x.session.status || is_failure event || subscription_ended x.subscription

    unfoldable pub record_unpaid : CheckoutOrder → M Bytes
    record_unpaid order = do
      execute (
          update_order order.id (
            unpaid_with (if purchase_failed then OrderState.failed else order.state) x.session.id
              (id_of x.subscription)))
      pure (if purchase_failed then failed_outcome else no_change)

    unfoldable pub first_purchase : Option StripeSubscription → CheckoutOrder → M Bytes
    first_purchase none order = record_unpaid order
    first_purchase (some s) order = do
      initial ← or_throw x.initial nil_dereference
      if is_paid_invoice initial.status && (is_active s.status || is_paid_cancellation s)
          then fulfil_monthly order s initial
          else record_unpaid order

    unfoldable pub apply_unblocked : Option Bytes → CheckoutOrder → M Bytes
    apply_unblocked none order = first_purchase x.subscription order
    apply_unblocked (some license_id) order = update_license license_id order

    unfoldable pub apply_monthly_purchase : CheckoutOrder → M Bytes
    apply_monthly_purchase order = do
      blocked ← billing_restriction order.id
      if blocked then pure no_change else apply_unblocked order.license_id order

    -- The order has to be as it was read, and the session has to fit it still.
    unfoldable pub apply_locked : CheckoutOrder → M Bytes
    apply_locked order = do
      throw_if (not (order.billing_revision == x.order.billing_revision)) snapshot_changed
      throw_if
          (not (
            validate_monthly_session p.checkout.platform x.session order p.products.monthly
              p.products.monthly_link_id))
          invalid_subscription
      outcome ← apply_monthly_purchase order
      execute (update_order order.id advanced)
      pure outcome

    unfoldable pub apply_snapshot : M Bytes
    unfolding read_monthly_order
    apply_snapshot = do
      found ← read_monthly_order [] [] x.order.id
      order ← or_throw found snapshot_changed
      apply_locked order

  -- No snapshot is the source's empty `monthlyOrder`.
  unfoldable pub monthly_outcome : Option Snapshot → M Bytes
  monthly_outcome none = pure ignored_unowned
  monthly_outcome (some x) = apply_snapshot x

  unfoldable pub apply_new : Option Snapshot → M (Unit {0})
  apply_new snapshot = do
    outcome ← monthly_outcome snapshot
    execute (complete_event event.id now outcome)

  -- The transaction, up to its commit.
  unfoldable pub commit_locked : Option Snapshot → M (Unit {0})
  commit_locked snapshot = do
    processed ← matching_billing_event event
    when (not processed) (apply_new snapshot)

  unfoldable pub commit_monthly_event : Option Snapshot → M (Unit {0})
  unfolding commit_locked
  commit_monthly_event snapshot = transact (commit_locked snapshot)
