-- ===== src/Billing/AdjustmentCommit.antt =====
-- internal/billing/adjustment_event.go: the two transactions of a refund or a dispute. The first
-- records the intent, the second applies it and confirms it.
use glass_eqserver.Prelude.{
  Bool, true, ◌&&◌, ◌||◌, not, Bytes, Option, none, some, is_some, bytes_eq, find_row,
  if◌then◌else◌, ◌==◌,
}
use glass_eqserver.Store.Tables.{
  Time, CheckoutOrder, AdjustmentState, BillingAdjustment, is_monthly, is_blocking,
}
use glass_eqserver.Store.Effect.{
  M, nil_dereference, invalid_adjustment, snapshot_changed, database, pure, throw_if, or_throw,
  query, execute, transact, ◌>>=◌, ◌>>◌,
}
use glass_eqserver.Billing.Perpetual.{none_or}
use glass_eqserver.Billing.Objects.{StripeSubscription}
use glass_eqserver.Billing.Client.{same_bool}
use glass_eqserver.Billing.Ledger.{
  BillingEvent, when, update_order, advanced, complete_event, matching_billing_event,
}
use glass_eqserver.Billing.Processor.{EventProcessor, no_change, ignored_unowned}
use glass_eqserver.Billing.Adjustment.{Adjustment, no_identity, read_purchase_order}
use glass_eqserver.Billing.AdjustmentView.{AdjustmentView}
use glass_eqserver.Billing.AdjustmentRows.{
  is_adjustment, is_refund, insert_adjustment, update_adjustment, clear_cancellations, intended,
  confirmed, in_state, restriction_of,
}
use glass_eqserver.Billing.AdjustmentApply.{subscription_can_bill, standing, apply_restriction}

-- The order as it is locked, and whether the event is done with.
pub record Prepared : Type 0 where
  pub order : Option CheckoutOrder
  pub done : Bool

abbrev pub is_unsettled_row : Bytes → BillingAdjustment → Bool
is_unsettled_row id a = is_adjustment id a && (a.pending || a.cancel_required)

abbrev pub cancels : CheckoutOrder → AdjustmentState → Bool
cancels order state = is_blocking state && is_monthly order.plan

abbrev pub new_adjustment : Adjustment → CheckoutOrder → AdjustmentState → Time → BillingAdjustment
new_adjustment a order state now = record {
  stripe_object_id = a.id;
  order_id = order.id;
  kind = a.kind;
  stripe_charge_id = a.charge_id;
  state = state;
  pending = true;
  cancel_required = cancels order state;
  effective_at = a.effective_at;
  updated_at = now;
}

unfoldable pub same_adjustment : Adjustment → CheckoutOrder → BillingAdjustment → Bool
same_adjustment a order row =
    bytes_eq row.order_id order.id
    && same_bool (is_refund row.kind) (is_refund a.kind)
    && bytes_eq row.stripe_charge_id a.charge_id
    && row.effective_at == a.effective_at

-- The row holds the state, and nothing of it is left to do.
abbrev pub is_settled : AdjustmentState → BillingAdjustment → Bool
is_settled state row =
    same_bool (is_blocking row.state) (is_blocking state)
    && not row.pending
    && not row.cancel_required

module _ (p : EventProcessor) (e : BillingEvent) (now : Time) where
  abbrev pub stored_state : Option BillingAdjustment → Option AdjustmentState
  stored_state none = none
  stored_state (some row) = some row.state

  -- A report without a state keeps that of a row with something left to do.
  unfoldable pub intended_state : Adjustment → Option AdjustmentState → M (Option AdjustmentState)
  intended_state a (some state) = pure (some state)
  intended_state a none =
      query (λ d. stored_state (find_row (is_unsettled_row a.id) d.billing_adjustments))

  unfoldable pub renew_intent :
      Adjustment → CheckoutOrder → AdjustmentState → BillingAdjustment → M (Option AdjustmentState)
  renew_intent a order state row =
      if is_settled state row
      then pure none
      else (execute (update_adjustment a.id (intended state (cancels order state) now))
          >> pure (some state))

  -- The state that is left to confirm.
  unfoldable pub record_intent :
      Adjustment → CheckoutOrder → Option AdjustmentState → M (Option AdjustmentState)
  unfolding same_adjustment renew_intent
  record_intent a order none = pure none
  record_intent a order (some state) = do
    execute (insert_adjustment (new_adjustment a order state now))
    found ← query (λ d. find_row (is_adjustment a.id) d.billing_adjustments)
    row ← or_throw found database
    throw_if (not (same_adjustment a order row)) invalid_adjustment
    renew_intent a order state row

  unfoldable pub complete_unless : Bool → Bytes → M (Unit {0})
  complete_unless pending outcome = when (not pending) (execute (complete_event e.id now outcome))

  unfoldable pub locked_order : AdjustmentView → M CheckoutOrder
  unfolding read_purchase_order
  locked_order view = do
    found ← read_purchase_order (record no_identity { reference_id = view.order.id })
    order ← or_throw found snapshot_changed
    throw_if (not (order.billing_revision == view.order.billing_revision)) snapshot_changed
    pure order

  unfoldable pub prepare_known : AdjustmentView → M Prepared
  unfolding locked_order intended_state record_intent complete_unless
  prepare_known view = do
    order ← locked_order view
    throw_if (not (none_or order.stripe_checkout_session_id (λ id. bytes_eq id view.session.id)))
        snapshot_changed
    state ← intended_state view.adjustment view.adjustment.state
    intent ← record_intent view.adjustment order state
    execute (update_order order.id advanced)
    complete_unless (is_some intent) no_change
    pure (record { order = some (advanced order); done = not (is_some intent) })

  unfoldable pub prepare_new : Option AdjustmentView → M Prepared
  unfolding prepare_known
  prepare_new none = do
    execute (complete_event e.id now ignored_unowned)
    pure (record { order = none; done = true })
  prepare_new (some view) = prepare_known view

  unfoldable pub prepare_locked : Option AdjustmentView → M Prepared
  unfolding prepare_new
  prepare_locked view = do
    processed ← matching_billing_event e
    if processed then pure (record { order = none; done = true }) else prepare_new view

  unfoldable pub prepare_adjustment : Option AdjustmentView → M Prepared
  unfolding prepare_locked
  prepare_adjustment view = transact (prepare_locked view)

  unfoldable pub apply_adjustments : AdjustmentView → CheckoutOrder → M Bytes
  apply_adjustments view order = do
    restriction ← query (restriction_of order.id)
    x ← standing p e now view order.license_id order
    apply_restriction p e now view order restriction x

  unfoldable pub store_state : Bytes → Option AdjustmentState → M (Unit {0})
  store_state id none = pure tt
  store_state id (some state) = execute (update_adjustment id (in_state state))

  unfoldable pub confirm_cancellation : CheckoutOrder → Option StripeSubscription → M (Unit {0})
  confirm_cancellation order s = when (is_monthly order.plan) (
      or_throw s nil_dereference >>= λ s.
      when (not (subscription_can_bill s)) (execute (clear_cancellations order.id)))

  unfoldable pub commit_new : AdjustmentView → M (Unit {0})
  unfolding locked_order store_state confirm_cancellation apply_adjustments
  commit_new view = do
    order ← locked_order view
    execute (update_adjustment view.adjustment.id (confirmed now))
    store_state view.adjustment.id view.adjustment.state
    confirm_cancellation order view.subscription
    outcome ← apply_adjustments view order
    execute (update_order order.id advanced)
    execute (complete_event e.id now outcome)

  unfoldable pub commit_adjustment_locked : AdjustmentView → M (Unit {0})
  unfolding commit_new
  commit_adjustment_locked view = do
    processed ← matching_billing_event e
    when (not processed) (commit_new view)

  unfoldable pub commit_adjustment : AdjustmentView → M (Unit {0})
  unfolding commit_adjustment_locked
  commit_adjustment view = transact (commit_adjustment_locked view)
