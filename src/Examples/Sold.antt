-- ===== src/Examples/Sold.antt =====
-- Purchases that are paid, from the event to the issued license.
use glass_eqserver.Prelude.{
  codes, [], true, ◌≡◌, refl, exists_row, length, bytes_eq, find_row, count_rows, select_rows,
  update_rows,
}
use glass_eqserver.Store.Tables.{order_is_fulfilled}
use glass_eqserver.Store.Effect.{next, Env}
use glass_eqserver.Activation.System.Section.{left_by}
use glass_eqserver.Billing.Ledger.{BillingEvent}
use glass_eqserver.Examples.World.{repeated, empty_db}
use glass_eqserver.Examples.Purchases.{plain_processor, completed_event}
use glass_eqserver.Billing.Process.{process_session, process_checkout, process_new, process_event}
use glass_eqserver.Store.Effect.{
  ◌>>=◌, pure, or_throw, throw_if, call, try_lock, gets, query, write, execute, read_random,
  transact,
}
use glass_eqserver.Billing.Ledger.{
  throw_error, when, order_allowed, insert_order, update_order, insert_event, complete_event,
  same_event, matching_billing_event, billing_restriction,
}
use glass_eqserver.Billing.Processor.{
  link_offer, offer_sold, order_matches, record_purchase, record_offer, offer_of,
  ensure_payment_link_order, lock_purchase_order, fulfil_perpetual, mark_failed, decline_perpetual,
  settle_valid, settle_unblocked, settle_order, settle_new, settle_perpetual,
}
use glass_eqserver.Billing.Client.{valid_stripe_id, retrieve_purchase, retrieve_subscription}
use glass_eqserver.Billing.Perpetual.{validate_perpetual_purchase}
use glass_eqserver.Activation.Service.{random_value, seal, marshal_or_throw}
use glass_eqserver.Activation.Purchase.{
  purchase_valid, license_delivery_additional_data, recovery_email_additional_data, insert_license,
  insert_delivery, issue_purchased_license,
}
use glass_eqserver.Activation.LicenseKey.{generate_license_key}
use glass_eqserver.Activation.Time.{unix}
use glass_eqserver.Activation.Rotation.{insert_key}
use glass_eqserver.Billing.Monthly.{
  monthly_invoice_period, unix_time, invoice_subscription_id, status_allowed,
  validate_monthly_session, validate_monthly_subscription, invoice_matches, line_matches,
  line_period,
}
use glass_eqserver.Activation.RecoveryRequest.{normalize_recovery_email}
use glass_eqserver.Billing.MonthlyRows.{
  subscription_allowed, update_subscription, insert_subscription, same_projection,
}
use glass_eqserver.Billing.MonthlyCommit.{
  period_of, reconcile_license, update_license, issue_monthly_license, fulfil_paid, fulfil_monthly,
  record_unpaid, first_purchase, apply_unblocked, apply_monthly_purchase, apply_locked,
  apply_snapshot, monthly_outcome, apply_new, commit_locked, commit_monthly_event,
}
use glass_eqserver.Billing.MonthlyEvent.{
  named_by_invoice, naming, adopt_session, adopt_purchase, or_adopt, find_order, session_named,
  initial_invoice, first_invoice, later_invoice, newest_invoice, invoice_id, hydrate,
  commit_incomplete, process_owned, process_monthly_event,
}
use glass_eqserver.Billing.Projection.{settle_ending, reconcile_subscription}

abbrev rich : Env
rich = record { answers = []; entropy = repeated 200 3 }

abbrev monthly_event : BillingEvent
monthly_event = record completed_event { id = codes "evt_2"; object_id = codes "cs_2" }

-- The event of a paid session records the order, issues one license and fulfils the order.
perpetual_sold :
    ((process_event plain_processor completed_event 9 empty_db rich).0 ≡ next tt)
    × (exists_row
          (λ o. order_is_fulfilled o.state)
          (left_by (process_event plain_processor completed_event 9) empty_db rich).checkout_orders
        ≡ true)
    × (length (left_by (process_event plain_processor completed_event 9) empty_db rich).licenses
        ≡ 1)
unfolding ◌>>=◌ pure or_throw throw_if call try_lock gets query write execute read_random transact
    throw_error when order_allowed insert_order update_order insert_event complete_event same_event
    matching_billing_event billing_restriction link_offer offer_sold order_matches record_purchase
    record_offer offer_of ensure_payment_link_order lock_purchase_order fulfil_perpetual mark_failed
    decline_perpetual settle_valid settle_unblocked settle_order settle_new settle_perpetual
    process_session process_checkout process_new process_event valid_stripe_id
    validate_perpetual_purchase random_value seal marshal_or_throw purchase_valid
    license_delivery_additional_data recovery_email_additional_data insert_license insert_delivery
    issue_purchased_license generate_license_key bytes_eq find_row count_rows select_rows
    update_rows unix insert_key monthly_invoice_period normalize_recovery_email
perpetual_sold = (refl, refl, refl)

-- The same of a monthly session, which also starts the projection of its subscription.
monthly_sold :
    ((process_event plain_processor monthly_event 63903700000000000 empty_db rich).0 ≡ next tt)
    × (exists_row
          (λ o. order_is_fulfilled o.state)
          (left_by
            (process_event plain_processor monthly_event 63903700000000000)
            empty_db
            rich).checkout_orders
        ≡ true)
    × (length
          (left_by
            (process_event plain_processor monthly_event 63903700000000000)
            empty_db
            rich).subscriptions
        ≡ 1)
unfolding ◌>>=◌ pure or_throw throw_if call try_lock gets query write execute read_random transact
    throw_error when order_allowed insert_order update_order insert_event complete_event same_event
    matching_billing_event billing_restriction link_offer offer_sold order_matches record_purchase
    record_offer offer_of ensure_payment_link_order lock_purchase_order fulfil_perpetual
    settle_order settle_new settle_perpetual process_session process_checkout process_new
    process_event valid_stripe_id retrieve_purchase retrieve_subscription random_value seal
    marshal_or_throw purchase_valid license_delivery_additional_data recovery_email_additional_data
    insert_license insert_delivery issue_purchased_license generate_license_key bytes_eq find_row
    count_rows select_rows update_rows unix insert_key unix_time invoice_subscription_id
    status_allowed validate_monthly_session validate_monthly_subscription invoice_matches
    line_matches line_period monthly_invoice_period normalize_recovery_email subscription_allowed
    update_subscription insert_subscription same_projection period_of reconcile_license
    update_license issue_monthly_license fulfil_paid fulfil_monthly record_unpaid first_purchase
    apply_unblocked apply_monthly_purchase apply_locked apply_snapshot monthly_outcome apply_new
    commit_locked commit_monthly_event named_by_invoice naming adopt_session adopt_purchase or_adopt
    find_order session_named initial_invoice first_invoice later_invoice newest_invoice invoice_id
    hydrate commit_incomplete process_owned process_monthly_event settle_ending
    reconcile_subscription
monthly_sold = (refl, refl, refl)
