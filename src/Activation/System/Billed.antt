-- ===== src/Activation/System/Billed.antt =====
-- internal/billing: the billing transactions and statements, and the limits.
use glass_eqserver.Prelude.{Bytes, arith}
use glass_eqserver.Store.Tables.{CheckoutOrder}
use glass_eqserver.Store.Effect.{execute}
use glass_eqserver.Store.Keeps.{Keeps}
use glass_eqserver.Activation.Service.{Service}
use glass_eqserver.Activation.System.Kept.{IsSound, execute-Apart}
use glass_eqserver.Activation.System.Keyed.{issue_purchased-kept}
use glass_eqserver.Billing.Ledger.{
  BillingEvent, insert_event, insert_order, update_order, advanced, complete_event,
}
use glass_eqserver.Billing.MonthlyRows.{update_subscription, insert_subscription}
use glass_eqserver.Billing.AdjustmentRows.{
  insert_adjustment, update_adjustment, clear_cancellations, update_license_state,
  terminate_subscription, restore_subscription,
}
use glass_eqserver.Billing.Kept.{KeepsBilling, KeepsCommits}
use glass_eqserver.Billing.AdjustmentKept.{KeepsAdjusting}

pub event-kept : (e : BillingEvent) → Keeps IsSound (execute (insert_event e))
unfolding insert_event
event-kept e = execute-Apart _ (λ d d' a h. ground arith)

pub order-kept : (o : CheckoutOrder) → Keeps IsSound (execute (insert_order o))
unfolding insert_order
order-kept o = execute-Apart _ (λ d d' a h. ground arith)

update-kept :
    (id : Bytes) (f : CheckoutOrder → CheckoutOrder) → Keeps IsSound (execute (update_order id f))
unfolding update_order
update-kept id f = execute-Apart _ (λ d d' a h. ground arith)

statements-kept : (s : Service) → KeepsBilling s IsSound
unfolding update_subscription insert_subscription
statements-kept s = record {
  orders = λ id f same. update-kept id f;
  licenses = issue_purchased-kept s;
  projections = λ id x. execute-Apart _ (λ d d' a h. ground arith);
  subscriptions = λ r. execute-Apart _ (λ d d' a h. ground arith);
}

pub billing-kept : (s : Service) → KeepsCommits s IsSound
unfolding complete_event
billing-kept s = record {
  billing = statements-kept s;
  advances = λ id. update-kept id advanced;
  events = λ id now outcome. execute-Apart _ (λ d d' a h. ground arith);
}

pub adjusting-kept : KeepsAdjusting IsSound (λ id state. Unit)
unfolding insert_adjustment update_adjustment clear_cancellations update_license_state
    terminate_subscription restore_subscription
adjusting-kept = record {
  known = λ id l d h found. tt;
  inserts = λ x. execute-Apart _ (λ d d' a h. ground arith);
  updates = λ id f. execute-Apart _ (λ d d' a h. ground arith);
  cancellations = λ id. execute-Apart _ (λ d d' a h. ground arith);
  states = λ id from to now known move. execute-Apart _ (λ d d' a h. ground arith);
  terminations = λ id t. execute-Apart _ (λ d d' a h. ground arith);
  restorations = λ id x. execute-Apart _ (λ d d' a h. ground arith);
}
