-- ===== src/Billing/MonthlyEvent.antt =====
-- internal/billing/monthly_event.go: what is fetched from Stripe for an event on a monthly
-- purchase, outside any transaction, before it is committed.
use glass_eqserver.Prelude.{
  Bool, true, false, ◌&&◌, not, Bytes, codes, [], Option, none, some, is_some, ltb, bytes_eq,
  if◌then◌else◌,
}
use glass_eqserver.Store.Tables.{Time, CheckoutOrder, is_monthly}
use glass_eqserver.Store.Effect.{
  M, nil_dereference, invalid_subscription, snapshot_changed, pure, throw_if, or_throw, ◌>>=◌, ◌>>◌,
}
use glass_eqserver.Activation.Purchase.{is_empty}
use glass_eqserver.Billing.Objects.{
  CheckoutSession, StripeSubscription, Invoice, is_complete, is_creation, some_such,
}
use glass_eqserver.Billing.Client.{
  same_bool, valid_stripe_id, retrieve_purchase, retrieve_subscription, retrieve_invoice,
  find_purchase_by_subscription,
}
use glass_eqserver.Billing.Monthly.{
  invoice_subscription_id, validate_monthly_session, validate_monthly_subscription,
}
use glass_eqserver.Billing.Ledger.{BillingEvent}
use glass_eqserver.Billing.Processor.{EventProcessor, ensure_payment_link_order}
use glass_eqserver.Billing.MonthlyRows.{read_monthly_order}
use glass_eqserver.Billing.MonthlyCommit.{period_of, commit_monthly_event}

-- How the event names its order: by the session, by the subscription, or not at all.
pub data Naming : Type 0 where
  by_session by_subscription : Bytes → Naming
  unnamed : Naming

abbrev pub named_by : Bytes → Naming
named_by id = if is_empty id then unnamed else by_subscription id

abbrev pub same_naming : Bytes → Naming → Bool
same_naming id (by_subscription other) = bytes_eq other id
same_naming id _ = true

abbrev pub is_by_subscription : Naming → Bool
is_by_subscription (by_subscription id) = true
is_by_subscription _ = false

abbrev pub is_invoice : BillingEvent → Bool
is_invoice event = bytes_eq event.object_kind (codes "invoice")

module _ (p : EventProcessor) (event : BillingEvent) (now : Time) where
  unfoldable pub named_by_invoice : M Naming
  unfolding retrieve_invoice invoice_subscription_id
  named_by_invoice = do
    invoice ← retrieve_invoice p.checkout (p.stripe 1) event.object_id
    throw_if (not (same_bool invoice.livemode p.live_mode)) invalid_subscription
    pure (named_by (invoice_subscription_id invoice))

  unfoldable pub naming : Option CheckoutSession → M Naming
  naming (some session) = pure (by_session session.id)
  naming none =
      if is_invoice event then named_by_invoice else pure (by_subscription event.object_id)

  abbrev pub is_purchase_of : Bytes → CheckoutSession → Bool
  is_purchase_of id s =
      some_such s.subscription (λ x. bytes_eq x id) && same_bool s.livemode p.live_mode

  -- A subscription that no order names is looked up at Stripe.
  unfoldable pub adopt_session : Bytes → Option CheckoutSession → M (Option CheckoutOrder)
  adopt_session id none = pure none
  adopt_session id (some purchase) = do
    throw_if (not (is_purchase_of id purchase)) invalid_subscription
    session ← retrieve_purchase p.checkout (p.stripe 3) purchase.id
    throw_if (not (is_purchase_of id session)) invalid_subscription
    owned ← ensure_payment_link_order p session now
    if owned then read_monthly_order session.id [] [] else pure none

  unfoldable pub adopt_purchase : Bytes → M (Option CheckoutOrder)
  unfolding find_purchase_by_subscription
  adopt_purchase id = do
    purchase ← find_purchase_by_subscription p.checkout (p.stripe 2) id
    adopt_session id purchase

  unfoldable pub or_adopt : Bytes → Option CheckoutOrder → M (Option CheckoutOrder)
  or_adopt id none = adopt_purchase id
  or_adopt id (some order) = pure (some order)

  unfoldable pub find_order : Naming → M (Option CheckoutOrder)
  find_order unnamed = pure none
  find_order (by_session id) = read_monthly_order id [] []
  find_order (by_subscription id) = do order ← read_monthly_order [] id []; or_adopt id order

  unfoldable pub session_named : Naming → CheckoutOrder → M Bytes
  session_named (by_session id) order = pure id
  session_named _ order = or_throw order.stripe_checkout_session_id snapshot_changed

  -- The invoice that a session is paid by, where the order has no license yet.
  unfoldable pub initial_invoice :
      CheckoutOrder → StripeSubscription → Bytes → Invoice → M (Option Invoice)
  unfolding period_of
  initial_invoice order s id latest = do
    initial ←
        if bytes_eq id latest.id then pure latest else retrieve_invoice p.checkout (p.stripe 7) id
    throw_if (not (bytes_eq initial.id id && is_creation initial.billing_reason))
        invalid_subscription
    checked ← period_of p event now (some initial) s order
    pure (some initial)

  unfoldable pub first_invoice :
      CheckoutOrder → StripeSubscription → Bytes → Invoice → M (Option Invoice)
  first_invoice order s id latest =
      if is_some order.license_id then pure none else initial_invoice order s id latest

  -- The event's own invoice, where it pays for a later period.
  unfoldable pub later_invoice : CheckoutOrder → StripeSubscription → Invoice → M Invoice
  later_invoice order s latest = do
    invoice ← retrieve_invoice p.checkout (p.stripe 8) event.object_id
    paid_end ← period_of p event now (some invoice) s order
    latest_paid_end ← period_of p event now (some latest) s order
    pure (if ltb latest_paid_end paid_end then invoice else latest)

  unfoldable pub newest_invoice : CheckoutOrder → StripeSubscription → Invoice → M Invoice
  newest_invoice order s latest =
      if is_invoice event && not (bytes_eq event.object_id latest.id)
      then later_invoice order s latest
      else pure latest

  unfoldable pub invoice_id : Option Bytes → M Bytes
  invoice_id reference = do
    id ← or_throw reference invalid_subscription
    throw_if (not (valid_stripe_id p.checkout.platform id (codes "in_"))) invalid_subscription
    pure id

  unfoldable pub hydrate : Naming → CheckoutOrder → CheckoutSession → M (Unit {0})
  unfolding invoice_id
  hydrate name order session = do
    id ← or_throw session.subscription nil_dereference
    throw_if (not (same_naming id name)) invalid_subscription
    s ← retrieve_subscription p.checkout (p.stripe 5) id
    throw_if
        (not (validate_monthly_subscription p.checkout.platform s session order p.products.monthly))
        invalid_subscription
    initial_id ← invoice_id session.invoice
    latest_id ← invoice_id s.latest_invoice
    latest ← retrieve_invoice p.checkout (p.stripe 6) latest_id
    checked ← period_of p event now (some latest) s order
    initial ← first_invoice order s initial_id latest
    newest ← newest_invoice order s latest
    commit_monthly_event p event now (
        some (record {
          order = order;
          session = session;
          subscription = some s;
          initial = initial;
          latest = some newest;
        }))

  unfoldable pub commit_incomplete : Naming → CheckoutOrder → CheckoutSession → M (Unit {0})
  commit_incomplete name order session = do
    throw_if (is_by_subscription name) invalid_subscription
    commit_monthly_event p event now (
        some (record {
          order = order;
          session = session;
          subscription = none;
          initial = none;
          latest = none;
        }))

  unfoldable pub process_owned : Naming → Option CheckoutOrder → M (Unit {0})
  process_owned name none = commit_monthly_event p event now none
  process_owned name (some order) = do
    throw_if (not (is_monthly order.plan)) invalid_subscription
    id ← session_named name order
    session ← retrieve_purchase p.checkout (p.stripe 4) id
    throw_if (not (same_bool session.livemode p.live_mode)) invalid_subscription
    throw_if
        (not (
          validate_monthly_session p.checkout.platform session order p.products.monthly
            p.products.monthly_link_id))
        invalid_subscription
    if is_complete session.status
        then hydrate name order session
        else commit_incomplete name order session

  unfoldable pub process_monthly_event : Option CheckoutSession → M (Unit {0})
  process_monthly_event session = do
    name ← naming session
    order ← find_order name
    process_owned name order
