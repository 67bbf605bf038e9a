-- ===== src/Billing/Processor.antt =====
-- internal/billing/event.go: the processor of billing events, the orders of Payment Links, and the
-- transaction that settles a perpetual purchase. The interfaces of the source stand for the client
-- and the licensing service, which are fields. The n-th request that a handler sends to Stripe
-- meets `stripe n`.
pub mod Fulfilled
use glass_eqserver.Prelude.{
  ℕ, Bool, true, false, ◌&&◌, not, Bytes, codes, Option, none, some, bytes_eq, find_row,
  if◌then◌else◌,
}
use glass_eqserver.Store.Tables.{
  Time, Plan, perpetual_v1, monthly, other_plan, CheckoutOrder, OrderState, Db, order_is_fulfilled,
  order_is_paid,
}
use glass_eqserver.Store.Effect.{
  M, nil_dereference, invalid_checkout_session, database, pure, throw, throw_if, or_throw, query,
  execute, ◌>>=◌, ◌>>◌,
}
use glass_eqserver.Activation.Service.{Service}
use glass_eqserver.Activation.Purchase.{issue_purchased_license}
use glass_eqserver.Billing.Objects.{
  SessionStatus, open_session, complete, SessionMode, payment_mode, subscription_mode,
  CheckoutSession, is_payment_mode, is_subscription_mode, is_paid, some_such,
}
use glass_eqserver.Billing.Client.{
  Stripe, CheckoutClient, valid_stripe_id, valid_product_id, valid_price_id,
}
use glass_eqserver.Billing.Perpetual.{single_item, validate_perpetual_purchase}
use glass_eqserver.Billing.Ledger.{
  BillingEvent, throw_error, when, holds_text, is_order, insert_order, update_order, advanced,
  complete_event, matching_billing_event, billing_restriction,
}

pub record BillingCatalog : Type 0 where
  pub perpetual_v1 : Bytes
  pub monthly : Bytes
  pub perpetual_price_id : Bytes
  pub monthly_price_id : Bytes
  pub perpetual_link_id : Bytes
  pub monthly_link_id : Bytes

pub record EventProcessor : Type 0 where
  pub checkout : CheckoutClient
  pub stripe : ℕ → Stripe
  pub licenses : Service
  pub live_mode : Bool
  pub products : BillingCatalog

unfoldable pub new_event_processor :
    CheckoutClient → (ℕ → Stripe) → Service → Bool → BillingCatalog → Option EventProcessor
new_event_processor checkout stripe licenses live_mode products =
    if valid_product_id checkout.platform products.perpetual_v1
      && valid_product_id checkout.platform products.monthly
      && valid_price_id checkout.platform products.perpetual_price_id
      && valid_price_id checkout.platform products.monthly_price_id
      && valid_stripe_id checkout.platform products.perpetual_link_id (codes "plink_")
      && valid_stripe_id checkout.platform products.monthly_link_id (codes "plink_")
    then some (record {
      checkout = checkout;
      stripe = stripe;
      licenses = licenses;
      live_mode = live_mode;
      products = products;
    })
    else none

-- What a Payment Link sells.
pub record Offer : Type 0 where
  pub plan : Plan
  pub price_id : Bytes
  pub product_id : Bytes

unfoldable pub link_offer : BillingCatalog → Bytes → Option Offer
link_offer products link =
    if bytes_eq link products.perpetual_link_id
    then some (record {
      plan = perpetual_v1;
      price_id = products.perpetual_price_id;
      product_id = products.perpetual_v1;
    })
    else if bytes_eq link products.monthly_link_id
    then some (record {
      plan = monthly;
      price_id = products.monthly_price_id;
      product_id = products.monthly;
    })
    else none

abbrev pub mode_fits : Plan → SessionMode → Bool
mode_fits perpetual_v1 mode = is_payment_mode mode
mode_fits monthly mode = is_subscription_mode mode
mode_fits (other_plan word) mode = false

abbrev pub same_plan : Plan → Plan → Bool
same_plan perpetual_v1 perpetual_v1 = true
same_plan monthly monthly = true
same_plan (other_plan a) (other_plan b) = bytes_eq a b
same_plan _ _ = false

unfoldable pub offer_sold : Offer → CheckoutSession → Bool
offer_sold offer session =
    bytes_eq session.object (codes "checkout.session")
    && mode_fits offer.plan session.mode
    && some_such session.managed_payments (λ enabled. enabled)
    && single_item session offer.price_id offer.product_id

abbrev pub link_order : Offer → Bytes → Time → CheckoutOrder
link_order offer session_id now = record {
  id = session_id;
  plan = offer.plan;
  policy_version = codes "v1";
  stripe_price_id = offer.price_id;
  stripe_checkout_session_id = some session_id;
  state = OrderState.pending;
  license_id = none;
  created_at = now;
  fulfilled_at = none;
  stripe_payment_intent_id = none;
  stripe_subscription_id = none;
  billing_revision = 0;
}

unfoldable pub order_matches : Offer → Bytes → CheckoutOrder → Bool
order_matches offer session_id o =
    same_plan o.plan offer.plan
    && bytes_eq o.stripe_price_id offer.price_id
    && holds_text o.stripe_checkout_session_id session_id

unfoldable pub record_purchase : CheckoutSession → Offer → Time → M Bool
record_purchase session offer now = do
  throw_if (not (offer_sold offer session)) invalid_checkout_session
  execute (insert_order (link_order offer session.id now))
  found ← query (λ d. find_row (is_order session.id) d.checkout_orders)
  stored ← or_throw found database
  throw_if (not (order_matches offer session.id stored)) invalid_checkout_session
  pure true

unfoldable pub record_offer : CheckoutSession → Option Offer → Time → M Bool
record_offer session none now = pure false
record_offer session (some offer) now = record_purchase session offer now

unfoldable pub offer_of : BillingCatalog → Option Bytes → Option Offer
unfolding link_offer
offer_of products none = none
offer_of products (some link) = link_offer products link

-- Whether the session belongs to one of the two links, with its order recorded.
unfoldable pub ensure_payment_link_order : EventProcessor → CheckoutSession → Time → M Bool
ensure_payment_link_order p session now =
    record_offer session (offer_of p.products session.payment_link) now

abbrev pub of_session : Bytes → CheckoutOrder → Bool
of_session session_id o = holds_text o.stripe_checkout_session_id session_id

unfoldable pub lock_purchase_order : CheckoutSession → M (Option CheckoutOrder)
lock_purchase_order session = query (λ d. find_row (of_session session.id) d.checkout_orders)

abbrev pub ignored_unowned : Bytes
ignored_unowned = codes "ignored_unowned"

abbrev pub no_change : Bytes
no_change = codes "no_change"

abbrev pub fulfilled_outcome : Bytes
fulfilled_outcome = codes "fulfilled"

abbrev pub failed_outcome : Bytes
failed_outcome = codes "failed"

abbrev pub fulfilled_by : Bytes → Time → Bytes → Bytes → CheckoutOrder → CheckoutOrder
fulfilled_by license_id now session_id payment_id o = record o {
  state = OrderState.fulfilled;
  license_id = some license_id;
  fulfilled_at = some now;
  stripe_checkout_session_id = some session_id;
  stripe_payment_intent_id = some payment_id;
}

abbrev pub failed_with : Bytes → CheckoutOrder → CheckoutOrder
failed_with session_id o = record o {
  state = OrderState.failed;
  stripe_checkout_session_id = some session_id;
}

abbrev pub is_failure : BillingEvent → Bool
is_failure event = bytes_eq event.event_type (codes "checkout.session.async_payment_failed")

module _ (p : EventProcessor) (event : BillingEvent) (session : CheckoutSession) (now : Time) where
  unfoldable pub fulfil_perpetual : CheckoutOrder → M Bytes
  fulfil_perpetual order = do
    customer ← or_throw session.customer nil_dereference
    email ← or_throw session.customer_details nil_dereference
    license_id ←
        issue_purchased_license p.licenses
          (record {
            plan = order.plan;
            subscription_id = codes "";
            policy_version = order.policy_version;
            customer_id = customer;
            email = email;
          })
          now
    intent ← or_throw session.payment_intent nil_dereference
    execute (update_order order.id (fulfilled_by license_id now session.id intent.id))
    pure fulfilled_outcome

  unfoldable pub mark_failed : CheckoutOrder → M Bytes
  mark_failed order = do
    when (is_failure event && not (order_is_paid order.state))
        (execute (update_order order.id (failed_with session.id)))
    pure (if is_failure event then failed_outcome else no_change)

  unfoldable pub decline_perpetual : SessionStatus → CheckoutOrder → M Bytes
  unfolding mark_failed
  decline_perpetual open_session order = mark_failed order
  decline_perpetual complete order = mark_failed order
  decline_perpetual _ order = throw invalid_checkout_session

  unfoldable pub settle_valid : CheckoutOrder → M Bytes
  settle_valid order =
      if order_is_fulfilled order.state
      then pure no_change
      else if is_paid session.payment_status
      then fulfil_perpetual order
      else decline_perpetual session.status order

  unfoldable pub settle_unblocked : CheckoutOrder → M Bytes
  settle_unblocked order = do
    throw_error (
        validate_perpetual_purchase p.checkout.platform session order p.products.perpetual_v1
          p.products.perpetual_link_id)
    settle_valid order

  unfoldable pub settle_order : Option CheckoutOrder → M Bytes
  settle_order none = pure ignored_unowned
  settle_order (some order) = do
    blocked ← billing_restriction order.id
    outcome ← if blocked then pure no_change else settle_unblocked order
    execute (update_order order.id advanced)
    pure outcome

  unfoldable pub settle_new : M (Unit {0})
  settle_new = do
    order ← lock_purchase_order session
    outcome ← settle_order order
    execute (complete_event event.id now outcome)

  -- The transaction, up to its commit.
  unfoldable pub settle_perpetual : M (Unit {0})
  settle_perpetual = do processed ← matching_billing_event event; when (not processed) settle_new
