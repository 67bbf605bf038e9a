-- ===== src/Billing/Client.antt =====
-- internal/billing/stripe.go, with the retrievals of purchase.go and subscription.go: the IDs of
-- Stripe's objects and the client's requests. Stripe is a parameter, which may change from one
-- request to the next; a request that fails ends with `stripe`. A retrieval that succeeds returns
-- an object with the ID that was asked for and never a nil pointer, so that the callers' tests for
-- nil and their second tests of the ID are left out.
use glass_eqserver.Prelude.{
  Bool, true, false, ◌&&◌, ◌||◌, not, Bytes, codes, List, [], ◌∷◌, Option, none, some, ltb, length,
  bytes_eq, ◌==◌, if◌then◌else◌,
}
use glass_eqserver.Platform.{Platform}
use glass_eqserver.Store.Effect.{
  M, stripe, invalid_checkout_session, invalid_subscription, pure, throw, throw_if, or_throw, call,
  ◌>>=◌, ◌>>◌,
}
use glass_eqserver.Activation.Service.{has_prefix}
use glass_eqserver.Billing.Objects.{
  Page, CheckoutSession, StripeSubscription, Invoice, Refund, Dispute, ChargeDetails,
  InvoicePayment,
}

-- What Stripe's library answers to one request.
pub record Stripe : Type 0 where
  pub session : Bytes → Option CheckoutSession
  pub sessions_of_subscription : Bytes → Page CheckoutSession
  -- the link, and the session after which the page starts
  pub sessions_of_link : Bytes → Bytes → Page CheckoutSession
  pub subscription : Bytes → Option StripeSubscription
  pub invoice : Bytes → Option Invoice
  pub refund : Bytes → Option Refund
  pub dispute : Bytes → Option Dispute
  pub charge : Bytes → Option ChargeDetails
  pub payments_of_intent : Bytes → Page InvoicePayment
  pub sessions_of_payment : Bytes → Page CheckoutSession
  -- the subscription that a cancellation returns
  pub canceled : Bytes → Option StripeSubscription

pub record CheckoutClient : Type 0 where
  pub platform : Platform
  pub live_mode : Bool

abbrev pub same_bool : Bool → Bool → Bool
same_bool true b = b
same_bool false b = not b

unfoldable pub valid_stripe_id : Platform → Bytes → Bytes → Bool
valid_stripe_id t value prefix =
    ltb (length prefix) (length value)
    && has_prefix prefix value
    && bytes_eq (t.trim_space value) value

unfoldable pub valid_stripe_key_prefix : Platform → Bytes → Bytes → Bool
valid_stripe_key_prefix t key prefix =
    ltb (length prefix) (length key) && has_prefix prefix key && bytes_eq (t.trim_space key) key

unfoldable pub valid_price_id : Platform → Bytes → Bool
unfolding valid_stripe_id
valid_price_id t value = valid_stripe_id t value (codes "price_")

unfoldable pub valid_product_id : Platform → Bytes → Bool
unfolding valid_stripe_id
valid_product_id t value = valid_stripe_id t value (codes "prod_")

-- Whether a key is one of the live mode, or `none` for a key of neither mode.
unfoldable pub stripe_live_mode : Platform → Bytes → Option Bool
unfolding valid_stripe_key_prefix
stripe_live_mode t key =
    if valid_stripe_key_prefix t key (codes "sk_test_")
      || valid_stripe_key_prefix t key (codes "rk_test_")
    then some false
    else if valid_stripe_key_prefix t key (codes "sk_live_")
        || valid_stripe_key_prefix t key (codes "rk_live_")
    then some true
    else none

unfoldable pub new_checkout_client : Platform → Bytes → Option CheckoutClient
unfolding stripe_live_mode
new_checkout_client t key = elim (stripe_live_mode t key) [
  | none ↦ none
  | some mode ↦ some (record { platform = t; live_mode = mode })
]

module _ (c : CheckoutClient) (now : Stripe) where
  unfoldable pub retrieve_purchase : Bytes → M CheckoutSession
  retrieve_purchase id = do
    throw_if (not (valid_stripe_id c.platform id (codes "cs_"))) invalid_checkout_session
    call stripe
    session ← or_throw (now.session id) invalid_checkout_session
    throw_if
        (not (
          bytes_eq session.id id
          && bytes_eq session.object (codes "checkout.session")
          && same_bool session.livemode c.live_mode))
        invalid_checkout_session
    pure session

  unfoldable pub retrieve_subscription : Bytes → M StripeSubscription
  retrieve_subscription id = do
    throw_if (not (valid_stripe_id c.platform id (codes "sub_"))) invalid_subscription
    call stripe
    subscription ← or_throw (now.subscription id) invalid_subscription
    throw_if
        (not (
          bytes_eq subscription.id id
          && bytes_eq subscription.object (codes "subscription")
          && same_bool subscription.livemode c.live_mode))
        invalid_subscription
    pure subscription

  unfoldable pub retrieve_invoice : Bytes → M Invoice
  retrieve_invoice id = do
    throw_if (not (valid_stripe_id c.platform id (codes "in_"))) invalid_subscription
    call stripe
    invoice ← or_throw (now.invoice id) invalid_subscription
    throw_if
        (not (
          bytes_eq invoice.id id
          && bytes_eq invoice.object (codes "invoice")
          && same_bool invoice.livemode c.live_mode))
        invalid_subscription
    pure invoice

  -- The first session of a page, or none where it is empty; a second one is refused.
  unfoldable pub first_session : List (Option CheckoutSession) → M (Option CheckoutSession)
  first_session [] = pure none
  first_session (x ∷ []) = pure x
  first_session (x ∷ y ∷ rest) = throw invalid_checkout_session

  unfoldable pub find_purchase_by_subscription : Bytes → M (Option CheckoutSession)
  unfolding first_session
  find_purchase_by_subscription id = do
    throw_if (not (valid_stripe_id c.platform id (codes "sub_"))) invalid_checkout_session
    call stripe
    let page = now.sessions_of_subscription id
    throw_if page.has_more invalid_checkout_session
    first_session page.data_items

  -- A page of at most 100 completed sessions, and whether more follow.
  unfoldable pub list_payment_link_sessions : Bytes → Bytes → M (Page CheckoutSession)
  list_payment_link_sessions link after = do
    throw_if
        (not (
          valid_stripe_id c.platform link (codes "plink_")
          && (length after == 0 || valid_stripe_id c.platform after (codes "cs_"))))
        invalid_checkout_session
    call stripe
    pure (now.sessions_of_link link after)
