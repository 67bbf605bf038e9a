-- ===== src/Billing/AdjustmentClient.antt =====
-- internal/billing/adjustment_client.go: the client's requests on refunds, disputes, charges and
-- their payments, and the cancellation of a subscription.
use glass_eqserver.Prelude.{
  Bool, true, false, ◌&&◌, not, Bytes, codes, List, [], ◌∷◌, Option, none, some, bytes_eq,
  if◌then◌else◌,
}
use glass_eqserver.Store.Effect.{
  M, stripe, invalid_adjustment, pure, throw, throw_if, or_throw, call, ◌>>=◌, ◌>>◌,
}
use glass_eqserver.Activation.Purchase.{is_empty}
use glass_eqserver.Billing.Objects.{
  Page, Refund, Dispute, ChargeDetails, InvoicePayment, SubscriptionStatus, canceled,
  CheckoutSession, some_such,
}
use glass_eqserver.Billing.Client.{
  Stripe, CheckoutClient, same_bool, valid_stripe_id, retrieve_purchase,
}

abbrev pub is_canceled : SubscriptionStatus → Bool
is_canceled canceled = true
is_canceled _ = false

module _ (c : CheckoutClient) (now : Stripe) where
  unfoldable pub retrieve_refund : Bytes → M Refund
  retrieve_refund id = do
    throw_if (not (valid_stripe_id c.platform id (codes "re_"))) invalid_adjustment
    call stripe
    refund ← or_throw (now.refund id) invalid_adjustment
    throw_if (not (bytes_eq refund.id id && bytes_eq refund.object (codes "refund")))
        invalid_adjustment
    pure refund

  unfoldable pub retrieve_dispute : Bytes → M Dispute
  retrieve_dispute id = do
    throw_if (not (valid_stripe_id c.platform id (codes "du_"))) invalid_adjustment
    call stripe
    dispute ← or_throw (now.dispute id) invalid_adjustment
    throw_if
        (not (
          bytes_eq dispute.id id
          && bytes_eq dispute.object (codes "dispute")
          && same_bool dispute.livemode c.live_mode))
        invalid_adjustment
    pure dispute

  unfoldable pub retrieve_charge : Bytes → M ChargeDetails
  retrieve_charge id = do
    throw_if (not (valid_stripe_id c.platform id (codes "ch_"))) invalid_adjustment
    call stripe
    charge ← or_throw (now.charge id) invalid_adjustment
    throw_if
        (not (
          bytes_eq charge.id id
          && bytes_eq charge.object (codes "charge")
          && same_bool charge.livemode c.live_mode))
        invalid_adjustment
    pure charge

  unfoldable pub payment_matches : Bytes → InvoicePayment → Bool
  payment_matches intent x =
      bytes_eq x.object (codes "invoice_payment")
      && same_bool x.livemode c.live_mode
      && some_such x.payment λ source.
        source.is_payment_intent && some_such source.payment_intent (λ id. bytes_eq id intent)

  unfoldable pub first_payment : Bytes → List (Option InvoicePayment) → M (Option InvoicePayment)
  unfolding payment_matches
  first_payment intent [] = pure none
  first_payment intent (x ∷ []) = do
    payment ← or_throw x invalid_adjustment
    throw_if (not (payment_matches intent payment)) invalid_adjustment
    pure (some payment)
  first_payment intent (x ∷ y ∷ rest) = throw invalid_adjustment

  unfoldable pub find_invoice_payment : Bytes → M (Option InvoicePayment)
  unfolding first_payment
  find_invoice_payment intent = do
    throw_if (not (valid_stripe_id c.platform intent (codes "pi_"))) invalid_adjustment
    call stripe
    let page = now.payments_of_intent intent
    throw_if page.has_more invalid_adjustment
    first_payment intent page.data_items

  -- The one session of a page, read again by its ID; `later` is Stripe at that request.
  unfoldable pub sole_purchase : Stripe → List (Option CheckoutSession) → M (Option CheckoutSession)
  unfolding retrieve_purchase
  sole_purchase later [] = pure none
  sole_purchase later (x ∷ []) = do
    listed ← or_throw x invalid_adjustment
    session ← retrieve_purchase c later listed.id
    pure (some session)
  sole_purchase later (x ∷ y ∷ rest) = throw invalid_adjustment

  unfoldable pub subscription_purchases : Bytes → M (Page CheckoutSession)
  subscription_purchases id = do
    throw_if (not (valid_stripe_id c.platform id (codes "sub_"))) invalid_adjustment
    call stripe
    pure (now.sessions_of_subscription id)

  unfoldable pub payment_purchases : Bytes → M (Page CheckoutSession)
  payment_purchases id = do
    throw_if (not (valid_stripe_id c.platform id (codes "pi_"))) invalid_adjustment
    call stripe
    pure (now.sessions_of_payment id)

  unfoldable pub purchases_of : Bytes → Bytes → M (Page CheckoutSession)
  unfolding subscription_purchases payment_purchases
  purchases_of payment_id subscription_id =
      if is_empty payment_id
      then subscription_purchases subscription_id
      else payment_purchases payment_id

  -- Exactly one of the two IDs is given.
  unfoldable pub find_purchase : Stripe → Bytes → Bytes → M (Option CheckoutSession)
  unfolding sole_purchase purchases_of
  find_purchase later payment_id subscription_id = do
    throw_if (same_bool (is_empty payment_id) (is_empty subscription_id)) invalid_adjustment
    page ← purchases_of payment_id subscription_id
    throw_if page.has_more invalid_adjustment
    sole_purchase later page.data_items

  unfoldable pub cancel_subscription : Bytes → M (Unit {0})
  cancel_subscription id = do
    throw_if (not (valid_stripe_id c.platform id (codes "sub_"))) invalid_adjustment
    call stripe
    s ← or_throw (now.canceled id) invalid_adjustment
    throw_if
        (not (
          bytes_eq s.id id
          && bytes_eq s.object (codes "subscription")
          && same_bool s.livemode c.live_mode
          && is_canceled s.status))
        invalid_adjustment
