-- ===== src/Billing/AdjustmentView.antt =====
-- internal/billing/adjustment.go: the purchase behind a refund or a dispute, as Stripe reports it.
-- The requests are numbered from `n`.
use glass_eqserver.Prelude.{
  ℕ, ◌+◌, Bool, ◌&&◌, ◌||◌, not, Bytes, codes, [], Option, none, some, is_some, bytes_eq,
  if◌then◌else◌,
}
use glass_eqserver.Prelude.Int.{eqb_ℤ}
use glass_eqserver.Store.Tables.{Time, CheckoutOrder, is_perpetual}
use glass_eqserver.Store.Effect.{
  M, invalid_adjustment, invalid_subscription, pure, throw_if, or_throw, ◌>>=◌, ◌>>◌,
}
use glass_eqserver.Activation.Purchase.{is_empty}
use glass_eqserver.Billing.Objects.{
  PaymentIntent, InvoicePayment, CheckoutSession, StripeSubscription, Invoice, is_paid, is_complete,
  is_creation, is_paid_invoice, some_such,
}
use glass_eqserver.Billing.Client.{
  same_bool, valid_stripe_id, retrieve_purchase, retrieve_subscription, retrieve_invoice,
}
use glass_eqserver.Billing.AdjustmentClient.{find_invoice_payment, find_purchase}
use glass_eqserver.Billing.Perpetual.{validate_perpetual_payment}
use glass_eqserver.Billing.Monthly.{
  invoice_subscription_id, validate_monthly_session, validate_monthly_subscription,
  monthly_invoice_period,
}
use glass_eqserver.Billing.Ledger.{BillingEvent, throw_error}
use glass_eqserver.Billing.Processor.{EventProcessor}
use glass_eqserver.Billing.Adjustment.{
  PurchaseIdentity, no_identity, Adjustment, is_resolved_state, retrieve_adjustment,
}

pub record Identified : Type 0 where
  pub identity : PurchaseIdentity
  pub invoice : Option Invoice
  pub subscription : Option StripeSubscription

pub record AdjustmentView : Type 0 where
  pub adjustment : Adjustment
  pub order : CheckoutOrder
  pub session : CheckoutSession
  pub subscription : Option StripeSubscription
  pub invoice : Option Invoice
  pub initial : Option Invoice
  pub latest : Option Invoice

abbrev pub plain_view : Adjustment → CheckoutOrder → CheckoutSession → Identified → AdjustmentView
plain_view a order session x = record {
  adjustment = a;
  order = order;
  session = session;
  subscription = x.subscription;
  invoice = x.invoice;
  initial = none;
  latest = none;
}

module _ (p : EventProcessor) (n : ℕ) where
  abbrev pub intent_valid : PaymentIntent → Bool
  intent_valid i =
      valid_stripe_id p.checkout.platform i.id (codes "pi_")
      && bytes_eq i.object (codes "payment_intent")
      && same_bool i.livemode p.live_mode

  abbrev pub paid_by : Adjustment → InvoicePayment → Invoice → Bool
  paid_by a payment invoice =
      same_bool invoice.livemode p.live_mode
      && is_paid_invoice invoice.status
      && eqb_ℤ invoice.amount_paid a.charge.amount
      && eqb_ℤ payment.amount_paid invoice.amount_paid
      && bytes_eq invoice.currency a.charge.currency
      && bytes_eq payment.currency invoice.currency

  abbrev pub of_payment : Bytes → PurchaseIdentity
  of_payment intent = record no_identity { payment_id = intent }

  unfoldable pub identify_subscription : Bytes → Bytes → Invoice → M Identified
  identify_subscription intent id invoice = do
    s ← retrieve_subscription p.checkout (p.stripe (n + 4)) id
    throw_if (not (same_bool s.livemode p.live_mode)) invalid_adjustment
    pure (record {
      identity = record (of_payment intent) { subscription_id = id };
      invoice = some invoice;
      subscription = some s;
    })

  unfoldable pub identify_invoice : Adjustment → Bytes → InvoicePayment → M Identified
  unfolding identify_subscription invoice_subscription_id
  identify_invoice a intent payment = do
    id ← or_throw payment.invoice invalid_adjustment
    throw_if
        (not (
          valid_stripe_id p.checkout.platform id (codes "in_")
          && same_bool payment.livemode p.live_mode
          && bytes_eq payment.status (codes "paid")))
        invalid_adjustment
    invoice ← retrieve_invoice p.checkout (p.stripe (n + 3)) id
    throw_if (not (paid_by a payment invoice)) invalid_adjustment
    if is_empty (invoice_subscription_id invoice)
        then pure
            (record { identity = of_payment intent; invoice = some invoice; subscription = none })
        else identify_subscription intent (invoice_subscription_id invoice) invoice

  unfoldable pub identify_payment : Adjustment → Bytes → Option InvoicePayment → M Identified
  identify_payment a intent none =
      pure (record { identity = of_payment intent; invoice = none; subscription = none })
  identify_payment a intent (some payment) = identify_invoice a intent payment

  unfoldable pub identify_intent : Adjustment → Option PaymentIntent → M Identified
  identify_intent a none =
      pure (record { identity = no_identity; invoice = none; subscription = none })
  identify_intent a (some i) = do
    throw_if (not (intent_valid i)) invalid_adjustment
    payment ← find_invoice_payment p.checkout (p.stripe (n + 2)) i.id
    identify_payment a i.id payment

  unfoldable pub adjustment_identity : Adjustment → M Identified
  adjustment_identity a = identify_intent a a.charge.payment_intent

  unfoldable pub listed_session :
      CheckoutOrder → Bytes → Option StripeSubscription → M (Option CheckoutSession)
  listed_session order intent s =
      if is_perpetual order.plan
      then find_purchase p.checkout (p.stripe (n + 5)) (p.stripe (n + 6)) intent []
      else (or_throw s invalid_adjustment >>= λ s.
          find_purchase p.checkout (p.stripe (n + 5)) (p.stripe (n + 6)) [] s.id)

  unfoldable pub adjusted_session :
      Option Bytes → CheckoutOrder → Bytes → Option StripeSubscription → M CheckoutSession
  adjusted_session (some id) order intent s = retrieve_purchase p.checkout (p.stripe (n + 5)) id
  adjusted_session none order intent s = do
    found ← listed_session order intent s
    or_throw found invalid_adjustment

  abbrev pub intent_paid : Adjustment → PaymentIntent → Bool
  intent_paid a i =
      i.succeeded
      && a.charge.paid
      && some_such a.charge.customer (λ c. some_such i.customer (λ x. bytes_eq x c))

  abbrev pub session_adjusted : Adjustment → CheckoutSession → Bool
  session_adjusted a session =
      bytes_eq session.object (codes "checkout.session")
      && same_bool session.livemode p.live_mode
      && is_complete session.status
      && some_such session.customer (λ c. some_such a.charge.customer (bytes_eq c))

  abbrev pub charged_by : Adjustment → PaymentIntent → CheckoutSession → Bool
  charged_by a i session =
      some_such session.payment_intent
        λ x. bytes_eq x.id i.id && some_such x.latest_charge (λ c. bytes_eq c.id a.charge_id)

  unfoldable pub view_perpetual :
      Adjustment → PaymentIntent → CheckoutOrder → CheckoutSession → Identified → M AdjustmentView
  view_perpetual a i order session x = do
    throw_if (is_some x.invoice || not (charged_by a i session)) invalid_adjustment
    throw_error (
        validate_perpetual_payment p.checkout.platform session order p.products.perpetual_v1
          p.products.perpetual_link_id)
    throw_if (not (is_paid session.payment_status)) invalid_adjustment
    pure (plain_view a order session x)

  abbrev pub period_known : Invoice → StripeSubscription → CheckoutOrder → M Time
  period_known invoice s order =
      or_throw (monthly_invoice_period p.checkout.platform invoice s order p.products.monthly)
        invalid_subscription

  -- A resolved dispute may restore access, for which the first and the latest invoice are read.
  unfoldable pub view_resolved : AdjustmentView → StripeSubscription → M AdjustmentView
  view_resolved view s = do
    initial_id ← or_throw view.session.invoice invalid_adjustment
    latest_id ← or_throw s.latest_invoice invalid_adjustment
    initial ← retrieve_invoice p.checkout (p.stripe (n + 7)) initial_id
    latest ← retrieve_invoice p.checkout (p.stripe (n + 8)) latest_id
    throw_if (not (is_creation initial.billing_reason)) invalid_adjustment
    first_end ← period_known initial s view.order
    latest_end ← period_known latest s view.order
    pure (record view { initial = some initial; latest = some latest })

  unfoldable pub view_monthly :
      Adjustment → CheckoutOrder → CheckoutSession → Identified → M AdjustmentView
  view_monthly a order session x = do
    invoice ← or_throw x.invoice invalid_adjustment
    s ← or_throw x.subscription invalid_adjustment
    throw_if
        (not (
          validate_monthly_session p.checkout.platform session order p.products.monthly
            p.products.monthly_link_id))
        invalid_subscription
    throw_if
        (not (validate_monthly_subscription p.checkout.platform s session order p.products.monthly))
        invalid_subscription
    paid_end ← period_known invoice s order
    if is_resolved_state a.state
        then view_resolved (plain_view a order session x) s
        else pure (plain_view a order session x)

  unfoldable pub hydrate_adjustment : BillingEvent → CheckoutOrder → Time → M AdjustmentView
  unfolding adjustment_identity
  hydrate_adjustment e order now = do
    a ← retrieve_adjustment p now n e
    x ← adjustment_identity a
    i ← or_throw a.charge.payment_intent invalid_adjustment
    throw_if (not (intent_paid a i)) invalid_adjustment
    session ← adjusted_session order.stripe_checkout_session_id order i.id x.subscription
    throw_if (not (session_adjusted a session)) invalid_adjustment
    if is_perpetual order.plan
        then view_perpetual a i order session x
        else view_monthly a order session x
