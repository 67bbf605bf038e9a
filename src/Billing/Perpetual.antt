-- ===== src/Billing/Perpetual.antt =====
-- internal/billing/purchase.go: the validation of a session that buys a perpetual license.
use glass_eqserver.Prelude.{
  Bool, true, false, ◌&&◌, not, Bytes, codes, Option, none, some, bytes_eq, if◌then◌else◌,
}
use glass_eqserver.Prelude.Int.{pos, eqb_ℤ}
use glass_eqserver.Platform.{Platform}
use glass_eqserver.Store.Tables.{CheckoutOrder, is_perpetual}
use glass_eqserver.Store.Effect.{Failure, unsupported_purchase, invalid_checkout_session}
use glass_eqserver.Activation.Purchase.{is_empty}
use glass_eqserver.Billing.Objects.{
  Price, PaymentIntent, CheckoutSession, is_payment_mode, is_paid, is_unpaid, is_complete,
  some_such, only_item,
}
use glass_eqserver.Billing.Client.{same_bool, valid_stripe_id}

-- A column that is NULL or passes the test.
abbrev pub none_or : Option Bytes → (Bytes → Bool) → Bool
none_or none p = true
none_or (some a) p = p a

unfoldable pub matching_monthly_price : Option Price → Bytes → Bytes → Bool → Bool
matching_monthly_price price price_id product_id live_mode = some_such price λ p.
    bytes_eq p.id price_id
    && some_such p.product λ x.
      bytes_eq x.id product_id
      && bytes_eq x.object (codes "product")
      && same_bool x.livemode live_mode

unfoldable pub single_item : CheckoutSession → Bytes → Bytes → Bool
unfolding matching_monthly_price
single_item session price_id product_id = some_such session.line_items λ l.
    not l.has_more
    && only_item l.data_items λ i.
      eqb_ℤ i.quantity (pos 1)
      && matching_monthly_price i.price price_id product_id session.livemode

unfoldable pub bound_to_link : CheckoutSession → CheckoutOrder → Bytes → Bool
bound_to_link session order link_id =
    some_such session.payment_link (λ l. bytes_eq l link_id)
    && none_or order.stripe_checkout_session_id (λ id. bytes_eq id session.id)
    && some_such session.managed_payments (λ enabled. enabled)

unfoldable pub same_payment : CheckoutSession → CheckoutOrder → Bool
same_payment session order =
    none_or order.stripe_payment_intent_id
      λ id. some_such session.payment_intent (λ i. bytes_eq i.id id)

unfoldable pub succeeded_payment : Platform → CheckoutSession → PaymentIntent → Bool
succeeded_payment t session i =
    valid_stripe_id t i.id (codes "pi_")
    && bytes_eq i.object (codes "payment_intent")
    && same_bool i.livemode session.livemode
    && i.succeeded
    && some_such i.latest_charge (λ c. c.paid)

-- The session is complete and names its customer.
unfoldable pub completed : Platform → CheckoutSession → Bool
completed t session =
    is_complete session.status
    && some_such session.consent (λ accepted. accepted)
    && some_such session.customer_details (λ email. not (is_empty email))
    && some_such session.customer (λ id. valid_stripe_id t id (codes "cus_"))

unfoldable pub paid_payment : Platform → CheckoutSession → Bool
unfolding completed succeeded_payment
paid_payment t session =
    completed t session && some_such session.payment_intent (succeeded_payment t session)

-- A Go `error` that only says that the session is invalid.
abbrev pub unless_session : Bool → Option Failure
unless_session true = none
unless_session false = some invalid_checkout_session

unfoldable pub validate_perpetual_payment :
    Platform → CheckoutSession → CheckoutOrder → Bytes → Bytes → Option Failure
unfolding bound_to_link same_payment single_item paid_payment
validate_perpetual_payment t session order product_id link_id =
    if not (is_perpetual order.plan)
    then some unsupported_purchase
    else if is_payment_mode session.mode
        && bound_to_link session order link_id
        && same_payment session order
        && single_item session order.stripe_price_id product_id
    then unless_session (
        if is_paid session.payment_status
        then paid_payment t session
        else is_unpaid session.payment_status)
    else some invalid_checkout_session

abbrev pub was_refunded : CheckoutSession → Bool
was_refunded session =
    some_such session.payment_intent (λ i. some_such i.latest_charge (λ c. c.refunded))

unfoldable pub validate_perpetual_purchase :
    Platform → CheckoutSession → CheckoutOrder → Bytes → Bytes → Option Failure
unfolding validate_perpetual_payment
validate_perpetual_purchase t session order product_id link_id =
    elim (validate_perpetual_payment t session order product_id link_id) [
      | some e ↦ some e
      | none ↦ unless_session (not (is_paid session.payment_status && was_refunded session))
    ]
