-- ===== src/Billing/Monthly.antt =====
-- internal/billing/subscription.go: the validation of a session, a subscription and an invoice of a
-- monthly purchase. The source reads `session.Subscription.ID`, `subscription.Customer.ID` and
-- `subscription.Items.Data[0].ID` of objects that it has validated; here a missing one is refused.
pub mod Paid
use glass_eqserver.Prelude.{
  ℕ, ◌+◌, ◌-◌, ◌*◌, suc, Bool, true, false, ◌&&◌, ◌||◌, not, Bytes, codes, [], Option, none, some,
  bytes_eq, if◌then◌else◌,
}
use glass_eqserver.Prelude.Int.{ℤ, pos, negsuc, ltb_ℤ, eqb_ℤ}
use glass_eqserver.Platform.{Platform}
use glass_eqserver.Store.Tables.{Time, CheckoutOrder, is_monthly}
use glass_eqserver.Activation.Time.{second, epoch_seconds}
use glass_eqserver.Billing.Objects.{
  SessionStatus, open_session, complete, expired, SubscriptionStatus, other_status, InvoiceStatus,
  draft, open_invoice, void, uncollectible, other_invoice, BillingReason, subscription_create,
  subscription_cycle, CheckoutSession, SubscriptionItem, StripeSubscription, Period, LineParent,
  SubscriptionItemDetails, LinePricing, PriceDetails, InvoiceLine, Invoice, is_subscription_mode,
  is_paid, is_unpaid, some_such, only_item, sole_item,
}
use glass_eqserver.Billing.Client.{same_bool, valid_stripe_id}
use glass_eqserver.Billing.Perpetual.{
  none_or, matching_monthly_price, single_item, bound_to_link, completed,
}

-- `time.Unix` of a number of seconds after the zero time. The seconds are unbounded, where Go's are
-- an int64 that wraps far outside the times that Stripe sends.
unfoldable pub unix_time : ℤ → Time
unix_time (pos n) = (n + epoch_seconds) * second
unix_time (negsuc n) = (epoch_seconds - suc n) * second

unfoldable pub invoice_subscription_id : Invoice → Bytes
invoice_subscription_id invoice = elim invoice.parent [
  | none ↦ []
  | some p ↦
      if p.is_subscription
      then elim p.subscription_details [ none ↦ [] | some none ↦ [] | some (some id) ↦ id ]
      else []
]

unfoldable pub status_allowed : Platform → CheckoutSession → SessionStatus → Bool
unfolding completed
status_allowed t session open_session = not (is_paid session.payment_status)
status_allowed t session expired = not (is_paid session.payment_status)
status_allowed t session complete =
    completed t session
    && some_such session.subscription (λ id. valid_stripe_id t id (codes "sub_"))
status_allowed t session _ = false

-- Whether the session may pay for the order; otherwise the source returns ErrInvalidSubscription.
unfoldable pub validate_monthly_session :
    Platform → CheckoutSession → CheckoutOrder → Bytes → Bytes → Bool
unfolding bound_to_link single_item status_allowed
validate_monthly_session t session order product_id link_id =
    is_monthly order.plan
    && bytes_eq session.object (codes "checkout.session")
    && is_subscription_mode session.mode
    && bound_to_link session order link_id
    && single_item session order.stripe_price_id product_id
    && (is_paid session.payment_status || is_unpaid session.payment_status)
    && none_or order.stripe_subscription_id
        (λ id. some_such session.subscription (λ s. bytes_eq s id))
    && status_allowed t session session.status

abbrev pub known_status : SubscriptionStatus → Bool
known_status (other_status word) = false
known_status _ = true

unfoldable pub validate_monthly_subscription :
    Platform → StripeSubscription → CheckoutSession → CheckoutOrder → Bytes → Bool
unfolding matching_monthly_price
validate_monthly_subscription t subscription session order product_id =
    some_such session.subscription (bytes_eq subscription.id)
    && bytes_eq subscription.object (codes "subscription")
    && same_bool subscription.livemode session.livemode
    && some_such subscription.customer (λ c. some_such session.customer (bytes_eq c))
    && some_such subscription.items (λ l.
      not l.has_more
      && not subscription.pause_collection
      && only_item l.data_items λ i.
        valid_stripe_id t i.id (codes "si_")
        && bytes_eq i.subscription subscription.id
        && eqb_ℤ i.quantity (pos 1)
        && matching_monthly_price i.price order.stripe_price_id product_id session.livemode)
    && known_status subscription.status

abbrev pub is_service_reason : BillingReason → Bool
is_service_reason subscription_create = true
is_service_reason subscription_cycle = true
is_service_reason _ = false

-- The invoice is one of the subscription and its customer.
unfoldable pub invoice_matches : Platform → Invoice → StripeSubscription → Bool
unfolding invoice_subscription_id
invoice_matches t invoice subscription =
    valid_stripe_id t invoice.id (codes "in_")
    && bytes_eq invoice.object (codes "invoice")
    && same_bool invoice.livemode subscription.livemode
    && bytes_eq (invoice_subscription_id invoice) subscription.id
    && some_such invoice.customer (λ c. some_such subscription.customer (bytes_eq c))
    && is_service_reason invoice.billing_reason

abbrev pub is_of_item : Bytes → StripeSubscription → Bool
is_of_item item subscription =
    some_such subscription.items (λ l. only_item l.data_items (λ i. bytes_eq item i.id))

abbrev pub period_allowed : Period → Bool
period_allowed p = ltb_ℤ (pos 0) p.start && ltb_ℤ p.start p.finish

abbrev pub details_match : StripeSubscription → SubscriptionItemDetails → Bool
details_match subscription x =
    not x.proration
    && bytes_eq x.subscription subscription.id
    && is_of_item x.subscription_item subscription

abbrev pub parent_matches : StripeSubscription → LineParent → Bool
parent_matches subscription p =
    p.is_subscription_item && some_such p.details (details_match subscription)

abbrev pub price_matches : CheckoutOrder → Bytes → PriceDetails → Bool
price_matches order product_id x =
    some_such x.price (λ id. bytes_eq id order.stripe_price_id) && bytes_eq x.product product_id

abbrev pub pricing_matches : CheckoutOrder → Bytes → LinePricing → Bool
pricing_matches order product_id p =
    p.is_price_details && some_such p.details (price_matches order product_id)

-- The line is for one unit of the order's price, as the subscription's item, without proration.
unfoldable pub line_matches : StripeSubscription → CheckoutOrder → Bytes → InvoiceLine → Bool
line_matches subscription order product_id line =
    eqb_ℤ line.quantity (pos 1)
    && some_such line.parent (parent_matches subscription)
    && some_such line.pricing (pricing_matches order product_id)
    && some_such line.period period_allowed

-- The end of the service that an invoice pays for.
abbrev pub paid_end : InvoiceStatus → Period → Option Time
paid_end InvoiceStatus.paid p = some (unix_time p.finish)
paid_end (other_invoice word) p = none
paid_end _ p = some 0

abbrev pub single_line : Invoice → Option InvoiceLine
single_line invoice = elim invoice.lines [
  | none ↦ none
  | some l ↦ if l.has_more then none else sole_item l.data_items
]

abbrev pub paid_period : InvoiceStatus → Option Period → Option Time
paid_period status none = none
paid_period status (some p) = paid_end status p

unfoldable pub line_period :
    Invoice → StripeSubscription → CheckoutOrder → Bytes → Option InvoiceLine → Option Time
unfolding line_matches unix_time
line_period invoice subscription order product_id none = none
line_period invoice subscription order product_id (some line) =
    if line_matches subscription order product_id line
    then paid_period invoice.status line.period
    else none

-- `none` stands for ErrInvalidSubscription, and 0 for a zero time: the invoice is not paid.
unfoldable pub monthly_invoice_period :
    Platform → Invoice → StripeSubscription → CheckoutOrder → Bytes → Option Time
unfolding invoice_matches line_period
monthly_invoice_period t invoice subscription order product_id =
    if invoice_matches t invoice subscription
    then line_period invoice subscription order product_id (single_line invoice)
    else none
