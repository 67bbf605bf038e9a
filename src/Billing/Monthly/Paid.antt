-- ===== src/Billing/Monthly/Paid.antt =====
-- internal/billing/subscription.go: what an invoice says that pays for service.
use glass_eqserver.Prelude.{
  ◌<◌, Bool, true, false, Bytes, Option, none, some, ◌≡◌, refl, sym, ap, ◌∙◌, bytes_eq, bytes_eq→eq,
  arith,
}
use glass_eqserver.Prelude.Int.{pos, ltb_ℤ}
use glass_eqserver.Platform.{Platform}
use glass_eqserver.Store.Tables.{Time, CheckoutOrder}
use glass_eqserver.Billing.Objects.{
  InvoiceStatus, draft, open_invoice, void, uncollectible, other_invoice, Period, InvoiceLine,
  StripeSubscription, Invoice, LineParent, SubscriptionItemDetails, LinePricing, PriceDetails,
  some_such,
}
use glass_eqserver.Billing.Monthly.{
  unix_time, invoice_subscription_id, invoice_matches, parent_matches, details_match,
  pricing_matches, price_matches, line_matches, single_line, paid_period, line_period,
  period_allowed, monthly_invoice_period,
}

-- The pointer is not nil and its object passes the test.
pub record IsSome {A : Type 0} (o : Option A) (p : A → Bool) : Type 0 where
  pub value : A
  pub is_value : o ≡ some value
  pub holds : p value ≡ true

pub some_such-IsSome :
    {A : Type 0} (o : Option A) (p : A → Bool) → some_such o p ≡ true → IsSome o p
some_such-IsSome none p h = cc
some_such-IsSome (some a) p h = record { value = a; is_value = refl; holds = h }

-- An invoice that pays the subscription until `end`: it is paid and names the subscription and its
-- customer, its one line is for the order's price and not a proration, and its period ends then.
pub record PaysUntil (invoice : Invoice) (s : StripeSubscription) (order : CheckoutOrder)
    (end : Time) : Type 0 where
  pub paid : invoice.status ≡ InvoiceStatus.paid
  pub subscription : invoice_subscription_id invoice ≡ s.id
  pub customer : Bytes
  pub of_invoice : invoice.customer ≡ some customer
  pub of_subscription : s.customer ≡ some customer
  pub line : InvoiceLine
  pub line_is : single_line invoice ≡ some line
  pub parent : LineParent
  pub parent_is : line.parent ≡ some parent
  pub details : SubscriptionItemDetails
  pub details_are : parent.details ≡ some details
  pub whole : details.proration ≡ false
  pub pricing : LinePricing
  pub pricing_is : line.pricing ≡ some pricing
  pub price : PriceDetails
  pub price_is : pricing.details ≡ some price
  pub of_order : price.price ≡ some order.stripe_price_id
  pub period : Period
  pub period_is : line.period ≡ some period
  pub started : ltb_ℤ (pos 0) period.start ≡ true
  pub ordered : ltb_ℤ period.start period.finish ≡ true
  pub ends : end ≡ unix_time period.finish

module _ (t : Platform) (invoice : Invoice) (s : StripeSubscription) (order : CheckoutOrder)
    (product : Bytes) (end : Time) where
  matched :
      monthly_invoice_period t invoice s order product ≡ some end
      → invoice_matches t invoice s ≡ true
  unfolding monthly_invoice_period
  matched h = ground arith

  lined :
      (o : Option InvoiceLine)
      → line_period invoice s order product o ≡ some end
      → (line : InvoiceLine) × (o ≡ some line)
        × (line_matches s order product line ≡ true)
        × (paid_period invoice.status line.period ≡ some end)
  unfolding line_period
  lined none h = cc
  lined (some line) h = (line, refl, ground arith, ground arith)

  by_line :
      monthly_invoice_period t invoice s order product ≡ some end
      → line_period invoice s order product (single_line invoice) ≡ some end
  unfolding monthly_invoice_period
  by_line h = ground arith

  ended :
      (status : InvoiceStatus) (o : Option Period)
      → 0 < end
      → paid_period status o ≡ some end
      → (status ≡ InvoiceStatus.paid) × (p : Period) × (o ≡ some p) × (end ≡ unix_time p.finish)
  ended status none positive h = cc
  ended InvoiceStatus.paid (some p) positive h = (refl, p, refl, ground arith)
  ended draft (some p) positive h = absurd (ground arith)
  ended open_invoice (some p) positive h = absurd (ground arith)
  ended void (some p) positive h = absurd (ground arith)
  ended uncollectible (some p) positive h = absurd (ground arith)
  ended (other_invoice word) (some p) positive h = cc

  of_parent :
      (line : InvoiceLine)
      → line_matches s order product line ≡ true
      → (parent : LineParent) × (details : SubscriptionItemDetails) × (line.parent ≡ some parent)
        × (parent.details ≡ some details)
        × (details.proration ≡ false)
  unfolding line_matches
  of_parent line h =
      let outer = some_such-IsSome line.parent (parent_matches s) (ground arith) in
      let inner =
        some_such-IsSome outer.value.details (details_match s) (ground (arith, outer.holds)) in
      (outer.value, inner.value, outer.is_value, inner.is_value, ground (arith, inner.holds))

  of_pricing :
      (line : InvoiceLine)
      → line_matches s order product line ≡ true
      → (pricing : LinePricing) × (price : PriceDetails) × (line.pricing ≡ some pricing)
        × (pricing.details ≡ some price)
        × (price.price ≡ some order.stripe_price_id)
  unfolding line_matches
  of_pricing line h =
      let outer = some_such-IsSome line.pricing (pricing_matches order product) (ground arith) in
      let inner =
        some_such-IsSome outer.value.details (price_matches order product)
          (ground (arith, outer.holds)) in
      let id =
        some_such-IsSome inner.value.price (λ id. bytes_eq id order.stripe_price_id)
          (ground (arith, inner.holds)) in
      let same = bytes_eq→eq id.value order.stripe_price_id id.holds in
      (outer.value, inner.value, outer.is_value, inner.is_value, id.is_value ∙ ap some same)

  of_period :
      (line : InvoiceLine)
      → line_matches s order product line ≡ true
      → (p : Period) × (line.period ≡ some p) × (period_allowed p ≡ true)
  unfolding line_matches
  of_period line h =
      let outer = some_such-IsSome line.period period_allowed (ground arith) in
      (outer.value, outer.is_value, outer.holds)

  of_customer :
      invoice_matches t invoice s ≡ true
      → (c : Bytes) × (invoice.customer ≡ some c) × (s.customer ≡ some c)
  unfolding invoice_matches
  of_customer h =
      let outer =
        some_such-IsSome invoice.customer (λ c. some_such s.customer (bytes_eq c)) (ground arith) in
      let inner = some_such-IsSome s.customer (bytes_eq outer.value) outer.holds in
      (
        outer.value,
        outer.is_value,
        inner.is_value ∙ ap some (sym (bytes_eq→eq outer.value inner.value inner.holds)),
      )

  named : invoice_matches t invoice s ≡ true → invoice_subscription_id invoice ≡ s.id
  unfolding invoice_matches
  named h = bytes_eq→eq _ s.id (ground arith)

  -- An invoice with an end later than the zero time pays the subscription until then.
  pub monthly_invoice_period-PaysUntil :
      monthly_invoice_period t invoice s order product ≡ some end
      → 0 < end
      → PaysUntil invoice s order end
  monthly_invoice_period-PaysUntil h positive =
      let fits = matched h in
      let (line, line_is, line_fits, ends) = lined (single_line invoice) (by_line h) in
      let (paid, period, period_is, end_is) = ended invoice.status line.period positive ends in
      let (c, of_invoice, of_subscription) = of_customer fits in
      let (parent, details, parent_is, details_are, whole) = of_parent line line_fits in
      let (pricing, price, pricing_is, price_is, of_order) = of_pricing line line_fits in
      let (other, other_is, allowed) = of_period line line_fits in
      let same : other ≡ period = ground (arith, other_is, period_is) in
      record {
        paid = paid;
        subscription = named fits;
        customer = c;
        of_invoice = of_invoice;
        of_subscription = of_subscription;
        line = line;
        line_is = line_is;
        parent = parent;
        parent_is = parent_is;
        details = details;
        details_are = details_are;
        whole = whole;
        pricing = pricing;
        pricing_is = pricing_is;
        price = price;
        price_is = price_is;
        of_order = of_order;
        period = period;
        period_is = period_is;
        started = ground (arith, allowed, same);
        ordered = ground (arith, allowed, same);
        ends = end_is;
      }
