-- ===== src/Billing/Objects.antt =====
-- The objects of Stripe's library that internal/billing reads, with the fields that it reads. A
-- nil pointer is `none`; a Stripe word that the code does not compare with is an `other_…`.
use glass_eqserver.Prelude.{Bool, true, false, Bytes, List, [], ◌∷◌, Option, none, some}
use glass_eqserver.Prelude.Int.{ℤ}

pub data SessionMode : Type 0 where
  payment_mode subscription_mode : SessionMode
  other_mode : Bytes → SessionMode

pub data PaymentStatus : Type 0 where
  paid unpaid : PaymentStatus
  other_payment : Bytes → PaymentStatus

pub data SessionStatus : Type 0 where
  open_session complete expired : SessionStatus
  other_session : Bytes → SessionStatus

pub data SubscriptionStatus : Type 0 where
  active past_due unpaid canceled incomplete incomplete_expired trialing paused : SubscriptionStatus
  other_status : Bytes → SubscriptionStatus

pub data CancellationReason : Type 0 where
  cancellation_requested payment_failed payment_disputed : CancellationReason
  other_reason : Bytes → CancellationReason

pub data InvoiceStatus : Type 0 where
  paid draft open_invoice void uncollectible : InvoiceStatus
  other_invoice : Bytes → InvoiceStatus

pub data BillingReason : Type 0 where
  subscription_create subscription_cycle : BillingReason
  other_billing : Bytes → BillingReason

pub record Product : Type 0 where
  pub id : Bytes
  pub object : Bytes
  pub livemode : Bool

pub record Price : Type 0 where
  pub id : Bytes
  pub product : Option Product

pub record LineItem : Type 0 where
  pub quantity : ℤ
  pub price : Option Price

-- A list object with the items of its page, which are pointers.
pub record Page (A : Type 0) : Type 0 where
  pub has_more : Bool
  pub data_items : List (Option A)

pub record Charge : Type 0 where
  pub id : Bytes
  pub paid : Bool
  pub refunded : Bool

pub record PaymentIntent : Type 0 where
  pub id : Bytes
  pub object : Bytes
  pub livemode : Bool
  pub succeeded : Bool
  pub latest_charge : Option Charge
  pub customer : Option Bytes

-- The fields of a charge that is read for itself, with its payment.
pub record ChargeDetails : Type 0 where
  pub id : Bytes
  pub object : Bytes
  pub livemode : Bool
  pub amount : ℤ
  pub amount_refunded : ℤ
  pub currency : Bytes
  pub paid : Bool
  pub refunded : Bool
  pub customer : Option Bytes
  pub payment_intent : Option PaymentIntent

pub data RefundStatus : Type 0 where
  succeeded pending requires_action failed canceled : RefundStatus
  other_refund : Bytes → RefundStatus

pub record Refund : Type 0 where
  pub id : Bytes
  pub object : Bytes
  pub charge : Option Bytes
  pub created : ℤ
  pub amount : ℤ
  pub currency : Bytes
  pub payment_intent : Option Bytes
  pub status : RefundStatus

pub data DisputeStatus : Type 0 where
  needs_response under_review lost won warning_closed prevented : DisputeStatus
  warning_needs_response warning_under_review : DisputeStatus
  other_dispute : Bytes → DisputeStatus

pub record Dispute : Type 0 where
  pub id : Bytes
  pub object : Bytes
  pub livemode : Bool
  pub charge : Option Bytes
  pub created : ℤ
  pub amount : ℤ
  pub currency : Bytes
  pub payment_intent : Option Bytes
  pub status : DisputeStatus

-- What pays an invoice: whether it is a payment intent, and the intent's ID.
pub record InvoicePaymentSource : Type 0 where
  pub is_payment_intent : Bool
  pub payment_intent : Option Bytes

pub record InvoicePayment : Type 0 where
  pub object : Bytes
  pub livemode : Bool
  pub status : Bytes
  pub invoice : Option Bytes
  pub payment : Option InvoicePaymentSource
  pub amount_paid : ℤ
  pub currency : Bytes

-- `consent` is whether the terms of service are accepted, `customer_details` the email address;
-- `payment_link`, `customer`, `subscription` and `invoice` are the IDs of the objects.
pub record CheckoutSession : Type 0 where
  pub id : Bytes
  pub object : Bytes
  pub livemode : Bool
  pub mode : SessionMode
  pub payment_status : PaymentStatus
  pub status : SessionStatus
  pub payment_link : Option Bytes
  pub managed_payments : Option Bool
  pub line_items : Option (Page LineItem)
  pub consent : Option Bool
  pub customer_details : Option Bytes
  pub customer : Option Bytes
  pub payment_intent : Option PaymentIntent
  pub subscription : Option Bytes
  pub invoice : Option Bytes

pub record SubscriptionItem : Type 0 where
  pub id : Bytes
  pub subscription : Bytes
  pub quantity : ℤ
  pub price : Option Price

pub record StripeSubscription : Type 0 where
  pub id : Bytes
  pub object : Bytes
  pub livemode : Bool
  pub status : SubscriptionStatus
  pub customer : Option Bytes
  pub items : Option (Page SubscriptionItem)
  pub pause_collection : Bool
  pub latest_invoice : Option Bytes
  pub cancel_at_period_end : Bool
  pub cancellation_details : Option CancellationReason

-- The parent of an invoice: whether its type is that of a subscription, and the subscription's ID.
pub record InvoiceParent : Type 0 where
  pub is_subscription : Bool
  pub subscription_details : Option (Option Bytes)

pub record SubscriptionItemDetails : Type 0 where
  pub proration : Bool
  pub subscription : Bytes
  pub subscription_item : Bytes

pub record LineParent : Type 0 where
  pub is_subscription_item : Bool
  pub details : Option SubscriptionItemDetails

pub record PriceDetails : Type 0 where
  pub price : Option Bytes
  pub product : Bytes

pub record LinePricing : Type 0 where
  pub is_price_details : Bool
  pub details : Option PriceDetails

pub record Period : Type 0 where
  pub start : ℤ
  pub finish : ℤ

pub record InvoiceLine : Type 0 where
  pub quantity : ℤ
  pub parent : Option LineParent
  pub pricing : Option LinePricing
  pub period : Option Period

pub record Invoice : Type 0 where
  pub id : Bytes
  pub object : Bytes
  pub livemode : Bool
  pub parent : Option InvoiceParent
  pub customer : Option Bytes
  pub billing_reason : BillingReason
  pub lines : Option (Page InvoiceLine)
  pub status : InvoiceStatus
  pub amount_paid : ℤ
  pub currency : Bytes

abbrev pub is_payment_mode : SessionMode → Bool
is_payment_mode payment_mode = true
is_payment_mode _ = false

abbrev pub is_subscription_mode : SessionMode → Bool
is_subscription_mode subscription_mode = true
is_subscription_mode _ = false

abbrev pub is_paid : PaymentStatus → Bool
is_paid PaymentStatus.paid = true
is_paid _ = false

abbrev pub is_unpaid : PaymentStatus → Bool
is_unpaid PaymentStatus.unpaid = true
is_unpaid _ = false

abbrev pub is_complete : SessionStatus → Bool
is_complete complete = true
is_complete _ = false

abbrev pub is_creation : BillingReason → Bool
is_creation subscription_create = true
is_creation _ = false

abbrev pub is_paid_invoice : InvoiceStatus → Bool
is_paid_invoice InvoiceStatus.paid = true
is_paid_invoice _ = false

-- A pointer that is not nil and passes the test.
abbrev pub some_such : {A : Type 0} → Option A → (A → Bool) → Bool
some_such none p = false
some_such (some a) p = p a

-- A page that is all of its list, with one item that is not nil and passes the test.
abbrev pub only_item : {A : Type 0} → List (Option A) → (A → Bool) → Bool
only_item (i ∷ []) p = some_such i p
only_item _ p = false

abbrev pub sole_item : {A : Type 0} → List (Option A) → Option A
sole_item (i ∷ []) = i
sole_item _ = none
