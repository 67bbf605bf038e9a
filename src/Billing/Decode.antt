-- ===== src/Billing/Decode.antt =====
-- internal/billing/event.go: the decoding of a webhook's body. `json.Unmarshal` is a parameter.
pub mod Subjects
pub mod Ids
pub mod Accepted
use glass_eqserver.Prelude.{
  ℕ, ◌+◌, ◌*◌, Bool, false, ◌&&◌, ◌||◌, not, Bytes, codes, List, [], ◌∷◌, Option, none, some, ltb,
  length, bytes_eq, if◌then◌else◌,
}
use glass_eqserver.Prelude.Int.{ℤ, pos, ltb_ℤ}
use glass_eqserver.Platform.{Platform}
use glass_eqserver.Store.Tables.{Time}
use glass_eqserver.Activation.Time.{minute, unix}
use glass_eqserver.Billing.Objects.{some_such}
use glass_eqserver.Billing.Client.{same_bool, valid_stripe_id}
use glass_eqserver.Billing.Ledger.{BillingEvent}

-- 256 * 1024.
abbrev pub maximum_billing_event_bytes : ℕ
maximum_billing_event_bytes = 262144

abbrev pub stripe_api_version : Bytes
stripe_api_version = codes "2026-07-29.preview"

abbrev pub one_of : List Bytes → Bytes → Bool
one_of [] word = false
one_of (w ∷ words) word = bytes_eq word w || one_of words word

-- What an event is about: the object's prefix and its kind.
abbrev pub Subject : Type 0
Subject = Bytes × Bytes

abbrev pub session_types : List Bytes
session_types =
    codes "checkout.session.completed"
    ∷ codes "checkout.session.async_payment_succeeded"
    ∷ codes "checkout.session.async_payment_failed"
    ∷ []

abbrev pub invoice_types : List Bytes
invoice_types = codes "invoice.paid" ∷ codes "invoice.payment_failed" ∷ codes "invoice.updated" ∷ []

abbrev pub subscription_types : List Bytes
subscription_types =
    codes "customer.subscription.updated" ∷ codes "customer.subscription.deleted" ∷ []

abbrev pub refund_types : List Bytes
refund_types = codes "refund.created" ∷ codes "refund.updated" ∷ codes "refund.failed" ∷ []

abbrev pub dispute_types : List Bytes
dispute_types =
    codes "charge.dispute.created"
    ∷ codes "charge.dispute.updated"
    ∷ codes "charge.dispute.funds_withdrawn"
    ∷ codes "charge.dispute.closed"
    ∷ []

unfoldable pub event_subject : Bytes → Option Subject
event_subject word =
    if one_of session_types word
    then some (codes "cs_", codes "checkout.session")
    else if one_of invoice_types word
    then some (codes "in_", codes "invoice")
    else if one_of subscription_types word
    then some (codes "sub_", codes "subscription")
    else if one_of refund_types word
    then some (codes "re_", codes "refund")
    else if one_of dispute_types word
    then some (codes "du_", codes "dispute")
    else none

-- `now.Add(5*time.Minute).Unix()`.
abbrev pub latest_creation : Time → ℤ
latest_creation now = unix (now + 5 * minute)

-- The fields that do not depend on the type.
unfoldable pub envelope_valid : Platform → Bool → Time → BillingEvent → Bool
envelope_valid t live_mode now e =
    valid_stripe_id t e.id (codes "evt_")
    && not (ltb 255 (length e.id))
    && bytes_eq e.object (codes "event")
    && bytes_eq e.api_version stripe_api_version
    && some_such e.livemode (λ mode. same_bool mode live_mode)
    && ltb_ℤ (pos 0) e.created
    && not (ltb_ℤ (latest_creation now) e.created)
    && not (ltb 255 (length e.object_id))

abbrev pub subject_valid : Platform → BillingEvent → Subject → Bool
subject_valid t e (prefix, kind) =
    valid_stripe_id t e.object_id prefix && bytes_eq e.object_kind kind

unfoldable pub validate_event : Platform → Bool → Time → BillingEvent → Option BillingEvent
unfolding envelope_valid event_subject
validate_event t live_mode now e =
    if envelope_valid t live_mode now e
      && some_such (event_subject e.event_type) (subject_valid t e)
    then some e
    else none

-- `none` stands for ErrInvalidBillingEvent.
unfoldable pub decode_billing_event :
    Platform → (Bytes → Option BillingEvent) → Bytes → Bool → Time → Option BillingEvent
unfolding validate_event
decode_billing_event t unmarshal body live_mode now =
    if ltb maximum_billing_event_bytes (length body)
    then none
    else elim (unmarshal body) [ none ↦ none | some e ↦ validate_event t live_mode now e ]
