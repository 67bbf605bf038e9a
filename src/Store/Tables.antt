-- ===== src/Store/Tables.antt =====
-- The tables of migrations/*.sql that the licensing and billing code reads and writes, a record for a row.
-- A time is the number of microseconds since Go's zero time; a text or a bytea is a byte string.
-- Columns that a CHECK limits to a few words are data types.
use glass_eqserver.Prelude.{ℕ, Bool, true, false, Bytes, Option, List}
use glass_eqserver.Entitlement.Claims.{BillingState}

abbrev pub Time : Type 0
Time = ℕ

pub data Plan : Type 0 where
  perpetual_v1 monthly : Plan
  other_plan : Bytes → Plan

pub data LicenseState : Type 0 where
  active refunded charged_back revoked : LicenseState
  other_state : Bytes → LicenseState

pub record License : Type 0 where
  pub id : Bytes
  pub plan : Plan
  pub state : LicenseState
  pub policy_version : Bytes
  pub recovery_email_ciphertext : Bytes
  pub recovery_email_lookup : Bytes
  pub stripe_customer_id : Bytes
  pub stripe_subscription_id : Option Bytes
  pub created_at : Time
  pub updated_at : Time

pub data KeyState : Type 0 where
  active revoked : KeyState

-- The encrypted copy of a key that is still to be delivered: the ciphertext and its expiry, which
-- are NULL together.
pub record LicenseKey : Type 0 where
  pub id : Bytes
  pub license_id : Bytes
  pub secret_hash : Bytes
  pub delivery : Option (Bytes × Time)
  pub state : KeyState
  pub created_at : Time
  pub revoked_at : Option Time

pub record Subscription : Type 0 where
  pub license_id : Bytes
  pub state : BillingState
  pub billing_period_end : Time
  pub recovery_until : Time
  pub terminal_at : Option Time
  pub last_paid_invoice_id : Option Bytes

pub data ActivationState : Type 0 where
  active deactivated : ActivationState

pub record Activation : Type 0 where
  pub id : Bytes
  pub license_id : Bytes
  pub installation_hash : Bytes
  pub token_hash : Bytes
  pub state : ActivationState
  pub revision : ℕ
  pub activated_at : Time
  pub last_refreshed_at : Time
  pub deactivated_at : Option Time

pub record IdempotencyRecord : Type 0 where
  pub scope : Bytes
  pub credential_hash : Bytes
  pub key : Bytes
  pub request_hash : Bytes
  pub status_code : ℕ
  pub ciphertext : Bytes
  pub created_at : Time
  pub expires_at : Time

pub data RateKind : Type 0 where
  ip license_key recovery_ip recovery_email : RateKind

pub record RateLimit : Type 0 where
  pub kind : RateKind
  pub subject_hash : Bytes
  pub window_start : Time
  pub attempts : ℕ

pub data Purpose : Type 0 where
  management recovery : Purpose

pub record AccessToken : Type 0 where
  pub token_hash : Bytes
  pub license_id : Bytes
  pub purpose : Purpose
  pub created_at : Time
  pub expires_at : Time
  pub consumed_at : Option Time

pub record RecoveryJob : Type 0 where
  pub id : Bytes
  pub email_lookup : Bytes
  pub created_at : Time
  pub expires_at : Time
  pub next_attempt_at : Time

pub record RecoveryEmailRow : Type 0 where
  pub id : Bytes
  pub license_id : Bytes
  pub token_ciphertext : Bytes
  pub created_at : Time
  pub expires_at : Time
  pub next_attempt_at : Time

pub record LicenseDelivery : Type 0 where
  pub id : Bytes
  pub license_key_id : Bytes
  pub created_at : Time
  pub expires_at : Time
  pub next_attempt_at : Time

pub data OrderState : Type 0 where
  pending paid failed fulfilled : OrderState

pub record CheckoutOrder : Type 0 where
  pub id : Bytes
  pub plan : Plan
  pub policy_version : Bytes
  pub stripe_price_id : Bytes
  pub stripe_checkout_session_id : Option Bytes
  pub state : OrderState
  pub license_id : Option Bytes
  pub created_at : Time
  pub fulfilled_at : Option Time
  pub stripe_payment_intent_id : Option Bytes
  pub stripe_subscription_id : Option Bytes
  pub billing_revision : ℕ

-- The columns `processed_at` and `outcome` of an event are written together.
pub record StripeEvent : Type 0 where
  pub stripe_event_id : Bytes
  pub event_type : Bytes
  pub object_id : Bytes
  pub stripe_created_at : Time
  pub processed : Option (Time × Bytes)

pub data AdjustmentKind : Type 0 where
  refund dispute : AdjustmentKind

pub data AdjustmentState : Type 0 where
  blocking resolved : AdjustmentState

pub record BillingAdjustment : Type 0 where
  pub stripe_object_id : Bytes
  pub order_id : Bytes
  pub kind : AdjustmentKind
  pub stripe_charge_id : Bytes
  pub state : AdjustmentState
  pub pending : Bool
  pub cancel_required : Bool
  pub effective_at : Time
  pub updated_at : Time

pub record Db : Type 0 where
  pub licenses : List License
  pub license_keys : List LicenseKey
  pub subscriptions : List Subscription
  pub activations : List Activation
  pub idempotency_records : List IdempotencyRecord
  pub rate_limits : List RateLimit
  pub access_tokens : List AccessToken
  pub recovery_jobs : List RecoveryJob
  pub recovery_emails : List RecoveryEmailRow
  pub license_deliveries : List LicenseDelivery
  pub checkout_orders : List CheckoutOrder
  pub stripe_events : List StripeEvent
  pub billing_adjustments : List BillingAdjustment

abbrev pub license_is_active : LicenseState → Bool
license_is_active LicenseState.active = true
license_is_active _ = false

abbrev pub key_is_active : KeyState → Bool
key_is_active KeyState.active = true
key_is_active KeyState.revoked = false

abbrev pub activation_is_active : ActivationState → Bool
activation_is_active ActivationState.active = true
activation_is_active ActivationState.deactivated = false

abbrev pub is_management : Purpose → Bool
is_management management = true
is_management recovery = false

abbrev pub kind_eq : RateKind → RateKind → Bool
kind_eq ip ip = true
kind_eq license_key license_key = true
kind_eq recovery_ip recovery_ip = true
kind_eq recovery_email recovery_email = true
kind_eq _ _ = false

abbrev pub order_is_fulfilled : OrderState → Bool
order_is_fulfilled fulfilled = true
order_is_fulfilled _ = false

abbrev pub order_is_paid : OrderState → Bool
order_is_paid paid = true
order_is_paid _ = false

abbrev pub order_is_pending : OrderState → Bool
order_is_pending pending = true
order_is_pending _ = false

abbrev pub is_blocking : AdjustmentState → Bool
is_blocking blocking = true
is_blocking resolved = false

abbrev pub is_perpetual : Plan → Bool
is_perpetual perpetual_v1 = true
is_perpetual _ = false

abbrev pub is_monthly : Plan → Bool
is_monthly monthly = true
is_monthly _ = false
