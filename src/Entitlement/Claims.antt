-- ===== src/Entitlement/Claims.antt =====
-- internal/entitlement/issuer.go: the claims that the licensing service hands to the issuer.
use glass_eqserver.Prelude.{ℕ, Bool, Bytes}
use glass_eqserver.Prelude.Int.{ℤ}

-- A billing state is a Go string; `other_billing` stands for a word that is none of the six.
pub data BillingState : Type 0 where
  active recovering ending lapsed refunded charged_back : BillingState
  other_billing : Bytes → BillingState

pub record Claims : Type 0 where
  pub license_id : Bytes
  pub entitlement_id : Bytes
  pub issued_at : ℤ
  pub activation_id : Bytes
  pub installation_id : Bytes
  pub revision : ℤ

pub record MonthlyClaims : Type 0 where
  pub claims : Claims
  pub open claims use *
  pub billing_state : BillingState
  pub billing_period_end : ℤ
  pub recovery_until : ℤ
  pub refresh_after : ℤ
  pub expires_at : ℤ
  pub security_updates_after_expiry : Bool

-- Why the issuer refuses claims, in the order of the checks.
pub data ClaimError : Type 0 where
  license_id_length entitlement_id_length activation_id_length installation_id_length : ClaimError
  installation_id_not_uuid negative_issue_time revision_not_positive : ClaimError
  unsupported_billing_state negative_times refresh_outside_window : ClaimError
  expiry_not_after_recovery recovery_before_period_end : ClaimError

abbrev pub monthly_grace_seconds : ℕ
monthly_grace_seconds = 604800

abbrev pub max_int64 : ℕ
max_int64 = 9223372036854775807
