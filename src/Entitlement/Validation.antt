-- ===== src/Entitlement/Validation.antt =====
-- internal/entitlement/issuer.go: validateCommonClaims and validateMonthlyClaims.
pub mod Meaning
use glass_eqserver.Prelude.{
  ℕ, ◌-◌, Bool, true, false, ◌&&◌, ◌||◌, not, Bytes, List, [], ◌∷◌, Option, none, some, ltb, leb,
  ◌==◌, length, if◌then◌else◌, arith,
}
use glass_eqserver.Prelude.Int.{ℤ, pos, negsuc, ◌+ℤ◌, ltb_ℤ, eqb_ℤ}
use glass_eqserver.Platform.{Platform}
use glass_eqserver.Entitlement.Claims.{
  Claims, MonthlyClaims, BillingState, active, recovering, ending, lapsed, refunded, charged_back,
  other_billing, ClaimError, license_id_length, entitlement_id_length, activation_id_length,
  installation_id_length, installation_id_not_uuid, negative_issue_time, revision_not_positive,
  unsupported_billing_state, negative_times, refresh_outside_window, expiry_not_after_recovery,
  recovery_before_period_end, monthly_grace_seconds, max_int64,
}

-- `(value, error)` of Go, where the value is read only if there is no error.
pub data Checked (A : Type 0) : Type 0 where
  valid : A → Checked A
  invalid : ClaimError → Checked A

unfoldable pub field_fits : Bytes → Bool
field_fits value = ltb 0 (length value) && leb (length value) 256

-- The loop over the four text fields stops at the first that does not fit.
unfoldable pub first_misfit : List (ClaimError × Bytes) → Option ClaimError
unfolding field_fits
first_misfit [] = none
first_misfit ((e, value) ∷ rest) = if field_fits value then first_misfit rest else some e

unfoldable pub claim_fields : Claims → List (ClaimError × Bytes)
claim_fields c =
    (license_id_length, c.license_id)
    ∷ (entitlement_id_length, c.entitlement_id)
    ∷ (activation_id_length, c.activation_id)
    ∷ (installation_id_length, c.installation_id)
    ∷ []

unfoldable pub check_numbers : Platform → Claims → Bytes → Checked Bytes
check_numbers p c canonical =
    if ltb_ℤ c.issued_at (pos 0)
    then invalid negative_issue_time
    else if not (ltb_ℤ (pos 0) c.revision)
    then invalid revision_not_positive
    else valid (p.to_upper canonical)

unfoldable pub check_uuid : Platform → Claims → Checked Bytes
unfolding check_numbers
check_uuid p c =
    if length c.installation_id == 36
    then elim (p.parse_uuid c.installation_id) [
      | none ↦ invalid installation_id_not_uuid
      | some canonical ↦ check_numbers p c canonical
    ]
    else invalid installation_id_not_uuid

-- The canonical installation ID, in upper case, or the first check that fails.
unfoldable pub validate_common_claims : Platform → Claims → Checked Bytes
unfolding first_misfit claim_fields check_uuid
validate_common_claims p c = elim (first_misfit (claim_fields c)) [
  | some e ↦ invalid e
  | none ↦ check_uuid p c
]

abbrev pub is_supported : BillingState → Bool
is_supported (other_billing word) = false
is_supported _ = true

-- The states in which the recovery deadline may not precede the paid period.
abbrev pub is_ordinary : BillingState → Bool
is_ordinary active = true
is_ordinary recovering = true
is_ordinary ending = true
is_ordinary lapsed = true
is_ordinary _ = false

-- `none` is Go's nil error.
unfoldable pub validate_monthly_claims : ℤ → MonthlyClaims → Option ClaimError
unfolding ◌+ℤ◌
validate_monthly_claims issued_at c =
    if not (is_supported c.billing_state)
    then some unsupported_billing_state
    else if ltb_ℤ c.billing_period_end (pos 0)
        || ltb_ℤ c.recovery_until (pos 0)
        || ltb_ℤ c.refresh_after (pos 0)
        || ltb_ℤ c.expires_at (pos 0)
    then some negative_times
    else if ltb_ℤ c.refresh_after issued_at || ltb_ℤ c.expires_at c.refresh_after
    then some refresh_outside_window
    else if ltb_ℤ (pos (max_int64 - monthly_grace_seconds)) c.recovery_until
        || not (eqb_ℤ c.expires_at (c.recovery_until +ℤ pos monthly_grace_seconds))
    then some expiry_not_after_recovery
    else if is_ordinary c.billing_state && ltb_ℤ c.recovery_until c.billing_period_end
    then some recovery_before_period_end
    else none
