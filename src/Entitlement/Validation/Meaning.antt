-- ===== src/Entitlement/Validation/Meaning.antt =====
-- internal/entitlement/issuer.go: what the two validations accept.
use glass_eqserver.Prelude.{
  ◌≤◌, true, Bytes, none, some, ◌≡◌, ◌↔◌, inl, inr, length, arith, Option-cases,
}
use glass_eqserver.Prelude.Int.{ℤ, pos, ◌+ℤ◌, ◌≤ℤ◌, eq_of_parts}
use glass_eqserver.Platform.{Platform}
use glass_eqserver.Entitlement.Claims.{Claims, MonthlyClaims, monthly_grace_seconds, max_int64}
use glass_eqserver.Entitlement.Validation.{
  valid, field_fits, check_numbers, check_uuid, validate_common_claims, is_supported, is_ordinary,
  validate_monthly_claims,
}

abbrev Fits : Bytes → Type 0
Fits value = (1 ≤ length value) × (length value ≤ 256)

-- Claims that the issuer accepts; `canonical` is the UUID that the installation ID parses to.
pub record IsCommon (p : Platform) (c : Claims) (canonical : Bytes) : Type 0 where
  pub license_id : Fits c.license_id
  pub entitlement_id : Fits c.entitlement_id
  pub activation_id : Fits c.activation_id
  pub installation_id : length c.installation_id ≡ 36
  pub parsed : p.parse_uuid c.installation_id ≡ some canonical
  pub issued_at : pos 0 ≤ℤ c.issued_at
  pub revision : pos 1 ≤ℤ c.revision

module _ (p : Platform) (c : Claims) where
  common_accepted : (u : Bytes) → IsCommon p c u → validate_common_claims p c ≡ valid (p.to_upper u)
  unfolding validate_common_claims check_numbers field_fits
  common_accepted u h = ground arith

  numbers_hold :
      (u id : Bytes)
      → check_numbers p c u ≡ valid id
      → (pos 0 ≤ℤ c.issued_at) × (pos 1 ≤ℤ c.revision) × (id ≡ p.to_upper u)
  unfolding check_numbers
  numbers_hold u id h = ground arith

  uuid_holds :
      (id : Bytes)
      → check_uuid p c ≡ valid id
      → (u : Bytes) × (length c.installation_id ≡ 36)
        × (p.parse_uuid c.installation_id ≡ some u)
        × (check_numbers p c u ≡ valid id)
  unfolding check_uuid
  uuid_holds id h = elim (Option-cases (p.parse_uuid c.installation_id)) [
    | inl e ↦ ground arith
    | inr (u, e) ↦ (u, ground arith, e, ground arith)
  ]

  fields_hold :
      (id : Bytes)
      → validate_common_claims p c ≡ valid id
      → Fits c.license_id
        × Fits c.entitlement_id
        × Fits c.activation_id
        × (check_uuid p c ≡ valid id)
  unfolding validate_common_claims field_fits
  fields_hold id h = ground arith

  IsCommon-holds :
      (id : Bytes)
      → validate_common_claims p c ≡ valid id
      → (u : Bytes) × IsCommon p c u × (id ≡ p.to_upper u)
  IsCommon-holds id h =
      let (l, e, a, uuid) = fields_hold id h in
      let (u, size, parsed, numbers) = uuid_holds id uuid in
      let (issued_at, revision, upper) = numbers_hold u id numbers in
      (
        u,
        record {
          license_id = l;
          entitlement_id = e;
          activation_id = a;
          installation_id = size;
          parsed = parsed;
          issued_at = issued_at;
          revision = revision;
        },
        upper,
      )

  -- The validation returns an installation ID exactly when each of the license, entitlement and activation IDs
  -- has 1 to 256 bytes, the installation ID has 36 bytes and parses as a UUID, the issue time is
  -- not negative and the revision is positive; and it returns that UUID in upper case.
  pub validate_common_claims_iff :
      (id : Bytes)
      → (validate_common_claims p c ≡ valid id)
        ↔ ((u : Bytes) × IsCommon p c u × (id ≡ p.to_upper u))
  validate_common_claims_iff id = (IsCommon-holds id, λ (u, h, e). rw e (common_accepted u h))

-- Monthly claims that the issuer accepts.
pub record IsMonthly (issued_at : ℤ) (c : MonthlyClaims) : Type 0 where
  pub supported : is_supported c.billing_state ≡ true
  pub period_end : pos 0 ≤ℤ c.billing_period_end
  pub recovery : pos 0 ≤ℤ c.recovery_until
  pub refresh_start : issued_at ≤ℤ c.refresh_after
  pub refresh_end : c.refresh_after ≤ℤ c.expires_at
  pub refresh_sign : pos 0 ≤ℤ c.refresh_after
  pub grace : c.expires_at ≡ c.recovery_until +ℤ pos monthly_grace_seconds
  pub no_overflow : c.expires_at ≤ℤ pos max_int64
  pub paid : is_ordinary c.billing_state ≡ true → c.billing_period_end ≤ℤ c.recovery_until

monthly_accepted :
    (issued_at : ℤ) (c : MonthlyClaims)
    → IsMonthly issued_at c
    → validate_monthly_claims issued_at c ≡ none
unfolding validate_monthly_claims
monthly_accepted issued_at c h = ground arith

IsMonthly-holds :
    (issued_at : ℤ) (c : MonthlyClaims)
    → validate_monthly_claims issued_at c ≡ none
    → IsMonthly issued_at c
unfolding validate_monthly_claims
IsMonthly-holds issued_at c h =
    ground (arith, eq_of_parts c.expires_at (c.recovery_until +ℤ pos monthly_grace_seconds))

-- The monthly validation accepts exactly the claims with a supported state, times that are not
-- negative, a refresh time between the issue and the expiry, an expiry seven days after the
-- recovery deadline that fits an int64, and, in the four ordinary states, a paid period that ends
-- no later than the recovery deadline.
pub validate_monthly_claims_iff :
    (issued_at : ℤ) (c : MonthlyClaims)
    → (validate_monthly_claims issued_at c ≡ none) ↔ IsMonthly issued_at c
unfolding validate_monthly_claims
validate_monthly_claims_iff issued_at c =
    (λ h. IsMonthly-holds issued_at c h, monthly_accepted issued_at c)
