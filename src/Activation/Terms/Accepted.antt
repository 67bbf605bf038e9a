-- ===== src/Activation/Terms/Accepted.antt =====
-- internal/activation/service.go and internal/entitlement/issuer.go: the service's terms before the
-- issuer's validation.
use glass_eqserver.Prelude.{
  ◌+◌, ◌-◌, ◌/◌, ◌*◌, ltb, if◌then◌else◌, ◌≤◌, ◌<◌, true, false, none, some, ◌≡◌, refl, inl, inr,
  arith, Option-cases,
}
use glass_eqserver.Prelude.Int.{pos, ◌+ℤ◌}
use glass_eqserver.Entitlement.Claims.{Claims, BillingState, monthly_grace_seconds}
use glass_eqserver.Entitlement.Validation.{is_supported, is_ordinary, validate_monthly_claims}
use glass_eqserver.Entitlement.Validation.Meaning.{IsMonthly, validate_monthly_claims_iff}
use glass_eqserver.Store.Tables.{Time, monthly, LicenseState, Subscription}
use glass_eqserver.Activation.Time.{unix, second, epoch_seconds}
use glass_eqserver.Activation.Terms.{
  LicenseRecord, IssuanceTerms, eligible, terms_until, terminal_terms, monthly_terms,
  monthly_entitlement_terms, terms_of_plan, entitlement_terms, monthly_claims, monthly_grace_period,
  monthly_refresh_interval,
}

abbrev refresh_time : Time → Time → Time
refresh_time deadline now =
    if ltb (deadline + monthly_grace_period) (now + monthly_refresh_interval)
    then deadline + monthly_grace_period
    else now + monthly_refresh_interval

-- A time of PostgreSQL from the Unix epoch on.
abbrev pub IsStored : Time → Type 0
IsStored t = (epoch_seconds * second ≤ t) × (t ≤ 10000000000000000000)

-- What the CHECKs of `subscriptions` and the projection give of a row.
pub record IsValidRow (r : Subscription) : Type 0 where
  pub state : is_ordinary r.state ≡ true
  pub ordered : r.billing_period_end ≤ r.recovery_until
  pub period_end : IsStored r.billing_period_end
  pub recovery : IsStored r.recovery_until
  pub terminal : (t : Time) → r.terminal_at ≡ some t → IsStored t

unix_stored : (t : Time) → epoch_seconds * second ≤ t → unix t ≡ pos (t / second - epoch_seconds)
unfolding unix
unix_stored t h = ground arith

-- The terms that `terms_until` gives.
until_fields :
    (b : BillingState) (period_end deadline now : Time) (t : IssuanceTerms)
    → terms_until b period_end deadline now ≡ eligible t
    → (now < deadline + monthly_grace_period)
      × (t.billing_state ≡ b)
      × (t.billing_period_end ≡ unix period_end)
      × (t.recovery_until ≡ unix deadline)
      × (t.expires_at ≡ unix (deadline + monthly_grace_period))
      × (t.refresh_after ≡ unix (refresh_time deadline now))
unfolding terms_until
until_fields b period_end deadline now t e = ground arith

refresh_bounds :
    (deadline now : Time)
    → now < deadline + monthly_grace_period
    → (now ≤ refresh_time deadline now)
      × (refresh_time deadline now ≤ deadline + monthly_grace_period)
refresh_bounds deadline now h = ground arith

grace_in_seconds :
    (t : Time)
    → epoch_seconds * second ≤ t
    → unix (t + monthly_grace_period) ≡ unix t +ℤ pos monthly_grace_seconds
unfolding ◌+ℤ◌
grace_in_seconds t h =
    rw (unix_stored t h, unix_stored (t + monthly_grace_period) (omega arith)) (ground arith)

module _ (c : Claims) (t : IssuanceTerms) (now : Time) (stored : IsStored now) where
  until_IsMonthly :
      (b : BillingState) (period_end deadline : Time)
      → is_supported b ≡ true
      → IsStored period_end
      → IsStored deadline
      → (is_ordinary b ≡ true → period_end ≤ deadline)
      → terms_until b period_end deadline now ≡ eligible t
      → IsMonthly (unix now) (monthly_claims t c)
  until_IsMonthly b period_end deadline supported p d order e =
      let (before, state, period, recovery, expiry, refresh) =
        until_fields b period_end deadline now t e in
      let (after_now, in_time) = refresh_bounds deadline now before in
      let un = unix_stored now stored.0 in
      let up = unix_stored period_end p.0 in
      let ud = unix_stored deadline d.0 in
      let ue = unix_stored (deadline + monthly_grace_period) (omega arith) in
      let ur = unix_stored (refresh_time deadline now) (omega arith) in
      record {
        supported = rw state supported;
        period_end = rw (period, up) (omega arith);
        recovery = rw (recovery, ud) (omega arith);
        refresh_start = rw (refresh, un, ur) (omega arith);
        refresh_end = rw (refresh, expiry, ur, ue) (omega arith);
        refresh_sign = rw (refresh, ur) (omega arith);
        grace = rw (expiry, recovery) (grace_in_seconds deadline d.0);
        no_overflow = rw (expiry, ue) (omega arith);
        paid = λ o. rw (period, recovery, up, ud) (let h = order (rw state at o) in omega arith);
      }

  terminal_IsMonthly :
      (b : BillingState) (r : Subscription)
      → is_supported b ≡ true
      → is_ordinary b ≡ false
      → IsValidRow r
      → terminal_terms b r now ≡ eligible t
      → IsMonthly (unix now) (monthly_claims t c)
  unfolding terminal_terms
  terminal_IsMonthly b r supported special v e = elim (Option-cases r.terminal_at) [
    | inl none_at ↦ ground arith
    | inr (end, at_end) ↦
        until_IsMonthly b r.billing_period_end end supported v.period_end (v.terminal end at_end)
          (λ o. cc) (ground arith)
  ]

  ordinary_supported : (b : BillingState) → is_ordinary b ≡ true → is_supported b ≡ true
  ordinary_supported b h = ground arith

  state_IsMonthly :
      (state : LicenseState) (r : Subscription)
      → IsValidRow r
      → monthly_terms state r now ≡ eligible t
      → IsMonthly (unix now) (monthly_claims t c)
  unfolding monthly_terms
  state_IsMonthly LicenseState.active r v e =
      until_IsMonthly r.state r.billing_period_end r.recovery_until
        (ordinary_supported r.state v.state) v.period_end v.recovery (λ _. v.ordered) e
  state_IsMonthly LicenseState.refunded r v e =
      terminal_IsMonthly BillingState.refunded r refl refl v e
  state_IsMonthly LicenseState.charged_back r v e =
      terminal_IsMonthly BillingState.charged_back r refl refl v e
  state_IsMonthly LicenseState.revoked r v e = cc
  state_IsMonthly (LicenseState.other_state word) r v e = cc

-- For a monthly license whose subscription row has one of the four ordinary states, a period that
-- ends no later than the recovery deadline, and times from the Unix epoch to 10^19 microseconds
-- after Go's zero time, whatever terms the service computes at such a time pass the issuer's
-- monthly validation.
pub monthly_terms_accepted :
    (l : LicenseRecord) (r : Subscription) (t : IssuanceTerms) (c : Claims) (now : Time)
    → l.plan ≡ monthly
    → l.subscription ≡ some r
    → IsValidRow r
    → IsStored now
    → entitlement_terms l now ≡ eligible t
    → validate_monthly_claims (unix now) (monthly_claims t c) ≡ none
unfolding entitlement_terms terms_of_plan monthly_entitlement_terms
monthly_terms_accepted l r t c now plan joined v stored e =
    (validate_monthly_claims_iff (unix now) (monthly_claims t c)).1
      (state_IsMonthly c t now stored l.state r v (ground arith))
