-- ===== src/Activation/Terms.antt =====
-- internal/activation/service.go: the license that a request finds, whether it may be activated or
-- refreshed now, and the entitlement that is issued for it.
pub mod Window
pub mod Accepted
use glass_eqserver.Prelude.{
  ℕ, ◌+◌, Bool, true, false, ◌&&◌, Bytes, List, Option, none, some, ltb, bytes_eq, find_row,
  if◌then◌else◌,
}
use glass_eqserver.Prelude.Int.{ℤ, pos}
use glass_eqserver.Entitlement.Claims.{BillingState, Claims, MonthlyClaims}
use glass_eqserver.Entitlement.Payload.{Issued, issued, not_issued, issue_perpetual, issue_monthly}
use glass_eqserver.Store.Tables.{
  Time, Plan, perpetual_v1, monthly, other_plan, License, LicenseState, LicenseKey, Subscription,
  Db, key_is_active, license_is_active,
}
use glass_eqserver.Store.Effect.{
  M, Response, Failure, database, issuing, unsupported_plan, unsupported_state,
  incomplete_subscription, no_terminal_time, pure, throw, respond, call, query, ◌>>=◌, ◌>>◌,
}
use glass_eqserver.Activation.Time.{day, unix}
use glass_eqserver.Activation.Service.{Service}

-- The columns of the license and, by the LEFT JOIN, of its subscription.
pub record LicenseRecord : Type 0 where
  pub id : Bytes
  pub plan : Plan
  pub state : LicenseState
  pub subscription : Option Subscription

unfoldable pub join_subscription : Db → License → LicenseRecord
join_subscription d l = record {
  id = l.id;
  plan = l.plan;
  state = l.state;
  subscription = find_row (λ r. bytes_eq r.license_id l.id) d.subscriptions;
}

unfoldable pub license_by_id : Db → Bytes → Option LicenseRecord
unfolding join_subscription
license_by_id d id = elim (find_row (λ l. bytes_eq l.id id) d.licenses) [
  | none ↦ none
  | some l ↦ some (join_subscription d l)
]

-- The active key with this hash, joined to its license.
unfoldable pub license_by_key : Db → Bytes → Option LicenseRecord
unfolding license_by_id
license_by_key d hash =
    elim (find_row (λ (k : LicenseKey). bytes_eq k.secret_hash hash && key_is_active k.state)
      d.license_keys) [ none ↦ none | some k ↦ license_by_id d k.license_id ]

unfoldable pub find_license : Bytes → M (Option LicenseRecord)
find_license hash = query (λ d. license_by_key d hash)

unfoldable pub find_license_by_id : Bytes → M (Option LicenseRecord)
find_license_by_id id = query (λ d. license_by_id d id)

pub record IssuanceTerms : Type 0 where
  pub plan : Plan
  pub billing_state : BillingState
  pub billing_period_end : ℤ
  pub recovery_until : ℤ
  pub refresh_after : ℤ
  pub expires_at : ℤ

-- `(issuanceTerms, bool, error)`.
pub data TermsResult : Type 0 where
  eligible : IssuanceTerms → TermsResult
  ineligible : TermsResult
  broken : Failure → TermsResult

abbrev pub monthly_grace_period : ℕ
monthly_grace_period = 604800000000

abbrev pub monthly_refresh_interval : ℕ
monthly_refresh_interval = 604800000000

-- The terms once the billing state and the end of recovery are known.
unfoldable pub terms_until : BillingState → Time → Time → Time → TermsResult
unfolding unix
terms_until billing_state period_end recovery_until now =
    let expires_at = recovery_until + monthly_grace_period in
    if ltb now expires_at
    then eligible (record {
      plan = monthly;
      billing_state = billing_state;
      billing_period_end = unix period_end;
      recovery_until = unix recovery_until;
      refresh_after = unix (
          if ltb expires_at (now + monthly_refresh_interval)
          then expires_at
          else now + monthly_refresh_interval);
      expires_at = unix expires_at;
    })
    else ineligible

-- A refunded or charged-back license runs out from its terminal time.
unfoldable pub terminal_terms : BillingState → Subscription → Time → TermsResult
unfolding terms_until
terminal_terms billing_state r now = elim (r.terminal_at) [
  | none ↦ broken no_terminal_time
  | some terminal ↦ terms_until billing_state r.billing_period_end terminal now
]

unfoldable pub monthly_terms : LicenseState → Subscription → Time → TermsResult
unfolding terms_until terminal_terms
monthly_terms LicenseState.active r now =
    terms_until r.state r.billing_period_end r.recovery_until now
monthly_terms LicenseState.refunded r now = terminal_terms BillingState.refunded r now
monthly_terms LicenseState.charged_back r now = terminal_terms BillingState.charged_back r now
monthly_terms LicenseState.revoked r now = ineligible
monthly_terms (LicenseState.other_state word) r now = broken unsupported_state

-- A row of `subscriptions` has a state, a period end and a recovery deadline; without a row all
-- three are NULL.
unfoldable pub monthly_entitlement_terms : LicenseRecord → Time → TermsResult
unfolding monthly_terms
monthly_entitlement_terms l now = elim (l.subscription) [
  | none ↦ broken incomplete_subscription
  | some r ↦ monthly_terms l.state r now
]

-- The terms of a perpetual license carry Go's zero values; the issuer does not read them.
abbrev pub perpetual_terms : IssuanceTerms
perpetual_terms = record {
  plan = perpetual_v1;
  billing_state = BillingState.other_billing List.[];
  billing_period_end = pos 0;
  recovery_until = pos 0;
  refresh_after = pos 0;
  expires_at = pos 0;
}

unfoldable pub terms_of_plan : Plan → LicenseRecord → Time → TermsResult
unfolding monthly_entitlement_terms
terms_of_plan perpetual_v1 l now =
    if license_is_active l.state then eligible perpetual_terms else ineligible
terms_of_plan monthly l now = monthly_entitlement_terms l now
terms_of_plan (other_plan word) l now = broken unsupported_plan

unfoldable pub entitlement_terms : LicenseRecord → Time → TermsResult
unfolding terms_of_plan
entitlement_terms l now = terms_of_plan l.plan l now

-- The two tests that follow every call of `entitlementTerms`.
unfoldable pub require_terms : TermsResult → Response → M IssuanceTerms
require_terms (eligible t) refusal = pure t
require_terms ineligible refusal = respond refusal
require_terms (broken e) refusal = throw e

abbrev pub monthly_claims : IssuanceTerms → Claims → MonthlyClaims
monthly_claims t c = record {
  claims = c;
  billing_state = t.billing_state;
  billing_period_end = t.billing_period_end;
  recovery_until = t.recovery_until;
  refresh_after = t.refresh_after;
  expires_at = t.expires_at;
  security_updates_after_expiry = true;
}

unfoldable pub issued_for : Plan → Service → IssuanceTerms → Claims → Issued
unfolding issue_perpetual issue_monthly
issued_for perpetual_v1 s t c = issue_perpetual s.platform s.encoded_header c
issued_for _ s t c = issue_monthly s.platform s.encoded_header (monthly_claims t c)

-- The KMS request may fail by itself; a refusal of the issuer is an error too.
unfoldable pub hand_out : Issued → M Bytes
hand_out (not_issued e) = throw (issuing e)
hand_out (issued token) = call database >> pure token

unfoldable pub issue_entitlement : Service → IssuanceTerms → Claims → M Bytes
issue_entitlement s t c = hand_out (issued_for t.plan s t c)
