-- ===== src/Activation/Terms/Window.antt =====
-- internal/activation/service.go: who is entitled, and until when.
use glass_eqserver.Prelude.{
  ◌+◌, ◌<◌, Bool, true, false, Option, none, some, ◌≡◌, ◌↔◌, inl, inr, arith, Option-cases,
}
use glass_eqserver.Entitlement.Claims.{BillingState}
use glass_eqserver.Store.Tables.{
  Time, Plan, perpetual_v1, monthly, other_plan, LicenseState, Subscription,
}
use glass_eqserver.Activation.Terms.{
  LicenseRecord, TermsResult, eligible, ineligible, broken, monthly_grace_period, terms_until,
  terminal_terms, monthly_terms, monthly_entitlement_terms, terms_of_plan, entitlement_terms,
}

-- The time from which a monthly license counts its grace period: the recovery deadline of the
-- subscription, or the terminal time once the license is refunded or charged back.
abbrev pub deadline_of : LicenseState → Subscription → Option Time
deadline_of LicenseState.active r = some r.recovery_until
deadline_of LicenseState.refunded r = r.terminal_at
deadline_of LicenseState.charged_back r = r.terminal_at
deadline_of LicenseState.revoked r = none
deadline_of (LicenseState.other_state word) r = none

abbrev pub is_eligible : TermsResult → Bool
is_eligible (eligible t) = true
is_eligible ineligible = false
is_eligible (broken e) = false

abbrev Running : Option Time → Time → Type 0
Running none now = ⊥
Running (some deadline) now = now < deadline + monthly_grace_period

abbrev Subscribed : LicenseState → Option Subscription → Time → Type 0
Subscribed state none now = ⊥
Subscribed state (some r) now = Running (deadline_of state r) now

-- Who is entitled: a perpetual license while it is active, a monthly one until the grace period
-- after its deadline is over.
abbrev pub Entitled : Plan → LicenseRecord → Time → Type 0
Entitled perpetual_v1 l now = l.state ≡ LicenseState.active
Entitled monthly l now = Subscribed l.state l.subscription now
Entitled (other_plan word) l now = ⊥

terms_until_iff :
    (b : BillingState) (period_end deadline now : Time)
    → (is_eligible (terms_until b period_end deadline now) ≡ true)
      ↔ (now < deadline + monthly_grace_period)
unfolding terms_until
terms_until_iff b period_end deadline now = ground arith

terminal_terms_iff :
    (b : BillingState) (r : Subscription) (now : Time)
    → (is_eligible (terminal_terms b r now) ≡ true) ↔ Running r.terminal_at now
unfolding terminal_terms
terminal_terms_iff b r now = elim (Option-cases r.terminal_at) [
  | inl e ↦ rw (e, terminal_terms) (ground arith)
  | inr (t, e) ↦ rw (e, terminal_terms) (terms_until_iff b r.billing_period_end t now)
]

monthly_terms_iff :
    (state : LicenseState) (r : Subscription) (now : Time)
    → (is_eligible (monthly_terms state r now) ≡ true) ↔ Running (deadline_of state r) now
unfolding monthly_terms
monthly_terms_iff LicenseState.active r now =
    terms_until_iff r.state r.billing_period_end r.recovery_until now
monthly_terms_iff LicenseState.refunded r now = terminal_terms_iff BillingState.refunded r now
monthly_terms_iff LicenseState.charged_back r now =
    terminal_terms_iff BillingState.charged_back r now
monthly_terms_iff LicenseState.revoked r now = ground arith
monthly_terms_iff (LicenseState.other_state word) r now = ground arith

Subscribed-iff :
    (l : LicenseRecord) (now : Time)
    → (is_eligible (monthly_entitlement_terms l now) ≡ true) ↔ Subscribed l.state l.subscription now
unfolding monthly_entitlement_terms
Subscribed-iff l now = elim (Option-cases l.subscription) [
  | inl e ↦ rw (e, monthly_entitlement_terms) (ground arith)
  | inr (r, e) ↦ rw (e, monthly_entitlement_terms) (monthly_terms_iff l.state r now)
]

perpetual_iff :
    (l : LicenseRecord) (now : Time)
    → (is_eligible (terms_of_plan perpetual_v1 l now) ≡ true) ↔ (l.state ≡ LicenseState.active)
unfolding terms_of_plan
perpetual_iff l now = ground arith

plan_iff :
    (plan : Plan) (l : LicenseRecord) (now : Time)
    → (is_eligible (terms_of_plan plan l now) ≡ true) ↔ Entitled plan l now
unfolding terms_of_plan
plan_iff perpetual_v1 l now = perpetual_iff l now
plan_iff monthly l now = Subscribed-iff l now
plan_iff (other_plan word) l now = ground arith

-- A license gets terms exactly while it is entitled: a perpetual one while it is active; a monthly
-- one with a subscription until seven days after its deadline, which is the recovery deadline
-- while the license is active, the terminal time once it is refunded or charged back, and nothing
-- once it is revoked.
pub entitlement_terms_iff :
    (l : LicenseRecord) (now : Time)
    → (is_eligible (entitlement_terms l now) ≡ true) ↔ Entitled l.plan l now
unfolding entitlement_terms
entitlement_terms_iff l now = plan_iff l.plan l now
