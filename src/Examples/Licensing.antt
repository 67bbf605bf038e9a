-- ===== src/Examples/Licensing.antt =====
-- The theorems on internal/activation at concrete inputs.
use glass_eqserver.Prelude.{
  ◌+◌, ◌<◌, codes, [], none, some, true, ◌≡◌, ◌↔◌, ◌⊎◌, refl, arith, count_rows, find_row, bytes_eq,
}
use glass_eqserver.Store.Tables.{Time, monthly, LicenseState, Subscription}
use glass_eqserver.Entitlement.Claims.{BillingState, Claims}
use glass_eqserver.Entitlement.Validation.{validate_monthly_claims}
use glass_eqserver.Prelude.Int.{pos}
use glass_eqserver.Store.Effect.{
  Env, next, next_answer, success, ◌>>=◌, pure, read_random, transact,
}
use glass_eqserver.Store.Rules.{Ensures}
use glass_eqserver.Activation.Time.{unix}
use glass_eqserver.Activation.Service.{with_body}
use glass_eqserver.Activation.LicenseKey.{
  all_in_alphabet, is_key_char, display_key, generate_license_key, normalize_license_key,
}
use glass_eqserver.Activation.LicenseKey.Chunks.{lower_cased}
use glass_eqserver.Activation.LicenseKey.RoundTrip.{normalize-generate_license_key}
use glass_eqserver.Activation.Terms.{
  LicenseRecord, IssuanceTerms, eligible, entitlement_terms, monthly_claims, terms_of_plan,
  monthly_entitlement_terms, monthly_terms, terms_until,
}
use glass_eqserver.Activation.Terms.Window.{is_eligible, Entitled, entitlement_terms_iff}
use glass_eqserver.Activation.Terms.Accepted.{IsValidRow, monthly_terms_accepted}
use glass_eqserver.Activation.Idempotency.{
  idempotency_lifetime, load_idempotency, store_and_commit, found, conflict,
}
use glass_eqserver.Activation.Idempotency.Replayed.{store-load_idempotency, store-load_conflict}
use glass_eqserver.Activation.RateLimit.{consume_rate_limits}
use glass_eqserver.Activation.RateLimit.Window.{IsAdmitted, IsRefused, consume_rate_limits-window}
use glass_eqserver.Activation.Activate.{PreparedInput}
use glass_eqserver.Activation.Lifecycle.{refresh_locked}
use glass_eqserver.Activation.Lifecycle.Refresh.{RefreshedTo, refresh-RefreshedTo}
use glass_eqserver.Activation.System.Kept.{IsSound}
use glass_eqserver.Activation.System.History.{Reachable-IsSound}
use glass_eqserver.Activation.System.Section.{
  Reachable, start, and_then, activation, activating, run_section, serve,
}
use glass_eqserver.Activation.System.Handlers.{serve-Reachable}
use glass_eqserver.Examples.World.{
  one_input, plain_service, one_db, quiet, one_request, one_response, repeated,
}

one_db-IsSound : IsSound one_db
unfolding count_rows find_row
one_db-IsSound = record {
  places = record { ids = ground arith; limit = λ l. ground arith };
  keys = λ l. ground arith;
}

abbrev one_prepared : PreparedInput
one_prepared = record {
  credential_hash = repeated 32 1;
  credential_valid = true;
  installation_id = repeated 36 b'A';
  installation_hash = repeated 32 1;
  idempotency_key = repeated 36 b'B';
  client_ip = codes "::1";
}

Reachable-IsSound_example :
    IsSound (run_section plain_service (activation one_prepared 5) one_db quiet)
Reachable-IsSound_example =
    Reachable-IsSound plain_service one_db _ one_db-IsSound
      (and_then (activation one_prepared 5) quiet one_db start)

serve-Reachable_example :
    Reachable plain_service one_db (serve plain_service (activating one_input) 5 one_db quiet)
serve-Reachable_example = serve-Reachable plain_service (activating one_input) 5 one_db quiet

store-load_idempotency_example :
    Ensures (store_and_commit plain_service one_request one_response 5) one_db (λ _ d'.
      (later : Time) (v : Env)
      → next_answer v.answers ≡ success
      → later < 5 + idempotency_lifetime
      → (load_idempotency plain_service one_request later d' v).0
        ≡ next (found (with_body one_response.status one_response.body)))
store-load_idempotency_example =
    store-load_idempotency plain_service one_request one_response 5 one_db
      (λ key nonce text extra h. refl) refl refl

store-load_conflict_example :
    Ensures (store_and_commit plain_service one_request one_response 5) one_db (λ _ d'.
      (later : Time) (v : Env)
      → next_answer v.answers ≡ success
      → later < 5 + idempotency_lifetime
      → (load_idempotency plain_service
          (record one_request { request_hash = codes "x" })
          later
          d'
          v).0
        ≡ next conflict)
unfolding bytes_eq
store-load_conflict_example =
    store-load_conflict plain_service one_request (codes "x") one_response 5 one_db refl refl

refresh-RefreshedTo_example :
    Ensures
      (transact (refresh_locked plain_service (repeated 36 b'A') (repeated 32 1) (codes "token") 9))
      one_db
      (λ _ d'. RefreshedTo (repeated 32 1) (codes "token") 9 one_db d')
refresh-RefreshedTo_example =
    refresh-RefreshedTo plain_service (repeated 36 b'A') (repeated 32 1) (codes "token") 9 one_db

consume_rate_limits-window_example :
    Ensures
      (consume_rate_limits plain_service (repeated 32 1) (codes "::1") 7)
      one_db
      (λ seconds d'.
        IsAdmitted (codes "::1") (repeated 32 1) 7 seconds one_db d'
        ⊎ IsRefused (codes "::1") (repeated 32 1) 7 seconds one_db d')
consume_rate_limits-window_example =
    consume_rate_limits-window plain_service (repeated 32 1) (codes "::1") 7 one_db

drawn :
    generate_license_key plain_service one_db (record { answers = []; entropy = repeated 16 3 }) ≡ (
      next (codes "GEQ1-77777-77777-77777-77777-77777-7", codes "GEQ177777777777777777777777777"),
      one_db,
      record { answers = []; entropy = [] },
    )
unfolding generate_license_key display_key ◌>>=◌ pure read_random
drawn = refl

normalize-generate_license_key_example :
    (normalize_license_key (codes "GEQ1-77777-77777-77777-77777-77777-7")
      ≡ (codes "GEQ177777777777777777777777777", true))
    × (normalize_license_key (lower_cased (codes "GEQ1-77777-77777-77777-77777-77777-7"))
        ≡ (codes "GEQ177777777777777777777777777", true))
unfolding all_in_alphabet is_key_char
normalize-generate_license_key_example =
    normalize-generate_license_key plain_service (λ bytes h. (refl, refl)) one_db one_db
      (record { answers = []; entropy = repeated 16 3 }) (record { answers = []; entropy = [] })
      (codes "GEQ1-77777-77777-77777-77777-77777-7") (codes "GEQ177777777777777777777777777") drawn

-- A subscription that is paid for into the year 2026.
abbrev one_subscription : Subscription
one_subscription = record {
  license_id = codes "lic_1";
  state = BillingState.active;
  billing_period_end = 63903600000000000;
  recovery_until = 63904800000000000;
  terminal_at = none;
  last_paid_invoice_id = some (codes "in_1");
}

abbrev monthly_license : LicenseRecord
monthly_license = record {
  id = codes "lic_1";
  plan = monthly;
  state = LicenseState.active;
  subscription = some one_subscription;
}

entitlement_terms_iff_example :
    (is_eligible (entitlement_terms monthly_license 63903500000000000) ≡ true)
    ↔ Entitled monthly monthly_license 63903500000000000
entitlement_terms_iff_example = entitlement_terms_iff monthly_license 63903500000000000

abbrev one_claims : Claims
one_claims = record {
  license_id = codes "lic_1";
  entitlement_id = codes "ent_1";
  issued_at = pos 1767900000;
  activation_id = codes "act_1";
  installation_id = repeated 36 b'A';
  revision = pos 1;
}

abbrev one_terms : IssuanceTerms
one_terms = record {
  plan = monthly;
  billing_state = BillingState.active;
  billing_period_end = pos 1768003200;
  recovery_until = pos 1769203200;
  refresh_after = pos 1768508000;
  expires_at = pos 1769808000;
}

one_terms_given : entitlement_terms monthly_license 63903500000000000 ≡ eligible one_terms
unfolding entitlement_terms terms_of_plan monthly_entitlement_terms monthly_terms terms_until unix
one_terms_given = refl

one_subscription-IsValidRow : IsValidRow one_subscription
one_subscription-IsValidRow = record {
  state = refl;
  ordered = omega arith;
  period_end = (omega arith, omega arith);
  recovery = (omega arith, omega arith);
  terminal = λ t e. absurd cc;
}

monthly_terms_accepted_example :
    validate_monthly_claims (unix 63903500000000000) (monthly_claims one_terms one_claims) ≡ none
monthly_terms_accepted_example =
    monthly_terms_accepted monthly_license one_subscription one_terms one_claims 63903500000000000
      refl refl one_subscription-IsValidRow (omega arith, omega arith) one_terms_given
