-- ===== src/Activation/Lifecycle/Refresh.antt =====
-- internal/activation/lifecycle.go: the tables after a refresh.
use glass_eqserver.Prelude.{
  ℕ, ◌+◌, ◌==◌, true, false, not, Bytes, List, Option, none, some, ◌≡◌, ◌≢◌, ◌⊎◌, inl, inr, refl,
  bytes_eq, bytes_eq→eq, bytes_differ, find_row, find_row-holds, update_rows, RowByRow,
  update-RowByRow, arith,
}
use glass_eqserver.Entitlement.Claims.{max_int64}
use glass_eqserver.Store.Tables.{Time, Activation, ActivationState, Db, activation_is_active}
use glass_eqserver.Store.Effect.{transact}
use glass_eqserver.Store.Rules.{
  Ensures, Ensures-pure, Ensures-transact, after_call, after_try_lock, after_respond_if,
  Ensures-weaken, after_or_respond, after_or_throw, after_execute, after_throw_if, after_query,
}
use glass_eqserver.Activation.Service.{Service}
use glass_eqserver.Activation.Terms.{LicenseRecord, IssuanceTerms, find_license_by_id}
use glass_eqserver.Activation.Steps.{
  after_random_value, after_issue, after_marshal, after_require_terms,
}
use glass_eqserver.Activation.Activate.{has_token, has_id}
use glass_eqserver.Activation.Lifecycle.{
  of_installation, find_activation_license_id, find_activation_by_token, refreshed,
  update_refreshed, refresh_activation, refresh_locked,
}

-- A row of `activations` before and after a refresh: the row of the ID has the revision and the
-- refresh time, and keeps its other columns; every other row is the same.
abbrev pub RefreshedRow : Bytes → ℕ → Time → Activation → Activation → Type 0
RefreshedRow id revision now a b =
    ((a.id ≡ id)
      × (b ≡ record {
        id = a.id;
        license_id = a.license_id;
        installation_hash = a.installation_hash;
        token_hash = a.token_hash;
        state = a.state;
        revision = revision;
        activated_at = a.activated_at;
        last_refreshed_at = now;
        deactivated_at = a.deactivated_at;
      }))
    ⊎ ((a.id ≢ id) × (b ≡ a))

-- The database after a refresh by the installation and the token of a running activation.
pub record RefreshedTo (installation_hash token_hash : Bytes) (now : Time) (d d' : Db)
    : Type 0 where
  pub activation : Activation
  pub found : find_row (has_token token_hash) d.activations ≡ some activation
  pub token_is : activation.token_hash ≡ token_hash
  pub installation_is : activation.installation_hash ≡ installation_hash
  pub running : activation.state ≡ ActivationState.active
  pub below : activation.revision ≢ 9223372036854775807
  pub rows :
      RowByRow
        (RefreshedRow activation.id (activation.revision + 1) now)
        d.activations
        d'.activations
  pub others : d' ≡ record d { activations = d'.activations }

refreshed_rows :
    (id : Bytes) (revision : ℕ) (now : Time) (rows : List Activation)
    → RowByRow
        (RefreshedRow id revision now)
        rows
        (update_rows (has_id id) (refreshed revision now) rows)
refreshed_rows id revision now =
    update-RowByRow (RefreshedRow id revision now) (has_id id) (refreshed revision now)
      (λ a h. inl (bytes_eq→eq a.id id h, refl)) (λ a h. inr (bytes_differ a.id id h, refl))

of_token :
    (hash : Bytes) (rows : List Activation) (a : Activation)
    → find_row (has_token hash) rows ≡ some a
    → a.token_hash ≡ hash
of_token hash rows a h = bytes_eq→eq a.token_hash hash (find_row-holds (has_token hash) rows a h)

is_running :
    (state : ActivationState)
    → not (activation_is_active state) ≡ false
    → state ≡ ActivationState.active
is_running ActivationState.active h = refl
is_running ActivationState.deactivated h = cc

not_largest : (revision : ℕ) → (revision == max_int64) ≡ false → revision ≢ 9223372036854775807
not_largest revision h = λ e. ground (arith, e)

updated :
    (id : Bytes) (revision : ℕ) (now : Time) (d d' : Db)
    → update_refreshed id revision now d ≡ some (d', tt)
    → d' ≡ record d { activations = update_rows (has_id id) (refreshed revision now) d.activations }
unfolding update_refreshed
updated id revision now d d' e = ground arith

of_installation-some :
    (hash : Bytes) (o : Option Activation) (a : Activation)
    → of_installation hash o ≡ some a
    → (o ≡ some a) × (bytes_eq a.installation_hash hash ≡ true)
of_installation-some hash none a e = ground arith
of_installation-some hash (some b) a e = ground arith

-- The row's revision was below the largest, and the update is the only write.
activation_refreshed :
    (s : Service) (i : Bytes) (l : LicenseRecord) (t : IssuanceTerms) (a : Activation) (now : Time)
    (d : Db)
    → Ensures (refresh_activation s i l t a now) d (λ _ d'.
      ((a.revision == max_int64) ≡ false)
      × (d' ≡ record d {
        activations = update_rows (has_id a.id) (refreshed (a.revision + 1) now) d.activations;
      }))
unfolding refresh_activation
activation_refreshed s i l t a now d = after_throw_if _ _ _ λ below.
    after_random_value s _ _ _ λ id. after_issue s t _ _ λ token _. after_execute _ _ λ d' u e.
      after_marshal s _ _
        λ body. after_call _ _ (Ensures-pure _ (below, updated a.id (a.revision + 1) now d d' e))

-- A refresh that succeeds was asked with the token of an active activation of the installation whose
-- revision is below 2 ^ 63 - 1. The row of that activation's ID gets its next revision and now as its
-- refresh time, and keeps its other columns; every other row and every other table stay as they
-- were.
pub refresh-RefreshedTo :
    (s : Service) (installation_id installation_hash token_hash : Bytes) (now : Time) (d : Db)
    → Ensures
        (transact (refresh_locked s installation_id installation_hash token_hash now))
        d
        (λ _ d'. RefreshedTo installation_hash token_hash now d d')
unfolding refresh_locked find_activation_license_id find_activation_by_token find_license_by_id
refresh-RefreshedTo s i hash token now d = Ensures-transact _ (
    after_call _ _ (
      after_try_lock _ λ locked. after_respond_if _ _ _ λ _. after_query _ _ (
        after_or_respond _ _ _ λ license_id _. after_query _ _ (
          after_or_throw _ _ _ λ license _. after_query _ _ (
            after_or_respond _ _ _ λ a found.
              after_respond_if _ _ _
                λ running. after_require_terms _ _ _ λ t _. finished a found running license t)))))
  where
    finished :
        (a : Activation)
        → of_installation hash (find_row (has_token token) d.activations) ≡ some a
        → not (activation_is_active a.state) ≡ false
        → (license : LicenseRecord) (t : IssuanceTerms)
        → Ensures
            (refresh_activation s i license t a now)
            d
            (λ _ d'. RefreshedTo hash token now d d')
    finished a found running license t =
        let (row, mine) = of_installation-some hash _ a found in
        Ensures-weaken _ (activation_refreshed s i license t a now d) λ _ d' (below, e). record {
          activation = a;
          found = row;
          token_is = of_token token d.activations a row;
          installation_is = bytes_eq→eq a.installation_hash hash mine;
          running = is_running a.state running;
          below = not_largest a.revision below;
          rows = rw e (refreshed_rows a.id (a.revision + 1) now d.activations);
          others = rw e refl;
        }
