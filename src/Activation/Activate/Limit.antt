-- ===== src/Activation/Activate/Limit.antt =====
-- internal/activation/service.go: the transaction of Activate and the limit on activations.
use glass_eqserver.Prelude.{
  ℕ, ◌+◌, ◌<◌, Bool, true, false, Bytes, Option, none, some, ◌≡◌, refl, ◌⊎◌, inl, inr, arith,
  find_row, count_rows,
}
use glass_eqserver.Store.Tables.{Time, Activation, Db}
use glass_eqserver.Store.Effect.{M, ◌>>=◌}
use glass_eqserver.Store.Rules.{
  Ensures, Ensures-pure, Ensures-bind, Ensures-respond_if, Ensures-weaken, Ensures-execute,
  after_call, after_try_lock, after_respond_if, after_or_respond, after_query, after_throw_if,
}
use glass_eqserver.Activation.Service.{Service}
use glass_eqserver.Activation.Terms.{LicenseRecord, IssuanceTerms, find_license}
use glass_eqserver.Activation.Steps.{
  after_random_value, after_marshal, after_require_terms, after_issue, after_respond_replay,
  after_load_idempotency, Ensures-store_and_commit,
}
use glass_eqserver.Activation.Activate.{
  PreparedInput, at_installation, find_activation, counts_for, active_activation_count, is_running,
  limit_unless, check_limit, next_activation, save_activation, issue_activation, activate_locked,
  maximum_activations, update_activation, insert_activation,
}
use glass_eqserver.Activation.Activate.Places.{
  IsLimited, insert_activation-IsLimited, update_activation-IsLimited,
}

-- There is a free place, or the found activation has one already.
abbrev HasRoom : Option Activation → Bytes → Db → Type 0
HasRoom current license_id d =
    (is_running current ≡ true)
    ⊎ (count_rows (counts_for license_id) d.activations < maximum_activations)

module _ {B : Type 0} {Q : B → Db → Type 0} where
  after_limit_unless :
      (b : Bool) (license_id : Bytes) (f : Unit {0} → M B) {d : Db}
      → ((b ≡ true) ⊎ (count_rows (counts_for license_id) d.activations < maximum_activations)
          → Ensures (f tt) d Q)
      → Ensures (limit_unless b license_id >>= f) d Q
  unfolding limit_unless active_activation_count
  after_limit_unless true license_id f h = Ensures-bind _ f (Ensures-pure tt (h (inl refl)))
  after_limit_unless false license_id f h =
      Ensures-bind _ f (after_query _ _ (Ensures-respond_if _ _ (λ e. h (inr (ground arith)))))

  after_check_limit :
      (current : Option Activation) (license_id : Bytes) (f : Unit {0} → M B) {d : Db}
      → (HasRoom current license_id d → Ensures (f tt) d Q)
      → Ensures (check_limit current license_id >>= f) d Q
  unfolding check_limit
  after_check_limit current license_id f h = after_limit_unless (is_running current) license_id f h

-- The ID that is saved is the found row's.
abbrev IdFits : Option Activation → Bytes → Type 0
IdFits none id = Unit
IdFits (some a) id = id ≡ a.id

module _ {B : Type 0} {Q : B → Db → Type 0} where
  after_next_activation :
      (s : Service) (current : Option Activation) (f : ℕ × Bytes × ℕ → M B) {d : Db}
      → ((status : ℕ) (id : Bytes) (revision : ℕ)
          → IdFits current id
          → Ensures (f (status, id, revision)) d Q)
      → Ensures (next_activation s current >>= f) d Q
  unfolding next_activation
  after_next_activation s none f h =
      Ensures-bind _ f (after_random_value s _ _ _ (λ id. Ensures-pure _ (h 201 id 1 tt)))
  after_next_activation s (some a) f h =
      Ensures-bind _ f
        (after_throw_if _ _ _ (λ _. Ensures-pure _ (h 200 a.id (a.revision + 1) refl)))

-- The limit holds afterwards, and the license keys are as they were.
abbrev pub Limited : Db → Db → Type 0
Limited d d' = IsLimited d'.activations × (d'.license_keys ≡ d.license_keys)

-- Saving takes the place that was free, or keeps the one that the row has.
save-IsLimited :
    (current : Option Activation) (id license_id installation token : Bytes) (revision : ℕ)
    (now : Time) (d : Db)
    → IsLimited d.activations
    → find_row (at_installation license_id installation) d.activations ≡ current
    → HasRoom current license_id d
    → IdFits current id
    → Ensures
        (save_activation current id license_id installation token revision now)
        d
        (λ _ d'. Limited d d')
unfolding save_activation update_activation insert_activation
save-IsLimited none id license_id installation token revision now d h found (inl running) fits = cc
save-IsLimited none id license_id installation token revision now d h found (inr free) fits =
    Ensures-execute _ (λ d' u e. (insert_activation-IsLimited _ d d' h free e, ground arith))
save-IsLimited (some a) id license_id installation token revision now d h found room fits =
    rw fits (
      Ensures-execute _ (λ d' u e. (
        update_activation-IsLimited license_id installation token revision now a d d' h found room
            e,
        ground arith,
      )))

module _ (s : Service) (p : PreparedInput) (now : Time) where
  issue-IsLimited :
      (license : LicenseRecord) (terms : IssuanceTerms) (current : Option Activation) (d : Db)
      → IsLimited d.activations
      → find_row (at_installation license.id p.installation_hash) d.activations ≡ current
      → HasRoom current license.id d
      → Ensures (issue_activation s p license terms current now) d (λ _ d'. Limited d d')
  unfolding issue_activation
  issue-IsLimited license terms current d h found room =
      after_next_activation s current _ λ status id revision fits.
        after_random_value s _ _ _ λ token. after_random_value s _ _ _ λ entitlement_id.
          after_issue s _ _ _ λ entitlement _. Ensures-bind _ _ (
            Ensures-weaken _
              (save-IsLimited current id license.id p.installation_hash _ revision now d h found
                room fits)
              λ u d' h'.
                after_marshal s _ _ λ body. Ensures-store_and_commit s _ _ now d' (λ rows. h'))

  pub locked-IsLimited :
      (d : Db)
      → IsLimited d.activations
      → Ensures (activate_locked s p now) d (λ _ d'. Limited d d')
  unfolding activate_locked find_license find_activation
  locked-IsLimited d h = after_call _ _ (
      after_try_lock _ λ locked. after_respond_if _ _ _ λ _.
        after_load_idempotency s _ now _ λ replayed. after_respond_replay replayed _ λ _.
          after_query _ _ (
            after_or_respond _ _ _ λ license _. after_require_terms _ _ _ λ terms _.
              after_query _ _ (
                after_check_limit _ license.id _
                  (λ room. issue-IsLimited license terms _ d h refl room))))
