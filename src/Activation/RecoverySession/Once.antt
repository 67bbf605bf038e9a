-- ===== src/Activation/RecoverySession/Once.antt =====
-- internal/activation/recovery.go: the recovery token after its exchange.
use glass_eqserver.Prelude.{
  ℕ, Bool, true, false, Bytes, List, [], ◌∷◌, some, ◌≡◌, ◌≢◌, ◌∙◌, ap, ◌&&◌, arith, inl, inr,
  find_row, update_rows, exists_row, bytes_eq, Option-cases, ◌==◌, find_row-holds,
}
use glass_eqserver.Store.Tables.{Time, AccessToken, License, Db, license_is_active}
use glass_eqserver.Store.Effect.{transact}
use glass_eqserver.Store.Rules.{
  Ensures, Ensures-bind, Ensures-transact, after_call, after_execute, after_or_respond,
  after_throw_if, after_respond_if, after_query_nowait, Ensures-pure,
}
use glass_eqserver.Activation.Service.{Service}
use glass_eqserver.Activation.Idempotency.{IdempotencyRequest}
use glass_eqserver.Activation.Management.{MintedSession, mint_management_session, insert_token}
use glass_eqserver.Activation.Steps.{
  after_random_value, after_marshal, after_load_idempotency, after_respond_found,
  Ensures-store_and_commit,
}
use glass_eqserver.Activation.RecoverySession.{
  recovery_row, token_usable, token_available, exchangeable, consumed, exchange_token,
  exchange_locked,
}

exists_both :
    (p q : License → Bool) (rows : List License) (l : License)
    → find_row p rows ≡ some l
    → q l ≡ true
    → exists_row (λ (x : License). p x && q x) rows ≡ true
unfolding find_row
exists_both p q [] l h k = cc
exists_both p q (x ∷ rows) l h k = ground (arith, exists_both p q rows l)

-- The row that the lock found may be exchanged.
available_row :
    (hash : Bytes) (now : Time) (d : Db)
    → token_available hash now d ≡ some true
    → (t : AccessToken) × (find_row (recovery_row hash) d.access_tokens ≡ some t)
      × (exchangeable hash now d t ≡ true)
unfolding token_available
available_row hash now d h = elim (Option-cases (find_row (recovery_row hash) d.access_tokens)) [
  | inl e ↦ ground arith
  | inr (t, e) ↦
      elim (Option-cases (find_row (λ (l : License). bytes_eq l.id t.license_id) d.licenses)) [
        | inl e' ↦ ground arith
        | inr (l, e') ↦
            let (row, usable, active) : (recovery_row hash t ≡ true)
                × (token_usable now t ≡ true)
                × (license_is_active l.state ≡ true) =
              (
                find_row-holds (recovery_row hash) d.access_tokens t e,
                ground arith,
                ground arith,
              ) in
            (
              t,
              e,
              ground (
                arith,
                exists_both (λ (x : License). bytes_eq x.id t.license_id)
                    (λ x. license_is_active x.state) d.licenses l e' active,
              ),
            )
      ]
]

consumed_row :
    (hash : Bytes) (now : Time) (q : AccessToken → Bool) (rows : List AccessToken) (t : AccessToken)
    → find_row (recovery_row hash) rows ≡ some t
    → q t ≡ true
    → find_row (recovery_row hash) (update_rows q (consumed now) rows) ≡ some (consumed now t)
unfolding find_row update_rows
consumed_row hash now q [] t h k = cc
consumed_row hash now q (x ∷ rows) t h k = ground (arith, consumed_row hash now q rows t)

-- A consumed token is not available at any time.
not_available :
    (hash : Bytes) (now later : Time) (d : Db) (t : AccessToken)
    → find_row (recovery_row hash) d.access_tokens ≡ some (consumed now t)
    → token_available hash later d ≢ some true
unfolding token_available
not_available hash now later d t e h = ground arith

exchanged_rows :
    (hash : Bytes) (m : MintedSession) (now : Time) (d d' : Db) (n : ℕ) (t : AccessToken)
    → find_row (recovery_row hash) d.access_tokens ≡ some t
    → exchangeable hash now d t ≡ true
    → exchange_token hash m now d ≡ some (d', n)
    → n == 0 ≡ false
    → find_row (recovery_row hash) d'.access_tokens ≡ some (consumed now t)
unfolding exchange_token insert_token find_row
exchanged_rows hash m now d d' n t row ok e one =
    ground (arith, consumed_row hash now (exchangeable hash now d) d.access_tokens t)

module _ (s : Service) (r : IdempotencyRequest) (now : Time) where
  -- After an exchange that succeeds, the recovery token is available at no time.
  pub exchange_locked-once :
      (d : Db)
      → Ensures
          (transact (exchange_locked s r now))
          d
          (λ _ d'. (later : Time) → token_available r.credential_hash later d' ≢ some true)
  unfolding exchange_locked mint_management_session
  exchange_locked-once d = Ensures-transact _ (
      after_call _ _ (
        after_query_nowait _ _ _ (
          after_or_respond _ _ _ λ available shown. after_load_idempotency s r now _ λ replayed.
            after_respond_found replayed _ (
              after_respond_if _ _ _ λ usable. Ensures-bind _ _ (
                after_random_value s _ _ _ λ token. after_marshal s _ _ λ body. Ensures-pure _ (
                  after_execute _ _ λ d' n e. after_call _ _ (
                    after_throw_if _ _ _ λ one.
                      Ensures-store_and_commit s r _ now d' λ rows later h.
                        let (t, row, ok) =
                          available_row r.credential_hash now d (shown ∙ ap some (ground arith)) in
                        not_available r.credential_hash now later
                          (record d' { idempotency_records = rows }) t
                          (exchanged_rows r.credential_hash _ now d d' n t row ok e one) h)))))))
