-- ===== src/Activation/Idempotency/Stores.antt =====
-- internal/activation/service.go: what storeAndCommit does with the record of a request.
use glass_eqserver.Prelude.{
  ◌+◌, ◌≤◌, ◌<◌, true, false, Bytes, List, [], ◌∷◌, ◌++◌, none, some, ◌≡◌, ◌≢◌, ◌⊎◌, inl, inr, refl,
  Bool-cases, Option-cases, bytes_eq, bytes_eq→eq, bytes_eq_refl, bytes_differ, find_row,
  update_rows, RowByRow, update-RowByRow, arith,
}
use glass_eqserver.Store.Tables.{Time, IdempotencyRecord, Db}
use glass_eqserver.Store.Effect.{
  Env, Exit, Response, next, fail, replay_changed, ◌>>=◌, pure, call, write, execute, read_random,
  split_at, throw_if,
}
use glass_eqserver.Activation.Service.{Service, seal, nonce_size}
use glass_eqserver.Activation.Idempotency.{
  IdempotencyRequest, additional_data, same_request, may_replace, upsert_replay, store_and_commit,
}
use glass_eqserver.Activation.Idempotency.Replayed.{found_again}

abbrev pub HasKey : IdempotencyRequest → IdempotencyRecord → Type 0
HasKey r row = (row.scope ≡ r.scope) × (row.credential_hash ≡ r.credential_hash) × (row.key ≡ r.key)

abbrev pub HasOtherKey : IdempotencyRequest → IdempotencyRecord → Type 0
HasOtherKey r row =
    (row.scope ≢ r.scope) ⊎ (row.credential_hash ≢ r.credential_hash) ⊎ (row.key ≢ r.key)

-- A success that has not expired.
abbrev pub IsLive : Time → IdempotencyRecord → Type 0
IsLive now row = (now < row.expires_at) × (200 ≤ row.status_code) × (row.status_code ≤ 299)

abbrev pub IsSpent : Time → IdempotencyRecord → Type 0
IsSpent now row = (row.expires_at ≤ now) ⊎ (row.status_code < 200) ⊎ (299 < row.status_code)

module _ (s : Service) (r : IdempotencyRequest) (response : Response) (now : Time)
    (nonce : Bytes) where
  -- The response, sealed under the nonce, for 24 hours.
  abbrev pub sealed_row : IdempotencyRecord
  sealed_row = record {
    scope = r.scope;
    credential_hash = r.credential_hash;
    key = r.key;
    request_hash = r.request_hash;
    status_code = response.status;
    ciphertext =
        nonce
        ++ s.aead_seal s.idempotency_key nonce response.body (additional_data r response.status);
    created_at = now;
    expires_at = now + 86400000000;
  }

  abbrev pub ReplacedRow : IdempotencyRecord → IdempotencyRecord → Type 0
  ReplacedRow a b = (HasKey r a × (b ≡ sealed_row)) ⊎ (HasOtherKey r a × (b ≡ a))

  -- The record is new, or takes the place of one that is spent.
  abbrev pub StoredAmong : List IdempotencyRecord → List IdempotencyRecord → Type 0
  StoredAmong rows rows' =
      ((find_row (same_request r) rows ≡ none) × (rows' ≡ sealed_row ∷ rows))
      ⊎ ((old : IdempotencyRecord) × (find_row (same_request r) rows ≡ some old)
          × IsSpent now old
          × RowByRow ReplacedRow rows rows')

  pub record StoredIn (d : Db) (x : Exit Response) (d' : Db) : Type 0 where
    pub returned : x ≡ next response
    pub found : find_row (same_request r) d'.idempotency_records ≡ some sealed_row
    pub among : StoredAmong d.idempotency_records d'.idempotency_records
    pub others : d' ≡ record d { idempotency_records = d'.idempotency_records }

  pub record RefusedBy (d : Db) (x : Exit Response) (d' : Db) : Type 0 where
    pub returned : x ≡ fail replay_changed
    pub old : IdempotencyRecord
    pub found : find_row (same_request r) d.idempotency_records ≡ some old
    pub live : IsLive now old
    pub same : d' ≡ d

  same_request_refl : same_request r sealed_row ≡ true
  same_request_refl =
      rw (bytes_eq_refl r.scope, bytes_eq_refl r.credential_hash, bytes_eq_refl r.key) refl

  other_key : (row : IdempotencyRecord) → same_request r row ≡ false → HasOtherKey r row
  other_key row h = elim (Bool-cases (bytes_eq row.scope r.scope)) [
    | inr differs ↦ inl (bytes_differ row.scope r.scope differs)
    | inl scope ↦ elim (Bool-cases (bytes_eq row.credential_hash r.credential_hash)) [
      | inr differs ↦ inr (inl (bytes_differ row.credential_hash r.credential_hash differs))
      | inl hash ↦ inr (inr (bytes_differ row.key r.key (ground arith)))
    ]
  ]

  replaced_rows :
      (rows : List IdempotencyRecord)
      → RowByRow ReplacedRow rows (update_rows (same_request r) (λ _. sealed_row) rows)
  replaced_rows =
      update-RowByRow ReplacedRow (same_request r) (λ _. sealed_row)
        (λ a h. inl (
          (
            bytes_eq→eq a.scope r.scope (ground arith),
            bytes_eq→eq a.credential_hash r.credential_hash (ground arith),
            bytes_eq→eq a.key r.key (ground arith),
          ),
          refl,
        ))
        (λ a h. inr (other_key a h, refl))

  is_spent : (row : IdempotencyRecord) → may_replace now row ≡ true → IsSpent now row
  is_spent row h = ground arith

  is_live : (row : IdempotencyRecord) → may_replace now row ≡ false → IsLive now row
  is_live row h = (ground arith, ground arith, ground arith)

  module _ (d : Db) (v : Env) (left : Bytes) (quiet : v.answers ≡ [])
      (drawn : split_at nonce_size v.entropy ≡ some (nonce, left)) where
    -- If every call of the database succeeds and the random source has the bytes of a nonce, the
    -- response is returned, and the record of its key is the response, sealed for 24 hours: it is
    -- new, or replaces a record that has expired or is no success. Otherwise a record of the key is
    -- a success that has not expired, and the call fails and writes nothing. No other record and
    -- no other table is changed.
    pub store_and_commit-next :
        let (x, d', v') = store_and_commit s r response now d v in
        StoredIn d x d' ⊎ RefusedBy d x d'
    unfolding store_and_commit seal read_random ◌>>=◌ pure execute call write throw_if upsert_replay
        find_row
    store_and_commit-next = elim (Option-cases (find_row (same_request r) d.idempotency_records)) [
      | inl fresh ↦ inl (
          rw (quiet, drawn, fresh)
            (record {
              returned = refl;
              found = rw same_request_refl refl;
              among = inl (fresh, refl);
              others = refl;
            }))
      | inr (old, row) ↦ elim (Bool-cases (may_replace now old)) [
        | inl spent ↦ inl (
            rw (quiet, drawn, row, spent)
              (record {
                returned = refl;
                found =
                    found_again (same_request r) (same_request r) sealed_row d.idempotency_records
                      old (λ x h. h) row same_request_refl;
                among = inr (old, row, is_spent old spent, replaced_rows d.idempotency_records);
                others = refl;
              }))
        | inr live ↦ inr (
            rw (quiet, drawn, row, live)
              (record {
                returned = refl;
                old = old;
                found = row;
                live = is_live old live;
                same = refl;
              }))
      ]
    ]
