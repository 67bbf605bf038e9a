-- ===== src/Activation/System/Rotated.antt =====
-- internal/activation/rotation.go: the tables after a rotation.
use glass_eqserver.Prelude.{
  ℕ, Bool, true, false, Bytes, List, [], ◌∷◌, none, some, ◌≡◌, ◌∙◌, refl, arith, find_row,
  count_rows, delete_rows, bytes_eq_refl,
}
use glass_eqserver.Store.Tables.{Time, LicenseKey, Db}
use glass_eqserver.Store.Effect.{transact}
use glass_eqserver.Store.Rules.{
  Ensures, Ensures-bind, Ensures-pure, Ensures-weaken, Ensures-transact, after_call, after_execute,
  after_or_throw, after_or_respond, after_throw_if, after_respond_if, after_query,
  after_query_nowait, after_read_random,
}
use glass_eqserver.Activation.Service.{Service}
use glass_eqserver.Activation.LicenseKey.{generate_license_key}
use glass_eqserver.Activation.Idempotency.{IdempotencyRequest}
use glass_eqserver.Activation.Steps.{
  after_random_value, after_marshal, after_load_idempotency, after_respond_found,
  Ensures-store_and_commit,
}
use glass_eqserver.Activation.Rotation.{
  active_key_of, older_revoked, delete_older_keys, management_row, consume_session, insert_key,
  replace_key, last_rotation, retry_after_rotation, license_key_rotation_retry_after,
  session_license, lock_management_license, rotate_locked,
}
use glass_eqserver.Activation.System.Keys.{count-none, inserted_keys, active_collides}

-- One active key, made by this rotation, and no session with this hash.
abbrev pub Replaced : Bytes → Bytes → Time → Db → Type 0
Replaced hash license_id now d =
    (count_rows (active_key_of license_id) d.license_keys ≡ 1)
    × ((k : LicenseKey) × (find_row (active_key_of license_id) d.license_keys ≡ some k)
        × (k.created_at ≡ now))
    × (find_row (management_row hash) d.access_tokens ≡ none)

find-delete_self :
    {A : Type 0} (p : A → Bool) (rows : List A) → find_row p (delete_rows p rows) ≡ none
unfolding find_row delete_rows
find-delete_self p [] = refl
find-delete_self p (x ∷ rows) = ground (arith, find-delete_self p rows)

-- Deleting other rows.
count-delete_other :
    {A : Type 0} (p q : A → Bool) (rows : List A)
    → ((x : A) → p x ≡ true → q x ≡ false)
    → count_rows q (delete_rows p rows) ≡ count_rows q rows
unfolding count_rows delete_rows
count-delete_other p q [] other = refl
count-delete_other p q (x ∷ rows) other = ground (arith, other x, count-delete_other p q rows other)

older-other :
    (id kept : Bytes) (k : LicenseKey) → older_revoked id kept k ≡ true → active_key_of id k ≡ false
older-other id kept k h = ground arith

-- A new active key where no other one is left.
one_left :
    (id kept : Bytes) (new : LicenseKey) (keys : List LicenseKey)
    → active_key_of id new ≡ true
    → count_rows (active_key_of id) keys ≡ 0
    → (count_rows (active_key_of id) (delete_rows (older_revoked id kept) (new ∷ keys)) ≡ 1)
      × (find_row (active_key_of id) (delete_rows (older_revoked id kept) (new ∷ keys)) ≡ some new)
unfolding count_rows delete_rows find_row
one_left id kept new keys active empty =
    let other : older_revoked id kept new ≡ false = ground arith in
    (
      count-delete_other (older_revoked id kept) (active_key_of id) (new ∷ keys)
            (older-other id kept)
          ∙ ground (arith, active, empty),
      ground (arith, other, active),
    )

replaced_lem :
    (id kept hash : Bytes) (new : LicenseKey) (d d2 d3 d4 : Db) (n : ℕ)
    → active_key_of id new ≡ true
    → new.license_id ≡ id
    → insert_key new d ≡ some (d2, tt)
    → delete_older_keys id kept d2 ≡ some (d3, tt)
    → consume_session hash d3 ≡ some (d4, n)
    → (count_rows (active_key_of id) d4.license_keys ≡ 1)
      × (find_row (active_key_of id) d4.license_keys ≡ some new)
      × (find_row (management_row hash) d4.access_tokens ≡ none)
unfolding delete_older_keys consume_session
replaced_lem id kept hash new d d2 d3 d4 n active own e2 e3 e4 =
    let (fresh, rows2) = inserted_keys new d d2 e2 in
    let empty =
      count-none _ (active_key_of id) d.license_keys
        (λ k h. active_collides new k (ground arith) (rw own h)) fresh in
    let (one, it) = one_left id kept new d.license_keys active empty in
    let rows3 : d4.license_keys ≡ delete_rows (older_revoked id kept) (new ∷ d.license_keys) =
      ground (arith, rows2) in
    let tokens : d4.access_tokens ≡ delete_rows (management_row hash) d3.access_tokens =
      ground arith in
    (rw rows3 one, rw rows3 it, rw tokens (find-delete_self (management_row hash) d3.access_tokens))

module _ (s : Service) (r : IdempotencyRequest) (now : Time) where
  replace_key-Replaced :
      (id : Bytes) (d : Db)
      → Ensures (replace_key s r id now) d (λ _ d'. Replaced r.credential_hash id now d')
  unfolding replace_key generate_license_key
  replace_key-Replaced id d = Ensures-bind _ _ (
      after_read_random _ _ λ value. Ensures-pure _ (
        after_random_value s _ _ _ λ key_id. after_execute _ _ λ d1 revoked e1.
          after_or_throw _ _ _ λ kept _. after_execute _ _ λ d2 u e2. after_execute _ _ λ d3 u' e3.
            after_execute _ _ λ d4 n e4. after_call _ _ (
              after_throw_if _ _ _ λ _. after_marshal s _ _ λ body.
                let (one, it, gone) =
                  replaced_lem id kept r.credential_hash _ d1 d2 d3 d4 n
                    (rw (bytes_eq_refl id) refl) refl e2 e3 e4 in
                Ensures-store_and_commit s r _ now d4 (λ rows. (one, (_, it, refl), gone)))))

  -- A rotation that succeeds was asked with a live management session, a day or more after the
  -- last one of its license; it leaves exactly one active key of that license, made now, and no
  -- management session with the token's hash.
  pub rotate-Replaced :
      (d : Db)
      → Ensures (transact (rotate_locked s r now)) d (λ _ d'.
        (id : Bytes) × (session_license r.credential_hash now d ≡ some id)
        × (retry_after_rotation (last_rotation id d.license_keys) now ≡ 0)
        × Replaced r.credential_hash id now d')
  unfolding rotate_locked lock_management_license license_key_rotation_retry_after
  rotate-Replaced d = Ensures-transact _ (
      after_call _ _ (
        after_query_nowait _ _ _ (
          after_or_respond _ _ _ λ id session. after_load_idempotency s r now _ λ replayed.
            after_respond_found replayed _ (
              after_query _ _ (
                after_respond_if _ _ _ λ cool.
                  Ensures-weaken _ (replace_key-Replaced id d)
                    (λ _ d' h. (id, session, ground arith, h)))))))
