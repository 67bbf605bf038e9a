-- ===== src/Activation/Idempotency/Replayed.antt =====
-- internal/activation/service.go: storeAndCommit, and loadIdempotency after it.
use glass_eqserver.Prelude.{
  ℕ, zero, suc, ◌+◌, ◌<◌, Bool, true, false, Bytes, List, [], ◌∷◌, ◌++◌, Option, some, ◌≡◌, ◌⊎◌,
  ◌∙◌, refl, inl, inr, arith, length, ltb, ◌==◌, bytes_eq, bytes_eq_refl, find_row, update_rows,
  Option-cases,
}
use glass_eqserver.Store.Tables.{Time, IdempotencyRecord, Db}
use glass_eqserver.Store.Effect.{
  Env, Response, next, M, ◌>>=◌, pure, call, query, gets, read_random, split_at, next_answer,
  later_answers, success, random_exit,
}
use glass_eqserver.Store.Rules.{
  AtExit, Ensures, Ensures-weaken, Ensures-bind, Ensures-pure, after_call, after_throw_if,
  after_execute,
}
use glass_eqserver.Activation.Service.{
  Service, seal, open_sealed, nonce_size, take, drop, with_body,
}
use glass_eqserver.Activation.LicenseKey.Chunks.{split_at-length, length-append}
use glass_eqserver.Activation.Idempotency.{
  IdempotencyRequest, idempotency_lifetime, additional_data, same_request, is_success, replayable,
  found, conflict, opened, open_response, replay_unless, other_request, read_replay,
  load_idempotency, new_record, upsert_replay, store_and_commit,
}

take-append : (xs ys : Bytes) (n : ℕ) → length xs ≡ n → take n (xs ++ ys) ≡ xs
take-append [] ys n h = let z : n ≡ 0 = omega arith in rw z refl
take-append (x ∷ xs) ys zero h = absurd (omega arith)
take-append (x ∷ xs) ys (suc n) h = rw (take-append xs ys n (omega arith))

drop-append : (xs ys : Bytes) (n : ℕ) → length xs ≡ n → drop n (xs ++ ys) ≡ ys
drop-append [] ys n h = let z : n ≡ 0 = omega arith in rw z refl
drop-append (x ∷ xs) ys zero h = absurd (omega arith)
drop-append (x ∷ xs) ys (suc n) h = drop-append xs ys n (omega arith)

random_lem :
    (Q : Bytes → Db → Type 0) (n : ℕ) (bytes : Bytes) (d : Db) (v : Env)
    → ((nonce : Bytes) → length nonce ≡ n → Q nonce d)
    → AtExit Q (random_exit (split_at n bytes) d v).0 (random_exit (split_at n bytes) d v).1
random_lem Q n bytes d v h = elim (Option-cases (split_at n bytes)) [
  | inl e ↦ rw e tt
  | inr ((taken, left), e) ↦ rw e (h taken (split_at-length n bytes taken left e))
]

-- What a sealed text looks like.
after_sealed :
    {B : Type 0} {Q : B → Db → Type 0} (s : Service) (key text extra : Bytes) (f : Bytes → M B)
    {d : Db}
    → ((nonce : Bytes)
        → length nonce ≡ nonce_size
        → Ensures (f (nonce ++ s.aead_seal key nonce text extra)) d Q)
    → Ensures (seal s key text extra >>= f) d Q
unfolding seal read_random
after_sealed s key text extra f {d} h = Ensures-bind _ f (
    Ensures-bind _ _ (record {
      at = λ v. random_lem _ nonce_size v.entropy d v (λ nonce e. Ensures-pure _ (h nonce e));
    }))

-- What the cipher's documentation says: opening with the same key, nonce and additional data gives
-- the text back.
abbrev pub OpensSealed : Service → Type 0
OpensSealed s =
    (key nonce text extra : Bytes)
    → length nonce ≡ nonce_size
    → s.aead_open key nonce (s.aead_seal key nonce text extra) extra ≡ some text

pub open-seal :
    (s : Service) (key nonce text extra : Bytes)
    → OpensSealed s
    → length nonce ≡ nonce_size
    → open_sealed s key (nonce ++ s.aead_seal key nonce text extra) extra ≡ some text
unfolding open_sealed
open-seal s key nonce text extra law h =
    let sealed = s.aead_seal key nonce text extra in
    let long = length-append nonce sealed in
    let short : ltb (length (nonce ++ sealed)) nonce_size ≡ false = ground arith in
    rw (short, take-append nonce sealed nonce_size h, drop-append nonce sealed nonce_size h)
      (law key nonce text extra h)

pub found_again :
    {A : Type 0} (p q : A → Bool) (new : A) (rows : List A) (old : A)
    → ((x : A) → q x ≡ true → p x ≡ true)
    → find_row p rows ≡ some old
    → q new ≡ true
    → find_row q (update_rows p (λ _. new) rows) ≡ some new
unfolding find_row update_rows
found_again p q new [] old sub h k = cc
found_again p q new (x ∷ rows) old sub h k = ground (arith, sub x, found_again p q new rows old sub)

replayable-same :
    (r : IdempotencyRequest) (later : Time) (row : IdempotencyRecord)
    → replayable r later row ≡ true
    → same_request r row ≡ true
replayable-same r later row h = ground arith

upserted :
    (r : IdempotencyRequest) (new : IdempotencyRecord) (now : Time) (d d' : Db) (n : ℕ)
    → upsert_replay r new now d ≡ some (d', n)
    → n == 1 ≡ true
    → (d'.idempotency_records ≡ new ∷ d.idempotency_records)
      ⊎ ((old : IdempotencyRecord) × (find_row (same_request r) d.idempotency_records ≡ some old)
          × (d'.idempotency_records
              ≡ update_rows (same_request r) (λ _. new) d.idempotency_records))
unfolding upsert_replay
upserted r new now d d' n e one =
    elim (Option-cases (find_row (same_request r) d.idempotency_records)) [
      | inl none_yet ↦ inl (ground arith)
      | inr (old, row) ↦ inr (old, row, ground arith)
    ]

stored_row :
    (r : IdempotencyRequest) (new : IdempotencyRecord) (now later : Time) (d d' : Db) (n : ℕ)
    → upsert_replay r new now d ≡ some (d', n)
    → n == 1 ≡ true
    → replayable r later new ≡ true
    → find_row (replayable r later) d'.idempotency_records ≡ some new
unfolding find_row
stored_row r new now later d d' n e one k = elim (upserted r new now d d' n e one) [
  | inl rows ↦ rw (rows, k) refl
  | inr (old, row, rows) ↦ rw rows (
      found_again (same_request r) (replayable r later) new d.idempotency_records old
        (replayable-same r later) row k)
]

-- The row that a stored response leaves, for a day.
abbrev pub StoredRow : Service → IdempotencyRequest → Response → Time → Db → Type 0
StoredRow s r response now d =
    (nonce : Bytes) × (length nonce ≡ nonce_size)
    × ((later : Time)
        → later < now + idempotency_lifetime
        → find_row (replayable r later) d.idempotency_records
          ≡ some (
              new_record r response.status
                (nonce
                  ++ s.aead_seal s.idempotency_key nonce response.body
                      (additional_data r response.status))
                now))

replayable-new_record :
    (r : IdempotencyRequest) (status : ℕ) (ciphertext : Bytes) (now later : Time)
    → is_success status ≡ true
    → later < now + idempotency_lifetime
    → replayable r later (new_record r status ciphertext now) ≡ true
replayable-new_record r status ciphertext now later ok soon =
    let a = bytes_eq_refl r.scope in
    let b = bytes_eq_refl r.credential_hash in let c = bytes_eq_refl r.key in ground arith

stored_lem :
    (s : Service) (r : IdempotencyRequest) (response : Response) (now : Time) (d : Db)
    → is_success response.status ≡ true
    → Ensures (store_and_commit s r response now) d (λ _ d'. StoredRow s r response now d')
unfolding store_and_commit
stored_lem s r response now d ok = after_sealed s _ _ _ _ λ nonce long.
    after_execute _ _ λ d' stored e. after_call _ _ (
      after_throw_if _ _ _ λ one. after_call _ _ (
        Ensures-pure response (
          nonce,
          long,
          λ later soon. stored_row r _ now later d d' stored e (ground arith) (
              replayable-new_record r response.status
                (nonce
                  ++ s.aead_seal s.idempotency_key nonce response.body
                      (additional_data r response.status))
                now later ok soon),
        )))

loaded_lem :
    (s : Service) (r : IdempotencyRequest) (now : Time) (d : Db) (v : Env)
    (o : Option IdempotencyRecord)
    → next_answer v.answers ≡ success
    → find_row (replayable r now) d.idempotency_records ≡ o
    → (load_idempotency s r now d v).0
      ≡ (read_replay s r o d (record v { answers = later_answers v.answers })).0
unfolding load_idempotency query call gets ◌>>=◌
loaded_lem s r now d v o a row = rw (a, row) refl

opened_lem :
    (s : Service) (r : IdempotencyRequest) (response : Response) (now : Time) (nonce : Bytes)
    (d : Db) (v : Env)
    → OpensSealed s
    → length r.request_hash ≡ 32
    → length nonce ≡ nonce_size
    → (read_replay s r
        (some (
          new_record r response.status
            (nonce
              ++ s.aead_seal s.idempotency_key nonce response.body
                  (additional_data r response.status))
            now))
        d
        v).0
      ≡ next (found (with_body response.status response.body))
unfolding read_replay replay_unless open_response opened pure
opened_lem s r response now nonce d v law long n =
    let same : other_request r (
          new_record r response.status
            (nonce
              ++ s.aead_seal s.idempotency_key nonce response.body
                  (additional_data r response.status))
            now)
        ≡ false =
      rw (bytes_eq_refl r.request_hash, long) refl in
    rw
      (
        same,
        open-seal s s.idempotency_key nonce response.body (additional_data r response.status) law n,
      )
      refl

-- A success that was stored is what the same request is answered with for a day, if the database
-- answers, provided that the request hash has the length of a SHA-256 and that the cipher opens
-- what it sealed.
pub store-load_idempotency :
    (s : Service) (r : IdempotencyRequest) (response : Response) (now : Time) (d : Db)
    → OpensSealed s
    → length r.request_hash ≡ 32
    → is_success response.status ≡ true
    → Ensures (store_and_commit s r response now) d (λ _ d'.
      (later : Time) (v : Env)
      → next_answer v.answers ≡ success
      → later < now + idempotency_lifetime
      → (load_idempotency s r later d' v).0
        ≡ next (found (with_body response.status response.body)))
store-load_idempotency s r response now d law long ok =
    Ensures-weaken _ (stored_lem s r response now d ok) λ _ d' (nonce, n, rows) later v a soon.
      loaded_lem s r later d' v _ a (rows later soon)
      ∙ opened_lem s r response now nonce d' _ law long n

conflict_lem :
    (s : Service) (r : IdempotencyRequest) (other ciphertext : Bytes) (status : ℕ) (now : Time)
    (d : Db) (v : Env)
    → bytes_eq r.request_hash other ≡ false
    → (read_replay s
        (record r { request_hash = other })
        (some (new_record r status ciphertext now))
        d
        v).0
      ≡ next conflict
unfolding read_replay replay_unless pure
conflict_lem s r other ciphertext status now d v differs =
    let clash : other_request (record r { request_hash = other })
          (new_record r status ciphertext now)
        ≡ true =
      ground arith in
    rw clash refl

-- After a success was stored, a request with the same scope, credential and key but another
-- request hash is a conflict for a day, if the database answers.
pub store-load_conflict :
    (s : Service) (r : IdempotencyRequest) (other : Bytes) (response : Response) (now : Time)
    (d : Db)
    → bytes_eq r.request_hash other ≡ false
    → is_success response.status ≡ true
    → Ensures (store_and_commit s r response now) d (λ _ d'.
      (later : Time) (v : Env)
      → next_answer v.answers ≡ success
      → later < now + idempotency_lifetime
      → (load_idempotency s (record r { request_hash = other }) later d' v).0 ≡ next conflict)
store-load_conflict s r other response now d differs ok =
    Ensures-weaken _ (stored_lem s r response now d ok) λ _ d' (nonce, n, rows) later v a soon.
      loaded_lem s (record r { request_hash = other }) later d' v _ a (rows later soon)
      ∙ conflict_lem s r other _ response.status now d' _ differs
