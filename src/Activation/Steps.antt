-- ===== src/Activation/Steps.antt =====
-- internal/activation/service.go: the steps that the handlers share, as rules.
use glass_eqserver.Prelude.{ℕ, List, arith, Bool, true, false, Bytes, Option, none, some, ◌≡◌, refl}
use glass_eqserver.Platform.{Json}
use glass_eqserver.Entitlement.Claims.{Claims}
use glass_eqserver.Entitlement.Payload.{Issued, issued, not_issued}
use glass_eqserver.Store.Tables.{Time, IdempotencyRecord, Db}
use glass_eqserver.Store.Effect.{M, Response, ◌>>=◌}
use glass_eqserver.Store.Rules.{
  Ensures, Ensures-pure, Ensures-respond, Ensures-throw, Ensures-or_throw, Ensures-bind, after_call,
  after_read_random, after_query, after_throw_if, after_execute,
}
use glass_eqserver.Activation.Service.{Service, random_value, seal, marshal_or_throw}
use glass_eqserver.Activation.Terms.{
  IssuanceTerms, TermsResult, eligible, ineligible, broken, require_terms, issued_for, hand_out,
  issue_entitlement,
}
use glass_eqserver.Activation.Idempotency.{
  IdempotencyRequest, Replay, absent, conflict, found, opened, open_response, replay_unless,
  read_replay, load_idempotency, respond_replay, respond_found, upsert_replay, store_and_commit,
}

module _ {P : Replay → Db → Type 0} (s : Service) (r : IdempotencyRequest) {d : Db}
    (h : (x : Replay) → P x d) where
  Ensures-opened : (status : ℕ) (o : Option Bytes) → Ensures (opened status o) d P
  unfolding opened
  Ensures-opened status none = Ensures-throw _
  Ensures-opened status (some body) = Ensures-pure _ (h _)

  Ensures-unless : (b : Bool) (row : IdempotencyRecord) → Ensures (replay_unless b s r row) d P
  unfolding replay_unless open_response
  Ensures-unless true row = Ensures-pure _ (h _)
  Ensures-unless false row = Ensures-opened _ _

  Ensures-read : (o : Option IdempotencyRecord) → Ensures (read_replay s r o) d P
  unfolding read_replay
  Ensures-read none = Ensures-pure _ (h _)
  Ensures-read (some row) = Ensures-unless _ row

Ensures-hand_out :
    {P : Bytes → Db → Type 0} (x : Issued) {d : Db}
    → ((token : Bytes) → x ≡ issued token → P token d)
    → Ensures (hand_out x) d P
unfolding hand_out
Ensures-hand_out (not_issued e) h = Ensures-throw _
Ensures-hand_out (issued token) h = after_call _ _ (Ensures-pure token (h token refl))

module _ {B : Type 0} {Q : B → Db → Type 0} where
  pub after_random_value :
      (s : Service) (prefix : Bytes) (n : ℕ) (f : Bytes → M B) {d : Db}
      → ((value : Bytes) → Ensures (f value) d Q)
      → Ensures (random_value s prefix n >>= f) d Q
  unfolding random_value
  after_random_value s prefix n f h =
      Ensures-bind _ f (after_read_random n _ (λ bytes. Ensures-pure _ (h _)))

  pub after_seal :
      (s : Service) (key text extra : Bytes) (f : Bytes → M B) {d : Db}
      → ((value : Bytes) → Ensures (f value) d Q)
      → Ensures (seal s key text extra >>= f) d Q
  unfolding seal
  after_seal s key text extra f h =
      Ensures-bind _ f (after_read_random _ _ (λ bytes. Ensures-pure _ (h _)))

  pub after_marshal :
      (s : Service) (json : Json) (f : Bytes → M B) {d : Db}
      → ((body : Bytes) → Ensures (f body) d Q)
      → Ensures (marshal_or_throw s json >>= f) d Q
  unfolding marshal_or_throw
  after_marshal s json f h = Ensures-bind _ f (Ensures-or_throw _ _ (λ body e. h body))

  pub after_require_terms :
      (t : TermsResult) (r : Response) (f : IssuanceTerms → M B) {d : Db}
      → ((terms : IssuanceTerms) → t ≡ eligible terms → Ensures (f terms) d Q)
      → Ensures (require_terms t r >>= f) d Q
  unfolding require_terms
  after_require_terms (eligible t) r f h = Ensures-bind _ f (Ensures-pure t (h t refl))
  after_require_terms ineligible r f h = Ensures-bind _ f (Ensures-respond r)
  after_require_terms (broken e) r f h = Ensures-bind _ f (Ensures-throw e)

  pub after_issue :
      (s : Service) (t : IssuanceTerms) (c : Claims) (f : Bytes → M B) {d : Db}
      → ((token : Bytes) → issued_for t.plan s t c ≡ issued token → Ensures (f token) d Q)
      → Ensures (issue_entitlement s t c >>= f) d Q
  unfolding issue_entitlement
  after_issue s t c f h = Ensures-bind _ f (Ensures-hand_out _ h)

  pub after_respond_replay :
      (r : Replay) (f : Unit {0} → M B) {d : Db}
      → (r ≡ absent → Ensures (f tt) d Q)
      → Ensures (respond_replay r >>= f) d Q
  unfolding respond_replay
  after_respond_replay absent f h = Ensures-bind _ f (Ensures-pure tt (h refl))
  after_respond_replay conflict f h = Ensures-bind _ f (Ensures-respond _)
  after_respond_replay (found r) f h = Ensures-bind _ f (Ensures-respond r)

  pub after_respond_found :
      (r : Replay) (f : Unit {0} → M B) {d : Db}
      → Ensures (f tt) d Q
      → Ensures (respond_found r >>= f) d Q
  unfolding respond_found
  after_respond_found absent f h = Ensures-bind _ f (Ensures-pure tt h)
  after_respond_found conflict f h = Ensures-bind _ f (Ensures-pure tt h)
  after_respond_found (found r) f h = Ensures-bind _ f (Ensures-respond r)

  pub after_load_idempotency :
      (s : Service) (r : IdempotencyRequest) (now : Time) (f : Replay → M B) {d : Db}
      → ((x : Replay) → Ensures (f x) d Q)
      → Ensures (load_idempotency s r now >>= f) d Q
  unfolding load_idempotency
  after_load_idempotency s r now f h = Ensures-bind _ f (after_query _ _ (Ensures-read s r h _))

-- The upsert writes to `idempotency_records` alone.
upsert_only :
    (r : IdempotencyRequest) (new : IdempotencyRecord) (now : Time) (d d' : Db) (n : ℕ)
    → upsert_replay r new now d ≡ some (d', n)
    → (rows : List IdempotencyRecord) × (d' ≡ record d { idempotency_records = rows })
unfolding upsert_replay
upsert_only r new now d d' n h = (d'.idempotency_records, ground arith)

pub Ensures-store_and_commit :
    {Q : Response → Db → Type 0} (s : Service) (r : IdempotencyRequest) (response : Response)
    (now : Time) (d : Db)
    → ((rows : List IdempotencyRecord) → Q response (record d { idempotency_records = rows }))
    → Ensures (store_and_commit s r response now) d Q
unfolding store_and_commit
Ensures-store_and_commit {Q} s r response now d h = after_seal s _ _ _ _ λ ciphertext.
    after_execute _ _ λ d' stored e.
      let (rows, same) = upsert_only r _ now d d' stored e in
      after_call _ _
        (after_throw_if _ _ _ (λ _. after_call _ _ (Ensures-pure response (rw same (h rows)))))
