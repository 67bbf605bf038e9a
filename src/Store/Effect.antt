-- ===== src/Store/Effect.antt =====
-- The effects of a request handler: the database, the answers of the outside world, the random
-- source, and Go's early returns. A step that talks to the database or to another service takes
-- one answer from the list; when the list is empty every further call succeeds.
use glass_eqserver.Prelude.{
  ℕ, zero, suc, Bool, true, false, Bytes, String, List, [], ◌∷◌, Option, none, some,
}
use glass_eqserver.Entitlement.Payload.{IssueError}
use glass_eqserver.Store.Tables.{Db}

-- What a call to PostgreSQL, SES or KMS meets: success, an error, or a lock that another session
-- holds (`pg_try_advisory_xact_lock` false, or SQLSTATE 55P03 under NOWAIT).
pub data Answer : Type 0 where
  success fault busy : Answer

pub record Env : Type 0 where
  pub answers : List Answer
  pub entropy : Bytes

-- `Response` of service.go.
pub record Response : Type 0 where
  pub status : ℕ
  pub body : Bytes
  pub error_code : String
  pub error_message : String
  pub retry_after_seconds : ℕ

-- The errors that a handler returns instead of a response.
pub data Failure : Type 0 where
  database randomness encryption decryption encoding email : Failure
  unsupported_plan unsupported_state incomplete_subscription no_terminal_time : Failure
  license_missing revision_exhausted replay_changed no_active_key : Failure
  session_disappeared token_changed email_disappeared invalid_purchase : Failure
  stripe nil_dereference invalid_billing_event invalid_checkout_session : Failure
  unsupported_purchase invalid_subscription snapshot_changed invalid_adjustment : Failure
  unfulfilled_session empty_page reconciliation_limit repeated_page : Failure
  issuing : IssueError → Failure

-- How a piece of a handler ends: it goes on with a value, or it returns from the handler.
pub data Exit (A : Type 0) : Type 0 where
  next : A → Exit A
  reply : Response → Exit A
  fail : Failure → Exit A

abbrev pub M : Type 0 → Type 0
M A = Db → Env → Exit A × Db × Env

module _ {A B : Type 0} where
  abbrev pub continue : Exit A → Db → Env → (A → M B) → Exit B × Db × Env
  continue (next a) d v f = f a d v
  continue (reply r) d v f = (reply r, d, v)
  continue (fail e) d v f = (fail e, d, v)

infixl 5 ◌>>=◌ ◌>>◌
unfoldable pub ◌>>=◌ : {A B : Type 0} → M A → (A → M B) → M B
◌>>=◌ m f d v = let (x, d', v') = m d v in continue x d' v' f

abbrev pub ◌>>◌ : {B : Type 0} → M (Unit {0}) → M B → M B
m >> k = m >>= λ _. k

module _ {A : Type 0} where
  unfoldable pub pure : A → M A
  pure a d v = (next a, d, v)

  unfoldable pub respond : Response → M A
  respond r d v = (reply r, d, v)

  unfoldable pub throw : Failure → M A
  throw e d v = (fail e, d, v)

  -- A decoded or computed value, or an error.
  unfoldable pub or_throw : Option A → Failure → M A
  or_throw none e d v = (fail e, d, v)
  or_throw (some a) e d v = (next a, d, v)

  unfoldable pub or_respond : Option A → Response → M A
  or_respond none r d v = (reply r, d, v)
  or_respond (some a) r d v = (next a, d, v)

unfoldable pub respond_if : Bool → Response → M (Unit {0})
respond_if true r d v = (reply r, d, v)
respond_if false r d v = (next tt, d, v)

unfoldable pub throw_if : Bool → Failure → M (Unit {0})
throw_if true e d v = (fail e, d, v)
throw_if false e d v = (next tt, d, v)

-- The next answer of the outside world.
abbrev pub next_answer : List Answer → Answer
next_answer [] = success
next_answer (a ∷ rest) = a

abbrev pub later_answers : List Answer → List Answer
later_answers [] = []
later_answers (a ∷ rest) = rest

unfoldable pub ask : M Answer
ask d v = (next (next_answer v.answers), d, record v { answers = later_answers v.answers })

-- A call that must succeed.
abbrev pub settle : Failure → Answer → Exit (Unit {0})
settle e success = next tt
settle e fault = fail e
settle e busy = fail e

unfoldable pub call : Failure → M (Unit {0})
call e d v = (settle e (next_answer v.answers), d, record v { answers = later_answers v.answers })

-- A call that another session's lock may refuse.
abbrev pub lock_exit : Answer → Exit Bool
lock_exit success = next true
lock_exit busy = next false
lock_exit fault = fail database

-- `pg_try_advisory_xact_lock`.
unfoldable pub try_lock : M Bool
try_lock d v =
    (lock_exit (next_answer v.answers), d, record v { answers = later_answers v.answers })

unfoldable pub gets : {A : Type 0} → (Db → A) → M A
gets f d v = (next (f d), d, v)

-- A SELECT.
unfoldable pub query : {A : Type 0} → (Db → A) → M A
query f = call database >> gets f

abbrev pub write_exit : {A : Type 0} → Option (Db × A) → Db → Env → Exit A × Db × Env
write_exit none d v = (fail database, d, v)
write_exit (some (d', a)) d v = (next a, d', v)

unfoldable pub write : {A : Type 0} → (Db → Option (Db × A)) → M A
write f d v = write_exit (f d) d v

-- An INSERT, UPDATE or DELETE with its result, or `none` where a constraint refuses it.
unfoldable pub execute : {A : Type 0} → (Db → Option (Db × A)) → M A
execute f = call database >> write f

-- A locking SELECT or UPDATE under NOWAIT: another session's lock is answered by a response.
abbrev pub nowait_exit : Response → Answer → Exit (Unit {0})
nowait_exit r success = next tt
nowait_exit r busy = reply r
nowait_exit r fault = fail database

unfoldable pub call_nowait : Response → M (Unit {0})
call_nowait r d v =
    (nowait_exit r (next_answer v.answers), d, record v { answers = later_answers v.answers })

unfoldable pub query_nowait : {A : Type 0} → Response → (Db → A) → M A
query_nowait r f = call_nowait r >> gets f

unfoldable pub execute_nowait : {A : Type 0} → Response → (Db → Option (Db × A)) → M A
execute_nowait r f = call_nowait r >> write f

abbrev pub split_at : ℕ → Bytes → Option (Bytes × Bytes)
split_at zero bytes = some ([], bytes)
split_at (suc n) [] = none
split_at (suc n) (b ∷ bytes) = elim (split_at n bytes) [
  | none ↦ none
  | some (taken, left) ↦ some (b ∷ taken, left)
]

abbrev pub random_exit : Option (Bytes × Bytes) → Db → Env → Exit Bytes × Db × Env
random_exit none d v = (fail randomness, d, record v { entropy = [] })
random_exit (some (taken, left)) d v = (next taken, d, record v { entropy = left })

-- `io.ReadFull` on the random source.
unfoldable pub read_random : ℕ → M Bytes
read_random n d v = random_exit (split_at n v.entropy) d v

-- A transaction: what it wrote stays only if it goes on past its commit. Every early return is
-- undone by the deferred Rollback.
abbrev pub close_transaction : {A : Type 0} → Exit A → Db → Db → Env → Exit A × Db × Env
close_transaction (next a) before after v = (next a, after, v)
close_transaction (reply r) before after v = (reply r, before, v)
close_transaction (fail e) before after v = (fail e, before, v)

unfoldable pub transact : {A : Type 0} → M A → M A
transact m d v = let (x, d', v') = m d v in close_transaction x d d' v'

-- What the caller of a handler gets: `(Response, error)`.
pub data Outcome : Type 0 where
  response : Response → Outcome
  failure : Failure → Outcome

abbrev pub outcome : Exit Response → Outcome
outcome (next r) = response r
outcome (reply r) = response r
outcome (fail e) = failure e
