-- ===== src/Activation/System/Kept.antt =====
-- internal/activation: the two limits, and the statements that touch neither of their tables.
use glass_eqserver.Prelude.{Bytes, Option, some, ◌≡◌, arith}
use glass_eqserver.Store.Tables.{Time, IdempotencyRecord, Db, RateKind}
use glass_eqserver.Store.Effect.{Response, execute}
use glass_eqserver.Store.Keeps.{
  Keeps, Keeps-pure, Keeps-respond, Keeps-throw, Keeps-call, Keeps-bind, Keeps-execute,
  Keeps-execute_nowait, Keeps-transact, Keeps-transact_all, keeps_rules,
}
use glass_eqserver.Activation.Service.{Service}
use glass_eqserver.Activation.Idempotency.{IdempotencyRequest, upsert_replay, store_and_commit}
use glass_eqserver.Activation.RateLimit.{count_attempt, increment_rate_limit}
use glass_eqserver.Activation.Activate.Places.{IsLimited}
use glass_eqserver.Activation.Reads.{read_rules, seal-kept}
use glass_eqserver.Activation.System.Keys.{OneActiveKey}

-- The IDs of the activations differ, and no license has more than two active activations or more
-- than one active key.
pub record IsSound (d : Db) : Type 0 where
  pub places : IsLimited d.activations
  pub keys : OneActiveKey d.license_keys

-- A statement that writes to neither table.
abbrev pub Apart : Db → Db → Type 0
Apart d d' = (d'.activations ≡ d.activations) × (d'.license_keys ≡ d.license_keys)

pub Apart-IsSound : (d d' : Db) → Apart d d' → IsSound d → IsSound d'
Apart-IsSound d d' (a, k) h = record { places = rw a h.places; keys = rw k h.keys }

pub execute-Apart :
    {A : Type 0} (f : Db → Option (Db × A))
    → ((d d' : Db) (a : A) → f d ≡ some (d', a) → Apart d d')
    → Keeps IsSound (execute f)
execute-Apart f apart = Keeps-execute f (λ d d' a h e. Apart-IsSound d d' (apart d d' a e) h)

upsert-kept :
    (r : IdempotencyRequest) (new : IdempotencyRecord) (now : Time)
    → Keeps IsSound (execute (upsert_replay r new now))
unfolding upsert_replay
upsert-kept r new now = execute-Apart _ (λ d d' a e. ground arith)

pub store-kept :
    (s : Service) (r : IdempotencyRequest) (response : Response) (now : Time)
    → Keeps IsSound (store_and_commit s r response now)
unfolding store_and_commit
store-kept s r response now = search (keeps_rules, seal-kept, upsert-kept) depth 20

pub attempt-kept :
    (kind : RateKind) (subject : Bytes) (start : Time)
    → Keeps IsSound (increment_rate_limit kind subject start)
unfolding increment_rate_limit count_attempt
attempt-kept kind subject start = execute-Apart _ (λ d d' a e. ground arith)

pub ruleset step_rules = (keeps_rules, read_rules, store-kept, attempt-kept)
