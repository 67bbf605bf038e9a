-- ===== src/Activation/Idempotency.antt =====
-- internal/activation/service.go: the encrypted replay of a request that already succeeded.
pub mod Replayed
pub mod Stores
use glass_eqserver.Prelude.{
  ℕ, zero, suc, ◌+◌, ◌/◌, ◌%◌, Bool, true, false, ◌&&◌, ◌||◌, not, Bytes, List, [], ◌∷◌, ◌++◌,
  Option, none, some, ltb, leb, ◌==◌, bytes_eq, length, find_row, update_rows, if◌then◌else◌,
}
use glass_eqserver.Store.Tables.{Time, IdempotencyRecord, Db}
use glass_eqserver.Store.Effect.{
  M, Response, Failure, database, decryption, replay_changed, pure, throw, throw_if, respond, call,
  query, execute, ◌>>=◌, ◌>>◌,
}
use glass_eqserver.Activation.Time.{day, big_endian}
use glass_eqserver.Activation.Service.{Service, seal, open_sealed, with_body, response_error}

pub record IdempotencyRequest : Type 0 where
  pub scope : Bytes
  pub credential_hash : Bytes
  pub key : Bytes
  pub request_hash : Bytes

abbrev pub idempotency_lifetime : ℕ
idempotency_lifetime = 86400000000

unfoldable pub additional_data : IdempotencyRequest → ℕ → Bytes
additional_data r status =
    r.scope
    ++ (0 ∷ (r.credential_hash ++ (r.key ++ (r.request_hash ++ big_endian 2 (status % 65536)))))

-- The primary key.
abbrev pub same_request : IdempotencyRequest → IdempotencyRecord → Bool
same_request r row =
    bytes_eq row.scope r.scope
    && bytes_eq row.credential_hash r.credential_hash
    && bytes_eq row.key r.key

abbrev pub is_success : ℕ → Bool
is_success status = leb 200 status && leb status 299

-- The row that a replay is read from: not expired, and a success.
abbrev pub replayable : IdempotencyRequest → Time → IdempotencyRecord → Bool
replayable r now row = same_request r row && ltb now row.expires_at && is_success row.status_code

pub data Replay : Type 0 where
  absent conflict : Replay
  found : Response → Replay

unfoldable pub opened : ℕ → Option Bytes → M Replay
opened status none = throw decryption
opened status (some body) = pure (found (with_body status body))

unfoldable pub open_response : Service → IdempotencyRequest → IdempotencyRecord → M Replay
open_response s r row =
    opened row.status_code
      (open_sealed s s.idempotency_key row.ciphertext (additional_data r row.status_code))

-- The stored hash is compared with the request's.
unfoldable pub replay_unless : Bool → Service → IdempotencyRequest → IdempotencyRecord → M Replay
replay_unless true s r row = pure conflict
replay_unless false s r row = open_response s r row

abbrev pub other_request : IdempotencyRequest → IdempotencyRecord → Bool
other_request r row =
    not (length row.request_hash == 32) || not (bytes_eq row.request_hash r.request_hash)

unfoldable pub read_replay : Service → IdempotencyRequest → Option IdempotencyRecord → M Replay
read_replay s r none = pure absent
read_replay s r (some row) = replay_unless (other_request r row) s r row

unfoldable pub load_idempotency : Service → IdempotencyRequest → Time → M Replay
load_idempotency s r now = do
  row ← query (λ d. find_row (replayable r now) d.idempotency_records)
  read_replay s r row

-- What Activate does with the answer.
unfoldable pub respond_replay : Replay → M (Unit {0})
respond_replay absent = pure tt
respond_replay conflict = respond (
    response_error 409 "idempotency_conflict"
      "The idempotency key was already used for another request.")
respond_replay (found r) = respond r

-- The other handlers ignore a conflict, since their request hash is a constant.
unfoldable pub respond_found : Replay → M (Unit {0})
respond_found absent = pure tt
respond_found conflict = pure tt
respond_found (found r) = respond r

abbrev pub new_record : IdempotencyRequest → ℕ → Bytes → Time → IdempotencyRecord
new_record r status ciphertext now = record {
  scope = r.scope;
  credential_hash = r.credential_hash;
  key = r.key;
  request_hash = r.request_hash;
  status_code = status;
  ciphertext = ciphertext;
  created_at = now;
  expires_at = now + idempotency_lifetime;
}

abbrev pub may_replace : Time → IdempotencyRecord → Bool
may_replace now row = leb row.expires_at now || not (is_success row.status_code)

-- INSERT … ON CONFLICT DO UPDATE … WHERE, with the number of rows written.
unfoldable pub upsert_replay : IdempotencyRequest → IdempotencyRecord → Time → Db → Option (Db × ℕ)
upsert_replay r new now d = elim (find_row (same_request r) d.idempotency_records) [
  | none ↦ some (record d { idempotency_records = new ∷ d.idempotency_records }, 1)
  | some old ↦
      if may_replace now old
      then some (
        record d {
          idempotency_records = update_rows (same_request r) (λ _. new) d.idempotency_records;
        },
        1,
      )
      else some (d, 0)
]

-- The last step of a handler's transaction.
unfoldable pub store_and_commit : Service → IdempotencyRequest → Response → Time → M Response
store_and_commit s r response now = do
  ciphertext ← seal s s.idempotency_key response.body (additional_data r response.status)
  stored ← execute (upsert_replay r (new_record r response.status ciphertext now) now)
  call database
  throw_if (not (stored == 1)) replay_changed
  call database
  pure response
