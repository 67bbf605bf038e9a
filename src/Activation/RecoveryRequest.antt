-- ===== src/Activation/RecoveryRequest.antt =====
-- internal/activation/recovery_request.go: a request for a recovery email.
use glass_eqserver.Prelude.{
  ℕ, ◌+◌, Bool, true, false, ◌&&◌, ◌||◌, not, Bytes, codes, [], ◌∷◌, ◌++◌, Option, none, some, ltb,
  ◌==◌, bytes_eq, length, exists_row, if◌then◌else◌,
}
use glass_eqserver.Store.Tables.{Time, recovery_ip, recovery_email, RecoveryJob, Db}
use glass_eqserver.Store.Effect.{
  M, Response, database, pure, respond_if, or_respond, call, execute, transact, ◌>>=◌, ◌>>◌,
}
use glass_eqserver.Activation.Time.{truncate}
use glass_eqserver.Activation.Service.{Service, response_error, with_body, random_value}
use glass_eqserver.Activation.Idempotency.{
  IdempotencyRequest, load_idempotency, respond_found, store_and_commit,
}
use glass_eqserver.Activation.RateLimit.{rate_limit_window, increment_rate_limit}
use glass_eqserver.Activation.Activate.{canonical_idempotency_key}

pub record RecoveryRequestInput : Type 0 where
  pub email : Bytes
  pub idempotency_key : Bytes
  pub client_ip : Bytes

abbrev pub recovery_request_lifetime : ℕ
recovery_request_lifetime = 1800000000

abbrev pub recovery_email_attempt_limit : ℕ
recovery_email_attempt_limit = 3

abbrev pub recovery_ip_attempt_limit : ℕ
recovery_ip_attempt_limit = 20

abbrev pub is_plain_address : Bytes → Option (Bytes × Bytes) → Bool
is_plain_address value none = false
is_plain_address value (some (name, address)) = length name == 0 && bytes_eq address value

-- The lower-case address, and whether it is an address without a display name.
unfoldable pub normalize_recovery_email : Service → Bytes → Bytes × Bool
normalize_recovery_email s input =
    let value = s.trim_space input in
    if length value == 0 || ltb 254 (length value)
    then (s.to_lower value, false)
    else (s.to_lower value, is_plain_address value (s.parse_address value))

unfoldable pub recovery_accepted_response : Response
recovery_accepted_response = with_body 202 (codes "{\"accepted\":true}")

-- "text" with a NUL byte and the rest behind it.
abbrev pub tagged : Bytes → Bytes → Bytes
tagged tag rest = tag ++ (0 ∷ rest)

abbrev pub job_has_id : Bytes → RecoveryJob → Bool
job_has_id id j = bytes_eq j.id id

abbrev pub new_job : Bytes → Bytes → Time → RecoveryJob
new_job id lookup now = record {
  id = id;
  email_lookup = lookup;
  created_at = now;
  expires_at = now + recovery_request_lifetime;
  next_attempt_at = now;
}

unfoldable pub insert_job : RecoveryJob → Db → Option (Db × Unit {0})
insert_job j d =
    if exists_row (job_has_id j.id) d.recovery_jobs
    then none
    else some (record d { recovery_jobs = j ∷ d.recovery_jobs }, tt)

unfoldable pub enqueue_recovery_request : Service → Bytes → Time → M (Unit {0})
enqueue_recovery_request s email now = do
  id ← random_value s (codes "rrq_") 16
  execute (insert_job (new_job id (s.hmac_sha256 s.email_lookup_key email) now))

-- The address is counted only if the client is under its limit.
unfoldable pub count_email : Service → Bool → Bytes → Time → M Bool
count_email s true email start = pure true
count_email s false email start = do
  attempts ←
      increment_rate_limit recovery_email
        (s.hmac_sha256 s.rate_limit_key (tagged (codes "recovery_email") email)) start
  pure (ltb recovery_email_attempt_limit attempts)

unfoldable pub recovery_rate_limited : Service → Bytes → Bytes → Time → M Bool
recovery_rate_limited s email client_ip now = do
  attempts ←
      increment_rate_limit recovery_ip
        (s.hmac_sha256 s.rate_limit_key (tagged (codes "recovery_ip") (s.addr_string client_ip)))
        (truncate now rate_limit_window)
  count_email s (ltb recovery_ip_attempt_limit attempts) email (truncate now rate_limit_window)

unfoldable pub enqueue_unless : Bool → Service → Bytes → Time → M (Unit {0})
enqueue_unless true s email now = pure tt
enqueue_unless false s email now = enqueue_recovery_request s email now

abbrev pub recovery_request : Service → Bytes → Bytes → IdempotencyRequest
recovery_request s email key = record {
  scope = codes "recovery_request";
  credential_hash = s.hmac_sha256 s.rate_limit_key (tagged (codes "recovery_request") email);
  key = key;
  request_hash = s.sha256 [];
}

unfoldable pub request_recovery_locked :
    Service → IdempotencyRequest → Bytes → Bytes → Time → M Response
request_recovery_locked s request email client_ip now = do
  call database
  call database
  replayed ← load_idempotency s request now
  respond_found replayed
  limited ← recovery_rate_limited s email client_ip now
  enqueue_unless limited s email now
  store_and_commit s request recovery_accepted_response now

unfoldable pub request_recovery : Service → RecoveryRequestInput → Time → M Response
request_recovery s input now = do
  let email = (normalize_recovery_email s input.email).0
  respond_if (not (s.addr_is_valid input.client_ip))
      (response_error 400 "invalid_request" "The recovery request is invalid.")
  key ←
      or_respond (canonical_idempotency_key s input.idempotency_key)
        (response_error 400 "invalid_request" "The recovery request is invalid.")
  replayed ← load_idempotency s (recovery_request s email key) now
  respond_found replayed
  transact (
      request_recovery_locked s (recovery_request s email key) email (s.addr_unmap input.client_ip)
        now)
