-- ===== src/Activation/Activate.antt =====
-- internal/activation/service.go: Activate.
pub mod Places
pub mod Limit
use glass_eqserver.Prelude.{
  ℕ, ◌+◌, ◌-◌, Bool, true, false, ◌&&◌, ◌||◌, not, Bytes, codes, String, List, [], ◌∷◌, ◌++◌,
  Option, none, some, ltb, leb, ◌==◌, bytes_eq, is_some, length, find_row, count_rows, exists_row,
  update_rows, if◌then◌else◌,
}
use glass_eqserver.Prelude.Int.{pos}
use glass_eqserver.Platform.{text, object, end, member}
use glass_eqserver.Entitlement.Claims.{Claims, max_int64}
use glass_eqserver.Store.Tables.{
  Time, Activation, ActivationState, active, deactivated, Db, activation_is_active,
}
use glass_eqserver.Store.Effect.{
  M, Response, database, revision_exhausted, pure, throw_if, respond_if, or_respond, call, try_lock,
  query, execute, transact, ◌>>=◌, ◌>>◌,
}
use glass_eqserver.Activation.Time.{unix}
use glass_eqserver.Activation.Service.{
  Service, response_error, with_body, database_busy_response, random_value, marshal_or_throw,
}
use glass_eqserver.Activation.LicenseKey.{normalize_license_key}
use glass_eqserver.Activation.Terms.{
  LicenseRecord, IssuanceTerms, find_license, entitlement_terms, require_terms, issue_entitlement,
}
use glass_eqserver.Activation.Idempotency.{
  IdempotencyRequest, load_idempotency, respond_replay, store_and_commit,
}
use glass_eqserver.Activation.RateLimit.{consume_rate_limits}

pub record Input : Type 0 where
  pub license_key : Bytes
  pub installation_id : Bytes
  pub idempotency_key : Bytes
  pub client_ip : Bytes

pub record PreparedInput : Type 0 where
  pub credential_hash : Bytes
  pub credential_valid : Bool
  pub installation_id : Bytes
  pub installation_hash : Bytes
  pub idempotency_key : Bytes
  pub client_ip : Bytes

unfoldable pub canonical_idempotency_key : Service → Bytes → Option Bytes
canonical_idempotency_key s value = if length value == 36 then s.parse_uuid value else none

-- The canonical installation ID and its hash.
unfoldable pub canonical_installation : Service → Bytes → Option (Bytes × Bytes)
canonical_installation s value =
    if length value == 36
    then elim (s.parse_uuid value) [
      | none ↦ none
      | some id ↦ some (s.to_upper id, s.sha256 (s.to_upper id))
    ]
    else none

unfoldable pub prepare_with :
    Service → Input → Option (Bytes × Bytes) → Option Bytes → Option PreparedInput
unfolding normalize_license_key
prepare_with s i none key = none
prepare_with s i (some (id, hash)) none = none
prepare_with s i (some (id, hash)) (some key) =
    if s.addr_is_valid i.client_ip
    then some (record {
      credential_hash = s.sha256 (normalize_license_key i.license_key).0;
      credential_valid = (normalize_license_key i.license_key).1;
      installation_id = id;
      installation_hash = hash;
      idempotency_key = key;
      client_ip = s.addr_unmap i.client_ip;
    })
    else none

-- `none` stands for the code `invalid_request`.
unfoldable pub prepare : Service → Input → Option PreparedInput
unfolding prepare_with canonical_installation canonical_idempotency_key
prepare s i =
    prepare_with s i (canonical_installation s i.installation_id)
      (canonical_idempotency_key s i.idempotency_key)

abbrev pub idempotency : PreparedInput → IdempotencyRequest
idempotency p = record {
  scope = codes "activation";
  credential_hash = p.credential_hash;
  key = p.idempotency_key;
  request_hash = p.installation_hash;
}

abbrev pub at_installation : Bytes → Bytes → Activation → Bool
at_installation license_id hash a =
    bytes_eq a.license_id license_id && bytes_eq a.installation_hash hash

unfoldable pub find_activation : Bytes → Bytes → M (Option Activation)
find_activation license_id hash =
    query (λ d. find_row (at_installation license_id hash) d.activations)

abbrev pub counts_for : Bytes → Activation → Bool
counts_for license_id a = bytes_eq a.license_id license_id && activation_is_active a.state

unfoldable pub active_activation_count : Bytes → M ℕ
active_activation_count license_id = query (λ d. count_rows (counts_for license_id) d.activations)

abbrev pub maximum_activations : ℕ
maximum_activations = 2

abbrev pub is_running : Option Activation → Bool
is_running none = false
is_running (some a) = activation_is_active a.state

unfoldable pub limit_unless : Bool → Bytes → M (Unit {0})
limit_unless true license_id = pure tt
limit_unless false license_id = do
  count ← active_activation_count license_id
  respond_if (leb maximum_activations count)
      (response_error 409 "activation_limit" "This license already has two active Macs.")

-- A running activation takes no further place; any other one needs a free place.
unfoldable pub check_limit : Option Activation → Bytes → M (Unit {0})
check_limit current license_id = limit_unless (is_running current) license_id

-- The status, the activation's ID and the new revision.
unfoldable pub next_activation : Service → Option Activation → M (ℕ × Bytes × ℕ)
next_activation s none = do id ← random_value s (codes "act_") 16; pure (201, id, 1)
next_activation s (some a) = do
  throw_if (a.revision == max_int64) revision_exhausted
  pure (200, a.id, a.revision + 1)

abbrev pub claims_for : Bytes → Bytes → Bytes → Bytes → ℕ → Time → Claims
claims_for license_id entitlement_id activation_id installation_id revision now = record {
  license_id = license_id;
  entitlement_id = entitlement_id;
  issued_at = unix now;
  activation_id = activation_id;
  installation_id = installation_id;
  revision = pos revision;
}

abbrev pub reactivated : Bytes → ℕ → Time → Activation → Activation
reactivated token_hash revision now a = record a {
  token_hash = token_hash;
  state = active;
  revision = revision;
  last_refreshed_at = now;
  deactivated_at = none;
}

abbrev pub has_id : Bytes → Activation → Bool
has_id id a = bytes_eq a.id id

abbrev pub has_token : Bytes → Activation → Bool
has_token hash a = bytes_eq a.token_hash hash

-- UPDATE activations … WHERE id = …; another row with the new token hash violates UNIQUE.
unfoldable pub update_activation : Bytes → Bytes → ℕ → Time → Db → Option (Db × Unit {0})
update_activation id token_hash revision now d =
    if exists_row (λ a. has_token token_hash a && not (has_id id a)) d.activations
    then none
    else some (
      record d {
        activations = update_rows (has_id id) (reactivated token_hash revision now) d.activations;
      },
      tt,
    )

abbrev pub new_activation : Bytes → Bytes → Bytes → Bytes → ℕ → Time → Activation
new_activation id license_id installation_hash token_hash revision now = record {
  id = id;
  license_id = license_id;
  installation_hash = installation_hash;
  token_hash = token_hash;
  state = active;
  revision = revision;
  activated_at = now;
  last_refreshed_at = now;
  deactivated_at = none;
}

-- The keys of `activations`: the ID, the token hash, and the license with the installation.
abbrev pub collides : Activation → Activation → Bool
collides a b =
    bytes_eq b.id a.id
    || bytes_eq b.token_hash a.token_hash
    || at_installation a.license_id a.installation_hash b

unfoldable pub insert_activation : Activation → Db → Option (Db × Unit {0})
insert_activation a d =
    if exists_row (collides a) d.activations
    then none
    else some (record d { activations = a ∷ d.activations }, tt)

unfoldable pub save_activation :
    Option Activation → Bytes → Bytes → Bytes → Bytes → ℕ → Time → M (Unit {0})
save_activation none id license_id installation_hash token_hash revision now =
    execute
      (insert_activation (new_activation id license_id installation_hash token_hash revision now))
save_activation (some a) id license_id installation_hash token_hash revision now =
    execute (update_activation id token_hash revision now)

-- The second half of the transaction: from the license's terms to the commit.
unfoldable pub issue_activation :
    Service → PreparedInput → LicenseRecord → IssuanceTerms → Option Activation → Time → M Response
issue_activation s p license terms current now = do
  (status, activation_id, revision) ← next_activation s current
  activation_token ← random_value s (codes "gea_") 32
  entitlement_id ← random_value s (codes "ent_") 16
  entitlement ←
      issue_entitlement s terms
        (claims_for license.id entitlement_id activation_id p.installation_id revision now)
  save_activation current activation_id license.id p.installation_hash (s.sha256 activation_token)
      revision now
  body ← marshal_or_throw s (
      object (
        member (codes "activation_token") (text activation_token)
          (member (codes "entitlement") (text entitlement) end)))
  store_and_commit s (idempotency p) (with_body status body) now

-- The transaction, from BEGIN to the commit.
unfoldable pub activate_locked : Service → PreparedInput → Time → M Response
activate_locked s p now = do
  call database
  locked ← try_lock
  respond_if (not locked) database_busy_response
  replayed ← load_idempotency s (idempotency p) now
  respond_replay replayed
  found ← find_license p.credential_hash
  license ←
      or_respond found (response_error 401 "invalid_credentials" "The license key is invalid.")
  terms ←
      require_terms (entitlement_terms license now)
        (response_error 403 "license_not_eligible" "This license is not eligible for activation.")
  current ← find_activation license.id p.installation_hash
  check_limit current license.id
  issue_activation s p license terms current now

abbrev pub rate_limited : String → ℕ → Response
rate_limited message seconds = record (response_error 429 "rate_limited" message) {
  retry_after_seconds = seconds;
}

unfoldable pub activate : Service → Input → Time → M Response
activate s input now = do
  p ←
      or_respond (prepare s input)
        (response_error 400 "invalid_request" "The activation request is invalid.")
  replayed ← load_idempotency s (idempotency p) now
  respond_replay replayed
  retry_after ← consume_rate_limits s p.credential_hash p.client_ip now
  respond_if (ltb 0 retry_after)
      (rate_limited "Too many activation attempts. Try again later." retry_after)
  respond_if (not p.credential_valid)
      (response_error 401 "invalid_credentials" "The license key is invalid.")
  transact (activate_locked s p now)
