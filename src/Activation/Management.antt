-- ===== src/Activation/Management.antt =====
-- internal/activation/management.go: management sessions, and listing and deactivating a license's
-- activations through one.
pub mod Stopped
use glass_eqserver.Prelude.{
  ℕ, ◌+◌, Bool, ◌&&◌, ◌||◌, not, Bytes, codes, List, [], ◌∷◌, Option, none, some, ltb, ◌==◌,
  bytes_eq, bytes_ltb, find_row, exists_row, select_rows, update_rows, sort_by, if◌then◌else◌,
}
use glass_eqserver.Platform.{text, int64, array, object, Items, nil, cons, end, member}
use glass_eqserver.Store.Tables.{
  Time, Activation, LicenseKey, AccessToken, management, Db, key_is_active, is_management,
}
use glass_eqserver.Store.Effect.{
  M, Response, database, pure, respond_if, or_respond, call, query, execute, execute_nowait, ◌>>=◌,
  ◌>>◌,
}
use glass_eqserver.Activation.Time.{unix}
use glass_eqserver.Activation.Service.{
  Service, response_error, with_body, database_busy_response, random_value, random_value_hash,
  random_value_valid, marshal_or_throw, field,
}
use glass_eqserver.Activation.LicenseKey.{normalize_license_key}
use glass_eqserver.Activation.RateLimit.{consume_rate_limits}
use glass_eqserver.Activation.Activate.{counts_for, has_id, rate_limited}
use glass_eqserver.Activation.Lifecycle.{stopped}

pub record ManagementSessionInput : Type 0 where
  pub license_key : Bytes
  pub client_ip : Bytes

pub record ManagedDeactivationInput : Type 0 where
  pub management_token : Bytes
  pub activation_id : Bytes

abbrev pub management_token_lifetime : ℕ
management_token_lifetime = 900000000

pub record MintedSession : Type 0 where
  pub token_hash : Bytes
  pub expires_at : Time
  pub body : Bytes

unfoldable pub mint_management_session : Service → Time → M MintedSession
mint_management_session s now = do
  token ← random_value s (codes "gem_") 32
  body ← marshal_or_throw s (
      object (
        member (codes "management_token") (text token)
          (member (codes "expires_at") (int64 (unix (now + management_token_lifetime))) end)))
  pure (record {
    token_hash = s.sha256 token;
    expires_at = now + management_token_lifetime;
    body = body;
  })

abbrev pub management_token : Bytes → Bytes → Time → Time → AccessToken
management_token hash license_id now expires_at = record {
  token_hash = hash;
  license_id = license_id;
  purpose = management;
  created_at = now;
  expires_at = expires_at;
  consumed_at = none;
}

abbrev pub has_token_hash : Bytes → AccessToken → Bool
has_token_hash hash t = bytes_eq t.token_hash hash

-- The primary key of `access_tokens` refuses a second row with the same hash.
unfoldable pub insert_token : AccessToken → Db → Option (Db × ℕ)
insert_token t d =
    if exists_row (has_token_hash t.token_hash) d.access_tokens
    then none
    else some (record d { access_tokens = t ∷ d.access_tokens }, 1)

abbrev pub active_key_with : Bytes → LicenseKey → Bool
active_key_with hash k = bytes_eq k.secret_hash hash && key_is_active k.state

-- INSERT … SELECT from the active key with this hash, with the number of rows.
unfoldable pub insert_session : Bytes → MintedSession → Time → Db → Option (Db × ℕ)
unfolding insert_token
insert_session key_hash session now d = elim (find_row (active_key_with key_hash) d.license_keys) [
  | none ↦ some (d, 0)
  | some k ↦
      insert_token (management_token session.token_hash k.license_id now session.expires_at) d
]

unfoldable pub create_management_session : Service → ManagementSessionInput → Time → M Response
create_management_session s input now = do
  let key = normalize_license_key input.license_key
  respond_if (not (s.addr_is_valid input.client_ip))
      (response_error 400 "invalid_request" "The management session request is invalid.")
  retry_after ← consume_rate_limits s (s.sha256 key.0) (s.addr_unmap input.client_ip) now
  respond_if (ltb 0 retry_after)
      (rate_limited "Too many management session attempts. Try again later." retry_after)
  respond_if (not key.1) (response_error 401 "invalid_credentials" "The license key is invalid.")
  session ← mint_management_session s now
  created ← execute (insert_session (s.sha256 key.0) session now)
  call database
  respond_if (created == 0) (response_error 401 "invalid_credentials" "The license key is invalid.")
  pure (with_body 201 session.body)

unfoldable pub management_token_hash : Service → Bytes → Option Bytes
management_token_hash s value = random_value_hash s value (codes "gem_") 32

unfoldable pub activation_id_valid : Service → Bytes → Bool
activation_id_valid s value = random_value_valid s value (codes "act_") 16

abbrev pub live_session : Bytes → Time → AccessToken → Bool
live_session hash now t =
    bytes_eq t.token_hash hash && is_management t.purpose && ltb now t.expires_at

abbrev pub token_license : Option AccessToken → Option Bytes
token_license none = none
token_license (some t) = some t.license_id

unfoldable pub find_management_license_id : Bytes → Time → M (Option Bytes)
find_management_license_id hash now =
    query (λ d. token_license (find_row (live_session hash now) d.access_tokens))

-- ORDER BY activated_at, id.
abbrev pub listed_before : Activation → Activation → Bool
listed_before a b =
    ltb a.activated_at b.activated_at || (a.activated_at == b.activated_at && bytes_ltb a.id b.id)

unfoldable pub listed_activations : Bytes → Db → List Activation
listed_activations license_id d =
    sort_by listed_before (select_rows (counts_for license_id) d.activations)

unfoldable pub managed_items : List Activation → Items
managed_items [] = nil
managed_items (a ∷ rest) =
    cons
      (object (
        member (codes "id") (text a.id) (
          member (codes "activated_at") (int64 (unix a.activated_at))
            (member (codes "last_refreshed_at") (int64 (unix a.last_refreshed_at)) end))))
      (managed_items rest)

-- The second call stands for the errors of reading the rows.
unfoldable pub list_managed_activations : Service → Bytes → Time → M Response
list_managed_activations s token now = do
  token_hash ←
      or_respond (management_token_hash s token)
        (response_error 401 "invalid_credentials" "The management token is invalid.")
  license_id ←
      or_respond (← find_management_license_id token_hash now)
        (response_error 401 "invalid_credentials" "The management token is invalid.")
  rows ← query (listed_activations license_id)
  call database
  body ← marshal_or_throw s (object (field (codes "activations") (array (managed_items rows))))
  pure (with_body 200 body)

abbrev pub managed_target : Bytes → Bytes → Activation → Bool
managed_target id license_id a = has_id id a && counts_for license_id a

unfoldable pub update_managed : Bytes → Bytes → Time → Db → Option (Db × Unit {0})
update_managed id license_id now d = some (
  record d { activations = update_rows (managed_target id license_id) (stopped now) d.activations },
  tt,
)

unfoldable pub deactivate_managed : Service → ManagedDeactivationInput → Time → M Response
deactivate_managed s input now = do
  token_hash ←
      or_respond (management_token_hash s input.management_token)
        (response_error 401 "invalid_credentials" "The management token is invalid.")
  respond_if (not (activation_id_valid s input.activation_id))
      (response_error 400 "invalid_request" "The managed deactivation request is invalid.")
  license_id ←
      or_respond (← find_management_license_id token_hash now)
        (response_error 401 "invalid_credentials" "The management token is invalid.")
  execute_nowait database_busy_response (update_managed input.activation_id license_id now)
  pure (with_body 204 [])
