-- ===== src/Activation/Rotation.antt =====
-- internal/activation/rotation.go: replacing a license key through a management session.
use glass_eqserver.Prelude.{
  ℕ, ◌+◌, Bool, ◌&&◌, ◌||◌, not, Bytes, codes, List, [], ◌∷◌, Option, none, some, ltb, ◌==◌,
  bytes_eq, find_row, exists_row, count_rows, delete_rows, update_rows, if◌then◌else◌,
}
use glass_eqserver.Platform.{text, object}
use glass_eqserver.Store.Tables.{
  Time, LicenseKey, KeyState, AccessToken, License, LicenseDelivery, Db, key_is_active,
  is_management,
}
use glass_eqserver.Store.Effect.{
  M, Response, database, no_active_key, session_disappeared, throw_if, respond_if, or_respond,
  or_throw, call, query, execute, query_nowait, transact, ◌>>=◌, ◌>>◌,
}
use glass_eqserver.Activation.Time.{retry_seconds}
use glass_eqserver.Activation.Service.{
  Service, response_error, with_body, database_busy_response, random_value, marshal_or_throw, field,
}
use glass_eqserver.Activation.LicenseKey.{generate_license_key}
use glass_eqserver.Activation.Idempotency.{
  IdempotencyRequest, load_idempotency, respond_found, store_and_commit,
}
use glass_eqserver.Activation.Activate.{canonical_idempotency_key, rate_limited}
use glass_eqserver.Activation.Management.{management_token_hash, live_session}

pub record LicenseKeyRotationInput : Type 0 where
  pub management_token : Bytes
  pub idempotency_key : Bytes

abbrev pub rotation_cooldown : ℕ
rotation_cooldown = 86400000000

abbrev pub rotation_request : Service → Bytes → Bytes → IdempotencyRequest
rotation_request s token_hash key = record {
  scope = codes "license_key_rotation";
  credential_hash = token_hash;
  key = key;
  request_hash = s.sha256 [];
}

abbrev pub revoked_key_of : Bytes → LicenseKey → Bool
revoked_key_of license_id k = bytes_eq k.license_id license_id && not (key_is_active k.state)

abbrev pub active_key_of : Bytes → LicenseKey → Bool
active_key_of license_id k = bytes_eq k.license_id license_id && key_is_active k.state

-- SQL's max, which passes over NULL and is NULL of no rows.
abbrev pub later_time : Option Time → Option Time → Option Time
later_time none b = b
later_time (some a) none = some a
later_time (some a) (some b) = some (if ltb a b then b else a)

unfoldable pub last_rotation : Bytes → List LicenseKey → Option Time
last_rotation license_id [] = none
last_rotation license_id (k ∷ rest) =
    let latest = last_rotation license_id rest in
    if revoked_key_of license_id k then later_time k.revoked_at latest else latest

abbrev pub retry_after_rotation : Option Time → Time → ℕ
retry_after_rotation none now = 0
retry_after_rotation (some t) now =
    if ltb now (t + rotation_cooldown) then retry_seconds (t + rotation_cooldown) now else 0

unfoldable pub license_key_rotation_retry_after : Bytes → Time → M ℕ
license_key_rotation_retry_after license_id now =
    query (λ d. retry_after_rotation (last_rotation license_id d.license_keys) now)

-- The license of a live session, by the join with `licenses`.
unfoldable pub session_license : Bytes → Time → Db → Option Bytes
session_license hash now d = elim (find_row (live_session hash now) d.access_tokens) [
  | none ↦ none
  | some t ↦
      if exists_row (λ (l : License). bytes_eq l.id t.license_id) d.licenses
      then some t.license_id
      else none
]

unfoldable pub lock_management_license : Bytes → Time → M (Option Bytes)
lock_management_license hash now = query_nowait database_busy_response (session_license hash now)

abbrev pub revoked_at_time : Time → LicenseKey → LicenseKey
revoked_at_time now k = record k { state = KeyState.revoked; revoked_at = some now }

abbrev pub key_id : Option LicenseKey → Option Bytes
key_id none = none
key_id (some k) = some k.id

-- UPDATE … RETURNING id.
unfoldable pub revoke_keys : Bytes → Time → Db → Option (Db × Option Bytes)
revoke_keys license_id now d = some (
  record d {
    license_keys = update_rows (active_key_of license_id) (revoked_at_time now) d.license_keys;
  },
  key_id (find_row (active_key_of license_id) d.license_keys),
)

-- The constraints of `license_keys`: the ID, the hash, and one active key for a license.
abbrev pub key_collides : LicenseKey → LicenseKey → Bool
key_collides new k =
    bytes_eq k.id new.id
    || bytes_eq k.secret_hash new.secret_hash
    || (key_is_active new.state && active_key_of new.license_id k)

unfoldable pub insert_key : LicenseKey → Db → Option (Db × Unit {0})
insert_key new d =
    if exists_row (key_collides new) d.license_keys
    then none
    else some (record d { license_keys = new ∷ d.license_keys }, tt)

abbrev pub older_revoked : Bytes → Bytes → LicenseKey → Bool
older_revoked license_id kept k = revoked_key_of license_id k && not (bytes_eq k.id kept)

-- Deleting a key deletes its pending delivery (ON DELETE CASCADE).
unfoldable pub delete_older_keys : Bytes → Bytes → Db → Option (Db × Unit {0})
delete_older_keys license_id kept d = some (
  record d {
    license_keys = delete_rows (older_revoked license_id kept) d.license_keys;
    license_deliveries =
        delete_rows
          (λ (o : LicenseDelivery).
            exists_row (λ k. older_revoked license_id kept k && bytes_eq k.id o.license_key_id)
              d.license_keys)
          d.license_deliveries;
  },
  tt,
)

abbrev pub management_row : Bytes → AccessToken → Bool
management_row hash t = bytes_eq t.token_hash hash && is_management t.purpose

unfoldable pub consume_session : Bytes → Db → Option (Db × ℕ)
consume_session hash d = some (
  record d { access_tokens = delete_rows (management_row hash) d.access_tokens },
  count_rows (management_row hash) d.access_tokens,
)

abbrev pub rotated_key : Bytes → Bytes → Bytes → Time → LicenseKey
rotated_key id license_id hash now = record {
  id = id;
  license_id = license_id;
  secret_hash = hash;
  delivery = none;
  state = KeyState.active;
  created_at = now;
  revoked_at = none;
}

unfoldable pub replace_key : Service → IdempotencyRequest → Bytes → Time → M Response
replace_key s request license_id now = do
  (license_key, normalized_key) ← generate_license_key s
  id ← random_value s (codes "key_") 16
  revoked_id ← or_throw (← execute (revoke_keys license_id now)) no_active_key
  execute (insert_key (rotated_key id license_id (s.sha256 normalized_key) now))
  execute (delete_older_keys license_id revoked_id)
  consumed ← execute (consume_session request.credential_hash)
  call database
  throw_if (not (consumed == 1)) session_disappeared
  body ← marshal_or_throw s (object (field (codes "license_key") (text license_key)))
  store_and_commit s request (with_body 201 body) now

unfoldable pub rotate_locked : Service → IdempotencyRequest → Time → M Response
rotate_locked s request now = do
  call database
  license_id ←
      or_respond (← lock_management_license request.credential_hash now)
        (response_error 401 "invalid_credentials" "The management token is invalid.")
  replayed ← load_idempotency s request now
  respond_found replayed
  retry_after ← license_key_rotation_retry_after license_id now
  respond_if (ltb 0 retry_after)
      (rate_limited "The license key was rotated recently. Try again later." retry_after)
  replace_key s request license_id now

unfoldable pub rotate_license_key : Service → LicenseKeyRotationInput → Time → M Response
rotate_license_key s input now = do
  token_hash ←
      or_respond (management_token_hash s input.management_token)
        (response_error 401 "invalid_credentials" "The management token is invalid.")
  key ←
      or_respond (canonical_idempotency_key s input.idempotency_key)
        (response_error 400 "invalid_request" "The license-key rotation request is invalid.")
  replayed ← load_idempotency s (rotation_request s token_hash key) now
  respond_found replayed
  transact (rotate_locked s (rotation_request s token_hash key) now)
