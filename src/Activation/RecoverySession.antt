-- ===== src/Activation/RecoverySession.antt =====
-- internal/activation/recovery.go: exchanging a recovery token for a management session.
pub mod Once
use glass_eqserver.Prelude.{
  ℕ, Bool, ◌&&◌, not, Bytes, codes, [], Option, none, some, ltb, ◌==◌, bytes_eq, is_some, find_row,
  exists_row, update_rows,
}
use glass_eqserver.Store.Tables.{Time, AccessToken, License, Db, is_management, license_is_active}
use glass_eqserver.Store.Effect.{
  M, Response, database, token_changed, throw_if, respond_if, or_respond, call, execute,
  query_nowait, transact, ◌>>=◌, ◌>>◌,
}
use glass_eqserver.Activation.Service.{
  Service, response_error, with_body, database_busy_response, random_value_hash,
}
use glass_eqserver.Activation.Idempotency.{
  IdempotencyRequest, load_idempotency, respond_found, store_and_commit,
}
use glass_eqserver.Activation.Activate.{canonical_idempotency_key}
use glass_eqserver.Activation.Management.{
  MintedSession, mint_management_session, management_token, insert_token,
}

pub record RecoverySessionInput : Type 0 where
  pub recovery_token : Bytes
  pub idempotency_key : Bytes

unfoldable pub recovery_token_hash : Service → Bytes → Option Bytes
recovery_token_hash s value = random_value_hash s value (codes "ger_") 32

abbrev pub recovery_session_request : Service → Bytes → Bytes → IdempotencyRequest
recovery_session_request s token_hash key = record {
  scope = codes "recovery_session";
  credential_hash = token_hash;
  key = key;
  request_hash = s.sha256 [];
}

abbrev pub recovery_row : Bytes → AccessToken → Bool
recovery_row hash t = bytes_eq t.token_hash hash && not (is_management t.purpose)

abbrev pub token_usable : Time → AccessToken → Bool
token_usable now t = ltb now t.expires_at && not (is_some t.consumed_at)

-- The row of the join with `licenses`, and whether it may be exchanged.
unfoldable pub token_available : Bytes → Time → Db → Option Bool
token_available hash now d = elim (find_row (recovery_row hash) d.access_tokens) [
  | none ↦ none
  | some t ↦ elim (find_row (λ (l : License). bytes_eq l.id t.license_id) d.licenses) [
    | none ↦ none
    | some l ↦ some (token_usable now t && license_is_active l.state)
  ]
]

abbrev pub exchangeable : Bytes → Time → Db → AccessToken → Bool
exchangeable hash now d t =
    recovery_row hash t
    && token_usable now t
    && exists_row (λ (l : License). bytes_eq l.id t.license_id && license_is_active l.state)
        d.licenses

abbrev pub consumed : Time → AccessToken → AccessToken
consumed now t = record t { consumed_at = some now }

-- UPDATE … RETURNING, feeding INSERT … SELECT; the result is the number of sessions.
unfoldable pub exchange_token : Bytes → MintedSession → Time → Db → Option (Db × ℕ)
unfolding insert_token
exchange_token hash session now d = elim (find_row (exchangeable hash now d) d.access_tokens) [
  | none ↦ some (d, 0)
  | some t ↦
      insert_token (management_token session.token_hash t.license_id now session.expires_at)
        (record d {
          access_tokens = update_rows (exchangeable hash now d) (consumed now) d.access_tokens;
        })
]

unfoldable pub exchange_locked : Service → IdempotencyRequest → Time → M Response
exchange_locked s request now = do
  call database
  available ←
      or_respond
        (← query_nowait database_busy_response (token_available request.credential_hash now))
        (response_error 401 "invalid_credentials" "The recovery token is invalid.")
  replayed ← load_idempotency s request now
  respond_found replayed
  respond_if (not available)
      (response_error 401 "invalid_credentials" "The recovery token is invalid.")
  session ← mint_management_session s now
  created ← execute (exchange_token request.credential_hash session now)
  call database
  throw_if (created == 0) token_changed
  store_and_commit s request (with_body 201 session.body) now

unfoldable pub exchange_recovery_token : Service → RecoverySessionInput → Time → M Response
exchange_recovery_token s input now = do
  token_hash ←
      or_respond (recovery_token_hash s input.recovery_token)
        (response_error 401 "invalid_credentials" "The recovery token is invalid.")
  key ←
      or_respond (canonical_idempotency_key s input.idempotency_key)
        (response_error 400 "invalid_request" "The recovery session request is invalid.")
  replayed ← load_idempotency s (recovery_session_request s token_hash key) now
  respond_found replayed
  transact (exchange_locked s (recovery_session_request s token_hash key) now)
