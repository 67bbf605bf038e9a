-- ===== src/Activation/Lifecycle.antt =====
-- internal/activation/lifecycle.go: refreshing an entitlement and deactivating by the token.
pub mod Refresh
use glass_eqserver.Prelude.{
  ℕ, ◌+◌, Bool, true, false, not, Bytes, codes, List, Option, none, some, ◌==◌, bytes_eq, find_row,
  update_rows, if◌then◌else◌,
}
use glass_eqserver.Platform.{text, object}
use glass_eqserver.Entitlement.Claims.{max_int64}
use glass_eqserver.Store.Tables.{
  Time, Activation, ActivationState, active, deactivated, Db, activation_is_active,
}
use glass_eqserver.Store.Effect.{
  M, Response, database, license_missing, revision_exhausted, pure, respond, throw_if, respond_if,
  or_respond, or_throw, call, try_lock, query, execute, transact, ◌>>=◌, ◌>>◌,
}
use glass_eqserver.Activation.Service.{
  Service, response_error, with_body, database_busy_response, random_value, random_value_hash,
  marshal_or_throw, field,
}
use glass_eqserver.Activation.Terms.{
  LicenseRecord, IssuanceTerms, find_license_by_id, entitlement_terms, require_terms,
  issue_entitlement,
}
use glass_eqserver.Activation.Activate.{canonical_installation, has_token, has_id, claims_for}

pub record RefreshInput : Type 0 where
  pub activation_token : Bytes
  pub installation_id : Bytes

unfoldable pub activation_token_hash : Service → Bytes → Option Bytes
unfolding random_value_hash
activation_token_hash s value = random_value_hash s value (codes "gea_") 32

abbrev pub license_of : Option Activation → Option Bytes
license_of none = none
license_of (some a) = some a.license_id

unfoldable pub find_activation_license_id : Bytes → M (Option Bytes)
find_activation_license_id hash = query (λ d. license_of (find_row (has_token hash) d.activations))

unfoldable pub find_activation_by_token : Bytes → M (Option Activation)
find_activation_by_token hash = query (λ d. find_row (has_token hash) d.activations)

-- The row, if it belongs to the installation that asks.
abbrev pub of_installation : Bytes → Option Activation → Option Activation
of_installation hash none = none
of_installation hash (some a) = if bytes_eq a.installation_hash hash then some a else none

abbrev pub refreshed : ℕ → Time → Activation → Activation
refreshed revision now a = record a { revision = revision; last_refreshed_at = now }

unfoldable pub update_refreshed : Bytes → ℕ → Time → Db → Option (Db × Unit {0})
update_refreshed id revision now d =
    some (
      record d { activations = update_rows (has_id id) (refreshed revision now) d.activations },
      tt,
    )

unfoldable pub refresh_activation :
    Service → Bytes → LicenseRecord → IssuanceTerms → Activation → Time → M Response
refresh_activation s installation_id license terms current now = do
  throw_if (current.revision == max_int64) revision_exhausted
  entitlement_id ← random_value s (codes "ent_") 16
  entitlement ←
      issue_entitlement s terms
        (claims_for license.id entitlement_id current.id installation_id (current.revision + 1) now)
  execute (update_refreshed current.id (current.revision + 1) now)
  body ← marshal_or_throw s (object (field (codes "entitlement") (text entitlement)))
  call database
  pure (with_body 200 body)

unfoldable pub refresh_locked : Service → Bytes → Bytes → Bytes → Time → M Response
refresh_locked s installation_id installation_hash token_hash now = do
  call database
  locked ← try_lock
  respond_if (not locked) database_busy_response
  license_id ←
      or_respond (← find_activation_license_id token_hash)
        (response_error 401 "invalid_credentials" "The activation token is invalid.")
  license ← or_throw (← find_license_by_id license_id) license_missing
  current ←
      or_respond (of_installation installation_hash (← find_activation_by_token token_hash))
        (response_error 401 "invalid_credentials" "The activation token is invalid.")
  respond_if (not (activation_is_active current.state))
      (response_error 403 "activation_revoked" "This activation has been deactivated.")
  terms ← require_terms (entitlement_terms license now) (
      response_error 403 "license_not_eligible"
        "This license is not eligible for entitlement refresh.")
  refresh_activation s installation_id license terms current now

unfoldable pub refresh_entitlement : Service → RefreshInput → Time → M Response
refresh_entitlement s input now = do
  (installation_id, installation_hash) ←
      or_respond (canonical_installation s input.installation_id)
        (response_error 400 "invalid_request" "The entitlement refresh request is invalid.")
  token_hash ←
      or_respond (activation_token_hash s input.activation_token)
        (response_error 401 "invalid_credentials" "The activation token is invalid.")
  transact (refresh_locked s installation_id installation_hash token_hash now)

abbrev pub stopped : Time → Activation → Activation
stopped now a = record a { state = deactivated; deactivated_at = some now }

unfoldable pub update_deactivated : Bytes → Time → Db → Option (Db × Unit {0})
update_deactivated id now d =
    some (record d { activations = update_rows (has_id id) (stopped now) d.activations }, tt)

unfoldable pub deactivate_if_active : Activation → Time → M (Unit {0})
deactivate_if_active a now =
    if activation_is_active a.state then execute (update_deactivated a.id now) else pure tt

unfoldable pub deactivate_locked : Bytes → Time → M Response
deactivate_locked token_hash now = do
  call database
  locked ← try_lock
  respond_if (not locked) database_busy_response
  license_id ←
      or_respond (← find_activation_license_id token_hash)
        (response_error 401 "invalid_credentials" "The activation token is invalid.")
  license ← or_throw (← find_license_by_id license_id) license_missing
  current ←
      or_respond (← find_activation_by_token token_hash)
        (response_error 401 "invalid_credentials" "The activation token is invalid.")
  deactivate_if_active current now
  call database
  pure (with_body 204 List.[])

unfoldable pub deactivate_current : Service → Bytes → Time → M Response
deactivate_current s activation_token now = do
  token_hash ←
      or_respond (activation_token_hash s activation_token)
        (response_error 401 "invalid_credentials" "The activation token is invalid.")
  transact (deactivate_locked token_hash now)
