-- ===== src/Examples/Runs.antt =====
-- Whole requests of the small server, run to their answers.
use glass_eqserver.Prelude.{codes, [], ◌≡◌, refl, bytes_eq, find_row, count_rows, update_rows}
use glass_eqserver.Store.Effect.{
  next, ◌>>=◌, pure, or_respond, respond_if, throw_if, or_throw, call, try_lock, gets, query, write,
  execute, read_random, transact,
}
use glass_eqserver.Activation.Service.{
  response_error, with_body, database_busy_response, random_value, seal, marshal_or_throw,
}
use glass_eqserver.Activation.LicenseKey.{
  normalize_license_key, normalize_chars, is_normal_key, upper_case, all_in_alphabet, is_key_char,
  in_alphabet,
}
use glass_eqserver.Activation.Time.{unix}
use glass_eqserver.Activation.Terms.{
  find_license, license_by_key, license_by_id, join_subscription, entitlement_terms, terms_of_plan,
  require_terms, issue_entitlement, issued_for, hand_out,
}
use glass_eqserver.Entitlement.Payload.{
  issue_perpetual, issue, sign_input, new_common_payload, common_json, common_members,
}
use glass_eqserver.Entitlement.Validation.{
  validate_common_claims, first_misfit, claim_fields, field_fits, check_uuid, check_numbers,
}
use glass_eqserver.Activation.Idempotency.{
  load_idempotency, read_replay, respond_replay, store_and_commit, upsert_replay,
}
use glass_eqserver.Activation.RateLimit.{
  consume_rate_limits, count_attempts, count_license_key, increment_rate_limit, count_attempt,
}
use glass_eqserver.Activation.Activate.{
  activate, prepare, prepare_with, canonical_installation, canonical_idempotency_key,
  activate_locked, find_activation, check_limit, limit_unless, active_activation_count,
  next_activation, issue_activation, save_activation, insert_activation, update_activation,
}
use glass_eqserver.Prelude.{delete_rows}
use glass_eqserver.Store.Effect.{query_nowait, call_nowait, execute_nowait}
use glass_eqserver.Activation.Service.{random_value_hash, random_value_valid}
use glass_eqserver.Activation.LicenseKey.{generate_license_key, display_key}
use glass_eqserver.Activation.Idempotency.{respond_found}
use glass_eqserver.Activation.Management.{
  deactivate_managed, management_token_hash, activation_id_valid, find_management_license_id,
  update_managed, mint_management_session, insert_token,
}
use glass_eqserver.Activation.Rotation.{
  rotate_locked, lock_management_license, session_license, license_key_rotation_retry_after,
  last_rotation, replace_key, revoke_keys, insert_key, delete_older_keys, consume_session,
}
use glass_eqserver.Activation.RecoverySession.{exchange_locked, token_available, exchange_token}
use glass_eqserver.Examples.World.{
  managed_input, session_db, recovery_db, recovery_request, one_request, plain_service, one_db,
  quiet, one_input,
}

-- The license is active and this installation is its only one: it is activated again.
activated :
    (activate plain_service one_input 63903500000000000 one_db quiet).0
    ≡ next (with_body 200 (codes "{}"))
unfolding activate prepare prepare_with canonical_installation canonical_idempotency_key
    normalize_license_key normalize_chars is_normal_key upper_case all_in_alphabet is_key_char
    in_alphabet or_respond ◌>>=◌ load_idempotency query call gets find_row read_replay pure
    respond_replay consume_rate_limits transact count_attempts increment_rate_limit execute write
    count_attempt update_rows bytes_eq count_license_key respond_if activate_locked try_lock
    find_license license_by_key license_by_id join_subscription entitlement_terms terms_of_plan
    require_terms find_activation check_limit limit_unless active_activation_count count_rows
    issue_activation next_activation throw_if random_value read_random issue_entitlement issued_for
    hand_out issue_perpetual issue sign_input new_common_payload common_json common_members
    validate_common_claims first_misfit claim_fields field_fits check_uuid check_numbers
    save_activation update_activation insert_activation marshal_or_throw or_throw store_and_commit
    seal upsert_replay with_body response_error
activated = refl

managed :
    (deactivate_managed plain_service managed_input 9 session_db quiet).0 ≡ next (with_body 204 [])
unfolding deactivate_managed ◌>>=◌ or_respond management_token_hash random_value_hash
    random_value_valid respond_if activation_id_valid find_management_license_id query call gets
    find_row bytes_eq execute_nowait call_nowait write update_managed update_rows pure
    database_busy_response response_error with_body
managed = refl

rotated :
    (rotate_locked plain_service one_request 9 session_db quiet).0
    ≡ next (with_body 201 (codes "{}"))
unfolding rotate_locked lock_management_license query_nowait call_nowait session_license find_row
    bytes_eq ◌>>=◌ or_respond load_idempotency query call gets read_replay pure respond_found
    license_key_rotation_retry_after last_rotation respond_if replace_key generate_license_key
    read_random random_value or_throw execute write revoke_keys update_rows insert_key
    delete_older_keys delete_rows consume_session count_rows throw_if marshal_or_throw
    store_and_commit seal upsert_replay with_body display_key database_busy_response response_error
rotated = refl

exchanged :
    (exchange_locked plain_service recovery_request 9 recovery_db quiet).0
    ≡ next (with_body 201 (codes "{}"))
unfolding exchange_locked query_nowait call_nowait token_available find_row bytes_eq ◌>>=◌
    or_respond load_idempotency query call gets read_replay pure respond_found respond_if
    mint_management_session random_value read_random marshal_or_throw or_throw execute write
    exchange_token insert_token update_rows throw_if store_and_commit seal upsert_replay with_body
    database_busy_response response_error unix
exchanged = refl
