-- ===== src/Examples/Sessions.antt =====
-- The theorems on sessions, rotation and recovery at concrete inputs.
use glass_eqserver.Prelude.{Bytes}
use glass_eqserver.Prelude.{some, true, ◌≡◌, refl}
use glass_eqserver.Store.Tables.{Time}
use glass_eqserver.Store.Effect.{transact}
use glass_eqserver.Store.Rules.{Ensures}
use glass_eqserver.Activation.Idempotency.{store_and_commit}
use glass_eqserver.Prelude.{◌≢◌, ◌⊎◌}
use glass_eqserver.Activation.Idempotency.Stores.{StoredIn, RefusedBy, store_and_commit-next}
use glass_eqserver.Activation.Management.{management_token_hash, deactivate_managed}
use glass_eqserver.Activation.Management.Stopped.{StoppedIn, deactivate_managed-stopped}
use glass_eqserver.Activation.Rotation.{
  rotate_locked, session_license, retry_after_rotation, last_rotation,
}
use glass_eqserver.Activation.System.Rotated.{Replaced, rotate-Replaced}
use glass_eqserver.Activation.RecoverySession.{exchange_locked, token_available}
use glass_eqserver.Activation.RecoverySession.Once.{exchange_locked-once}
use glass_eqserver.Examples.World.{
  managed_input, session_db, recovery_db, recovery_request, plain_service, one_db, quiet,
  one_request, one_response, repeated,
}

rotate-Replaced_example :
    Ensures (transact (rotate_locked plain_service one_request 9)) (session_db) (λ _ d'.
      (id : Bytes) × (session_license one_request.credential_hash 9 (session_db) ≡ some id)
      × (retry_after_rotation (last_rotation id session_db.license_keys) 9 ≡ 0)
      × Replaced one_request.credential_hash id 9 d')
rotate-Replaced_example = rotate-Replaced plain_service one_request 9 (session_db)

exchange_locked-once_example :
    Ensures (transact (exchange_locked plain_service recovery_request 9)) (recovery_db) (λ _ d'.
      (later : Time) → token_available recovery_request.credential_hash later d' ≢ some true)
exchange_locked-once_example = exchange_locked-once plain_service recovery_request 9 (recovery_db)

deactivate_managed-stopped_example :
    Ensures (deactivate_managed plain_service managed_input 9) (session_db) (λ _ d'.
      (hash : Bytes) × (management_token_hash plain_service managed_input.management_token
        ≡ some hash)
      × (hash ≡ plain_service.sha256 managed_input.management_token)
      × StoppedIn hash managed_input.activation_id 9 (session_db) d')
deactivate_managed-stopped_example =
    deactivate_managed-stopped plain_service managed_input 9 (session_db)

store_and_commit-next_example :
    let (x, d', v') = store_and_commit plain_service one_request one_response 5 one_db quiet in
    StoredIn plain_service one_request one_response 5 (repeated 12 3) one_db x d'
    ⊎ RefusedBy plain_service one_request one_response 5 (repeated 12 3) one_db x d'
store_and_commit-next_example =
    store_and_commit-next plain_service one_request one_response 5 (repeated 12 3) one_db quiet
      (repeated 64 3) refl refl
