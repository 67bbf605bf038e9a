-- ===== src/Activation/Dispatch/Requests.antt =====
-- internal/activation/recovery_dispatch.go: the worker that turns recovery requests into tokens.
use glass_eqserver.Prelude.{
  ℕ, ◌+◌, Bool, true, false, ◌&&◌, Bytes, codes, List, [], ◌∷◌, Option, none, some, ltb, leb,
  bytes_eq, bytes_ltb, find_row, exists_row, select_rows, delete_rows, update_rows, sort_by,
  if◌then◌else◌,
}
use glass_eqserver.Store.Tables.{
  Time, Purpose, License, AccessToken, RecoveryJob, RecoveryEmailRow, Db, license_is_active,
}
use glass_eqserver.Store.Effect.{M, database, pure, call, query, execute, transact, ◌>>=◌, ◌>>◌}
use glass_eqserver.Activation.Time.{unix, big_endian, uint64}
use glass_eqserver.Activation.Service.{Service, random_value, seal}
use glass_eqserver.Activation.Management.{insert_token}
use glass_eqserver.Activation.RecoveryRequest.{tagged, job_has_id}
use glass_eqserver.Activation.Dispatch.{retry_delay, pending_before, first_row}

abbrev pub recovery_token_lifetime : ℕ
recovery_token_lifetime = 1800000000

-- The claims take rows that no other session holds; `free` says which those are.
abbrev pub job_is_due : (RecoveryJob → Bool) → Time → RecoveryJob → Bool
job_is_due free now j = leb j.next_attempt_at now && ltb now j.expires_at && free j

abbrev pub job_pending_before : RecoveryJob → RecoveryJob → Bool
job_pending_before a b =
    pending_before a.next_attempt_at a.created_at a.id b.next_attempt_at b.created_at b.id

unfoldable pub due_job : (RecoveryJob → Bool) → Time → Db → Option RecoveryJob
due_job free now d =
    first_row (sort_by job_pending_before (select_rows (job_is_due free now) d.recovery_jobs))

abbrev pub delay_job : Time → RecoveryJob → RecoveryJob
delay_job now j = record j { next_attempt_at = now + retry_delay }

-- A claimed job is due again only after the retry delay.
unfoldable pub claim_job : (RecoveryJob → Bool) → Time → Db → Option (Db × Option Bytes)
claim_job free now d = elim (due_job free now d) [
  | none ↦ some (d, none)
  | some j ↦ some (
    record d { recovery_jobs = update_rows (job_has_id j.id) (delay_job now) d.recovery_jobs },
    some j.id,
  )
]

abbrev pub recoverable : Bytes → License → Bool
recoverable lookup l = bytes_eq l.recovery_email_lookup lookup && license_is_active l.state

abbrev pub license_before : License → License → Bool
license_before a b = bytes_ltb a.id b.id

unfoldable pub recovery_licenses : Bytes → Db → List License
recovery_licenses lookup d = sort_by license_before (select_rows (recoverable lookup) d.licenses)

unfoldable pub recovery_token_additional_data : Bytes → Bytes → Time → Bytes
recovery_token_additional_data delivery_id license_id expires_at =
    tagged (codes "recovery-token")
      (tagged delivery_id (tagged license_id (big_endian 8 (uint64 (unix expires_at)))))

abbrev pub recovery_token : Bytes → Bytes → Time → AccessToken
recovery_token hash license_id now = record {
  token_hash = hash;
  license_id = license_id;
  purpose = Purpose.recovery;
  created_at = now;
  expires_at = now + recovery_token_lifetime;
  consumed_at = none;
}

abbrev pub email_has_id : Bytes → RecoveryEmailRow → Bool
email_has_id id e = bytes_eq e.id id

abbrev pub new_recovery_email : Bytes → Bytes → Bytes → Time → RecoveryEmailRow
new_recovery_email id license_id ciphertext now = record {
  id = id;
  license_id = license_id;
  token_ciphertext = ciphertext;
  created_at = now;
  expires_at = now + recovery_token_lifetime;
  next_attempt_at = now;
}

unfoldable pub insert_recovery_email : RecoveryEmailRow → Db → Option (Db × Unit {0})
insert_recovery_email e d =
    if exists_row (email_has_id e.id) d.recovery_emails
    then none
    else some (record d { recovery_emails = e ∷ d.recovery_emails }, tt)

unfoldable pub create_recovery_delivery : Service → Bytes → Time → M (Unit {0})
create_recovery_delivery s license_id now = do
  token ← random_value s (codes "ger_") 32
  delivery_id ← random_value s (codes "red_") 16
  ciphertext ←
      seal s s.database_key token
        (recovery_token_additional_data delivery_id license_id (now + recovery_token_lifetime))
  inserted ← execute (insert_token (recovery_token (s.sha256 token) license_id now))
  execute (insert_recovery_email (new_recovery_email delivery_id license_id ciphertext now))

unfoldable pub create_deliveries : Service → List License → Time → M (Unit {0})
create_deliveries s [] now = pure tt
create_deliveries s (l ∷ rest) now =
    create_recovery_delivery s l.id now >> create_deliveries s rest now

unfoldable pub delete_job : Bytes → Db → Option (Db × Unit {0})
delete_job id d =
    some (record d { recovery_jobs = delete_rows (job_has_id id) d.recovery_jobs }, tt)

abbrev pub lookup_of : Option RecoveryJob → Option Bytes
lookup_of none = none
lookup_of (some j) = some j.email_lookup

unfoldable pub prepare_job : Service → Bytes → Time → Option Bytes → M Bool
prepare_job s id now none = pure false
prepare_job s id now (some lookup) = do
  licenses ← query (recovery_licenses lookup)
  call database
  create_deliveries s licenses now
  execute (delete_job id)
  call database
  pure true

unfoldable pub prepare_locked : Service → Bytes → Time → M Bool
prepare_locked s id now = do
  call database
  lookup ← query (λ d. lookup_of (find_row (job_has_id id) d.recovery_jobs))
  prepare_job s id now lookup

unfoldable pub prepare_claimed : Service → Time → Option Bytes → M Bool
prepare_claimed s now none = pure false
prepare_claimed s now (some id) = transact (prepare_locked s id now)

unfoldable pub prepare_recovery_request : Service → (RecoveryJob → Bool) → Time → M Bool
prepare_recovery_request s free now = do
  claimed ← execute (claim_job free now)
  prepare_claimed s now claimed
