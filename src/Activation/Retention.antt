-- ===== src/Activation/Retention.antt =====
-- internal/activation/retention.go: one bounded batch of expired rows is removed from each table.
-- `FOR UPDATE SKIP LOCKED` passes over the rows that another session holds: `Unlocked` says which
-- rows of a table this batch may take.
use glass_eqserver.Prelude.{
  ℕ, ◌+◌, Bool, false, ◌&&◌, ◌||◌, Bytes, List, Option, none, some, ltb, leb, ◌==◌, bytes_eq,
  bytes_ltb, exists_row, select_rows, delete_rows, update_rows, count_rows, sort_by,
}
use glass_eqserver.Store.Tables.{
  Time, IdempotencyRecord, RateLimit, AccessToken, RecoveryJob, RecoveryEmailRow, LicenseDelivery,
  LicenseKey, Db, kind_eq,
}
use glass_eqserver.Store.Effect.{M, database, pure, call, execute, ◌>>=◌, ◌>>◌}
use glass_eqserver.Activation.Time.{truncate}
use glass_eqserver.Activation.Service.{take}
use glass_eqserver.Activation.RateLimit.{rate_limit_window}

pub record Unlocked : Type 0 where
  pub idempotency : IdempotencyRecord → Bool
  pub rate_limit : RateLimit → Bool
  pub access_token : AccessToken → Bool
  pub recovery_job : RecoveryJob → Bool
  pub recovery_email : RecoveryEmailRow → Bool
  pub delivery : LicenseDelivery → Bool
  pub key : LicenseKey → Bool

-- The first rows, in the order of the query, that have expired and are not locked.
abbrev pub batch : {A : Type 0} → ℕ → (A → A → Bool) → (A → Bool) → List A → List A
batch size before expired rows = take size (sort_by before (select_rows expired rows))

-- The rows whose key is among the batch's.
abbrev pub in_batch : {A : Type 0} → (A → A → Bool) → List A → A → Bool
in_batch same chosen row = exists_row (same row) chosen

abbrev pub same_record : IdempotencyRecord → IdempotencyRecord → Bool
same_record a b =
    bytes_eq a.scope b.scope && bytes_eq a.credential_hash b.credential_hash && bytes_eq a.key b.key

abbrev pub same_limit : RateLimit → RateLimit → Bool
same_limit a b =
    kind_eq a.kind b.kind
    && bytes_eq a.subject_hash b.subject_hash
    && a.window_start == b.window_start

-- ORDER BY expires_at, id.
abbrev pub by_expiry : Time → Bytes → Time → Bytes → Bool
by_expiry a i b j = ltb a b || (a == b && bytes_ltb i j)

-- What one statement leaves of its table, and how many rows it removed.
abbrev pub purge : {A : Type 0} → ℕ → (A → A → Bool) → (A → A → Bool) → (A → Bool) → List A → List A
purge size before same expired rows =
    delete_rows (in_batch same (batch size before expired rows)) rows

abbrev pub purged : {A : Type 0} → ℕ → (A → A → Bool) → (A → A → Bool) → (A → Bool) → List A → ℕ
purged size before same expired rows =
    count_rows (in_batch same (batch size before expired rows)) rows

module _ (u : Unlocked) (now : Time) (size : ℕ) where
  abbrev pub expired_record : IdempotencyRecord → Bool
  expired_record r = leb r.expires_at now && u.idempotency r

  abbrev pub record_before : IdempotencyRecord → IdempotencyRecord → Bool
  record_before a b = ltb a.expires_at b.expires_at

  unfoldable pub purge_idempotency : Db → Option (Db × ℕ)
  purge_idempotency d = some (
    record d {
      idempotency_records =
          purge size record_before same_record expired_record d.idempotency_records;
    },
    purged size record_before same_record expired_record d.idempotency_records,
  )

  abbrev pub expired_limit : RateLimit → Bool
  expired_limit r = ltb r.window_start (truncate now rate_limit_window) && u.rate_limit r

  abbrev pub limit_before : RateLimit → RateLimit → Bool
  limit_before a b = ltb a.window_start b.window_start

  unfoldable pub purge_rate_limits : Db → Option (Db × ℕ)
  purge_rate_limits d = some (
    record d { rate_limits = purge size limit_before same_limit expired_limit d.rate_limits },
    purged size limit_before same_limit expired_limit d.rate_limits,
  )

  abbrev pub expired_token : AccessToken → Bool
  expired_token t = leb t.expires_at now && u.access_token t

  abbrev pub token_before : AccessToken → AccessToken → Bool
  token_before a b = ltb a.expires_at b.expires_at

  abbrev pub same_token : AccessToken → AccessToken → Bool
  same_token a b = bytes_eq a.token_hash b.token_hash

  unfoldable pub purge_access_tokens : Db → Option (Db × ℕ)
  purge_access_tokens d = some (
    record d { access_tokens = purge size token_before same_token expired_token d.access_tokens },
    purged size token_before same_token expired_token d.access_tokens,
  )

  abbrev pub expired_job : RecoveryJob → Bool
  expired_job j = leb j.expires_at now && u.recovery_job j

  abbrev pub job_before : RecoveryJob → RecoveryJob → Bool
  job_before a b = ltb a.expires_at b.expires_at

  abbrev pub same_job : RecoveryJob → RecoveryJob → Bool
  same_job a b = bytes_eq a.id b.id

  unfoldable pub purge_recovery_jobs : Db → Option (Db × ℕ)
  purge_recovery_jobs d = some (
    record d { recovery_jobs = purge size job_before same_job expired_job d.recovery_jobs },
    purged size job_before same_job expired_job d.recovery_jobs,
  )

  abbrev pub expired_email : RecoveryEmailRow → Bool
  expired_email e = leb e.expires_at now && u.recovery_email e

  abbrev pub email_before : RecoveryEmailRow → RecoveryEmailRow → Bool
  email_before a b = ltb a.expires_at b.expires_at

  abbrev pub same_email : RecoveryEmailRow → RecoveryEmailRow → Bool
  same_email a b = bytes_eq a.id b.id

  unfoldable pub purge_recovery_emails : Db → Option (Db × ℕ)
  purge_recovery_emails d = some (
    record d {
      recovery_emails = purge size email_before same_email expired_email d.recovery_emails;
    },
    purged size email_before same_email expired_email d.recovery_emails,
  )

  abbrev pub expired_delivery : LicenseDelivery → Bool
  expired_delivery o = leb o.expires_at now && u.delivery o

  abbrev pub delivery_before : LicenseDelivery → LicenseDelivery → Bool
  delivery_before a b = by_expiry a.expires_at a.id b.expires_at b.id

  abbrev pub same_delivery : LicenseDelivery → LicenseDelivery → Bool
  same_delivery a b = bytes_eq a.id b.id

  unfoldable pub purge_license_deliveries : Db → Option (Db × ℕ)
  purge_license_deliveries d = some (
    record d {
      license_deliveries =
          purge size delivery_before same_delivery expired_delivery d.license_deliveries;
    },
    purged size delivery_before same_delivery expired_delivery d.license_deliveries,
  )

  -- A key without a pending copy is not touched: its expiry is NULL.
  abbrev pub delivery_expired_by : Option (Bytes × Time) → Bool
  delivery_expired_by none = false
  delivery_expired_by (some (ciphertext, expires_at)) = leb expires_at now

  abbrev pub expiry_of : Option (Bytes × Time) → Time
  expiry_of none = 0
  expiry_of (some (ciphertext, expires_at)) = expires_at

  abbrev pub expired_key : LicenseKey → Bool
  expired_key k = delivery_expired_by k.delivery && u.key k

  abbrev pub key_before : LicenseKey → LicenseKey → Bool
  key_before a b = by_expiry (expiry_of a.delivery) a.id (expiry_of b.delivery) b.id

  abbrev pub same_key : LicenseKey → LicenseKey → Bool
  same_key a b = bytes_eq a.id b.id

  abbrev pub cleared : LicenseKey → LicenseKey
  cleared k = record k { delivery = none }

  unfoldable pub clear_delivery_keys : Db → Option (Db × ℕ)
  clear_delivery_keys d =
      let chosen = batch size key_before expired_key d.license_keys in
      some (
        record d { license_keys = update_rows (in_batch same_key chosen) cleared d.license_keys },
        count_rows (in_batch same_key chosen) d.license_keys,
      )

-- One statement and the reading of its row count.
unfoldable pub counted : (Db → Option (Db × ℕ)) → M ℕ
counted f = do n ← execute f; call database; pure n

-- Seven statements, each committed by itself: what an earlier one removed stays removed when a
-- later one fails. The partial counts that Go returns beside an error are not modelled.
unfoldable pub cleanup_batch : Unlocked → Time → ℕ → M ℕ
cleanup_batch u now size = do
  a ← counted (purge_idempotency u now size)
  b ← counted (purge_rate_limits u now size)
  c ← counted (purge_access_tokens u now size)
  d ← counted (purge_recovery_jobs u now size)
  e ← counted (purge_recovery_emails u now size)
  f ← counted (purge_license_deliveries u now size)
  g ← counted (clear_delivery_keys u now size)
  pure (a + b + c + d + e + f + g)

abbrev pub cleanup_batch_size : ℕ
cleanup_batch_size = 1000

-- The source does not truncate its time; `now` is its whole microseconds.
unfoldable pub cleanup_expired : Unlocked → Time → M ℕ
cleanup_expired u now = cleanup_batch u now cleanup_batch_size
