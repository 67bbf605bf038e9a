-- ===== src/Activation/Dispatch.antt =====
-- internal/activation/recovery_dispatch.go and license_dispatch.go: what the two workers share.
pub mod Requests
pub mod Emails
pub mod Licenses
use glass_eqserver.Prelude.{
  ℕ, ◌+◌, Bool, true, false, ◌&&◌, ◌||◌, not, Bytes, codes, List, [], ◌∷◌, ◌++◌, Option, none, some,
  ltb, leb, ◌==◌, bytes_eq, bytes_ltb, is_some, find_row, exists_row, count_rows, select_rows,
  delete_rows, update_rows, sort_by, if◌then◌else◌,
}
use glass_eqserver.Store.Tables.{
  Time, Purpose, License, LicenseKey, AccessToken, RecoveryJob, RecoveryEmailRow, LicenseDelivery,
  Db, license_is_active, key_is_active,
}
use glass_eqserver.Store.Effect.{
  M, Exit, next, reply, fail, Failure, database, email, decryption, email_disappeared, pure,
  throw_if, or_throw, call, query, execute, transact, ◌>>=◌, ◌>>◌,
}
use glass_eqserver.Activation.Time.{unix, big_endian, uint64}
use glass_eqserver.Activation.Service.{Service, random_value, seal, open_sealed}
use glass_eqserver.Activation.Management.{insert_token}
use glass_eqserver.Activation.RecoveryRequest.{tagged, job_has_id}
use glass_eqserver.Activation.Purchase.{
  license_delivery_additional_data, recovery_email_additional_data,
}

abbrev pub retry_delay : ℕ
retry_delay = 60000000

abbrev pub minimum_delivery_lifetime : ℕ
minimum_delivery_lifetime = 300000000

-- ORDER BY next_attempt_at, created_at, id.
abbrev pub pending_before : Time → Time → Bytes → Time → Time → Bytes → Bool
pending_before n c i m d j = ltb n m || (n == m && (ltb c d || (c == d && bytes_ltb i j)))

abbrev pub first_row : {A : Type 0} → List A → Option A
first_row [] = none
first_row (x ∷ xs) = some x

abbrev pub license_active_in : Db → Bytes → Bool
license_active_in d id =
    exists_row (λ (l : License). bytes_eq l.id id && license_is_active l.state) d.licenses

abbrev pub email_ciphertext_of : Db → Bytes → Bytes
email_ciphertext_of d id = elim (find_row (λ (l : License). bytes_eq l.id id) d.licenses) [
  | none ↦ []
  | some l ↦ l.recovery_email_ciphertext
]
