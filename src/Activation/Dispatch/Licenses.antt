-- ===== src/Activation/Dispatch/Licenses.antt =====
-- internal/activation/license_dispatch.go: the emails that deliver license keys.
use glass_eqserver.Prelude.{
  ℕ, ◌+◌, Bool, true, false, ◌&&◌, not, Bytes, Option, none, some, ltb, leb, ◌==◌, bytes_eq,
  is_some, find_row, exists_row, count_rows, select_rows, delete_rows, update_rows, sort_by,
}
use glass_eqserver.Store.Tables.{Time, LicenseKey, LicenseDelivery, Db, key_is_active}
use glass_eqserver.Store.Effect.{
  M, database, email, decryption, email_disappeared, pure, throw_if, or_throw, call, execute,
  transact, ◌>>=◌, ◌>>◌,
}
use glass_eqserver.Activation.Service.{Service, open_sealed}
use glass_eqserver.Activation.Purchase.{
  license_delivery_additional_data, recovery_email_additional_data,
}
use glass_eqserver.Activation.Dispatch.{
  retry_delay, minimum_delivery_lifetime, pending_before, first_row, license_active_in,
  email_ciphertext_of,
}

-- The key of a delivery, if it is active, still has its encrypted copy, and its license is active.
abbrev pub deliverable : Db → Bytes → LicenseKey → Bool
deliverable d key_id k =
    bytes_eq k.id key_id
    && key_is_active k.state
    && is_some k.delivery
    && license_active_in d k.license_id

abbrev pub delivery_is_due : (LicenseDelivery → Bool) → Time → Db → LicenseDelivery → Bool
delivery_is_due free now d o =
    leb o.next_attempt_at now
    && ltb (now + minimum_delivery_lifetime) o.expires_at
    && exists_row (deliverable d o.license_key_id) d.license_keys
    && free o

abbrev pub delivery_pending_before : LicenseDelivery → LicenseDelivery → Bool
delivery_pending_before a b =
    pending_before a.next_attempt_at a.created_at a.id b.next_attempt_at b.created_at b.id

pub record ClaimedDelivery : Type 0 where
  pub delivery_id : Bytes
  pub key_id : Bytes
  pub license_id : Bytes
  pub key_ciphertext : Bytes
  pub expires_at : Time
  pub email_ciphertext : Bytes

abbrev pub claimed_key : Db → LicenseDelivery → Option LicenseKey → Option ClaimedDelivery
claimed_key d o none = none
claimed_key d o (some k) = elim (k.delivery) [
  | none ↦ none
  | some (ciphertext, expires_at) ↦ some (record {
    delivery_id = o.id;
    key_id = k.id;
    license_id = k.license_id;
    key_ciphertext = ciphertext;
    expires_at = expires_at;
    email_ciphertext = email_ciphertext_of d k.license_id;
  })
]

abbrev pub delivery_has_id : Bytes → LicenseDelivery → Bool
delivery_has_id id o = bytes_eq o.id id

abbrev pub delay_delivery : Time → LicenseDelivery → LicenseDelivery
delay_delivery now o = record o { next_attempt_at = now + retry_delay }

unfoldable pub due_delivery : (LicenseDelivery → Bool) → Time → Db → Option LicenseDelivery
due_delivery free now d = first_row (
    sort_by delivery_pending_before (select_rows (delivery_is_due free now d) d.license_deliveries))

unfoldable pub claim_delivery :
    (LicenseDelivery → Bool) → Time → Db → Option (Db × Option ClaimedDelivery)
claim_delivery free now d = elim (due_delivery free now d) [
  | none ↦ some (d, none)
  | some o ↦ some (
    record d {
      license_deliveries =
          update_rows (delivery_has_id o.id) (delay_delivery now) d.license_deliveries;
    },
    claimed_key d o (find_row (deliverable d o.license_key_id) d.license_keys),
  )
]

abbrev pub sent_delivery : Bytes → Bytes → LicenseDelivery → Bool
sent_delivery id key_id o = bytes_eq o.id id && bytes_eq o.license_key_id key_id

unfoldable pub delete_delivery : Bytes → Bytes → Db → Option (Db × ℕ)
delete_delivery id key_id d = some (
  record d { license_deliveries = delete_rows (sent_delivery id key_id) d.license_deliveries },
  count_rows (sent_delivery id key_id) d.license_deliveries,
)

abbrev pub key_has_id : Bytes → LicenseKey → Bool
key_has_id id k = bytes_eq k.id id

abbrev pub without_delivery : LicenseKey → LicenseKey
without_delivery k = record k { delivery = none }

unfoldable pub clear_delivery : Bytes → Db → Option (Db × Unit {0})
clear_delivery key_id d = some (
  record d { license_keys = update_rows (key_has_id key_id) without_delivery d.license_keys },
  tt,
)

-- The acknowledgement: the outbox row and the encrypted copy of the key go together.
unfoldable pub acknowledge_delivery : ClaimedDelivery → M Bool
acknowledge_delivery c = do
  call database
  deleted ← execute (delete_delivery c.delivery_id c.key_id)
  call email_disappeared
  throw_if (not (deleted == 1)) email_disappeared
  execute (clear_delivery c.key_id)
  call database
  pure true

unfoldable pub send_license_email : Service → Option ClaimedDelivery → M Bool
send_license_email s none = pure false
send_license_email s (some c) = do
  address ←
      or_throw
        (open_sealed s s.database_key c.email_ciphertext
          (recovery_email_additional_data c.license_id))
        decryption
  key ←
      or_throw
        (open_sealed s s.database_key c.key_ciphertext
          (license_delivery_additional_data c.key_id c.license_id c.expires_at))
        decryption
  call email
  transact (acknowledge_delivery c)

unfoldable pub dispatch_license_email : Service → (LicenseDelivery → Bool) → Time → M Bool
dispatch_license_email s free now = do
  claimed ← execute (claim_delivery free now)
  send_license_email s claimed
