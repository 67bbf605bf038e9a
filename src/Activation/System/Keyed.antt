-- ===== src/Activation/System/Keyed.antt =====
-- internal/activation/rotation.go, purchase.go and retention.go: the sections that write to
-- `license_keys`, and the limits.
use glass_eqserver.Prelude.{ℕ, Bool, true, Bytes, some, ◌≡◌, arith, update_rows, delete_rows}
use glass_eqserver.Store.Tables.{Time, License, LicenseKey, LicenseDelivery, Db}
use glass_eqserver.Store.Effect.{transact, execute}
use glass_eqserver.Store.Keeps.{Keeps, Keeps-execute, Keeps-transact_all, keeps_rules}
use glass_eqserver.Activation.Service.{Service}
use glass_eqserver.Activation.Idempotency.{IdempotencyRequest}
use glass_eqserver.Activation.Rotation.{
  active_key_of, revoked_at_time, revoke_keys, insert_key, older_revoked, delete_older_keys,
  consume_session, license_key_rotation_retry_after, lock_management_license, replace_key,
  rotate_locked,
}
use glass_eqserver.Activation.Purchase.{
  PurchasedLicense, insert_license, insert_delivery, issue_purchased_license,
}
use glass_eqserver.Activation.Retention.{
  Unlocked, batch, in_batch, purge_idempotency, purge_rate_limits, purge_access_tokens,
  purge_recovery_jobs, purge_recovery_emails, purge_license_deliveries, key_before, expired_key,
  same_key, cleared, clear_delivery_keys,
}
use glass_eqserver.Activation.System.Keys.{
  insert_key-OneActiveKey, update-OneActiveKey, delete-OneActiveKey,
}
use glass_eqserver.Activation.System.Kept.{IsSound, execute-Apart, step_rules}
use glass_eqserver.Activation.System.Sections.{keys_changed}

-- An UPDATE of `license_keys` by which no key becomes active.
keys_updated :
    (p : LicenseKey → Bool) (f : LicenseKey → LicenseKey) (d d' : Db)
    → ((l : Bytes) (k : LicenseKey) → active_key_of l (f k) ≡ true → active_key_of l k ≡ true)
    → d'.activations ≡ d.activations
    → d'.license_keys ≡ update_rows p f d.license_keys
    → IsSound d
    → IsSound d'
keys_updated p f d d' falls a k h =
    keys_changed d d' a (rw k (update-OneActiveKey p f d.license_keys falls h.keys)) h

revoked-falls :
    (now : Time) (l : Bytes) (k : LicenseKey)
    → active_key_of l (revoked_at_time now k) ≡ true
    → active_key_of l k ≡ true
revoked-falls now l k h = ground arith

revoke-kept : (id : Bytes) (now : Time) → Keeps IsSound (execute (revoke_keys id now))
unfolding revoke_keys
revoke-kept id now = Keeps-execute _ λ d d' o h e.
    keys_updated (active_key_of id) (revoked_at_time now) d d' (revoked-falls now) (ground arith)
      (ground arith) h

inserted_activations :
    (new : LicenseKey) (d d' : Db)
    → insert_key new d ≡ some (d', tt)
    → d'.activations ≡ d.activations
unfolding insert_key
inserted_activations new d d' e = ground arith

pub key-kept : (new : LicenseKey) → Keeps IsSound (execute (insert_key new))
key-kept new = Keeps-execute _ λ d d' u h e.
    keys_changed d d' (inserted_activations new d d' e) (insert_key-OneActiveKey new d d' h.keys e)
      h

older-kept : (id kept : Bytes) → Keeps IsSound (execute (delete_older_keys id kept))
unfolding delete_older_keys
older-kept id kept = Keeps-execute _ λ d d' u h e.
    let rows : d'.license_keys ≡ delete_rows (older_revoked id kept) d.license_keys =
      ground arith in
    keys_changed d d' (ground arith)
      (rw rows (delete-OneActiveKey (older_revoked id kept) d.license_keys h.keys)) h

consume-kept : (hash : Bytes) → Keeps IsSound (execute (consume_session hash))
unfolding consume_session
consume-kept hash = execute-Apart _ (λ d d' a e. ground arith)

retry-kept : (id : Bytes) (now : Time) → Keeps IsSound (license_key_rotation_retry_after id now)
unfolding license_key_rotation_retry_after
retry-kept id now = search keeps_rules

lock-kept : (hash : Bytes) (now : Time) → Keeps IsSound (lock_management_license hash now)
unfolding lock_management_license
lock-kept hash now = search keeps_rules

replace-kept :
    (s : Service) (r : IdempotencyRequest) (id : Bytes) (now : Time)
    → Keeps IsSound (replace_key s r id now)
unfolding replace_key
replace-kept s r id now =
    search (step_rules, revoke-kept, key-kept, older-kept, consume-kept) depth 40

pub rotate-kept :
    (s : Service) (r : IdempotencyRequest) (now : Time)
    → Keeps IsSound (transact (rotate_locked s r now))
unfolding rotate_locked
rotate-kept s r now =
    Keeps-transact_all _ (search (step_rules, retry-kept, lock-kept, replace-kept) depth 40)

license-kept : (l : License) → Keeps IsSound (execute (insert_license l))
unfolding insert_license
license-kept l = execute-Apart _ (λ d d' a e. ground arith)

delivery-kept : (o : LicenseDelivery) → Keeps IsSound (execute (insert_delivery o))
unfolding insert_delivery
delivery-kept o = execute-Apart _ (λ d d' a e. ground arith)

pub issue_purchased-kept :
    (s : Service) (p : PurchasedLicense) (now : Time)
    → Keeps IsSound (issue_purchased_license s p now)
unfolding issue_purchased_license
issue_purchased-kept s p now = search (step_rules, key-kept, license-kept, delivery-kept) depth 40

pub purchase-kept :
    (s : Service) (p : PurchasedLicense) (now : Time)
    → Keeps IsSound (transact (issue_purchased_license s p now))
purchase-kept s p now = Keeps-transact_all _ (issue_purchased-kept s p now)

module _ (u : Unlocked) (now : Time) (size : ℕ) where
  pub purge_idempotency-kept : Keeps IsSound (execute (purge_idempotency u now size))
  unfolding purge_idempotency
  purge_idempotency-kept = execute-Apart _ (λ d d' a e. ground arith)

  pub purge_rate_limits-kept : Keeps IsSound (execute (purge_rate_limits u now size))
  unfolding purge_rate_limits
  purge_rate_limits-kept = execute-Apart _ (λ d d' a e. ground arith)

  pub purge_access_tokens-kept : Keeps IsSound (execute (purge_access_tokens u now size))
  unfolding purge_access_tokens
  purge_access_tokens-kept = execute-Apart _ (λ d d' a e. ground arith)

  pub purge_recovery_jobs-kept : Keeps IsSound (execute (purge_recovery_jobs u now size))
  unfolding purge_recovery_jobs
  purge_recovery_jobs-kept = execute-Apart _ (λ d d' a e. ground arith)

  pub purge_recovery_emails-kept : Keeps IsSound (execute (purge_recovery_emails u now size))
  unfolding purge_recovery_emails
  purge_recovery_emails-kept = execute-Apart _ (λ d d' a e. ground arith)

  pub purge_license_deliveries-kept : Keeps IsSound (execute (purge_license_deliveries u now size))
  unfolding purge_license_deliveries
  purge_license_deliveries-kept = execute-Apart _ (λ d d' a e. ground arith)

  pub clear_delivery_keys-kept : Keeps IsSound (execute (clear_delivery_keys u now size))
  unfolding clear_delivery_keys
  clear_delivery_keys-kept = Keeps-execute _ λ d d' n h e.
      keys_updated
        (in_batch (same_key u now size)
          (batch size (key_before u now size) (expired_key u now size) d.license_keys))
        (cleared u now size) d d' (λ l k c. c) (ground arith) (ground arith) h
