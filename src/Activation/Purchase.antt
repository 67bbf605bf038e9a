-- ===== src/Activation/Purchase.antt =====
-- internal/activation/purchase.go: the license, the key and the delivery of a purchase, inside the
-- caller's transaction.
use glass_eqserver.Prelude.{
  ℕ, ◌+◌, Bool, false, ◌&&◌, ◌||◌, not, Bytes, codes, ◌∷◌, Option, none, some, ◌==◌, bytes_eq,
  length, exists_row, if◌then◌else◌,
}
use glass_eqserver.Store.Tables.{
  Time, Plan, perpetual_v1, monthly, other_plan, License, LicenseState, LicenseKey, KeyState,
  LicenseDelivery, Db,
}
use glass_eqserver.Store.Effect.{M, invalid_purchase, pure, throw_if, execute, ◌>>=◌, ◌>>◌}
use glass_eqserver.Activation.Time.{unix, big_endian, uint64}
use glass_eqserver.Activation.Service.{Service, random_value, seal}
use glass_eqserver.Activation.LicenseKey.{generate_license_key}
use glass_eqserver.Activation.Rotation.{insert_key}
use glass_eqserver.Activation.RecoveryRequest.{tagged, normalize_recovery_email}

pub record PurchasedLicense : Type 0 where
  pub plan : Plan
  pub subscription_id : Bytes
  pub policy_version : Bytes
  pub customer_id : Bytes
  pub email : Bytes

abbrev pub delivery_lifetime : ℕ
delivery_lifetime = 604800000000

abbrev pub is_empty : Bytes → Bool
is_empty value = length value == 0

-- Exactly a monthly purchase names a subscription.
abbrev pub plan_fits : Plan → Bytes → Bool
plan_fits perpetual_v1 subscription = is_empty subscription
plan_fits monthly subscription = not (is_empty subscription)
plan_fits (other_plan word) subscription = false

unfoldable pub purchase_valid : Bool → PurchasedLicense → Bool
purchase_valid email_valid p =
    email_valid
    && not (is_empty p.policy_version)
    && not (is_empty p.customer_id)
    && plan_fits p.plan p.subscription_id

unfoldable pub license_delivery_additional_data : Bytes → Bytes → Time → Bytes
license_delivery_additional_data key_id license_id expires_at =
    tagged (codes "license-delivery")
      (tagged key_id (tagged license_id (big_endian 8 (uint64 (unix expires_at)))))

unfoldable pub recovery_email_additional_data : Bytes → Bytes
recovery_email_additional_data license_id = tagged (codes "recovery-email") license_id

-- NULLIF(…, '').
abbrev pub null_if_empty : Bytes → Option Bytes
null_if_empty value = if is_empty value then none else some value

abbrev pub same_subscription : Option Bytes → Option Bytes → Bool
same_subscription none b = false
same_subscription (some a) none = false
same_subscription (some a) (some b) = bytes_eq a b

abbrev pub license_collides : License → License → Bool
license_collides new l =
    bytes_eq l.id new.id || same_subscription l.stripe_subscription_id new.stripe_subscription_id

unfoldable pub insert_license : License → Db → Option (Db × Unit {0})
insert_license new d =
    if exists_row (license_collides new) d.licenses
    then none
    else some (record d { licenses = new ∷ d.licenses }, tt)

abbrev pub delivery_collides : LicenseDelivery → LicenseDelivery → Bool
delivery_collides new o = bytes_eq o.id new.id || bytes_eq o.license_key_id new.license_key_id

unfoldable pub insert_delivery : LicenseDelivery → Db → Option (Db × Unit {0})
insert_delivery new d =
    if exists_row (delivery_collides new) d.license_deliveries
    then none
    else some (record d { license_deliveries = new ∷ d.license_deliveries }, tt)

abbrev pub purchased_license : Service → PurchasedLicense → Bytes → Bytes → Bytes → Time → License
purchased_license s p id email email_ciphertext now = record {
  id = id;
  plan = p.plan;
  state = LicenseState.active;
  policy_version = p.policy_version;
  recovery_email_ciphertext = email_ciphertext;
  recovery_email_lookup = s.hmac_sha256 s.email_lookup_key email;
  stripe_customer_id = p.customer_id;
  stripe_subscription_id = null_if_empty p.subscription_id;
  created_at = now;
  updated_at = now;
}

abbrev pub purchased_key : Bytes → Bytes → Bytes → Bytes → Time → LicenseKey
purchased_key id license_id hash ciphertext now = record {
  id = id;
  license_id = license_id;
  secret_hash = hash;
  delivery = some (ciphertext, now + delivery_lifetime);
  state = KeyState.active;
  created_at = now;
  revoked_at = none;
}

abbrev pub purchased_delivery : Bytes → Bytes → Time → LicenseDelivery
purchased_delivery id key_id now = record {
  id = id;
  license_key_id = key_id;
  created_at = now;
  expires_at = now + delivery_lifetime;
  next_attempt_at = now;
}

unfoldable pub issue_purchased_license : Service → PurchasedLicense → Time → M Bytes
issue_purchased_license s p now = do
  let (email, email_valid) = normalize_recovery_email s p.email
  throw_if (not (purchase_valid email_valid p)) invalid_purchase
  license_id ← random_value s (codes "lic_") 16
  key_id ← random_value s (codes "key_") 16
  delivery_id ← random_value s (codes "del_") 16
  (key, normalized_key) ← generate_license_key s
  email_ciphertext ← seal s s.database_key email (recovery_email_additional_data license_id)
  key_ciphertext ←
      seal s s.database_key key
        (license_delivery_additional_data key_id license_id (now + delivery_lifetime))
  execute (insert_license (purchased_license s p license_id email email_ciphertext now))
  execute
      (insert_key (purchased_key key_id license_id (s.sha256 normalized_key) key_ciphertext now))
  execute (insert_delivery (purchased_delivery delivery_id key_id now))
  pure license_id
