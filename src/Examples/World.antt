-- ===== src/Examples/World.antt =====
-- A concrete platform with simple functions, and a database with one license.
use glass_eqserver.Prelude.{ℕ, zero, suc, Bytes, codes, [], ◌∷◌, none, some, true}
use glass_eqserver.Platform.{Platform}
use glass_eqserver.Store.Tables.{
  perpetual_v1, LicenseState, License, KeyState, LicenseKey, ActivationState, Activation, Db,
}
use glass_eqserver.Prelude.{◌++◌}
use glass_eqserver.Store.Tables.{AccessToken, Purpose}
use glass_eqserver.Activation.Management.{ManagedDeactivationInput}
use glass_eqserver.Store.Effect.{Env, Response}
use glass_eqserver.Activation.Service.{Service}
use glass_eqserver.Activation.Activate.{Input}
use glass_eqserver.Activation.Idempotency.{IdempotencyRequest}

abbrev pub repeated : ℕ → ℕ → Bytes
repeated zero c = []
repeated (suc n) c = c ∷ repeated n c

-- Three bytes for each four characters.
abbrev pub decoded : Bytes → Bytes
decoded (a ∷ b ∷ c ∷ d ∷ rest) = a ∷ b ∷ c ∷ decoded rest
decoded (a ∷ b ∷ c ∷ []) = a ∷ b ∷ []
decoded (a ∷ b ∷ []) = a ∷ []
decoded (a ∷ []) = []
decoded [] = []

-- The hash is constant, the cipher does nothing, and every text is a UUID.
abbrev pub plain_platform : Platform
plain_platform = record {
  sha256 = λ x. repeated 32 1;
  hmac_sha256 = λ k x. x;
  base64_url = λ x. x;
  base64_url_decode = λ x. some (decoded x);
  base32 = λ x. repeated 26 b'7';
  parse_uuid = λ x. some x;
  to_upper = λ x. x;
  to_lower = λ x. x;
  trim_space = λ x. x;
  parse_address = λ x. some ([], x);
  addr_is_valid = λ x. true;
  addr_unmap = λ x. x;
  addr_string = λ x. x;
  aead_seal = λ key nonce text extra. text;
  aead_open = λ key nonce text extra. some text;
  marshal = λ j. some (codes "{}");
  sign = λ x. repeated 64 2;
}

abbrev pub plain_service : Service
plain_service = record {
  platform = plain_platform;
  encoded_header = codes "header";
  idempotency_key = codes "i";
  database_key = codes "d";
  rate_limit_key = codes "r";
  email_lookup_key = codes "e";
}

abbrev pub one_license : License
one_license = record {
  id = codes "lic_1";
  plan = perpetual_v1;
  state = LicenseState.active;
  policy_version = codes "1";
  recovery_email_ciphertext = [];
  recovery_email_lookup = codes "a@example.com";
  stripe_customer_id = codes "cus_1";
  stripe_subscription_id = none;
  created_at = 1;
  updated_at = 1;
}

abbrev pub one_key : LicenseKey
one_key = record {
  id = codes "key_1";
  license_id = codes "lic_1";
  secret_hash = repeated 32 1;
  delivery = none;
  state = KeyState.active;
  created_at = 1;
  revoked_at = none;
}

abbrev pub one_activation : Activation
one_activation = record {
  id = codes "act_1";
  license_id = codes "lic_1";
  installation_hash = repeated 32 1;
  token_hash = codes "token";
  state = ActivationState.active;
  revision = 4;
  activated_at = 1;
  last_refreshed_at = 1;
  deactivated_at = none;
}

abbrev pub empty_db : Db
empty_db = record {
  licenses = [];
  license_keys = [];
  subscriptions = [];
  activations = [];
  idempotency_records = [];
  rate_limits = [];
  access_tokens = [];
  recovery_jobs = [];
  recovery_emails = [];
  license_deliveries = [];
  checkout_orders = [];
  stripe_events = [];
  billing_adjustments = [];
}

abbrev pub one_db : Db
one_db = record empty_db {
  licenses = one_license ∷ [];
  license_keys = one_key ∷ [];
  activations = one_activation ∷ [];
}

-- Every call succeeds, and there is randomness for one activation.
abbrev pub quiet : Env
quiet = record { answers = []; entropy = repeated 76 3 }

abbrev pub one_request : IdempotencyRequest
one_request = record {
  scope = codes "activation";
  credential_hash = repeated 32 1;
  key = codes "k";
  request_hash = repeated 32 1;
}

abbrev pub one_response : Response
one_response = record {
  status = 201;
  body = codes "{}";
  error_code = "";
  error_message = "";
  retry_after_seconds = 0;
}

abbrev pub one_input : Input
one_input = record {
  license_key = codes "GEQ1-77777-77777-77777-77777-77777-7";
  installation_id = repeated 36 b'A';
  idempotency_key = repeated 36 b'B';
  client_ip = codes "::1";
}

abbrev pub one_session : AccessToken
one_session = record {
  token_hash = repeated 32 1;
  license_id = codes "lic_1";
  purpose = Purpose.management;
  created_at = 1;
  expires_at = 900;
  consumed_at = none;
}

abbrev pub managed_input : ManagedDeactivationInput
managed_input = record {
  management_token = codes "gem_" ++ repeated 43 b'A';
  activation_id = codes "act_" ++ repeated 22 b'A';
}

-- A management session for the license, whose key has another hash than a new one.
abbrev pub session_db : Db
session_db = record one_db {
  license_keys = record one_key { secret_hash = repeated 32 5 } ∷ [];
  access_tokens = one_session ∷ [];
}

abbrev pub recovery_db : Db
recovery_db = record one_db {
  access_tokens =
      record one_session { token_hash = repeated 32 6; purpose = Purpose.recovery } ∷ [];
}

abbrev pub recovery_request : IdempotencyRequest
recovery_request = record one_request { credential_hash = repeated 32 6 }
