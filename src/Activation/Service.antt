-- ===== src/Activation/Service.antt =====
-- internal/activation/service.go and cipher.go: the service's secrets, random values, the cipher of
-- stored values, and the error responses.
use glass_eqserver.Prelude.{
  ℕ, zero, suc, ◌+◌, ◌*◌, ◌/◌, Bool, true, false, ◌&&◌, Bytes, String, List, [], ◌∷◌, ◌++◌, Option,
  none, some, ltb, ◌==◌, length, if◌then◌else◌,
}
use glass_eqserver.Platform.{Platform, Json, Members, end, member}
use glass_eqserver.Store.Effect.{M, Response, encoding, pure, or_throw, read_random, ◌>>=◌}

pub record Service : Type 0 where
  pub platform : Platform
  pub open platform use *
  -- the header of every entitlement, encoded
  pub encoded_header : Bytes
  pub idempotency_key : Bytes
  pub database_key : Bytes
  pub rate_limit_key : Bytes
  pub email_lookup_key : Bytes

unfoldable pub response_error : ℕ → String → String → Response
response_error status code message = record {
  status = status;
  body = [];
  error_code = code;
  error_message = message;
  retry_after_seconds = 0;
}

unfoldable pub with_body : ℕ → Bytes → Response
with_body status body = record {
  status = status;
  body = body;
  error_code = "";
  error_message = "";
  retry_after_seconds = 0;
}

unfoldable pub database_busy_response : Response
unfolding response_error
database_busy_response =
    record (response_error 503 "temporarily_unavailable"
      "The service is temporarily unavailable.") { retry_after_seconds = 1 }

abbrev pub has_prefix : Bytes → Bytes → Bool
has_prefix [] value = true
has_prefix (p ∷ prefix) [] = false
has_prefix (p ∷ prefix) (c ∷ value) = p == c && has_prefix prefix value

abbrev pub drop : {A : Type 0} → ℕ → List A → List A
drop zero xs = xs
drop (suc n) [] = []
drop (suc n) (x ∷ xs) = drop n xs

abbrev pub take : {A : Type 0} → ℕ → List A → List A
take zero xs = []
take (suc n) [] = []
take (suc n) (x ∷ xs) = x ∷ take n xs

-- `EncodedLen` of base64.RawURLEncoding.
abbrev pub encoded_length : ℕ → ℕ
encoded_length n = (n * 8 + 5) / 6

unfoldable pub random_value : Service → Bytes → ℕ → M Bytes
random_value s prefix n = do value ← read_random n; pure (prefix ++ s.base64_url value)

abbrev pub decodes_to : Option Bytes → ℕ → Bool
decodes_to none n = false
decodes_to (some decoded) n = length decoded == n

unfoldable pub random_value_valid : Service → Bytes → Bytes → ℕ → Bool
random_value_valid s value prefix n =
    length value == length prefix + encoded_length n
    && has_prefix prefix value
    && decodes_to (s.base64_url_decode (drop (length prefix) value)) n

unfoldable pub random_value_hash : Service → Bytes → Bytes → ℕ → Option Bytes
unfolding random_value_valid
random_value_hash s value prefix n =
    if random_value_valid s value prefix n then some (s.sha256 value) else none

-- The nonce size of `cipher.NewGCM`.
abbrev pub nonce_size : ℕ
nonce_size = 12

unfoldable pub seal : Service → Bytes → Bytes → Bytes → M Bytes
seal s key plaintext additional = do
  nonce ← read_random nonce_size
  pure (nonce ++ s.aead_seal key nonce plaintext additional)

unfoldable pub open_sealed : Service → Bytes → Bytes → Bytes → Option Bytes
open_sealed s key ciphertext additional =
    if ltb (length ciphertext) nonce_size
    then none
    else s.aead_open key (take nonce_size ciphertext) (drop nonce_size ciphertext) additional

unfoldable pub marshal_or_throw : Service → Json → M Bytes
marshal_or_throw s json = or_throw (s.marshal json) encoding

abbrev pub field : Bytes → Json → Members
field name value = member name value end
