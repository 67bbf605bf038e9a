-- ===== src/Activation/LicenseKey.antt =====
-- internal/activation/license_key.go: generating a license key and reading one that a user types.
pub mod Chunks
pub mod RoundTrip
use glass_eqserver.Prelude.{
  ℕ, ◌+◌, ◌-◌, Bool, true, false, ◌&&◌, ◌||◌, not, Bytes, codes, List, [], ◌∷◌, ◌++◌, ltb, leb,
  ◌==◌, length, if◌then◌else◌,
}
use glass_eqserver.Store.Effect.{M, pure, read_random, ◌>>=◌, ◌>>◌}
use glass_eqserver.Activation.Service.{Service, has_prefix, drop, take}

abbrev pub key_prefix : Bytes
key_prefix = codes "GEQ1"

abbrev pub key_byte_count : ℕ
key_byte_count = 16

-- `licenseKeyEncoding.EncodedLen(16)`: 128 bits, five to a character.
abbrev pub key_encoded_length : ℕ
key_encoded_length = 26

abbrev pub key_alphabet : Bytes
key_alphabet = codes "0123456789ABCDEFGHJKMNPQRSTVWXYZ"

unfoldable pub in_alphabet : ℕ → Bytes → Bool
in_alphabet c [] = false
in_alphabet c (a ∷ rest) = a == c || in_alphabet c rest

unfoldable pub is_key_char : ℕ → Bool
unfolding in_alphabet
is_key_char c = in_alphabet c key_alphabet

unfoldable pub all_in_alphabet : Bytes → Bool
all_in_alphabet [] = true
all_in_alphabet (c ∷ rest) = if is_key_char c then all_in_alphabet rest else false

-- The display form and the normalized form of an encoded key.
unfoldable pub display_key : Bytes → Bytes
display_key e =
    key_prefix
    ++ (b'-'
        ∷ (take 5 e
            ++ (b'-'
                ∷ (take 5 (drop 5 e)
                    ++ (b'-'
                        ∷ (take 5 (drop 10 e)
                            ++ (b'-'
                                ∷ (take 5 (drop 15 e)
                                    ++ (b'-' ∷ (take 5 (drop 20 e) ++ (b'-' ∷ drop 25 e)))))))))))

unfoldable pub generate_license_key : Service → M (Bytes × Bytes)
generate_license_key s = do
  value ← read_random key_byte_count
  let encoded = s.base32 value
  pure (display_key encoded, key_prefix ++ encoded)

unfoldable pub upper_case : ℕ → ℕ
upper_case c = if leb b'a' c && leb c b'z' then c - 32 else c

-- Dashes are dropped and letters raised.
unfoldable pub normalize_chars : Bytes → Bytes
unfolding upper_case
normalize_chars [] = []
normalize_chars (c ∷ rest) =
    if c == b'-' then normalize_chars rest else upper_case c ∷ normalize_chars rest

unfoldable pub is_normal_key : Bytes → Bool
unfolding all_in_alphabet
is_normal_key result =
    length result == length key_prefix + key_encoded_length
    && has_prefix key_prefix result
    && all_in_alphabet (drop (length key_prefix) result)

-- The text that is hashed, and whether it has the form of a license key.
unfoldable pub normalize_license_key : Bytes → Bytes × Bool
unfolding normalize_chars is_normal_key
normalize_license_key value =
    if length value == 0 || ltb 128 (length value)
    then (value, false)
    else (normalize_chars value, is_normal_key (normalize_chars value))
