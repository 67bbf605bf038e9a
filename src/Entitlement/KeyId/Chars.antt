-- ===== src/Entitlement/KeyId/Chars.antt =====
-- internal/entitlement/issuer.go: the key IDs that ValidateKeyID accepts.
use glass_eqserver.Prelude.{ℕ, ◌≤◌, true, Bytes, [], ◌∷◌, ◌≡◌, ◌↔◌, ◌⊎◌, length, arith}
use glass_eqserver.Entitlement.KeyId.{is_key_id_char, key_id_chars, validate_key_id}

abbrev pub IsKeyIdChar : ℕ → Type 0
IsKeyIdChar c =
    ((b'a' ≤ c) × (c ≤ b'z'))
    ⊎ ((b'A' ≤ c) × (c ≤ b'Z'))
    ⊎ ((b'0' ≤ c) × (c ≤ b'9'))
    ⊎ (c ≡ b'.')
    ⊎ (c ≡ b'_')
    ⊎ (c ≡ b'-')

abbrev pub AllChars : Bytes → Type 0
AllChars [] = Unit
AllChars (c ∷ rest) = IsKeyIdChar c × AllChars rest

char_iff : (c : ℕ) → (is_key_id_char c ≡ true) ↔ IsKeyIdChar c
unfolding is_key_id_char
char_iff c = ground arith

chars_iff : (value : Bytes) → (key_id_chars value ≡ true) ↔ AllChars value
unfolding key_id_chars
chars_iff [] = ground arith
chars_iff (c ∷ rest) = ground (arith, char_iff c, chars_iff rest)

-- A key ID is accepted exactly when it has 1 to 128 bytes, each a letter, a digit, a dot, an
-- underscore or a hyphen.
pub validate_key_id_iff :
    (value : Bytes)
    → (validate_key_id value ≡ true) ↔ ((1 ≤ length value) × (length value ≤ 128) × AllChars value)
unfolding validate_key_id
validate_key_id_iff value = ground (arith, chars_iff value)
