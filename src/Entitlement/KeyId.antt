-- ===== src/Entitlement/KeyId.antt =====
-- internal/entitlement/issuer.go: ValidateKeyID. Go ranges over runes; a byte above 127 begins or
-- continues a rune that is no allowed character, so the bytes decide.
pub mod Chars
use glass_eqserver.Prelude.{
  ℕ, Bool, true, false, ◌&&◌, ◌||◌, Bytes, List, [], ◌∷◌, ltb, leb, ◌==◌, length, if◌then◌else◌,
}

unfoldable pub is_key_id_char : ℕ → Bool
is_key_id_char c =
    (leb b'a' c && leb c b'z')
    || (leb b'A' c && leb c b'Z')
    || (leb b'0' c && leb c b'9')
    || c == b'.'
    || c == b'_'
    || c == b'-'

unfoldable pub key_id_chars : Bytes → Bool
unfolding is_key_id_char
key_id_chars [] = true
key_id_chars (c ∷ rest) = if is_key_id_char c then key_id_chars rest else false

-- True where Go returns nil.
unfoldable pub validate_key_id : Bytes → Bool
unfolding key_id_chars
validate_key_id value =
    if length value == 0 || ltb 128 (length value) then false else key_id_chars value
