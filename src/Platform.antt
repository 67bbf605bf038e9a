-- ===== src/Platform.antt =====
-- What the server calls and does not implement: Go's standard library (hashes, encodings, UUIDs,
-- mail addresses, IP addresses), the AEAD cipher and the KMS signature, as parameters.
-- Structs are marshalled by `encoding/json`; the fields of a struct are listed in their order.
use glass_eqserver.Prelude.{Bool, Bytes, Option}
use glass_eqserver.Prelude.Int.{ℤ}

-- A Go value that is handed to `json.Marshal`: an object with its named members.
mutual
  pub data Json : Type 0 where
    text : Bytes → Json
    int64 : ℤ → Json
    bool : Bool → Json
    array : Items → Json
    object : Members → Json

  pub data Items : Type 0 where
    nil : Items
    cons : Json → Items → Items

  pub data Members : Type 0 where
    end : Members
    member : Bytes → Json → Members → Members

pub record Platform : Type 0 where
  pub sha256 : Bytes → Bytes
  -- the key, then the message
  pub hmac_sha256 : Bytes → Bytes → Bytes
  -- base64.RawURLEncoding: EncodeToString, and Strict().DecodeString
  pub base64_url : Bytes → Bytes
  pub base64_url_decode : Bytes → Option Bytes
  -- the base32 encoding with the alphabet of license_key.go and no padding
  pub base32 : Bytes → Bytes
  -- uuid.Parse followed by String
  pub parse_uuid : Bytes → Option Bytes
  pub to_upper : Bytes → Bytes
  pub to_lower : Bytes → Bytes
  pub trim_space : Bytes → Bytes
  -- mail.ParseAddress: the name and the address
  pub parse_address : Bytes → Option (Bytes × Bytes)
  -- netip.Addr: IsValid, Unmap, String
  pub addr_is_valid : Bytes → Bool
  pub addr_unmap : Bytes → Bytes
  pub addr_string : Bytes → Bytes
  -- AES-GCM: key, nonce, text, additional data
  pub aead_seal : Bytes → Bytes → Bytes → Bytes → Bytes
  pub aead_open : Bytes → Bytes → Bytes → Bytes → Option Bytes
  pub marshal : Json → Option Bytes
  -- the KMS signature of a message
  pub sign : Bytes → Bytes
