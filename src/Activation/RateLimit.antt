-- ===== src/Activation/RateLimit.antt =====
-- internal/activation/service.go: fixed windows of one hour that count the attempts of a client
-- address and of a license key.
pub mod Counted
pub mod Window
use glass_eqserver.Prelude.{
  ℕ, ◌+◌, Bool, true, false, ◌&&◌, Bytes, List, [], ◌∷◌, Option, none, some, ltb, ◌==◌, bytes_eq,
  find_row, update_rows, if◌then◌else◌,
}
use glass_eqserver.Store.Tables.{Time, RateKind, ip, license_key, RateLimit, Db, kind_eq}
use glass_eqserver.Store.Effect.{M, database, pure, call, execute, transact, ◌>>=◌, ◌>>◌}
use glass_eqserver.Activation.Time.{hour, truncate, retry_seconds}
use glass_eqserver.Activation.Service.{Service}

abbrev pub rate_limit_window : ℕ
rate_limit_window = 3600000000

abbrev pub license_key_attempt_limit : ℕ
license_key_attempt_limit = 20

abbrev pub ip_attempt_limit : ℕ
ip_attempt_limit = 100

abbrev pub in_window : RateKind → Bytes → Time → RateLimit → Bool
in_window kind subject start row =
    kind_eq row.kind kind && bytes_eq row.subject_hash subject && row.window_start == start

-- INSERT … ON CONFLICT DO UPDATE SET attempts = attempts + 1 RETURNING attempts.
unfoldable pub count_attempt : RateKind → Bytes → Time → Db → Option (Db × ℕ)
count_attempt kind subject start d = elim (find_row (in_window kind subject start) d.rate_limits) [
  | none ↦ some (
    record d {
      rate_limits =
          record { kind = kind; subject_hash = subject; window_start = start; attempts = 1 }
          ∷ d.rate_limits;
    },
    1,
  )
  | some row ↦ some (
    record d {
      rate_limits =
          update_rows (in_window kind subject start) (λ r. record r { attempts = r.attempts + 1 })
            d.rate_limits;
    },
    row.attempts + 1,
  )
]

unfoldable pub increment_rate_limit : RateKind → Bytes → Time → M ℕ
increment_rate_limit kind subject start = execute (count_attempt kind subject start)

-- The license key is counted only if the address is under its limit.
unfoldable pub count_license_key : Bool → Bytes → Time → M Bool
count_license_key true credential_hash start = pure true
count_license_key false credential_hash start = do
  attempts ← increment_rate_limit license_key credential_hash start
  pure (ltb license_key_attempt_limit attempts)

unfoldable pub count_attempts : Service → Bytes → Bytes → Time → M Bool
count_attempts s credential_hash client_ip start = do
  call database
  ip_attempts ←
      increment_rate_limit ip (s.hmac_sha256 s.rate_limit_key (s.addr_string client_ip)) start
  limited ← count_license_key (ltb ip_attempt_limit ip_attempts) credential_hash start
  call database
  pure limited

-- The seconds after which to retry, or 0 if the attempt is admitted. The counts are committed in
-- both cases.
unfoldable pub consume_rate_limits : Service → Bytes → Bytes → Time → M ℕ
consume_rate_limits s credential_hash client_ip now = do
  limited ← transact (count_attempts s credential_hash client_ip (truncate now rate_limit_window))
  pure (
      if limited then retry_seconds (truncate now rate_limit_window + rate_limit_window) now else 0)
