-- ===== src/Activation/Time.antt =====
-- Go's `time.Time` and `time.Duration` as the licensing code uses them. A time counts microseconds
-- from Go's zero time, so every handler's `Truncate(time.Microsecond)` is the identity here.
use glass_eqserver.Prelude.{
  ℕ, zero, suc, ◌+◌, ◌-◌, ◌/◌, ◌%◌, ◌^◌, Bytes, [], ◌∷◌, ◌++◌, ltb, if◌then◌else◌,
}
use glass_eqserver.Prelude.Int.{ℤ, pos, negsuc, sub_ℕ}
use glass_eqserver.Store.Tables.{Time}

abbrev pub second : ℕ
second = 1000000

abbrev pub minute : ℕ
minute = 60000000

abbrev pub hour : ℕ
hour = 3600000000

abbrev pub day : ℕ
day = 86400000000

-- Seconds from Go's zero time to the Unix epoch.
abbrev pub epoch_seconds : ℕ
epoch_seconds = 62135596800

-- `Time.Unix`: whole seconds, rounded down.
unfoldable pub unix : Time → ℤ
unix t = sub_ℕ (t / second) epoch_seconds

-- `Time.Truncate(d)` rounds down from the zero time.
abbrev pub truncate : Time → ℕ → Time
truncate t d = t - t % d

-- `max(int(math.Ceil(deadline.Sub(now).Seconds())), 1)`, for a deadline after `now`. The float64
-- that `Seconds` returns is exact enough for `Ceil`: the durations are below a day, in microseconds.
unfoldable pub retry_seconds : Time → Time → ℕ
retry_seconds deadline now =
    let seconds = (deadline - now + 999999) / second in if ltb seconds 1 then 1 else seconds

-- The n low bytes of a number, the highest first.
abbrev pub big_endian : ℕ → ℕ → Bytes
big_endian zero x = []
big_endian (suc n) x = big_endian n (x / 256) ++ ((x % 256) ∷ [])

-- `uint64` of an `int64`.
abbrev pub uint64 : ℤ → ℕ
uint64 (pos n) = n % 2 ^ 64
uint64 (negsuc n) = 2 ^ 64 - 1 - n % 2 ^ 64
