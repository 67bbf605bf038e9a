-- ===== src/Activation/RateLimit/Window.antt =====
-- internal/activation/service.go: which attempts are refused, and the seconds they are told to wait.
use glass_eqserver.Prelude.{
  ◌-◌, ◌%◌, ℕ, ◌+◌, ◌*◌, ◌≤◌, ◌<◌, Bool, true, false, Bytes, arith, ◌≡◌, ◌⊎◌, inl, inr, refl,
  if◌then◌else◌,
}
use glass_eqserver.Store.Tables.{Time, Db}
use glass_eqserver.Store.Rules.{
  Ensures, Ensures-bind, Ensures-pure, Ensures-transact, Ensures-weaken,
}
use glass_eqserver.Activation.Time.{second, truncate, retry_seconds}
use glass_eqserver.Activation.Service.{Service}
use glass_eqserver.Activation.RateLimit.Counted.{
  CountedBoth, CountedOver, CountedAs, count_attempts-CountedAs,
}
use glass_eqserver.Activation.RateLimit.{consume_rate_limits, rate_limit_window}

-- For a deadline after `now`, the whole seconds that `retry_seconds` gives are at least one, reach
-- the deadline, and end less than a second behind it.
pub retry_seconds-reaches :
    (deadline now : Time)
    → now < deadline
    → (1 ≤ retry_seconds deadline now)
      × (deadline ≤ now + retry_seconds deadline now * second)
      × (now + retry_seconds deadline now * second < deadline + second)
unfolding retry_seconds
retry_seconds-reaches deadline now h = ground arith

next_window : (now : Time) → now < truncate now rate_limit_window + rate_limit_window
next_window now = omega arith

window_length :
    (now : Time) → retry_seconds (truncate now rate_limit_window + rate_limit_window) now ≤ 3600
unfolding retry_seconds
window_length now = ground arith

-- The attempt is admitted: no wait, and both the address and the license key are counted.
pub record IsAdmitted (address credential : Bytes) (now seconds : ℕ) (d d' : Db) : Type 0 where
  pub at_once : seconds ≡ 0
  pub counted : CountedBoth address credential (now - now % 3600000000) d d'

-- The attempt is refused: a limit is reached, and after the wait, of 1 to 3600 whole seconds, the
-- next window has begun for less than a second.
pub record IsRefused (address credential : Bytes) (now seconds : ℕ) (d d' : Db) : Type 0 where
  pub least : 1 ≤ seconds
  pub most : seconds ≤ 3600
  pub reached : now - now % 3600000000 + 3600000000 ≤ now + seconds * 1000000
  pub close : now + seconds * 1000000 < now - now % 3600000000 + 3601000000
  pub counted : CountedOver address credential (now - now % 3600000000) d d'

wait_lem :
    (address credential : Bytes) (now : Time) (d d' : Db)
    → CountedOver address credential (truncate now rate_limit_window) d d'
    → IsRefused address credential now
        (retry_seconds (truncate now rate_limit_window + rate_limit_window) now)
        d
        d'
wait_lem address credential now d d' h =
    let (least, reached, close) =
      retry_seconds-reaches (truncate now rate_limit_window + rate_limit_window) now
        (next_window now) in
    record {
      least = least;
      most = window_length now;
      reached = reached;
      close = omega (arith, close);
      counted = h;
    }

answer_lem :
    (address credential : Bytes) (now : Time) (d d' : Db) (limited : Bool)
    → CountedAs address credential (truncate now rate_limit_window) limited d d'
    → let seconds =
        if limited
        then retry_seconds (truncate now rate_limit_window + rate_limit_window) now
        else 0 in
      IsAdmitted address credential now seconds d d' ⊎ IsRefused address credential now seconds d d'
answer_lem address credential now d d' false h = inl (record { at_once = refl; counted = h })
answer_lem address credential now d d' true h = inr (wait_lem address credential now d d' h)

-- An attempt that is counted is admitted or refused. It is admitted, with no wait, where the
-- address had fewer than 100 attempts in this hour's window and the license key fewer than 20; both
-- then have one more. It is refused where either had reached its limit: the address has one more,
-- and so has the license key, unless the address was at its limit; the wait is 1 to 3600 whole
-- seconds, and ends less than a second after the next window has begun. Only the counts change.
pub consume_rate_limits-window :
    (s : Service) (credential_hash client_ip : Bytes) (now : Time) (d : Db)
    → Ensures (consume_rate_limits s credential_hash client_ip now) d (λ seconds d'.
      let address = s.hmac_sha256 s.rate_limit_key (s.addr_string client_ip) in
      IsAdmitted address credential_hash now seconds d d'
      ⊎ IsRefused address credential_hash now seconds d d')
unfolding consume_rate_limits
consume_rate_limits-window s credential_hash client_ip now d = Ensures-bind _ _ (
    Ensures-transact _ (
      Ensures-weaken _
        (count_attempts-CountedAs s credential_hash client_ip (truncate now rate_limit_window) d)
        λ limited d' h. Ensures-pure _ (answer_lem _ credential_hash now d d' limited h)))
