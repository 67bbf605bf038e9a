-- ===== src/Activation/RateLimit/Counted.antt =====
-- internal/activation/service.go: the attempts that a window has, before and after one is counted.
use glass_eqserver.Prelude.{
  ℕ, ◌+◌, ◌≤◌, ◌<◌, Bool, true, false, ◌&&◌, Bytes, List, [], ◌∷◌, Option, none, some, ltb, ◌==◌,
  ◌≡◌, ◌⊎◌, inl, inr, refl, Bool-cases, Option-cases, bytes_eq, bytes_eq_refl, find_row,
  update_rows, arith, if◌then◌else◌,
}
use glass_eqserver.Store.Tables.{
  Time, RateKind, ip, license_key, recovery_ip, recovery_email, RateLimit, Db, kind_eq,
}
use glass_eqserver.Store.Rules.{
  Ensures, Ensures-pure, Ensures-execute, Ensures-bind, Ensures-weaken, after_call,
}
use glass_eqserver.Activation.Service.{Service}
use glass_eqserver.Activation.RateLimit.{
  in_window, count_attempt, increment_rate_limit, count_license_key, count_attempts,
}

-- The attempts of a subject in the window that begins at `start`.
abbrev pub attempts_in : RateKind → Bytes → Time → List RateLimit → ℕ
attempts_in kind subject start [] = 0
attempts_in kind subject start (row ∷ rows) =
    if kind_eq row.kind kind && bytes_eq row.subject_hash subject && row.window_start == start
    then row.attempts
    else attempts_in kind subject start rows

-- Both the address and the license key are under their limits, and are counted.
pub record CountedBoth (address credential : Bytes) (start : Time) (d d' : Db) : Type 0 where
  pub address_under : attempts_in ip address start d.rate_limits < 100
  pub credential_under : attempts_in license_key credential start d.rate_limits < 20
  pub address_raised :
      attempts_in ip address start d'.rate_limits ≡ attempts_in ip address start d.rate_limits + 1
  pub credential_raised :
      attempts_in license_key credential start d'.rate_limits
      ≡ attempts_in license_key credential start d.rate_limits + 1
  pub others : d' ≡ record d { rate_limits = d'.rate_limits }

-- The address is at its limit, and the license key is not counted; or the license key is at its
-- own.
pub record CountedOver (address credential : Bytes) (start : Time) (d d' : Db) : Type 0 where
  pub over :
      ((100 ≤ attempts_in ip address start d.rate_limits)
        × (attempts_in license_key credential start d'.rate_limits
            ≡ attempts_in license_key credential start d.rate_limits))
      ⊎ ((attempts_in ip address start d.rate_limits < 100)
          × (20 ≤ attempts_in license_key credential start d.rate_limits)
          × (attempts_in license_key credential start d'.rate_limits
              ≡ attempts_in license_key credential start d.rate_limits + 1))
  pub address_raised :
      attempts_in ip address start d'.rate_limits ≡ attempts_in ip address start d.rate_limits + 1
  pub others : d' ≡ record d { rate_limits = d'.rate_limits }

module _ (kind : RateKind) (subject : Bytes) (start : Time) where
  attempts_none :
      (rows : List RateLimit)
      → find_row (in_window kind subject start) rows ≡ none
      → attempts_in kind subject start rows ≡ 0
  unfolding find_row
  attempts_none [] h = refl
  attempts_none (row ∷ rows) h = ground (arith, attempts_none rows)

  attempts_found :
      (rows : List RateLimit) (row : RateLimit)
      → find_row (in_window kind subject start) rows ≡ some row
      → attempts_in kind subject start rows ≡ row.attempts
  unfolding find_row
  attempts_found [] row h = cc
  attempts_found (r ∷ rows) row h = ground (arith, attempts_found rows row)

  raised_lem :
      (rows : List RateLimit) (row : RateLimit)
      → find_row (in_window kind subject start) rows ≡ some row
      → attempts_in kind subject start (
          update_rows
            (in_window kind subject start)
            (λ r. record r { attempts = r.attempts + 1 })
            rows)
        ≡ row.attempts + 1
  unfolding find_row update_rows
  raised_lem [] row h = cc
  raised_lem (r ∷ rows) row h = ground (arith, raised_lem rows row)

  -- A row of another kind does not count.
  other_kept :
      (kind' : RateKind) (subject' : Bytes)
      → ((k : RateKind) → kind_eq k kind ≡ true → kind_eq k kind' ≡ false)
      → (rows : List RateLimit)
      → attempts_in kind' subject' start (
          update_rows
            (in_window kind subject start)
            (λ r. record r { attempts = r.attempts + 1 })
            rows)
        ≡ attempts_in kind' subject' start rows
  unfolding update_rows
  other_kept kind' subject' apart [] = refl
  other_kept kind' subject' apart (r ∷ rows) =
      ground (arith, apart r.kind, other_kept kind' subject' apart rows)

-- One attempt more of a kind, and none of the other kind.
record OneMore (kind other : RateKind) (subject other_subject : Bytes) (start : Time) (n : ℕ)
    (d d' : Db) : Type 0 where
  number : n ≡ attempts_in kind subject start d.rate_limits + 1
  raised : attempts_in kind subject start d'.rate_limits ≡ n
  kept :
      attempts_in other other_subject start d'.rate_limits
      ≡ attempts_in other other_subject start d.rate_limits
  others : d' ≡ record d { rate_limits = d'.rate_limits }

module _ (kind other : RateKind) (subject other_subject : Bytes) (start : Time)
    (apart : (k : RateKind) → kind_eq k kind ≡ true → kind_eq k other ≡ false)
    (own : kind_eq kind kind ≡ true) where
  inserted :
      (d : Db)
      → find_row (in_window kind subject start) d.rate_limits ≡ none
      → OneMore kind other subject other_subject start 1 d (record d {
        rate_limits =
            record { kind = kind; subject_hash = subject; window_start = start; attempts = 1 }
            ∷ d.rate_limits;
      })
  inserted d h = record {
    number = omega (arith, attempts_none kind subject start d.rate_limits h);
    raised = rw (own, bytes_eq_refl subject) (ground arith);
    kept = rw (apart kind own) refl;
    others = refl;
  }

  raised_row :
      (d : Db) (row : RateLimit)
      → find_row (in_window kind subject start) d.rate_limits ≡ some row
      → OneMore kind other subject other_subject start (row.attempts + 1) d (record d {
        rate_limits =
            update_rows
              (in_window kind subject start)
              (λ r. record r { attempts = r.attempts + 1 })
              d.rate_limits;
      })
  raised_row d row h = record {
    number = omega (arith, attempts_found kind subject start d.rate_limits row h);
    raised = raised_lem kind subject start d.rate_limits row h;
    kept = other_kept kind subject start other other_subject apart d.rate_limits;
    others = refl;
  }

  transfer :
      (d d1 d' : Db) (m n : ℕ)
      → ◌≡◌ {A = Option (Db × ℕ)} (some (d1, m)) (some (d', n))
      → OneMore kind other subject other_subject start m d d1
      → OneMore kind other subject other_subject start n d d'
  transfer d d1 d' m n e h =
      let same_db : d1 ≡ d' = ground arith in
      let same_number : m ≡ n = ground arith in rw (← same_db, ← same_number) h

  increment-OneMore :
      (d : Db)
      → Ensures
          (increment_rate_limit kind subject start)
          d
          (λ n d'. OneMore kind other subject other_subject start n d d')
  unfolding increment_rate_limit count_attempt
  increment-OneMore d = Ensures-execute _ λ d' n e.
      elim (Option-cases (find_row (in_window kind subject start) d.rate_limits)) [
        | inl fresh ↦ transfer d _ d' 1 n (rw (fresh, count_attempt) at e) (inserted d fresh)
        | inr (row, found) ↦
            transfer d _ d' (row.attempts + 1) n (rw (found, count_attempt) at e)
              (raised_row d row found)
      ]

apart_ip : (k : RateKind) → kind_eq k ip ≡ true → kind_eq k license_key ≡ false
apart_ip ip h = refl
apart_ip license_key h = cc
apart_ip recovery_ip h = cc
apart_ip recovery_email h = cc

apart_key : (k : RateKind) → kind_eq k license_key ≡ true → kind_eq k ip ≡ false
apart_key ip h = cc
apart_key license_key h = refl
apart_key recovery_ip h = cc
apart_key recovery_email h = cc

-- What the transaction answers, and what it counts.
abbrev pub CountedAs : Bytes → Bytes → Time → Bool → Db → Db → Type 0
CountedAs address credential start true d d' = CountedOver address credential start d d'
CountedAs address credential start false d d' = CountedBoth address credential start d d'

module _ (credential address : Bytes) (start : Time) (d d1 : Db) (n : ℕ)
    (first : OneMore ip license_key address credential start n d d1) where
  judged :
      (m : ℕ) (d' : Db)
      → ltb 100 n ≡ false
      → OneMore license_key ip credential address start m d1 d'
      → CountedAs address credential start (ltb 20 m) d d'
  judged m d' under second =
      let below : n ≤ 100 = ground (arith, under) in
      elim (Bool-cases (ltb 20 m)) [
        | inl over ↦
            let above : 20 < m = ground (arith, over) in
            rw over (record {
              over = inr (
                omega (arith, first.number, below),
                omega (arith, second.number, first.kept, above),
                omega (arith, second.number, second.raised, first.kept),
              );
              address_raised = omega (arith, second.kept, first.raised, first.number);
              others = rw (second.others, first.others) refl;
            })
        | inr fits ↦
            let within : m ≤ 20 = ground (arith, fits) in
            rw fits (record {
              address_under = omega (arith, first.number, below);
              credential_under = omega (arith, second.number, first.kept, within);
              address_raised = omega (arith, second.kept, first.raised, first.number);
              credential_raised = omega (arith, second.number, second.raised, first.kept);
              others = rw (second.others, first.others) refl;
            })
      ]

  key-CountedAs :
      (over : Bool)
      → ltb 100 n ≡ over
      → Ensures
          (count_license_key over credential start)
          d1
          (λ limited d'. CountedAs address credential start limited d d')
  unfolding count_license_key
  key-CountedAs true over =
      let above : 100 < n = ground (arith, over) in
      Ensures-pure _ (record {
        over = inl (omega (arith, first.number, above), first.kept);
        address_raised = omega (arith, first.raised, first.number);
        others = first.others;
      })
  key-CountedAs false under = Ensures-bind _ _ (
      Ensures-weaken _ (increment-OneMore license_key ip credential address start apart_key refl d1)
        (λ m d' second. Ensures-pure _ (judged m d' under second)))

pub count_attempts-CountedAs :
    (s : Service) (credential client_ip : Bytes) (start : Time) (d : Db)
    → Ensures (count_attempts s credential client_ip start) d (λ limited d'.
      CountedAs
        (s.hmac_sha256 s.rate_limit_key (s.addr_string client_ip))
        credential
        start
        limited
        d
        d')
unfolding count_attempts
count_attempts-CountedAs s credential client_ip start d = after_call _ _ (
    Ensures-bind _ _ (
      Ensures-weaken _ (increment-OneMore ip license_key _ credential start apart_ip refl d)
        λ n d1 first. Ensures-bind _ _ (
          Ensures-weaken _ (key-CountedAs credential _ start d d1 n first _ refl)
            λ limited d' counted. after_call _ _ (Ensures-pure _ counted))))
