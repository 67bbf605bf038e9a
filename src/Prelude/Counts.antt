-- ===== src/Prelude/Counts.antt =====
-- How many rows satisfy a test after an UPDATE.
use Prim.Native.Nat.{ℕ, ◌+◌, ◌≤◌}
use mathlib.Core.Path.{◌≡◌, refl}
use mathlib.Core.Bool.{Bool, true, false}
use mathlib.Core.List.{List, [], ◌∷◌}
use mathlib.Core.Option.{none, some}
use native.Mathlib.Omega.{arith}
use glass_eqserver.Prelude.Rows.{find_row, count_rows, update_rows, Distinct}

abbrev pub as_number : Bool → ℕ
as_number true = 1
as_number false = 0

module _ {ℓ} {A : Type ℓ} where
  pub count-cons :
      (q : A → Bool) (x : A) (xs : List A)
      → count_rows q (x ∷ xs) ≡ as_number (q x) + count_rows q xs
  unfolding count_rows
  count-cons q x xs = ground arith

  pub update-none :
      (p : A → Bool) (f : A → A) (xs : List A) → find_row p xs ≡ none → update_rows p f xs ≡ xs
  unfolding find_row update_rows
  update-none p f [] h = refl
  update-none p f (x ∷ xs) h = ground (arith, update-none p f xs)

  -- A row that a test finds fails a test that finds none.
  pub found-fails :
      (p q : A → Bool) (xs : List A) (r : A)
      → find_row p xs ≡ some r
      → find_row q xs ≡ none
      → q r ≡ false
  unfolding find_row
  found-fails p q [] r h n = cc
  found-fails p q (x ∷ xs) r h n = ground (arith, found-fails p q xs r)

  -- An update that no row enters the count by does not raise it.
  pub count-update-le :
      (p q : A → Bool) (f : A → A)
      → ((x : A) → p x ≡ true → q (f x) ≡ true → q x ≡ true)
      → (xs : List A) → count_rows q (update_rows p f xs) ≤ count_rows q xs
  unfolding count_rows update_rows
  count-update-le p q f keeps [] = omega arith
  count-update-le p q f keeps (x ∷ xs) = ground (arith, keeps x, count-update-le p q f keeps xs)

  -- The update of the one row that a SELECT found by another test, where `same` is the key's test.
  pub count-update_found :
      (same : A → A → Bool)
      → ((x : A) → same x x ≡ true)
      → ((x y : A) → same x y ≡ same y x)
      → (g q : A → Bool) (f : A → A) (r : A) (xs : List A) → Distinct same xs
      → find_row g xs ≡ some r
      → count_rows q (update_rows (same r) f xs) + as_number (q r)
        ≡ count_rows q xs + as_number (q (f r))
  unfolding count_rows update_rows find_row
  count-update_found same reflexive symmetric g q f r [] d h = cc
  count-update_found same reflexive symmetric g q f r (x ∷ xs) d h = ground (
    arith,
    reflexive x,
    symmetric x r,
    update-none (same x) f xs d.0,
    found-fails g (same x) xs r,
    count-update_found same reflexive symmetric g q f r xs d.1,
  )
