-- ===== src/Prelude/Rows.antt =====
-- Tables as lists of rows: what SELECT, count, UPDATE and DELETE with a WHERE clause do to them.
use Prim.Native.Nat.{ℕ, suc, ◌≤◌}
use mathlib.Core.Path.{◌≡◌, refl, ap, fun_ext}
use mathlib.Core.Bool.{Bool, true, false}
use mathlib.Core.List.{List, [], ◌∷◌}
use mathlib.Core.Option.{Option, none, some}
use native.Mathlib.Omega.{arith}
use glass_eqserver.Prelude.Tests.{is_some, if◌then◌else◌}

module _ {ℓ} {A : Type ℓ} where
  abbrev pub length : List A → ℕ
  length [] = 0
  length (x ∷ xs) = suc (length xs)

  -- The first row that a WHERE clause keeps.
  unfoldable pub find_row : (A → Bool) → List A → Option A
  find_row p [] = none
  find_row p (x ∷ xs) = if p x then some x else find_row p xs

  unfoldable pub count_rows : (A → Bool) → List A → ℕ
  count_rows p [] = 0
  count_rows p (x ∷ xs) = if p x then suc (count_rows p xs) else count_rows p xs

  unfoldable pub select_rows : (A → Bool) → List A → List A
  select_rows p [] = []
  select_rows p (x ∷ xs) = if p x then x ∷ select_rows p xs else select_rows p xs

  unfoldable pub update_rows : (A → Bool) → (A → A) → List A → List A
  update_rows p f [] = []
  update_rows p f (x ∷ xs) = (if p x then f x else x) ∷ update_rows p f xs

  unfoldable pub delete_rows : (A → Bool) → List A → List A
  delete_rows p [] = []
  delete_rows p (x ∷ xs) = if p x then delete_rows p xs else x ∷ delete_rows p xs

  abbrev pub exists_row : (A → Bool) → List A → Bool
  exists_row p xs = is_some (find_row p xs)

  -- No two rows are the same under the test: a UNIQUE constraint.
  abbrev pub Distinct : (A → A → Bool) → List A → Type ℓ
  Distinct same [] = Unit
  Distinct same (x ∷ xs) = (find_row (same x) xs ≡ none) × Distinct same xs

  pub find_row-holds : (p : A → Bool) (xs : List A) (x : A) → find_row p xs ≡ some x → p x ≡ true
  unfolding find_row
  find_row-holds p [] x h = cc
  find_row-holds p (y ∷ ys) x h = ground (arith, find_row-holds p ys x)

  pub find-update :
      (p q : A → Bool) (f : A → A)
      → ((x : A) → q (f x) ≡ q x)
      → (xs : List A) → find_row q xs ≡ none
      → find_row q (update_rows p f xs) ≡ none
  unfolding find_row update_rows
  find-update p q f keeps [] h = refl
  find-update p q f keeps (x ∷ xs) h = ground (arith, keeps x, find-update p q f keeps xs)

  pub find-delete :
      (p q : A → Bool) (xs : List A) → find_row q xs ≡ none → find_row q (delete_rows p xs) ≡ none
  unfolding find_row delete_rows
  find-delete p q [] h = refl
  find-delete p q (x ∷ xs) h = ground (arith, find-delete p q xs)

  pub count-delete : (p : A → Bool) (xs : List A) → count_rows p (delete_rows p xs) ≡ 0
  unfolding count_rows delete_rows
  count-delete p [] = refl
  count-delete p (x ∷ xs) = ground (arith, count-delete p xs)

  pub count-delete-le :
      (p q : A → Bool) (xs : List A) → count_rows p (delete_rows q xs) ≤ count_rows p xs
  unfolding count_rows delete_rows
  count-delete-le p q [] = omega arith
  count-delete-le p q (x ∷ xs) = ground (arith, count-delete-le p q xs)

module _ {ℓ} {A : Type ℓ} (same : A → A → Bool) where
  pub delete-Distinct :
      (p : A → Bool) (xs : List A) → Distinct same xs → Distinct same (delete_rows p xs)
  unfolding delete_rows
  delete-Distinct p [] d = tt
  delete-Distinct p (x ∷ xs) d =
      ground (arith, delete-Distinct p xs d.1, find-delete p (same x) xs d.0)

  -- An update that leaves the columns of the constraint alone.
  pub update-Distinct :
      (p : A → Bool) (f : A → A)
      → ((x y : A) → same x (f y) ≡ same x y)
      → ((x y : A) → same (f x) y ≡ same x y)
      → (xs : List A) → Distinct same xs
      → Distinct same (update_rows p f xs)
  unfolding update_rows
  update-Distinct p f right left [] d = tt
  update-Distinct p f right left (x ∷ xs) d = ground (
    arith,
    update-Distinct p f right left xs d.1,
    find-update p (same x) f (right x) xs d.0,
    ap (λ (q : A → Bool). find_row q (update_rows p f xs)) (fun_ext (left x)),
  )

module _ {ℓ} {A : Type ℓ} (R : A → A → Type ℓ) where
  -- The tables have the same rows in the same order, each related to the row in its place.
  abbrev pub RowByRow : List A → List A → Type ℓ
  RowByRow [] ys = ys ≡ []
  RowByRow (x ∷ xs) ys = (y : A) × (rest : List A) × (ys ≡ y ∷ rest) × R x y × RowByRow xs rest

  pub update-RowByRow :
      (p : A → Bool) (f : A → A)
      → ((x : A) → p x ≡ true → R x (f x))
      → ((x : A) → p x ≡ false → R x x)
      → (xs : List A) → RowByRow xs (update_rows p f xs)
  unfolding update_rows
  update-RowByRow p f changed kept [] = refl
  update-RowByRow p f changed kept (x ∷ xs) =
      (_, _, refl, row (p x) refl, update-RowByRow p f changed kept xs)
    where
      row : (b : Bool) → p x ≡ b → R x (if b then f x else x)
      row true h = changed x h
      row false h = kept x h
