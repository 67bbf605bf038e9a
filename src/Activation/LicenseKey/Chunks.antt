-- ===== src/Activation/LicenseKey/Chunks.antt =====
-- internal/activation/license_key.go: cutting an encoded key into groups, and normalizing a text
-- piece by piece.
use glass_eqserver.Prelude.{
  ℕ, zero, suc, ◌+◌, Bool, true, ◌&&◌, not, Bytes, [], ◌∷◌, ◌++◌, some, ◌≡◌, refl, ap, leb, ◌==◌,
  length, arith, Option-cases, inl, inr, if◌then◌else◌,
}
use glass_eqserver.Store.Effect.{split_at}
use glass_eqserver.Activation.Service.{take, drop}
use glass_eqserver.Activation.LicenseKey.{
  key_alphabet, in_alphabet, is_key_char, all_in_alphabet, upper_case, normalize_chars,
}

drop-nil : (n : ℕ) → drop {A = ℕ} n [] ≡ []
drop-nil zero = refl
drop-nil (suc n) = refl

take-append-drop : (n : ℕ) (xs : Bytes) → take n xs ++ drop n xs ≡ xs
take-append-drop zero xs = refl
take-append-drop (suc n) [] = refl
take-append-drop (suc n) (x ∷ xs) = rw (take-append-drop n xs)

-- The next group and what follows it.
pub take-append-drop_at :
    (n k m : ℕ) (xs : Bytes) → m ≡ k + n → take n (drop k xs) ++ drop m xs ≡ drop k xs
take-append-drop_at n zero m xs h =
    let same : m ≡ n = omega arith in rw same (take-append-drop n xs)
take-append-drop_at zero (suc k) m [] h = rw (drop-nil m)
take-append-drop_at (suc n) (suc k) m [] h = rw (drop-nil m)
take-append-drop_at n (suc k) zero (x ∷ xs) h = absurd (omega arith)
take-append-drop_at n (suc k) (suc m) (x ∷ xs) h = take-append-drop_at n k m xs (omega arith)

pub length-append : (xs ys : Bytes) → length (xs ++ ys) ≡ length xs + length ys
length-append [] ys = omega arith
length-append (x ∷ xs) ys = omega (arith, length-append xs ys)

pub normalize-append :
    (xs ys : Bytes) → normalize_chars (xs ++ ys) ≡ normalize_chars xs ++ normalize_chars ys
unfolding normalize_chars
normalize-append [] ys = refl
normalize-append (x ∷ xs) ys = ground (arith, normalize-append xs ys)

-- A character that normalizing keeps.
abbrev is_kept : ℕ → Bool
is_kept c = not (c == b'-') && not (leb b'a' c && leb c b'z')

all_kept : Bytes → Bool
all_kept [] = true
all_kept (c ∷ rest) = is_kept c && all_kept rest

kept_of_mem :
    (c : ℕ) (alphabet : Bytes)
    → all_kept alphabet ≡ true
    → in_alphabet c alphabet ≡ true
    → is_kept c ≡ true
unfolding all_kept in_alphabet
kept_of_mem c [] h m = cc
kept_of_mem c (a ∷ rest) h m = ground (arith, kept_of_mem c rest)

alphabet_kept : all_kept key_alphabet ≡ true
unfolding all_kept
alphabet_kept = refl

key_char_kept : (c : ℕ) → is_key_char c ≡ true → is_kept c ≡ true
unfolding is_key_char
key_char_kept c h = kept_of_mem c key_alphabet alphabet_kept h

pub normalize-alphabet : (e : Bytes) → all_in_alphabet e ≡ true → normalize_chars e ≡ e
unfolding all_in_alphabet normalize_chars upper_case
normalize-alphabet [] h = refl
normalize-alphabet (c ∷ rest) h = ground (arith, key_char_kept c, normalize-alphabet rest)

pub all_in_alphabet-drop :
    (n : ℕ) (e : Bytes) → all_in_alphabet e ≡ true → all_in_alphabet (drop n e) ≡ true
unfolding all_in_alphabet
all_in_alphabet-drop zero e h = h
all_in_alphabet-drop (suc n) [] h = h
all_in_alphabet-drop (suc n) (c ∷ rest) h = ground (arith, all_in_alphabet-drop n rest)

pub all_in_alphabet-take :
    (n : ℕ) (e : Bytes) → all_in_alphabet e ≡ true → all_in_alphabet (take n e) ≡ true
unfolding all_in_alphabet
all_in_alphabet-take zero e h = refl
all_in_alphabet-take (suc n) [] h = refl
all_in_alphabet-take (suc n) (c ∷ rest) h = ground (arith, all_in_alphabet-take n rest)

pub split_at-length :
    (n : ℕ) (bytes taken left : Bytes) → split_at n bytes ≡ some (taken, left) → length taken ≡ n
split_at-length zero bytes taken left h = ground arith
split_at-length (suc n) [] taken left h = cc
split_at-length (suc n) (b ∷ bytes) taken left h = elim (Option-cases (split_at n bytes)) [
  | inl e ↦ ground arith
  | inr ((t, l), e) ↦ ground (arith, split_at-length n bytes t l)
]

lower_case : ℕ → ℕ
lower_case c = if leb b'A' c && leb c b'Z' then c + 32 else c

pub lower_cased : Bytes → Bytes
unfolding lower_case
lower_cased [] = []
lower_cased (c ∷ rest) = lower_case c ∷ lower_cased rest

pub length-lower_cased : (v : Bytes) → length (lower_cased v) ≡ length v
unfolding lower_cased
length-lower_cased [] = refl
length-lower_cased (c ∷ rest) = ap suc (length-lower_cased rest)

pub normalize-lower_cased : (v : Bytes) → normalize_chars (lower_cased v) ≡ normalize_chars v
unfolding lower_cased normalize_chars upper_case
normalize-lower_cased [] = refl
normalize-lower_cased (c ∷ rest) = ground (arith, normalize-lower_cased rest)
