-- ===== src/Activation/LicenseKey/RoundTrip.antt =====
-- internal/activation/license_key.go: a generated key is accepted in every form in which it is
-- typed, and the normalized form is the one that was hashed.
use glass_eqserver.Prelude.{
  ℕ, zero, suc, inl, inr, Option-cases, ◌+◌, ◌≤◌, true, Bytes, [], ◌∷◌, ◌++◌, ◌≡◌, refl, ap, length,
  arith,
}
use glass_eqserver.Store.Tables.{Db}
use glass_eqserver.Store.Effect.{Env, next, ◌>>=◌, pure, read_random, split_at}
use glass_eqserver.Activation.Service.{Service, take, drop}
use glass_eqserver.Activation.LicenseKey.{
  key_prefix, all_in_alphabet, display_key, generate_license_key, normalize_chars, is_normal_key,
  normalize_license_key,
}
use glass_eqserver.Activation.LicenseKey.Chunks.{
  take-append-drop_at, length-append, normalize-append, normalize-alphabet, all_in_alphabet-drop,
  all_in_alphabet-take, split_at-length, lower_cased, length-lower_cased, normalize-lower_cased,
}

-- The documented result of base32 without padding: 26 characters of the alphabet for 16 bytes.
abbrev pub EncodesKeys : Service → Type 0
EncodesKeys s =
    (bytes : Bytes)
    → length bytes ≡ 16
    → (length (s.base32 bytes) ≡ 26) × (all_in_alphabet (s.base32 bytes) ≡ true)

module _ (e : Bytes) (fine : all_in_alphabet e ≡ true) where
  normalize-group : (k : ℕ) → normalize_chars (take 5 (drop k e)) ≡ take 5 (drop k e)
  normalize-group k =
      normalize-alphabet _ (all_in_alphabet-take 5 _ (all_in_alphabet-drop k e fine))

  -- A dash and a group, before what is already known.
  normalize-next :
      (k m : ℕ) (rest : Bytes)
      → m ≡ k + 5
      → normalize_chars rest ≡ drop m e
      → normalize_chars (take 5 (drop k e) ++ (b'-' ∷ rest)) ≡ drop k e
  unfolding normalize_chars
  normalize-next k m rest h r =
      rw (normalize-append (take 5 (drop k e)) (b'-' ∷ rest), normalize-group k, r)
        (take-append-drop_at 5 k m e h)

  normalize-display : normalize_chars (display_key e) ≡ key_prefix ++ e
  unfolding display_key normalize_chars
  normalize-display =
      ap (λ (x : Bytes). key_prefix ++ x)
        (normalize-next 0 5 _ refl (
          normalize-next 5 10 _ refl (
            normalize-next 10 15 _ refl (
              normalize-next 15 20 _ refl (
                normalize-next 20 25 _ refl
                  (normalize-alphabet _ (all_in_alphabet-drop 25 e fine)))))))

length-take-le : (n : ℕ) (xs : Bytes) → length (take n xs) ≤ n
length-take-le zero xs = omega arith
length-take-le (suc n) [] = omega arith
length-take-le (suc n) (x ∷ xs) = omega (arith, length-take-le n xs)

length-drop-le : (n : ℕ) (xs : Bytes) → length (drop n xs) ≤ length xs
length-drop-le zero xs = omega arith
length-drop-le (suc n) [] = omega arith
length-drop-le (suc n) (x ∷ xs) = omega (arith, length-drop-le n xs)

length-group :
    (k : ℕ) (e rest : Bytes) (n : ℕ)
    → length rest ≤ n
    → length (take 5 (drop k e) ++ (b'-' ∷ rest)) ≤ 6 + n
length-group k e rest n h =
    omega (arith, length-append (take 5 (drop k e)) (b'-' ∷ rest), length-take-le 5 (drop k e))

length-display : (e : Bytes) → length e ≡ 26 → length (display_key e) ≤ 128
unfolding display_key
length-display e h =
    let tail : length (drop 25 e) ≤ 26 = omega (arith, length-drop-le 25 e) in
    let groups = length-group 0 e _ _ (
      length-group 5 e _ _
        (length-group 10 e _ _ (length-group 15 e _ _ (length-group 20 e _ 26 tail)))) in
    omega arith

display_pos : (e : Bytes) → 1 ≤ length (display_key e)
unfolding display_key
display_pos e = omega arith

-- A text that normalizes to a well-formed key and is not too long is accepted.
accepts :
    (v e : Bytes)
    → 1 ≤ length v
    → length v ≤ 128
    → length e ≡ 26
    → all_in_alphabet e ≡ true
    → normalize_chars v ≡ key_prefix ++ e
    → normalize_license_key v ≡ (key_prefix ++ e, true)
unfolding normalize_license_key is_normal_key
accepts v e low high size fine h = ground arith

-- The two results of the generator, for the bytes that it drew.
generated :
    (s : Service) (d d' : Db) (v v' : Env) (display normalized : Bytes)
    → generate_license_key s d v ≡ (next (display, normalized), d', v')
    → (bytes : Bytes) × (length bytes ≡ 16)
      × (display ≡ display_key (s.base32 bytes))
      × (normalized ≡ key_prefix ++ s.base32 bytes)
unfolding generate_license_key ◌>>=◌ pure read_random
generated s d d' v v' display normalized h = elim (Option-cases (split_at 16 v.entropy)) [
  | inl e ↦ ground arith
  | inr ((bytes, left), e) ↦
      (bytes, split_at-length 16 v.entropy bytes left e, ground arith, ground arith)
]

-- If 16 bytes are encoded as 26 characters of the key alphabet, then whatever the random source
-- gives, a generated key is accepted in its display form and in that form typed in lower case, and
-- both normalize to the text whose hash is stored.
pub normalize-generate_license_key :
    (s : Service) (encodes : EncodesKeys s) (d d' : Db) (v v' : Env) (display normalized : Bytes)
    → generate_license_key s d v ≡ (next (display, normalized), d', v')
    → (normalize_license_key display ≡ (normalized, true))
      × (normalize_license_key (lower_cased display) ≡ (normalized, true))
normalize-generate_license_key s encodes d d' v v' display normalized h =
    let (bytes, drawn, shown, stored) = generated s d d' v v' display normalized h in
    let (size, fine) = encodes bytes drawn in
    let e : Bytes = s.base32 bytes in
    let short = length-display e size in
    rw (shown, stored)
      (
        accepts (display_key e) e (display_pos e) short size fine (normalize-display e fine),
        accepts (lower_cased (display_key e)) e (rw length-lower_cased (display_pos e))
            (rw length-lower_cased short) size fine
            (rw normalize-lower_cased (normalize-display e fine)),
      )
