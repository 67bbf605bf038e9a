-- ===== src/Activation/Activate/Places.antt =====
-- internal/activation/service.go: the places that a license's active installations take, through
-- each of the statements that write to `activations`.
use glass_eqserver.Prelude.{
  ℕ, ◌≤◌, ◌<◌, Bool, true, false, Bytes, List, [], ◌∷◌, none, some, ◌≡◌, refl, sym, ◌∙◌, ◌⊎◌, inl,
  inr, ap, arith, bytes_eq, bytes_eq_refl, bytes_eq→eq, find_row, find_row-holds, count_rows,
  update_rows, exists_row, Distinct, update-Distinct, count-cons, count-update-le,
  count-update_found, Bool-cases,
}
use glass_eqserver.Store.Tables.{Time, Activation, Db}
use glass_eqserver.Activation.Activate.{
  at_installation, counts_for, is_running, has_id, reactivated, collides, update_activation,
  insert_activation, maximum_activations,
}

-- `has_id a.id`, as a test on two rows.
abbrev pub same_id : Activation → Activation → Bool
same_id a b = has_id a.id b

-- The primary key holds, and no license has more than two active activations.
pub record IsLimited (rows : List Activation) : Type 0 where
  pub ids : Distinct same_id rows
  pub limit : (l : Bytes) → count_rows (counts_for l) rows ≤ maximum_activations

bytes_eq_comm : (x y : Bytes) → bytes_eq x y ≡ bytes_eq y x
bytes_eq_comm x y = elim (Bool-cases (bytes_eq x y)) [
  | inl e ↦ rw (bytes_eq→eq x y e)
  | inr e ↦ elim (Bool-cases (bytes_eq y x)) [
    | inl e' ↦ rw (bytes_eq→eq y x e')
    | inr e' ↦ rw (e, e')
  ]
]

find_none_of :
    (p q : Activation → Bool)
    → ((x : Activation) → q x ≡ true → p x ≡ true)
    → (xs : List Activation) → exists_row p xs ≡ false
    → find_row q xs ≡ none
unfolding find_row
find_none_of p q sub [] h = refl
find_none_of p q sub (x ∷ xs) h = ground (arith, sub x, find_none_of p q sub xs)

collides_id : (a x : Activation) → same_id a x ≡ true → collides a x ≡ true
collides_id a x h = ground arith

inserted_rows :
    (a : Activation) (d d' : Db)
    → insert_activation a d ≡ some (d', tt)
    → (exists_row (collides a) d.activations ≡ false) × (d'.activations ≡ a ∷ d.activations)
unfolding insert_activation
inserted_rows a d d' e = ground arith

-- One more row of a license with a free place.
cons-limit :
    (a : Activation) (rows : List Activation) (l : Bytes)
    → IsLimited rows
    → count_rows (counts_for a.license_id) rows < maximum_activations
    → count_rows (counts_for l) (a ∷ rows) ≤ maximum_activations
cons-limit a rows l h free =
    let counted = count-cons (counts_for l) a rows in
    let old = h.limit l in
    elim (Bool-cases (bytes_eq a.license_id l)) [
      | inl e ↦
          let same : l ≡ a.license_id = sym (bytes_eq→eq a.license_id l e) in
          ground (arith, ap (λ (k : Bytes). count_rows (counts_for k) rows) same)
      | inr e ↦ ground arith
    ]

-- A new row for a license that has a free place.
pub insert_activation-IsLimited :
    (a : Activation) (d d' : Db)
    → IsLimited d.activations
    → count_rows (counts_for a.license_id) d.activations < maximum_activations
    → insert_activation a d ≡ some (d', tt)
    → IsLimited d'.activations
insert_activation-IsLimited a d d' h free e =
    let (fresh, rows) = inserted_rows a d d' e in
    rw rows (record {
      ids = (find_none_of (collides a) (same_id a) (collides_id a) d.activations fresh, h.ids);
      limit = λ l. cons-limit a d.activations l h free;
    })

-- An update that keeps the IDs keeps the primary key.
update-ids :
    (p : Activation → Bool) (f : Activation → Activation) (rows : List Activation)
    → ((x : Activation) → (f x).id ≡ x.id)
    → Distinct same_id rows
    → Distinct same_id (update_rows p f rows)
update-ids p f rows keeps =
    update-Distinct same_id p f (λ x y. rw (keeps y)) (λ x y. rw (keeps x)) rows

-- An update by which no row becomes active keeps every license within its limit.
pub update-IsLimited :
    (p : Activation → Bool) (f : Activation → Activation) (rows : List Activation)
    → ((x : Activation) → (f x).id ≡ x.id)
    → ((l : Bytes) (x : Activation) → counts_for l (f x) ≡ true → counts_for l x ≡ true)
    → IsLimited rows
    → IsLimited (update_rows p f rows)
update-IsLimited p f rows keeps falls h = record {
  ids = update-ids p f rows keeps h.ids;
  limit = λ l.
      let less = count-update-le p (counts_for l) f (λ x _. falls l x) rows in
      let old = h.limit l in omega arith;
}

updated_rows :
    (id token : Bytes) (revision : ℕ) (now : Time) (d d' : Db)
    → update_activation id token revision now d ≡ some (d', tt)
    → d'.activations ≡ update_rows (has_id id) (reactivated token revision now) d.activations
unfolding update_activation
updated_rows id token revision now d d' e = ground arith

module _ (license_id installation : Bytes) (r : Activation) (rows : List Activation)
    (h : IsLimited rows) (found : find_row (at_installation license_id installation) rows ≡ some r)
    (room : (is_running (some r) ≡ true)
      ⊎ (count_rows (counts_for license_id) rows < maximum_activations)) where
  at_license : r.license_id ≡ license_id
  at_license =
      let fits = find_row-holds (at_installation license_id installation) rows r found in
      bytes_eq→eq r.license_id license_id (ground arith)

  reactivated-limit :
      (token : Bytes) (revision : ℕ) (now : Time) (l : Bytes)
      → count_rows (counts_for l) (update_rows (same_id r) (reactivated token revision now) rows)
        ≤ maximum_activations
  reactivated-limit token revision now l =
      let exact =
        count-update_found same_id (λ x. bytes_eq_refl x.id) (λ x y. bytes_eq_comm y.id x.id)
          (at_installation license_id installation) (counts_for l) (reactivated token revision now)
          r rows h.ids found in
      let old = h.limit l in
      elim (Bool-cases (bytes_eq r.license_id l)) [
        | inl e ↦
            let same : l ≡ license_id = sym (bytes_eq→eq r.license_id l e) ∙ at_license in
            ground (arith, ap (λ (k : Bytes). count_rows (counts_for k) rows) same)
        | inr e ↦ ground arith
      ]

-- The row that a SELECT found by license and installation becomes active: it was active already, or
-- its license has a free place.
pub update_activation-IsLimited :
    (license_id installation token : Bytes) (revision : ℕ) (now : Time) (r : Activation) (d d' : Db)
    → IsLimited d.activations
    → find_row (at_installation license_id installation) d.activations ≡ some r
    → (is_running (some r) ≡ true)
      ⊎ (count_rows (counts_for license_id) d.activations < maximum_activations)
    → update_activation r.id token revision now d ≡ some (d', tt)
    → IsLimited d'.activations
update_activation-IsLimited license_id installation token revision now r d d' h found room e =
    rw (updated_rows r.id token revision now d d' e) (record {
      ids = update-ids (same_id r) (reactivated token revision now) d.activations (λ x. refl) h.ids;
      limit =
          reactivated-limit license_id installation r d.activations h found room token revision now;
    })
