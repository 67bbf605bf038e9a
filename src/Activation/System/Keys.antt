-- ===== src/Activation/System/Keys.antt =====
-- internal/activation/rotation.go and purchase.go: the active keys of a license, through each of
-- the statements that write to `license_keys`.
use glass_eqserver.Prelude.{
  ◌≤◌, Bool, true, false, Bytes, List, [], ◌∷◌, some, ◌≡◌, refl, sym, inl, inr, ap, arith,
  bytes_eq→eq, find_row, count_rows, update_rows, delete_rows, exists_row, count-cons,
  count-update-le, count-delete-le, Bool-cases,
}
use glass_eqserver.Store.Tables.{LicenseKey, Db, key_is_active}
use glass_eqserver.Activation.Rotation.{active_key_of, key_collides, insert_key}

-- The partial unique index `license_keys_one_active_per_license`.
abbrev pub OneActiveKey : List LicenseKey → Type 0
OneActiveKey keys = (l : Bytes) → count_rows (active_key_of l) keys ≤ 1

pub count-none :
    (p q : LicenseKey → Bool) (keys : List LicenseKey)
    → ((k : LicenseKey) → q k ≡ true → p k ≡ true)
    → exists_row p keys ≡ false
    → count_rows q keys ≡ 0
unfolding find_row count_rows
count-none p q [] sub h = refl
count-none p q (k ∷ keys) sub h = ground (arith, sub k, count-none p q keys sub)

pub inserted_keys :
    (new : LicenseKey) (d d' : Db)
    → insert_key new d ≡ some (d', tt)
    → (exists_row (key_collides new) d.license_keys ≡ false)
      × (d'.license_keys ≡ new ∷ d.license_keys)
unfolding insert_key
inserted_keys new d d' e = ground arith

pub active_collides :
    (new k : LicenseKey)
    → key_is_active new.state ≡ true
    → active_key_of new.license_id k ≡ true
    → key_collides new k ≡ true
active_collides new k active h = ground arith

cons-OneActiveKey :
    (new : LicenseKey) (keys : List LicenseKey)
    → OneActiveKey keys
    → exists_row (key_collides new) keys ≡ false
    → OneActiveKey (new ∷ keys)
cons-OneActiveKey new keys h fresh l =
    let counted = count-cons (active_key_of l) new keys in
    let old = h l in
    elim (Bool-cases (active_key_of l new)) [
      | inl e ↦
          let same : l ≡ new.license_id = sym (bytes_eq→eq new.license_id l (ground arith)) in
          let empty =
            count-none (key_collides new) (active_key_of new.license_id) keys
              (λ k. active_collides new k (ground arith)) fresh in
          ground (arith, ap (λ (x : Bytes). count_rows (active_key_of x) keys) same)
      | inr e ↦ ground arith
    ]

pub insert_key-OneActiveKey :
    (new : LicenseKey) (d d' : Db)
    → OneActiveKey d.license_keys
    → insert_key new d ≡ some (d', tt)
    → OneActiveKey d'.license_keys
insert_key-OneActiveKey new d d' h e =
    let (fresh, rows) = inserted_keys new d d' e in
    rw rows (cons-OneActiveKey new d.license_keys h fresh)

-- An update by which no key becomes active.
pub update-OneActiveKey :
    (p : LicenseKey → Bool) (f : LicenseKey → LicenseKey) (keys : List LicenseKey)
    → ((l : Bytes) (k : LicenseKey) → active_key_of l (f k) ≡ true → active_key_of l k ≡ true)
    → OneActiveKey keys
    → OneActiveKey (update_rows p f keys)
update-OneActiveKey p f keys falls h l =
    let less = count-update-le p (active_key_of l) f (λ k _. falls l k) keys in
    let old = h l in omega arith

pub delete-OneActiveKey :
    (p : LicenseKey → Bool) (keys : List LicenseKey)
    → OneActiveKey keys
    → OneActiveKey (delete_rows p keys)
delete-OneActiveKey p keys h l =
    let less = count-delete-le (active_key_of l) p keys in let old = h l in omega arith
