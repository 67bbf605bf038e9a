-- ===== src/Billing/Orders.antt =====
-- migrations/00001_initial.sql and later: the rows of `checkout_orders` under their primary key,
-- and what the billing statements do to them.
use glass_eqserver.Prelude.{
  ℕ, suc, Bool, Bytes, List, [], ◌∷◌, Option, none, some, ◌≡◌, refl, ◌⊎◌, inl, inr, Bool-cases,
  bytes_eq, bytes_eq→eq, bytes_eq_refl, find_row, find_row-holds, select_rows, update_rows,
  Distinct, if◌then◌else◌, arith, ap,
}
use glass_eqserver.Store.Tables.{License, LicenseKey, LicenseDelivery, CheckoutOrder, Db}
use glass_eqserver.Store.Effect.{execute}
use glass_eqserver.Store.Keeps.{Keeps, Keeps-execute}
use glass_eqserver.Activation.Service.{Service}
use glass_eqserver.Activation.Rotation.{insert_key}
use glass_eqserver.Activation.Purchase.{insert_license, insert_delivery}
use glass_eqserver.Billing.Ledger.{is_order, update_order, advanced}
use glass_eqserver.Billing.MonthlyRows.{update_subscription, insert_subscription}
use glass_eqserver.Billing.Kept.{SameRevision, KeepsBilling, issued-kept}

-- The primary key.
abbrev pub UniqueOrders : List CheckoutOrder → Type 0
UniqueOrders = Distinct (λ o. is_order o.id)

module _ {A : Type 0} (p : A → Bool) where
  pub select-find :
      (xs : List A) (x : A) (rest : List A) → select_rows p xs ≡ x ∷ rest → find_row p xs ≡ some x
  unfolding select_rows find_row
  select-find [] x rest h = cc
  select-find (y ∷ ys) x rest h = ground (arith, select-find ys x rest)

  -- The row that is found after an update that keeps what is looked for.
  pub find-updated :
      (q : A → Bool) (f : A → A)
      → ((x : A) → q (f x) ≡ q x)
      → (xs : List A) (x : A) → find_row q xs ≡ some x
      → find_row q (update_rows p f xs) ≡ some (if p x then f x else x)
  unfolding find_row update_rows
  find-updated q f keeps [] x h = cc
  find-updated q f keeps (y ∷ ys) x h = ground (arith, keeps y, find-updated q f keeps ys x)

-- No row in front of the row of an ID has it.
behind :
    (y : CheckoutOrder) (ys : List CheckoutOrder) (o : CheckoutOrder)
    → UniqueOrders (y ∷ ys)
    → find_row (is_order o.id) ys ≡ some o
    → find_row (is_order o.id) (y ∷ ys) ≡ some o
unfolding find_row
behind y ys o u h = elim (Bool-cases (bytes_eq y.id o.id)) [
  | inl same ↦ clash (bytes_eq→eq y.id o.id same)
  | inr differs ↦ ground arith
]
  where
    clash : y.id ≡ o.id → find_row (is_order o.id) (y ∷ ys) ≡ some o
    clash i = let absent : find_row (is_order o.id) ys ≡ none = rw (← i) u.0 in cc

-- A row that is found by any test is the row of its ID.
pub find_by_id :
    (p : CheckoutOrder → Bool) (xs : List CheckoutOrder) (o : CheckoutOrder)
    → UniqueOrders xs
    → find_row p xs ≡ some o
    → find_row (is_order o.id) xs ≡ some o
unfolding find_row
find_by_id p [] o u h = cc
find_by_id p (y ∷ ys) o u h = elim (Bool-cases (p y)) [
  | inl holds ↦ found_here (ground arith)
  | inr fails ↦ behind y ys o u (find_by_id p ys o u.1 (ground arith))
]
  where
    found_here : y ≡ o → find_row (is_order o.id) (y ∷ ys) ≡ some o
    found_here e = rw e (ground (arith, bytes_eq_refl o.id))

module _ (Q : List CheckoutOrder → Type 0) where
  -- A statement that leaves the orders.
  pub execute-Orders :
      {A : Type 0} (f : Db → Option (Db × A))
      → ((d d' : Db) (a : A) → f d ≡ some (d', a) → d'.checkout_orders ≡ d.checkout_orders)
      → Keeps (λ d. Q d.checkout_orders) (execute f)
  execute-Orders f same = Keeps-execute f (λ d d' a h e. rw (same d d' a e) h)

  key-Orders : (k : LicenseKey) → Keeps (λ d. Q d.checkout_orders) (execute (insert_key k))
  unfolding insert_key
  key-Orders k = execute-Orders _ (λ d d' a h. ground arith)

  license-Orders : (l : License) → Keeps (λ d. Q d.checkout_orders) (execute (insert_license l))
  unfolding insert_license
  license-Orders l = execute-Orders _ (λ d d' a h. ground arith)

  delivery-Orders :
      (o : LicenseDelivery) → Keeps (λ d. Q d.checkout_orders) (execute (insert_delivery o))
  unfolding insert_delivery
  delivery-Orders o = execute-Orders _ (λ d d' a h. ground arith)

  -- A property of the orders survives what settles an order if it survives the order's update.
  pub orders_settled :
      (s : Service)
      → ((id : Bytes) (f : CheckoutOrder → CheckoutOrder)
          → SameRevision f
          → Keeps (λ d. Q d.checkout_orders) (execute (update_order id f)))
      → KeepsBilling s (λ d. Q d.checkout_orders)
  unfolding update_subscription insert_subscription
  orders_settled s updates = record {
    orders = updates;
    licenses = issued-kept s license-Orders key-Orders delivery-Orders;
    projections = λ id x. execute-Orders _ (λ d d' a h. ground arith);
    subscriptions = λ r. execute-Orders _ (λ d d' a h. ground arith);
  }

-- The order of an ID is at a revision.
pub record AtRevision (id : Bytes) (revision : ℕ) (rows : List CheckoutOrder) : Type 0 where
  pub order : CheckoutOrder
  pub found : find_row (is_order id) rows ≡ some order
  pub revision_is : order.billing_revision ≡ revision

updated_rows :
    (id : Bytes) (f : CheckoutOrder → CheckoutOrder) (d d' : Db)
    → update_order id f d ≡ some (d', tt)
    → (d'.checkout_orders ≡ d.checkout_orders)
      ⊎ (d'.checkout_orders ≡ update_rows (is_order id) f d.checkout_orders)
unfolding update_order
updated_rows id f d d' e = ground arith

update-AtRevision :
    (id other : Bytes) (revision : ℕ) (f : CheckoutOrder → CheckoutOrder)
    → SameRevision f
    → (rows : List CheckoutOrder) → AtRevision id revision rows
    → AtRevision id revision (update_rows (is_order other) f rows)
update-AtRevision id other revision f same rows h = record {
  order = if is_order other h.order then f h.order else h.order;
  found =
      find-updated (is_order other) (is_order id) f (λ x. ap (λ i. bytes_eq i id) (same.id x)) rows
        h.order h.found;
  revision_is = ground (arith, same.revision h.order, h.revision_is);
}

pub settled-AtRevision :
    (s : Service) (id : Bytes) (revision : ℕ)
    → KeepsBilling s (λ d. AtRevision id revision d.checkout_orders)
settled-AtRevision s id revision = orders_settled (AtRevision id revision) s λ other f same.
    Keeps-execute _ λ d d' u h e. elim (updated_rows other f d d' e) [
      | inl i ↦ rw i h
      | inr i ↦ rw i (update-AtRevision id other revision f same d.checkout_orders h)
    ]

changed_rows :
    (id : Bytes) (f : CheckoutOrder → CheckoutOrder) (o : CheckoutOrder) (d d' : Db)
    → find_row (is_order id) d.checkout_orders ≡ some o
    → update_order id f d ≡ some (d', tt)
    → d'.checkout_orders ≡ update_rows (is_order id) f d.checkout_orders
unfolding update_order
changed_rows id f o d d' found e = ground arith

-- The row that an update leaves.
pub found_changed :
    (id : Bytes) (f : CheckoutOrder → CheckoutOrder) (o : CheckoutOrder) (d d' : Db)
    → ((x : CheckoutOrder) → (f x).id ≡ x.id)
    → find_row (is_order id) d.checkout_orders ≡ some o
    → update_order id f d ≡ some (d', tt)
    → find_row (is_order id) d'.checkout_orders ≡ some (f o)
found_changed id f o d d' same found e = rw (changed_rows id f o d d' found e) (
    ground (
      arith,
      find_row-holds (is_order id) d.checkout_orders o found,
      find-updated (is_order id) (is_order id) f (λ x. ap (λ i. bytes_eq i id) (same x))
          d.checkout_orders o found,
    ))

pub update-licenses :
    (id : Bytes) (f : CheckoutOrder → CheckoutOrder) (d d' : Db)
    → update_order id f d ≡ some (d', tt)
    → d'.licenses ≡ d.licenses
unfolding update_order
update-licenses id f d d' e = ground arith

-- The statement that ends a billing transaction on an order.
pub advance-AtRevision :
    (id : Bytes) (revision : ℕ) (d d' : Db)
    → AtRevision id revision d.checkout_orders
    → update_order id advanced d ≡ some (d', tt)
    → AtRevision id (suc revision) d'.checkout_orders
advance-AtRevision id revision d d' h e = record {
  order = advanced h.order;
  found = found_changed id advanced h.order d d' (λ x. refl) h.found e;
  revision_is = ground (arith, h.revision_is);
}
