-- ===== src/Billing/Events.antt =====
-- migrations/00001_initial.sql: the rows of `stripe_events`, and what the billing statements do to
-- them.
use glass_eqserver.Prelude.{Bytes, Option, some, ◌≡◌, refl, find_row, find_row-holds, arith}
use glass_eqserver.Store.Tables.{
  Time, License, LicenseKey, LicenseDelivery, StripeEvent, CheckoutOrder, Db,
}
use glass_eqserver.Store.Effect.{execute}
use glass_eqserver.Store.Keeps.{Keeps, Keeps-execute}
use glass_eqserver.Activation.Service.{Service}
use glass_eqserver.Activation.Rotation.{insert_key}
use glass_eqserver.Activation.Purchase.{insert_license, insert_delivery}
use glass_eqserver.Billing.Ledger.{is_event, update_order, complete_event, processed_with}
use glass_eqserver.Billing.MonthlyRows.{update_subscription, insert_subscription}
use glass_eqserver.Billing.Kept.{KeepsBilling, issued-kept}
use glass_eqserver.Billing.Orders.{find-updated}

-- The event of an ID is recorded.
abbrev pub Recorded : Bytes → StripeEvent → Db → Type 0
Recorded id row d = find_row (is_event id) d.stripe_events ≡ some row

module _ (id : Bytes) (row : StripeEvent) where
  execute-Recorded :
      {A : Type 0} (f : Db → Option (Db × A))
      → ((d d' : Db) (a : A) → f d ≡ some (d', a) → d'.stripe_events ≡ d.stripe_events)
      → Keeps (Recorded id row) (execute f)
  execute-Recorded f same = Keeps-execute f (λ d d' a h e. rw (same d d' a e) h)

  key-Recorded : (k : LicenseKey) → Keeps (Recorded id row) (execute (insert_key k))
  unfolding insert_key
  key-Recorded k = execute-Recorded _ (λ d d' a h. ground arith)

  license-Recorded : (l : License) → Keeps (Recorded id row) (execute (insert_license l))
  unfolding insert_license
  license-Recorded l = execute-Recorded _ (λ d d' a h. ground arith)

  delivery-Recorded : (o : LicenseDelivery) → Keeps (Recorded id row) (execute (insert_delivery o))
  unfolding insert_delivery
  delivery-Recorded o = execute-Recorded _ (λ d d' a h. ground arith)

  pub settled-Recorded : (s : Service) → KeepsBilling s (Recorded id row)
  unfolding update_order update_subscription insert_subscription
  settled-Recorded s = record {
    orders = λ other f same. execute-Recorded _ (λ d d' a h. ground arith);
    licenses = issued-kept s license-Recorded key-Recorded delivery-Recorded;
    projections = λ other x. execute-Recorded _ (λ d d' a h. ground arith);
    subscriptions = λ r. execute-Recorded _ (λ d d' a h. ground arith);
  }

-- An event is processed with an outcome.
pub record ProcessedAt (id : Bytes) (now : Time) (outcome : Bytes) (d : Db) : Type 0 where
  pub row : StripeEvent
  pub found : find_row (is_event id) d.stripe_events ≡ some row
  pub processed : row.processed ≡ some (now, outcome)

pub complete-ProcessedAt :
    (id : Bytes) (now : Time) (outcome : Bytes) (row : StripeEvent) (d d' : Db)
    → Recorded id row d
    → complete_event id now outcome d ≡ some (d', tt)
    → ProcessedAt id now outcome d'
unfolding complete_event
complete-ProcessedAt id now outcome row d d' h e = record {
  row = processed_with now outcome row;
  found = ground (
    arith,
    find_row-holds (is_event id) d.stripe_events row h,
    find-updated (is_event id) (is_event id) (processed_with now outcome) (λ x. refl)
        d.stripe_events row h,
  );
  processed = refl;
}

pub complete-orders :
    (id : Bytes) (now : Time) (outcome : Bytes) (d d' : Db)
    → complete_event id now outcome d ≡ some (d', tt)
    → d'.checkout_orders ≡ d.checkout_orders
unfolding complete_event
complete-orders id now outcome d d' e = ground arith

pub update-events :
    (id : Bytes) (f : CheckoutOrder → CheckoutOrder) (d d' : Db)
    → update_order id f d ≡ some (d', tt)
    → d'.stripe_events ≡ d.stripe_events
unfolding update_order
update-events id f d d' e = ground arith
