-- ===== src/Billing/Refunded.antt =====
-- internal/billing: a license that a refund has ended.
use glass_eqserver.Prelude.{
  Bool, true, false, ◌||◌, Bytes, List, [], ◌∷◌, Option, none, some, ◌≡◌, refl, sym, inl, inr,
  Bool-cases, bytes_eq, bytes_eq→eq, find_row, find_row-holds, arith, subst, ◌∙◌, update_rows,
  if◌then◌else◌,
}
use glass_eqserver.Store.Tables.{
  Time, License, LicenseState, LicenseKey, LicenseDelivery, Db, license_is_active,
}
use glass_eqserver.Store.Effect.{Env, execute}
use glass_eqserver.Activation.System.Section.{left_by}
use glass_eqserver.Store.Keeps.{Keeps, Keeps-execute}
use glass_eqserver.Activation.Service.{Service}
use glass_eqserver.Activation.Rotation.{insert_key}
use glass_eqserver.Activation.Purchase.{license_collides, insert_license, insert_delivery}
use glass_eqserver.Billing.Ledger.{
  BillingEvent, insert_event, insert_order, update_order, complete_event,
}
use glass_eqserver.Billing.Processor.{EventProcessor}
use glass_eqserver.Billing.MonthlyRows.{update_subscription, insert_subscription}
use glass_eqserver.Billing.AdjustmentRows.{
  license_is, with_state, insert_adjustment, update_adjustment, clear_cancellations,
  update_license_state, terminate_subscription, restore_subscription,
}
use glass_eqserver.Billing.AdjustmentApply.{is_refunded, is_charged_back}
use glass_eqserver.Billing.Process.{process}
use glass_eqserver.Billing.Orders.{find-updated}
use glass_eqserver.Billing.Kept.{
  KeepsBilling, KeepsCommits, issued-kept, settle_perpetual-kept, commit_monthly-kept,
}
use glass_eqserver.Billing.AdjustmentKept.{
  KeepsAdjusting, IsMove, refunding, charging, restoring, prepare_adjustment-kept,
  commit_adjustment-kept,
}
use glass_eqserver.Billing.Handled.{KeepsUnits}
use glass_eqserver.Billing.HandledEvents.{process-kept}

-- The license of an ID is there and is refunded.
pub record IsRefunded (id : Bytes) (d : Db) : Type 0 where
  pub license : License
  pub found : find_row (license_is id) d.licenses ≡ some license
  pub refunded : is_refunded license.state ≡ true

missed :
    (p q : License → Bool) (xs : List License) (x : License)
    → find_row p xs ≡ none
    → find_row q xs ≡ some x
    → p x ≡ false
unfolding find_row
missed p q [] x h f = cc
missed p q (y ∷ ys) x h f = ground (arith, missed p q ys x)

module _ (id : Bytes) where
  execute-Refunded :
      {A : Type 0} (f : Db → Option (Db × A))
      → ((d d' : Db) (a : A) → f d ≡ some (d', a) → d'.licenses ≡ d.licenses)
      → Keeps (IsRefunded id) (execute f)
  execute-Refunded f same = Keeps-execute f λ d d' a h e. record {
    license = h.license;
    found = rw (same d d' a e) h.found;
    refunded = h.refunded;
  }

  key-Refunded : (k : LicenseKey) → Keeps (IsRefunded id) (execute (insert_key k))
  unfolding insert_key
  key-Refunded k = execute-Refunded _ (λ d d' a h. ground arith)

  delivery-Refunded : (o : LicenseDelivery) → Keeps (IsRefunded id) (execute (insert_delivery o))
  unfolding insert_delivery
  delivery-Refunded o = execute-Refunded _ (λ d d' a h. ground arith)

  -- A new license has another ID.
  other_id :
      (l : License) (d : Db)
      → IsRefunded id d
      → find_row (license_collides l) d.licenses ≡ none
      → license_is id l ≡ false
  other_id l d h free = elim (Bool-cases (bytes_eq l.id id)) [
    | inr other ↦ other
    | inl same ↦
        let clear : license_collides l h.license ≡ false =
          missed (license_collides l) (license_is id) d.licenses h.license free h.found in
        let there : bytes_eq h.license.id id ≡ true =
          find_row-holds (license_is id) d.licenses h.license h.found in
        let there' : bytes_eq h.license.id l.id ≡ true = rw (bytes_eq→eq l.id id same) there in
        ground arith
  ]

  inserted :
      (l : License) (d d' : Db)
      → IsRefunded id d
      → insert_license l d ≡ some (d', tt)
      → IsRefunded id d'
  unfolding insert_license find_row
  inserted l d d' h e = record {
    license = h.license;
    found = ground (arith, other_id l d h, h.found);
    refunded = h.refunded;
  }

  license-Refunded : (l : License) → Keeps (IsRefunded id) (execute (insert_license l))
  license-Refunded l = Keeps-execute _ (λ d d' a h e. inserted l d d' h e)

  settled-Refunded : (s : Service) → KeepsBilling s (IsRefunded id)
  unfolding update_order update_subscription insert_subscription
  settled-Refunded s = record {
    orders = λ other f same. execute-Refunded _ (λ d d' a h. ground arith);
    licenses = issued-kept s license-Refunded key-Refunded delivery-Refunded;
    projections = λ other x. execute-Refunded _ (λ d d' a h. ground arith);
    subscriptions = λ r. execute-Refunded _ (λ d d' a h. ground arith);
  }

  commits-Refunded : (s : Service) → KeepsCommits s (IsRefunded id)
  unfolding update_order complete_event
  commits-Refunded s = record {
    billing = settled-Refunded s;
    advances = λ other. execute-Refunded _ (λ d d' a h. ground arith);
    events = λ other now outcome. execute-Refunded _ (λ d d' a h. ground arith);
  }

  -- What is known of a license that was read under the lock.
  abbrev Read : Bytes → LicenseState → Type 0
  Read other state = other ≡ id → is_refunded state ≡ true

  restores :
      (s : LicenseState)
      → is_charged_back s || license_is_active s ≡ true
      → is_refunded s ≡ true
      → ⊥
  restores s may h = ground arith

  move-Refunded :
      (from to : LicenseState) → IsMove from to → is_refunded from ≡ true → is_refunded to ≡ true
  move-Refunded _ _ (refunding s free) h = refl
  move-Refunded _ _ (charging s free other) h = absurd (ground arith)
  move-Refunded _ _ (restoring s may) h = absurd (restores s may h)

  refunded_row :
      (other : Bytes) (from to : LicenseState) (now : Time) (d : Db) (h : IsRefunded id d)
      → Read other from
      → IsMove from to
      → is_refunded
          (if license_is other h.license then with_state to now h.license else h.license).state
        ≡ true
  refunded_row other from to now d h g m = elim (Bool-cases (bytes_eq h.license.id other)) [
    | inr differs ↦ ground (arith, h.refunded)
    | inl same ↦
        let there : bytes_eq h.license.id id ≡ true =
          find_row-holds (license_is id) d.licenses h.license h.found in
        let ids : other ≡ id =
          sym (bytes_eq→eq h.license.id other same) ∙ bytes_eq→eq h.license.id id there in
        let kept : is_refunded to ≡ true = move-Refunded from to m (g ids) in ground arith
  ]

  moved :
      (other : Bytes) (from to : LicenseState) (now : Time)
      → Read other from
      → IsMove from to
      → Keeps (IsRefunded id) (execute (update_license_state other to now))
  unfolding update_license_state
  moved other from to now g m = Keeps-execute _ λ d d' u h e.
      let rows : d'.licenses ≡ update_rows (license_is other) (with_state to now) d.licenses =
        ground arith in
      record {
        license = if license_is other h.license then with_state to now h.license else h.license;
        found = rw rows (
            find-updated (license_is other) (license_is id) (with_state to now) (λ x. refl)
              d.licenses h.license h.found);
        refunded = refunded_row other from to now d h g m;
      }

  known :
      (other : Bytes) (l : License) (d : Db)
      → IsRefunded id d
      → find_row (license_is other) d.licenses ≡ some l
      → Read other l.state
  known other l d h found same = ground (
    arith,
    subst (λ x. find_row (license_is x) d.licenses ≡ some l) same found,
    h.found,
    h.refunded,
  )

  adjusting-Refunded : KeepsAdjusting (IsRefunded id) Read
  unfolding insert_adjustment update_adjustment clear_cancellations terminate_subscription
      restore_subscription
  adjusting-Refunded = record {
    known = known;
    inserts = λ x. execute-Refunded _ (λ d d' a h. ground arith);
    updates = λ other f. execute-Refunded _ (λ d d' a h. ground arith);
    cancellations = λ other. execute-Refunded _ (λ d d' a h. ground arith);
    states = moved;
    terminations = λ other t. execute-Refunded _ (λ d d' a h. ground arith);
    restorations = λ other x. execute-Refunded _ (λ d d' a h. ground arith);
  }

  units-Refunded : (p : EventProcessor) → KeepsUnits p (IsRefunded id)
  unfolding insert_event insert_order
  units-Refunded p = record {
    events = λ e. execute-Refunded _ (λ d d' a h. ground arith);
    orders = λ o. execute-Refunded _ (λ d d' a h. ground arith);
    perpetual =
        λ e session now. settle_perpetual-kept p (commits-Refunded p.licenses) e now session;
    monthly = λ e now x. commit_monthly-kept p (commits-Refunded p.licenses) e now x;
    prepared = λ e now v.
        prepare_adjustment-kept p (commits-Refunded p.licenses) adjusting-Refunded e now v;
    committed = λ e now v.
        commit_adjustment-kept p (commits-Refunded p.licenses) adjusting-Refunded e now v;
  }

-- A refund is final: a license that is refunded is refunded still after any webhook event, whatever
-- its body says and whatever Stripe and the database answer.
pub process-IsRefunded :
    (id : Bytes) (p : EventProcessor) (unmarshal : Bytes → Option BillingEvent) (body : Bytes)
    (now : Time) (d : Db) (v : Env)
    → IsRefunded id d
    → IsRefunded id (left_by (process p unmarshal body now) d v)
process-IsRefunded id p unmarshal body now d v h =
    (process-kept p (units-Refunded id p) unmarshal body now).at d v h
