-- ===== src/Billing/AdjustmentKept.antt =====
-- internal/billing/adjustment_event.go: what a property has to survive in order to survive the two
-- transactions of a refund or a dispute.
use glass_eqserver.Prelude.{
  Bool, true, false, Bytes, List, [], ◌∷◌, Option, none, some, ◌≡◌, ◌&&◌, ◌||◌, not, find_row,
  arith, if◌then◌else◌,
}
use glass_eqserver.Store.Tables.{
  Time, License, LicenseState, license_is_active, CheckoutOrder, AdjustmentState, BillingAdjustment,
  Db,
}
use glass_eqserver.Store.Effect.{execute, pure}
use glass_eqserver.Store.Keeps.{
  Keeps, Keeps-pure, Keeps-bind, Keeps-if, Keeps-query, Keeps-transact_all, keeps_rules,
}
use glass_eqserver.Store.Rules.{
  Ensures, Ensures-pure, Ensures-bind, Ensures-weaken, after_query, after_or_throw, after_throw_if,
}
use glass_eqserver.Store.Reads.{Ensures-kept, Keeps-known, Keeps-branch}
use glass_eqserver.Billing.Objects.{StripeSubscription, Invoice}
use glass_eqserver.Billing.Projection.{SubscriptionProjection}
use glass_eqserver.Billing.Ledger.{BillingEvent}
use glass_eqserver.Billing.Processor.{EventProcessor, fulfil_perpetual}
use glass_eqserver.Billing.Adjustment.{
  Adjustment, PurchaseIdentity, sole_purchase_order, read_purchase_order,
}
use glass_eqserver.Billing.AdjustmentView.{AdjustmentView}
use glass_eqserver.Billing.AdjustmentRows.{
  Restriction, license_is, no_projection, insert_adjustment, update_adjustment, clear_cancellations,
  update_license_state, terminate_subscription, restore_subscription,
}
use glass_eqserver.Billing.AdjustmentApply.{
  Standing, is_refunded, is_charged_back, is_revoked, license_such, refund_license_state,
  previous_projection, lock_license, standing, refuse_order, terminate, restrict_license, restrict,
  with_invoice, restored_projection, restoration_projection, issue_monthly_purchase,
  restore_license, restore, restore_monthly, resolve, apply_restriction,
}
use glass_eqserver.Billing.AdjustmentCommit.{
  intended_state, renew_intent, record_intent, complete_unless, locked_order, prepare_known,
  prepare_new, prepare_locked, prepare_adjustment, apply_adjustments, store_state,
  confirm_cancellation, commit_new, commit_adjustment_locked, commit_adjustment,
}
use glass_eqserver.Billing.Kept.{KeepsCommits, billing_rules, fulfil-kept}

-- How a refund or a dispute moves the state of a license.
pub data IsMove : LicenseState → LicenseState → Type 0 where
  refunding : (s : LicenseState) → is_revoked s ≡ false → IsMove s LicenseState.refunded
  charging :
      (s : LicenseState)
      → is_revoked s ≡ false
      → is_refunded s ≡ false
      → IsMove s LicenseState.charged_back
  restoring :
      (s : LicenseState)
      → is_charged_back s || license_is_active s ≡ true
      → IsMove s LicenseState.active

-- The further statements of these transactions. A license changes its state from one that is
-- `Known` of it.
pub record KeepsAdjusting (P : Db → Type 0) (Known : Bytes → LicenseState → Type 0) : Type 0 where
  pub known :
      (id : Bytes) (l : License) (d : Db)
      → P d
      → find_row (license_is id) d.licenses ≡ some l
      → Known id l.state
  pub inserts : (a : BillingAdjustment) → Keeps P (execute (insert_adjustment a))
  pub updates :
      (id : Bytes) (f : BillingAdjustment → BillingAdjustment)
      → Keeps P (execute (update_adjustment id f))
  pub cancellations : (id : Bytes) → Keeps P (execute (clear_cancellations id))
  pub states :
      (id : Bytes) (from to : LicenseState) (now : Time)
      → Known id from
      → IsMove from to
      → Keeps P (execute (update_license_state id to now))
  pub terminations : (id : Bytes) (t : Time) → Keeps P (execute (terminate_subscription id t))
  pub restorations :
      (id : Bytes) (x : SubscriptionProjection) → Keeps P (execute (restore_subscription id x))

module _ {P : Db → Type 0} where
  sole-kept : (rows : List CheckoutOrder) → Keeps P (sole_purchase_order rows)
  unfolding sole_purchase_order
  sole-kept [] = search keeps_rules
  sole-kept (o ∷ []) = search keeps_rules
  sole-kept (o ∷ other ∷ rest) = search keeps_rules

  pub identity-kept : (i : PurchaseIdentity) → Keeps P (read_purchase_order i)
  unfolding read_purchase_order
  identity-kept i = search (keeps_rules, sole-kept)

module _ {P : Db → Type 0} {Known : Bytes → LicenseState → Type 0} (p : EventProcessor)
    (k : KeepsCommits p.licenses P) (a : KeepsAdjusting P Known) (e : BillingEvent)
    (now : Time) where
  abbrev KnownOf : Option (Bytes × LicenseState) → Type 0
  KnownOf none = Unit
  KnownOf (some (id, state)) = Known id state

  module _ (v : AdjustmentView) where
    lock-kept : (id : Bytes) (o : CheckoutOrder) → Keeps P (lock_license p e now v id o)
    unfolding lock_license previous_projection
    lock-kept id o = search billing_rules depth 20

    standing-kept : (id : Option Bytes) (o : CheckoutOrder) → Keeps P (standing p e now v id o)
    unfolding standing
    standing-kept none o = Keeps-pure _
    standing-kept (some id) o = lock-kept id o

    refuse-kept : (o : CheckoutOrder) → Keeps P (refuse_order p e now v o)
    unfolding refuse_order
    refuse-kept o = search (billing_rules, k.billing.orders) depth 20

    terminate-kept : (id : Bytes) (t : Option Time) → Keeps P (terminate p e now v id t)
    unfolding terminate
    terminate-kept id t = search (billing_rules, a.terminations) depth 20

    restriction-IsMove :
        (refund : Bool) (state : LicenseState)
        → is_revoked state ≡ false
        → is_refunded state && not refund ≡ false
        → IsMove state (refund_license_state refund)
    restriction-IsMove true state h u = refunding state h
    restriction-IsMove false state h u = charging state h (ground arith)

    restrict_license-kept :
        (o : CheckoutOrder) (r : Restriction) (l : Option (Bytes × LicenseState))
        → KnownOf l
        → license_such is_revoked l ≡ false
        → Keeps P (restrict_license p e now v o r l)
    unfolding restrict_license
    restrict_license-kept o r none g h = search (billing_rules, refuse-kept) depth 20
    restrict_license-kept o r (some (id, state)) g h =
        Keeps-branch _ _ _ (λ same. Keeps-pure _)
          λ other.
            Keeps-bind _ _ (a.states id state _ now g (restriction-IsMove r.refund state h other))
              (λ u. search (billing_rules, terminate-kept) depth 20)

    restrict-kept :
        (o : CheckoutOrder) (r : Restriction) (l : Option (Bytes × LicenseState))
        → KnownOf l
        → license_such is_revoked l ≡ false
        → Keeps P (restrict p e now v o r l)
    unfolding restrict
    restrict-kept o r l g h = Keeps-if _ (Keeps-pure _) (restrict_license-kept o r l g h)

    invoice-kept :
        (o : CheckoutOrder) (s : StripeSubscription) (i : Option Invoice)
        (x : SubscriptionProjection)
        → Keeps P (with_invoice p e now v o s i x)
    unfolding with_invoice
    invoice-kept o s i x = search billing_rules depth 20

    restored-kept :
        (o : CheckoutOrder) (s : StripeSubscription) (x : SubscriptionProjection)
        → Keeps P (restored_projection p e now v o s x)
    unfolding restored_projection
    restored-kept o s x = search (billing_rules, invoice-kept) depth 30

    restoration-kept :
        (o : CheckoutOrder) (x : SubscriptionProjection)
        → Keeps P (restoration_projection p e now v o x)
    unfolding restoration_projection
    restoration-kept o x = search (billing_rules, restored-kept) depth 20

    issue-kept :
        (o : CheckoutOrder) (x : SubscriptionProjection)
        → Keeps P (issue_monthly_purchase p e now v o x)
    unfolding issue_monthly_purchase
    issue-kept o x =
        search (billing_rules, k.billing.licenses, k.billing.subscriptions, k.billing.orders) depth
          30

    restore_license-kept :
        (o : CheckoutOrder) (id : Bytes) (state : LicenseState) (x : SubscriptionProjection)
        → Known id state
        → Keeps P (restore_license p e now v o id state x)
    unfolding restore_license
    restore_license-kept o id state x g =
        Keeps-branch _ _ _
          (λ may.
            Keeps-bind _ _ (a.states id state _ now g (restoring state may))
              (λ u. search (billing_rules, a.restorations) depth 20))
          (λ no. Keeps-pure _)

    perpetual-kept : (o : CheckoutOrder) → Keeps P (fulfil_perpetual p e v.session now o)
    perpetual-kept o = fulfil-kept p k.billing e now v.session o

    restore-kept :
        (o : CheckoutOrder) (l : Option (Bytes × LicenseState)) (x : SubscriptionProjection)
        → KnownOf l
        → Keeps P (restore p e now v o l x)
    unfolding restore
    restore-kept o none x g = search (billing_rules, perpetual-kept, issue-kept) depth 20
    restore-kept o (some (id, state)) x g = restore_license-kept o id state x g

    restore_monthly-kept :
        (o : CheckoutOrder) (l : Option (Bytes × LicenseState)) (x : SubscriptionProjection)
        → KnownOf l
        → Keeps P (restore_monthly p e now v o l x)
    unfolding restore_monthly
    restore_monthly-kept o l x g =
        Keeps-bind _ _ (restoration-kept o x)
          λ y. Keeps-if _ (Keeps-pure _) (restore-kept o l y.0 g)

    resolve-kept :
        (o : CheckoutOrder) (l : Option (Bytes × LicenseState)) (x : SubscriptionProjection)
        → KnownOf l
        → Keeps P (resolve p e now v o l x)
    unfolding resolve
    resolve-kept o l x g =
        Keeps-if _ (Keeps-pure _) (Keeps-if _ (restore_monthly-kept o l x g) (restore-kept o l _ g))

    apply-kept :
        (o : CheckoutOrder) (r : Restriction) (x : Standing)
        → KnownOf x.license
        → Keeps P (apply_restriction p e now v o r x)
    unfolding apply_restriction
    apply-kept o r x g =
        Keeps-branch _ _ _ (λ revoked. Keeps-pure _)
          λ h. Keeps-if _ (restrict-kept o r x.license g h) (resolve-kept o x.license x.previous g)

    standing-Known :
        (id : Option Bytes) (o : CheckoutOrder) (d : Db)
        → P d
        → Ensures (standing p e now v id o) d (λ x _. KnownOf x.license)
    unfolding standing lock_license
    standing-Known none o d h = Ensures-pure _ tt
    standing-Known (some id) o d h = after_query _ _ (
        after_or_throw _ _ _ λ l found. after_throw_if _ _ _ λ owner. Ensures-bind _ _ (
          Ensures-weaken _ (Ensures-kept (λ y. Unit) _ (previous_kept l) tt)
            λ x d' u. Ensures-pure _ (a.known id l d h found)))
      where
        previous_kept :
            (l : License)
            → Keeps
                (λ y. Unit)
                (if is_revoked l.state
                  then pure no_projection
                  else previous_projection p e now v id o)
        previous_kept l = record { at = λ y w u. tt }

    adjustments-kept : (o : CheckoutOrder) → Keeps P (apply_adjustments p e now v o)
    unfolding apply_adjustments
    adjustments-kept o = Keeps-bind _ _ (Keeps-query _) λ r.
        Keeps-known (λ x. KnownOf x.license) _ _ (standing-kept o.license_id o)
          (standing-Known o.license_id o) (apply-kept o r)

    locked-kept : Keeps P (locked_order p e now v)
    unfolding locked_order
    locked-kept = search (billing_rules, identity-kept) depth 20

  renew-kept :
      (x : Adjustment) (o : CheckoutOrder) (state : AdjustmentState) (row : BillingAdjustment)
      → Keeps P (renew_intent p e now x o state row)
  unfolding renew_intent
  renew-kept x o state row = search (billing_rules, a.updates) depth 20

  intent-kept :
      (x : Adjustment) (o : CheckoutOrder) (state : Option AdjustmentState)
      → Keeps P (record_intent p e now x o state)
  unfolding record_intent
  intent-kept x o none = Keeps-pure _
  intent-kept x o (some state) = search (billing_rules, a.inserts, renew-kept) depth 20

  state-kept :
      (x : Adjustment) (state : Option AdjustmentState) → Keeps P (intended_state p e now x state)
  unfolding intended_state
  state-kept x none = search keeps_rules
  state-kept x (some state) = Keeps-pure _

  complete-kept : (b : Bool) (word : Bytes) → Keeps P (complete_unless p e now b word)
  unfolding complete_unless
  complete-kept b word = search (billing_rules, k.events)

  known-kept : (v : AdjustmentView) → Keeps P (prepare_known p e now v)
  unfolding prepare_known
  known-kept v =
      search (billing_rules, locked-kept, state-kept, intent-kept, complete-kept, k.advances) depth
        30

  new-kept : (v : Option AdjustmentView) → Keeps P (prepare_new p e now v)
  unfolding prepare_new
  new-kept none = search (billing_rules, k.events)
  new-kept (some v) = known-kept v

  pub prepare_adjustment-kept : (v : Option AdjustmentView) → Keeps P (prepare_adjustment p e now v)
  unfolding prepare_adjustment prepare_locked
  prepare_adjustment-kept v = Keeps-transact_all _ (search (billing_rules, new-kept) depth 20)

  store-kept : (id : Bytes) (s : Option AdjustmentState) → Keeps P (store_state p e now id s)
  unfolding store_state
  store-kept id none = Keeps-pure _
  store-kept id (some s) = a.updates _ _

  confirm-kept :
      (o : CheckoutOrder) (s : Option StripeSubscription)
      → Keeps P (confirm_cancellation p e now o s)
  unfolding confirm_cancellation
  confirm-kept o s = search (billing_rules, a.cancellations) depth 20

  pub commit_adjustment-kept : (v : AdjustmentView) → Keeps P (commit_adjustment p e now v)
  unfolding commit_adjustment commit_adjustment_locked commit_new
  commit_adjustment-kept v = Keeps-transact_all _ (
      search
        (
          billing_rules, locked-kept, store-kept, confirm-kept, adjustments-kept, a.updates,
          k.advances, k.events,
        )
        depth 40)
