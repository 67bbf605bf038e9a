-- ===== src/Billing/Kept.antt =====
-- internal/billing/event.go and monthly_event.go: what a property has to survive in order to
-- survive the billing transactions, and what every step outside their statements keeps.
use glass_eqserver.Prelude.{Bool, true, false, Bytes, List, [], ◌∷◌, Option, none, some, ◌≡◌, refl}
use glass_eqserver.Store.Tables.{
  Time, License, LicenseKey, LicenseDelivery, CheckoutOrder, Subscription, OrderState, Db,
}
use glass_eqserver.Store.Effect.{M, Failure, execute, transact}
use glass_eqserver.Store.Keeps.{
  Keeps, Keeps-pure, Keeps-throw, Keeps-bind, Keeps-transact_all, keeps_rules,
}
use glass_eqserver.Activation.Service.{Service}
use glass_eqserver.Activation.Purchase.{
  PurchasedLicense, insert_license, insert_delivery, issue_purchased_license,
}
use glass_eqserver.Activation.Rotation.{insert_key}
use glass_eqserver.Activation.Reads.{read_rules}
use glass_eqserver.Billing.Objects.{
  SessionStatus, open_session, complete, expired, other_session, CheckoutSession,
  StripeSubscription, Invoice,
}
use glass_eqserver.Billing.Projection.{SubscriptionProjection}
use glass_eqserver.Billing.Ledger.{
  BillingEvent, throw_error, when, update_order, advanced, complete_event, matching_billing_event,
  billing_restriction,
}
use glass_eqserver.Billing.Processor.{
  EventProcessor, failed_with, fulfilled_by, lock_purchase_order, fulfil_perpetual, mark_failed,
  decline_perpetual, settle_valid, settle_unblocked, settle_order, settle_new, settle_perpetual,
}
use glass_eqserver.Billing.AdjustmentRows.{refused_purchase}
use glass_eqserver.Billing.MonthlyRows.{
  Snapshot, monthly_fulfilled_by, unpaid_with, sole_order, read_monthly_order, update_subscription,
  insert_subscription,
}
use glass_eqserver.Billing.MonthlyCommit.{
  period_of, reconcile_license, update_license, issue_monthly_license, fulfil_paid, fulfil_monthly,
  record_unpaid, first_purchase, apply_unblocked, apply_monthly_purchase, apply_locked,
  apply_snapshot, monthly_outcome, apply_new, commit_locked, commit_monthly_event,
}

-- An update of an order that leaves its ID and its revision.
pub record SameRevision (f : CheckoutOrder → CheckoutOrder) : Type 0 where
  pub id : (o : CheckoutOrder) → (f o).id ≡ o.id
  pub revision : (o : CheckoutOrder) → (f o).billing_revision ≡ o.billing_revision

pub failed_with-SameRevision : (session : Bytes) → SameRevision (failed_with session)
failed_with-SameRevision session = record { id = λ o. refl; revision = λ o. refl }

pub fulfilled_by-SameRevision :
    (license : Bytes) (now : Time) (session payment : Bytes)
    → SameRevision (fulfilled_by license now session payment)
fulfilled_by-SameRevision license now session payment = record {
  id = λ o. refl;
  revision = λ o. refl;
}

pub monthly_fulfilled_by-SameRevision :
    (license : Bytes) (now : Time) (session subscription : Bytes)
    → SameRevision (monthly_fulfilled_by license now session subscription)
monthly_fulfilled_by-SameRevision license now session subscription = record {
  id = λ o. refl;
  revision = λ o. refl;
}

pub unpaid_with-SameRevision :
    (state : OrderState) (session : Bytes) (subscription : Option Bytes)
    → SameRevision (unpaid_with state session subscription)
unpaid_with-SameRevision state session subscription = record {
  id = λ o. refl;
  revision = λ o. refl;
}

pub refused_purchase-SameRevision :
    (session : Bytes) (payment subscription : Option Bytes)
    → SameRevision (refused_purchase session payment subscription)
refused_purchase-SameRevision session payment subscription = record {
  id = λ o. refl;
  revision = λ o. refl;
}

-- The statements that settle an order.
pub record KeepsBilling (s : Service) (P : Db → Type 0) : Type 0 where
  pub orders :
      (id : Bytes) (f : CheckoutOrder → CheckoutOrder)
      → SameRevision f
      → Keeps P (execute (update_order id f))
  pub licenses : (x : PurchasedLicense) (now : Time) → Keeps P (issue_purchased_license s x now)
  pub projections :
      (id : Bytes) (x : SubscriptionProjection) → Keeps P (execute (update_subscription id x))
  pub subscriptions : (r : Subscription) → Keeps P (execute (insert_subscription r))

-- With them, the statements that end a billing transaction.
pub record KeepsCommits (s : Service) (P : Db → Type 0) : Type 0 where
  pub billing : KeepsBilling s P
  pub advances : (id : Bytes) → Keeps P (execute (update_order id advanced))
  pub events :
      (id : Bytes) (now : Time) (outcome : Bytes)
      → Keeps P (execute (complete_event id now outcome))

module _ {P : Db → Type 0} where
  pub Keeps-throw_error : (e : Option Failure) → Keeps P (throw_error e)
  unfolding throw_error
  Keeps-throw_error none = Keeps-pure tt
  Keeps-throw_error (some e) = Keeps-throw e

  pub Keeps-when : (b : Bool) {m : M (Unit {0})} → Keeps P m → Keeps P (when b m)
  unfolding when
  Keeps-when true k = k
  Keeps-when false k = Keeps-pure tt

  pub matching-kept : (e : BillingEvent) → Keeps P (matching_billing_event e)
  unfolding matching_billing_event
  matching-kept e = search keeps_rules depth 12

  pub restriction-kept : (id : Bytes) → Keeps P (billing_restriction id)
  unfolding billing_restriction
  restriction-kept id = search keeps_rules depth 12

  pub lock-kept : (session : CheckoutSession) → Keeps P (lock_purchase_order session)
  unfolding lock_purchase_order
  lock-kept session = search keeps_rules

  sole-kept : (rows : List CheckoutOrder) → Keeps P (sole_order rows)
  unfolding sole_order
  sole-kept [] = search keeps_rules
  sole-kept (o ∷ []) = search keeps_rules
  sole-kept (o ∷ other ∷ rest) = search keeps_rules

  pub read-kept :
      (session subscription id : Bytes) → Keeps P (read_monthly_order session subscription id)
  unfolding read_monthly_order
  read-kept session subscription id = search (keeps_rules, sole-kept)

  pub period-kept :
      (p : EventProcessor) (e : BillingEvent) (now : Time) (i : Option Invoice)
      (s : StripeSubscription) (o : CheckoutOrder)
      → Keeps P (period_of p e now i s o)
  unfolding period_of
  period-kept p e now none s o = search keeps_rules
  period-kept p e now (some i) s o = search keeps_rules

pub ruleset billing_rules = (
  keeps_rules, Keeps-throw_error, Keeps-when, matching-kept, restriction-kept, lock-kept, read-kept,
  period-kept, failed_with-SameRevision, fulfilled_by-SameRevision,
  monthly_fulfilled_by-SameRevision, unpaid_with-SameRevision, refused_purchase-SameRevision,
)

module _ {P : Db → Type 0} (p : EventProcessor) (k : KeepsBilling p.licenses P) (e : BillingEvent)
    (now : Time) where
  module _ (session : CheckoutSession) where
    mark-kept : (o : CheckoutOrder) → Keeps P (mark_failed p e session now o)
    unfolding mark_failed
    mark-kept o = search (billing_rules, k.orders) depth 12

    decline-kept :
        (status : SessionStatus) (o : CheckoutOrder)
        → Keeps P (decline_perpetual p e session now status o)
    unfolding decline_perpetual
    decline-kept open_session o = mark-kept o
    decline-kept complete o = mark-kept o
    decline-kept expired o = search keeps_rules
    decline-kept (other_session word) o = search keeps_rules

    pub fulfil-kept : (o : CheckoutOrder) → Keeps P (fulfil_perpetual p e session now o)
    unfolding fulfil_perpetual
    fulfil-kept o = search (billing_rules, k.orders, k.licenses) depth 20

    pub unblocked-kept : (o : CheckoutOrder) → Keeps P (settle_unblocked p e session now o)
    unfolding settle_unblocked settle_valid
    unblocked-kept o = search (billing_rules, decline-kept, fulfil-kept) depth 20

  module _ (x : Snapshot) where
    reconcile-kept :
        (id : Bytes) (o : CheckoutOrder) (s : StripeSubscription)
        → Keeps P (reconcile_license p e now x id o s)
    unfolding reconcile_license
    reconcile-kept id o s = search (billing_rules, k.projections) depth 20

    update-kept : (id : Bytes) (o : CheckoutOrder) → Keeps P (update_license p e now x id o)
    unfolding update_license
    update-kept id o = search (billing_rules, reconcile-kept) depth 20

    issue-kept :
        (o : CheckoutOrder) (s : StripeSubscription) → Keeps P (issue_monthly_license p e now x o s)
    unfolding issue_monthly_license
    issue-kept o s = search (billing_rules, k.licenses) depth 20

    paid-kept :
        (o : CheckoutOrder) (s : StripeSubscription) (i : Invoice) (a b : Time)
        → Keeps P (fulfil_paid p e now x o s i a b)
    unfolding fulfil_paid
    paid-kept o s i a b = search (billing_rules, issue-kept, k.subscriptions, k.orders) depth 20

    monthly-kept :
        (o : CheckoutOrder) (s : StripeSubscription) (i : Invoice)
        → Keeps P (fulfil_monthly p e now x o s i)
    unfolding fulfil_monthly
    monthly-kept o s i = search (billing_rules, paid-kept) depth 20

    unpaid-kept : (o : CheckoutOrder) → Keeps P (record_unpaid p e now x o)
    unfolding record_unpaid
    unpaid-kept o = search (billing_rules, k.orders) depth 20

    first-kept :
        (s : Option StripeSubscription) (o : CheckoutOrder) → Keeps P (first_purchase p e now x s o)
    unfolding first_purchase
    first-kept none o = unpaid-kept o
    first-kept (some s) o = search (billing_rules, monthly-kept, unpaid-kept) depth 20

    unblocked_monthly-kept :
        (id : Option Bytes) (o : CheckoutOrder) → Keeps P (apply_unblocked p e now x id o)
    unfolding apply_unblocked
    unblocked_monthly-kept none o = first-kept x.subscription o
    unblocked_monthly-kept (some id) o = update-kept id o

    pub apply-kept : (o : CheckoutOrder) → Keeps P (apply_monthly_purchase p e now x o)
    unfolding apply_monthly_purchase
    apply-kept o = search (billing_rules, unblocked_monthly-kept) depth 20

module _ {P : Db → Type 0} (p : EventProcessor) (k : KeepsCommits p.licenses P) (e : BillingEvent)
    (now : Time) where
  module _ (session : CheckoutSession) where
    settle-kept : (o : Option CheckoutOrder) → Keeps P (settle_order p e session now o)
    unfolding settle_order
    settle-kept none = search keeps_rules
    settle-kept (some o) =
        search (billing_rules, unblocked-kept p k.billing e now session, k.advances) depth 20

    pub settle_perpetual-kept : Keeps P (transact (settle_perpetual p e session now))
    unfolding settle_perpetual settle_new
    settle_perpetual-kept =
        Keeps-transact_all _ (search (billing_rules, settle-kept, k.events) depth 20)

  module _ (x : Snapshot) where
    locked-kept : (o : CheckoutOrder) → Keeps P (apply_locked p e now x o)
    unfolding apply_locked
    locked-kept o = search (billing_rules, apply-kept p k.billing e now x, k.advances) depth 20

    snapshot-kept : Keeps P (apply_snapshot p e now x)
    unfolding apply_snapshot
    snapshot-kept = search (billing_rules, locked-kept) depth 20

  outcome-kept : (x : Option Snapshot) → Keeps P (monthly_outcome p e now x)
  unfolding monthly_outcome
  outcome-kept none = search keeps_rules
  outcome-kept (some x) = snapshot-kept x

  pub commit_monthly-kept : (x : Option Snapshot) → Keeps P (commit_monthly_event p e now x)
  unfolding commit_monthly_event commit_locked apply_new
  commit_monthly-kept x =
      Keeps-transact_all _ (search (billing_rules, outcome-kept, k.events) depth 20)

-- What a property has to survive in order to survive the issue of a license.
pub issued-kept :
    {P : Db → Type 0} (s : Service)
    → ((l : License) → Keeps P (execute (insert_license l)))
    → ((k : LicenseKey) → Keeps P (execute (insert_key k)))
    → ((o : LicenseDelivery) → Keeps P (execute (insert_delivery o)))
    → (x : PurchasedLicense) (now : Time) → Keeps P (issue_purchased_license s x now)
unfolding issue_purchased_license
issued-kept s licenses keys deliveries x now =
    search (keeps_rules, read_rules, licenses, keys, deliveries) depth 40

pub Keeps-and :
    {P Q : Db → Type 0} {A : Type 0} (m : M A) → Keeps P m → Keeps Q m → Keeps (λ d. P d × Q d) m
Keeps-and m k l = record { at = λ d v h. (k.at d v h.0, l.at d v h.1) }

pub KeepsBilling-and :
    {P Q : Db → Type 0} (s : Service)
    → KeepsBilling s P
    → KeepsBilling s Q
    → KeepsBilling s (λ d. P d × Q d)
KeepsBilling-and s k l = record {
  orders = λ id f same. Keeps-and _ (k.orders id f same) (l.orders id f same);
  licenses = λ x now. Keeps-and _ (k.licenses x now) (l.licenses x now);
  projections = λ id x. Keeps-and _ (k.projections id x) (l.projections id x);
  subscriptions = λ r. Keeps-and _ (k.subscriptions r) (l.subscriptions r);
}
