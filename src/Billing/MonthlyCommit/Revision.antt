-- ===== src/Billing/MonthlyCommit/Revision.antt =====
-- internal/billing/monthly_event.go: a commit and the revision of its order.
use glass_eqserver.Prelude.{
  suc, true, Bytes, [], some, is_some, ◌≡◌, refl, ◌⊎◌, inl, inr, find_row, arith,
}
use glass_eqserver.Store.Tables.{Time, CheckoutOrder, StripeEvent, Db}
use glass_eqserver.Store.Rules.{
  Ensures, Ensures-pure, Ensures-bind, Ensures-execute, Ensures-weaken, after_or_throw,
  after_throw_if, after_execute,
}
use glass_eqserver.Store.Reads.{after_kept}
use glass_eqserver.Billing.Ledger.{BillingEvent, is_order, is_event}
use glass_eqserver.Billing.Processor.{EventProcessor}
use glass_eqserver.Billing.MonthlyRows.{Snapshot}
use glass_eqserver.Billing.MonthlyCommit.{
  apply_locked, apply_snapshot, monthly_outcome, apply_new, commit_locked,
}
use glass_eqserver.Billing.Steps.{after_matching, after_read_order, Ensures-when}
use glass_eqserver.Billing.Kept.{KeepsBilling-and, apply-kept}
use glass_eqserver.Billing.Orders.{
  UniqueOrders, select-find, find_by_id, AtRevision, settled-AtRevision, advance-AtRevision,
}
use glass_eqserver.Billing.Events.{
  Recorded, settled-Recorded, ProcessedAt, complete-ProcessedAt, complete-orders, update-events,
}

-- What a commit that goes on did for a snapshot: the order was at the snapshot's revision, is at
-- the next one, and the event is processed.
pub record CommittedAt (e : BillingEvent) (now : Time) (x : Snapshot) (d d' : Db) : Type 0 where
  pub order : CheckoutOrder
  pub locked : find_row (is_order order.id) d.checkout_orders ≡ some order
  pub fresh : order.billing_revision ≡ x.order.billing_revision
  pub advanced : AtRevision order.id (suc x.order.billing_revision) d'.checkout_orders
  pub outcome : Bytes
  pub processed : ProcessedAt e.id now outcome d'

-- The event was processed before, and nothing is written.
pub record LeftAlone (e : BillingEvent) (d d' : Db) : Type 0 where
  pub row : StripeEvent
  pub found : find_row (is_event e.id) d.stripe_events ≡ some row
  pub processed : is_some row.processed ≡ true
  pub same : d' ≡ d

module _ (p : EventProcessor) (e : BillingEvent) (now : Time) (x : Snapshot) (d : Db)
    (row : StripeEvent) (recorded : Recorded e.id row d)
    (unique : UniqueOrders d.checkout_orders) where
  -- After the order's revision is advanced.
  record Applied (d' : Db) : Type 0 where
    order : CheckoutOrder
    locked : find_row (is_order order.id) d.checkout_orders ≡ some order
    fresh : order.billing_revision ≡ x.order.billing_revision
    advanced : AtRevision order.id (suc x.order.billing_revision) d'.checkout_orders
    kept : Recorded e.id row d'

  apply_locked-Applied :
      (o : CheckoutOrder)
      → find_row (is_order o.id) d.checkout_orders ≡ some o
      → Ensures (apply_locked p e now x o) d (λ _. Applied)
  unfolding apply_locked
  apply_locked-Applied o locked = after_throw_if _ _ _ λ same. after_throw_if _ _ _ λ valid.
      let fresh : o.billing_revision ≡ x.order.billing_revision = ground arith in
      after_kept
        (λ y. AtRevision o.id x.order.billing_revision y.checkout_orders × Recorded e.id row y) _ _
        (apply-kept p
          (KeepsBilling-and p.licenses (settled-AtRevision p.licenses o.id x.order.billing_revision)
            (settled-Recorded e.id row p.licenses))
          e now x o)
        (record { order = o; found = locked; revision_is = fresh }, recorded)
        λ word mid h. after_execute _ _ λ d' u up. Ensures-pure _ (record {
          order = o;
          locked = locked;
          fresh = fresh;
          advanced = advance-AtRevision o.id x.order.billing_revision mid d' h.0 up;
          kept = rw (update-events o.id _ mid d' up) h.1;
        })

  apply_snapshot-Applied : Ensures (apply_snapshot p e now x) d (λ _. Applied)
  unfolding apply_snapshot
  apply_snapshot-Applied =
      after_read_order _ _ _ _ (after_or_throw _ _ _ (λ o h. absurd (ground arith))) λ o sole.
        after_or_throw _ _ _ λ q same.
          let same_order : o ≡ q = ground arith in
          rw (← same_order) (
            apply_locked-Applied o
              (find_by_id _ d.checkout_orders o unique (select-find _ d.checkout_orders o [] sole)))

  new-CommittedAt : Ensures (apply_new p e now (some x)) d (λ _. CommittedAt e now x d)
  unfolding apply_new monthly_outcome
  new-CommittedAt = Ensures-bind _ _ (
      Ensures-weaken _ apply_snapshot-Applied λ word mid h. Ensures-execute _ λ d' u done. record {
        order = h.order;
        locked = h.locked;
        fresh = h.fresh;
        advanced = rw (complete-orders e.id now word mid d' done) h.advanced;
        outcome = word;
        processed = complete-ProcessedAt e.id now word row mid d' h.kept done;
      })

-- Where the IDs of the orders differ, the transaction of a monthly event that goes on past its
-- commit either found the event processed and wrote nothing, or found the order at the revision
-- of the snapshot, left it at the next revision, and left the event processed.
pub commit_locked-CommittedAt :
    (p : EventProcessor) (e : BillingEvent) (now : Time) (x : Snapshot) (d : Db)
    → UniqueOrders d.checkout_orders
    → Ensures
        (commit_locked p e now (some x))
        d
        (λ _ d'. LeftAlone e d d' ⊎ CommittedAt e now x d d')
unfolding commit_locked
commit_locked-CommittedAt p e now x d unique = after_matching _ _ λ row recorded.
    Ensures-when _ _
      (λ fresh.
        Ensures-weaken _ (new-CommittedAt p e now x d row recorded unique) (λ u d' h. inr h))
      (λ processed.
        inl (record { row = row; found = recorded; processed = ground arith; same = refl }))
