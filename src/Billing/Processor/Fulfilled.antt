-- ===== src/Billing/Processor/Fulfilled.antt =====
-- internal/billing/event.go: what the fulfilment of a perpetual purchase requires and does.
use glass_eqserver.Prelude.{
  true, false, Bytes, ◌∷◌, none, some, ◌≡◌, refl, ◌∙◌, ◌⊎◌, inl, inr, find_row, exists_row, arith,
}
use glass_eqserver.Store.Tables.{
  Time, License, LicenseKey, LicenseDelivery, CheckoutOrder, OrderState, Db, order_is_fulfilled,
}
use glass_eqserver.Store.Rules.{
  Ensures, Ensures-pure, Ensures-throw, Ensures-bind, Ensures-weaken, after_or_throw,
  after_throw_if, after_execute,
}
use glass_eqserver.Store.Keeps.{Keeps-execute}
use glass_eqserver.Billing.Kept.{Keeps-when}
use glass_eqserver.Store.Effect.{execute, pure, ◌>>=◌}
use glass_eqserver.Store.Reads.{after_read, after_kept, Ensures-if}
use glass_eqserver.Activation.Service.{Service}
use glass_eqserver.Activation.Steps.{after_random_value, after_seal}
use glass_eqserver.Activation.Reads.{license_key-kept}
use glass_eqserver.Activation.Rotation.{insert_key}
use glass_eqserver.Activation.RecoveryRequest.{normalize_recovery_email}
use glass_eqserver.Activation.Purchase.{
  PurchasedLicense, purchased_license, insert_license, insert_delivery, issue_purchased_license,
}
use glass_eqserver.Billing.Objects.{
  SessionStatus, open_session, complete, expired, other_session, CheckoutSession, is_paid,
}
use glass_eqserver.Billing.Ledger.{BillingEvent, is_order, is_blocked_by, update_order, advanced}
use glass_eqserver.Billing.Perpetual.{validate_perpetual_purchase}
use glass_eqserver.Billing.Steps.{after_restriction, after_throw_error}
use glass_eqserver.Billing.Orders.{found_changed, update-licenses}
use glass_eqserver.Billing.Processor.{
  EventProcessor, fulfil_perpetual, decline_perpetual, mark_failed, settle_valid, settle_unblocked,
  settle_order, fulfilled_by,
}

-- One license is issued, for the plan, and no order is touched.
pub record IssuedOne (x : PurchasedLicense) (d : Db) (id : Bytes) (d' : Db) : Type 0 where
  pub license : License
  pub added : d'.licenses ≡ license ∷ d.licenses
  pub id_is : license.id ≡ id
  pub plan_is : license.plan ≡ x.plan
  pub orders : d'.checkout_orders ≡ d.checkout_orders
  pub adjustments : d'.billing_adjustments ≡ d.billing_adjustments

license_added :
    (l : License) (d d' : Db)
    → insert_license l d ≡ some (d', tt)
    → d' ≡ record d { licenses = l ∷ d.licenses }
unfolding insert_license
license_added l d d' e = ground arith

key_added :
    (k : LicenseKey) (d d' : Db)
    → insert_key k d ≡ some (d', tt)
    → d' ≡ record d { license_keys = k ∷ d.license_keys }
unfolding insert_key
key_added k d d' e = ground arith

delivery_added :
    (o : LicenseDelivery) (d d' : Db)
    → insert_delivery o d ≡ some (d', tt)
    → d' ≡ record d { license_deliveries = o ∷ d.license_deliveries }
unfolding insert_delivery
delivery_added o d d' e = ground arith

pub issue-IssuedOne :
    (s : Service) (x : PurchasedLicense) (now : Time) (d : Db)
    → Ensures (issue_purchased_license s x now) d (IssuedOne x d)
unfolding issue_purchased_license
issue-IssuedOne s x now d = after_throw_if _ _ _ λ valid. after_random_value s _ _ _ λ id.
    after_random_value s _ _ _ λ key_id. after_random_value s _ _ _ λ delivery_id.
      after_read _ _ (λ P. license_key-kept s)
        λ key. after_seal s _ _ _ _ λ email. after_seal s _ _ _ _ λ sealed.
          after_execute _ _ λ d1 u e1. after_execute _ _ λ d2 w e2. after_execute _ _ λ d3 y e3.
            let a1 = license_added _ d d1 e1 in
            let a2 = key_added _ d1 d2 e2 in
            let a3 = delivery_added _ d2 d3 e3 in
            Ensures-pure _ (record {
              license = purchased_license s x id (normalize_recovery_email s x.email).0 email now;
              added = rw (a3, a2, a1) refl;
              id_is = refl;
              plan_is = refl;
              orders = rw (a3, a2, a1) refl;
              adjustments = rw (a3, a2, a1) refl;
            })

-- The order is bound to the one license that is new.
pub record BoundTo (order : CheckoutOrder) (d d' : Db) : Type 0 where
  pub license : License
  pub added : d'.licenses ≡ license ∷ d.licenses
  pub plan_is : license.plan ≡ order.plan
  pub row : CheckoutOrder
  pub found : find_row (is_order order.id) d'.checkout_orders ≡ some row
  pub state_is : row.state ≡ OrderState.fulfilled
  pub license_is : row.license_id ≡ some license.id

pub record FulfilledOnce (p : EventProcessor) (session : CheckoutSession) (order : CheckoutOrder)
    (d d' : Db) : Type 0 where
  pub valid :
      validate_perpetual_purchase p.checkout.platform session order p.products.perpetual_v1
        p.products.perpetual_link_id
      ≡ none
  pub paid : is_paid session.payment_status ≡ true
  pub unfulfilled : order_is_fulfilled order.state ≡ false
  pub unblocked : exists_row (is_blocked_by order.id) d.billing_adjustments ≡ false
  pub bound : BoundTo order d d'

module _ (p : EventProcessor) (e : BillingEvent) (session : CheckoutSession) (now : Time)
    (order : CheckoutOrder) (d : Db)
    (locked : find_row (is_order order.id) d.checkout_orders ≡ some order) where
  fulfil-BoundTo : Ensures (fulfil_perpetual p e session now order) d (λ _. BoundTo order d)
  unfolding fulfil_perpetual
  fulfil-BoundTo = after_or_throw _ _ _ λ customer c. after_or_throw _ _ _ λ email m.
      Ensures-bind _ _ (
        Ensures-weaken _ (issue-IssuedOne p.licenses _ now d) λ id mid h.
          after_or_throw _ _ _ λ intent i. after_execute _ _ λ d' u up.
            let there : find_row (is_order order.id) mid.checkout_orders ≡ some order =
              rw h.orders locked in
            Ensures-pure _ (record {
              license = h.license;
              added = update-licenses order.id _ mid d' up ∙ h.added;
              plan_is = h.plan_is;
              row = fulfilled_by id now session.id intent.id order;
              found = found_changed order.id _ order mid d' (λ x. refl) there up;
              state_is = refl;
              license_is = rw h.id_is refl;
            }))

  mark-same : Ensures (mark_failed p e session now order) d (λ _ d'. d'.licenses ≡ d.licenses)
  unfolding mark_failed
  mark-same =
      after_kept (λ y. y.licenses ≡ d.licenses) _ _
        (Keeps-when _ (Keeps-execute _ λ a b u h up. update-licenses order.id _ a b up ∙ h)) refl
        λ u d' h. Ensures-pure _ h

  decline-same :
      (s : SessionStatus)
      → Ensures (decline_perpetual p e session now s order) d (λ _ d'. d'.licenses ≡ d.licenses)
  unfolding decline_perpetual
  decline-same open_session = mark-same
  decline-same complete = mark-same
  decline-same expired = Ensures-throw _
  decline-same (other_session word) = Ensures-throw _

  valid-settled : Ensures (settle_unblocked p e session now order) d (λ _ d'.
      (d'.licenses ≡ d.licenses)
      ⊎ ((exists_row (is_blocked_by order.id) d.billing_adjustments ≡ false)
          → FulfilledOnce p session order d d'))
  unfolding settle_unblocked settle_valid
  valid-settled = after_throw_error _ _ λ valid.
      Ensures-if _ _ _ (λ done. Ensures-pure _ (inl refl))
        λ unsettled.
          Ensures-if _ _ _
            (λ paid. Ensures-weaken _ fulfil-BoundTo λ word d' h. inr λ free. record {
              valid = valid;
              paid = paid;
              unfulfilled = unsettled;
              unblocked = free;
              bound = h;
            })
            (λ unpaid. Ensures-weaken _ (decline-same session.status) λ word d' h. inl h)

  advance-bound :
      (mid d' : Db)
      → BoundTo order d mid
      → update_order order.id advanced mid ≡ some (d', tt)
      → BoundTo order d d'
  advance-bound mid d' h up = record {
    license = h.license;
    added = update-licenses order.id _ mid d' up ∙ h.added;
    plan_is = h.plan_is;
    row = advanced h.row;
    found = found_changed order.id advanced h.row mid d' (λ x. refl) h.found up;
    state_is = h.state_is;
    license_is = h.license_is;
  }

  Settled : Db → Type 0
  Settled d' = (d'.licenses ≡ d.licenses) ⊎ FulfilledOnce p session order d d'

  advance-Settled :
      (mid d' : Db) → Settled mid → update_order order.id advanced mid ≡ some (d', tt) → Settled d'
  unfolding Settled
  advance-Settled mid d' (inl h) up = inl (update-licenses order.id _ mid d' up ∙ h)
  advance-Settled mid d' (inr h) up = inr (record {
    valid = h.valid;
    paid = h.paid;
    unfulfilled = h.unfulfilled;
    unblocked = h.unblocked;
    bound = advance-bound mid d' h.bound up;
  })

  after_advance :
      (word : Bytes) (mid : Db)
      → Settled mid
      → Ensures (execute (update_order order.id advanced) >>= λ u. pure word) mid (λ _. Settled)
  after_advance word mid h =
      after_execute _ _ λ d' u up. Ensures-pure _ (advance-Settled mid d' h up)

  settled : Ensures (settle_order p e session now (some order)) d (λ _. Settled)
  unfolding settle_order Settled
  settled = after_restriction _ _ (
      Ensures-bind _ _ (
        Ensures-if _ _ _ (λ blocked. Ensures-pure _ (after_advance _ d (inl refl)))
          λ free. Ensures-weaken _ valid-settled λ word mid h.
            after_advance word mid (elim h [ inl same ↦ inl same | inr done ↦ inr (done free) ])))

-- Where the order is the row of its ID, settling it for a session of a perpetual purchase issues
-- no license, or issues one: then the session is a valid purchase and is paid, the order was not
-- fulfilled and nothing blocks it, the license has the order's plan and is the only new one, and
-- the order is fulfilled by it.
pub settle_order-FulfilledOnce :
    (p : EventProcessor) (e : BillingEvent) (session : CheckoutSession) (now : Time)
    (order : CheckoutOrder) (d : Db)
    → find_row (is_order order.id) d.checkout_orders ≡ some order
    → Ensures
        (settle_order p e session now (some order))
        d
        (λ _ d'. (d'.licenses ≡ d.licenses) ⊎ FulfilledOnce p session order d d')
unfolding Settled
settle_order-FulfilledOnce p e session now order d locked = settled p e session now order d locked
