-- ===== src/Billing/Steps.antt =====
-- internal/billing/event.go: the reads of the billing transactions, as rules.
use glass_eqserver.Prelude.{
  Bool, true, false, Bytes, List, [], ◌∷◌, Option, none, some, is_some, ◌≡◌, refl, find_row,
  exists_row, select_rows,
}
use glass_eqserver.Store.Tables.{CheckoutOrder, StripeEvent, Db}
use glass_eqserver.Store.Effect.{M, Failure, ◌>>=◌}
use glass_eqserver.Store.Rules.{
  Ensures, Ensures-pure, Ensures-throw, Ensures-bind, after_query, after_or_throw, after_throw_if,
}
use glass_eqserver.Store.Effect.{gets}
use glass_eqserver.Billing.Ledger.{
  BillingEvent, throw_error, when, is_event, is_blocked_by, matching_billing_event,
  billing_restriction,
}
use glass_eqserver.Billing.MonthlyRows.{is_one_of, sole_order, read_monthly_order}

pub Ensures-matching :
    {Q : Bool → Db → Type 0} (e : BillingEvent) {d : Db}
    → ((row : StripeEvent)
        → find_row (is_event e.id) d.stripe_events ≡ some row
        → Q (is_some row.processed) d)
    → Ensures (matching_billing_event e) d Q
unfolding matching_billing_event
Ensures-matching e h =
    after_query _ _
      (after_or_throw _ _ _ λ row found. after_throw_if _ _ _ λ same. Ensures-pure _ (h row found))

module _ {B : Type 0} {Q : B → Db → Type 0} where
  pub after_gets :
      {A : Type 0} (f : Db → A) (k : A → M B) {d : Db}
      → Ensures (k (f d)) d Q
      → Ensures (gets f >>= k) d Q
  unfolding gets
  after_gets f k h = Ensures-bind (gets f) k (record { at = λ v. h })

module _ {B : Type 0} {Q : B → Db → Type 0} where
  pub after_matching :
      (e : BillingEvent) (k : Bool → M B) {d : Db}
      → ((row : StripeEvent)
          → find_row (is_event e.id) d.stripe_events ≡ some row
          → Ensures (k (is_some row.processed)) d Q)
      → Ensures (matching_billing_event e >>= k) d Q
  after_matching e k h = Ensures-bind _ k (Ensures-matching e h)

  pub after_restriction :
      (id : Bytes) (k : Bool → M B) {d : Db}
      → Ensures (k (exists_row (is_blocked_by id) d.billing_adjustments)) d Q
      → Ensures (billing_restriction id >>= k) d Q
  unfolding billing_restriction
  after_restriction id k h =
      Ensures-bind _ k
        (after_query _ _ (after_gets _ _ (after_throw_if _ _ _ λ settled. Ensures-pure _ h)))

  pub after_throw_error :
      (e : Option Failure) (k : Unit {0} → M B) {d : Db}
      → (e ≡ none → Ensures (k tt) d Q)
      → Ensures (throw_error e >>= k) d Q
  unfolding throw_error
  after_throw_error none k h = Ensures-bind _ k (Ensures-pure tt (h refl))
  after_throw_error (some e) k h = Ensures-bind _ k (Ensures-throw e)

module _ {P : Option CheckoutOrder → Db → Type 0} where
  Ensures-sole :
      (rows : List CheckoutOrder) {d : Db}
      → (rows ≡ [] → P none d)
      → ((o : CheckoutOrder) → rows ≡ o ∷ [] → P (some o) d)
      → Ensures (sole_order rows) d P
  unfolding sole_order
  Ensures-sole [] h k = Ensures-pure _ (h refl)
  Ensures-sole (o ∷ []) h k = Ensures-pure _ (k o refl)
  Ensures-sole (o ∷ other ∷ rest) h k = Ensures-throw _

module _ {B : Type 0} {Q : B → Db → Type 0} where
  -- A read of the order that must be there.
  pub after_read_order :
      (session subscription id : Bytes) (k : Option CheckoutOrder → M B) {d : Db}
      → Ensures (k none) d Q
      → ((o : CheckoutOrder)
          → select_rows (is_one_of session subscription id) d.checkout_orders ≡ o ∷ []
          → Ensures (k (some o)) d Q)
      → Ensures (read_monthly_order session subscription id >>= k) d Q
  unfolding read_monthly_order
  after_read_order session subscription id k h found =
      Ensures-bind _ k (after_query _ _ (Ensures-sole _ (λ e. h) found))

module _ {Q : Unit {0} → Db → Type 0} where
  pub Ensures-when :
      (b : Bool) (m : M (Unit {0})) {d : Db}
      → (b ≡ true → Ensures m d Q)
      → (b ≡ false → Q tt d)
      → Ensures (when b m) d Q
  unfolding when
  Ensures-when true m h k = h refl
  Ensures-when false m h k = Ensures-pure tt (k refl)
