-- ===== src/Billing/Process/Repeated.antt =====
-- internal/billing/event.go: an event that is delivered again after it was processed.
use glass_eqserver.Prelude.{
  Bool, true, false, not, some, is_some, ◌≡◌, refl, sym, subst, find_row, arith,
}
use glass_eqserver.Store.Tables.{Time, StripeEvent, Db}
use glass_eqserver.Store.Effect.{Env, pure, ◌>>=◌}
use glass_eqserver.Store.Rules.{Ensures, Ensures-execute}
use glass_eqserver.Store.Keeps.{Keeps-execute}
use glass_eqserver.Store.Reads.{left_by_bind}
use glass_eqserver.Activation.System.Section.{left_by}
use glass_eqserver.Billing.Ledger.{
  BillingEvent, when, is_event, insert_event, matching_billing_event,
}
use glass_eqserver.Billing.Processor.{EventProcessor}
use glass_eqserver.Billing.Kept.{matching-kept}
use glass_eqserver.Billing.Steps.{Ensures-matching}
use glass_eqserver.Billing.Process.{process_new, process_event}

module _ (p : EventProcessor) (e : BillingEvent) (now : Time) (d : Db) (row : StripeEvent)
    (found : find_row (is_event e.id) d.stripe_events ≡ some row)
    (done : is_some row.processed ≡ true) where
  inserted : (d' : Db) (u : Unit {0}) → insert_event e d ≡ some (d', u) → d' ≡ d
  unfolding insert_event
  inserted d' u h = ground arith

  skipped : (w : Env) (b : Bool) → b ≡ true → (when (not b) (process_new p e now) d w).1 ≡ d
  unfolding when pure
  skipped w true h = refl
  skipped w false h = cc

  row_done :
      (other : StripeEvent)
      → find_row (is_event e.id) d.stripe_events ≡ some other
      → is_some other.processed ≡ true
  row_done other h = cc

  matched :
      Ensures
        (matching_billing_event e)
        d
        (λ b d'. (w : Env) → (when (not b) (process_new p e now) d' w).1 ≡ d)
  matched = Ensures-matching e (λ other h w. skipped w _ (row_done other h))

  rest :
      (w : Env) → ((matching_billing_event e >>= λ b. when (not b) (process_new p e now)) d w).1 ≡ d
  rest w =
      left_by_bind (λ x. x ≡ d) _ _ d w ((matching-kept {P = λ x. x ≡ d} e).at d w refl) matched

  -- An event whose record is processed changes nothing, whatever it says and whatever is met.
  pub process_event-processed : (v : Env) → left_by (process_event p e now) d v ≡ d
  unfolding process_event
  process_event-processed v =
      left_by_bind (λ x. x ≡ d) _ _ d v
        ((Keeps-execute {P = λ x. x ≡ d} (insert_event e)
            λ a b u same h. inserted b u (subst (λ x. insert_event e x ≡ some (b, u)) same h)).at
          d v refl)
        (Ensures-execute _ λ d' u h.
          subst
            (λ x.
              (w : Env)
              → ((matching_billing_event e >>= λ b. when (not b) (process_new p e now)) x w).1 ≡ d)
            (sym (inserted d' u h)) rest)
