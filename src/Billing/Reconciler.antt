-- ===== src/Billing/Reconciler.antt =====
-- internal/billing/reconciliation.go: the daily scan of the completed sessions of both links. A
-- page that more pages follow is not empty, and a link is given up above 10,000 sessions, so that
-- 10,001 rounds are enough.
pub mod Rounds
use glass_eqserver.Prelude.{
  ℕ, zero, suc, ◌+◌, ◌*◌, Bool, true, false, ◌&&◌, ◌||◌, not, Bytes, codes, List, [], ◌∷◌, ◌++◌,
  Option, none, some, is_some, ltb, length, bytes_eq, find_row, exists_row, if◌then◌else◌, ◌==◌,
}
use glass_eqserver.Store.Tables.{
  Time, CheckoutOrder, BillingAdjustment, Db, order_is_fulfilled, is_blocking,
}
use glass_eqserver.Store.Effect.{
  Exit, next, reply, fail, M, Failure, invalid_checkout_session, unfulfilled_session, empty_page,
  reconciliation_limit, repeated_page, pure, throw, throw_if, or_throw, query, ◌>>=◌, ◌>>◌,
}
use glass_eqserver.Activation.Time.{day, truncate, unix}
use glass_eqserver.Billing.Objects.{Page, CheckoutSession, is_paid, is_complete, some_such}
use glass_eqserver.Billing.Client.{Stripe, same_bool, valid_stripe_id, list_payment_link_sessions}
use glass_eqserver.Billing.Ledger.{BillingEvent, is_blocked_by, is_unsettled}
use glass_eqserver.Billing.Processor.{EventProcessor, of_session}
use glass_eqserver.Billing.Process.{process_event}

-- Stripe and the clock as the scan of a link meets them: at a page after so many sessions, and at
-- the n-th session. `format_day` is Go's `Format("20060102")`.
pub record Reconciler : Type 0 where
  pub processor : EventProcessor
  pub page_stripe : Bytes → ℕ → Stripe
  pub session_stripe : Bytes → ℕ → ℕ → Stripe
  pub clock : Bytes → ℕ → Time
  pub format_day : Time → Bytes

abbrev pub maximum_link_sessions : ℕ
maximum_link_sessions = 10000

-- What is returned: how many purchases were recovered, and the first error of a session.
pub record Scan : Type 0 where
  pub recovered : ℕ
  pub first_error : Option Failure

abbrev pub caught_exit : Exit (Unit {0}) → Exit (Option Failure)
caught_exit (next a) = next none
caught_exit (reply r) = next none
caught_exit (fail e) = next (some e)

-- A call whose error is kept as a value.
unfoldable pub caught : M (Unit {0}) → M (Option Failure)
caught m d v = let (x, d', v') = m d v in (caught_exit x, d', v')

abbrev pub restricts : Bytes → BillingAdjustment → Bool
restricts order_id a = is_blocked_by order_id a || is_unsettled order_id a

abbrev pub order_restricted : Db → CheckoutOrder → Bool
order_restricted d o = exists_row (restricts o.id) d.billing_adjustments

abbrev pub fulfilled_in : Bytes → Db → Bool
fulfilled_in session_id d =
    exists_row (λ o. of_session session_id o && order_is_fulfilled o.state) d.checkout_orders

abbrev pub restricted_in : Bytes → Db → Bool
restricted_in session_id d =
    exists_row (λ o. of_session session_id o && order_restricted d o) d.checkout_orders

abbrev pub order_blocked : Db → CheckoutOrder → Bool
order_blocked d o = exists_row (is_blocked_by o.id) d.billing_adjustments

-- Whether an order is fulfilled or blocked, if there is one.
abbrev pub order_settled : Db → Option CheckoutOrder → Option Bool
order_settled d none = none
order_settled d (some o) = some (order_is_fulfilled o.state || order_blocked d o)

-- The processor at the n-th session.
abbrev pub processor_at : Reconciler → Bytes → ℕ → EventProcessor
processor_at r link n = record r.processor { stripe = r.session_stripe link n }

abbrev pub last_id : List (Option CheckoutSession) → Bytes → Bytes
last_id [] cursor = cursor
last_id (none ∷ []) cursor = cursor
last_id (some s ∷ []) cursor = s.id
last_id (s ∷ t ∷ rest) cursor = last_id (t ∷ rest) cursor

abbrev pub page_length : Page CheckoutSession → ℕ
page_length page = length page.data_items

abbrev pub enough_rounds : ℕ
enough_rounds = 10001

module _ (r : Reconciler) (today : Time) where
  abbrev pub reconciliation_event : Bytes → BillingEvent
  unfolding unix
  reconciliation_event session_id = record {
    id = codes "reconcile_" ++ r.format_day today ++ codes "_" ++ session_id;
    object = [];
    api_version = [];
    event_type = codes "reconciliation.checkout_session";
    created = unix today;
    livemode = none;
    object_id = session_id;
    object_kind = codes "checkout.session";
  }

  unfoldable pub reconcile_session : Bytes → ℕ → Bytes → M (Unit {0})
  reconcile_session link n session_id = do
    process_event (processor_at r link n) (reconciliation_event session_id) (r.clock link n)
    found ← query λ d. order_settled d (find_row (of_session session_id) d.checkout_orders)
    settled ← or_throw found invalid_checkout_session
    throw_if (not settled) unfulfilled_session

  abbrev pub listed_valid : Bytes → CheckoutSession → Bool
  listed_valid link session =
      valid_stripe_id r.processor.checkout.platform session.id (codes "cs_")
      && some_such session.payment_link (λ id. bytes_eq id link)
      && same_bool session.livemode r.processor.live_mode
      && is_complete session.status

  abbrev pub counted : Bool → Option Failure → Scan → Scan
  counted fulfilled none x = if fulfilled then x else record x { recovered = x.recovered + 1 }
  counted fulfilled (some e) x =
      if is_some x.first_error then x else record x { first_error = some e }

  abbrev pub passed_over : Bytes → Bool → Bool → Bool
  passed_over link fulfilled restricted =
      restricted || (fulfilled && bytes_eq link r.processor.products.perpetual_link_id)

  unfoldable pub scan_paid : ℕ → Bytes → Bytes → Scan → M Scan
  unfolding reconcile_session
  scan_paid n link session_id x = do
    (fulfilled, restricted) ← query (λ d. (fulfilled_in session_id d, restricted_in session_id d))
    if passed_over link fulfilled restricted
        then pure x
        else (caught (reconcile_session link n session_id) >>= λ error.
            pure (counted fulfilled error x))

  unfoldable pub scan_session : ℕ → Bytes → Option CheckoutSession → Scan → M Scan
  unfolding scan_paid
  scan_session n link listed x = do
    session ← or_throw listed invalid_checkout_session
    throw_if (not (listed_valid link session)) invalid_checkout_session
    if is_paid session.payment_status then scan_paid n link session.id x else pure x

  unfoldable pub scan_page : ℕ → Bytes → List (Option CheckoutSession) → Scan → M Scan
  unfolding scan_session
  scan_page n link [] x = pure x
  scan_page n link (s ∷ rest) x = do y ← scan_session n link s x; scan_page (n + 1) link rest y

  -- The pages of a link from a cursor on, after `seen` sessions.
  unfoldable pub scan_link : ℕ → ℕ → Bytes → Bytes → Scan → M Scan
  unfolding list_payment_link_sessions scan_page
  scan_link zero seen link cursor x = throw reconciliation_limit
  scan_link (suc fuel) seen link cursor x = do
    page ← list_payment_link_sessions r.processor.checkout (r.page_stripe link seen) link cursor
    throw_if (page_length page == 0 && page.has_more) empty_page
    throw_if (ltb maximum_link_sessions (seen + page_length page)) reconciliation_limit
    y ← scan_page seen link page.data_items x
    let following = last_id page.data_items cursor
    if not page.has_more
        then pure y
        else (throw_if (bytes_eq following cursor) repeated_page
            >> scan_link fuel (seen + page_length page) link following y)

  unfoldable pub run_links : M Scan
  run_links = do
    x ←
        scan_link enough_rounds 0 r.processor.products.perpetual_link_id []
          (record { recovered = 0; first_error = none })
    scan_link enough_rounds 0 r.processor.products.monthly_link_id [] x

-- The partial count that the source returns beside an error is left out.
unfoldable pub run : Reconciler → Time → M Scan
run r today = run_links r (truncate today day)
