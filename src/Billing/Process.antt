-- ===== src/Billing/Process.antt =====
-- internal/billing/event.go: an event of the webhook, from its body to its outcome.
pub mod Repeated
use glass_eqserver.Prelude.{
  ℕ, Bool, true, false, ◌&&◌, ◌||◌, not, Bytes, codes, Option, none, some, bytes_eq, if◌then◌else◌,
}
use glass_eqserver.Store.Tables.{Time}
use glass_eqserver.Store.Effect.{
  M, invalid_billing_event, invalid_checkout_session, pure, throw_if, or_throw, execute, transact,
  ◌>>=◌, ◌>>◌,
}
use glass_eqserver.Billing.Objects.{CheckoutSession, is_subscription_mode}
use glass_eqserver.Billing.Client.{same_bool, retrieve_purchase}
use glass_eqserver.Billing.Decode.{decode_billing_event}
use glass_eqserver.Billing.Ledger.{BillingEvent, when, insert_event, matching_billing_event}
use glass_eqserver.Billing.Processor.{EventProcessor, ensure_payment_link_order, settle_perpetual}
use glass_eqserver.Billing.MonthlyCommit.{commit_monthly_event}
use glass_eqserver.Billing.MonthlyEvent.{process_monthly_event}
use glass_eqserver.Billing.AdjustmentEvent.{process_adjustment}

abbrev pub is_adjustment_event : BillingEvent → Bool
is_adjustment_event e =
    bytes_eq e.object_kind (codes "refund") || bytes_eq e.object_kind (codes "dispute")

abbrev pub is_session_event : BillingEvent → Bool
is_session_event e = bytes_eq e.object_kind (codes "checkout.session")

module _ (p : EventProcessor) (e : BillingEvent) (now : Time) where
  unfoldable pub process_session : CheckoutSession → Bool → M (Unit {0})
  process_session session owned =
      if not owned
      then commit_monthly_event p e now none
      else if is_subscription_mode session.mode
      then process_monthly_event p e now (some session)
      else transact (settle_perpetual p e session now)

  unfoldable pub process_checkout : M (Unit {0})
  unfolding retrieve_purchase ensure_payment_link_order
  process_checkout = do
    session ← retrieve_purchase p.checkout (p.stripe 0) e.object_id
    throw_if (not (same_bool session.livemode p.live_mode)) invalid_checkout_session
    owned ← ensure_payment_link_order p session now
    process_session session owned

  unfoldable pub process_new : M (Unit {0})
  process_new =
      if is_adjustment_event e
      then process_adjustment p e now
      else if not (is_session_event e)
      then process_monthly_event p e now none
      else process_checkout

  unfoldable pub process_event : M (Unit {0})
  process_event = do
    execute (insert_event e)
    processed ← matching_billing_event e
    when (not processed) process_new

module _ (p : EventProcessor) (unmarshal : Bytes → Option BillingEvent) where
  unfoldable pub process : Bytes → Time → M (Unit {0})
  process body now = do
    e ←
        or_throw (decode_billing_event p.checkout.platform unmarshal body p.live_mode now)
          invalid_billing_event
    process_event p e now
