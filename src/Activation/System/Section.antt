-- ===== src/Activation/System/Section.antt =====
-- internal/activation and internal/billing: the units that PostgreSQL commits. A section is one
-- transaction of a handler, or one statement that runs outside a transaction.
use glass_eqserver.Prelude.{ℕ, Bool, Bytes, Option}
use glass_eqserver.Store.Tables.{
  Time, CheckoutOrder, RecoveryJob, RecoveryEmailRow, LicenseDelivery, Db,
}
use glass_eqserver.Store.Effect.{Env, M, transact, execute, execute_nowait}
use glass_eqserver.Activation.Service.{Service, database_busy_response}
use glass_eqserver.Activation.Idempotency.{IdempotencyRequest}
use glass_eqserver.Activation.RateLimit.{count_attempts}
use glass_eqserver.Activation.Activate.{Input, PreparedInput, activate_locked, activate}
use glass_eqserver.Activation.Lifecycle.{
  RefreshInput, refresh_locked, refresh_entitlement, deactivate_locked, deactivate_current,
}
use glass_eqserver.Activation.Management.{
  ManagementSessionInput, ManagedDeactivationInput, MintedSession, insert_session, update_managed,
  create_management_session, list_managed_activations, deactivate_managed,
}
use glass_eqserver.Activation.Rotation.{LicenseKeyRotationInput, rotate_locked, rotate_license_key}
use glass_eqserver.Activation.RecoveryRequest.{
  RecoveryRequestInput, request_recovery_locked, request_recovery,
}
use glass_eqserver.Activation.RecoverySession.{
  RecoverySessionInput, exchange_locked, exchange_recovery_token,
}
use glass_eqserver.Activation.Purchase.{PurchasedLicense, issue_purchased_license}
use glass_eqserver.Activation.Retention.{
  Unlocked, purge_idempotency, purge_rate_limits, purge_access_tokens, purge_recovery_jobs,
  purge_recovery_emails, purge_license_deliveries, clear_delivery_keys, cleanup_expired,
}
use glass_eqserver.Activation.Dispatch.Emails.{claim_email, delete_email, dispatch_recovery_email}
use glass_eqserver.Activation.Dispatch.Licenses.{
  ClaimedDelivery, claim_delivery, acknowledge_delivery, dispatch_license_email,
}
use glass_eqserver.Activation.Dispatch.Requests.{claim_job, prepare_locked}
use glass_eqserver.Billing.Objects.{CheckoutSession}
use glass_eqserver.Billing.Ledger.{BillingEvent, insert_event, insert_order}
use glass_eqserver.Billing.Processor.{EventProcessor, settle_perpetual}
use glass_eqserver.Billing.MonthlyRows.{Snapshot}
use glass_eqserver.Billing.MonthlyCommit.{commit_monthly_event}
use glass_eqserver.Billing.AdjustmentView.{AdjustmentView}
use glass_eqserver.Billing.AdjustmentCommit.{prepare_adjustment, commit_adjustment}
use glass_eqserver.Billing.AdjustmentEvent.{repair_pending_adjustment}
use glass_eqserver.Billing.Process.{process}
use glass_eqserver.Billing.Reconciler.{Reconciler, run}

-- The seven statements of CleanupExpired.
pub data Cleanup : Type 0 where
  idempotency rate_limits access_tokens recovery_jobs recovery_emails deliveries delivery_keys :
      Cleanup

unfoldable pub clean : Cleanup → Unlocked → Time → ℕ → Db → Option (Db × ℕ)
clean idempotency = purge_idempotency
clean rate_limits = purge_rate_limits
clean access_tokens = purge_access_tokens
clean recovery_jobs = purge_recovery_jobs
clean recovery_emails = purge_recovery_emails
clean deliveries = purge_license_deliveries
clean delivery_keys = clear_delivery_keys

pub data Section : Type 0 where
  counting : Bytes → Bytes → Time → Section
  activation : PreparedInput → Time → Section
  refresh : Bytes → Bytes → Bytes → Time → Section
  deactivation : Bytes → Time → Section
  new_session : Bytes → MintedSession → Time → Section
  managed_deactivation : Bytes → Bytes → Time → Section
  rotation : IdempotencyRequest → Time → Section
  recovery_request : IdempotencyRequest → Bytes → Bytes → Time → Section
  exchange : IdempotencyRequest → Time → Section
  purchase : PurchasedLicense → Time → Section
  job_claim : (RecoveryJob → Bool) → Time → Section
  preparation : Bytes → Time → Section
  email_claim : (RecoveryEmailRow → Bool) → Time → Section
  email_sent : Bytes → Section
  delivery_claim : (LicenseDelivery → Bool) → Time → Section
  delivery_sent : ClaimedDelivery → Section
  cleanup : Cleanup → Unlocked → Time → ℕ → Section
  event_record : BillingEvent → Section
  link_purchase : CheckoutOrder → Section
  perpetual_event : EventProcessor → BillingEvent → CheckoutSession → Time → Section
  monthly_event : EventProcessor → BillingEvent → Time → Option Snapshot → Section
  adjustment_intent : EventProcessor → BillingEvent → Time → Option AdjustmentView → Section
  adjustment_outcome : EventProcessor → BillingEvent → Time → AdjustmentView → Section

-- The processor that issues licenses by this service.
abbrev pub issuing_by : Service → EventProcessor → EventProcessor
issuing_by s p = record p { licenses = s }

-- The database that an effect leaves behind.
abbrev pub left_by : {A : Type 0} → M A → Db → Env → Db
left_by m d v = (m d v).1

unfoldable pub run_section : Service → Section → Db → Env → Db
run_section s (counting hash client start) = left_by (transact (count_attempts s hash client start))
run_section s (activation p now) = left_by (transact (activate_locked s p now))
run_section s (refresh i installation hash now) =
    left_by (transact (refresh_locked s i installation hash now))
run_section s (deactivation hash now) = left_by (transact (deactivate_locked hash now))
run_section s (new_session hash m now) = left_by (execute (insert_session hash m now))
run_section s (managed_deactivation id license_id now) =
    left_by (execute_nowait database_busy_response (update_managed id license_id now))
run_section s (rotation r now) = left_by (transact (rotate_locked s r now))
run_section s (recovery_request r email client now) =
    left_by (transact (request_recovery_locked s r email client now))
run_section s (exchange r now) = left_by (transact (exchange_locked s r now))
run_section s (purchase p now) = left_by (transact (issue_purchased_license s p now))
run_section s (job_claim free now) = left_by (execute (claim_job free now))
run_section s (preparation id now) = left_by (transact (prepare_locked s id now))
run_section s (email_claim free now) = left_by (execute (claim_email free now))
run_section s (email_sent id) = left_by (execute (delete_email id))
run_section s (delivery_claim free now) = left_by (execute (claim_delivery free now))
run_section s (delivery_sent c) = left_by (transact (acknowledge_delivery c))
run_section s (cleanup c u now size) = left_by (execute (clean c u now size))
run_section s (event_record e) = left_by (execute (insert_event e))
run_section s (link_purchase o) = left_by (execute (insert_order o))
run_section s (perpetual_event p e session now) =
    left_by (transact (settle_perpetual (issuing_by s p) e session now))
run_section s (monthly_event p e now x) = left_by (commit_monthly_event (issuing_by s p) e now x)
run_section s (adjustment_intent p e now v) = left_by (prepare_adjustment (issuing_by s p) e now v)
run_section s (adjustment_outcome p e now v) = left_by (commit_adjustment (issuing_by s p) e now v)

-- The databases that some sequence of sections makes of a first one, with any answers of the
-- outside world at each.
pub data Reachable (s : Service) (first : Db) : Db → Type 0 where
  start : Reachable s first first
  and_then :
      (x : Section) (v : Env) (d : Db)
      → Reachable s first d
      → Reachable s first (run_section s x d v)

-- The calls that the server makes: the requests, the workers, and the billing of Stripe's webhook,
-- of the repair and of the reconciler.
pub data Request : Type 0 where
  activating : Input → Request
  refreshing : RefreshInput → Request
  deactivating : Bytes → Request
  opening_session : ManagementSessionInput → Request
  listing : Bytes → Request
  deactivating_managed : ManagedDeactivationInput → Request
  rotating : LicenseKeyRotationInput → Request
  asking_recovery : RecoveryRequestInput → Request
  exchanging : RecoverySessionInput → Request
  buying : PurchasedLicense → Request
  recovery_worker : (RecoveryJob → Bool) → (RecoveryEmailRow → Bool) → Request
  delivery_worker : (LicenseDelivery → Bool) → Request
  cleanup_worker : Unlocked → Request
  webhook : EventProcessor → (Bytes → Option BillingEvent) → Bytes → Request
  repair_worker : EventProcessor → Request
  reconciliation_worker : Reconciler → Request

-- The reconciler whose processor issues licenses by this service.
abbrev pub reconciling_by : Service → Reconciler → Reconciler
reconciling_by s r = record r { processor = issuing_by s r.processor }

-- The database after a call, which starts at the time `now`.
unfoldable pub serve : Service → Request → Time → Db → Env → Db
serve s (activating i) now = left_by (activate s i now)
serve s (refreshing i) now = left_by (refresh_entitlement s i now)
serve s (deactivating token) now = left_by (deactivate_current s token now)
serve s (opening_session i) now = left_by (create_management_session s i now)
serve s (listing token) now = left_by (list_managed_activations s token now)
serve s (deactivating_managed i) now = left_by (deactivate_managed s i now)
serve s (rotating i) now = left_by (rotate_license_key s i now)
serve s (asking_recovery i) now = left_by (request_recovery s i now)
serve s (exchanging i) now = left_by (exchange_recovery_token s i now)
serve s (buying p) now = left_by (transact (issue_purchased_license s p now))
serve s (recovery_worker jobs emails) now = left_by (dispatch_recovery_email s jobs emails now)
serve s (delivery_worker free) now = left_by (dispatch_license_email s free now)
serve s (cleanup_worker u) now = left_by (cleanup_expired u now)
serve s (webhook p unmarshal body) now = left_by (process (issuing_by s p) unmarshal body now)
serve s (repair_worker p) now = left_by (repair_pending_adjustment (issuing_by s p) now)
serve s (reconciliation_worker r) now = left_by (run (reconciling_by s r) now)
