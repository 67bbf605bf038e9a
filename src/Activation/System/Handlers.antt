-- ===== src/Activation/System/Handlers.antt =====
-- internal/activation: the calls of the service, as sequences of sections.
use glass_eqserver.Prelude.{ℕ, Bool, Bytes, Option, none, some}
use glass_eqserver.Store.Tables.{Time, RecoveryJob, RecoveryEmailRow, LicenseDelivery, Db}
use glass_eqserver.Store.Effect.{Env, M}
use glass_eqserver.Store.Keeps.{Keeps, Keeps-bind, Keeps-pure, keeps_rules}
use glass_eqserver.Activation.Service.{Service}
use glass_eqserver.Activation.Reads.{read_rules}
use glass_eqserver.Activation.RateLimit.{consume_rate_limits}
use glass_eqserver.Activation.Activate.{Input, activate}
use glass_eqserver.Activation.Lifecycle.{RefreshInput, refresh_entitlement, deactivate_current}
use glass_eqserver.Activation.Management.{
  ManagementSessionInput, ManagedDeactivationInput, mint_management_session,
  find_management_license_id, create_management_session, list_managed_activations,
  deactivate_managed,
}
use glass_eqserver.Activation.Rotation.{LicenseKeyRotationInput, rotate_license_key}
use glass_eqserver.Activation.RecoveryRequest.{RecoveryRequestInput, request_recovery}
use glass_eqserver.Activation.RecoverySession.{RecoverySessionInput, exchange_recovery_token}
use glass_eqserver.Activation.Retention.{Unlocked, cleanup_batch, cleanup_expired}
use glass_eqserver.Activation.Dispatch.Emails.{
  ClaimedEmail, send_recovery_email, dispatch_email, attempt, dispatch_recovery_email,
}
use glass_eqserver.Activation.Dispatch.Licenses.{
  ClaimedDelivery, send_license_email, dispatch_license_email,
}
use glass_eqserver.Activation.Dispatch.Requests.{prepare_claimed, prepare_recovery_request}
use glass_eqserver.Activation.System.Section.{
  idempotency, rate_limits, access_tokens, recovery_jobs, recovery_emails, deliveries,
  delivery_keys, clean, Reachable, start, Request, activating, refreshing, deactivating,
  opening_session, listing, deactivating_managed, rotating, asking_recovery, exchanging, buying,
  recovery_worker, delivery_worker, cleanup_worker, webhook, repair_worker, reconciliation_worker,
  serve,
}
use glass_eqserver.Activation.System.BilledUnits.{webhook_lem, repair_lem, reconciliation_lem}
use glass_eqserver.Activation.System.Units.{
  limits_step, activate_step, refresh_step, deactivate_step, session_step, managed_step,
  rotate_step, request_step, exchange_step, purchase_step, job_step, prepare_step, email_step,
  email_sent_step, delivery_step, delivery_sent_step, counted_step,
}

module _ {s : Service} {first : Db} where
  consume_step :
      (hash client : Bytes) (now : Time)
      → Keeps (Reachable s first) (consume_rate_limits s hash client now)
  unfolding consume_rate_limits
  consume_step hash client now = search (keeps_rules, limits_step)

  mint_step : (now : Time) → Keeps (Reachable s first) (mint_management_session s now)
  unfolding mint_management_session
  mint_step now = search (keeps_rules, read_rules) depth 12

  license_step :
      (hash : Bytes) (now : Time) → Keeps (Reachable s first) (find_management_license_id hash now)
  unfolding find_management_license_id
  license_step hash now = search keeps_rules

  activate_lem : (i : Input) (now : Time) → Keeps (Reachable s first) (activate s i now)
  unfolding activate
  activate_lem i now = search (keeps_rules, read_rules, consume_step, activate_step) depth 40

  refresh_lem :
      (i : RefreshInput) (now : Time) → Keeps (Reachable s first) (refresh_entitlement s i now)
  unfolding refresh_entitlement
  refresh_lem i now = search (keeps_rules, refresh_step) depth 20

  deactivate_lem :
      (token : Bytes) (now : Time) → Keeps (Reachable s first) (deactivate_current s token now)
  unfolding deactivate_current
  deactivate_lem token now = search (keeps_rules, deactivate_step) depth 20

  session_lem :
      (i : ManagementSessionInput) (now : Time)
      → Keeps (Reachable s first) (create_management_session s i now)
  unfolding create_management_session
  session_lem i now = search (keeps_rules, consume_step, mint_step, session_step) depth 40

  list_lem :
      (token : Bytes) (now : Time)
      → Keeps (Reachable s first) (list_managed_activations s token now)
  unfolding list_managed_activations
  list_lem token now = search (keeps_rules, read_rules, license_step) depth 20

  managed_lem :
      (i : ManagedDeactivationInput) (now : Time)
      → Keeps (Reachable s first) (deactivate_managed s i now)
  unfolding deactivate_managed
  managed_lem i now = search (keeps_rules, license_step, managed_step) depth 20

  rotate_lem :
      (i : LicenseKeyRotationInput) (now : Time)
      → Keeps (Reachable s first) (rotate_license_key s i now)
  unfolding rotate_license_key
  rotate_lem i now = search (keeps_rules, read_rules, rotate_step) depth 20

  recovery_lem :
      (i : RecoveryRequestInput) (now : Time) → Keeps (Reachable s first) (request_recovery s i now)
  unfolding request_recovery
  recovery_lem i now = search (keeps_rules, read_rules, request_step) depth 20

  exchange_lem :
      (i : RecoverySessionInput) (now : Time)
      → Keeps (Reachable s first) (exchange_recovery_token s i now)
  unfolding exchange_recovery_token
  exchange_lem i now = search (keeps_rules, read_rules, exchange_step) depth 20

  batch_lem :
      (u : Unlocked) (now : Time) (size : ℕ) → Keeps (Reachable s first) (cleanup_batch u now size)
  unfolding cleanup_batch clean
  batch_lem u now size = Keeps-bind _ _ (counted_step idempotency u now size) λ _.
      Keeps-bind _ _ (counted_step rate_limits u now size) λ _.
        Keeps-bind _ _ (counted_step access_tokens u now size) λ _.
          Keeps-bind _ _ (counted_step recovery_jobs u now size) λ _.
            Keeps-bind _ _ (counted_step recovery_emails u now size) λ _.
              Keeps-bind _ _ (counted_step deliveries u now size)
                λ _. Keeps-bind _ _ (counted_step delivery_keys u now size) λ _. Keeps-pure _

  cleanup_lem : (u : Unlocked) (now : Time) → Keeps (Reachable s first) (cleanup_expired u now)
  unfolding cleanup_expired
  cleanup_lem u now = batch_lem u now _

  claimed_lem :
      (now : Time) (o : Option Bytes) → Keeps (Reachable s first) (prepare_claimed s now o)
  unfolding prepare_claimed
  claimed_lem now none = search keeps_rules
  claimed_lem now (some id) = prepare_step id now

  prepare_lem :
      (free : RecoveryJob → Bool) (now : Time)
      → Keeps (Reachable s first) (prepare_recovery_request s free now)
  unfolding prepare_recovery_request
  prepare_lem free now = search (keeps_rules, job_step, claimed_lem)

  send_lem : (o : Option ClaimedEmail) → Keeps (Reachable s first) (send_recovery_email s o)
  unfolding send_recovery_email
  send_lem none = search keeps_rules
  send_lem (some c) = search (keeps_rules, email_sent_step) depth 20

  email_lem :
      (free : RecoveryEmailRow → Bool) (now : Time)
      → Keeps (Reachable s first) (dispatch_email s free now)
  unfolding dispatch_email
  email_lem free now = search (keeps_rules, email_step, send_lem)

  attempt_lem : (m : M Bool) → Keeps (Reachable s first) m → Keeps (Reachable s first) (attempt m)
  unfolding attempt
  attempt_lem m k = record { at = λ d v h. k.at d v h }

  recovery_worker_lem :
      (jobs : RecoveryJob → Bool) (emails : RecoveryEmailRow → Bool) (now : Time)
      → Keeps (Reachable s first) (dispatch_recovery_email s jobs emails now)
  unfolding dispatch_recovery_email
  recovery_worker_lem jobs emails now = search (keeps_rules, attempt_lem, prepare_lem, email_lem)

  send_license_lem :
      (o : Option ClaimedDelivery) → Keeps (Reachable s first) (send_license_email s o)
  unfolding send_license_email
  send_license_lem none = search keeps_rules
  send_license_lem (some c) = search (keeps_rules, delivery_sent_step) depth 20

  delivery_worker_lem :
      (free : LicenseDelivery → Bool) (now : Time)
      → Keeps (Reachable s first) (dispatch_license_email s free now)
  unfolding dispatch_license_email
  delivery_worker_lem free now = search (keeps_rules, delivery_step, send_license_lem)

-- Whatever a call meets, the database that it leaves is one that a sequence of sections makes of
-- the database it found.
pub serve-Reachable :
    (s : Service) (r : Request) (now : Time) (d : Db) (v : Env) → Reachable s d (serve s r now d v)
unfolding serve
serve-Reachable s (activating i) now d v = (activate_lem i now).at d v start
serve-Reachable s (refreshing i) now d v = (refresh_lem i now).at d v start
serve-Reachable s (deactivating token) now d v = (deactivate_lem token now).at d v start
serve-Reachable s (opening_session i) now d v = (session_lem i now).at d v start
serve-Reachable s (listing token) now d v = (list_lem token now).at d v start
serve-Reachable s (deactivating_managed i) now d v = (managed_lem i now).at d v start
serve-Reachable s (rotating i) now d v = (rotate_lem i now).at d v start
serve-Reachable s (asking_recovery i) now d v = (recovery_lem i now).at d v start
serve-Reachable s (exchanging i) now d v = (exchange_lem i now).at d v start
serve-Reachable s (buying p) now d v = (purchase_step p now).at d v start
serve-Reachable s (recovery_worker jobs emails) now d v =
    (recovery_worker_lem jobs emails now).at d v start
serve-Reachable s (delivery_worker free) now d v = (delivery_worker_lem free now).at d v start
serve-Reachable s (cleanup_worker u) now d v = (cleanup_lem u now).at d v start
serve-Reachable s (webhook p unmarshal body) now d v =
    (webhook_lem p unmarshal body now).at d v start
serve-Reachable s (repair_worker p) now d v = (repair_lem p now).at d v start
serve-Reachable s (reconciliation_worker r) now d v = (reconciliation_lem r now).at d v start
