-- ===== src/Activation/System/Units.antt =====
-- internal/activation: the transactions and statements of the handlers, as sections.
use glass_eqserver.Prelude.{ℕ, Bool, Bytes}
use glass_eqserver.Store.Tables.{Time, RecoveryJob, RecoveryEmailRow, LicenseDelivery, Db}
use glass_eqserver.Store.Effect.{transact, execute, execute_nowait}
use glass_eqserver.Store.Keeps.{Keeps, keeps_rules}
use glass_eqserver.Activation.Service.{Service, database_busy_response}
use glass_eqserver.Activation.Idempotency.{IdempotencyRequest}
use glass_eqserver.Activation.RateLimit.{count_attempts}
use glass_eqserver.Activation.Activate.{PreparedInput, activate_locked}
use glass_eqserver.Activation.Lifecycle.{refresh_locked, deactivate_locked}
use glass_eqserver.Activation.Management.{MintedSession, insert_session, update_managed}
use glass_eqserver.Activation.Rotation.{rotate_locked}
use glass_eqserver.Activation.RecoveryRequest.{request_recovery_locked}
use glass_eqserver.Activation.RecoverySession.{exchange_locked}
use glass_eqserver.Activation.Purchase.{PurchasedLicense, issue_purchased_license}
use glass_eqserver.Activation.Retention.{Unlocked, counted}
use glass_eqserver.Activation.Dispatch.Emails.{claim_email, delete_email}
use glass_eqserver.Activation.Dispatch.Licenses.{
  ClaimedDelivery, claim_delivery, acknowledge_delivery,
}
use glass_eqserver.Activation.Dispatch.Requests.{claim_job, prepare_locked}
use glass_eqserver.Activation.System.Section.{
  Cleanup, clean, counting, activation, refresh, deactivation, new_session, managed_deactivation,
  rotation, recovery_request, exchange, purchase, job_claim, preparation, email_claim, email_sent,
  delivery_claim, delivery_sent, cleanup, run_section, Reachable, and_then,
}

module _ {s : Service} {first : Db} where
  pub limits_step :
      (hash client : Bytes) (t : Time)
      → Keeps (Reachable s first) (transact (count_attempts s hash client t))
  unfolding run_section
  limits_step hash client t = record { at = λ d v h. and_then (counting hash client t) v d h }

  pub activate_step :
      (p : PreparedInput) (now : Time)
      → Keeps (Reachable s first) (transact (activate_locked s p now))
  unfolding run_section
  activate_step p now = record { at = λ d v h. and_then (activation p now) v d h }

  pub refresh_step :
      (i installation hash : Bytes) (now : Time)
      → Keeps (Reachable s first) (transact (refresh_locked s i installation hash now))
  unfolding run_section
  refresh_step i installation hash now = record {
    at = λ d v h. and_then (refresh i installation hash now) v d h;
  }

  pub deactivate_step :
      (hash : Bytes) (now : Time)
      → Keeps (Reachable s first) (transact (deactivate_locked hash now))
  unfolding run_section
  deactivate_step hash now = record { at = λ d v h. and_then (deactivation hash now) v d h }

  pub session_step :
      (hash : Bytes) (m : MintedSession) (now : Time)
      → Keeps (Reachable s first) (execute (insert_session hash m now))
  unfolding run_section
  session_step hash m now = record { at = λ d v h. and_then (new_session hash m now) v d h }

  pub managed_step :
      (id license_id : Bytes) (now : Time)
      → Keeps
          (Reachable s first)
          (execute_nowait database_busy_response (update_managed id license_id now))
  unfolding run_section
  managed_step id license_id now = record {
    at = λ d v h. and_then (managed_deactivation id license_id now) v d h;
  }

  pub rotate_step :
      (r : IdempotencyRequest) (now : Time)
      → Keeps (Reachable s first) (transact (rotate_locked s r now))
  unfolding run_section
  rotate_step r now = record { at = λ d v h. and_then (rotation r now) v d h }

  pub request_step :
      (r : IdempotencyRequest) (email client : Bytes) (now : Time)
      → Keeps (Reachable s first) (transact (request_recovery_locked s r email client now))
  unfolding run_section
  request_step r email client now = record {
    at = λ d v h. and_then (recovery_request r email client now) v d h;
  }

  pub exchange_step :
      (r : IdempotencyRequest) (now : Time)
      → Keeps (Reachable s first) (transact (exchange_locked s r now))
  unfolding run_section
  exchange_step r now = record { at = λ d v h. and_then (exchange r now) v d h }

  pub purchase_step :
      (p : PurchasedLicense) (now : Time)
      → Keeps (Reachable s first) (transact (issue_purchased_license s p now))
  unfolding run_section
  purchase_step p now = record { at = λ d v h. and_then (purchase p now) v d h }

  pub job_step :
      (free : RecoveryJob → Bool) (now : Time)
      → Keeps (Reachable s first) (execute (claim_job free now))
  unfolding run_section
  job_step free now = record { at = λ d v h. and_then (job_claim free now) v d h }

  pub prepare_step :
      (id : Bytes) (now : Time) → Keeps (Reachable s first) (transact (prepare_locked s id now))
  unfolding run_section
  prepare_step id now = record { at = λ d v h. and_then (preparation id now) v d h }

  pub email_step :
      (free : RecoveryEmailRow → Bool) (now : Time)
      → Keeps (Reachable s first) (execute (claim_email free now))
  unfolding run_section
  email_step free now = record { at = λ d v h. and_then (email_claim free now) v d h }

  pub email_sent_step : (id : Bytes) → Keeps (Reachable s first) (execute (delete_email id))
  unfolding run_section
  email_sent_step id = record { at = λ d v h. and_then (email_sent id) v d h }

  pub delivery_step :
      (free : LicenseDelivery → Bool) (now : Time)
      → Keeps (Reachable s first) (execute (claim_delivery free now))
  unfolding run_section
  delivery_step free now = record { at = λ d v h. and_then (delivery_claim free now) v d h }

  pub delivery_sent_step :
      (c : ClaimedDelivery) → Keeps (Reachable s first) (transact (acknowledge_delivery c))
  unfolding run_section
  delivery_sent_step c = record { at = λ d v h. and_then (delivery_sent c) v d h }

  pub statement_step :
      (c : Cleanup) (u : Unlocked) (now : Time) (size : ℕ)
      → Keeps (Reachable s first) (execute (clean c u now size))
  unfolding run_section
  statement_step c u now size = record { at = λ d v h. and_then (cleanup c u now size) v d h }

  pub counted_step :
      (c : Cleanup) (u : Unlocked) (now : Time) (size : ℕ)
      → Keeps (Reachable s first) (counted (clean c u now size))
  unfolding counted
  counted_step c u now size = search (keeps_rules, statement_step)
