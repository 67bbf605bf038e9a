-- ===== src/Activation/System/History.antt =====
-- internal/activation: sequences of sections, and the limits.
use glass_eqserver.Prelude.{ℕ}
use glass_eqserver.Store.Tables.{Time, Db}
use glass_eqserver.Store.Effect.{Env, execute}
use glass_eqserver.Store.Keeps.{Keeps}
use glass_eqserver.Activation.Service.{Service, database_busy_response}
use glass_eqserver.Activation.Retention.{Unlocked}
use glass_eqserver.Activation.System.Kept.{IsSound}
use glass_eqserver.Activation.System.Sections.{
  limits-kept, activate-kept, refresh-kept, deactivate-kept, session-kept, managed-kept,
}
use glass_eqserver.Activation.System.Keyed.{
  rotate-kept, purchase-kept, purge_idempotency-kept, purge_rate_limits-kept,
  purge_access_tokens-kept, purge_recovery_jobs-kept, purge_recovery_emails-kept,
  purge_license_deliveries-kept, clear_delivery_keys-kept,
}
use glass_eqserver.Activation.System.Recovery.{
  request-kept, exchange-kept, claim_job-kept, prepare-kept, claim_email-kept, delete_email-kept,
  claim_delivery-kept, acknowledge-kept,
}
use glass_eqserver.Activation.System.Billed.{event-kept, order-kept, billing-kept, adjusting-kept}
use glass_eqserver.Billing.Kept.{settle_perpetual-kept, commit_monthly-kept}
use glass_eqserver.Billing.AdjustmentKept.{prepare_adjustment-kept, commit_adjustment-kept}
use glass_eqserver.Activation.System.Section.{
  Cleanup, idempotency, rate_limits, access_tokens, recovery_jobs, recovery_emails, deliveries,
  delivery_keys, clean, Section, counting, activation, refresh, deactivation, new_session,
  managed_deactivation, rotation, recovery_request, exchange, purchase, job_claim, preparation,
  email_claim, email_sent, delivery_claim, delivery_sent, cleanup, event_record, link_purchase,
  perpetual_event, monthly_event, adjustment_intent, adjustment_outcome, issuing_by, run_section,
  Reachable, start, and_then,
}

clean-kept :
    (c : Cleanup) (u : Unlocked) (now : Time) (size : ℕ)
    → Keeps IsSound (execute (clean c u now size))
unfolding clean
clean-kept idempotency u now size = purge_idempotency-kept u now size
clean-kept rate_limits u now size = purge_rate_limits-kept u now size
clean-kept access_tokens u now size = purge_access_tokens-kept u now size
clean-kept recovery_jobs u now size = purge_recovery_jobs-kept u now size
clean-kept recovery_emails u now size = purge_recovery_emails-kept u now size
clean-kept deliveries u now size = purge_license_deliveries-kept u now size
clean-kept delivery_keys u now size = clear_delivery_keys-kept u now size

section-IsSound :
    (s : Service) (x : Section) (d : Db) (v : Env) → IsSound d → IsSound (run_section s x d v)
unfolding run_section
section-IsSound s (counting hash client t) d v h = (limits-kept s hash client t).at d v h
section-IsSound s (activation p now) d v h = (activate-kept s p now).at d v h
section-IsSound s (refresh i installation hash now) d v h =
    (refresh-kept s i installation hash now).at d v h
section-IsSound s (deactivation hash now) d v h = (deactivate-kept hash now).at d v h
section-IsSound s (new_session hash m now) d v h = (session-kept hash m now).at d v h
section-IsSound s (managed_deactivation id license_id now) d v h =
    (managed-kept id license_id now database_busy_response).at d v h
section-IsSound s (rotation r now) d v h = (rotate-kept s r now).at d v h
section-IsSound s (recovery_request r email client now) d v h =
    (request-kept s r email client now).at d v h
section-IsSound s (exchange r now) d v h = (exchange-kept s r now).at d v h
section-IsSound s (purchase p now) d v h = (purchase-kept s p now).at d v h
section-IsSound s (job_claim free now) d v h = (claim_job-kept free now).at d v h
section-IsSound s (preparation id now) d v h = (prepare-kept s id now).at d v h
section-IsSound s (email_claim free now) d v h = (claim_email-kept free now).at d v h
section-IsSound s (email_sent id) d v h = (delete_email-kept id).at d v h
section-IsSound s (delivery_claim free now) d v h = (claim_delivery-kept free now).at d v h
section-IsSound s (delivery_sent c) d v h = (acknowledge-kept c).at d v h
section-IsSound s (cleanup c u now size) d v h = (clean-kept c u now size).at d v h
section-IsSound s (event_record e) d v h = (event-kept e).at d v h
section-IsSound s (link_purchase o) d v h = (order-kept o).at d v h
section-IsSound s (perpetual_event p e session now) d v h =
    (settle_perpetual-kept (issuing_by s p) (billing-kept s) e now session).at d v h
section-IsSound s (monthly_event p e now x) d v h =
    (commit_monthly-kept (issuing_by s p) (billing-kept s) e now x).at d v h
section-IsSound s (adjustment_intent p e now x) d v h =
    (prepare_adjustment-kept (issuing_by s p) (billing-kept s) adjusting-kept e now x).at d v h
section-IsSound s (adjustment_outcome p e now x) d v h =
    (commit_adjustment-kept (issuing_by s p) (billing-kept s) adjusting-kept e now x).at d v h

-- From a database in which the IDs of the activations differ and no license has more than two
-- active activations or more than one active key, every sequence of sections, with any arguments
-- and any answers of the outside world, leads to such a database.
pub Reachable-IsSound :
    (s : Service) (first d : Db) → IsSound first → Reachable s first d → IsSound d
Reachable-IsSound s first d h start = h
Reachable-IsSound s first d h (and_then x v before r) =
    section-IsSound s x before v (Reachable-IsSound s first before h r)
