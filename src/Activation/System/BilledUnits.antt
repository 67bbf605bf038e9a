-- ===== src/Activation/System/BilledUnits.antt =====
-- internal/billing: the units of the billing handlers, as sections.
use glass_eqserver.Prelude.{Bytes, Option}
use glass_eqserver.Store.Tables.{Time, Db}
use glass_eqserver.Store.Keeps.{Keeps}
use glass_eqserver.Activation.Service.{Service}
use glass_eqserver.Activation.System.Section.{
  event_record, link_purchase, perpetual_event, monthly_event, adjustment_intent,
  adjustment_outcome, run_section, Reachable, and_then, issuing_by, reconciling_by,
}
use glass_eqserver.Billing.Ledger.{BillingEvent}
use glass_eqserver.Billing.Processor.{EventProcessor}
use glass_eqserver.Billing.Process.{process}
use glass_eqserver.Billing.AdjustmentEvent.{repair_pending_adjustment}
use glass_eqserver.Billing.Reconciler.{Reconciler, processor_at, run}
use glass_eqserver.Billing.Handled.{KeepsUnits}
use glass_eqserver.Billing.HandledEvents.{process-kept, repair-kept, run_links-kept}

billing_units : (p : EventProcessor) (first : Db) → KeepsUnits p (Reachable p.licenses first)
unfolding run_section
billing_units p first = record {
  events = λ e. record { at = λ d v h. and_then (event_record e) v d h };
  orders = λ o. record { at = λ d v h. and_then (link_purchase o) v d h };
  perpetual =
      λ e session now. record { at = λ d v h. and_then (perpetual_event p e session now) v d h };
  monthly = λ e now x. record { at = λ d v h. and_then (monthly_event p e now x) v d h };
  prepared = λ e now x. record { at = λ d v h. and_then (adjustment_intent p e now x) v d h };
  committed = λ e now x. record { at = λ d v h. and_then (adjustment_outcome p e now x) v d h };
}

module _ {s : Service} {first : Db} where
  pub webhook_lem :
      (p : EventProcessor) (unmarshal : Bytes → Option BillingEvent) (body : Bytes) (now : Time)
      → Keeps (Reachable s first) (process (issuing_by s p) unmarshal body now)
  webhook_lem p unmarshal body now =
      process-kept (issuing_by s p) (billing_units (issuing_by s p) first) unmarshal body now

  pub repair_lem :
      (p : EventProcessor) (now : Time)
      → Keeps (Reachable s first) (repair_pending_adjustment (issuing_by s p) now)
  repair_lem p now = repair-kept (issuing_by s p) (billing_units (issuing_by s p) first) now

  pub reconciliation_lem :
      (r : Reconciler) (now : Time) → Keeps (Reachable s first) (run (reconciling_by s r) now)
  unfolding run
  reconciliation_lem r now =
      run_links-kept (reconciling_by s r)
        (λ link n. billing_units (processor_at (reconciling_by s r) link n) first) _
