-- ===== src/Billing.antt =====
-- internal/billing: what Stripe's records say of a monthly subscription.
pub mod Objects
pub mod Client
pub mod Perpetual
pub mod Monthly
pub mod Ledger
pub mod Decode
pub mod Processor
pub mod MonthlyRows
pub mod MonthlyCommit
pub mod MonthlyEvent
pub mod AdjustmentClient
pub mod Adjustment
pub mod AdjustmentView
pub mod AdjustmentRows
pub mod AdjustmentApply
pub mod AdjustmentCommit
pub mod AdjustmentEvent
pub mod Process
pub mod Reconciler
pub mod Steps
pub mod Orders
pub mod Events
pub mod Kept
pub mod AdjustmentKept
pub mod Handled
pub mod HandledEvents
pub mod Refunded
pub mod Projection
