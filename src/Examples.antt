-- ===== src/Examples.antt =====
-- A small server for the examples: one perpetual license with a key and a running activation.
pub mod World
pub mod StripeObjects
pub mod Runs
pub mod Licensing
pub mod Sessions
pub mod Issuing
pub mod Purchases
pub mod Sold
