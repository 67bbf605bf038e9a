-- ===== src/Activation.antt =====
-- internal/activation: the licensing service.
pub mod Time
pub mod Service
pub mod LicenseKey
pub mod Terms
pub mod Idempotency
pub mod RateLimit
pub mod Activate
pub mod Lifecycle
pub mod Management
pub mod Rotation
pub mod RecoveryRequest
pub mod RecoverySession
pub mod Retention
pub mod Purchase
pub mod Dispatch
pub mod Steps
pub mod Reads
pub mod System
