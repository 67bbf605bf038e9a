-- ===== src/Activation/System.antt =====
-- internal/activation: the service as a whole. Every request runs as a few sections, each one
-- transaction or one statement; between two sections of a request the database may take sections
-- of any other. A section that fails, is refused a lock or returns early is rolled back.
pub mod Keys
pub mod Kept
pub mod Rotated
pub mod Sections
pub mod Keyed
pub mod Billed
pub mod Recovery
pub mod Section
pub mod History
pub mod Units
pub mod BilledUnits
pub mod Handlers
