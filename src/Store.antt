-- ===== src/Store.antt =====
-- The database and the effects of the request handlers.
pub mod Tables
pub mod Effect
pub mod Rules
pub mod Keeps
pub mod Reads
