-- ===== src/Backend.antt =====
-- Texts that the backends put into statements: dbcli/src/backend/mod.rs.
pub mod Quoting
mod Examples
