-- ===== src/Audit.antt =====
-- `audit`: what a line of the audit file shows of credentials and statements: dbcli/src/audit/scrub.rs and
-- event.rs.
pub mod Scrub
pub mod Event
mod Examples
