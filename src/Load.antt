-- ===== src/Load.antt =====
-- `load`: the order in which the tables of a plan are loaded, from the foreign keys between them:
-- dbcli/src/load/plan.rs.
pub mod Topo
pub mod Columns
pub mod Build
pub mod Examples
