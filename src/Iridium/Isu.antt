-- ===== src/Iridium/Isu.antt =====
-- lib/iridium/isu.c: the commands of the ISU. The proofs are in the modules below each part.
pub mod Query
pub mod Session
pub mod Binary
pub mod Text
pub mod Report
