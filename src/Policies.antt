-- ===== src/Policies.antt =====
-- crates/common/src/domain/policies.rs, by what its functions decide.
pub mod Branch
pub mod Guard
pub mod Ports
pub mod Prefix
pub mod Paths
