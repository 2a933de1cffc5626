-- ===== src/Workloads.antt =====
-- The executables that scripts/create-legacy-fat12.py assembles, one function per image, and the
-- closures and constants they share.
pub mod Emit
pub mod Simple
pub mod Service
pub mod Tasks
pub mod Accepted
pub mod Forker
pub mod Paths
pub mod Orchestration
