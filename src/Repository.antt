-- ===== src/Repository.antt =====
-- crates/repository: names, refs and the operations of a repository.
pub mod Branch
pub mod Workspace
pub mod Error
pub mod Refs
pub mod Snapshots
pub mod Restore
pub mod Runs
pub mod Timeline
