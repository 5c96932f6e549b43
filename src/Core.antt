-- ===== src/Core.antt =====
-- crates/core: object identifiers, trees and snapshots.
pub mod Cursor
pub mod ObjectId
pub mod Tree
pub mod Snapshot
