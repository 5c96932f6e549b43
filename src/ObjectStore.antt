-- ===== src/ObjectStore.antt =====
-- crates/object-store: the content-addressed store.
pub mod BlobDelta
pub mod Disk
pub mod Local
