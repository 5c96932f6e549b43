-- ===== src/ObjectStore/Local.antt =====
-- crates/object-store/src/local.rs: objects in files, by kind and identifier. The hash is a
-- parameter. Reads may fail in any way; writes succeed, and no other process writes meanwhile.
pub mod Blobs
pub mod Deltas
pub mod Puts
pub mod Objects
pub mod Stored
mod Tests
use era.Base.ByteOrder.{bytes_eq}
use era.ObjectStore.BlobDelta.{
  max_delta_chain_depth, min_delta_target_bytes, BlobDelta, create, decode, encode, reconstruct,
}
use Prim.Native.String.{String}
use era.Base.{
  ltb, leb, ◌==◌, if◌then◌else◌, Bytes, length, Result, ok, err, ◌>>=◌, map_err, ok_or, ◌>>?◌, ℕ,
  zero, suc, ◌+◌, Bool, true, false, not, ◌&&◌, Option, none, some, [], ◌∷◌, ◌++◌,
}
use era.Core.ObjectId.{ObjectId, to_hex, shard_prefix}
use era.Core.Tree.{Tree, TreeError}
use era.Core.Snapshot.{Snapshot, SnapshotError}
use era.Core.Tree.{
  to_canonical_bytes as tree_to_canonical_bytes, from_canonical_bytes as tree_from_canonical_bytes,
}
use era.Core.Snapshot.{
  to_canonical_bytes as snapshot_to_canonical_bytes,
  from_canonical_bytes as snapshot_from_canonical_bytes,
}
use era.ObjectStore.Disk.{PathBuf, not_found, unreadable, other_error, Disk, try_exists, hard_link}

pub data ObjectKind : Type 0 where
  blob tree snapshot : ObjectKind

pub data ObjectStoreError : Type 0 where
  io : PathBuf → ObjectStoreError
  missing_object : ObjectKind → ObjectId → PathBuf → ObjectStoreError
  hash_mismatch : ObjectKind → PathBuf → ObjectId → ObjectId → ObjectStoreError
  invalid_blob_delta : ObjectId → PathBuf → String → ObjectStoreError
  blob_delta_chain_too_deep : ObjectId → PathBuf → ObjectStoreError
  invalid_tree_object : ObjectId → PathBuf → TreeError → ObjectStoreError
  invalid_snapshot_object : ObjectId → PathBuf → SnapshotError → ObjectStoreError
  temp_file_exhausted : ObjectKind → PathBuf → ObjectId → ObjectStoreError

pub record BlobRead : Type 0 where
  pub bytes : Bytes
  pub depth : ℕ

abbrev blobs : Bytes
blobs = b'b' ∷ b'l' ∷ b'o' ∷ b'b' ∷ b's' ∷ []

abbrev trees : Bytes
trees = b't' ∷ b'r' ∷ b'e' ∷ b'e' ∷ b's' ∷ []

abbrev snapshots : Bytes
snapshots = b's' ∷ b'n' ∷ b'a' ∷ b'p' ∷ b's' ∷ b'h' ∷ b'o' ∷ b't' ∷ b's' ∷ []

unfoldable pub object_dir : PathBuf → ObjectKind → PathBuf
object_dir root blob = root ++ (blobs ∷ [])
object_dir root tree = root ++ (trees ∷ [])
object_dir root snapshot = root ++ (snapshots ∷ [])

unfoldable pub object_path : PathBuf → ObjectKind → ObjectId → PathBuf
object_path root kind id = object_dir root kind ++ (shard_prefix id ∷ to_hex id ∷ [])

pub read_object_file : Disk → ObjectKind → PathBuf → ObjectId → Result ObjectStoreError Bytes
read_object_file disk kind path id = elim (disk path) [
  | ok bytes ↦ ok bytes
  | err e ↦ elim e [
    | not_found ↦ err (missing_object kind id path)
    | unreadable ↦ err (io path)
    | other_error ↦ err (io path)
  ]
]

module _ (hash : Bytes → ObjectId) (root : PathBuf) where
  -- The bytes of a blob's file as a delta, which they are not meant to be when they hash to the
  -- identifier.
  pub stored_delta : ObjectId → Bytes → Result ObjectStoreError BlobDelta
  stored_delta id stored = do
    decoded ← map_err (invalid_blob_delta id (object_path root blob id)) (decode stored)
    delta ← ok_or decoded (hash_mismatch blob (object_path root blob id) id (hash stored))
    if ltb max_delta_chain_depth delta.depth
        then err (blob_delta_chain_too_deep id (object_path root blob id))
        else ok delta

  -- What is done with the delta once its base is read.
  pub apply_delta : ObjectId → BlobDelta → BlobRead → Result ObjectStoreError BlobRead
  apply_delta id delta base =
      let path = object_path root blob id in
      if not (delta.depth == base.depth + 1)
      then err (invalid_blob_delta id path "blob delta chain depth does not match base")
      else map_err (invalid_blob_delta id path) (reconstruct delta base.bytes) >>= λ bytes.
          if not (bytes_eq (hash bytes) id)
          then err (hash_mismatch blob path id (hash bytes))
          else ok (record { bytes = bytes; depth = delta.depth })

module _ (hash : Bytes → ObjectId) (root : PathBuf) (disk : Disk) where
  -- The first argument is what `recursion_depth` has left, 17 at first: at 0 the chain is too deep.
  pub read_blob_data_at : ℕ → ObjectId → Result ObjectStoreError BlobRead
  read_blob_data_at zero id = err (blob_delta_chain_too_deep id (object_path root blob id))
  read_blob_data_at (suc left) id =
      read_object_file disk blob (object_path root blob id) id >>= λ stored.
      elim (bytes_eq (hash stored) id) [
        | true ↦ ok (record { bytes = stored; depth = 0 })
        | false ↦ stored_delta hash root id stored >>= λ delta.
            read_blob_data_at left delta.base_id >>= apply_delta hash root id delta
      ]

  pub read_blob_data : ObjectId → Result ObjectStoreError BlobRead
  read_blob_data id = read_blob_data_at (max_delta_chain_depth + 1) id

  pub get_blob : ObjectId → Result ObjectStoreError Bytes
  get_blob id = read_blob_data id >>= λ read. ok read.bytes

  -- The branch of `get_object_bytes` and of `verify_object_file` for trees and snapshots.
  pub read_hashed : ObjectKind → ObjectId → Result ObjectStoreError Bytes
  read_hashed kind id =
      let path = object_path root kind id in
      read_object_file disk kind path id >>= λ bytes.
      if not (bytes_eq (hash bytes) id)
      then err (hash_mismatch kind path id (hash bytes))
      else ok bytes

  pub get_object_bytes : ObjectKind → ObjectId → Result ObjectStoreError Bytes
  get_object_bytes blob id = get_blob id
  get_object_bytes tree id = read_hashed tree id
  get_object_bytes snapshot id = read_hashed snapshot id

  pub get_tree : ObjectId → Result ObjectStoreError Tree
  get_tree id = get_object_bytes tree id >>= λ bytes.
      map_err (invalid_tree_object id (object_path root tree id)) (tree_from_canonical_bytes bytes)

  pub get_snapshot : ObjectId → Result ObjectStoreError Snapshot
  get_snapshot id = get_object_bytes snapshot id >>= λ bytes.
      map_err (invalid_snapshot_object id (object_path root snapshot id))
        (snapshot_from_canonical_bytes bytes)

  pub verify_object_file : ObjectKind → ObjectId → Result ObjectStoreError (Unit {0})
  verify_object_file blob id = read_blob_data_at (max_delta_chain_depth + 1) id >>= λ _. ok tt
  verify_object_file tree id = read_hashed tree id >>= λ _. ok tt
  verify_object_file snapshot id = read_hashed snapshot id >>= λ _. ok tt

  -- A missing object is an answer, every other error an error.
  abbrev pub answer : {A : Type 0} → Result ObjectStoreError A → Result ObjectStoreError Bool
  answer (ok _) = ok true
  answer (err (missing_object _ _ _)) = ok false
  answer (err e) = err e

  pub contains : ObjectKind → ObjectId → Result ObjectStoreError Bool
  contains blob id = answer (verify_object_file blob id)
  contains tree id = answer (get_tree id)
  contains snapshot id = answer (get_snapshot id)

  -- A blob that cannot be read is no base, and the blob is stored in full.
  pub delta_storage_bytes : Bytes → ObjectId → Option Bytes
  delta_storage_bytes bytes base_id = elim (read_blob_data base_id) [
    | ok base ↦ create base_id base.bytes base.depth bytes >>? λ delta. some (encode delta)
    | err _ ↦ none
  ]

  abbrev pub is_missing : Result ObjectStoreError (Unit {0}) → Bool
  is_missing (err (missing_object _ _ _)) = true
  is_missing _ = false

  -- The part of `put_object` behind the test for the path.
  pub link_object : ObjectKind → ObjectId → Bytes → Result ObjectStoreError ObjectId × Disk
  link_object kind id bytes =
      let (linked, after) = hard_link disk (object_path root kind id) bytes in
      if linked then (ok id, after) else (verify_object_file kind id >>= λ _. ok id, after)

  pub put_object : ObjectKind → ObjectId → Bytes → Result ObjectStoreError ObjectId × Disk
  put_object kind id bytes =
      if try_exists disk (object_path root kind id) && not (is_missing (verify_object_file kind id))
      then (verify_object_file kind id >>= λ _. ok id, disk)
      else link_object kind id bytes

  -- What is written for a blob: a delta when there is a base to gain from.
  pub storage_bytes : Bytes → Option ObjectId → Bytes
  storage_bytes bytes none = bytes
  storage_bytes bytes (some base_id) =
      if not (bytes_eq base_id (hash bytes)) && leb min_delta_target_bytes (length bytes)
      then elim (delta_storage_bytes bytes base_id) [ some storage ↦ storage | none ↦ bytes ]
      else bytes

  pub put_blob_with_base : Bytes → Option ObjectId → Result ObjectStoreError ObjectId × Disk
  put_blob_with_base bytes base_id = put_object blob (hash bytes) (storage_bytes bytes base_id)

  pub put_blob : Bytes → Result ObjectStoreError ObjectId × Disk
  put_blob bytes = put_blob_with_base bytes none

  -- `none` where writing the tree panics.
  pub put_tree : Tree → Option (Result ObjectStoreError ObjectId × Disk)
  put_tree t = tree_to_canonical_bytes t >>? λ bytes. some (put_object tree (hash bytes) bytes)

  unfoldable pub put_snapshot : Snapshot → Result ObjectStoreError ObjectId × Disk
  put_snapshot s =
      let bytes = snapshot_to_canonical_bytes s in put_object snapshot (hash bytes) bytes
