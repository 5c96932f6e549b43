-- ===== src/ObjectStore/Local/Stored.antt =====
-- Runs of store operations in crates/object-store/src/local.rs: what was stored stays readable.
use era.Base.{
  Bytes, length, All, Result, ok, err, ◌>>=◌, bind-eq-ok, >>?-eq-some, ◌^◌, ◌<◌, ◌≡◌, refl, subst,
  ◌↔◌, true, Option, some,
}
use era.Core.ObjectId.{ObjectId}
use era.Base.Slice.{usize_mod}
use era.Base.Endian.{IsByte}
use era.ObjectStore.Local.Puts.{
  NoCollision, IsBase, put_object-Extends, get_blob-put_blob_with_base,
}
use era.ObjectStore.Local.Deltas.{IsDisk}
use era.Core.Tree.Writers.{IsTree}
use era.Core.Snapshot.Writers.{IsSnapshot}
use era.Core.Snapshot.Readers.{slice_mod}
use era.Core.Tree.{Tree, to_canonical_bytes as tree_to_canonical_bytes}
use era.Core.Snapshot.{Snapshot, to_canonical_bytes as snapshot_to_canonical_bytes}
use era.ObjectStore.Disk.{PathBuf, Disk, Extends}
use era.ObjectStore.Local.Blobs.{KeepsObjects}
use era.ObjectStore.Local.{
  ObjectKind, blob, tree, snapshot, ObjectStoreError, io, missing_object, hash_mismatch,
  invalid_blob_delta, blob_delta_chain_too_deep, invalid_tree_object, invalid_snapshot_object,
  temp_file_exhausted, object_path, read_blob_data_at, read_blob_data, get_blob, get_object_bytes,
  get_tree, get_snapshot, verify_object_file, answer, contains, storage_bytes, put_blob_with_base,
  put_tree, put_snapshot,
}
use era.ObjectStore.Local.Objects.{
  get_blob-read, get_object_bytes-KeepsObjects, get_tree-put_tree, get_snapshot-put_snapshot,
}

module _ (hash : Bytes → ObjectId) (root : PathBuf) where
  -- The operations that write, whatever they answer.
  pub data Stored : Disk → Disk → Type 0 where
    nothing : {disk : Disk} → Stored disk disk
    blob_stored :
        {disk after : Disk} (bytes : Bytes) (base : Option ObjectId)
        → Stored (put_blob_with_base hash root disk bytes base).1 after
        → Stored disk after
    tree_stored :
        {disk after : Disk} (t : Tree) (put : Result ObjectStoreError ObjectId × Disk)
        → put_tree hash root disk t ≡ some put
        → Stored put.1 after
        → Stored disk after
    snapshot_stored :
        {disk after : Disk} (s : Snapshot)
        → Stored (put_snapshot hash root disk s).1 after
        → Stored disk after

  put_tree-Extends :
      (disk : Disk) (t : Tree) (put : Result ObjectStoreError ObjectId × Disk)
      → put_tree hash root disk t ≡ some put
      → Extends disk put.1
  unfolding put_tree
  put_tree-Extends disk t put h =
      let (bytes, _, h1) = >>?-eq-some (tree_to_canonical_bytes t) _ h in
      subst (λ (p : Result ObjectStoreError ObjectId × Disk). Extends disk p.1) (same h1)
        (put_object-Extends hash root disk tree (hash bytes) bytes)
    where
      same :
          {x y : Result ObjectStoreError ObjectId × Disk}
          → ◌≡◌ {A = Option (Result ObjectStoreError ObjectId × Disk)} (some x) (some y)
          → x ≡ y
      same h = cc

  pub Stored-Extends : {disk after : Disk} → Stored disk after → Extends disk after
  unfolding put_blob_with_base put_snapshot
  Stored-Extends nothing p bytes h = h
  Stored-Extends {disk} (blob_stored bytes base more) p b h = Stored-Extends more p b (
      put_object-Extends hash root disk blob (hash bytes) (storage_bytes hash root disk bytes base)
        p b h)
  Stored-Extends {disk} (tree_stored t put e more) p b h =
      Stored-Extends more p b (put_tree-Extends disk t put e p b h)
  Stored-Extends {disk} (snapshot_stored s more) p b h = Stored-Extends more p b (
      put_object-Extends hash root disk snapshot (hash (snapshot_to_canonical_bytes s))
        (snapshot_to_canonical_bytes s) p b h)

  pub Stored-KeepsObjects : {disk after : Disk} → Stored disk after → KeepsObjects root disk after
  Stored-KeepsObjects run kind id = Stored-Extends run (object_path root kind id)

  pub get_tree-KeepsObjects :
      (disk after : Disk) (id : ObjectId) (t : Tree)
      → KeepsObjects root disk after
      → get_tree hash root disk id ≡ ok t
      → get_tree hash root after id ≡ ok t
  unfolding get_tree
  get_tree-KeepsObjects disk after id t x h =
      let (bytes, e, h1) = bind-eq-ok (get_object_bytes hash root disk tree id) _ h in
      rw (get_object_bytes-KeepsObjects hash root disk after tree id bytes x e, ◌>>=◌) h1

  pub get_snapshot-KeepsObjects :
      (disk after : Disk) (id : ObjectId) (s : Snapshot)
      → KeepsObjects root disk after
      → get_snapshot hash root disk id ≡ ok s
      → get_snapshot hash root after id ≡ ok s
  unfolding get_snapshot
  get_snapshot-KeepsObjects disk after id s x h =
      let (bytes, e, h1) = bind-eq-ok (get_object_bytes hash root disk snapshot id) _ h in
      rw (get_object_bytes-KeepsObjects hash root disk after snapshot id bytes x e, ◌>>=◌) h1

  -- What `contains` asks of each kind.
  pub Readable : Disk → ObjectKind → ObjectId → Type 0
  Readable disk blob id = (bytes : Bytes) × (get_blob hash root disk id ≡ ok bytes)
  Readable disk tree id = (t : Tree) × (get_tree hash root disk id ≡ ok t)
  Readable disk snapshot id = (s : Snapshot) × (get_snapshot hash root disk id ≡ ok s)

  answer-true :
      {A : Type 0} (disk : Disk) (m : Result ObjectStoreError A)
      → answer hash root disk m ≡ ok true
      → (a : A) × (m ≡ ok a)
  answer-true disk (ok a) h = (a, refl)
  answer-true disk (err (missing_object _ _ _)) h = cc
  answer-true disk (err (io _)) h = cc
  answer-true disk (err (hash_mismatch _ _ _ _)) h = cc
  answer-true disk (err (invalid_blob_delta _ _ _)) h = cc
  answer-true disk (err (blob_delta_chain_too_deep _ _)) h = cc
  answer-true disk (err (invalid_tree_object _ _ _)) h = cc
  answer-true disk (err (invalid_snapshot_object _ _ _)) h = cc
  answer-true disk (err (temp_file_exhausted _ _ _)) h = cc

-- `contains` answers true exactly for the objects that can be read: a blob whose chain of deltas
-- resolves, a tree or a snapshot that decodes.
pub contains-Readable :
    (hash : Bytes → ObjectId) (root : PathBuf) (disk : Disk) (kind : ObjectKind) (id : ObjectId)
    → (contains hash root disk kind id ≡ ok true) ↔ Readable hash root disk kind id
unfolding contains Readable get_blob read_blob_data verify_object_file
contains-Readable hash root disk blob id = (
  λ h.
      let (_, e) = answer-true hash root disk (verify_object_file hash root disk blob id) h in
      let (r, e1, _) = bind-eq-ok (read_blob_data_at hash root disk 17 id) _ e in
      (r.bytes, rw (e1, ◌>>=◌) refl),
  λ (bytes, h). let (r, e, _) = get_blob-read hash root disk id bytes h in rw (e, ◌>>=◌) refl,
)
contains-Readable hash root disk tree id =
    (λ h. answer-true hash root disk (get_tree hash root disk id) h, λ (t, e). rw e refl)
contains-Readable hash root disk snapshot id =
    (λ h. answer-true hash root disk (get_snapshot hash root disk id) h, λ (t, e). rw e refl)

-- What could be read before any run of stores, of blobs, trees and snapshots, can be read after it,
-- with the same bytes.
pub Stored-get_object_bytes :
    (hash : Bytes → ObjectId) (root : PathBuf) {disk after : Disk} (kind : ObjectKind)
    (id : ObjectId) (bytes : Bytes)
    → Stored hash root disk after
    → get_object_bytes hash root disk kind id ≡ ok bytes
    → get_object_bytes hash root after kind id ≡ ok bytes
Stored-get_object_bytes hash root kind id bytes run h =
    get_object_bytes-KeepsObjects hash root _ _ kind id bytes (Stored-KeepsObjects hash root run) h

-- A blob that `put_blob_with_base` has stored, in full, as a delta on a chain of deltas, or because
-- it was there before, is answered under its hash and reads as the bytes that were given, also after
-- any run of stores. The disk holds bytes, in files that fit a vector, and no other bytes hash as
-- these do.
pub put_blob_with_base-Stored :
    (hash : Bytes → ObjectId) (root : PathBuf) (disk after : Disk) (bytes : Bytes)
    (base : Option ObjectId) (id : ObjectId)
    → IsDisk disk
    → IsBase base
    → All IsByte bytes
    → length bytes < 2 ^ 63
    → NoCollision hash bytes
    → (put_blob_with_base hash root disk bytes base).0 ≡ ok id
    → Stored hash root (put_blob_with_base hash root disk bytes base).1 after
    → (id ≡ hash bytes) × (get_blob hash root after id ≡ ok bytes)
unfolding get_object_bytes
put_blob_with_base-Stored hash root disk after bytes base id w v small fits unique h run =
    let (same_id, read) =
      get_blob-put_blob_with_base hash root disk bytes base id w v small fits unique h in
    (same_id, Stored-get_object_bytes hash root blob id bytes run read)

-- A tree that `put_tree` has stored is answered under the hash of its canonical bytes and reads as
-- the same tree, also after any run of stores. The tree is well formed, its bytes fit, and no other
-- bytes hash as they do.
pub put_tree-Stored :
    (hash : Bytes → ObjectId) (root : PathBuf) (disk after : Disk) (t : Tree) (bytes : Bytes)
    (id : ObjectId) (put : Result ObjectStoreError ObjectId × Disk)
    → IsTree t
    → tree_to_canonical_bytes t ≡ some bytes
    → length bytes < usize_mod
    → NoCollision hash bytes
    → put_tree hash root disk t ≡ some put
    → put.0 ≡ ok id
    → Stored hash root put.1 after
    → (id ≡ hash bytes) × (get_tree hash root after id ≡ ok t)
put_tree-Stored hash root disk after t bytes id put v e fits unique made h run =
    let (same_id, read) = get_tree-put_tree hash root disk t bytes id put v e fits unique made h in
    (
      same_id,
      get_tree-KeepsObjects hash root put.1 after id t (Stored-KeepsObjects hash root run) read,
    )

-- A snapshot that `put_snapshot` has stored is answered under the hash of its canonical bytes and
-- reads as the same snapshot, also after any run of stores. The snapshot is well formed, its bytes
-- fit, and no other bytes hash as they do.
pub put_snapshot-Stored :
    (hash : Bytes → ObjectId) (root : PathBuf) (disk after : Disk) (s : Snapshot) (id : ObjectId)
    → IsSnapshot s
    → length (snapshot_to_canonical_bytes s) < slice_mod
    → NoCollision hash (snapshot_to_canonical_bytes s)
    → (put_snapshot hash root disk s).0 ≡ ok id
    → Stored hash root (put_snapshot hash root disk s).1 after
    → (id ≡ hash (snapshot_to_canonical_bytes s)) × (get_snapshot hash root after id ≡ ok s)
put_snapshot-Stored hash root disk after s id v fits unique h run =
    let (same_id, read) = get_snapshot-put_snapshot hash root disk s id v fits unique h in
    (
      same_id,
      get_snapshot-KeepsObjects hash root _ after id s (Stored-KeepsObjects hash root run) read,
    )
