-- ===== src/Repository/Snapshots/Moves.antt =====
-- The operations of crates/repository/src/repository.rs keep every ref on a stored snapshot.
use era.ObjectStore.Local.Blobs.{KeepsObjects}
use era.Repository.Refs.{objects_dir}
use era.Repository.Refs.Quiet.{Quiet}
use era.Base.{
  if◌then◌else◌, Bool-cases, Bytes, ok, ℕ, ◌≡◌, sym, subst, inl, inr, Option, none, some, List, [],
  ◌∷◌,
}
use era.Base.ByteOrder.{bytes_eq}
use era.Core.ObjectId.{ObjectId, IsObjectId}
use era.Core.Snapshot.{Snapshot}
use era.ObjectStore.Disk.{PathBuf, Disk}
use era.Repository.Snapshots.{
  RepositoryCursor, CursorReference, CaptureResult, Materializer, SnapshotRequest, SnapshotResult,
  resolve_timestamp, made, Action, ◌>>!◌, reads, writes, read_cursor_ref, write_cursor_ref,
  current_cursor_reference, read_snapshot, store_snapshot, advance, snapshot_now,
  advance_if_changed, snapshot_if_changed_with_hints,
}
use era.Repository.Snapshots.Cursors.{
  write_cursor_ref-Written, IsRepository, IsRepository-Quiet, IsRepository-write_cursor_ref,
}
use era.Repository.Snapshots.Stores.{after-bind, Storable, store_snapshot-Quiet, store_snapshot-ok}

-- Whatever is hashed, the hash is an identifier.
abbrev pub IsHash : (Bytes → ObjectId) → Type 0
IsHash hash = (bytes : Bytes) → IsObjectId (hash bytes)

-- What an operation on a handle asks of its materializer and of the snapshot that it would store: the
-- capture leaves HEAD, the refs and the stored objects alone, and the snapshot of what is captured, of
-- the cursor's ref and of the time can be stored.
pub record Fresh (hash : Bytes → ObjectId) (m : PathBuf) (cursor : RepositoryCursor)
    (materializer : Materializer) (now : Option ℕ) (hints : List PathBuf)
    (request : SnapshotRequest) (disk : Disk) : Type 0 where
  pub capture_quiet : Quiet m disk (materializer.capture_tree_with_hints hints disk).1
  pub storable :
      (capture : CaptureResult) (reference : CursorReference) (parent : ObjectId) (t : ℕ)
      → (materializer.capture_tree_with_hints hints disk).0 ≡ ok capture
      → current_cursor_reference hash m cursor (materializer.capture_tree_with_hints hints disk).1
        ≡ ok reference
      → read_cursor_ref m reference (materializer.capture_tree_with_hints hints disk).1 ≡ ok parent
      → resolve_timestamp now request ≡ ok t
      → Storable hash (made capture request (parent ∷ []) t)

module _ (hash : Bytes → ObjectId) (is_hash : IsHash hash) (m : PathBuf) (cursor : RepositoryCursor)
    (materializer : Materializer) (must : CursorReference → Type 0) (now : Option ℕ) where
  advance-IsRepository :
      (reference : CursorReference) (capture : CaptureResult) (request : SnapshotRequest)
      (parent : ObjectId) (disk : Disk)
      → ((t : ℕ)
          → resolve_timestamp now request ≡ ok t
          → Storable hash (made capture request (parent ∷ []) t))
      → IsRepository hash m must disk
      → IsRepository hash m must
          (advance hash m cursor materializer now reference capture request parent disk).1
  unfolding advance reads writes ◌>>!◌
  advance-IsRepository reference capture request parent disk fresh w =
      let store = store_snapshot hash m cursor now capture request (parent ∷ []) in
      let quiet = store_snapshot-Quiet hash m cursor now capture request (parent ∷ []) disk in
      let kept = IsRepository-Quiet hash m must disk (store disk).1 quiet w in
      after-bind (IsRepository hash m must) store
        (λ result.
          writes (write_cursor_ref m reference result.snapshot_id) >>! λ _. reads (λ _. ok result))
        disk kept
        (λ r e.
          let s =
            store_snapshot-ok hash m cursor now capture request (parent ∷ []) disk r fresh e in
          IsRepository-write_cursor_ref hash m must (store disk).1 reference r.snapshot_id
            r.snapshot (subst IsObjectId (sym s.id_hash) (is_hash _)) s.stored kept)

  pub snapshot_now-IsRepository :
      (request : SnapshotRequest) (disk : Disk)
      → Fresh hash m cursor materializer now [] request disk
      → IsRepository hash m must disk
      → IsRepository hash m must (snapshot_now hash m cursor materializer now request disk).1
  unfolding snapshot_now reads
  snapshot_now-IsRepository request disk fresh w =
      let captured = materializer.capture_tree_with_hints [] disk in
      let kept = IsRepository-Quiet hash m must disk captured.1 fresh.capture_quiet w in
      after-bind (IsRepository hash m must) (materializer.capture_tree_with_hints [])
        (λ capture. reads (current_cursor_reference hash m cursor) >>! from_reference capture) disk
        kept
        (λ capture e1.
          after-bind (IsRepository hash m must) (reads (current_cursor_reference hash m cursor))
            (from_reference capture) captured.1 kept
            (λ reference e2.
              after-bind (IsRepository hash m must) (reads (read_cursor_ref m reference))
                (advance hash m cursor materializer now reference capture request) captured.1 kept
                (λ parent e3.
                  advance-IsRepository reference capture request parent captured.1
                    (λ t e4. fresh.storable capture reference parent t e1 e2 e3 e4) kept)))
    where
      from_reference : CaptureResult → CursorReference → Action SnapshotResult
      from_reference capture reference =
          reads (read_cursor_ref m reference)
          >>! advance hash m cursor materializer now reference capture request

  pub advance_if_changed-IsRepository :
      (reference : CursorReference) (capture : CaptureResult) (request : SnapshotRequest)
      (parent : ObjectId) (disk : Disk)
      → ((t : ℕ)
          → resolve_timestamp now request ≡ ok t
          → Storable hash (made capture request (parent ∷ []) t))
      → IsRepository hash m must disk
      → IsRepository hash m must
          (advance_if_changed hash m cursor materializer now reference capture request parent
            disk).1
  unfolding advance_if_changed reads
  advance_if_changed-IsRepository reference capture request parent disk fresh w =
      after-bind (IsRepository hash m must) (reads (read_snapshot hash m cursor parent)) choose disk
        w
        (λ s _. elim (Bool-cases (bytes_eq capture.root_tree_id s.root_tree_id)) [
          | inl same ↦ rw (same) w
          | inr changed ↦ rw (changed) (
              after-bind (IsRepository hash m must)
                (advance hash m cursor materializer now reference capture request parent)
                (λ result. reads (λ _. ok (some result))) disk
                (advance-IsRepository reference capture request parent disk fresh w)
                (λ _ _. advance-IsRepository reference capture request parent disk fresh w))
        ])
    where
      choose : Snapshot → Action (Option SnapshotResult)
      choose s =
          if bytes_eq capture.root_tree_id s.root_tree_id
          then reads (λ _. ok none)
          else advance hash m cursor materializer now reference capture request parent >>! λ result.
              reads (λ _. ok (some result))

  advance-KeepsObjects :
      (reference : CursorReference) (capture : CaptureResult) (request : SnapshotRequest)
      (parent : ObjectId) (disk : Disk)
      → KeepsObjects
          (objects_dir m)
          disk
          (advance hash m cursor materializer now reference capture request parent disk).1
  unfolding advance reads writes ◌>>!◌
  advance-KeepsObjects reference capture request parent disk =
      let store = store_snapshot hash m cursor now capture request (parent ∷ []) in
      let quiet = store_snapshot-Quiet hash m cursor now capture request (parent ∷ []) disk in
      after-bind (KeepsObjects (objects_dir m) disk) store
        (λ result.
          writes (write_cursor_ref m reference result.snapshot_id) >>! λ _. reads (λ _. ok result))
        disk quiet.objects
        (λ r e kind id bytes h.
          (write_cursor_ref-Written m (store disk).1 reference r.snapshot_id).objects kind id bytes
            (quiet.objects kind id bytes h))

  pub advance_if_changed-KeepsObjects :
      (reference : CursorReference) (capture : CaptureResult) (request : SnapshotRequest)
      (parent : ObjectId) (disk : Disk)
      → KeepsObjects
          (objects_dir m)
          disk
          (advance_if_changed hash m cursor materializer now reference capture request parent
            disk).1
  unfolding advance_if_changed reads
  advance_if_changed-KeepsObjects reference capture request parent disk =
      after-bind (KeepsObjects (objects_dir m) disk) (reads (read_snapshot hash m cursor parent))
        choose disk (λ kind id bytes h. h)
        (λ s _. elim (Bool-cases (bytes_eq capture.root_tree_id s.root_tree_id)) [
          | inl same ↦ rw same (λ kind id bytes h. h)
          | inr changed ↦ rw changed (
              after-bind (KeepsObjects (objects_dir m) disk)
                (advance hash m cursor materializer now reference capture request parent)
                (λ result. reads (λ _. ok (some result))) disk
                (advance-KeepsObjects reference capture request parent disk)
                (λ _ _. advance-KeepsObjects reference capture request parent disk))
        ])
    where
      choose : Snapshot → Action (Option SnapshotResult)
      choose s =
          if bytes_eq capture.root_tree_id s.root_tree_id
          then reads (λ _. ok none)
          else advance hash m cursor materializer now reference capture request parent >>! λ result.
              reads (λ _. ok (some result))

  pub snapshot_if_changed_with_hints-IsRepository :
      (hints : List PathBuf) (request : SnapshotRequest) (disk : Disk)
      → Fresh hash m cursor materializer now hints request disk
      → IsRepository hash m must disk
      → IsRepository hash m must
          (snapshot_if_changed_with_hints hash m cursor materializer now hints request disk).1
  unfolding snapshot_if_changed_with_hints reads
  snapshot_if_changed_with_hints-IsRepository hints request disk fresh w =
      let captured = materializer.capture_tree_with_hints hints disk in
      let kept = IsRepository-Quiet hash m must disk captured.1 fresh.capture_quiet w in
      after-bind (IsRepository hash m must) (materializer.capture_tree_with_hints hints)
        (λ capture. reads (current_cursor_reference hash m cursor) >>! from_reference capture) disk
        kept
        (λ capture e1.
          after-bind (IsRepository hash m must) (reads (current_cursor_reference hash m cursor))
            (from_reference capture) captured.1 kept
            (λ reference e2.
              after-bind (IsRepository hash m must) (reads (read_cursor_ref m reference))
                (advance_if_changed hash m cursor materializer now reference capture request)
                captured.1 kept
                (λ parent e3.
                  advance_if_changed-IsRepository reference capture request parent captured.1
                    (λ t e4. fresh.storable capture reference parent t e1 e2 e3 e4) kept)))
    where
      from_reference : CaptureResult → CursorReference → Action (Option SnapshotResult)
      from_reference capture reference =
          reads (read_cursor_ref m reference)
          >>! advance_if_changed hash m cursor materializer now reference capture request
