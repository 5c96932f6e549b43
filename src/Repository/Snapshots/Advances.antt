-- ===== src/Repository/Snapshots/Advances.antt =====
-- What taking a snapshot comes to in crates/repository/src/repository.rs.
use era.Base.ByteOrder.{bytes_eq}
use era.ObjectStore.Local.Stored.{get_snapshot-KeepsObjects}
use era.Repository.Refs.Quiet.{Quiet, read_head_branch-Quiet}
use era.Repository.Snapshots.Cursors.{
  read_cursor_ref_same_refs, read_cursor_ref-write_cursor_ref, write_cursor_ref-Written,
  read_cursor_ref-write_cursor_ref_other, current_cursor_reference-Quiet,
}
use era.Base.{
  if◌then◌else◌, Bool-cases, Bytes, Result, ok, err, map_err, ℕ, ◌≡◌, refl, sym, ap, ◌∙◌, subst,
  ◌≢◌, inl, inr, false, Option, none, some, List, [], ◌∷◌,
}
use era.Core.ObjectId.{ObjectId}
use era.Core.Snapshot.{Snapshot, to_canonical_bytes}
use era.ObjectStore.Disk.{PathBuf, Disk, try_exists}
use era.ObjectStore.Local.{snapshot, ObjectStoreError, object_path, get_snapshot, put_snapshot}
use era.ObjectStore.Local.Blobs.{KeepsObjects}
use era.ObjectStore.Local.Puts.{put_object_absent}
use era.Repository.Error.{RepositoryError, object_store}
use era.Repository.Refs.{objects_dir, read_head_branch, write_snapshot_index_entry}
use era.Repository.Snapshots.{
  RepositoryCursor, CursorReference, CaptureResult, Materializer, SnapshotRequest, SnapshotResult,
  resolve_timestamp, made, Action, ◌>>!◌, reads, writes, read_cursor_ref, write_cursor_ref,
  current_cursor_reference, read_snapshot, store_object, store_snapshot, advance, snapshot_now,
  advance_if_changed, snapshot_if_changed_with_hints,
}
use era.Repository.Snapshots.Stores.{Storable, store_snapshot-Quiet, store_snapshot-ok}
use era.Repository.Snapshots.Moves.{IsHash}

bind-first :
    {A B : Type 0} (m : Action A) (f : A → Action B) (disk : Disk) (a : A)
    → (m disk).0 ≡ ok a
    → (m >>! f) disk ≡ f a (m disk).1
unfolding ◌>>!◌
bind-first m f disk a e = rw (e, ◌>>!◌) refl

module _ (hash : Bytes → ObjectId) (m : PathBuf) (cursor : RepositoryCursor) where
  put_snapshot_absent :
      (s : Snapshot) (disk : Disk)
      → try_exists disk (object_path (objects_dir m) snapshot (hash (to_canonical_bytes s))) ≡ false
      → (store_object hash m cursor s disk).0 ≡ ok (hash (to_canonical_bytes s))
  unfolding store_object put_snapshot
  put_snapshot_absent s disk absent =
      ap (λ (x : Result ObjectStoreError ObjectId × Disk). map_err object_store x.0)
        (put_object_absent hash (objects_dir m) disk snapshot (hash (to_canonical_bytes s))
          (to_canonical_bytes s) absent)

  abbrev result_of : CaptureResult → Snapshot → SnapshotResult
  result_of capture s = record {
    snapshot_id = hash (to_canonical_bytes s);
    snapshot = s;
    capture = capture;
  }

  store_snapshot_absent :
      (now : Option ℕ) (capture : CaptureResult) (request : SnapshotRequest)
      (parents : List ObjectId) (t : ℕ) (disk : Disk)
      → resolve_timestamp now request ≡ ok t
      → try_exists disk (
          object_path
            (objects_dir m)
            snapshot
            (hash (to_canonical_bytes (made capture request parents t))))
        ≡ false
      → (store_snapshot hash m cursor now capture request parents disk).0
        ≡ ok (result_of capture (made capture request parents t))
  unfolding store_snapshot reads writes ◌>>!◌
  store_snapshot_absent now capture request parents t disk e absent =
      let s = made capture request parents t in
      ap (λ (x : Result RepositoryError SnapshotResult × Disk). x.0)
        (bind-first (reads (λ _. resolve_timestamp now request))
            (λ t. store_object hash m cursor (made capture request parents t) >>! index t) disk t e
          ∙ bind-first (store_object hash m cursor s) (index t) disk (hash (to_canonical_bytes s))
              (put_snapshot_absent s disk absent))
    where
      index : ℕ → ObjectId → Action SnapshotResult
      index t id = writes (λ disk. write_snapshot_index_entry m disk id) >>! λ _. reads (λ _.
          ok (record {
            snapshot_id = id;
            snapshot = made capture request parents t;
            capture = capture;
          }))

  -- What a snapshot that advances the cursor leaves.
  pub record Advanced (reference : CursorReference) (r : SnapshotResult) (disk after : Disk)
      : Type 0 where
    pub moved : read_cursor_ref m reference after ≡ ok r.snapshot_id
    pub readable : get_snapshot hash (objects_dir m) after r.snapshot_id ≡ ok r.snapshot
    pub kept : KeepsObjects (objects_dir m) disk after
    pub head : read_head_branch m after ≡ read_head_branch m disk
    pub others :
        (other : CursorReference)
        → other ≢ reference
        → read_cursor_ref m other after ≡ read_cursor_ref m other disk

  module _ (materializer : Materializer) (now : Option ℕ) where
    advance_absent :
        (reference : CursorReference) (capture : CaptureResult) (request : SnapshotRequest)
        (parent : ObjectId) (t : ℕ) (disk : Disk)
        → IsHash hash
        → resolve_timestamp now request ≡ ok t
        → Storable hash (made capture request (parent ∷ []) t)
        → try_exists disk (
            object_path
              (objects_dir m)
              snapshot
              (hash (to_canonical_bytes (made capture request (parent ∷ []) t))))
          ≡ false
        → (let run = advance hash m cursor materializer now reference capture request parent disk in
            let r = result_of capture (made capture request (parent ∷ []) t) in
            (run.0 ≡ ok r) × Advanced reference r disk run.1)
    unfolding advance reads writes ◌>>!◌
    advance_absent reference capture request parent t disk is_hash e w absent =
        let s = made capture request (parent ∷ []) t in
        let r = result_of capture s in
        let store = store_snapshot hash m cursor now capture request (parent ∷ []) in
        let stored = store_snapshot_absent now capture request (parent ∷ []) t disk e absent in
        let before = (store disk).1 in
        let quiet = store_snapshot-Quiet hash m cursor now capture request (parent ∷ []) disk in
        let after = write_cursor_ref m reference r.snapshot_id before in
        let written = write_cursor_ref-Written m before reference r.snapshot_id in
        let found =
          store_snapshot-ok hash m cursor now capture request (parent ∷ []) disk r
            (λ t' e'.
              subst (λ (x : ℕ). Storable hash (made capture request (parent ∷ []) x))
                (accepted (sym e ∙ e')) w)
            stored in
        let run : advance hash m cursor materializer now reference capture request parent disk
            ≡ (ok r, after) =
          bind-first store
            (λ result. writes (write_cursor_ref m reference result.snapshot_id) >>! λ _.
              reads (λ _. ok result))
            disk r stored in
        (
          ap (λ (x : Result RepositoryError SnapshotResult × Disk). x.0) run,
          subst (λ (d : Disk). Advanced reference r disk d)
              (sym (ap (λ (x : Result RepositoryError SnapshotResult × Disk). x.1) run))
              (record {
                moved =
                    read_cursor_ref-write_cursor_ref m before reference r.snapshot_id (is_hash _);
                readable =
                    get_snapshot-KeepsObjects hash (objects_dir m) before after r.snapshot_id s
                      written.objects found.stored;
                kept = λ kind id bytes h.
                    written.objects kind id bytes (quiet.objects kind id bytes h);
                head = written.head ∙ read_head_branch-Quiet m disk before quiet;
                others = λ other n.
                    read_cursor_ref-write_cursor_ref_other m before reference other r.snapshot_id n
                    ∙ read_cursor_ref_same_refs m disk before other quiet.refs;
              }),
        )
      where
        accepted : {x y : ℕ} → ◌≡◌ {A = Result RepositoryError ℕ} (ok x) (ok y) → x ≡ y
        accepted h = cc

    Advanced-Quiet :
        (reference : CursorReference) (r : SnapshotResult) (disk captured after : Disk)
        → Quiet m disk captured
        → Advanced reference r captured after
        → Advanced reference r disk after
    Advanced-Quiet reference r disk captured after q a = record {
      moved = a.moved;
      readable = a.readable;
      kept = λ kind id bytes h. a.kept kind id bytes (q.objects kind id bytes h);
      head = a.head ∙ read_head_branch-Quiet m disk captured q;
      others = λ other n. a.others other n ∙ read_cursor_ref_same_refs m disk captured other q.refs;
    }

-- Taking a snapshot when the working directory can be captured, the cursor and its ref can be read and
-- no object stands at the path of the new snapshot: it succeeds, with a snapshot of the captured tree
-- whose only parent is where the cursor was; the cursor's ref then reads as the new identifier, under
-- which that snapshot is stored; every object, HEAD and every other branch and workspace stay. The
-- hash gives identifiers, this capture leaves HEAD, the refs and the stored objects alone, and the new
-- snapshot can be stored.
pub snapshot_now_lem :
    (hash : Bytes → ObjectId) (m : PathBuf) (cursor : RepositoryCursor)
    (materializer : Materializer) (now : Option ℕ) (request : SnapshotRequest) (disk : Disk)
    (capture : CaptureResult) (reference : CursorReference) (parent : ObjectId) (t : ℕ)
    → IsHash hash
    → Quiet m disk (materializer.capture_tree_with_hints [] disk).1
    → (materializer.capture_tree_with_hints [] disk).0 ≡ ok capture
    → current_cursor_reference hash m cursor disk ≡ ok reference
    → read_cursor_ref m reference disk ≡ ok parent
    → resolve_timestamp now request ≡ ok t
    → Storable hash (made capture request (parent ∷ []) t)
    → try_exists (materializer.capture_tree_with_hints [] disk).1 (
        object_path
          (objects_dir m)
          snapshot
          (hash (to_canonical_bytes (made capture request (parent ∷ []) t))))
      ≡ false
    → (let run = snapshot_now hash m cursor materializer now request disk in
        let s = made capture request (parent ∷ []) t in
        let r : SnapshotResult = record {
          snapshot_id = hash (to_canonical_bytes s);
          snapshot = s;
          capture = capture;
        } in
        (run.0 ≡ ok r) × Advanced hash m cursor reference r disk run.1)
unfolding snapshot_now reads
snapshot_now_lem hash m cursor materializer now request disk capture reference parent t is_hash q e1
      e2 e3 e4 w absent =
    let captured = (materializer.capture_tree_with_hints [] disk).1 in
    let s = made capture request (parent ∷ []) t in
    let r : SnapshotResult = record {
      snapshot_id = hash (to_canonical_bytes s);
      snapshot = s;
      capture = capture;
    } in
    let last = advance hash m cursor materializer now reference capture request in
    let run : snapshot_now hash m cursor materializer now request disk ≡ last parent captured =
      bind-first (materializer.capture_tree_with_hints [])
        (λ c. reads (current_cursor_reference hash m cursor) >>! from_reference c) disk capture e1
      ∙ bind-first (reads (current_cursor_reference hash m cursor)) (from_reference capture)
          captured reference (current_cursor_reference-Quiet hash m cursor disk captured q ∙ e2)
      ∙ bind-first (reads (read_cursor_ref m reference)) last captured parent
          (read_cursor_ref_same_refs m disk captured reference q.refs ∙ e3) in
    let (good, advanced) =
      advance_absent hash m cursor materializer now reference capture request parent t captured
        is_hash e4 w absent in
    subst
      (λ (x : Result RepositoryError SnapshotResult × Disk).
        (x.0 ≡ ok r) × Advanced hash m cursor reference r disk x.1)
      (sym run)
      (good, Advanced-Quiet hash m cursor materializer now reference r disk captured _ q advanced)
  where
    from_reference : CaptureResult → CursorReference → Action SnapshotResult
    from_reference c reference =
        reads (read_cursor_ref m reference)
        >>! advance hash m cursor materializer now reference c request

bind-same :
    {A B : Type 0} (m n : Action A) (f : A → Action B) (disk other : Disk)
    → m disk ≡ n other
    → (m >>! f) disk ≡ (n >>! f) other
unfolding ◌>>!◌
bind-same {A = A} m n f disk other e =
    ap (λ (x : Result RepositoryError A × Disk). elim x.0 [ ok a ↦ f a x.1 | err y ↦ (err y, x.1) ])
      e

-- Saving a change without hints, when the working directory can be captured and the cursor, its ref and
-- its snapshot can be read: if the captured tree is that of the snapshot the answer is that there is
-- nothing to save and nothing but the capture has touched the disk, and else it is what taking a
-- snapshot comes to. This capture leaves HEAD, the refs and the stored objects alone.
pub snapshot_if_changed_lem :
    (hash : Bytes → ObjectId) (m : PathBuf) (cursor : RepositoryCursor)
    (materializer : Materializer) (now : Option ℕ) (request : SnapshotRequest) (disk : Disk)
    (capture : CaptureResult) (reference : CursorReference) (parent : ObjectId) (p : Snapshot)
    → Quiet m disk (materializer.capture_tree_with_hints [] disk).1
    → (materializer.capture_tree_with_hints [] disk).0 ≡ ok capture
    → current_cursor_reference hash m cursor disk ≡ ok reference
    → read_cursor_ref m reference disk ≡ ok parent
    → get_snapshot hash (objects_dir m) disk parent ≡ ok p
    → snapshot_if_changed_with_hints hash m cursor materializer now [] request disk ≡ (
        if bytes_eq capture.root_tree_id p.root_tree_id
        then (ok none, (materializer.capture_tree_with_hints [] disk).1)
        else (snapshot_now hash m cursor materializer now request >>! λ r. reads (λ _. ok (some r)))
            disk)
unfolding snapshot_if_changed_with_hints snapshot_now advance_if_changed read_snapshot reads
snapshot_if_changed_lem hash m cursor materializer now request disk capture reference parent p q e1
      e2 e3 e4 =
    let captured = (materializer.capture_tree_with_hints [] disk).1 in
    let c2 = current_cursor_reference-Quiet hash m cursor disk captured q ∙ e2 in
    let c3 = read_cursor_ref_same_refs m disk captured reference q.refs ∙ e3 in
    let changed = advance_if_changed hash m cursor materializer now reference capture request in
    let last = advance hash m cursor materializer now reference capture request in
    let found : read_snapshot hash m cursor parent captured ≡ ok p =
      ap (λ (r : Result ObjectStoreError Snapshot). map_err object_store r)
        (get_snapshot-KeepsObjects hash (objects_dir m) disk captured parent p q.objects e4) in
    let left : snapshot_if_changed_with_hints hash m cursor materializer now [] request disk
        ≡ choose last p captured =
      bind-first (materializer.capture_tree_with_hints [])
        (λ c. reads (current_cursor_reference hash m cursor) >>! maybe_from c) disk capture e1
      ∙ bind-first (reads (current_cursor_reference hash m cursor)) (maybe_from capture) captured
          reference c2
      ∙ bind-first (reads (read_cursor_ref m reference)) changed captured parent c3
      ∙ bind-first (reads (read_snapshot hash m cursor parent)) (choose last) captured p found in
    let right : snapshot_now hash m cursor materializer now request disk ≡ last parent captured =
      bind-first (materializer.capture_tree_with_hints [])
        (λ c. reads (current_cursor_reference hash m cursor) >>! from_reference c) disk capture e1
      ∙ bind-first (reads (current_cursor_reference hash m cursor)) (from_reference capture)
          captured reference c2
      ∙ bind-first (reads (read_cursor_ref m reference)) last captured parent c3 in
    elim (Bool-cases (bytes_eq capture.root_tree_id p.root_tree_id)) [
      | inl same ↦ left ∙ rw same refl
      | inr differ ↦
          left
          ∙ rw differ (
              sym (
                bind-same (snapshot_now hash m cursor materializer now request) (last parent)
                  (λ r. reads (λ _. ok (some r))) disk captured right))
    ]
  where
    from_reference : CaptureResult → CursorReference → Action SnapshotResult
    from_reference c reference =
        reads (read_cursor_ref m reference)
        >>! advance hash m cursor materializer now reference c request

    maybe_from : CaptureResult → CursorReference → Action (Option SnapshotResult)
    maybe_from c reference =
        reads (read_cursor_ref m reference)
        >>! advance_if_changed hash m cursor materializer now reference c request

    choose : (ObjectId → Action SnapshotResult) → Snapshot → Action (Option SnapshotResult)
    choose last s =
        if bytes_eq capture.root_tree_id s.root_tree_id
        then reads (λ _. ok none)
        else last parent >>! λ result. reads (λ _. ok (some result))
