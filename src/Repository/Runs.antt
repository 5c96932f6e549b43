-- ===== src/Repository/Runs.antt =====
-- Runs of operations of crates/repository/src/repository.rs by several handles of one repository.
use era.ObjectStore.Local.{get_snapshot}
use era.Base.{Bytes, Result, ok, ℕ, ◌≡◌, Option, List, [], ◌∷◌}
use era.Core.ObjectId.{ObjectId, IsObjectId}
use era.ObjectStore.Disk.{PathBuf, Disk}
use era.ObjectStore.Local.Stored.{get_snapshot-KeepsObjects}
use era.Repository.Error.{RepositoryError}
use era.Repository.Refs.{objects_dir}
use era.Repository.Refs.Quiet.{Quiet}
use era.Repository.Snapshots.{
  RepositoryCursor, CursorReference, CaptureResult, Materializer, SnapshotRequest, SnapshotResult,
  resolve_timestamp, automatic_snapshot_request, made, Action, ◌>>!◌, reads, writes,
  read_cursor_ref, write_cursor_ref, current_cursor_reference, snapshot_now, advance_if_changed,
  snapshot_if_changed_with_hints, create_branch, switch_branch,
}
use era.Repository.Snapshots.Cursors.{
  Points, HasRefs, IsRepository, IsRepository-Quiet, IsRepository-write_cursor_ref,
}
use era.Repository.Snapshots.Stores.{after-bind, Storable}
use era.Repository.Snapshots.Moves.{
  IsHash, Fresh, snapshot_now-IsRepository, advance_if_changed-IsRepository,
  advance_if_changed-KeepsObjects, snapshot_if_changed_with_hints-IsRepository,
}
use era.Repository.Snapshots.Branches.{
  SwitchLeaves, create_branch-IsRepository, switch_branch-IsRepository,
}
use era.Repository.Restore.{TimelineEntry, RestoreResult, resolve_snapshot_target, restore}
use era.Repository.Restore.Keeps.{IsListing, Stands}
use era.Repository.Restore.Restored.{resolve_snapshot_target-Resolves}

abbrev pub Listing : Type 0
Listing = Disk → Result RepositoryError (List ObjectId)

module _ (hash : Bytes → ObjectId) (m : PathBuf) (cursor : RepositoryCursor)
    (list_snapshot_ids list_snapshot_index_ids : Listing) (materializer : Materializer)
    (now : Option ℕ) where
  -- The tree that is restored, if it is written, is written beside HEAD, the refs and the objects.
  unfoldable pub RestoreLeaves : Bytes → Disk → Type 0
  RestoreLeaves target disk =
      let found =
        (resolve_snapshot_target hash m cursor list_snapshot_ids list_snapshot_index_ids target
          disk).1 in
      let captured = (materializer.capture_tree_with_hints [] found).1 in
      (resolved : TimelineEntry) (capture : CaptureResult) (reference : CursorReference)
      (parent : ObjectId)
      → (resolve_snapshot_target hash m cursor list_snapshot_ids list_snapshot_index_ids target
          disk).0
        ≡ ok resolved
      → (materializer.capture_tree_with_hints [] found).0 ≡ ok capture
      → current_cursor_reference hash m cursor captured ≡ ok reference
      → read_cursor_ref m reference captured ≡ ok parent
      → (let saved =
            (advance_if_changed hash m cursor materializer now reference capture
              (automatic_snapshot_request cursor) parent captured).1 in
          Quiet m saved (materializer.materialize_tree resolved.snapshot.root_tree_id saved).1)

module _ (hash : Bytes → ObjectId) (is_hash : IsHash hash) (m : PathBuf) (cursor : RepositoryCursor)
    (list_snapshot_ids list_snapshot_index_ids : Listing) (materializer : Materializer)
    (must : CursorReference → Type 0) (now : Option ℕ) where
  -- The parts of `restore` behind the resolution of its target, from the last.
  abbrev finish :
      TimelineEntry → CursorReference → Option SnapshotResult → Unit {0} → Action RestoreResult
  finish resolved reference saved _ =
      writes (write_cursor_ref m reference resolved.snapshot_id) >>! λ _. reads (λ _. ok (record {
        cursor = reference;
        snapshot_id = resolved.snapshot_id;
        snapshot = resolved.snapshot;
        saved_snapshot = saved;
      }))

  abbrev from_saved : TimelineEntry → CursorReference → Option SnapshotResult → Action RestoreResult
  from_saved resolved reference saved =
      materializer.materialize_tree resolved.snapshot.root_tree_id
      >>! finish resolved reference saved

  abbrev from_parent :
      TimelineEntry → CaptureResult → CursorReference → ObjectId → Action RestoreResult
  from_parent resolved capture reference parent =
      advance_if_changed hash m cursor materializer now reference capture
        (automatic_snapshot_request cursor) parent
      >>! from_saved resolved reference

  abbrev from_reference : TimelineEntry → CaptureResult → CursorReference → Action RestoreResult
  from_reference resolved capture reference =
      reads (read_cursor_ref m reference) >>! from_parent resolved capture reference

  abbrev from_capture : TimelineEntry → CaptureResult → Action RestoreResult
  from_capture resolved capture =
      reads (current_cursor_reference hash m cursor) >>! from_reference resolved capture

  -- Saving what changed, writing the resolved tree, and pointing the cursor at its snapshot.
  from_parent-IsRepository :
      (resolved : TimelineEntry) (capture : CaptureResult) (reference : CursorReference)
      (parent : ObjectId) (disk : Disk)
      → ((t : ℕ)
          → resolve_timestamp now (automatic_snapshot_request cursor) ≡ ok t
          → Storable hash (made capture (automatic_snapshot_request cursor) (parent ∷ []) t))
      → (let saved =
            (advance_if_changed hash m cursor materializer now reference capture
              (automatic_snapshot_request cursor)
              parent
              disk).1 in
          Quiet m saved (materializer.materialize_tree resolved.snapshot.root_tree_id saved).1)
      → IsObjectId resolved.snapshot_id
      → get_snapshot hash (objects_dir m) disk resolved.snapshot_id ≡ ok resolved.snapshot
      → IsRepository hash m must disk
      → IsRepository hash m must (from_parent resolved capture reference parent disk).1
  unfolding reads writes ◌>>!◌
  from_parent-IsRepository resolved capture reference parent disk fresh quiet v stands w =
      let request = automatic_snapshot_request cursor in
      let save =
        advance_if_changed hash m cursor materializer now reference capture request parent in
      let saved = (save disk).1 in
      let kept =
        advance_if_changed-IsRepository hash is_hash m cursor materializer must now reference
          capture request parent disk fresh w in
      let keeps =
        advance_if_changed-KeepsObjects hash is_hash m cursor materializer must now reference
          capture request parent disk in
      after-bind (IsRepository hash m must) save (from_saved resolved reference) disk kept (λ s _.
        let root = resolved.snapshot.root_tree_id in
        let written = (materializer.materialize_tree root saved).1 in
        let still = IsRepository-Quiet hash m must saved written quiet kept in
        after-bind (IsRepository hash m must) (materializer.materialize_tree root)
          (finish resolved reference s) saved still
          (λ _ _.
            IsRepository-write_cursor_ref hash m must written reference resolved.snapshot_id
              resolved.snapshot v
              (get_snapshot-KeepsObjects hash (objects_dir m) disk written resolved.snapshot_id
                resolved.snapshot
                (λ kind id bytes h. quiet.objects kind id bytes (keeps kind id bytes h)) stands)
              still))

  restore-IsRepository :
      (target : Bytes) (disk : Disk)
      → RestoreLeaves hash m cursor list_snapshot_ids list_snapshot_index_ids materializer now
          target disk
      → IsListing list_snapshot_index_ids
      → Fresh hash m cursor materializer now []
          (automatic_snapshot_request cursor)
          (resolve_snapshot_target hash m cursor list_snapshot_ids list_snapshot_index_ids target
            disk).1
      → IsRepository hash m must disk
      → IsRepository hash m must
          (restore hash m cursor list_snapshot_ids list_snapshot_index_ids materializer now target
            disk).1
  unfolding restore reads RestoreLeaves Stands
  restore-IsRepository target disk leaves listing fresh w =
      let resolve =
        resolve_snapshot_target hash m cursor list_snapshot_ids list_snapshot_index_ids target in
      let resolves =
        resolve_snapshot_target-Resolves hash m cursor list_snapshot_ids list_snapshot_index_ids
          target listing in
      let found = (resolve disk).1 in
      let w1 = IsRepository-Quiet hash m must disk found (resolves.quiet disk) w in
      let capture_tree = materializer.capture_tree_with_hints [] in
      let captured = (capture_tree found).1 in
      let quiet = fresh.capture_quiet in
      let w2 = IsRepository-Quiet hash m must found captured quiet w1 in
      after-bind (IsRepository hash m must) resolve
        (λ resolved. capture_tree >>! from_capture resolved) disk w1
        (λ resolved e1.
          let (v, stands) = resolves.stands disk resolved e1 in
          after-bind (IsRepository hash m must) capture_tree (from_capture resolved) found w2
            (λ capture e2.
              after-bind (IsRepository hash m must) (reads (current_cursor_reference hash m cursor))
                (from_reference resolved capture) captured w2
                (λ reference e3.
                  after-bind (IsRepository hash m must) (reads (read_cursor_ref m reference))
                    (from_parent resolved capture reference) captured w2
                    (λ parent e4.
                      from_parent-IsRepository resolved capture reference parent captured
                        (λ t e5. fresh.storable capture reference parent t e2 e3 e4 e5)
                        (leaves resolved capture reference parent e1 e2 e3 e4) v
                        (get_snapshot-KeepsObjects hash (objects_dir m) found captured
                          resolved.snapshot_id resolved.snapshot quiet.objects stands)
                        w2))))

-- The operations on one repository by handles of any cursor, whatever they answer. Each finds that the
-- snapshot that it would store can be stored, and that its materializer leaves HEAD, the refs and the
-- stored objects alone where it is called.
module _ (hash : Bytes → ObjectId) (m : PathBuf) (materializer : Materializer)
    (list_snapshot_ids list_snapshot_index_ids : Listing) where
  pub data Operated : Disk → Disk → Type 0 where
    no_more : {disk : Disk} → Operated disk disk
    snapshot_taken :
        {disk after : Disk} (cursor : RepositoryCursor) (now : Option ℕ) (request : SnapshotRequest)
        → Fresh hash m cursor materializer now [] request disk
        → Operated (snapshot_now hash m cursor materializer now request disk).1 after
        → Operated disk after
    change_saved :
        {disk after : Disk} (cursor : RepositoryCursor) (now : Option ℕ) (hints : List PathBuf)
        (request : SnapshotRequest)
        → Fresh hash m cursor materializer now hints request disk
        → Operated
            (snapshot_if_changed_with_hints hash m cursor materializer now hints request disk).1
            after
        → Operated disk after
    branch_created :
        {disk after : Disk} (cursor : RepositoryCursor) (now : Option ℕ) (name : Bytes)
        → Fresh hash m cursor materializer now [] (automatic_snapshot_request cursor) disk
        → Operated (create_branch hash m cursor materializer now name disk).1 after
        → Operated disk after
    branch_switched :
        {disk after : Disk} (cursor : RepositoryCursor) (now : Option ℕ) (name : Bytes)
        → SwitchLeaves hash m cursor materializer now name disk
        → Fresh hash m cursor materializer now [] (automatic_snapshot_request cursor) disk
        → Operated (switch_branch hash m cursor materializer now name disk).1 after
        → Operated disk after
    target_restored :
        {disk after : Disk} (cursor : RepositoryCursor) (now : Option ℕ) (target : Bytes)
        → RestoreLeaves hash m cursor list_snapshot_ids list_snapshot_index_ids materializer now
            target disk
        → Fresh hash m cursor materializer now []
            (automatic_snapshot_request cursor)
            (resolve_snapshot_target hash m cursor list_snapshot_ids list_snapshot_index_ids target
              disk).1
        → Operated
            (restore hash m cursor list_snapshot_ids list_snapshot_index_ids materializer now target
              disk).1
            after
        → Operated disk after

  Operated-keeps :
      (is_hash : IsHash hash) (must : CursorReference → Type 0) {disk after : Disk}
      → IsListing list_snapshot_index_ids
      → Operated disk after
      → IsRepository hash m must disk
      → IsRepository hash m must after
  Operated-keeps is_hash must listing no_more w = w
  Operated-keeps is_hash must listing (snapshot_taken {disk = disk} cursor now request fresh run)
        w =
      Operated-keeps is_hash must listing run
        (snapshot_now-IsRepository hash is_hash m cursor materializer must now request disk fresh w)
  Operated-keeps is_hash must listing
        (change_saved {disk = disk} cursor now hints request fresh run) w =
      Operated-keeps is_hash must listing run (
        snapshot_if_changed_with_hints-IsRepository hash is_hash m cursor materializer must now
          hints request disk fresh w)
  Operated-keeps is_hash must listing (branch_created {disk = disk} cursor now name fresh run) w =
      Operated-keeps is_hash must listing run
        (create_branch-IsRepository hash is_hash m cursor materializer must now name disk fresh w)
  Operated-keeps is_hash must listing
        (branch_switched {disk = disk} cursor now name leaves fresh run) w =
      Operated-keeps is_hash must listing run (
        switch_branch-IsRepository hash is_hash m cursor materializer must now name disk leaves
          fresh w)
  Operated-keeps is_hash must listing
        (target_restored {disk = disk} cursor now target leaves fresh run) w =
      Operated-keeps is_hash must listing run (
        restore-IsRepository hash is_hash m cursor list_snapshot_ids list_snapshot_index_ids
          materializer must now target disk leaves listing fresh w)

-- However snapshots are taken, changes saved, branches created and switched, and targets restored, by
-- handles of HEAD and of workspaces, and whether they succeed or fail: when every branch and workspace
-- at first has no ref or one that can be read and points at a stored snapshot, it is so at the end,
-- and every branch and workspace that had a ref still has one. The hash gives identifiers, the listing
-- of the index gives identifiers; and each operation, where it captures or writes a tree, leaves HEAD,
-- the refs and the stored objects alone, and what it would store can be stored.
pub Operated-IsRepository :
    (hash : Bytes → ObjectId) (m : PathBuf) (materializer : Materializer)
    (list_snapshot_ids list_snapshot_index_ids : Listing) {disk after : Disk}
    → IsHash hash
    → IsListing list_snapshot_index_ids
    → Operated hash m materializer list_snapshot_ids list_snapshot_index_ids disk after
    → HasRefs hash m disk
    → HasRefs hash m after
      × ((reference : CursorReference)
          → Points hash m reference disk
          → Points hash m reference after)
unfolding IsRepository
Operated-IsRepository hash m materializer ls li {disk = disk} is_hash listing run refs =
    Operated-keeps hash m materializer ls li is_hash (λ r. Points hash m r disk) listing run
      (refs, λ r p. p)
