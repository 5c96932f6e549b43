-- ===== src/Repository/Snapshots.antt =====
-- crates/repository/src/repository.rs: the handle, its cursor, and the operations that take snapshots
-- and move refs. An operation is a function of the disk that answers and gives the disk after. The
-- materializer and the clock are parameters; the lock on a ref is free when it is asked for.
pub mod Cursors
pub mod Stores
pub mod Moves
pub mod Branches
pub mod Advances
mod Samples
mod Small
mod Tests
use era.Base.{
  ltb, if◌then◌else◌, Bytes, Result, ok, err, ◌>>=◌, map_err, ℕ, ◌^◌, not, Option, none, some, List,
  [], ◌∷◌,
}
use era.Base.ByteOrder.{bytes_eq}
use era.Core.ObjectId.{ObjectId}
use era.Core.Snapshot.{SnapshotProvenance, new_provenance, with_attribute, Snapshot, snapshot_id}
use era.ObjectStore.Disk.{PathBuf, Disk}
use era.ObjectStore.Local.{snapshot, get_snapshot, put_snapshot}
use era.Repository.Workspace.{default_workspace_id}
use era.Repository.Error.{
  RepositoryError, branch_already_exists, branch_not_found, clock_before_unix_epoch,
  timestamp_overflow, object_store,
}
use era.Repository.Refs.{
  objects_dir, write_head, read_head_branch, create_branch_ref, write_branch_ref, branch_ref_exists,
  read_branch_ref, write_snapshot_index_entry, write_workspace_ref, read_workspace_ref,
}

pub data RepositoryCursor : Type 0 where
  current_branch : RepositoryCursor
  own_workspace : Bytes → RepositoryCursor

pub data CursorReference : Type 0 where
  branch_cursor workspace_cursor : Bytes → CursorReference

-- What the repository reads of a capture.
pub record CaptureResult : Type 0 where
  pub root_tree_id : ObjectId

-- The trait `Materializer`, on the working directory of the handle: a capture with hints, which
-- stores objects, and the writing of a tree to the directory.
pub record Materializer : Type 0 where
  pub capture_tree_with_hints : List PathBuf → Disk → Result RepositoryError CaptureResult × Disk
  pub materialize_tree : ObjectId → Disk → Result RepositoryError (Unit {0}) × Disk

pub record SnapshotRequest : Type 0 where
  pub timestamp_millis : Option ℕ
  pub author : Option Bytes
  pub message : Option Bytes
  pub provenance : SnapshotProvenance

pub record SnapshotResult : Type 0 where
  pub snapshot_id : ObjectId
  pub snapshot : Snapshot
  pub capture : CaptureResult

pub record BranchOperationResult : Type 0 where
  pub branch : Bytes
  pub snapshot_id : ObjectId
  pub saved_snapshot : Option SnapshotResult

-- Without the result of the materialization.
pub record SwitchResult : Type 0 where
  pub branch : Bytes
  pub snapshot_id : ObjectId
  pub snapshot : Snapshot
  pub saved_snapshot : Option SnapshotResult

-- `none`: the clock is before 1970.
pub resolve_timestamp : Option ℕ → SnapshotRequest → Result RepositoryError ℕ
resolve_timestamp now request = elim request.timestamp_millis [
  | some millis ↦ ok millis
  | none ↦ elim now [
    | none ↦ err clock_before_unix_epoch
    | some millis ↦ if ltb millis (2 ^ 64) then ok millis else err (timestamp_overflow millis)
  ]
]

abbrev trigger : Bytes
trigger = b't' ∷ b'r' ∷ b'i' ∷ b'g' ∷ b'g' ∷ b'e' ∷ b'r' ∷ []

abbrev workspace_key : Bytes
workspace_key = b'w' ∷ b'o' ∷ b'r' ∷ b'k' ∷ b's' ∷ b'p' ∷ b'a' ∷ b'c' ∷ b'e' ∷ []

abbrev safety : Bytes
safety = b's' ∷ b'a' ∷ b'f' ∷ b'e' ∷ b't' ∷ b'y' ∷ []

abbrev automatic_source : Bytes
automatic_source =
    b'a' ∷ b'u' ∷ b't' ∷ b'o' ∷ b'-' ∷ b's' ∷ b'n' ∷ b'a' ∷ b'p' ∷ b's' ∷ b'h' ∷ b'o' ∷ b't' ∷ []

-- `SnapshotRequest::automatic`
pub automatic : SnapshotRequest
automatic = record {
  timestamp_millis = none;
  author = none;
  message = none;
  provenance =
      with_attribute (with_attribute (new_provenance automatic_source) trigger safety) workspace_key
        default_workspace_id;
}

pub automatic_snapshot_request : RepositoryCursor → SnapshotRequest
automatic_snapshot_request current_branch = automatic
automatic_snapshot_request (own_workspace workspace) = record {
  timestamp_millis = automatic.timestamp_millis;
  author = automatic.author;
  message = automatic.message;
  provenance = with_attribute automatic.provenance workspace_key workspace;
}

-- The snapshot that `store_snapshot` makes.
abbrev pub made : CaptureResult → SnapshotRequest → List ObjectId → ℕ → Snapshot
made capture request parents timestamp_millis = record {
  root_tree_id = capture.root_tree_id;
  parents = parents;
  timestamp_millis = timestamp_millis;
  author = request.author;
  message = request.message;
  provenance = request.provenance;
}

abbrev pub Action : Type 0 → Type 0
Action A = Disk → Result RepositoryError A × Disk

infixl 5 ◌>>!◌
unfoldable pub ◌>>!◌ : {A B : Type 0} → Action A → (A → Action B) → Action B
(m >>! f) disk = let (r, after) = m disk in elim r [ ok a ↦ f a after | err e ↦ (err e, after) ]

unfoldable pub reads : {A : Type 0} → (Disk → Result RepositoryError A) → Action A
reads f disk = (f disk, disk)

unfoldable pub writes : (Disk → Disk) → Action (Unit {0})
writes f disk = (ok tt, f disk)

module _ (metadata_dir : PathBuf) where
  pub read_cursor_ref : CursorReference → Disk → Result RepositoryError ObjectId
  read_cursor_ref (branch_cursor branch) disk = read_branch_ref metadata_dir disk branch
  read_cursor_ref (workspace_cursor workspace) disk = read_workspace_ref metadata_dir disk workspace

  pub write_cursor_ref : CursorReference → ObjectId → Disk → Disk
  write_cursor_ref (branch_cursor branch) id disk = write_branch_ref metadata_dir disk branch id
  write_cursor_ref (workspace_cursor workspace) id disk =
      write_workspace_ref metadata_dir disk workspace id

module _ (hash : Bytes → ObjectId) (metadata_dir : PathBuf) (cursor : RepositoryCursor) where
  pub current_cursor_reference : Disk → Result RepositoryError CursorReference
  current_cursor_reference disk = elim cursor [
    | current_branch ↦ read_head_branch metadata_dir disk >>= λ branch. ok (branch_cursor branch)
    | own_workspace workspace ↦ ok (workspace_cursor workspace)
  ]

  pub current_snapshot_id : Disk → Result RepositoryError ObjectId
  current_snapshot_id disk =
      current_cursor_reference disk >>= λ reference. read_cursor_ref metadata_dir reference disk

  unfoldable pub read_snapshot : ObjectId → Disk → Result RepositoryError Snapshot
  read_snapshot id disk =
      map_err object_store (get_snapshot hash (objects_dir metadata_dir) disk id)

  pub store_object : Snapshot → Action ObjectId
  store_object s disk =
      let (r, after) = put_snapshot hash (objects_dir metadata_dir) disk s in
      (map_err object_store r, after)

  pub store_snapshot :
      Option ℕ → CaptureResult → SnapshotRequest → List ObjectId → Action SnapshotResult
  store_snapshot now capture request parents =
      reads (λ _. resolve_timestamp now request) >>! λ timestamp_millis.
      let s = made capture request parents timestamp_millis in
      store_object s >>! λ id.
      writes (λ disk. write_snapshot_index_entry metadata_dir disk id) >>! λ _.
      reads (λ _. ok (record { snapshot_id = id; snapshot = s; capture = capture }))

  module _ (materializer : Materializer) (now : Option ℕ) where
    -- Storing the captured tree and moving the cursor to it.
    pub advance :
        CursorReference → CaptureResult → SnapshotRequest → ObjectId → Action SnapshotResult
    advance reference capture request parent =
        store_snapshot now capture request (parent ∷ []) >>! λ result.
        writes (write_cursor_ref metadata_dir reference result.snapshot_id) >>! λ _.
        reads (λ _. ok result)

    pub snapshot_now : SnapshotRequest → Action SnapshotResult
    snapshot_now request = materializer.capture_tree_with_hints [] >>! λ capture.
        reads current_cursor_reference >>! λ reference.
        reads (read_cursor_ref metadata_dir reference) >>! λ parent.
        advance reference capture request parent

    -- Nothing is stored when the captured tree is that of the parent.
    pub advance_if_changed :
        CursorReference
        → CaptureResult
        → SnapshotRequest
        → ObjectId
        → Action (Option SnapshotResult)
    advance_if_changed reference capture request parent =
        reads (read_snapshot parent) >>! λ parent_snapshot.
        if bytes_eq capture.root_tree_id parent_snapshot.root_tree_id
        then reads (λ _. ok none)
        else advance reference capture request parent >>! λ result. reads (λ _. ok (some result))

    pub snapshot_if_changed_with_hints :
        List PathBuf → SnapshotRequest → Action (Option SnapshotResult)
    snapshot_if_changed_with_hints hints request =
        materializer.capture_tree_with_hints hints >>! λ capture.
        reads current_cursor_reference >>! λ reference.
        reads (read_cursor_ref metadata_dir reference) >>! λ parent.
        advance_if_changed reference capture request parent

    pub save_current_state_if_changed : Action (Option SnapshotResult)
    save_current_state_if_changed =
        snapshot_if_changed_with_hints [] (automatic_snapshot_request cursor)

    pub create_branch : Bytes → Action BranchOperationResult
    create_branch name = reads (λ d. branch_ref_exists metadata_dir d name) >>! λ there.
        if there
        then reads (λ _. err (branch_already_exists name))
        else save_current_state_if_changed >>! λ saved. reads current_snapshot_id >>! λ id.
            (λ d. create_branch_ref metadata_dir d name id) >>! λ _.
            reads (λ _. ok (record { branch = name; snapshot_id = id; saved_snapshot = saved }))

    -- HEAD, or the ref of the workspace, after a switch.
    pub write_switch : Bytes → ObjectId → Disk → Disk
    write_switch name id disk = elim cursor [
      | current_branch ↦ write_head metadata_dir disk name
      | own_workspace workspace ↦ write_workspace_ref metadata_dir disk workspace id
    ]

    pub switch_branch : Bytes → Action SwitchResult
    switch_branch name = reads (λ d. branch_ref_exists metadata_dir d name) >>! λ there.
        if not there
        then reads (λ _. err (branch_not_found name))
        else save_current_state_if_changed >>! λ saved.
            reads (λ d. read_branch_ref metadata_dir d name) >>! λ id.
            reads (read_snapshot id) >>! λ s. materializer.materialize_tree s.root_tree_id >>! λ _.
            writes (write_switch name id) >>! λ _. reads (λ _.
              ok (record { branch = name; snapshot_id = id; snapshot = s; saved_snapshot = saved }))
