-- ===== src/Repository/Snapshots/Branches.antt =====
-- Creating and switching branches in crates/repository/src/repository.rs.
use era.Base.{
  if◌then◌else◌, Bool, Bool-cases, Bytes, Result, ok, err, bind-eq-ok, ℕ, ◌≡◌, sym, ap, subst, inl,
  inr, not, Option, [],
}
use era.Core.ObjectId.{ObjectId, IsObjectId}
use era.Core.Snapshot.{Snapshot}
use era.ObjectStore.Disk.{PathBuf, Disk}
use era.ObjectStore.Local.{get_snapshot}
use era.ObjectStore.Local.Stored.{get_snapshot-KeepsObjects}
use era.Repository.Error.{RepositoryError, branch_already_exists, branch_not_found}
use era.Repository.Refs.{
  objects_dir, write_head, create_branch_ref, branch_ref_exists, read_branch_ref,
}
use era.Repository.Refs.Quiet.{Quiet, create_branch_ref-cases, write_head_quiet}
use era.Repository.Snapshots.{
  RepositoryCursor, CursorReference, current_branch, own_workspace, branch_cursor, workspace_cursor,
  Materializer, SnapshotResult, BranchOperationResult, SwitchResult, automatic_snapshot_request,
  Action, ◌>>!◌, reads, writes, read_cursor_ref, write_cursor_ref, current_cursor_reference,
  current_snapshot_id, read_snapshot, save_current_state_if_changed, create_branch, write_switch,
  switch_branch,
}
use era.Repository.Snapshots.Cursors.{
  read_cursor_ref-IsObjectId, IsRepository, IsRepository-same_refs, IsRepository-Quiet,
  IsRepository-stored, IsRepository-write_cursor_ref,
}
use era.Repository.Snapshots.Stores.{after-bind}
use era.Repository.Snapshots.Moves.{IsHash, Fresh, snapshot_if_changed_with_hints-IsRepository}

module _ (hash : Bytes → ObjectId) (m : PathBuf) (cursor : RepositoryCursor)
    (materializer : Materializer) (now : Option ℕ) where
  -- The tree of the branch, if it is written, is written beside HEAD, the refs and the objects.
  unfoldable pub SwitchLeaves : Bytes → Disk → Type 0
  SwitchLeaves name disk =
      let after = (save_current_state_if_changed hash m cursor materializer now disk).1 in
      (id : ObjectId) (s : Snapshot)
      → read_branch_ref m after name ≡ ok id
      → read_snapshot hash m cursor id after ≡ ok s
      → Quiet m after (materializer.materialize_tree s.root_tree_id after).1

module _ (hash : Bytes → ObjectId) (is_hash : IsHash hash) (m : PathBuf) (cursor : RepositoryCursor)
    (materializer : Materializer) (must : CursorReference → Type 0) (now : Option ℕ) where
  create_branch_ref-IsRepository :
      (name : Bytes) (id : ObjectId) (s : Snapshot) (disk : Disk)
      → IsObjectId id
      → get_snapshot hash (objects_dir m) disk id ≡ ok s
      → IsRepository hash m must disk
      → IsRepository hash m must (create_branch_ref m disk name id).1
  unfolding write_cursor_ref
  create_branch_ref-IsRepository name id s disk v e w =
      elim (create_branch_ref-cases m disk name id) [
        | inl (_, h) ↦
            subst (IsRepository hash m must)
              (sym (ap (λ (x : Result RepositoryError (Unit {0}) × Disk). x.1) h)) w
        | inr h ↦
            subst (IsRepository hash m must)
              (sym (ap (λ (x : Result RepositoryError (Unit {0}) × Disk). x.1) h))
              (IsRepository-write_cursor_ref hash m must disk (branch_cursor name) id s v e w)
      ]

  save-IsRepository :
      (disk : Disk)
      → Fresh hash m cursor materializer now [] (automatic_snapshot_request cursor) disk
      → IsRepository hash m must disk
      → IsRepository hash m must
          (save_current_state_if_changed hash m cursor materializer now disk).1
  unfolding save_current_state_if_changed
  save-IsRepository disk fresh w =
      snapshot_if_changed_with_hints-IsRepository hash is_hash m cursor materializer must now []
        (automatic_snapshot_request cursor) disk fresh w

  current_snapshot_id-stored :
      (disk : Disk) (id : ObjectId)
      → IsRepository hash m must disk
      → current_snapshot_id hash m cursor disk ≡ ok id
      → IsObjectId id × ((s : Snapshot) × (get_snapshot hash (objects_dir m) disk id ≡ ok s))
  unfolding current_snapshot_id IsRepository
  current_snapshot_id-stored disk id w h =
      let (reference, _, e) = bind-eq-ok (current_cursor_reference hash m cursor disk) _ h in
      (
        read_cursor_ref-IsObjectId m disk reference id e,
        IsRepository-stored hash m must disk reference id w e,
      )

  pub create_branch-IsRepository :
      (name : Bytes) (disk : Disk)
      → Fresh hash m cursor materializer now [] (automatic_snapshot_request cursor) disk
      → IsRepository hash m must disk
      → IsRepository hash m must (create_branch hash m cursor materializer now name disk).1
  unfolding create_branch reads ◌>>!◌
  create_branch-IsRepository name disk fresh w =
      after-bind (IsRepository hash m must) (reads (λ d. branch_ref_exists m d name)) create disk w
        (λ there _. elim (Bool-cases there) [
          | inl stands ↦ rw (stands) w
          | inr absent ↦ rw (absent) (
              let kept = save-IsRepository disk fresh w in
              let after = (save_current_state_if_changed hash m cursor materializer now disk).1 in
              after-bind (IsRepository hash m must)
                (save_current_state_if_changed hash m cursor materializer now)
                (λ saved. reads (current_snapshot_id hash m cursor) >>! point saved) disk kept
                (λ saved _.
                  after-bind (IsRepository hash m must) (reads (current_snapshot_id hash m cursor))
                    (point saved) after kept
                    (λ id e.
                      let (v, stored) = current_snapshot_id-stored after id kept e in
                      let made_ref =
                        create_branch_ref-IsRepository name id stored.0 after v stored.1 kept in
                      after-bind (IsRepository hash m must) (λ d. create_branch_ref m d name id)
                        (answer saved id) after made_ref (λ _ _. made_ref))))
        ])
    where
      answer : Option SnapshotResult → ObjectId → Unit {0} → Action BranchOperationResult
      answer saved id _ =
          reads (λ _. ok (record { branch = name; snapshot_id = id; saved_snapshot = saved }))

      point : Option SnapshotResult → ObjectId → Action BranchOperationResult
      point saved id = (λ d. create_branch_ref m d name id) >>! answer saved id

      create : Bool → Action BranchOperationResult
      create there =
          if there
          then reads (λ _. err (branch_already_exists name))
          else save_current_state_if_changed hash m cursor materializer now >>! λ saved.
              reads (current_snapshot_id hash m cursor) >>! point saved

  write_switch-IsRepository :
      (name : Bytes) (id : ObjectId) (s : Snapshot) (disk : Disk)
      → IsObjectId id
      → get_snapshot hash (objects_dir m) disk id ≡ ok s
      → IsRepository hash m must disk
      → IsRepository hash m must (write_switch hash m cursor materializer now name id disk)
  unfolding write_switch write_cursor_ref
  write_switch-IsRepository name id s disk v e w =
      elim cursor
        as (λ k. IsRepository hash m must (write_switch hash m k materializer now name id disk)) [
          | current_branch ↦
              let (objects, refs) = write_head_quiet m disk name in
              IsRepository-same_refs hash m must disk (write_head m disk name) objects refs w
          | own_workspace workspace ↦
              IsRepository-write_cursor_ref hash m must disk (workspace_cursor workspace) id s v e w
        ]

  pub switch_branch-IsRepository :
      (name : Bytes) (disk : Disk)
      → SwitchLeaves hash m cursor materializer now name disk
      → Fresh hash m cursor materializer now [] (automatic_snapshot_request cursor) disk
      → IsRepository hash m must disk
      → IsRepository hash m must (switch_branch hash m cursor materializer now name disk).1
  unfolding switch_branch SwitchLeaves reads writes read_cursor_ref IsRepository ◌>>!◌
  switch_branch-IsRepository name disk leaves fresh w =
      after-bind (IsRepository hash m must) (reads (λ d. branch_ref_exists m d name)) switch disk w
        (λ present _. elim (Bool-cases (not present)) [
          | inl missing ↦ rw (missing) w
          | inr there ↦ rw (there) (
              let kept = save-IsRepository disk fresh w in
              let after = (save_current_state_if_changed hash m cursor materializer now disk).1 in
              after-bind (IsRepository hash m must)
                (save_current_state_if_changed hash m cursor materializer now)
                (λ saved. reads (λ d. read_branch_ref m d name) >>! check saved) disk kept
                (λ saved _.
                  after-bind (IsRepository hash m must) (reads (λ d. read_branch_ref m d name))
                    (check saved) after kept
                    (λ id e.
                      let (s, f) =
                        IsRepository-stored hash m must after (branch_cursor name) id kept e in
                      let v = read_cursor_ref-IsObjectId m after (branch_cursor name) id e in
                      after-bind (IsRepository hash m must) (reads (read_snapshot hash m cursor id))
                        (put saved id) after kept
                        (λ t f2.
                          let quiet = leaves id t e f2 in
                          let written = (materializer.materialize_tree t.root_tree_id after).1 in
                          let still = IsRepository-Quiet hash m must after written quiet kept in
                          after-bind (IsRepository hash m must)
                            (materializer.materialize_tree t.root_tree_id) (finish saved id t) after
                            still
                            (λ _ _.
                              write_switch-IsRepository name id s written v
                                (get_snapshot-KeepsObjects hash (objects_dir m) after written id s
                                  quiet.objects f)
                                still)))))
        ])
    where
      finish : Option SnapshotResult → ObjectId → Snapshot → Unit {0} → Action SwitchResult
      finish saved id s _ = writes (write_switch hash m cursor materializer now name id) >>! λ _.
          reads (λ _.
            ok (record { branch = name; snapshot_id = id; snapshot = s; saved_snapshot = saved }))

      put : Option SnapshotResult → ObjectId → Snapshot → Action SwitchResult
      put saved id s = materializer.materialize_tree s.root_tree_id >>! finish saved id s

      check : Option SnapshotResult → ObjectId → Action SwitchResult
      check saved id = reads (read_snapshot hash m cursor id) >>! put saved id

      switch : Bool → Action SwitchResult
      switch there =
          if not there
          then reads (λ _. err (branch_not_found name))
          else save_current_state_if_changed hash m cursor materializer now >>! λ saved.
              reads (λ d. read_branch_ref m d name) >>! check saved
