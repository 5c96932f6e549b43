-- ===== src/Repository/Restore.antt =====
-- crates/repository/src/repository.rs: finding the snapshot that a text names, restoring it, and the
-- timeline. The listings of the directories of objects and of the snapshot index are parameters.
pub mod Keeps
pub mod Restored
use era.Base.{
  ltb, ◌==◌, if◌then◌else◌, Bytes, Result, ok, err, ◌>>=◌, map_err, ℕ, Bool, true, false, not, ◌&&◌,
  ◌||◌, Option, none, some, List, [], ◌∷◌, map,
}
use era.Base.ByteOrder.{bytes_eq, bytes_cmp}
use era.Core.ObjectId.{ObjectId, decode_hex_digit, to_hex, from_hex}
use era.Core.Snapshot.{Snapshot, snapshot_id}
use era.ObjectStore.Disk.{PathBuf, Disk}
use era.ObjectStore.Local.{snapshot, contains}
use era.Repository.Branch.{new_branch_name}
use era.Repository.Workspace.{new_workspace_id}
use era.Repository.Error.{
  RepositoryError, snapshot_target_not_found, snapshot_target_ambiguous, object_store,
}
use era.Repository.Refs.{
  objects_dir, strip_prefix, branch_ref_exists, read_branch_ref, write_snapshot_index_entry,
  mark_snapshot_index_complete, snapshot_index_complete_exists, workspace_ref_exists,
  read_workspace_ref,
}
use era.Repository.Snapshots.{
  RepositoryCursor, CursorReference, Materializer, SnapshotResult, automatic_snapshot_request,
  Action, ◌>>!◌, reads, writes, read_cursor_ref, write_cursor_ref, current_cursor_reference,
  read_snapshot, advance_if_changed,
}
use Prim.Native.Nat.{Ordering}

-- `TimelineEntry` and `ResolvedSnapshot`, which have the same fields.
pub record TimelineEntry : Type 0 where
  pub snapshot_id : ObjectId
  pub snapshot : Snapshot

pub record RestoreResult : Type 0 where
  pub cursor : CursorReference
  pub snapshot_id : ObjectId
  pub snapshot : Snapshot
  pub saved_snapshot : Option SnapshotResult

-- `<=` on the key of the sort: the time, then the identifier.
pub entry_leb : TimelineEntry → TimelineEntry → Bool
entry_leb a b =
    ltb a.snapshot.timestamp_millis b.snapshot.timestamp_millis
    || (a.snapshot.timestamp_millis == b.snapshot.timestamp_millis
        && elim (bytes_cmp a.snapshot_id b.snapshot_id) [
          | Ordering.lt ↦ true
          | Ordering.eq ↦ true
          | Ordering.gt ↦ false
        ])

pub insert_entry : TimelineEntry → List TimelineEntry → List TimelineEntry
insert_entry e [] = e ∷ []
insert_entry e (x ∷ entries) =
    let rest = insert_entry e entries in if entry_leb e x then e ∷ x ∷ entries else x ∷ rest

pub sort_entries : List TimelineEntry → List TimelineEntry
sort_entries [] = []
sort_entries (e ∷ entries) = insert_entry e (sort_entries entries)

-- `BTreeMap::insert` on the map as a list in key order.
pub insert_match : TimelineEntry → List TimelineEntry → List TimelineEntry
insert_match e [] = e ∷ []
insert_match e (x ∷ matches) =
    let rest = insert_match e matches in
    elim (bytes_cmp e.snapshot_id x.snapshot_id) [
      | Ordering.lt ↦ e ∷ x ∷ matches
      | Ordering.eq ↦ e ∷ matches
      | Ordering.gt ↦ x ∷ rest
    ]

pub all_hex : Bytes → Bool
all_hex [] = true
all_hex (c ∷ text) = elim (decode_hex_digit c) [ none ↦ false | some _ ↦ all_hex text ]

pub starts_with : Bytes → Bytes → Bool
starts_with text prefix = elim (strip_prefix prefix text) [ none ↦ false | some _ ↦ true ]

pub has_message : Snapshot → Bytes → Bool
has_message s target = elim s.message [ none ↦ false | some message ↦ bytes_eq message target ]

-- The two tests on an entry.
pub match_entry : Bytes → Bool → TimelineEntry → List TimelineEntry → List TimelineEntry
match_entry target is_prefix e matches =
    let first =
      if is_prefix && starts_with (to_hex e.snapshot_id) target
      then insert_match e matches
      else matches in
    if has_message e.snapshot target then insert_match e first else first

pub match_entries : Bytes → Bool → List TimelineEntry → List TimelineEntry → List TimelineEntry
match_entries target is_prefix [] matches = matches
match_entries target is_prefix (e ∷ entries) matches =
    match_entries target is_prefix entries (match_entry target is_prefix e matches)

pub only_match : Bytes → List TimelineEntry → Result RepositoryError TimelineEntry
only_match target [] = err (snapshot_target_not_found target)
only_match target (e ∷ []) = ok e
only_match target (e ∷ f ∷ matches) = err (
    snapshot_target_ambiguous target (map (λ (x : TimelineEntry). x.snapshot_id) (e ∷ f ∷ matches)))

module _ (hash : Bytes → ObjectId) (metadata_dir : PathBuf) (cursor : RepositoryCursor)
    (list_snapshot_ids list_snapshot_index_ids : Disk
      → Result RepositoryError (List ObjectId)) where
  pub write_index_entries : List ObjectId → Disk → Disk
  write_index_entries [] disk = disk
  write_index_entries (id ∷ ids) disk =
      write_index_entries ids (write_snapshot_index_entry metadata_dir disk id)

  pub ensure_snapshot_index_complete : Action (Unit {0})
  ensure_snapshot_index_complete =
      reads (snapshot_index_complete_exists metadata_dir) >>! λ complete.
      if complete
      then reads (λ _. ok tt)
      else reads list_snapshot_ids >>! λ ids. writes (write_index_entries ids) >>! λ _.
          writes (mark_snapshot_index_complete metadata_dir)

  pub load_entries : List ObjectId → Disk → Result RepositoryError (List TimelineEntry)
  load_entries [] disk = ok []
  load_entries (id ∷ ids) disk = read_snapshot hash metadata_dir cursor id disk >>= λ s.
      load_entries ids disk >>= λ rest. ok (record { snapshot_id = id; snapshot = s } ∷ rest)

  pub all_snapshot_entries : Action (List TimelineEntry)
  all_snapshot_entries = ensure_snapshot_index_complete >>! λ _.
      reads list_snapshot_index_ids >>! λ ids.
      reads (load_entries ids) >>! λ entries. reads (λ _. ok (sort_entries entries))

  pub search_entries : Bytes → Action TimelineEntry
  search_entries target = all_snapshot_entries >>! λ entries. reads (λ _.
      only_match target
        (match_entries target (not (bytes_eq target []) && all_hex target) entries []))

  -- An entry for an identifier that a ref or the text gives.
  pub resolve_id : ObjectId → Disk → Result RepositoryError TimelineEntry
  resolve_id id disk = read_snapshot hash metadata_dir cursor id disk >>= λ s.
      ok (record { snapshot_id = id; snapshot = s })

  -- The refs that the text may name; `none` goes on to the next way.
  pub resolve_full_id : Bytes → Disk → Result RepositoryError (Option TimelineEntry)
  resolve_full_id target disk = elim (from_hex target) [
    | err _ ↦ ok none
    | ok id ↦
        map_err object_store (contains hash (objects_dir metadata_dir) disk snapshot id)
        >>= λ present. if present then resolve_id id disk >>= (λ e. ok (some e)) else ok none
  ]

  pub resolve_branch : Bytes → Disk → Result RepositoryError (Option TimelineEntry)
  resolve_branch target disk = elim (new_branch_name target) [
    | err _ ↦ ok none
    | ok branch ↦ branch_ref_exists metadata_dir disk branch >>= λ there.
        if there
        then read_branch_ref metadata_dir disk branch
          >>= (λ id. resolve_id id disk >>= λ e. ok (some e))
        else ok none
  ]

  pub resolve_workspace : Bytes → Disk → Result RepositoryError (Option TimelineEntry)
  resolve_workspace target disk = elim (new_workspace_id target) [
    | err _ ↦ ok none
    | ok workspace ↦ workspace_ref_exists metadata_dir disk workspace >>= λ there.
        if there
        then read_workspace_ref metadata_dir disk workspace
          >>= (λ id. resolve_id id disk >>= λ e. ok (some e))
        else ok none
  ]

  -- The first way that finds a snapshot.
  pub or_else : Option TimelineEntry → Action TimelineEntry → Action TimelineEntry
  or_else (some e) next = reads (λ _. ok e)
  or_else none next = next

  pub resolve_snapshot_target : Bytes → Action TimelineEntry
  resolve_snapshot_target target = reads (resolve_full_id target) >>! λ by_id. or_else by_id (
      reads (resolve_branch target) >>! λ by_branch. or_else by_branch (
        reads (resolve_workspace target) >>! λ by_workspace.
        or_else by_workspace (search_entries target)))

  module _ (materializer : Materializer) (now : Option ℕ) where
    unfoldable pub restore : Bytes → Action RestoreResult
    restore target = resolve_snapshot_target target >>! λ resolved.
        materializer.capture_tree_with_hints [] >>! λ capture.
        reads (current_cursor_reference hash metadata_dir cursor) >>! λ reference.
        reads (read_cursor_ref metadata_dir reference) >>! λ parent.
        advance_if_changed hash metadata_dir cursor materializer now reference capture
          (automatic_snapshot_request cursor) parent
        >>! λ saved. materializer.materialize_tree resolved.snapshot.root_tree_id >>! λ _.
            writes (write_cursor_ref metadata_dir reference resolved.snapshot_id) >>! λ _.
            reads (λ _. ok (record {
              cursor = reference;
              snapshot_id = resolved.snapshot_id;
              snapshot = resolved.snapshot;
              saved_snapshot = saved;
            }))
