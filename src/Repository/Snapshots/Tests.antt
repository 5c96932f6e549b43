-- ===== src/Repository/Snapshots/Tests.antt =====
-- The theorems on crates/repository/src/repository.rs at a small repository.
use era.ObjectStore.Disk.{Disk}
use era.ObjectStore.Local.Objects.{get_snapshot-hash}
use era.Repository.Error.{RepositoryError, clock_before_unix_epoch, object_store}
use era.Repository.Refs.{objects_dir}
use era.Repository.Snapshots.Cursors.{Points, HasRefs, read_cursor_ref_same_refs}
use era.Repository.Restore.Keeps.{IsListing}
use era.Repository.Timeline.{seen_before, timeline}
use era.Repository.Timeline.Ends.{IsOutcome, timeline_lem}
use era.Repository.Restore.{TimelineEntry}
use era.Repository.Runs.{
  Listing, no_more, snapshot_taken, branch_created, branch_switched, Operated-IsRepository,
}
use era.Repository.Snapshots.Advances.{Advanced, snapshot_now_lem, snapshot_if_changed_lem}
use era.Base.{
  Bool-cases, Bytes, All, Result, ok, err, map_err-eq-ok, ℕ, ◌≡◌, refl, sym, ap, ◌∙◌, subst, inl,
  inr, true, none, some, List, [], ◌∷◌,
}
use era.Base.ByteOrder.{bytes_eq}
use era.Core.ObjectId.{ObjectId, IsObjectId}
use era.Core.Snapshot.{Snapshot, to_canonical_bytes}
use era.Repository.Snapshots.{
  CursorReference, workspace_cursor, CaptureResult, SnapshotResult, resolve_timestamp, made, ◌>>!◌,
  reads, read_cursor_ref, current_cursor_reference, current_snapshot_id, read_snapshot, automatic,
  automatic_snapshot_request, create_branch, switch_branch, snapshot_now,
  snapshot_if_changed_with_hints,
}
use era.Repository.Snapshots.Stores.{Storable}
use era.Repository.Snapshots.Moves.{Fresh}
use era.Repository.Snapshots.Branches.{SwitchLeaves}
use era.Repository.Snapshots.Samples.{
  repeat, first, request, captured, second, hash, second-Storable,
}
use era.Repository.Snapshots.Small.{
  era_dir, dev, first_id, small, cursor, fixed, capture-Quiet, write-Quiet, hash-IsHash,
  small-HasRefs, small_ref, small-first, first_id_ones, still_absent,
}

snapshot_now_lem_example :
    (let run = snapshot_now hash era_dir cursor fixed none request small in
      let r : SnapshotResult = record {
        snapshot_id = hash (to_canonical_bytes second);
        snapshot = second;
        capture = captured;
      } in
      (run.0 ≡ ok r) × Advanced hash era_dir cursor (workspace_cursor dev) r small run.1)
unfolding current_cursor_reference resolve_timestamp
snapshot_now_lem_example =
    snapshot_now_lem hash era_dir cursor fixed none request small captured (workspace_cursor dev)
      (repeat 32 1) 7 hash-IsHash (capture-Quiet small) refl refl
      (small_ref ∙ ap (λ (i : ObjectId). ok i) first_id_ones) refl second-Storable still_absent

snapshot_if_changed_lem_example :
    snapshot_if_changed_with_hints hash era_dir cursor fixed none [] request small
    ≡ (snapshot_now hash era_dir cursor fixed none request >>! λ r. reads (λ _. ok (some r))) small
unfolding current_cursor_reference bytes_eq
snapshot_if_changed_lem_example =
    snapshot_if_changed_lem hash era_dir cursor fixed none request small captured
      (workspace_cursor dev) first_id first (capture-Quiet small) refl refl small_ref small-first

small-Fresh : Fresh hash era_dir cursor fixed none [] request small
unfolding current_cursor_reference resolve_timestamp
small-Fresh = record {
  capture_quiet = capture-Quiet small;
  storable = λ capture reference parent t e1 e2 e3 e4.
      go capture parent t (same_capture capture e1)
        (same_parent parent (
          sym (
            read_cursor_ref_same_refs era_dir small _ (workspace_cursor dev)
              (capture-Quiet small).refs
            ∙ small_ref
            ∙ ap (λ (i : ObjectId). ok i) first_id_ones)
          ∙ ap
              (λ (r : CursorReference).
                read_cursor_ref era_dir r (fixed.capture_tree_with_hints [] small).1)
              (same_cursor reference e2)
          ∙ e3))
        (same_time t e4);
}
  where
    same_capture :
        (capture : CaptureResult)
        → ◌≡◌ {A = Result RepositoryError CaptureResult} (ok captured) (ok capture)
        → captured ≡ capture
    same_capture capture e = cc

    same_cursor :
        (reference : CursorReference)
        → ◌≡◌ {A = Result RepositoryError CursorReference}
            (ok (workspace_cursor dev))
            (ok reference)
        → workspace_cursor dev ≡ reference
    same_cursor reference e = cc

    same_parent :
        (parent : ObjectId)
        → ◌≡◌ {A = Result RepositoryError ObjectId} (ok (repeat 32 1)) (ok parent)
        → repeat 32 1 ≡ parent
    same_parent parent e = cc

    same_time : (t : ℕ) → ◌≡◌ {A = Result RepositoryError ℕ} (ok 7) (ok t) → 7 ≡ t
    same_time t e = cc

    go :
        (capture : CaptureResult) (parent : ObjectId) (t : ℕ)
        → captured ≡ capture
        → repeat 32 1 ≡ parent
        → 7 ≡ t
        → Storable hash (made capture request (parent ∷ []) t)
    go capture parent t c p n =
        subst (λ (x : CaptureResult). Storable hash (made x request (parent ∷ []) t)) c
          (subst (λ (x : ObjectId). Storable hash (made captured request (x ∷ []) t)) p
            (subst (λ (x : ℕ). Storable hash (made captured request (repeat 32 1 ∷ []) x)) n
              second-Storable))

abbrev no_ids : Listing
no_ids _ = ok []

no_ids-IsListing : IsListing no_ids
no_ids-IsListing disk ids h = subst (All IsObjectId) (same h) tt
  where
    same : ◌≡◌ {A = Result RepositoryError (List ObjectId)} (ok []) (ok ids) → [] ≡ ids
    same h = cc

-- Before 1970 there is no automatic snapshot to store.
stopped-Fresh :
    (disk : Disk) → Fresh hash era_dir cursor fixed none [] (automatic_snapshot_request cursor) disk
unfolding resolve_timestamp automatic_snapshot_request automatic
stopped-Fresh disk = record {
  capture_quiet = capture-Quiet disk;
  storable = λ capture reference parent t e1 e2 e3 e4. absurd (refused e4);
}
  where
    refused : {t : ℕ} → ◌≡◌ {A = Result RepositoryError ℕ} (err clock_before_unix_epoch) (ok t) → ⊥
    refused h = cc

dev-SwitchLeaves : (disk : Disk) → SwitchLeaves hash era_dir cursor fixed none dev disk
unfolding SwitchLeaves
dev-SwitchLeaves disk id s h k = write-Quiet _ s.root_tree_id

abbrev taken : Disk
taken = (snapshot_now hash era_dir cursor fixed none request small).1

abbrev branched : Disk
branched = (create_branch hash era_dir cursor fixed none dev taken).1

abbrev switched : Disk
switched = (switch_branch hash era_dir cursor fixed none dev branched).1

-- A snapshot, a branch, and a switch to it.
Operated-IsRepository_example :
    HasRefs hash era_dir switched
    × ((reference : CursorReference)
        → Points hash era_dir reference small
        → Points hash era_dir reference switched)
Operated-IsRepository_example =
    Operated-IsRepository hash era_dir fixed no_ids no_ids hash-IsHash no_ids-IsListing
      (snapshot_taken cursor none request small-Fresh (
        branch_created cursor none dev (stopped-Fresh taken) (
          branch_switched cursor none dev (dev-SwitchLeaves branched) (stopped-Fresh branched)
            no_more)))
      small-HasRefs

abbrev all_ids : List ObjectId
all_ids = repeat 32 0 ∷ repeat 32 1 ∷ repeat 32 2 ∷ []

hash-all_ids : (bytes : Bytes) → seen_before (hash bytes) all_ids ≡ true
unfolding seen_before bytes_eq
hash-all_ids bytes = elim (Bool-cases (bytes_eq bytes (to_canonical_bytes first))) [
  | inl e ↦ rw (e) refl
  | inr e ↦ elim (Bool-cases (bytes_eq bytes (to_canonical_bytes second))) [
    | inl f ↦ rw (e, f) refl
    | inr f ↦ rw (e, f) refl
  ]
]

small_readable :
    (id : ObjectId) (s : Snapshot)
    → read_snapshot hash era_dir cursor id small ≡ ok s
    → seen_before id all_ids ≡ true
unfolding read_snapshot
small_readable id s h =
    let (bytes, e) =
      get_snapshot-hash hash (objects_dir era_dir) small id s (map_err-eq-ok object_store _ h) in
    subst (λ (i : ObjectId). seen_before i all_ids ≡ true) e (hash-all_ids bytes)

small_current : current_snapshot_id hash era_dir cursor small ≡ ok first_id
unfolding current_snapshot_id current_cursor_reference
small_current = small_ref

timeline_lem_example :
    (r : Result RepositoryError (List TimelineEntry)) × (timeline hash era_dir cursor 4 small
      ≡ some r)
    × IsOutcome hash era_dir cursor small first_id [] r
timeline_lem_example =
    timeline_lem hash era_dir cursor small all_ids first_id small_readable small_current
