-- ===== src/Repository/Timeline.antt =====
-- crates/repository/src/repository.rs: the first-parent timeline of a handle. The loop runs on fuel,
-- and `none` is what it gives without any left.
pub mod Ends
use era.Base.{
  Bytes, Result, ok, err, ℕ, zero, suc, Bool, true, false, ◌||◌, Option, none, some, List, [], ◌∷◌,
}
use era.Base.ByteOrder.{bytes_eq}
use era.Core.ObjectId.{ObjectId}
use era.Core.Snapshot.{snapshot_id}
use era.ObjectStore.Disk.{PathBuf, Disk}
use era.Repository.Error.{RepositoryError, snapshot_cycle}
use era.Repository.Snapshots.{RepositoryCursor, current_snapshot_id, read_snapshot}
use era.Repository.Restore.{TimelineEntry}

-- `HashSet::contains`
unfoldable pub seen_before : ObjectId → List ObjectId → Bool
seen_before id [] = false
seen_before id (x ∷ seen) = bytes_eq id x || seen_before id seen

pub push_entry :
    TimelineEntry
    → Option (Result RepositoryError (List TimelineEntry))
    → Option (Result RepositoryError (List TimelineEntry))
push_entry e none = none
push_entry e (some (ok entries)) = some (ok (e ∷ entries))
push_entry e (some (err x)) = some (err x)

module _ (hash : Bytes → ObjectId) (metadata_dir : PathBuf) (cursor : RepositoryCursor) where
  pub timeline_loop :
      ℕ → ObjectId → List ObjectId → Disk → Option (Result RepositoryError (List TimelineEntry))
  timeline_loop zero current seen disk = none
  timeline_loop (suc fuel) current seen disk = elim (seen_before current seen) [
    | true ↦ some (err (snapshot_cycle current))
    | false ↦ elim (read_snapshot hash metadata_dir cursor current disk) [
      | err e ↦ some (err e)
      | ok s ↦ elim (s.parents) [
        | [] ↦ some (ok (record { snapshot_id = current; snapshot = s } ∷ []))
        | parent ∷ _ ↦
            push_entry (record { snapshot_id = current; snapshot = s })
              (timeline_loop fuel parent (current ∷ seen) disk)
      ]
    ]
  ]

  pub timeline : ℕ → Disk → Option (Result RepositoryError (List TimelineEntry))
  timeline fuel disk = elim (current_snapshot_id hash metadata_dir cursor disk) [
    | err e ↦ some (err e)
    | ok current ↦ timeline_loop fuel current [] disk
  ]
