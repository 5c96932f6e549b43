-- ===== src/Repository/Snapshots/Stores.antt =====
-- Storing a snapshot and moving the cursor to it, in crates/repository/src/repository.rs.
use era.ObjectStore.Local.Stored.{get_snapshot-KeepsObjects}
use era.Base.{
  Bytes, length, Result, ok, err, Result-cases, map_err-eq-ok, ℕ, ◌<◌, ◌≡◌, refl, sym, ap, ◌∙◌,
  subst, inl, inr, Option, List,
}
use era.Core.ObjectId.{ObjectId}
use era.Core.Snapshot.{Snapshot, to_canonical_bytes}
use era.Core.Snapshot.Writers.{IsSnapshot}
use era.Core.Snapshot.Readers.{slice_mod}
use era.ObjectStore.Disk.{PathBuf, Disk}
use era.ObjectStore.Local.{get_snapshot}
use era.ObjectStore.Local.Puts.{NoCollision}
use era.ObjectStore.Local.Objects.{get_snapshot-put_snapshot}
use era.Repository.Error.{RepositoryError, object_store}
use era.Repository.Refs.{objects_dir, write_snapshot_index_entry}
use era.Repository.Refs.Quiet.{
  Quiet, Quiet-refl, Quiet-trans, write_snapshot_index_entry-Quiet, put_snapshot-Quiet,
}
use era.Repository.Snapshots.{
  RepositoryCursor, CaptureResult, SnapshotRequest, SnapshotResult, resolve_timestamp, made, Action,
  ◌>>!◌, reads, writes, store_object, store_snapshot,
}

-- What the disk is after two actions: that of the first when it fails.
pub after-bind :
    {A B : Type 0} (P : Disk → Type 0) (m : Action A) (f : A → Action B) (disk : Disk)
    → P (m disk).1
    → ((a : A) → (m disk).0 ≡ ok a → P (f a (m disk).1).1)
    → P ((m >>! f) disk).1
unfolding ◌>>!◌
after-bind P m f disk p q = elim (Result-cases (m disk).0) [
  | inl (a, e) ↦ rw (e, ◌>>!◌) (q a e)
  | inr (x, e) ↦ rw (e, ◌>>!◌) p
]

-- Two actions that succeed.
pub bind-ok :
    {A B : Type 0} (m : Action A) (f : A → Action B) (disk : Disk) (b : B)
    → ((m >>! f) disk).0 ≡ ok b
    → (a : A) × ((m disk).0 ≡ ok a)
      × ((m >>! f) disk ≡ f a (m disk).1)
      × ((f a (m disk).1).0 ≡ ok b)
unfolding ◌>>!◌
bind-ok {B = B} m f disk b h = elim (Result-cases (m disk).0) [
  | inl (a, e) ↦ (a, e, rw (e, ◌>>!◌) refl, rw (e, ◌>>!◌) at h)
  | inr (x, e) ↦ absurd (refused (rw (e, ◌>>!◌) at h))
]
  where
    refused : {x : RepositoryError} → ◌≡◌ {A = Result RepositoryError B} (err x) (ok b) → ⊥
    refused h = cc

-- A snapshot that can be written and read back: well formed, of a size that fits, and with bytes that
-- no others hash as.
pub record Storable (hash : Bytes → ObjectId) (s : Snapshot) : Type 0 where
  pub valid : IsSnapshot s
  pub fits : length (to_canonical_bytes s) < slice_mod
  pub unique : NoCollision hash (to_canonical_bytes s)

module _ (hash : Bytes → ObjectId) (m : PathBuf) (cursor : RepositoryCursor) where
  store_object-Quiet :
      (s : Snapshot) (disk : Disk) → Quiet m disk (store_object hash m cursor s disk).1
  unfolding store_object
  store_object-Quiet s disk = put_snapshot-Quiet hash m disk s

  store_object-ok :
      (s : Snapshot) (disk : Disk) (id : ObjectId)
      → Storable hash s
      → (store_object hash m cursor s disk).0 ≡ ok id
      → (id ≡ hash (to_canonical_bytes s))
        × (get_snapshot hash (objects_dir m) (store_object hash m cursor s disk).1 id ≡ ok s)
  unfolding store_object
  store_object-ok s disk id w h =
      get_snapshot-put_snapshot hash (objects_dir m) disk s id w.valid w.fits w.unique
        (map_err-eq-ok object_store _ h)

  pub store_snapshot-Quiet :
      (now : Option ℕ) (capture : CaptureResult) (request : SnapshotRequest)
      (parents : List ObjectId) (disk : Disk)
      → Quiet m disk (store_snapshot hash m cursor now capture request parents disk).1
  unfolding store_snapshot reads writes ◌>>!◌
  store_snapshot-Quiet now capture request parents disk =
      after-bind (Quiet m disk) (reads (λ _. resolve_timestamp now request))
        (λ t. store_object hash m cursor (made capture request parents t) >>! index t) disk
        (Quiet-refl m disk)
        (λ t _.
          after-bind (Quiet m disk) (store_object hash m cursor (made capture request parents t))
            (index t) disk (store_object-Quiet (made capture request parents t) disk)
            (λ id _.
              Quiet-trans m (store_object-Quiet (made capture request parents t) disk)
                (write_snapshot_index_entry-Quiet m _ id)))
    where
      index : ℕ → ObjectId → Action SnapshotResult
      index t id = writes (λ disk. write_snapshot_index_entry m disk id) >>! λ _. reads (λ _.
          ok (record {
            snapshot_id = id;
            snapshot = made capture request parents t;
            capture = capture;
          }))

  -- What `store_snapshot` has done when it succeeds.
  pub record SnapshotStored (now : Option ℕ) (capture : CaptureResult) (request : SnapshotRequest)
      (parents : List ObjectId) (after : Disk) (r : SnapshotResult) : Type 0 where
    pub timestamp : ℕ
    pub timestamp_ok : resolve_timestamp now request ≡ ok timestamp
    pub snapshot_made : r.snapshot ≡ made capture request parents timestamp
    pub stored : get_snapshot hash (objects_dir m) after r.snapshot_id ≡ ok r.snapshot
    pub id_hash : r.snapshot_id ≡ hash (to_canonical_bytes r.snapshot)

  pub store_snapshot-ok :
      (now : Option ℕ) (capture : CaptureResult) (request : SnapshotRequest)
      (parents : List ObjectId) (disk : Disk) (r : SnapshotResult)
      → ((t : ℕ)
          → resolve_timestamp now request ≡ ok t
          → Storable hash (made capture request parents t))
      → (store_snapshot hash m cursor now capture request parents disk).0 ≡ ok r
      → SnapshotStored now capture request parents
          (store_snapshot hash m cursor now capture request parents disk).1
          r
  unfolding store_snapshot reads writes ◌>>!◌
  store_snapshot-ok now capture request parents disk r w h =
      let (t, e1, s1, h1) =
        bind-ok (reads (λ _. resolve_timestamp now request))
          (λ t. store_object hash m cursor (made capture request parents t) >>! index t) disk r h in
      let (id, e2, s2, h2) =
        bind-ok (store_object hash m cursor (made capture request parents t)) (index t) disk r h1 in
      let (same_id, found) = store_object-ok (made capture request parents t) disk id (w t e1) e2 in
      let after = (store_object hash m cursor (made capture request parents t) disk).1 in
      let here =
        get_snapshot-KeepsObjects hash (objects_dir m) after (write_snapshot_index_entry m after id)
          id (made capture request parents t) (write_snapshot_index_entry-Quiet m after id).objects
          found in
      let done : record {
        snapshot_id = id;
        snapshot = made capture request parents t;
        capture = capture;
      }
          ≡ r =
        accepted h2 in
      subst (λ (d : Disk). SnapshotStored now capture request parents d r)
        (sym (ap (λ (x : Result RepositoryError SnapshotResult × Disk). x.1) (s1 ∙ s2)))
        (subst
          (λ (x : SnapshotResult).
            SnapshotStored now capture request parents (write_snapshot_index_entry m after id) x)
          done
          (record {
            timestamp = t;
            timestamp_ok = e1;
            snapshot_made = refl;
            stored = here;
            id_hash = same_id;
          }))
    where
      index : ℕ → ObjectId → Action SnapshotResult
      index t id = writes (λ disk. write_snapshot_index_entry m disk id) >>! λ _. reads (λ _.
          ok (record {
            snapshot_id = id;
            snapshot = made capture request parents t;
            capture = capture;
          }))

      accepted :
          {x y : SnapshotResult}
          → ◌≡◌ {A = Result RepositoryError SnapshotResult} (ok x) (ok y)
          → x ≡ y
      accepted h = cc
