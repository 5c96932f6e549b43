-- ===== src/ObjectStore/Local/Objects.antt =====
-- Trees and snapshots in crates/object-store/src/local.rs: storing them and reading them again.
use era.Base.{
  Bool-cases, Bytes, length, Result, ok, err, ◌>>=◌, bind-eq-ok, ◌>>?◌, ◌<◌, ◌≡◌, refl, sym, ap,
  ◌∙◌, subst, inl, inr, Option, some,
}
use era.Base.ByteOrder.{bytes_eq, bytes_eq_iff}
use era.Core.ObjectId.{ObjectId}
use era.Core.Tree.{Tree, to_canonical_bytes as tree_to_canonical_bytes}
use era.Core.Snapshot.{Snapshot, to_canonical_bytes as snapshot_to_canonical_bytes}
use era.Base.Slice.{usize_mod}
use era.Core.Tree.Writers.{IsTree}
use era.Core.Tree.Canonical.{Tree-round_trip}
use era.Core.Snapshot.Readers.{slice_mod}
use era.Core.Snapshot.Writers.{IsSnapshot}
use era.Core.Snapshot.Canonical.{Snapshot-round_trip}
use era.ObjectStore.Disk.{PathBuf, Disk, set_file, set_file_self}
use era.ObjectStore.Local.{
  ObjectKind, blob, tree, snapshot, ObjectStoreError, BlobRead, object_path, read_object_file,
  read_blob_data_at, read_blob_data, get_blob, read_hashed, get_object_bytes, get_tree,
  get_snapshot, verify_object_file, put_object, put_tree, put_snapshot,
}
use era.ObjectStore.Local.Blobs.{
  read_object_file-ok, ok-read_object_file, KeepsObjects, read_blob_data_at-hash,
  read_blob_data_at-KeepsObjects,
}
use era.ObjectStore.Local.Puts.{NoCollision, Put, present, written, put_object-Put}

module _ (hash : Bytes → ObjectId) (root : PathBuf) where
  pub read_hashed-ok :
      (disk : Disk) (kind : ObjectKind) (id : ObjectId) (bytes : Bytes)
      → read_hashed hash root disk kind id ≡ ok bytes
      → (disk (object_path root kind id) ≡ ok bytes) × (hash bytes ≡ id)
  unfolding read_hashed
  read_hashed-ok disk kind id bytes h =
      let path = object_path root kind id in
      let (stored, e1, h1) = bind-eq-ok (read_object_file disk kind path id) _ h in
      let file = read_object_file-ok disk kind path id stored e1 in
      elim (Bool-cases (bytes_eq (hash stored) id)) [
        | inr other ↦ absurd (refused (rw other at h1))
        | inl good ↦
            let e : stored ≡ bytes = accepted (rw good at h1) in
            (file ∙ ap (λ (b : Bytes). ok b) e, ap hash (sym e) ∙ (bytes_eq_iff _ _).0 good)
      ]
    where
      refused :
          {x : ObjectStoreError} → ◌≡◌ {A = Result ObjectStoreError Bytes} (err x) (ok bytes) → ⊥
      refused h = cc

      accepted : {x y : Bytes} → ◌≡◌ {A = Result ObjectStoreError Bytes} (ok x) (ok y) → x ≡ y
      accepted h = cc

  pub ok-read_hashed :
      (disk : Disk) (kind : ObjectKind) (id : ObjectId) (bytes : Bytes)
      → disk (object_path root kind id) ≡ ok bytes
      → hash bytes ≡ id
      → read_hashed hash root disk kind id ≡ ok bytes
  unfolding read_hashed
  ok-read_hashed disk kind id bytes file good =
      rw
        (
          ok-read_object_file disk kind (object_path root kind id) id bytes file,
          ◌>>=◌,
          (bytes_eq_iff _ _).1 good,
        )
        refl

  read_hashed-KeepsObjects :
      (disk larger : Disk) (kind : ObjectKind) (id : ObjectId) (bytes : Bytes)
      → KeepsObjects root disk larger
      → read_hashed hash root disk kind id ≡ ok bytes
      → read_hashed hash root larger kind id ≡ ok bytes
  read_hashed-KeepsObjects disk larger kind id bytes x h =
      let (file, good) = read_hashed-ok disk kind id bytes h in
      ok-read_hashed larger kind id bytes (x kind id bytes file) good

  pub get_blob-read :
      (disk : Disk) (id : ObjectId) (bytes : Bytes)
      → get_blob hash root disk id ≡ ok bytes
      → (r : BlobRead) × (read_blob_data_at hash root disk 17 id ≡ ok r) × (r.bytes ≡ bytes)
  unfolding get_blob read_blob_data
  get_blob-read disk id bytes h =
      let (r, e, h1) = bind-eq-ok (read_blob_data hash root disk id) _ h in (r, e, accepted h1)
    where
      accepted : {x y : Bytes} → ◌≡◌ {A = Result ObjectStoreError Bytes} (ok x) (ok y) → x ≡ y
      accepted h = cc

  pub get_object_bytes-KeepsObjects :
      (disk larger : Disk) (kind : ObjectKind) (id : ObjectId) (bytes : Bytes)
      → KeepsObjects root disk larger
      → get_object_bytes hash root disk kind id ≡ ok bytes
      → get_object_bytes hash root larger kind id ≡ ok bytes
  unfolding get_object_bytes get_blob read_blob_data
  get_object_bytes-KeepsObjects disk larger blob id bytes x h =
      let (r, e, same) = get_blob-read disk id bytes h in
      rw
        (
          read_blob_data_at-KeepsObjects hash root disk larger 17 id r x e,
          get_blob,
          read_blob_data,
          ◌>>=◌,
        )
        (ap (λ (b : Bytes). ok b) same)
  get_object_bytes-KeepsObjects disk larger tree id bytes x h =
      read_hashed-KeepsObjects disk larger tree id bytes x h
  get_object_bytes-KeepsObjects disk larger snapshot id bytes x h =
      read_hashed-KeepsObjects disk larger snapshot id bytes x h

  -- What is read hashes to the identifier it was asked for under.
  pub get_object_bytes-hash :
      (disk : Disk) (kind : ObjectKind) (id : ObjectId) (bytes : Bytes)
      → get_object_bytes hash root disk kind id ≡ ok bytes
      → hash bytes ≡ id
  unfolding get_object_bytes
  get_object_bytes-hash disk blob id bytes h =
      let (r, e, same) = get_blob-read disk id bytes h in
      let (good, _) = read_blob_data_at-hash hash root disk 17 id r e in ap hash (sym same) ∙ good
  get_object_bytes-hash disk tree id bytes h =
      let (_, good) = read_hashed-ok disk tree id bytes h in good
  get_object_bytes-hash disk snapshot id bytes h =
      let (_, good) = read_hashed-ok disk snapshot id bytes h in good

  verify_object_file-bytes :
      (disk : Disk) (kind : ObjectKind) (id : ObjectId)
      → verify_object_file hash root disk kind id ≡ ok tt
      → (bytes : Bytes) × (get_object_bytes hash root disk kind id ≡ ok bytes)
  unfolding verify_object_file get_object_bytes get_blob read_blob_data
  verify_object_file-bytes disk blob id h =
      let (r, e, _) = bind-eq-ok (read_blob_data_at hash root disk 17 id) _ h in
      (r.bytes, rw (e, get_blob, read_blob_data, ◌>>=◌) refl)
  verify_object_file-bytes disk tree id h =
      let (b, e, _) = bind-eq-ok (read_hashed hash root disk tree id) _ h in (b, e)
  verify_object_file-bytes disk snapshot id h =
      let (b, e, _) = bind-eq-ok (read_hashed hash root disk snapshot id) _ h in (b, e)

  -- What storing these bytes under their hash leaves there.
  put_object-get_object_bytes :
      (disk : Disk) (kind : ObjectKind) (id : ObjectId) (bytes : Bytes)
      → (kind ≡ blob → ⊥)
      → NoCollision hash bytes
      → (put_object hash root disk kind (hash bytes) bytes).0 ≡ ok id
      → (id ≡ hash bytes)
        × (get_object_bytes hash root
              (put_object hash root disk kind (hash bytes) bytes).1
              kind
              (hash bytes)
            ≡ ok bytes)
  unfolding get_object_bytes
  put_object-get_object_bytes disk kind id bytes other unique h =
      let (same_id, put) = put_object-Put hash root disk kind (hash bytes) id bytes h in
      (same_id, held kind other put)
    where
      held :
          {after : Disk} (k : ObjectKind)
          → (k ≡ blob → ⊥)
          → Put hash root disk k (hash bytes) bytes after
          → get_object_bytes hash root after k (hash bytes) ≡ ok bytes
      held k n (present e good) =
          let (b, e1) = verify_object_file-bytes disk k (hash bytes) good in
          subst (λ (d : Disk). get_object_bytes hash root d k (hash bytes) ≡ ok bytes) (sym e)
            (e1
              ∙ ap (λ (x : Bytes). ok x)
                  (unique b (get_object_bytes-hash disk k (hash bytes) b e1)))
      held blob n (written absent e) = absurd (n refl)
      held tree n (written absent e) =
          subst (λ (d : Disk). get_object_bytes hash root d tree (hash bytes) ≡ ok bytes) (sym e)
            (ok-read_hashed (set_file disk (object_path root tree (hash bytes)) bytes) tree
              (hash bytes) bytes (set_file_self disk (object_path root tree (hash bytes)) bytes)
              refl)
      held snapshot n (written absent e) =
          subst (λ (d : Disk). get_object_bytes hash root d snapshot (hash bytes) ≡ ok bytes)
            (sym e)
            (ok-read_hashed (set_file disk (object_path root snapshot (hash bytes)) bytes) snapshot
              (hash bytes) bytes (set_file_self disk (object_path root snapshot (hash bytes)) bytes)
              refl)

  pub get_tree-put_tree :
      (disk : Disk) (t : Tree) (bytes : Bytes) (id : ObjectId)
      (put : Result ObjectStoreError ObjectId × Disk)
      → IsTree t
      → tree_to_canonical_bytes t ≡ some bytes
      → length bytes < usize_mod
      → NoCollision hash bytes
      → put_tree hash root disk t ≡ some put
      → put.0 ≡ ok id
      → (id ≡ hash bytes) × (get_tree hash root put.1 id ≡ ok t)
  unfolding put_tree get_tree
  get_tree-put_tree disk t bytes id put v e fits unique h good =
      let stored = put_object hash root disk tree (hash bytes) bytes in
      let same : stored ≡ put = done (rw (e, put_tree, ◌>>?◌) at h) in
      let (same_id, held) =
        put_object-get_object_bytes disk tree id bytes (λ x. cc) unique
          (ap (λ (x : Result ObjectStoreError ObjectId × Disk). x.0) same ∙ good) in
      (
        same_id,
        subst (λ (x : Result ObjectStoreError ObjectId × Disk). get_tree hash root x.1 id ≡ ok t)
            same
            (subst (λ (i : ObjectId). get_tree hash root stored.1 i ≡ ok t) (sym same_id)
              (rw (held, get_tree, ◌>>=◌, Tree-round_trip t bytes v e fits) refl)),
      )
    where
      done :
          {x y : Result ObjectStoreError ObjectId × Disk}
          → ◌≡◌ {A = Option (Result ObjectStoreError ObjectId × Disk)} (some x) (some y)
          → x ≡ y
      done h = cc

  pub get_snapshot-put_snapshot :
      (disk : Disk) (s : Snapshot) (id : ObjectId)
      → IsSnapshot s
      → length (snapshot_to_canonical_bytes s) < slice_mod
      → NoCollision hash (snapshot_to_canonical_bytes s)
      → (put_snapshot hash root disk s).0 ≡ ok id
      → (id ≡ hash (snapshot_to_canonical_bytes s))
        × (get_snapshot hash root (put_snapshot hash root disk s).1 id ≡ ok s)
  unfolding put_snapshot get_snapshot
  get_snapshot-put_snapshot disk s id v fits unique good =
      let bytes = snapshot_to_canonical_bytes s in
      let stored = put_object hash root disk snapshot (hash bytes) bytes in
      let (same_id, held) =
        put_object-get_object_bytes disk snapshot id bytes (λ x. cc) unique good in
      (
        same_id,
        subst (λ (i : ObjectId). get_snapshot hash root stored.1 i ≡ ok s) (sym same_id)
            (rw (held, get_snapshot, ◌>>=◌, Snapshot-round_trip s v fits) refl),
      )

  pub get_snapshot-hash :
      (disk : Disk) (id : ObjectId) (s : Snapshot)
      → get_snapshot hash root disk id ≡ ok s
      → (bytes : Bytes) × (hash bytes ≡ id)
  unfolding get_snapshot
  get_snapshot-hash disk id s h =
      let (bytes, e, _) = bind-eq-ok (get_object_bytes hash root disk snapshot id) _ h in
      (bytes, get_object_bytes-hash disk snapshot id bytes e)
