-- ===== src/ObjectStore/Local/Puts.antt =====
-- Storing blobs in crates/object-store/src/local.rs, and reading them again.
use era.Base.ByteOrder.{bytes_eq, bytes_eq_iff}
use era.Base.Endian.{IsByte}
use era.ObjectStore.BlobDelta.{min_delta_target_bytes, BlobDelta, create, encode}
use era.ObjectStore.Local.Blobs.{whole, Found-read_blob_data_at, read_blob_data_at-hash}
use era.ObjectStore.Local.Deltas.{IsDisk, create-read_blob_data}
use era.Base.{
  leb, Bool-cases, Option-cases, Bytes, length, All, Result, ok, ◌>>=◌, Result-cases, bind-eq-ok,
  ◌^◌, ◌<◌, ◌≡◌, refl, sym, ap, ◌∙◌, subst, inl, inr, true, false, not, ◌&&◌, Option, none, some,
}
use era.Core.ObjectId.{ObjectId, IsObjectId}
use era.ObjectStore.Disk.{
  PathBuf, Disk, try_exists, set_file, Extends, set_file-Extends, set_file_self, hard_link_absent,
  hard_link_present,
}
use era.ObjectStore.Local.{
  ObjectKind, blob, ObjectStoreError, BlobRead, object_path, read_blob_data_at, read_blob_data,
  get_blob, verify_object_file, delta_storage_bytes, is_missing, link_object, put_object,
  storage_bytes, put_blob_with_base,
}

-- No other bytes hash as these do.
abbrev pub NoCollision : (Bytes → ObjectId) → Bytes → Type 0
NoCollision hash bytes = (other : Bytes) → hash other ≡ hash bytes → other ≡ bytes

-- What `Option<&ObjectId>` guarantees.
abbrev pub IsBase : Option ObjectId → Type 0
IsBase none = Unit
IsBase (some id) = IsObjectId id

module _ (hash : Bytes → ObjectId) (root : PathBuf) (disk : Disk) where
  -- The ways in which `put_object` can succeed.
  pub data Put (kind : ObjectKind) (id : ObjectId) (bytes : Bytes) (after : Disk) : Type 0 where
    present :
        after ≡ disk → verify_object_file hash root disk kind id ≡ ok tt → Put kind id bytes after
    written :
        try_exists disk (object_path root kind id) ≡ false
        → after ≡ set_file disk (object_path root kind id) bytes
        → Put kind id bytes after

  verified :
      (kind : ObjectKind) (id id' : ObjectId)
      → (verify_object_file hash root disk kind id >>= λ _. ok id) ≡ ok id'
      → (id' ≡ id) × (verify_object_file hash root disk kind id ≡ ok tt)
  verified kind id id' h =
      let (_, e1, e2) = bind-eq-ok (verify_object_file hash root disk kind id) (λ _. ok id) h in
      (same e2, e1)
    where
      same : {x y : ObjectId} → ◌≡◌ {A = Result ObjectStoreError ObjectId} (ok x) (ok y) → y ≡ x
      same h = cc

  pub put_object_absent :
      (kind : ObjectKind) (id : ObjectId) (bytes : Bytes)
      → try_exists disk (object_path root kind id) ≡ false
      → put_object hash root disk kind id bytes
        ≡ (ok id, set_file disk (object_path root kind id) bytes)
  unfolding put_object link_object
  put_object_absent kind id bytes h =
      rw (h, put_object, hard_link_absent disk (object_path root kind id) bytes h)

  -- An object that is there is verified, and nothing is written.
  pub put_object_present :
      (kind : ObjectKind) (id : ObjectId) (bytes : Bytes)
      → try_exists disk (object_path root kind id) ≡ true
      → put_object hash root disk kind id bytes
        ≡ (verify_object_file hash root disk kind id >>= (λ _. ok id), disk)
  unfolding put_object link_object
  put_object_present kind id bytes h =
      elim (Bool-cases
        (not (is_missing hash root disk (verify_object_file hash root disk kind id)))) [
          | inl found ↦ rw (h, found, put_object)
          | inr missing ↦
              rw (h, missing, put_object, hard_link_present disk (object_path root kind id) bytes h)
        ]

  pub put_object-Put :
      (kind : ObjectKind) (id id' : ObjectId) (bytes : Bytes)
      → (put_object hash root disk kind id bytes).0 ≡ ok id'
      → (id' ≡ id) × Put kind id bytes (put_object hash root disk kind id bytes).1
  put_object-Put kind id id' bytes h =
      elim (Bool-cases (try_exists disk (object_path root kind id))) [
        | inr absent ↦
            let e = put_object_absent kind id bytes absent in
            (
              same (sym (ap (λ (x : Result ObjectStoreError ObjectId × Disk). x.0) e) ∙ h),
              written absent (ap (λ (x : Result ObjectStoreError ObjectId × Disk). x.1) e),
            )
        | inl there ↦
            let e = put_object_present kind id bytes there in
            let (same_id, good) =
              verified kind id id'
                (sym (ap (λ (x : Result ObjectStoreError ObjectId × Disk). x.0) e) ∙ h) in
            (same_id, present (ap (λ (x : Result ObjectStoreError ObjectId × Disk). x.1) e) good)
      ]
    where
      same : {x y : ObjectId} → ◌≡◌ {A = Result ObjectStoreError ObjectId} (ok x) (ok y) → y ≡ x
      same h = cc

  pub put_object-Extends :
      (kind : ObjectKind) (id : ObjectId) (bytes : Bytes)
      → Extends disk (put_object hash root disk kind id bytes).1
  put_object-Extends kind id bytes =
      elim (Bool-cases (try_exists disk (object_path root kind id))) [
        | inr absent ↦
            subst (Extends disk)
              (sym (
                ap (λ (x : Result ObjectStoreError ObjectId × Disk). x.1)
                  (put_object_absent kind id bytes absent)))
              (set_file-Extends disk (object_path root kind id) bytes absent)
        | inl there ↦
            subst (Extends disk)
              (sym (
                ap (λ (x : Result ObjectStoreError ObjectId × Disk). x.1)
                  (put_object_present kind id bytes there)))
              (λ p b e. e)
      ]

  -- What `get_blob` finds once it has been read.
  read-get_blob :
      (id : ObjectId) (r : BlobRead)
      → read_blob_data hash root disk id ≡ ok r
      → get_blob hash root disk id ≡ ok r.bytes
  unfolding get_blob
  read-get_blob id r h = rw (h, ◌>>=◌)

  read_blob_data-at :
      (id : ObjectId) (r : BlobRead)
      → read_blob_data_at hash root disk 17 id ≡ ok r
      → read_blob_data hash root disk id ≡ ok r
  unfolding read_blob_data
  read_blob_data-at id r h = h

  verify_object_file-read :
      (id : ObjectId)
      → verify_object_file hash root disk blob id ≡ ok tt
      → (r : BlobRead) × (read_blob_data_at hash root disk 17 id ≡ ok r)
  unfolding verify_object_file
  verify_object_file-read id h =
      let (r, e, _) = bind-eq-ok (read_blob_data_at hash root disk 17 id) (λ _. ok tt) h in (r, e)

  -- What is written for a blob: its bytes, or a delta on a base that can be read.
  data Storage (bytes : Bytes) (base : Option ObjectId) (storage : Bytes) : Type 0 where
    full : storage ≡ bytes → Storage bytes base storage
    delta :
        (base_id : ObjectId) (found : BlobRead) (d : BlobDelta)
        → base ≡ some base_id
        → read_blob_data hash root disk base_id ≡ ok found
        → create base_id found.bytes found.depth bytes ≡ some d
        → storage ≡ encode d
        → Storage bytes base storage

  delta_storage_bytes-Storage :
      (bytes : Bytes) (base_id : ObjectId)
      → Storage bytes (some base_id) (elim (delta_storage_bytes hash root disk bytes base_id) [
        | some storage ↦ storage
        | none ↦ bytes
      ])
  unfolding delta_storage_bytes
  delta_storage_bytes-Storage bytes base_id =
      elim (Result-cases (read_blob_data hash root disk base_id)) [
        | inr (e, h) ↦ rw (h, delta_storage_bytes) (full refl)
        | inl (found, h) ↦ elim (Option-cases (create base_id found.bytes found.depth bytes)) [
          | inl nothing ↦ rw (h, delta_storage_bytes, nothing) (full refl)
          | inr (d, made) ↦
              rw (h, delta_storage_bytes, made) (delta base_id found d refl h made refl)
        ]
      ]

  storage_bytes-Storage :
      (bytes : Bytes) (base : Option ObjectId)
      → Storage bytes base (storage_bytes hash root disk bytes base)
  unfolding storage_bytes
  storage_bytes-Storage bytes none = full refl
  storage_bytes-Storage bytes (some base_id) =
      elim (Bool-cases
        (not (bytes_eq base_id (hash bytes)) && leb min_delta_target_bytes (length bytes))) [
          | inl try ↦ rw (try, storage_bytes) (delta_storage_bytes-Storage bytes base_id)
          | inr skip ↦ rw (skip, storage_bytes) (full refl)
        ]

  -- A file whose bytes hash to the identifier is the blob.
  read_whole :
      (after : Disk) (bytes stored : Bytes)
      → NoCollision hash bytes
      → after (object_path root blob (hash bytes)) ≡ ok stored
      → hash stored ≡ hash bytes
      → get_blob hash root after (hash bytes) ≡ ok bytes
  unfolding read_blob_data get_blob
  read_whole after bytes stored unique file same =
      let r =
        Found-read_blob_data_at hash root after 16 (hash bytes)
          (record { bytes = stored; depth = 0 }) (whole stored file same refl) in
      rw (r, ◌>>=◌) (ap (λ b. ok b) (unique stored same))

  written-get_blob :
      (bytes : Bytes) (base : Option ObjectId) (storage : Bytes)
      → IsDisk disk
      → IsBase base
      → All IsByte bytes
      → length bytes < 2 ^ 63
      → NoCollision hash bytes
      → try_exists disk (object_path root blob (hash bytes)) ≡ false
      → Storage bytes base storage
      → get_blob hash root (set_file disk (object_path root blob (hash bytes)) storage) (hash bytes)
        ≡ ok bytes
  unfolding get_blob
  written-get_blob bytes base storage w v small fits unique absent (full e) =
      read_whole (set_file disk (object_path root blob (hash bytes)) storage) bytes storage unique
        (set_file_self disk (object_path root blob (hash bytes)) storage) (ap hash e)
  written-get_blob bytes base storage w v small fits unique absent
        (delta base_id found d eb h made es) =
      let path = object_path root blob (hash bytes) in
      elim (Bool-cases (bytes_eq (hash (encode d)) (hash bytes))) [
        | inl same ↦
            read_whole (set_file disk path storage) bytes storage unique
              (set_file_self disk path storage) (ap hash es ∙ (bytes_eq_iff _ _).0 same)
        | inr other ↦
            subst (λ (s : Bytes). get_blob hash root (set_file disk path s) (hash bytes) ≡ ok bytes)
              (sym es)
              (rw (
                create-read_blob_data hash root disk base_id found bytes d w (subst IsBase eb v)
                    small fits h made absent other,
                get_blob,
                ◌>>=◌,
              ))
      ]

-- Storing a blob answers its hash, and what `get_blob` then reads under it are the bytes.
pub get_blob-put_blob_with_base :
    (hash : Bytes → ObjectId) (root : PathBuf) (disk : Disk) (bytes : Bytes)
    (base : Option ObjectId) (id : ObjectId)
    → IsDisk disk
    → IsBase base
    → All IsByte bytes
    → length bytes < 2 ^ 63
    → NoCollision hash bytes
    → (put_blob_with_base hash root disk bytes base).0 ≡ ok id
    → (id ≡ hash bytes)
      × (get_blob hash root (put_blob_with_base hash root disk bytes base).1 id ≡ ok bytes)
unfolding put_blob_with_base
get_blob-put_blob_with_base hash root disk bytes base id w v small fits unique h =
    let storage = storage_bytes hash root disk bytes base in
    let (same_id, put) = put_object-Put hash root disk blob (hash bytes) id storage h in
    (
      same_id,
      subst
          (λ (i : ObjectId).
            get_blob hash root (put_object hash root disk blob (hash bytes) storage).1 i ≡ ok bytes)
          (sym same_id) (stored put),
    )
  where
    found :
        (r : BlobRead)
        → read_blob_data_at hash root disk 17 (hash bytes) ≡ ok r
        → get_blob hash root disk (hash bytes) ≡ ok bytes
    found r h =
        let (same, _) = read_blob_data_at-hash hash root disk 17 (hash bytes) r h in
        read-get_blob hash root disk (hash bytes) r
          (read_blob_data-at hash root disk (hash bytes) r h)
        ∙ ap (λ b. ok b) (unique r.bytes same)

    stored :
        {after : Disk}
        → Put hash root disk blob (hash bytes) (storage_bytes hash root disk bytes base) after
        → get_blob hash root after (hash bytes) ≡ ok bytes
    stored (present e good) =
        let (r, h) = verify_object_file-read hash root disk (hash bytes) good in
        subst (λ (d : Disk). get_blob hash root d (hash bytes) ≡ ok bytes) (sym e) (found r h)
    stored (written absent e) =
        subst (λ (d : Disk). get_blob hash root d (hash bytes) ≡ ok bytes) (sym e)
          (written-get_blob hash root disk bytes base _ w v small fits unique absent
            (storage_bytes-Storage hash root disk bytes base))

-- Where nothing stands at the blob's path, storing it succeeds, in full or as a delta, and it reads
-- back. The disk holds bytes, in files that fit a vector, and no other bytes hash as these do.
pub put_blob_with_base_absent :
    (hash : Bytes → ObjectId) (root : PathBuf) (disk : Disk) (bytes : Bytes)
    (base : Option ObjectId)
    → IsDisk disk
    → IsBase base
    → All IsByte bytes
    → length bytes < 2 ^ 63
    → NoCollision hash bytes
    → try_exists disk (object_path root blob (hash bytes)) ≡ false
    → ((put_blob_with_base hash root disk bytes base).0 ≡ ok (hash bytes))
      × (get_blob hash root (put_blob_with_base hash root disk bytes base).1 (hash bytes)
          ≡ ok bytes)
unfolding put_blob_with_base
put_blob_with_base_absent hash root disk bytes base w v small fits unique absent =
    let storage = storage_bytes hash root disk bytes base in
    let good =
      ap (λ (x : Result ObjectStoreError ObjectId × Disk). x.0)
        (put_object_absent hash root disk blob (hash bytes) storage absent) in
    let (_, read) =
      get_blob-put_blob_with_base hash root disk bytes base (hash bytes) w v small fits unique
        good in
    (good, read)
