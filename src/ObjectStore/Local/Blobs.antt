-- ===== src/ObjectStore/Local/Blobs.antt =====
-- What a successful read of a blob in crates/object-store/src/local.rs has found.
use era.Base.{
  ◌==◌, ==_iff, Bool-cases, Bytes, Result, ok, err, ◌>>=◌, Result-cases, map_err, map_err-eq-ok,
  bind-eq-ok, ℕ, zero, suc, ◌+◌, ◌<◌, ◌≡◌, refl, sym, ap, ◌∙◌, subst, inl, inr, true, false, [],
  ◌∷◌, ◌++◌, append_assoc, arith,
}
use era.Base.ByteOrder.{bytes_eq, bytes_eq_iff}
use era.Core.ObjectId.{ObjectId}
use era.ObjectStore.Disk.{PathBuf, IoError, not_found, unreadable, other_error, Disk}
use era.ObjectStore.BlobDelta.{BlobDelta, reconstruct}
use era.ObjectStore.Local.{
  ObjectKind, blob, tree, snapshot, ObjectStoreError, io, missing_object, invalid_blob_delta,
  BlobRead, object_dir, object_path, read_object_file, stored_delta, apply_delta, read_blob_data_at,
}

pub read_object_file-ok :
    (disk : Disk) (kind : ObjectKind) (path : PathBuf) (id : ObjectId) (bytes : Bytes)
    → read_object_file disk kind path id ≡ ok bytes
    → disk path ≡ ok bytes
unfolding read_object_file
read_object_file-ok disk kind path id bytes h = elim (Result-cases (disk path)) [
  | inl (b, e) ↦ e ∙ same (rw (e, read_object_file) at h)
  | inr (x, e) ↦ absurd (refused x (rw (e, read_object_file) at h))
]
  where
    same :
        {b : Bytes}
        → ◌≡◌ {A = Result ObjectStoreError Bytes} (ok b) (ok bytes)
        → ◌≡◌ {A = Result IoError Bytes} (ok b) (ok bytes)
    same h = cc

    refused :
        (x : IoError)
        → ◌≡◌ {A = Result ObjectStoreError Bytes}
            (elim x [
              | not_found ↦ err (missing_object kind id path)
              | unreadable ↦ err (io path)
              | other_error ↦ err (io path)
            ])
            (ok bytes)
        → ⊥
    refused not_found h = cc
    refused unreadable h = cc
    refused other_error h = cc

pub ok-read_object_file :
    (disk : Disk) (kind : ObjectKind) (path : PathBuf) (id : ObjectId) (bytes : Bytes)
    → disk path ≡ ok bytes
    → read_object_file disk kind path id ≡ ok bytes
unfolding read_object_file
ok-read_object_file disk kind path id bytes e = rw (e, read_object_file)

-- The file of an object lies under the root.
pub object_path-under :
    (root : PathBuf) (kind : ObjectKind) (id : ObjectId)
    → (rest : PathBuf) × (object_path root kind id ≡ root ++ rest)
unfolding object_path object_dir
object_path-under root blob id = (_, append_assoc root (_ ∷ []) _)
object_path-under root tree id = (_, append_assoc root (_ ∷ []) _)
object_path-under root snapshot id = (_, append_assoc root (_ ∷ []) _)

-- The files of the objects stay, whatever happens to the others.
abbrev pub KeepsObjects : PathBuf → Disk → Disk → Type 0
KeepsObjects root disk after =
    (kind : ObjectKind) (id : ObjectId) (bytes : Bytes)
    → disk (object_path root kind id) ≡ ok bytes
    → after (object_path root kind id) ≡ ok bytes

module _ (hash : Bytes → ObjectId) (root : PathBuf) where
  -- What `apply_delta` found.
  pub record Applied (id : ObjectId) (delta : BlobDelta) (base r : BlobRead) : Type 0 where
    pub depth_ok : delta.depth ≡ base.depth + 1
    pub rebuilt : reconstruct delta base.bytes ≡ ok r.bytes
    pub hash_ok : hash r.bytes ≡ id
    pub depth_eq : r.depth ≡ delta.depth

  pub apply_delta-Applied :
      (id : ObjectId) (delta : BlobDelta) (base r : BlobRead)
      → apply_delta hash root id delta base ≡ ok r
      → Applied id delta base r
  unfolding apply_delta
  apply_delta-Applied id delta base r h = elim (Bool-cases (delta.depth == base.depth + 1)) [
    | inr differ ↦ absurd (refused (rw (differ, apply_delta) at h))
    | inl same ↦
        let (bytes, e1, h1) =
          bind-eq-ok
            (map_err (invalid_blob_delta id (object_path root blob id))
              (reconstruct delta base.bytes))
            _ (rw (same, apply_delta) at h) in
        elim (Bool-cases (bytes_eq (hash bytes) id)) [
          | inr other ↦ absurd (refused (rw other at h1))
          | inl good ↦
              let e : record { bytes = bytes; depth = delta.depth } ≡ r =
                accepted (rw good at h1) in
              subst (Applied id delta base) e (record {
                depth_ok = (==_iff _ _).0 same;
                rebuilt = map_err-eq-ok _ _ e1;
                hash_ok = (bytes_eq_iff _ _).0 good;
                depth_eq = refl;
              })
        ]
  ]
    where
      refused :
          {x : ObjectStoreError} → ◌≡◌ {A = Result ObjectStoreError BlobRead} (err x) (ok r) → ⊥
      refused h = cc

      accepted : {x y : BlobRead} → ◌≡◌ {A = Result ObjectStoreError BlobRead} (ok x) (ok y) → x ≡ y
      accepted h = cc

  pub Applied-apply_delta :
      (id : ObjectId) (delta : BlobDelta) (base r : BlobRead)
      → Applied id delta base r
      → apply_delta hash root id delta base ≡ ok r
  unfolding apply_delta
  Applied-apply_delta id delta base r a =
      let same : (delta.depth == base.depth + 1) ≡ true = (==_iff _ _).1 a.depth_ok in
      let good : bytes_eq (hash r.bytes) id ≡ true = (bytes_eq_iff _ _).1 a.hash_ok in
      rw (same, a.rebuilt, good, apply_delta)
        (ap (λ (n : ℕ). ok (record { bytes = r.bytes; depth = n })) (sym a.depth_eq))

  module _ (disk : Disk) where
    -- What a read found: the blob itself, or a delta and its base.
    pub data Found (left : ℕ) (id : ObjectId) (r : BlobRead) : Type 0 where
      whole :
          (stored : Bytes)
          → disk (object_path root blob id) ≡ ok stored
          → hash stored ≡ id
          → r ≡ record { bytes = stored; depth = 0 }
          → Found left id r
      from_base :
          (stored : Bytes) (delta : BlobDelta) (base : BlobRead)
          → disk (object_path root blob id) ≡ ok stored
          → bytes_eq (hash stored) id ≡ false
          → stored_delta hash root id stored ≡ ok delta
          → read_blob_data_at hash root disk left delta.base_id ≡ ok base
          → Applied id delta base r
          → Found left id r

    pub read_blob_data_at-Found :
        (left : ℕ) (id : ObjectId) (r : BlobRead)
        → read_blob_data_at hash root disk (suc left) id ≡ ok r
        → Found left id r
    unfolding read_blob_data_at
    read_blob_data_at-Found left id r h =
        let (stored, e1, h1) =
          bind-eq-ok (read_object_file disk blob (object_path root blob id) id) _ h in
        let file = read_object_file-ok disk blob (object_path root blob id) id stored e1 in
        elim (Bool-cases (bytes_eq (hash stored) id)) [
          | inl same ↦
              whole stored file ((bytes_eq_iff _ _).0 same) (sym (accepted (rw same at h1)))
          | inr other ↦
              let (delta, e2, h2) =
                bind-eq-ok (stored_delta hash root id stored) _ (rw other at h1) in
              let (base, e3, h3) =
                bind-eq-ok (read_blob_data_at hash root disk left delta.base_id) _ h2 in
              from_base stored delta base file other e2 e3 (apply_delta-Applied id delta base r h3)
        ]
      where
        accepted :
            {x y : BlobRead} → ◌≡◌ {A = Result ObjectStoreError BlobRead} (ok x) (ok y) → x ≡ y
        accepted h = cc

    pub Found-read_blob_data_at :
        (left : ℕ) (id : ObjectId) (r : BlobRead)
        → Found left id r
        → read_blob_data_at hash root disk (suc left) id ≡ ok r
    unfolding read_blob_data_at
    Found-read_blob_data_at left id r (whole stored file same e) =
        rw
          (
            ok-read_object_file disk blob (object_path root blob id) id stored file,
            ◌>>=◌,
            (bytes_eq_iff _ _).1 same,
          )
          (ap (λ (x : BlobRead). ok x) (sym e))
    Found-read_blob_data_at left id r (from_base stored delta base file other e2 e3 a) =
        rw
          (
            ok-read_object_file disk blob (object_path root blob id) id stored file,
            ◌>>=◌,
            other,
            e2,
            e3,
          )
          (Applied-apply_delta id delta base r a)

    -- What is read hashes to the identifier, at a depth that the allowance covers.
    pub read_blob_data_at-hash :
        (left : ℕ) (id : ObjectId) (r : BlobRead)
        → read_blob_data_at hash root disk left id ≡ ok r
        → (hash r.bytes ≡ id) × (r.depth < left)
    unfolding read_blob_data_at
    read_blob_data_at-hash zero id r h = absurd (cc)
    read_blob_data_at-hash (suc left) id r h = elim (read_blob_data_at-Found left id r h) [
      | whole stored file same e ↦ (
        ap (λ (x : BlobRead). hash x.bytes) e ∙ same,
        omega (arith, ap (λ (x : BlobRead). x.depth) e),
      )
      | from_base stored delta base file other e2 e3 a ↦
          let (_, shallow) = read_blob_data_at-hash left delta.base_id base e3 in
          (a.hash_ok, omega (arith, a.depth_eq, a.depth_ok, shallow))
    ]

    -- An allowance that covers the depth is as good as any.
    pub read_blob_data_at-enough :
        (left more : ℕ) (id : ObjectId) (r : BlobRead)
        → read_blob_data_at hash root disk left id ≡ ok r
        → r.depth < more
        → read_blob_data_at hash root disk more id ≡ ok r
    unfolding read_blob_data_at
    read_blob_data_at-enough zero more id r h k = absurd (cc)
    read_blob_data_at-enough (suc left) zero id r h k = absurd (omega arith)
    read_blob_data_at-enough (suc left) (suc more) id r h k =
        elim (read_blob_data_at-Found left id r h) [
          | whole stored file same e ↦ Found-read_blob_data_at more id r (whole stored file same e)
          | from_base stored delta base file other e2 e3 a ↦ Found-read_blob_data_at more id r (
              from_base stored delta base file other e2
                (read_blob_data_at-enough left more delta.base_id base e3
                  (omega (arith, a.depth_eq, a.depth_ok, k)))
                a)
        ]

  -- What was read stays readable while the files of objects stay.
  pub read_blob_data_at-KeepsObjects :
      (disk larger : Disk) (left : ℕ) (id : ObjectId) (r : BlobRead)
      → KeepsObjects root disk larger
      → read_blob_data_at hash root disk left id ≡ ok r
      → read_blob_data_at hash root larger left id ≡ ok r
  unfolding read_blob_data_at
  read_blob_data_at-KeepsObjects disk larger zero id r x h = absurd (cc)
  read_blob_data_at-KeepsObjects disk larger (suc left) id r x h =
      elim (read_blob_data_at-Found disk left id r h) [
        | whole stored file same e ↦
            Found-read_blob_data_at larger left id r (whole stored (x blob _ stored file) same e)
        | from_base stored delta base file other e2 e3 a ↦
            Found-read_blob_data_at larger left id r (
              from_base stored delta base (x blob _ stored file) other e2
                (read_blob_data_at-KeepsObjects disk larger left delta.base_id base x e3) a)
      ]
