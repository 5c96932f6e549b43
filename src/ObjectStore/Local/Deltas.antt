-- ===== src/ObjectStore/Local/Deltas.antt =====
-- Stored deltas in crates/object-store/src/local.rs: what reading one says of its lengths, and that
-- reading finds what was written.
use era.Base.{
  ltb, Bool-cases, Bytes, length, All, Result, ok, err, ◌>>=◌, map_err, map_err-eq-ok, ok_or,
  bind-eq-ok, ok_or-eq-ok, ℕ, zero, suc, ◌^◌, ◌≤◌, ◌<◌, ◌≡◌, refl, sym, ap, ◌∙◌, subst, inl, inr,
  false, some, arith,
}
use era.Base.ByteOrder.{bytes_eq}
use era.Base.Endian.{IsByte}
use era.Core.ObjectId.{ObjectId, IsObjectId}
use era.ObjectStore.Disk.{PathBuf, Disk, try_exists, set_file, set_file-Extends, set_file_self}
use era.ObjectStore.BlobDelta.{max_delta_chain_depth, BlobDelta, create, decode, encode}
use era.ObjectStore.BlobDelta.Codec.{decode-encode, decode-ok}
use era.ObjectStore.BlobDelta.Created.{create-IsDelta}
use era.ObjectStore.BlobDelta.Reconstruct.{create-reconstruct, reconstruct-ok}
use era.ObjectStore.Local.{
  blob, ObjectStoreError, invalid_blob_delta, BlobRead, object_path, stored_delta,
  read_blob_data_at, read_blob_data,
}
use era.ObjectStore.Local.Blobs.{
  whole, from_base, read_blob_data_at-Found, Found-read_blob_data_at, read_blob_data_at-enough,
  read_blob_data_at-KeepsObjects,
}

-- A file holds bytes, and no more than a Rust vector can.
abbrev pub IsDisk : Disk → Type 0
IsDisk disk =
    (p : PathBuf) (bytes : Bytes) → disk p ≡ ok bytes → All IsByte bytes × (length bytes < 2 ^ 63)

module _ (hash : Bytes → ObjectId) (root : PathBuf) where
  stored_delta-ok :
      (id : ObjectId) (stored : Bytes) (d : BlobDelta)
      → stored_delta hash root id stored ≡ ok d
      → decode stored ≡ ok (some d)
  unfolding stored_delta
  stored_delta-ok id stored d h =
      let (decoded, e1, h1) =
        bind-eq-ok (map_err (invalid_blob_delta id (object_path root blob id)) (decode stored)) _
          h in
      let (delta, e2, h2) = bind-eq-ok (ok_or decoded _) _ h1 in
      let e3 = map_err-eq-ok _ (decode stored) e1 in
      let e4 = ok_or-eq-ok decoded _ e2 in
      elim (Bool-cases (ltb max_delta_chain_depth delta.depth)) [
        | inl deep ↦ absurd (refused (rw deep at h2))
        | inr shallow ↦ e3 ∙ ap (λ x. ok x) (e4 ∙ ap (λ x. some x) (accepted (rw shallow at h2)))
      ]
    where
      accepted :
          {x y : BlobDelta} → ◌≡◌ {A = Result ObjectStoreError BlobDelta} (ok x) (ok y) → x ≡ y
      accepted h = cc

      refused :
          {x : ObjectStoreError} → ◌≡◌ {A = Result ObjectStoreError BlobDelta} (err x) (ok d) → ⊥
      refused h = cc

  ok-stored_delta :
      (id : ObjectId) (stored : Bytes) (d : BlobDelta)
      → decode stored ≡ ok (some d)
      → d.depth ≤ max_delta_chain_depth
      → stored_delta hash root id stored ≡ ok d
  unfolding stored_delta
  ok-stored_delta id stored d h k =
      let shallow : ltb max_delta_chain_depth d.depth ≡ false = ground (arith, k) in
      rw (h, ◌>>=◌, shallow)

  -- A blob that can be read has a length of 64 bits.
  pub read_blob_data_at-length :
      (disk : Disk) (left : ℕ) (id : ObjectId) (r : BlobRead)
      → IsDisk disk
      → read_blob_data_at hash root disk left id ≡ ok r
      → length r.bytes < 2 ^ 64
  unfolding read_blob_data_at
  read_blob_data_at-length disk zero id r w h = absurd (cc)
  read_blob_data_at-length disk (suc left) id r w h =
      elim (read_blob_data_at-Found hash root disk left id r h) [
        | whole stored file same e ↦
            let (_, fits) = w _ stored file in
            omega (arith, ap (λ (x : BlobRead). length x.bytes) e, fits)
        | from_base stored delta base file other e2 e3 a ↦
            let (bytes, fits) = w _ stored file in
            let (v, _) = decode-ok stored delta bytes fits (stored_delta-ok id stored delta e2) in
            let (_, len, _, _) = reconstruct-ok delta base.bytes r.bytes a.rebuilt in
            omega (arith, len, v.target_len_ok)
      ]

  -- A delta that `create` made on a blob that the disk has, written where nothing stood, reads as
  -- its target, unless its encoding hashes as the target does.
  pub create-read_blob_data :
      (disk : Disk) (base_id : ObjectId) (base : BlobRead) (target : Bytes) (d : BlobDelta)
      → IsDisk disk
      → IsObjectId base_id
      → All IsByte target
      → length target < 2 ^ 63
      → read_blob_data hash root disk base_id ≡ ok base
      → create base_id base.bytes base.depth target ≡ some d
      → try_exists disk (object_path root blob (hash target)) ≡ false
      → bytes_eq (hash (encode d)) (hash target) ≡ false
      → read_blob_data hash root
          (set_file disk (object_path root blob (hash target)) (encode d))
          (hash target)
        ≡ ok (record { bytes = target; depth = d.depth })
  unfolding read_blob_data
  create-read_blob_data disk base_id base target d w v bytes fits found made fresh other =
      let path = object_path root blob (hash target) in
      let after = set_file disk path (encode d) in
      let (dv, short) =
        create-IsDelta base_id base.bytes base.depth target d v
          (read_blob_data_at-length disk 17 base_id base w found) bytes fits made in
      let (built, same_id, depth, shallow, _) =
        create-reconstruct base_id base.bytes base.depth target d fits made in
      let base_read =
        read_blob_data_at-KeepsObjects hash root disk after 16 base_id base
          (λ kind id. set_file-Extends disk path (encode d) fresh (object_path root kind id))
          (read_blob_data_at-enough hash root disk 17 16 base_id base found
            (omega (arith, depth, shallow))) in
      Found-read_blob_data_at hash root after 16 (hash target)
        (record { bytes = target; depth = d.depth })
        (from_base (encode d) d base (set_file_self disk path (encode d)) other
          (ok-stored_delta (hash target) (encode d) d (decode-encode d dv short) shallow)
          (subst (λ (b : ObjectId). read_blob_data_at hash root after 16 b ≡ ok base) (sym same_id)
            base_read)
          (record { depth_ok = depth; rebuilt = built; hash_ok = refl; depth_eq = refl }))
