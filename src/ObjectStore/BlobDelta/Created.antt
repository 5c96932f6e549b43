-- ===== src/ObjectStore/BlobDelta/Created.antt =====
-- The deltas that `create` of crates/object-store/src/blob_delta.rs makes can be stored.
use era.Base.{
  Bytes, length, take, drop, All, All-append_left, All-append_right, ℕ, ◌-◌, ◌^◌, ◌<◌, ◌≡◌, sym, ap,
  ◌∙◌, subst, some, ◌++◌, arith,
}
use era.Base.Endian.{IsByte}
use era.Base.Slice.{usize_mod}
use era.Core.ObjectId.{ObjectId, IsObjectId}
use era.ObjectStore.BlobDelta.{BlobDelta, encoded_len, create, encode}
use era.ObjectStore.BlobDelta.Codec.{IsDelta, encode-onto, length-delta_onto}
use era.ObjectStore.BlobDelta.Reconstruct.{create-reconstruct, reconstruct-ok}

length-encode : (d : BlobDelta) → IsObjectId d.base_id → length (encode d) ≡ encoded_len d
unfolding encoded_len
length-encode d v = ap length (encode-onto d) ∙ length-delta_onto d v

-- For byte strings of a length that a Rust slice can have, the fields of a delta that `create`
-- makes are in range, and so is the length of its encoding.
pub create-IsDelta :
    (base_id : ObjectId) (base : Bytes) (base_depth : ℕ) (target : Bytes) (d : BlobDelta)
    → IsObjectId base_id
    → length base < 2 ^ 64
    → All IsByte target
    → length target < 2 ^ 63
    → create base_id base base_depth target ≡ some d
    → IsDelta d × (length (encode d) < usize_mod)
create-IsDelta base_id base base_depth target d v small bytes fits h =
    let (built, same_id, depth, shallow, saved) =
      create-reconstruct base_id base base_depth target d fits h in
    let (sizes, len, room, split) = reconstruct-ok d base target built in
    let id_ok : IsObjectId d.base_id = subst IsObjectId (sym same_id) v in
    let tail : All IsByte (d.insert ++ drop (length base - d.suffix_len) base) =
      All-append_right IsByte (take d.prefix_len base) _ (subst (All IsByte) split bytes) in
    (
      record {
        id_ok = id_ok;
        depth_ok = omega (arith, shallow);
        base_len_ok = omega (arith, sizes, small);
        target_len_ok = omega (arith, len, fits);
        prefix_len_ok = omega (arith, room, small);
        suffix_len_ok = omega (arith, room, small);
        insert_ok = All-append_left IsByte d.insert _ tail;
      },
      omega (arith, length-encode d id_ok, saved, fits),
    )
