-- ===== src/ObjectStore/BlobDelta/Tests.antt =====
-- Runs of blob_delta.rs at fixed inputs, and the theorems at inputs that meet their hypotheses.
use era.Base.ByteOrder.{bytes_eq}
use era.Base.{
  Bytes, length, take, drop, All, ok, err, ℕ, zero, suc, ◌+◌, ◌-◌, ◌≤◌, ◌<◌, ◌≡◌, refl, sym, ap,
  ◌∙◌, none, some, [], ◌∷◌, ◌++◌, arith,
}
use era.Base.Endian.{IsByte, to_be_bytes}
use era.Core.ObjectId.{ObjectId}
use era.ObjectStore.BlobDelta.{
  max_delta_chain_depth, min_delta_savings_bytes, magic, BlobDelta, encoded_len, common_prefix_len,
  count_equal, common_suffix_len, make_delta, create, decode, encode, kept_suffix, reconstruct,
}
use era.ObjectStore.BlobDelta.Codec.{IsDelta, decode-encode, decode-ok}
use era.ObjectStore.BlobDelta.Reconstruct.{create-reconstruct, reconstruct-ok}

abbrev repeat : ℕ → ℕ → Bytes
repeat zero x = []
repeat (suc n) x = x ∷ repeat n x

abbrev base_id : ObjectId
base_id = repeat 32 7

-- A delta that replaces the middle of a base of six bytes.
abbrev small_delta : BlobDelta
small_delta = record {
  base_id = base_id;
  depth = 1;
  base_len = 6;
  target_len = 5;
  prefix_len = 2;
  suffix_len = 1;
  insert = 88 ∷ 89 ∷ [];
}

abbrev small_base : Bytes
small_base = 1 ∷ 2 ∷ 3 ∷ 4 ∷ 5 ∷ 6 ∷ []

abbrev small_target : Bytes
small_target = 1 ∷ 2 ∷ 88 ∷ 89 ∷ 6 ∷ []

reconstruct_run : reconstruct small_delta small_base ≡ ok small_target
unfolding reconstruct kept_suffix
reconstruct_run = refl

make_delta_run : make_delta base_id small_base 0 small_target ≡ small_delta
unfolding make_delta common_prefix_len common_suffix_len count_equal
make_delta_run = refl

other_base_run :
    reconstruct small_delta small_target ≡ err "blob delta base length does not match stored base"
unfolding reconstruct
other_base_run = refl

foreign_run : decode small_base ≡ ok none
unfolding decode bytes_eq
foreign_run = refl

truncated_run : decode (magic ++ small_base) ≡ err "truncated blob delta header"
unfolding decode bytes_eq
truncated_run = refl

reconstruct-ok_example :
    (length small_base ≡ 6)
    × (length small_target ≡ 5)
    × (2 + 1 ≤ length small_base)
    × (small_target
        ≡ take 2 small_base ++ ((88 ∷ 89 ∷ []) ++ drop (length small_base - 1) small_base))
reconstruct-ok_example = reconstruct-ok small_delta small_base small_target reconstruct_run

small_delta-IsDelta : IsDelta small_delta
small_delta-IsDelta = record {
  id_ok = record { width = refl; bytes = ground arith };
  depth_ok = omega arith;
  base_len_ok = omega arith;
  target_len_ok = omega arith;
  prefix_len_ok = omega arith;
  suffix_len_ok = omega arith;
  insert_ok = (omega arith, (omega arith, tt));
}

abbrev stored : Bytes
stored =
    magic
    ++ (0
        ∷ 0
        ∷ 0
        ∷ 1
        ∷ (base_id
            ++ (0 ∷ 0 ∷ 0 ∷ 0 ∷ 0 ∷ 0 ∷ 0 ∷ 6 ∷ 0 ∷ 0 ∷ 0 ∷ 0 ∷ 0 ∷ 0 ∷ 0 ∷ 5 ∷ 0 ∷ 0 ∷ 0 ∷ 0 ∷ 0
                ∷ 0 ∷ 0 ∷ 2 ∷ 0 ∷ 0 ∷ 0 ∷ 0 ∷ 0 ∷ 0 ∷ 0 ∷ 1 ∷ 0 ∷ 0 ∷ 0 ∷ 0 ∷ 0 ∷ 0 ∷ 0 ∷ 2 ∷ 88
                ∷ 89 ∷ [])))

encode_run : encode small_delta ≡ stored
unfolding encode to_be_bytes
encode_run = refl

decode-encode_example : decode (encode small_delta) ≡ ok (some small_delta)
decode-encode_example = decode-encode small_delta small_delta-IsDelta (rw encode_run (omega arith))

stored-IsByte : All IsByte stored
stored-IsByte = ground arith

decode-ok_example : IsDelta small_delta × (encode small_delta ≡ stored)
decode-ok_example =
    decode-ok stored small_delta stored-IsByte (omega arith)
      (ap decode (sym encode_run) ∙ decode-encode_example)

-- A target of 16 KiB on a base that differs from it in its first byte.
abbrev large_base : Bytes
large_base = 1 ∷ repeat 16384 0

abbrev large_target : Bytes
large_target = 2 ∷ repeat 16384 0

abbrev large_delta : BlobDelta
large_delta = record {
  base_id = base_id;
  depth = 4;
  base_len = 16385;
  target_len = 16385;
  prefix_len = 0;
  suffix_len = 16384;
  insert = 2 ∷ [];
}

create_run : create base_id large_base 3 large_target ≡ some large_delta
unfolding create make_delta common_prefix_len common_suffix_len count_equal encoded_len
create_run = refl

create-reconstruct_example :
    (reconstruct large_delta large_base ≡ ok large_target)
    × (large_delta.base_id ≡ base_id)
    × (large_delta.depth ≡ 3 + 1)
    × (large_delta.depth ≤ max_delta_chain_depth)
    × (encoded_len large_delta + min_delta_savings_bytes < length large_target)
create-reconstruct_example =
    create-reconstruct base_id large_base 3 large_target large_delta (omega arith) create_run
