-- ===== src/ObjectStore/BlobDelta.antt =====
-- crates/object-store/src/blob_delta.rs: a blob stored as the bytes between a prefix and a suffix
-- that it shares with another blob. `usize` is 64 bits wide, so `usize::try_from` of a u64 does
-- not fail, and a sum of two lengths wraps at 2 ^ 64, as in a release build.
pub mod Codec
pub mod Created
pub mod Reconstruct
mod Tests
use Prim.Native.Nat.{min}
use Prim.Native.String.{String}
use era.Base.{
  ltb, leb, ◌==◌, if◌then◌else◌, Bytes, length, take, drop, Result, ok, err, ◌>>=◌, ℕ, suc, ◌+◌,
  ◌-◌, ◌*◌, ◌%◌, not, ◌||◌, Option, none, some, [], ◌∷◌, ◌++◌, reverse,
}
use era.Base.ByteOrder.{bytes_eq}
use era.Base.Endian.{to_be_bytes}
use era.Base.Slice.{slice, usize_mod}
use era.Core.Cursor.{Cursor, cursor, be_of}
use era.Core.ObjectId.{object_id_bytes, ObjectId}

abbrev pub max_delta_chain_depth : ℕ
max_delta_chain_depth = 16

abbrev pub min_delta_target_bytes : ℕ
min_delta_target_bytes = 16 * 1024

abbrev pub min_delta_savings_bytes : ℕ
min_delta_savings_bytes = 1024

abbrev pub magic : Bytes
magic =
    b'e' ∷ b'r' ∷ b'a' ∷ b'-' ∷ b'b' ∷ b'l' ∷ b'o' ∷ b'b' ∷ b'-' ∷ b'd' ∷ b'e' ∷ b'l' ∷ b't' ∷ b'a'
    ∷ b'-' ∷ b'v' ∷ b'1' ∷ b'\n' ∷ []

abbrev pub header_len : ℕ
header_len = length magic + 4 + object_id_bytes + 8 * 5

pub record BlobDelta : Type 0 where
  pub base_id : ObjectId
  pub depth : ℕ
  pub base_len : ℕ
  pub target_len : ℕ
  pub prefix_len : ℕ
  pub suffix_len : ℕ
  pub insert : Bytes

pub encoded_len : BlobDelta → ℕ
encoded_len d = header_len + length d.insert

pub common_prefix_len : Bytes → Bytes → ℕ
common_prefix_len (x ∷ base) (y ∷ target) =
    let rest = common_prefix_len base target in if x == y then suc rest else 0
common_prefix_len _ _ = 0

-- `take(limit)` before `take_while` and `count`.
pub count_equal : ℕ → Bytes → Bytes → ℕ
count_equal (suc limit) (x ∷ base) (y ∷ target) =
    let rest = count_equal limit base target in if x == y then suc rest else 0
count_equal _ _ _ = 0

pub common_suffix_len : Bytes → Bytes → ℕ → ℕ
common_suffix_len base target prefix_len =
    count_equal (min (length base) (length target) - prefix_len) (reverse base) (reverse target)

-- The delta that `create` builds before it weighs the saving.
pub make_delta : ObjectId → Bytes → ℕ → Bytes → BlobDelta
make_delta base_id base base_depth target =
    let prefix_len = common_prefix_len base target in
    let suffix_len = common_suffix_len base target prefix_len in
    record {
      base_id = base_id;
      depth = base_depth + 1;
      base_len = length base;
      target_len = length target;
      prefix_len = prefix_len;
      suffix_len = suffix_len;
      insert = slice target prefix_len (length target - suffix_len);
    }

-- `saturating_add` on lengths of objects in memory does not saturate.
pub create : ObjectId → Bytes → ℕ → Bytes → Option BlobDelta
create base_id base base_depth target =
    if ltb (length target) min_delta_target_bytes || leb max_delta_chain_depth base_depth
    then none
    else if leb (length target) (
        min (encoded_len (make_delta base_id base base_depth target) + min_delta_savings_bytes)
          (usize_mod - 1))
    then none
    else some (make_delta base_id base base_depth target)

-- `bytes.get(cursor..end).ok_or_else(message)`, with the cursor moved to `end`.
pub get_range : String → ℕ → Cursor → Result String (Bytes × Cursor)
get_range message n c =
    if leb (c.offset + n) (length c.bytes)
    then ok (slice c.bytes c.offset (c.offset + n), record c { offset = c.offset + n })
    else err message

pub read_u32 : Cursor → Result String (ℕ × Cursor)
read_u32 c = get_range "truncated blob delta u32" 4 c >>= be_of

pub read_u64 : Cursor → Result String (ℕ × Cursor)
read_u64 c = get_range "truncated blob delta u64" 8 c >>= be_of

pub read_object_id : Cursor → Result String (ObjectId × Cursor)
read_object_id c = get_range "truncated blob delta object id" object_id_bytes c

-- The fields of `decode` that name the base.
pub read_link : Cursor → Result String ((ℕ × ObjectId) × Cursor)
read_link c = do
  (depth, c1) ← read_u32 c
  (base_id, c2) ← read_object_id c1
  ok ((depth, base_id), c2)

-- The fields of `decode` that hold the lengths of the base, the target, the prefix and the suffix.
pub read_lengths : Cursor → Result String ((ℕ × ℕ × ℕ × ℕ) × Cursor)
read_lengths c = do
  (base_len, c1) ← read_u64 c
  (target_len, c2) ← read_u64 c1
  (prefix_len, c3) ← read_u64 c2
  (suffix_len, c4) ← read_u64 c3
  ok ((base_len, target_len, prefix_len, suffix_len), c4)

-- The delta that `decode` returns.
pub assemble : ℕ × ObjectId → ℕ × ℕ × ℕ × ℕ → Bytes → BlobDelta
assemble link lengths insert = record {
  base_id = link.1;
  depth = link.0;
  base_len = lengths.0;
  target_len = lengths.1;
  prefix_len = lengths.2;
  suffix_len = lengths.3;
  insert = insert;
}

-- `decode` behind the test of the magic and of the header's length.
pub decode_fields : Bytes → Result String BlobDelta
decode_fields bytes = do
  (link, c1) ← read_link (cursor bytes (length magic))
  (lengths, c2) ← read_lengths c1
  (insert_len, c3) ← read_u64 c2
  if not (length bytes == (c3.offset + insert_len) % usize_mod)
      then err "blob delta insert length does not match payload"
      else ok (assemble link lengths (drop c3.offset bytes))

pub decode : Bytes → Result String (Option BlobDelta)
decode bytes =
    if not (bytes_eq (take (length magic) bytes) magic)
    then ok none
    else if ltb (length bytes) header_len
    then err "truncated blob delta header"
    else decode_fields bytes >>= λ d. ok (some d)

pub encode : BlobDelta → Bytes
encode d =
    magic
    ++ (to_be_bytes 4 d.depth
        ++ (d.base_id
            ++ (to_be_bytes 8 d.base_len
                ++ (to_be_bytes 8 d.target_len
                    ++ (to_be_bytes 8 d.prefix_len
                        ++ (to_be_bytes 8 d.suffix_len
                            ++ (to_be_bytes 8 (length d.insert) ++ d.insert)))))))

-- The suffix that `reconstruct` appends.
pub kept_suffix : Bytes → ℕ → Bytes
kept_suffix base suffix_len = if ltb 0 suffix_len then drop (length base - suffix_len) base else []

pub reconstruct : BlobDelta → Bytes → Result String Bytes
reconstruct d base =
    if not (length base == d.base_len)
    then err "blob delta base length does not match stored base"
    else if ltb (length base) d.prefix_len || ltb (length base - d.prefix_len) d.suffix_len
    then err "blob delta base ranges are out of bounds"
    else if ltb d.target_len d.prefix_len || ltb (d.target_len - d.prefix_len) d.suffix_len
    then err "blob delta target ranges are out of bounds"
    else if not (length d.insert == d.target_len - d.prefix_len - d.suffix_len)
    then err "blob delta insert length does not match target length"
    else ok (take d.prefix_len base ++ (d.insert ++ kept_suffix base d.suffix_len))
