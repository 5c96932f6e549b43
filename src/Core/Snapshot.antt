-- ===== src/Core/Snapshot.antt =====
-- crates/core/src/snapshot.rs: snapshots, their provenance and their canonical bytes.
-- A `BTreeMap<String, String>` is the list of its pairs in the order of the keys.
pub mod Readers
pub mod Writers
pub mod Provenance
pub mod Canonical
mod Tests
use Prim.Native.Nat.{Ordering, min}
use Prim.Native.String.{String}
use era.Base.{
  ltb, ◌==◌, if◌then◌else◌, Bytes, length, Result, ok, err, ◌>>=◌, ℕ, zero, suc, ◌+◌, ◌-◌, ◌%◌, ◌^◌,
  Bool, not, Option, none, some, List, [], ◌∷◌, ◌++◌,
}
use era.Base.ByteOrder.{bytes_eq, bytes_cmp}
use era.Base.Endian.{to_be_bytes}
use era.Base.Slice.{slice, usize_mod}
use era.Base.Utf8.{is_utf8}
use era.Core.Cursor.{Cursor, cursor, byte_of, be_of}
use era.Core.ObjectId.{object_id_bytes, ObjectId}

abbrev pub snapshot_magic : Bytes
snapshot_magic =
    b'E' ∷ b'R' ∷ b'A' ∷ b'_' ∷ b'S' ∷ b'N' ∷ b'A' ∷ b'P' ∷ b'S' ∷ b'H' ∷ b'O' ∷ b'T' ∷ b'_' ∷ b'V'
    ∷ b'1' ∷ 0 ∷ []

abbrev pub Attributes : Type 0
Attributes = List (Bytes × Bytes)

pub record SnapshotProvenance : Type 0 where
  pub source : Bytes
  pub attributes : Attributes

-- `SnapshotProvenance::new`
pub new_provenance : Bytes → SnapshotProvenance
new_provenance source = record { source = source; attributes = [] }

-- `BTreeMap::insert`: the value of a key that is there is replaced.
pub insert : Bytes → Bytes → Attributes → Attributes
insert key value [] = (key, value) ∷ []
insert key value ((k, v) ∷ m) =
    let rest = insert key value m in
    elim (bytes_cmp key k) [
      | Ordering.lt ↦ (key, value) ∷ (k, v) ∷ m
      | Ordering.eq ↦ (key, value) ∷ m
      | Ordering.gt ↦ (k, v) ∷ rest
    ]

pub with_attribute : SnapshotProvenance → Bytes → Bytes → SnapshotProvenance
with_attribute p key value = record p { attributes = insert key value p.attributes }

pub record Snapshot : Type 0 where
  pub root_tree_id : ObjectId
  pub parents : List ObjectId
  pub timestamp_millis : ℕ
  pub author : Option Bytes
  pub message : Option Bytes
  pub provenance : SnapshotProvenance

-- `value as u32` keeps the low 32 bits.
unfoldable pub write_u32 : Bytes → ℕ → Bytes
write_u32 output value = output ++ to_be_bytes 4 (value % 2 ^ 32)

unfoldable pub write_u64 : Bytes → ℕ → Bytes
write_u64 output value = output ++ to_be_bytes 8 value

unfoldable pub write_string : Bytes → Bytes → Bytes
write_string output value = write_u32 output (length value) ++ value

unfoldable pub write_optional_string : Bytes → Option Bytes → Bytes
write_optional_string output (some value) = write_string (output ++ 1 ∷ []) value
write_optional_string output none = output ++ 0 ∷ []

unfoldable pub write_parents : Bytes → List ObjectId → Bytes
write_parents output [] = output
write_parents output (parent ∷ parents) = write_parents (output ++ parent) parents

unfoldable pub write_attributes : Bytes → Attributes → Bytes
write_attributes output [] = output
write_attributes output ((key, value) ∷ m) =
    write_attributes (write_string (write_string output key) value) m

unfoldable pub to_canonical_bytes : Snapshot → Bytes
to_canonical_bytes s =
    let counted = write_u32 (snapshot_magic ++ s.root_tree_id) (length s.parents) in
    let stamped = write_u64 (write_parents counted s.parents) s.timestamp_millis in
    let authored = write_optional_string stamped s.author in
    let described = write_optional_string authored s.message in
    let sourced = write_string described s.provenance.source in
    write_attributes (write_u32 sourced (length s.provenance.attributes)) s.provenance.attributes

-- `Snapshot::id`; the hash function is BLAKE3.
pub snapshot_id : (Bytes → ObjectId) → Snapshot → ObjectId
snapshot_id hash s = hash (to_canonical_bytes s)

pub data SnapshotError : Type 0 where
  invalid_magic : SnapshotError
  unexpected_eof : ℕ → ℕ → ℕ → SnapshotError
  invalid_optional_string_tag : String → ℕ → SnapshotError
  string_not_utf8 : String → SnapshotError
  duplicate_provenance_attribute : Bytes → SnapshotError
  non_canonical_provenance_attribute_order : Bytes → Bytes → SnapshotError
  trailing_bytes : ℕ → ℕ → SnapshotError

abbrev pub SnapshotCursor : Type 0
SnapshotCursor = Cursor

-- What a method of the cursor returns, with the cursor behind it.
abbrev pub Reads : Type 0 → Type 0
Reads A = SnapshotCursor → Result SnapshotError (A × SnapshotCursor)

-- `saturating_add` stops at `usize::MAX`.
pub read_exact : ℕ → Reads Bytes
read_exact len c =
    let end = min (c.offset + len) (usize_mod - 1) in
    if ltb (length c.bytes) end
    then err (unexpected_eof c.offset len (length c.bytes))
    else ok (slice c.bytes c.offset end, record c { offset = end })

pub read_magic : SnapshotCursor → Result SnapshotError SnapshotCursor
read_magic c =
    if ltb (length c.bytes) (length snapshot_magic)
    then err invalid_magic
    else read_exact (length snapshot_magic) c >>= λ p.
        if bytes_eq p.0 snapshot_magic then ok p.1 else err invalid_magic

pub read_object_id : Reads ObjectId
read_object_id c = read_exact object_id_bytes c

pub read_u32 : Reads ℕ
read_u32 c = read_exact 4 c >>= be_of

pub read_u64 : Reads ℕ
read_u64 c = read_exact 8 c >>= be_of

pub read_byte : Reads ℕ
read_byte c = read_exact 1 c >>= byte_of

pub is_finished : SnapshotCursor → Bool
is_finished c = c.offset == length c.bytes

pub from_utf8 : String → Bytes → SnapshotCursor → Result SnapshotError (Bytes × SnapshotCursor)
from_utf8 field bytes c = if is_utf8 bytes then ok (bytes, c) else err (string_not_utf8 field)

pub read_string : String → Reads Bytes
read_string field c = do
  (len, c1) ← read_u32 c
  (bytes, c2) ← read_exact len c1
  from_utf8 field bytes c2

pub map_some : Bytes × SnapshotCursor → Result SnapshotError (Option Bytes × SnapshotCursor)
map_some p = ok (some p.0, p.1)

pub read_optional_string : String → Reads (Option Bytes)
read_optional_string field c = do
  (value, c1) ← read_byte c
  if value == 0
      then ok (none, c1)
      else if value == 1
      then (read_string field c1 >>= map_some)
      else err (invalid_optional_string_tag field value)

pub read_parents : ℕ → Reads (List ObjectId)
read_parents zero c = ok ([], c)
read_parents (suc count) c = do
  (parent, c1) ← read_object_id c
  (parents, c2) ← read_parents count c1
  ok (parent ∷ parents, c2)

pub check_key : Option Bytes → Bytes → Result SnapshotError (Unit {0})
check_key none key = ok tt
check_key (some previous) key = elim (bytes_cmp previous key) [
  | Ordering.lt ↦ ok tt
  | Ordering.eq ↦ err (duplicate_provenance_attribute key)
  | Ordering.gt ↦ err (non_canonical_provenance_attribute_order previous key)
]

-- The loop over the attributes, which inserts into the map that it has so far.
pub read_attributes : ℕ → Option Bytes → Attributes → Reads Attributes
read_attributes zero previous attributes c = ok (attributes, c)
read_attributes (suc count) previous attributes c = do
  (key, c1) ← read_string "provenance attribute key" c
  _ ← check_key previous key
  (value, c2) ← read_string "provenance attribute value" c1
  read_attributes count (some key) (insert key value attributes) c2

-- `from_canonical_bytes` in three parts: the tree and the parents, the metadata, the provenance.
pub read_history : Reads (ObjectId × List ObjectId)
read_history c0 = do
  (root_tree_id, c1) ← read_object_id c0
  (parent_count, c2) ← read_u32 c1
  (parents, c3) ← read_parents parent_count c2
  ok ((root_tree_id, parents), c3)

pub read_metadata : Reads (ℕ × Option Bytes × Option Bytes)
read_metadata c3 = do
  (timestamp_millis, c4) ← read_u64 c3
  (author, c5) ← read_optional_string "author" c4
  (message, c6) ← read_optional_string "message" c5
  ok ((timestamp_millis, author, message), c6)

pub read_provenance : Reads SnapshotProvenance
read_provenance c6 = do
  (source, c7) ← read_string "provenance source" c6
  (attribute_count, c8) ← read_u32 c7
  (attributes, c9) ← read_attributes attribute_count none [] c8
  ok (record { source = source; attributes = attributes }, c9)

abbrev assemble :
    ObjectId × List ObjectId → ℕ × Option Bytes × Option Bytes → SnapshotProvenance → Snapshot
assemble history metadata provenance = record {
  root_tree_id = history.0;
  parents = history.1;
  timestamp_millis = metadata.0;
  author = metadata.1;
  message = metadata.2;
  provenance = provenance;
}

unfoldable pub from_canonical_bytes : Bytes → Result SnapshotError Snapshot
unfolding read_exact read_magic read_object_id read_u32 read_u64 read_byte from_utf8 read_string
    map_some read_optional_string read_parents check_key read_attributes insert is_finished
    read_history read_metadata read_provenance
from_canonical_bytes bytes = do
  c0 ← read_magic (cursor bytes 0)
  (history, c3) ← read_history c0
  (metadata, c6) ← read_metadata c3
  (provenance, c9) ← read_provenance c6
  if not (is_finished c9)
      then err (trailing_bytes c9.offset (length bytes))
      else ok (assemble history metadata provenance)
