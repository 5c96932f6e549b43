-- ===== src/Core/Tree.antt =====
-- crates/core/src/tree.rs: directory listings and their canonical bytes.
-- A Rust string is its UTF-8 bytes. The functions stand here; the children prove.
pub mod Names
pub mod Readers
pub mod Writers
pub mod Canonical
pub mod Sorting
mod Tests
use Prim.Native.Nat.{Ordering}
use era.Base.{
  ltb, leb, ◌==◌, if◌then◌else◌, Bytes, length, get_or, Result, ok, err, ◌>>=◌, ok_or, ◌>>?◌, ℕ,
  zero, suc, ◌+◌, ◌^◌, Bool, false, not, ◌||◌, Option, none, some, List, [], ◌∷◌, ◌++◌,
}
use era.Base.ByteOrder.{bytes_eq, bytes_cmp}
use era.Base.Endian.{to_be_bytes, from_be_bytes}
use era.Base.Slice.{slice, usize_mod}
use era.Base.Utf8.{is_utf8}
use era.Core.Cursor.{Cursor}
use era.Core.ObjectId.{object_id_bytes, ObjectId}

abbrev pub tree_magic : Bytes
tree_magic = b'E' ∷ b'R' ∷ b'A' ∷ b'_' ∷ b'T' ∷ b'R' ∷ b'E' ∷ b'E' ∷ b'_' ∷ b'V' ∷ b'1' ∷ 0 ∷ []

pub data EntryKind : Type 0 where
  blob tree : EntryKind

pub tag : EntryKind → ℕ
tag blob = b'b'
tag tree = b't'

pub from_tag : ℕ → Option EntryKind
from_tag byte = if byte == b'b' then some blob else if byte == b't' then some tree else none

pub record TreeEntry : Type 0 where
  pub name : Bytes
  pub kind : EntryKind
  pub id : ObjectId

pub record Tree : Type 0 where
  pub entries : List TreeEntry

pub data InvalidTreeEntryName : Type 0 where
  empty current_directory parent_directory contains_slash contains_nul : InvalidTreeEntryName

pub data TreeError : Type 0 where
  invalid_name : Bytes → InvalidTreeEntryName → TreeError
  duplicate_name : Bytes → TreeError
  invalid_magic : TreeError
  unexpected_eof : ℕ → ℕ → ℕ → TreeError
  invalid_entry_kind : ℕ → ℕ → TreeError
  name_not_utf8 : ℕ → TreeError
  non_canonical_order : Bytes → Bytes → TreeError
  trailing_bytes : ℕ → ℕ → TreeError

-- `str::contains` for an ASCII character.
unfoldable pub contains : ℕ → Bytes → Bool
contains c [] = false
contains c (b ∷ bs) = b == c || contains c bs

-- The ladder of tests that picks the `reason`.
pub invalid_reason : Bytes → Option InvalidTreeEntryName
invalid_reason name =
    if bytes_eq name []
    then some empty
    else if bytes_eq name (b'.' ∷ [])
    then some current_directory
    else if bytes_eq name (b'.' ∷ b'.' ∷ [])
    then some parent_directory
    else if contains b'/' name
    then some contains_slash
    else if contains 0 name
    then some contains_nul
    else none

pub validate_entry_name : Bytes → Result TreeError (Unit {0})
validate_entry_name name = elim (invalid_reason name) [
  | some reason ↦ err (invalid_name name reason)
  | none ↦ ok tt
]

-- `TreeEntry::new`
pub new_entry : Bytes → EntryKind → ObjectId → Result TreeError TreeEntry
new_entry name kind id = do
  _ ← validate_entry_name name
  ok (record { name = name; kind = kind; id = id })

-- `sort_by` of the standard library is stable: an element passes only what compares greater.
pub insert_sorted : TreeEntry → List TreeEntry → List TreeEntry
insert_sorted e [] = e ∷ []
insert_sorted e (x ∷ xs) =
    let rest = insert_sorted e xs in
    elim (bytes_cmp e.name x.name) [ Ordering.gt ↦ x ∷ rest | _ ↦ e ∷ x ∷ xs ]

pub sort_by_name : List TreeEntry → List TreeEntry
sort_by_name [] = []
sort_by_name (e ∷ es) = insert_sorted e (sort_by_name es)

-- The loop over `windows(2)`.
pub reject_duplicate_names : List TreeEntry → Result TreeError (Unit {0})
reject_duplicate_names [] = ok tt
reject_duplicate_names (e ∷ []) = ok tt
reject_duplicate_names (e ∷ x ∷ xs) =
    let rest = reject_duplicate_names (x ∷ xs) in
    if bytes_eq e.name x.name then err (duplicate_name e.name) else rest

-- `Tree::new`
pub new : List TreeEntry → Result TreeError Tree
new entries = do
  let sorted = sort_by_name entries
  _ ← reject_duplicate_names sorted
  ok (record { entries = sorted })

-- `none` is the panic of `expect` when the length does not fit 32 bits.
pub write_u32 : Bytes → ℕ → Option Bytes
write_u32 output value = if ltb value (2 ^ 32) then some (output ++ to_be_bytes 4 value) else none

pub write_entries : Bytes → List TreeEntry → Option Bytes
write_entries output [] = some output
write_entries output (e ∷ es) = write_u32 (output ++ tag e.kind ∷ []) (length e.name) >>? λ out.
    write_entries ((out ++ e.name) ++ e.id) es

unfoldable pub to_canonical_bytes : Tree → Option Bytes
unfolding write_u32 write_entries tag
to_canonical_bytes t =
    write_u32 tree_magic (length t.entries) >>? λ output. write_entries output t.entries

-- `Tree::id`; the hash function is BLAKE3.
pub tree_id : (Bytes → ObjectId) → Tree → Option ObjectId
tree_id hash t = to_canonical_bytes t >>? λ bytes. some (hash bytes)

abbrev pub TreeCursor : Type 0
TreeCursor = Cursor

-- `checked_add` fails where the sum leaves the 64-bit `usize`.
pub read_exact : ℕ → TreeCursor → Result TreeError (Bytes × TreeCursor)
read_exact len c =
    let end = c.offset + len in
    if leb usize_mod end
    then err (unexpected_eof c.offset len (length c.bytes))
    else if ltb (length c.bytes) end
    then err (unexpected_eof c.offset len (length c.bytes))
    else ok (slice c.bytes c.offset end, record c { offset = end })

pub read_magic : TreeCursor → Result TreeError TreeCursor
read_magic c = do
  (magic, c') ← read_exact (length tree_magic) c
  if not (bytes_eq magic tree_magic) then err invalid_magic else ok c'

pub read_byte : TreeCursor → Result TreeError (ℕ × TreeCursor)
read_byte c = do (bytes, c') ← read_exact 1 c; ok (get_or bytes 0 0, c')

pub read_u32 : TreeCursor → Result TreeError (ℕ × TreeCursor)
read_u32 c = do (bytes, c') ← read_exact 4 c; ok (from_be_bytes bytes, c')

pub is_finished : TreeCursor → Bool
is_finished c = c.offset == length c.bytes

pub from_utf8 : ℕ → Bytes → Result TreeError Bytes
from_utf8 index name = if is_utf8 name then ok name else err (name_not_utf8 index)

-- The comparison with the name before, if there is one.
pub check_order : Option Bytes → Bytes → Result TreeError (Unit {0})
check_order none name = ok tt
check_order (some previous) name = elim (bytes_cmp previous name) [
  | Ordering.lt ↦ ok tt
  | Ordering.eq ↦ err (duplicate_name name)
  | Ordering.gt ↦ err (non_canonical_order previous name)
]

-- The body of the decoding loop.
pub read_entry : ℕ → Option Bytes → TreeCursor → Result TreeError (TreeEntry × TreeCursor)
read_entry index previous c0 = do
  (kind_tag, c1) ← read_byte c0
  kind ← ok_or (from_tag kind_tag) (invalid_entry_kind index kind_tag)
  (name_length, c2) ← read_u32 c1
  (name_bytes, c3) ← read_exact name_length c2
  name ← from_utf8 index name_bytes
  _ ← validate_entry_name name
  _ ← check_order previous name
  (id, c4) ← read_exact object_id_bytes c3
  ok (record { name = name; kind = kind; id = id }, c4)

-- The loop, on the number of entries still to be read.
pub read_entries :
    ℕ → ℕ → Option Bytes → TreeCursor → Result TreeError (List TreeEntry × TreeCursor)
read_entries zero index previous c = ok ([], c)
read_entries (suc count) index previous c = do
  (entry, c1) ← read_entry index previous c
  (entries, c2) ← read_entries count (index + 1) (some entry.name) c1
  ok (entry ∷ entries, c2)

unfoldable pub from_canonical_bytes : Bytes → Result TreeError Tree
unfolding read_exact read_magic read_byte read_u32 is_finished from_utf8 check_order read_entry
    read_entries validate_entry_name invalid_reason contains from_tag
from_canonical_bytes bytes = do
  c1 ← read_magic (record { bytes = bytes; offset = 0 })
  (entry_count, c2) ← read_u32 c1
  (entries, c3) ← read_entries entry_count 0 none c2
  if not (is_finished c3)
      then err (trailing_bytes c3.offset (length bytes))
      else ok (record { entries = entries })
