-- ===== src/Core/Tree/Tests.antt =====
-- Runs of tree.rs at fixed inputs, and the theorems at inputs that meet their hypotheses.
use era.Base.{Bytes, All, ok, err, ◌≤◌, ◌≡◌, refl, ◌↔◌, none, some, [], ◌∷◌, ◌++◌, arith}
use era.Base.ByteOrder.{bytes_eq, bytes_cmp}
use era.Base.Endian.{to_be_bytes, from_be_bytes}
use era.Base.Utf8.{is_utf8}
use era.Core.ObjectId.{ObjectId}
use era.Core.Tree.{
  tree_magic, blob, tree, TreeEntry, Tree, duplicate_name, contains, invalid_reason,
  validate_entry_name, new_entry, insert_sorted, sort_by_name, reject_duplicate_names, new,
  to_canonical_bytes, from_canonical_bytes,
}
use era.Core.Tree.Names.{IsSegment, validate_entry_name-ok, new_entry_iff}
use era.Core.Tree.Writers.{IsEntry, IsTree}
use era.Core.Tree.Canonical.{Tree-round_trip, Tree-canonical}
use era.Core.Tree.Sorting.{Distinct, count_name, new-ok, new-err, new-perm}
use mathlib.Core.List.{Permᴰ}

abbrev sixteen : Bytes
sixteen = 0 ∷ 1 ∷ 2 ∷ 3 ∷ 4 ∷ 5 ∷ 6 ∷ 7 ∷ 8 ∷ 9 ∷ 10 ∷ 11 ∷ 12 ∷ 13 ∷ 14 ∷ 15 ∷ []

abbrev some_id : ObjectId
some_id = 0 ∷ 1 ∷ 2 ∷ 3 ∷ 4 ∷ 5 ∷ 6 ∷ 7 ∷ 8 ∷ 9 ∷ 10 ∷ 11 ∷ 12 ∷ 13 ∷ 14 ∷ 255 ∷ sixteen

abbrev file : TreeEntry
file = record { name = b'a' ∷ b'.' ∷ b't' ∷ []; kind = blob; id = some_id }

abbrev folder : TreeEntry
folder = record { name = b's' ∷ b'r' ∷ b'c' ∷ []; kind = tree; id = some_id }

abbrev sample : Tree
sample = record { entries = file ∷ folder ∷ [] }

sample_sorted : new (folder ∷ file ∷ []) ≡ ok sample
unfolding new sort_by_name insert_sorted reject_duplicate_names bytes_cmp bytes_eq
sample_sorted = refl

same_twice : new (file ∷ folder ∷ file ∷ []) ≡ err (duplicate_name file.name)
unfolding new sort_by_name insert_sorted reject_duplicate_names bytes_cmp bytes_eq
same_twice = refl

name-IsSegment : (e : TreeEntry) → invalid_reason e.name ≡ none → IsSegment e.name
unfolding validate_entry_name
name-IsSegment e h = validate_entry_name-ok e.name {u = tt} (rw (h, validate_entry_name))

file-IsEntry : IsEntry file
unfolding invalid_reason contains is_utf8 bytes_eq
file-IsEntry = record {
  segment = name-IsSegment file refl;
  utf8 = refl;
  bytes = omega arith;
  id_ok = record { width = refl; bytes = omega arith };
}

folder-IsEntry : IsEntry folder
unfolding invalid_reason contains is_utf8 bytes_eq
folder-IsEntry = record {
  segment = name-IsSegment folder refl;
  utf8 = refl;
  bytes = omega arith;
  id_ok = record { width = refl; bytes = omega arith };
}

sample-IsTree : IsTree sample
unfolding bytes_cmp
sample-IsTree = record { each = (file-IsEntry, (folder-IsEntry, tt)); ordered = (tt, (refl, tt)) }

abbrev sample_bytes : Bytes
sample_bytes =
    tree_magic
    ++ (0
        ∷ 0
        ∷ 0
        ∷ 2
        ∷ b'b'
        ∷ 0
        ∷ 0
        ∷ 0
        ∷ 3
        ∷ b'a'
        ∷ b'.'
        ∷ b't'
        ∷ (some_id ++ (b't' ∷ 0 ∷ 0 ∷ 0 ∷ 3 ∷ b's' ∷ b'r' ∷ b'c' ∷ some_id)))

sample_encodes : to_canonical_bytes sample ≡ some sample_bytes
unfolding to_canonical_bytes to_be_bytes
sample_encodes = refl

sample_decodes : from_canonical_bytes sample_bytes ≡ ok sample
unfolding from_canonical_bytes from_be_bytes bytes_eq bytes_cmp is_utf8
sample_decodes = refl

new_entry_iff_example : (new_entry file.name blob some_id ≡ ok file) ↔ IsSegment file.name
new_entry_iff_example = new_entry_iff file.name blob some_id

Tree-round_trip_example : from_canonical_bytes sample_bytes ≡ ok sample
Tree-round_trip_example =
    Tree-round_trip sample sample_bytes sample-IsTree sample_encodes (omega arith)

Tree-canonical_example : IsTree sample × (to_canonical_bytes sample ≡ some sample_bytes)
Tree-canonical_example =
    Tree-canonical sample_bytes sample (omega arith) (omega arith) sample_decodes

new-ok_example :
    Permᴰ (file ∷ folder ∷ []) (folder ∷ file ∷ [])
    × Distinct (folder ∷ file ∷ [])
    × (All IsEntry (folder ∷ file ∷ []) → IsTree sample)
new-ok_example = new-ok (folder ∷ file ∷ []) sample sample_sorted

new-err_example :
    (name : Bytes) × (duplicate_name file.name ≡ duplicate_name name)
    × (2 ≤ count_name name (file ∷ folder ∷ file ∷ []))
new-err_example = new-err (file ∷ folder ∷ file ∷ []) (duplicate_name file.name) same_twice

new-perm_example : new (file ∷ folder ∷ []) ≡ ok sample
new-perm_example =
    new-perm (folder ∷ file ∷ []) (file ∷ folder ∷ []) sample (Permᴰ.swap refl refl) sample_sorted
