-- ===== src/ObjectStore/Local/Tests.antt =====
-- Runs of local.rs on a small disk, and the theorems at inputs that meet their hypotheses. The hash
-- tells one sample from all other bytes.
use era.Core.Snapshot.Readers.{slice_mod}
use era.Base.Endian.{to_be_bytes}
use era.Base.Utf8.{is_utf8}
use era.Core.Tree.Writers.{IsTree}
use era.Core.Snapshot.Writers.{IsSnapshot}
use era.Base.{
  if◌then◌else◌, Bool-cases, Bytes, length, Result, ok, err, ◌>>=◌, ◌>>?◌, ℕ, zero, suc, ◌<◌, ◌≡◌,
  refl, ap, ◌↔◌, inl, inr, true, Option, none, some, [], ◌∷◌, ◌++◌, arith,
}
use era.Base.ByteOrder.{bytes_eq, bytes_eq_iff, bytes_eq_refl, bytes_cmp}
use era.Core.ObjectId.{ObjectId}
use era.Core.Tree.{tree_magic, Tree, to_canonical_bytes as tree_to_canonical_bytes}
use era.Core.Snapshot.{
  write_u32, write_u64, write_string, write_optional_string, write_parents, write_attributes,
  Snapshot, to_canonical_bytes as snapshot_to_canonical_bytes,
}
use era.ObjectStore.Disk.{
  PathBuf, not_found, Disk, try_exists, set_file, ok-try_exists, set_file_self,
}
use era.ObjectStore.Local.{
  blob, tree, snapshot, ObjectStoreError, object_path, get_blob, get_object_bytes, get_tree,
  get_snapshot, verify_object_file, contains, put_object, put_blob_with_base, put_tree,
  put_snapshot,
}
use era.ObjectStore.Local.Deltas.{IsDisk}
use era.ObjectStore.Local.Puts.{
  NoCollision, IsBase, put_object_absent, put_object_present, put_blob_with_base_absent,
}
use era.ObjectStore.Local.Objects.{get_object_bytes-hash}
use era.ObjectStore.Local.Stored.{
  Stored, nothing, blob_stored, Readable, contains-Readable, Stored-get_object_bytes,
  put_blob_with_base-Stored, put_tree-Stored, put_snapshot-Stored,
}

abbrev repeat : ℕ → ℕ → Bytes
repeat zero x = []
repeat (suc n) x = x ∷ repeat n x

-- Ones for the sample, zeros for all else.
abbrev pick : Bytes → Bytes → ObjectId
pick sample bytes = if bytes_eq bytes sample then repeat 32 1 else repeat 32 0

pick-NoCollision : (sample : Bytes) → NoCollision (pick sample) sample
unfolding bytes_eq
pick-NoCollision sample other h = elim (Bool-cases (bytes_eq other sample)) [
  | inl same ↦ (bytes_eq_iff other sample).0 same
  | inr differ ↦ absurd (apart (rw (differ, bytes_eq_refl sample) at h))
]
  where
    apart : ◌≡◌ {A = ObjectId} (repeat 32 0) (repeat 32 1) → ⊥
    apart h = cc

abbrev root : PathBuf
root = []

abbrev empty : Disk
empty _ = err not_found

empty-IsDisk : IsDisk empty
empty-IsDisk p bytes h = absurd (cc)

abbrev words : Bytes
words = b'h' ∷ b'i' ∷ []

abbrev base : Option ObjectId
base = some (repeat 32 7)

base-IsBase : IsBase base
base-IsBase = record { width = refl; bytes = omega arith }

abbrev other_words : Bytes
other_words = b'y' ∷ b'o' ∷ []

abbrev after_words : Disk
after_words = (put_blob_with_base (pick words) root empty words base).1

words_run :
    Stored
      (pick words)
      root
      after_words
      (put_blob_with_base (pick words) root after_words other_words none).1
words_run = blob_stored other_words none nothing

put_blob_with_base_absent_example :
    ((put_blob_with_base (pick words) root empty words base).0 ≡ ok (pick words words))
    × (get_blob (pick words) root after_words (pick words words) ≡ ok words)
unfolding try_exists
put_blob_with_base_absent_example =
    put_blob_with_base_absent (pick words) root empty words base empty-IsDisk base-IsBase
      (omega arith) (omega arith) (pick-NoCollision words) refl

put_blob_with_base-Stored_example :
    (pick words words ≡ pick words words)
    × (get_blob
          (pick words)
          root
          (put_blob_with_base (pick words) root after_words other_words none).1
          (pick words words)
        ≡ ok words)
put_blob_with_base-Stored_example =
    put_blob_with_base-Stored (pick words) root empty
      (put_blob_with_base (pick words) root after_words other_words none).1 words base
      (pick words words) empty-IsDisk base-IsBase (omega arith) (omega arith)
      (pick-NoCollision words) put_blob_with_base_absent_example.0 words_run

words_read : get_object_bytes (pick words) root after_words blob (pick words words) ≡ ok words
unfolding get_object_bytes
words_read = put_blob_with_base_absent_example.1

Stored-get_object_bytes_example :
    get_object_bytes
      (pick words)
      root
      (put_blob_with_base (pick words) root after_words other_words none).1
      blob
      (pick words words)
    ≡ ok words
Stored-get_object_bytes_example =
    Stored-get_object_bytes (pick words) root blob (pick words words) words words_run words_read

get_object_bytes-hash_example : pick words words ≡ pick words words
get_object_bytes-hash_example =
    get_object_bytes-hash (pick words) root after_words blob (pick words words) words words_read

contains-Readable_example :
    (contains (pick words) root after_words blob (pick words words) ≡ ok true)
    ↔ Readable (pick words) root after_words blob (pick words words)
contains-Readable_example = contains-Readable (pick words) root after_words blob (pick words words)

abbrev one_file : Disk
one_file = set_file empty (object_path root blob (pick words words)) words

-- What is there is kept, even when other bytes are stored under its identifier.
put_object_present_example :
    put_object (pick words) root one_file blob (pick words words) other_words ≡ (
      verify_object_file (pick words) root one_file blob (pick words words)
          >>= (λ _. ok (pick words words)),
      one_file,
    )
put_object_present_example =
    put_object_present (pick words) root one_file blob (pick words words) other_words (
      ok-try_exists one_file (object_path root blob (pick words words)) words
        (set_file_self empty (object_path root blob (pick words words)) words))

abbrev no_tree : Tree
no_tree = record { entries = [] }

abbrev no_tree_bytes : Bytes
no_tree_bytes = tree_magic ++ (0 ∷ 0 ∷ 0 ∷ 0 ∷ [])

no_tree_encodes : tree_to_canonical_bytes no_tree ≡ some no_tree_bytes
unfolding tree_to_canonical_bytes to_be_bytes
no_tree_encodes = refl

no_tree-IsTree : IsTree no_tree
no_tree-IsTree = record { each = tt; ordered = tt }

abbrev after_tree : Result ObjectStoreError ObjectId × Disk
after_tree =
    put_object (pick no_tree_bytes) root empty tree (pick no_tree_bytes no_tree_bytes) no_tree_bytes

tree_put : put_tree (pick no_tree_bytes) root empty no_tree ≡ some after_tree
unfolding put_tree
tree_put = rw (no_tree_encodes, ◌>>?◌) refl

tree_id : after_tree.0 ≡ ok (pick no_tree_bytes no_tree_bytes)
unfolding try_exists
tree_id =
    ap (λ (x : Result ObjectStoreError ObjectId × Disk). x.0)
      (put_object_absent (pick no_tree_bytes) root empty tree (pick no_tree_bytes no_tree_bytes)
        no_tree_bytes refl)

put_tree-Stored_example :
    (pick no_tree_bytes no_tree_bytes ≡ pick no_tree_bytes no_tree_bytes)
    × (get_tree
          (pick no_tree_bytes)
          root
          (put_blob_with_base (pick no_tree_bytes) root after_tree.1 words none).1
          (pick no_tree_bytes no_tree_bytes)
        ≡ ok no_tree)
put_tree-Stored_example =
    put_tree-Stored (pick no_tree_bytes) root empty
      (put_blob_with_base (pick no_tree_bytes) root after_tree.1 words none).1 no_tree no_tree_bytes
      (pick no_tree_bytes no_tree_bytes) after_tree no_tree-IsTree no_tree_encodes (omega arith)
      (pick-NoCollision no_tree_bytes) tree_put tree_id (blob_stored words none nothing)

abbrev first : Snapshot
first = record {
  root_tree_id = repeat 32 3;
  parents = [];
  timestamp_millis = 5;
  author = none;
  message = none;
  provenance = record { source = b'm' ∷ []; attributes = [] };
}

abbrev first_bytes : Bytes
first_bytes = snapshot_to_canonical_bytes first

first-IsSnapshot : IsSnapshot first
unfolding bytes_cmp is_utf8
first-IsSnapshot = record {
  root_ok = record { width = refl; bytes = omega arith };
  parents_ok = tt;
  few_parents = omega arith;
  time_ok = omega arith;
  author_ok = tt;
  message_ok = tt;
  source_ok = record { utf8 = refl; bytes = omega arith; short = omega arith };
  attributes_ok = tt;
  few_attributes = omega arith;
  keys_ok = tt;
}

length-first_bytes : length first_bytes < slice_mod
unfolding snapshot_to_canonical_bytes to_be_bytes write_u32 write_u64 write_string
    write_optional_string write_parents write_attributes
length-first_bytes = omega arith

abbrev after_first : Result ObjectStoreError ObjectId × Disk
after_first = put_snapshot (pick first_bytes) root empty first

first_id : after_first.0 ≡ ok (pick first_bytes first_bytes)
unfolding try_exists put_snapshot
first_id =
    ap (λ (x : Result ObjectStoreError ObjectId × Disk). x.0)
      (put_object_absent (pick first_bytes) root empty snapshot (pick first_bytes first_bytes)
        first_bytes refl)

put_snapshot-Stored_example :
    (pick first_bytes first_bytes ≡ pick first_bytes first_bytes)
    × (get_snapshot
          (pick first_bytes)
          root
          (put_blob_with_base (pick first_bytes) root after_first.1 words none).1
          (pick first_bytes first_bytes)
        ≡ ok first)
put_snapshot-Stored_example =
    put_snapshot-Stored (pick first_bytes) root empty
      (put_blob_with_base (pick first_bytes) root after_first.1 words none).1 first
      (pick first_bytes first_bytes) first-IsSnapshot length-first_bytes
      (pick-NoCollision first_bytes) first_id (blob_stored words none nothing)
