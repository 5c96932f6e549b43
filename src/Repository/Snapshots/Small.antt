-- ===== src/Repository/Snapshots/Small.antt =====
-- A small repository for the theorems on crates/repository/src/repository.rs: one workspace whose ref
-- points at a stored snapshot, and a materializer that stores a fixed tree.
use era.ObjectStore.Disk.{PathBuf, not_found, Disk, try_exists, set_file}
use era.ObjectStore.Local.{
  tree, snapshot, put_object, ObjectStoreError, object_dir, object_path, get_snapshot, put_snapshot,
}
use era.ObjectStore.Local.Objects.{get_snapshot-put_snapshot}
use era.ObjectStore.Local.Stored.{get_snapshot-KeepsObjects}
use era.Repository.Refs.{
  era_dir_name, objects_dir_name, refs_dir_name, head_file_name, head_path, objects_dir,
  workspace_ref_path, write_text_file_atomic, write_workspace_ref,
}
use era.Repository.Refs.Quiet.{
  Quiet, put_object-Quiet, put_snapshot-Quiet, read_branch_ref_missing, read_workspace_ref_missing,
}
use era.Repository.Snapshots.Cursors.{
  HasRefs, read_cursor_ref-write_cursor_ref, write_cursor_ref-Written, IsRepository,
  IsRepository-Quiet, IsRepository-write_cursor_ref,
}
use era.Base.{Bytes, Result, ok, err, ◌≡◌, refl, sym, ap, ◌∙◌, subst, inl, false, [], ◌∷◌, ◌++◌}
use era.Base.ByteOrder.{bytes_eq, bytes_eq_refl}
use era.Base.Endian.{to_be_bytes}
use era.Core.ObjectId.{ObjectId, hex_digit, hex_pair, to_hex, shard_prefix}
use era.Core.Snapshot.{
  write_u32, write_u64, write_string, write_optional_string, write_parents, write_attributes,
  to_canonical_bytes,
}
use era.ObjectStore.Local.Puts.{put_object_absent}
use era.Repository.Snapshots.{
  RepositoryCursor, own_workspace, branch_cursor, workspace_cursor, Materializer, read_cursor_ref,
  write_cursor_ref,
}
use era.Repository.Snapshots.Moves.{IsHash}
use era.Repository.Refs.Paths.{object_path-objects_dir}
use era.Core.Tree.{tree_magic}
use era.Repository.Snapshots.Samples.{
  repeat, pick-IsHash, first, captured, second, hash, first-Storable,
}

abbrev pub era_dir : PathBuf
era_dir = era_dir_name ∷ []

abbrev pub dev : Bytes
dev = b'd' ∷ b'e' ∷ b'v' ∷ []

abbrev empty : Disk
empty _ = err not_found

abbrev pub first_id : ObjectId
first_id = hash (to_canonical_bytes first)

abbrev stored_first : Disk
stored_first = (put_snapshot hash (objects_dir era_dir) empty first).1

abbrev pub small : Disk
small = write_cursor_ref era_dir (workspace_cursor dev) first_id stored_first

abbrev pub cursor : RepositoryCursor
cursor = own_workspace dev

-- The bytes of the tree without entries.
abbrev tree_bytes : Bytes
tree_bytes = tree_magic ++ (0 ∷ 0 ∷ 0 ∷ 0 ∷ [])

abbrev note : PathBuf
note = (b'a' ∷ []) ∷ []

-- Its capture stores the fixed tree; it writes a tree as one file beside the metadata directory.
abbrev pub fixed : Materializer
fixed = record {
  capture_tree_with_hints = λ hints disk.
      (ok captured, (put_object hash (objects_dir era_dir) disk tree (repeat 32 0) tree_bytes).1);
  materialize_tree = λ id disk. (ok tt, set_file disk note id);
}

pub capture-Quiet :
    (disk : Disk)
    → Quiet era_dir disk
        (put_object hash (objects_dir era_dir) disk tree (repeat 32 0) tree_bytes).1
capture-Quiet disk = put_object-Quiet hash era_dir disk tree (repeat 32 0) tree_bytes

-- A file of the working directory is no file of the metadata directory.
beside :
    (disk : Disk) (rest : PathBuf) (id : ObjectId)
    → set_file disk note id (era_dir ++ rest) ≡ disk (era_dir ++ rest)
unfolding bytes_eq
beside disk rest id = refl

pub write-Quiet : (disk : Disk) (id : ObjectId) → Quiet era_dir disk (set_file disk note id)
unfolding head_path
write-Quiet disk id = record {
  objects = λ kind x bytes h.
      let (rest, e) = object_path-objects_dir era_dir kind x in
      subst (λ (p : PathBuf). set_file disk note id p ≡ ok bytes) (sym e)
        (beside disk (objects_dir_name ∷ rest) id ∙ subst (λ (p : PathBuf). disk p ≡ ok bytes) e h);
  refs = λ rest. beside disk (refs_dir_name ∷ rest) id;
  head = beside disk (head_file_name ∷ []) id;
}

first_put : put_snapshot hash (objects_dir era_dir) empty first ≡ (
  ok first_id,
  set_file empty (object_path (objects_dir era_dir) snapshot first_id) (to_canonical_bytes first),
)
unfolding put_snapshot try_exists
first_put =
    put_object_absent hash (objects_dir era_dir) empty snapshot first_id (to_canonical_bytes first)
      refl

first_read : get_snapshot hash (objects_dir era_dir) stored_first first_id ≡ ok first
first_read =
    let (_, e) =
      get_snapshot-put_snapshot hash (objects_dir era_dir) empty first first_id first-Storable.valid
        first-Storable.fits first-Storable.unique
        (ap (λ (x : Result ObjectStoreError ObjectId × Disk). x.0) first_put) in
    e

empty-HasRefs : HasRefs hash era_dir empty
unfolding read_cursor_ref
empty-HasRefs (branch_cursor b) = inl (read_branch_ref_missing era_dir empty b refl)
empty-HasRefs (workspace_cursor w) = inl (read_workspace_ref_missing era_dir empty w refl)

pub hash-IsHash : IsHash hash
hash-IsHash = pick-IsHash (to_canonical_bytes first) (to_canonical_bytes second)

pub small-HasRefs : HasRefs hash era_dir small
unfolding IsRepository
small-HasRefs =
    (IsRepository-write_cursor_ref hash era_dir (λ _. ⊥) stored_first (workspace_cursor dev)
      first_id first (hash-IsHash (to_canonical_bytes first)) first_read
      (IsRepository-Quiet hash era_dir (λ _. ⊥) empty stored_first
        (put_snapshot-Quiet hash era_dir empty first) (empty-HasRefs, λ _ h. absurd h))).0

pub small_ref : read_cursor_ref era_dir (workspace_cursor dev) small ≡ ok first_id
small_ref =
    read_cursor_ref-write_cursor_ref era_dir stored_first (workspace_cursor dev) first_id
      (hash-IsHash (to_canonical_bytes first))

pub small-first : get_snapshot hash (objects_dir era_dir) small first_id ≡ ok first
small-first =
    get_snapshot-KeepsObjects hash (objects_dir era_dir) stored_first small first_id first
      (write_cursor_ref-Written era_dir stored_first (workspace_cursor dev) first_id).objects
      first_read

pub first_id_ones : first_id ≡ repeat 32 1
first_id_ones = rw (bytes_eq_refl (to_canonical_bytes first)) refl

second_absent :
    try_exists small (object_path (objects_dir era_dir) snapshot (hash (to_canonical_bytes second)))
    ≡ false
unfolding write_cursor_ref try_exists object_path object_dir objects_dir to_hex hex_pair hex_digit
    shard_prefix write_workspace_ref write_text_file_atomic workspace_ref_path bytes_eq
    to_canonical_bytes to_be_bytes write_u32 write_u64 write_string write_optional_string
    write_parents write_attributes
second_absent =
    ap
      (λ (x : Result ObjectStoreError ObjectId × Disk).
        try_exists (write_cursor_ref era_dir (workspace_cursor dev) first_id x.1)
          (object_path (objects_dir era_dir) snapshot (hash (to_canonical_bytes second))))
      first_put

tree_absent : try_exists small (object_path (objects_dir era_dir) tree (repeat 32 0)) ≡ false
unfolding write_cursor_ref try_exists object_path object_dir objects_dir to_hex hex_pair hex_digit
    shard_prefix write_workspace_ref write_text_file_atomic workspace_ref_path bytes_eq
    to_canonical_bytes to_be_bytes write_u32 write_u64 write_string write_optional_string
    write_parents write_attributes
tree_absent =
    ap
      (λ (x : Result ObjectStoreError ObjectId × Disk).
        try_exists (write_cursor_ref era_dir (workspace_cursor dev) first_id x.1)
          (object_path (objects_dir era_dir) tree (repeat 32 0)))
      first_put

-- The tree that is stored is not at the path of the snapshot.
passed_absent :
    try_exists
      (set_file small (object_path (objects_dir era_dir) tree (repeat 32 0)) tree_bytes)
      (object_path (objects_dir era_dir) snapshot (hash (to_canonical_bytes second)))
    ≡ false
unfolding try_exists object_path object_dir objects_dir to_hex hex_pair hex_digit shard_prefix
    bytes_eq to_canonical_bytes to_be_bytes write_u32 write_u64 write_string write_optional_string
    write_parents write_attributes
passed_absent = second_absent

pub still_absent :
    try_exists
      (put_object hash (objects_dir era_dir) small tree (repeat 32 0) tree_bytes).1
      (object_path (objects_dir era_dir) snapshot (hash (to_canonical_bytes second)))
    ≡ false
still_absent =
    ap
      (λ (x : Result ObjectStoreError ObjectId × Disk).
        try_exists x.1
          (object_path (objects_dir era_dir) snapshot (hash (to_canonical_bytes second))))
      (put_object_absent hash (objects_dir era_dir) small tree (repeat 32 0) tree_bytes tree_absent)
    ∙ passed_absent
