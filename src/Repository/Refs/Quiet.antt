-- ===== src/Repository/Refs/Quiet.antt =====
-- What the writes of crates/repository/src/refs.rs leave alone.
use era.Base.{
  Result-cases, Bool-cases, Bytes, Result, ok, err, ◌>>=◌, ◌≡◌, refl, sym, ap, ◌∙◌, subst, ◌≢◌, ◌⊎◌,
  inl, inr, false, [], ◌∷◌, ◌++◌,
}
use era.Base.ByteOrder.{bytes_eq}
use era.Core.ObjectId.{ObjectId}
use era.Core.Snapshot.{Snapshot, to_canonical_bytes}
use era.ObjectStore.Disk.{PathBuf, not_found, Disk, try_exists, set_file}
use era.ObjectStore.Local.{
  ObjectKind, snapshot, ObjectStoreError, object_path, put_object, put_snapshot,
}
use era.ObjectStore.Local.Blobs.{KeepsObjects}
use era.ObjectStore.Local.Puts.{put_object_absent, put_object_present, put_object-Extends}
use era.Repository.Error.{RepositoryError, ref_missing, branch_already_exists}
use era.Repository.Refs.{
  objects_dir_name, head_file_name, refs_dir_name, heads_dir_name, workspaces_dir_name,
  index_dir_name, objects_dir, head_path, branch_ref_path, workspace_ref_path,
  snapshot_index_entry_path, snapshot_index_complete_path, parse_head, parse_ref, read_text_file,
  write_text_file_atomic, create_text_file_new, write_head, read_head_branch, create_branch_ref,
  write_branch_ref, path_exists, read_branch_ref, write_snapshot_index_entry,
  mark_snapshot_index_complete, write_workspace_ref, read_workspace_ref,
}
use era.Repository.Refs.Paths.{
  object_path-objects_dir, set_file-KeepsObjects, set_file_apart, set_file_sibling, set_file_cousin,
}

-- The objects of the first disk stand in the second; the refs and HEAD are the same.
pub record Quiet (m : PathBuf) (disk after : Disk) : Type 0 where
  pub objects : KeepsObjects (objects_dir m) disk after
  pub refs :
      (rest : PathBuf) → after (m ++ (refs_dir_name ∷ rest)) ≡ disk (m ++ (refs_dir_name ∷ rest))
  pub head : after (head_path m) ≡ disk (head_path m)

pub Quiet-refl : (m : PathBuf) (disk : Disk) → Quiet m disk disk
Quiet-refl m disk = record { objects = λ kind id bytes e. e; refs = λ rest. refl; head = refl }

pub Quiet-trans : (m : PathBuf) {a b c : Disk} → Quiet m a b → Quiet m b c → Quiet m a c
Quiet-trans m q r = record {
  objects = λ kind id bytes e. r.objects kind id bytes (q.objects kind id bytes e);
  refs = λ rest. r.refs rest ∙ q.refs rest;
  head = r.head ∙ q.head;
}

-- Writing under another directory than the refs, and not HEAD.
set_file-Quiet :
    (m : PathBuf) (disk : Disk) (name : Bytes) (rest : PathBuf) (contents : Bytes)
    → bytes_eq refs_dir_name name ≡ false
    → bytes_eq head_file_name name ≡ false
    → KeepsObjects (objects_dir m) disk (set_file disk (m ++ (name ∷ rest)) contents)
    → Quiet m disk (set_file disk (m ++ (name ∷ rest)) contents)
unfolding head_path
set_file-Quiet m disk name rest contents h k keeps = record {
  objects = keeps;
  refs = λ p. set_file_apart m disk refs_dir_name name p rest contents h;
  head = set_file_apart m disk head_file_name name [] rest contents k;
}

pub write_snapshot_index_entry-Quiet :
    (m : PathBuf) (disk : Disk) (id : ObjectId)
    → Quiet m disk (write_snapshot_index_entry m disk id)
unfolding write_snapshot_index_entry write_text_file_atomic snapshot_index_entry_path bytes_eq
write_snapshot_index_entry-Quiet m disk id =
    set_file-Quiet m disk index_dir_name _ _ refl refl
      (set_file-KeepsObjects m disk index_dir_name _ _ refl)

pub mark_snapshot_index_complete-Quiet :
    (m : PathBuf) (disk : Disk) → Quiet m disk (mark_snapshot_index_complete m disk)
unfolding mark_snapshot_index_complete write_text_file_atomic snapshot_index_complete_path bytes_eq
mark_snapshot_index_complete-Quiet m disk =
    set_file-Quiet m disk index_dir_name _ _ refl refl
      (set_file-KeepsObjects m disk index_dir_name _ _ refl)

pub put_object-Quiet :
    (hash : Bytes → ObjectId) (m : PathBuf) (disk : Disk) (kind : ObjectKind) (id : ObjectId)
    (bytes : Bytes)
    → Quiet m disk (put_object hash (objects_dir m) disk kind id bytes).1
unfolding bytes_eq
put_object-Quiet hash m disk kind id bytes =
    elim (Bool-cases (try_exists disk (object_path (objects_dir m) kind id))) [
      | inl there ↦
          subst (Quiet m disk)
            (sym (
              ap (λ (x : Result ObjectStoreError ObjectId × Disk). x.1)
                (put_object_present hash (objects_dir m) disk kind id bytes there)))
            (Quiet-refl m disk)
      | inr absent ↦
          let (under, e) = object_path-objects_dir m kind id in
          let after =
            ap (λ (x : Result ObjectStoreError ObjectId × Disk). x.1)
              (put_object_absent hash (objects_dir m) disk kind id bytes absent)
            ∙ ap (λ (p : PathBuf). set_file disk p bytes) e in
          subst (Quiet m disk) (sym after) (
            set_file-Quiet m disk objects_dir_name under bytes refl refl (
              subst (KeepsObjects (objects_dir m) disk) after (λ k i.
                put_object-Extends hash (objects_dir m) disk kind id bytes
                  (object_path (objects_dir m) k i))))
    ]

pub put_snapshot-Quiet :
    (hash : Bytes → ObjectId) (m : PathBuf) (disk : Disk) (s : Snapshot)
    → Quiet m disk (put_snapshot hash (objects_dir m) disk s).1
unfolding put_snapshot
put_snapshot-Quiet hash m disk s =
    put_object-Quiet hash m disk snapshot (hash (to_canonical_bytes s)) (to_canonical_bytes s)

read_text_file-same :
    (disk after : Disk) (path : PathBuf) (missing : RepositoryError)
    → after path ≡ disk path
    → read_text_file after path missing ≡ read_text_file disk path missing
unfolding read_text_file
read_text_file-same disk after path missing e = rw (e, read_text_file) refl

pub read_head_branch-Quiet :
    (m : PathBuf) (disk after : Disk)
    → Quiet m disk after
    → read_head_branch m after ≡ read_head_branch m disk
unfolding read_head_branch
read_head_branch-Quiet m disk after q =
    ap (λ (r : Result RepositoryError Bytes). r >>= λ contents. parse_head (head_path m) contents)
      (read_text_file-same disk after (head_path m) _ q.head)

read_branch_ref-same :
    (m : PathBuf) (disk after : Disk) (branch : Bytes)
    → after (branch_ref_path m branch) ≡ disk (branch_ref_path m branch)
    → read_branch_ref m after branch ≡ read_branch_ref m disk branch
unfolding read_branch_ref
read_branch_ref-same m disk after branch e =
    ap
      (λ (r : Result RepositoryError Bytes).
        r >>= λ contents. parse_ref (branch_ref_path m branch) contents)
      (read_text_file-same disk after (branch_ref_path m branch) _ e)

read_workspace_ref-same :
    (m : PathBuf) (disk after : Disk) (workspace : Bytes)
    → after (workspace_ref_path m workspace) ≡ disk (workspace_ref_path m workspace)
    → read_workspace_ref m after workspace ≡ read_workspace_ref m disk workspace
unfolding read_workspace_ref
read_workspace_ref-same m disk after workspace e =
    ap
      (λ (r : Result RepositoryError Bytes).
        r >>= λ contents. parse_ref (workspace_ref_path m workspace) contents)
      (read_text_file-same disk after (workspace_ref_path m workspace) _ e)

pub read_branch_ref_same_refs :
    (m : PathBuf) (disk after : Disk) (branch : Bytes)
    → ((rest : PathBuf) → after (m ++ (refs_dir_name ∷ rest)) ≡ disk (m ++ (refs_dir_name ∷ rest)))
    → read_branch_ref m after branch ≡ read_branch_ref m disk branch
unfolding branch_ref_path
read_branch_ref_same_refs m disk after branch same =
    read_branch_ref-same m disk after branch (same _)

pub read_workspace_ref_same_refs :
    (m : PathBuf) (disk after : Disk) (workspace : Bytes)
    → ((rest : PathBuf) → after (m ++ (refs_dir_name ∷ rest)) ≡ disk (m ++ (refs_dir_name ∷ rest)))
    → read_workspace_ref m after workspace ≡ read_workspace_ref m disk workspace
unfolding workspace_ref_path
read_workspace_ref_same_refs m disk after workspace same =
    read_workspace_ref-same m disk after workspace (same _)

-- One ref is written: objects, HEAD and the other refs stay.
pub record Written (m : PathBuf) (disk after : Disk) : Type 0 where
  pub objects : KeepsObjects (objects_dir m) disk after
  pub head : read_head_branch m after ≡ read_head_branch m disk

pub write_branch_ref-Written :
    (m : PathBuf) (disk : Disk) (branch : Bytes) (id : ObjectId)
    → Written m disk (write_branch_ref m disk branch id)
unfolding write_branch_ref write_text_file_atomic branch_ref_path head_path read_head_branch
    bytes_eq
write_branch_ref-Written m disk branch id = record {
  objects = set_file-KeepsObjects m disk refs_dir_name _ _ refl;
  head =
      ap (λ (r : Result RepositoryError Bytes). r >>= λ contents. parse_head (head_path m) contents)
        (read_text_file-same disk _ (head_path m) _
          (set_file_apart m disk head_file_name refs_dir_name [] _ _ refl));
}

pub write_workspace_ref-Written :
    (m : PathBuf) (disk : Disk) (workspace : Bytes) (id : ObjectId)
    → Written m disk (write_workspace_ref m disk workspace id)
unfolding write_workspace_ref write_text_file_atomic workspace_ref_path head_path read_head_branch
    bytes_eq
write_workspace_ref-Written m disk workspace id = record {
  objects = set_file-KeepsObjects m disk refs_dir_name _ _ refl;
  head =
      ap (λ (r : Result RepositoryError Bytes). r >>= λ contents. parse_head (head_path m) contents)
        (read_text_file-same disk _ (head_path m) _
          (set_file_apart m disk head_file_name refs_dir_name [] _ _ refl));
}

pub read_branch_ref-write_branch_ref_other :
    (m : PathBuf) (disk : Disk) (branch other : Bytes) (id : ObjectId)
    → other ≢ branch
    → read_branch_ref m (write_branch_ref m disk branch id) other ≡ read_branch_ref m disk other
unfolding write_branch_ref write_text_file_atomic branch_ref_path
read_branch_ref-write_branch_ref_other m disk branch other id n =
    read_branch_ref-same m disk _ other
      (set_file_sibling m disk refs_dir_name heads_dir_name other branch _ n)

pub read_workspace_ref-write_workspace_ref_other :
    (m : PathBuf) (disk : Disk) (workspace other : Bytes) (id : ObjectId)
    → other ≢ workspace
    → read_workspace_ref m (write_workspace_ref m disk workspace id) other
      ≡ read_workspace_ref m disk other
unfolding write_workspace_ref write_text_file_atomic workspace_ref_path
read_workspace_ref-write_workspace_ref_other m disk workspace other id n =
    read_workspace_ref-same m disk _ other
      (set_file_sibling m disk refs_dir_name workspaces_dir_name other workspace _ n)

pub read_workspace_ref-write_branch_ref :
    (m : PathBuf) (disk : Disk) (branch workspace : Bytes) (id : ObjectId)
    → read_workspace_ref m (write_branch_ref m disk branch id) workspace
      ≡ read_workspace_ref m disk workspace
unfolding write_branch_ref write_text_file_atomic branch_ref_path workspace_ref_path bytes_eq
read_workspace_ref-write_branch_ref m disk branch workspace id =
    read_workspace_ref-same m disk _ workspace
      (set_file_cousin m disk refs_dir_name workspaces_dir_name heads_dir_name _ _ _ refl)

pub read_branch_ref-write_workspace_ref :
    (m : PathBuf) (disk : Disk) (workspace branch : Bytes) (id : ObjectId)
    → read_branch_ref m (write_workspace_ref m disk workspace id) branch
      ≡ read_branch_ref m disk branch
unfolding write_workspace_ref write_text_file_atomic branch_ref_path workspace_ref_path bytes_eq
read_branch_ref-write_workspace_ref m disk workspace branch id =
    read_branch_ref-same m disk _ branch
      (set_file_cousin m disk refs_dir_name heads_dir_name workspaces_dir_name _ _ _ refl)

-- A new ref is either refused, or written as `write_branch_ref` writes it.
pub create_branch_ref-cases :
    (m : PathBuf) (disk : Disk) (branch : Bytes) (id : ObjectId)
    → ((e : RepositoryError) × (create_branch_ref m disk branch id ≡ (err e, disk)))
      ⊎ (create_branch_ref m disk branch id ≡ (ok tt, write_branch_ref m disk branch id))
unfolding create_branch_ref create_text_file_new write_branch_ref write_text_file_atomic
create_branch_ref-cases m disk branch id =
    elim (Result-cases (path_exists disk (branch_ref_path m branch))) [
      | inl (there, e) ↦ elim (Bool-cases there) [
        | inl stands ↦ inl (branch_already_exists branch, rw (e, stands, create_text_file_new) refl)
        | inr free ↦ inr (rw (e, free, create_text_file_new) refl)
      ]
      | inr (x, e) ↦ inl (x, rw (e, create_text_file_new) refl)
    ]

pub write_head_quiet :
    (m : PathBuf) (disk : Disk) (branch : Bytes)
    → KeepsObjects (objects_dir m) disk (write_head m disk branch)
      × ((rest : PathBuf)
          → write_head m disk branch (m ++ (refs_dir_name ∷ rest))
            ≡ disk (m ++ (refs_dir_name ∷ rest)))
unfolding write_head write_text_file_atomic head_path bytes_eq
write_head_quiet m disk branch = (
  set_file-KeepsObjects m disk head_file_name [] _ refl,
  λ rest. set_file_apart m disk refs_dir_name head_file_name rest [] _ refl,
)

read_text_file_missing :
    (disk : Disk) (path : PathBuf) (missing : RepositoryError)
    → disk path ≡ err not_found
    → read_text_file disk path missing ≡ err missing
unfolding read_text_file
read_text_file_missing disk path missing e = rw (e, read_text_file) refl

pub read_branch_ref_missing :
    (m : PathBuf) (disk : Disk) (branch : Bytes)
    → disk (branch_ref_path m branch) ≡ err not_found
    → read_branch_ref m disk branch ≡ err (ref_missing (branch_ref_path m branch))
unfolding read_branch_ref
read_branch_ref_missing m disk branch e =
    rw
      (
        read_text_file_missing disk (branch_ref_path m branch)
            (ref_missing (branch_ref_path m branch)) e,
        ◌>>=◌,
      )
      refl

pub read_workspace_ref_missing :
    (m : PathBuf) (disk : Disk) (workspace : Bytes)
    → disk (workspace_ref_path m workspace) ≡ err not_found
    → read_workspace_ref m disk workspace ≡ err (ref_missing (workspace_ref_path m workspace))
unfolding read_workspace_ref
read_workspace_ref_missing m disk workspace e =
    rw
      (
        read_text_file_missing disk (workspace_ref_path m workspace)
            (ref_missing (workspace_ref_path m workspace)) e,
        ◌>>=◌,
      )
      refl
