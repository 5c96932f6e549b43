-- ===== src/Repository/Snapshots/Cursors.antt =====
-- The cursor of a handle in crates/repository/src/repository.rs, and the refs that all handles share.
use era.ObjectStore.Local.Blobs.{KeepsObjects}
use era.Base.{
  Bool-cases, Bytes, Result, ok, err, ◌>>=◌, ◌≡◌, refl, sym, ap, ◌∙◌, subst, ◌≢◌, ◌⊎◌, inl, inr,
  ◌∷◌, ◌++◌,
}
use era.Base.ByteOrder.{bytes_eq, bytes_eq_iff}
use era.Core.Tree.Names.{bytes_eq-ne}
use era.Core.ObjectId.{ObjectId, IsObjectId}
use era.Core.Snapshot.{Snapshot}
use era.ObjectStore.Disk.{PathBuf, Disk}
use era.ObjectStore.Local.{get_snapshot}
use era.ObjectStore.Local.Stored.{get_snapshot-KeepsObjects}
use era.Repository.Error.{RepositoryError, ref_missing}
use era.Repository.Refs.{refs_dir_name, objects_dir, branch_ref_path, workspace_ref_path}
use era.Repository.Refs.RoundTrip.{
  read_branch_ref-IsObjectId, read_workspace_ref-IsObjectId, read_branch_ref-write_branch_ref,
  read_workspace_ref-write_workspace_ref,
}
use era.Repository.Refs.Quiet.{
  Quiet, read_head_branch-Quiet, read_branch_ref_same_refs, read_workspace_ref_same_refs, Written,
  write_branch_ref-Written, write_workspace_ref-Written, read_branch_ref-write_branch_ref_other,
  read_workspace_ref-write_workspace_ref_other, read_workspace_ref-write_branch_ref,
  read_branch_ref-write_workspace_ref,
}
use era.Repository.Snapshots.{
  RepositoryCursor, current_branch, own_workspace, CursorReference, branch_cursor, workspace_cursor,
  read_cursor_ref, write_cursor_ref, current_cursor_reference,
}

cursor-cases : (a b : CursorReference) → (a ≡ b) ⊎ (a ≢ b)
cursor-cases (branch_cursor a) (branch_cursor b) = elim (Bool-cases (bytes_eq a b)) [
  | inl same ↦ inl (ap branch_cursor ((bytes_eq_iff a b).0 same))
  | inr other ↦ inr (λ e. bytes_eq-ne a b other (cc))
]
cursor-cases (workspace_cursor a) (workspace_cursor b) = elim (Bool-cases (bytes_eq a b)) [
  | inl same ↦ inl (ap workspace_cursor ((bytes_eq_iff a b).0 same))
  | inr other ↦ inr (λ e. bytes_eq-ne a b other (cc))
]
cursor-cases (branch_cursor a) (workspace_cursor b) = inr (λ e. cc)
cursor-cases (workspace_cursor a) (branch_cursor b) = inr (λ e. cc)

module _ (m : PathBuf) where
  pub read_cursor_ref_same_refs :
      (disk after : Disk) (reference : CursorReference)
      → ((rest : PathBuf)
          → after (m ++ (refs_dir_name ∷ rest)) ≡ disk (m ++ (refs_dir_name ∷ rest)))
      → read_cursor_ref m reference after ≡ read_cursor_ref m reference disk
  unfolding read_cursor_ref
  read_cursor_ref_same_refs disk after (branch_cursor b) same =
      read_branch_ref_same_refs m disk after b same
  read_cursor_ref_same_refs disk after (workspace_cursor w) same =
      read_workspace_ref_same_refs m disk after w same

  -- A ref that can be read holds an identifier.
  pub read_cursor_ref-IsObjectId :
      (disk : Disk) (reference : CursorReference) (id : ObjectId)
      → read_cursor_ref m reference disk ≡ ok id
      → IsObjectId id
  unfolding read_cursor_ref
  read_cursor_ref-IsObjectId disk (branch_cursor b) id h = read_branch_ref-IsObjectId m disk b id h
  read_cursor_ref-IsObjectId disk (workspace_cursor w) id h =
      read_workspace_ref-IsObjectId m disk w id h

  pub read_cursor_ref-write_cursor_ref :
      (disk : Disk) (reference : CursorReference) (id : ObjectId)
      → IsObjectId id
      → read_cursor_ref m reference (write_cursor_ref m reference id disk) ≡ ok id
  unfolding read_cursor_ref write_cursor_ref
  read_cursor_ref-write_cursor_ref disk (branch_cursor b) id v =
      read_branch_ref-write_branch_ref m disk b id v
  read_cursor_ref-write_cursor_ref disk (workspace_cursor w) id v =
      read_workspace_ref-write_workspace_ref m disk w id v

  pub write_cursor_ref-Written :
      (disk : Disk) (reference : CursorReference) (id : ObjectId)
      → Written m disk (write_cursor_ref m reference id disk)
  unfolding write_cursor_ref
  write_cursor_ref-Written disk (branch_cursor b) id = write_branch_ref-Written m disk b id
  write_cursor_ref-Written disk (workspace_cursor w) id = write_workspace_ref-Written m disk w id

  -- The refs that are not written stay.
  pub read_cursor_ref-write_cursor_ref_other :
      (disk : Disk) (reference other : CursorReference) (id : ObjectId)
      → other ≢ reference
      → read_cursor_ref m other (write_cursor_ref m reference id disk)
        ≡ read_cursor_ref m other disk
  unfolding read_cursor_ref write_cursor_ref
  read_cursor_ref-write_cursor_ref_other disk (branch_cursor b) (branch_cursor c) id n =
      read_branch_ref-write_branch_ref_other m disk b c id (λ e. n (ap branch_cursor e))
  read_cursor_ref-write_cursor_ref_other disk (branch_cursor b) (workspace_cursor w) id n =
      read_workspace_ref-write_branch_ref m disk b w id
  read_cursor_ref-write_cursor_ref_other disk (workspace_cursor w) (branch_cursor b) id n =
      read_branch_ref-write_workspace_ref m disk w b id
  read_cursor_ref-write_cursor_ref_other disk (workspace_cursor w) (workspace_cursor v) id n =
      read_workspace_ref-write_workspace_ref_other m disk w v id (λ e. n (ap workspace_cursor e))

abbrev pub cursor_ref_path : PathBuf → CursorReference → PathBuf
cursor_ref_path m (branch_cursor branch) = branch_ref_path m branch
cursor_ref_path m (workspace_cursor workspace) = workspace_ref_path m workspace

-- The branch or workspace has no ref.
abbrev pub HasNoRef : PathBuf → CursorReference → Disk → Type 0
HasNoRef m reference disk =
    read_cursor_ref m reference disk ≡ err (ref_missing (cursor_ref_path m reference))

module _ (hash : Bytes → ObjectId) (m : PathBuf) where
  -- The ref can be read, and the snapshot that it points at too.
  pub record Points (reference : CursorReference) (disk : Disk) : Type 0 where
    pub id : ObjectId
    pub reads_as : read_cursor_ref m reference disk ≡ ok id
    pub snapshot : Snapshot
    pub stored : get_snapshot hash (objects_dir m) disk id ≡ ok snapshot

  -- Every branch and workspace has no ref, or one that points at a stored snapshot.
  abbrev pub HasRefs : Disk → Type 0
  HasRefs disk = (reference : CursorReference) → HasNoRef m reference disk ⊎ Points reference disk

  module _ (must : CursorReference → Type 0) where
    -- The refs stand, and those that must be there are.
    unfoldable pub IsRepository : Disk → Type 0
    IsRepository disk =
        HasRefs disk × ((reference : CursorReference) → must reference → Points reference disk)

    Points-same_refs :
        (disk after : Disk) (reference : CursorReference)
        → KeepsObjects (objects_dir m) disk after
        → read_cursor_ref m reference after ≡ read_cursor_ref m reference disk
        → Points reference disk
        → Points reference after
    Points-same_refs disk after reference keeps same p = record {
      id = p.id;
      reads_as = same ∙ p.reads_as;
      snapshot = p.snapshot;
      stored =
          get_snapshot-KeepsObjects hash (objects_dir m) disk after p.id p.snapshot keeps p.stored;
    }

    -- A ref that reads as before is missing or points as before.
    HasRefs-same_refs :
        (disk after : Disk) (reference : CursorReference)
        → KeepsObjects (objects_dir m) disk after
        → read_cursor_ref m reference after ≡ read_cursor_ref m reference disk
        → HasNoRef m reference disk ⊎ Points reference disk
        → HasNoRef m reference after ⊎ Points reference after
    HasRefs-same_refs disk after reference keeps same (inl missing) = inl (same ∙ missing)
    HasRefs-same_refs disk after reference keeps same (inr p) =
        inr (Points-same_refs disk after reference keeps same p)

    pub IsRepository-same_refs :
        (disk after : Disk)
        → KeepsObjects (objects_dir m) disk after
        → ((rest : PathBuf)
            → after (m ++ (refs_dir_name ∷ rest)) ≡ disk (m ++ (refs_dir_name ∷ rest)))
        → IsRepository disk
        → IsRepository after
    unfolding IsRepository
    IsRepository-same_refs disk after keeps same (refs, kept) =
        let reads_same = λ (r : CursorReference). read_cursor_ref_same_refs m disk after r same in
        (
          λ r. HasRefs-same_refs disk after r keeps (reads_same r) (refs r),
          λ r h. Points-same_refs disk after r keeps (reads_same r) (kept r h),
        )

    pub IsRepository-Quiet :
        (disk after : Disk) → Quiet m disk after → IsRepository disk → IsRepository after
    IsRepository-Quiet disk after q w = IsRepository-same_refs disk after q.objects q.refs w

    -- A ref that can be read points at a stored snapshot.
    pub IsRepository-stored :
        (disk : Disk) (reference : CursorReference) (id : ObjectId)
        → IsRepository disk
        → read_cursor_ref m reference disk ≡ ok id
        → (s : Snapshot) × (get_snapshot hash (objects_dir m) disk id ≡ ok s)
    unfolding IsRepository
    IsRepository-stored disk reference id w h = elim (w.0 reference) [
      | inl missing ↦ absurd (refused (sym missing ∙ h))
      | inr p ↦ (
        p.snapshot,
        subst (λ (i : ObjectId). get_snapshot hash (objects_dir m) disk i ≡ ok p.snapshot)
            (accepted (sym p.reads_as ∙ h)) p.stored,
      )
    ]
      where
        refused :
            {e : RepositoryError} → ◌≡◌ {A = Result RepositoryError ObjectId} (err e) (ok id) → ⊥
        refused h = cc

        accepted :
            {x y : ObjectId} → ◌≡◌ {A = Result RepositoryError ObjectId} (ok x) (ok y) → x ≡ y
        accepted h = cc

    -- Pointing a ref at a stored snapshot keeps the invariant.
    pub IsRepository-write_cursor_ref :
        (disk : Disk) (reference : CursorReference) (id : ObjectId) (s : Snapshot)
        → IsObjectId id
        → get_snapshot hash (objects_dir m) disk id ≡ ok s
        → IsRepository disk
        → IsRepository (write_cursor_ref m reference id disk)
    unfolding IsRepository
    IsRepository-write_cursor_ref disk reference id s v e (refs, kept) = (
      λ other. elim (cursor-cases other reference) [
        | inl same ↦ inr (
            subst (λ (r : CursorReference). Points r (write_cursor_ref m reference id disk))
              (sym same) moved)
        | inr differ ↦
            HasRefs-same_refs disk (write_cursor_ref m reference id disk) other keeps
              (still other differ) (refs other)
      ],
      λ other h. elim (cursor-cases other reference) [
        | inl same ↦
            subst (λ (r : CursorReference). Points r (write_cursor_ref m reference id disk))
              (sym same) moved
        | inr differ ↦
            Points-same_refs disk (write_cursor_ref m reference id disk) other keeps
              (still other differ) (kept other h)
      ],
    )
      where
        keeps : KeepsObjects (objects_dir m) disk (write_cursor_ref m reference id disk)
        keeps = (write_cursor_ref-Written m disk reference id).objects

        still :
            (other : CursorReference)
            → other ≢ reference
            → read_cursor_ref m other (write_cursor_ref m reference id disk)
              ≡ read_cursor_ref m other disk
        still other n = read_cursor_ref-write_cursor_ref_other m disk reference other id n

        moved : Points reference (write_cursor_ref m reference id disk)
        moved = record {
          id = id;
          reads_as = read_cursor_ref-write_cursor_ref m disk reference id v;
          snapshot = s;
          stored =
              get_snapshot-KeepsObjects hash (objects_dir m) disk
                (write_cursor_ref m reference id disk) id s keeps e;
        }

module _ (hash : Bytes → ObjectId) (m : PathBuf) (cursor : RepositoryCursor) where
  pub current_cursor_reference-Quiet :
      (disk after : Disk)
      → Quiet m disk after
      → current_cursor_reference hash m cursor after ≡ current_cursor_reference hash m cursor disk
  unfolding current_cursor_reference
  current_cursor_reference-Quiet disk after q =
      elim cursor
        as (λ k. current_cursor_reference hash m k after ≡ current_cursor_reference hash m k disk) [
          | current_branch ↦
              ap (λ (r : Result RepositoryError Bytes). r >>= λ branch. ok (branch_cursor branch))
                (read_head_branch-Quiet m disk after q)
          | own_workspace w ↦ refl
        ]
