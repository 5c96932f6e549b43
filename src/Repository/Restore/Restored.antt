-- ===== src/Repository/Restore/Restored.antt =====
-- Resolving a target and restoring it, in crates/repository/src/repository.rs.
use era.Base.ByteOrder.{bytes_eq}
use era.Base.{
  if◌then◌else◌, Bool, Bool-cases, Bytes, All, Result, ok, ◌>>=◌, Result-cases, map_err, bind-eq-ok,
  ◌≡◌, sym, ap, ◌∙◌, subst, inl, inr, not, ◌&&◌, Option, none, some, List, [], ◌∷◌,
}
use era.Core.ObjectId.{ObjectId, IsObjectId, from_hex}
use era.Core.ObjectId.Parse.{from_hex-ok}
use era.ObjectStore.Disk.{PathBuf, Disk}
use era.ObjectStore.Local.{snapshot, contains}
use era.Repository.Branch.{new_branch_name}
use era.Repository.Workspace.{new_workspace_id}
use era.Repository.Error.{RepositoryError, object_store}
use era.Repository.Refs.{
  objects_dir, branch_ref_exists, read_branch_ref, write_snapshot_index_entry,
  mark_snapshot_index_complete, snapshot_index_complete_exists, workspace_ref_exists,
  read_workspace_ref,
}
use era.Repository.Refs.RoundTrip.{read_branch_ref-IsObjectId, read_workspace_ref-IsObjectId}
use era.Repository.Refs.Quiet.{
  Quiet, Quiet-refl, Quiet-trans, write_snapshot_index_entry-Quiet,
  mark_snapshot_index_complete-Quiet,
}
use era.Repository.Snapshots.{RepositoryCursor, Action, ◌>>!◌, reads, writes}
use era.Repository.Snapshots.Stores.{after-bind, bind-ok}
use era.Repository.Restore.{
  TimelineEntry, sort_entries, all_hex, match_entries, only_match, write_index_entries,
  ensure_snapshot_index_complete, load_entries, all_snapshot_entries, search_entries, resolve_id,
  resolve_full_id, resolve_branch, resolve_workspace, or_else, resolve_snapshot_target,
}
use era.Repository.Restore.Keeps.{
  sort_entries-All, match_entries-All, only_match-P, IsListing, Stands, resolve_id-Stands,
  load_entries-Stands,
}

abbrev Resolution : Type 0
Resolution = Result RepositoryError (Option TimelineEntry)

none-some : {e : TimelineEntry} → ◌≡◌ {A = Resolution} (ok none) (ok (some e)) → ⊥
none-some h = cc

some-some : {e f : TimelineEntry} → ◌≡◌ {A = Resolution} (ok (some e)) (ok (some f)) → e ≡ f
some-some h = cc

module _ (hash : Bytes → ObjectId) (m : PathBuf) (cursor : RepositoryCursor)
    (list_snapshot_ids list_snapshot_index_ids : Disk
      → Result RepositoryError (List ObjectId)) where
  abbrev IsStored : Disk → TimelineEntry → Type 0
  IsStored = Stands hash m cursor list_snapshot_ids list_snapshot_index_ids

  resolve_some :
      (id : ObjectId) (disk : Disk) (e : TimelineEntry)
      → IsObjectId id
      → (resolve_id hash m cursor list_snapshot_ids list_snapshot_index_ids id disk >>= λ x.
          ok (some x))
        ≡ ok (some e)
      → IsStored disk e
  resolve_some id disk e v h =
      let (f, h1, h2) =
        bind-eq-ok (resolve_id hash m cursor list_snapshot_ids list_snapshot_index_ids id disk) _
          h in
      subst (IsStored disk) (some-some h2)
        (resolve_id-Stands hash m cursor list_snapshot_ids list_snapshot_index_ids id disk f v h1)

  resolve_full_id-Stands :
      (target : Bytes) (disk : Disk) (e : TimelineEntry)
      → resolve_full_id hash m cursor list_snapshot_ids list_snapshot_index_ids target disk
        ≡ ok (some e)
      → IsStored disk e
  unfolding resolve_full_id
  resolve_full_id-Stands target disk e h = elim (Result-cases (from_hex target)) [
    | inr (x, f) ↦ absurd (none-some (rw (f, resolve_full_id) at h))
    | inl (id, f) ↦
        let (present, h1, h2) =
          bind-eq-ok (map_err object_store (contains hash (objects_dir m) disk snapshot id)) _
            (rw (f, resolve_full_id) at h) in
        elim (Bool-cases present) [
          | inl there ↦ resolve_some id disk e (from_hex-ok target f).0 (rw there at h2)
          | inr missing ↦ absurd (none-some (rw missing at h2))
        ]
  ]

  resolve_branch-Stands :
      (target : Bytes) (disk : Disk) (e : TimelineEntry)
      → resolve_branch hash m cursor list_snapshot_ids list_snapshot_index_ids target disk
        ≡ ok (some e)
      → IsStored disk e
  unfolding resolve_branch
  resolve_branch-Stands target disk e h = elim (Result-cases (new_branch_name target)) [
    | inr (x, f) ↦ absurd (none-some (rw (f, resolve_branch) at h))
    | inl (branch, f) ↦
        let (there, _, h1) =
          bind-eq-ok (branch_ref_exists m disk branch) _ (rw (f, resolve_branch) at h) in
        elim (Bool-cases there) [
          | inr missing ↦ absurd (none-some (rw missing at h1))
          | inl found ↦
              let (id, h2, h3) = bind-eq-ok (read_branch_ref m disk branch) _ (rw found at h1) in
              resolve_some id disk e (read_branch_ref-IsObjectId m disk branch id h2) h3
        ]
  ]

  resolve_workspace-Stands :
      (target : Bytes) (disk : Disk) (e : TimelineEntry)
      → resolve_workspace hash m cursor list_snapshot_ids list_snapshot_index_ids target disk
        ≡ ok (some e)
      → IsStored disk e
  unfolding resolve_workspace
  resolve_workspace-Stands target disk e h = elim (Result-cases (new_workspace_id target)) [
    | inr (x, f) ↦ absurd (none-some (rw (f, resolve_workspace) at h))
    | inl (workspace, f) ↦
        let (there, _, h1) =
          bind-eq-ok (workspace_ref_exists m disk workspace) _ (rw (f, resolve_workspace) at h) in
        elim (Bool-cases there) [
          | inr missing ↦ absurd (none-some (rw missing at h1))
          | inl found ↦
              let (id, h2, h3) =
                bind-eq-ok (read_workspace_ref m disk workspace) _ (rw found at h1) in
              resolve_some id disk e (read_workspace_ref-IsObjectId m disk workspace id h2) h3
        ]
  ]

  -- It leaves refs and objects alone, and what it finds is stored.
  pub record Resolves (a : Action TimelineEntry) : Type 0 where
    pub quiet : (disk : Disk) → Quiet m disk (a disk).1
    pub stands : (disk : Disk) (e : TimelineEntry) → (a disk).0 ≡ ok e → IsStored (a disk).1 e

  or_else-Resolves :
      (f : Disk → Resolution) (next : Action TimelineEntry)
      → ((disk : Disk) (e : TimelineEntry) → f disk ≡ ok (some e) → IsStored disk e)
      → Resolves next
      → Resolves
          (reads f >>! λ o. or_else hash m cursor list_snapshot_ids list_snapshot_index_ids o next)
  unfolding or_else reads ◌>>!◌
  or_else-Resolves f next w r = record {
    quiet = λ disk.
        after-bind (Quiet m disk) (reads f)
          (λ o. or_else hash m cursor list_snapshot_ids list_snapshot_index_ids o next) disk
          (Quiet-refl m disk) (λ o _. kept disk o);
    stands = λ disk e h.
        let (o, e1, e2, e3) =
          bind-ok (reads f)
            (λ o. or_else hash m cursor list_snapshot_ids list_snapshot_index_ids o next) disk e
            h in
        subst (λ (d : Disk). IsStored d e)
          (sym (ap (λ (x : Result RepositoryError TimelineEntry × Disk). x.1) e2))
          (found disk e o e1 e3);
  }
    where
      kept :
          (disk : Disk) (o : Option TimelineEntry)
          → Quiet m disk
              (or_else hash m cursor list_snapshot_ids list_snapshot_index_ids o next disk).1
      kept disk none = r.quiet disk
      kept disk (some e) = Quiet-refl m disk

      accepted :
          {x y : TimelineEntry}
          → ◌≡◌ {A = Result RepositoryError TimelineEntry} (ok x) (ok y)
          → x ≡ y
      accepted h = cc

      found :
          (disk : Disk) (e : TimelineEntry) (o : Option TimelineEntry)
          → f disk ≡ ok o
          → (or_else hash m cursor list_snapshot_ids list_snapshot_index_ids o next disk).0 ≡ ok e
          → IsStored
              (or_else hash m cursor list_snapshot_ids list_snapshot_index_ids o next disk).1
              e
      found disk e none h k = r.stands disk e k
      found disk e (some x) h k = subst (IsStored disk) (accepted k) (w disk x h)

  write_index_entries-Quiet :
      (ids : List ObjectId) (disk : Disk)
      → Quiet m disk
          (write_index_entries hash m cursor list_snapshot_ids list_snapshot_index_ids ids disk)
  unfolding write_index_entries
  write_index_entries-Quiet [] disk = Quiet-refl m disk
  write_index_entries-Quiet (id ∷ ids) disk =
      Quiet-trans m (write_snapshot_index_entry-Quiet m disk id)
        (write_index_entries-Quiet ids (write_snapshot_index_entry m disk id))

  ensure_snapshot_index_complete-Quiet :
      (disk : Disk)
      → Quiet m disk
          (ensure_snapshot_index_complete hash m cursor list_snapshot_ids list_snapshot_index_ids
            disk).1
  unfolding ensure_snapshot_index_complete reads writes ◌>>!◌
  ensure_snapshot_index_complete-Quiet disk =
      after-bind (Quiet m disk) (reads (snapshot_index_complete_exists m)) fill disk
        (Quiet-refl m disk)
        (λ complete _. elim (Bool-cases complete) [
          | inl there ↦ rw (there) (Quiet-refl m disk)
          | inr missing ↦ rw (missing) (
              after-bind (Quiet m disk) (reads list_snapshot_ids) finish disk (Quiet-refl m disk)
                (λ ids _. Quiet-trans m (write_index_entries-Quiet ids disk) (
                  mark_snapshot_index_complete-Quiet m (
                    write_index_entries hash m cursor list_snapshot_ids list_snapshot_index_ids ids
                      disk))))
        ])
    where
      finish : List ObjectId → Action (Unit {0})
      finish ids =
          writes (write_index_entries hash m cursor list_snapshot_ids list_snapshot_index_ids ids)
          >>! λ _. writes (mark_snapshot_index_complete m)

      fill : Bool → Action (Unit {0})
      fill complete = if complete then reads (λ _. ok tt) else reads list_snapshot_ids >>! finish

  all_snapshot_entries-Quiet :
      (disk : Disk)
      → Quiet m disk
          (all_snapshot_entries hash m cursor list_snapshot_ids list_snapshot_index_ids disk).1
  unfolding all_snapshot_entries reads ◌>>!◌
  all_snapshot_entries-Quiet disk =
      let ensure =
        ensure_snapshot_index_complete hash m cursor list_snapshot_ids list_snapshot_index_ids in
      let done = (ensure disk).1 in
      let q = ensure_snapshot_index_complete-Quiet disk in
      after-bind (Quiet m disk) ensure (λ _. reads list_snapshot_index_ids >>! load) disk q
        (λ _ _. after-bind (Quiet m disk) (reads list_snapshot_index_ids) load done q (λ ids _.
          after-bind (Quiet m disk)
            (reads (load_entries hash m cursor list_snapshot_ids list_snapshot_index_ids ids))
            (λ entries. reads (λ _. ok (sort_entries entries))) done q (λ _ _. q)))
    where
      load : List ObjectId → Action (List TimelineEntry)
      load ids =
          reads (load_entries hash m cursor list_snapshot_ids list_snapshot_index_ids ids)
          >>! λ entries. reads (λ _. ok (sort_entries entries))

  all_snapshot_entries-Stands :
      (disk : Disk) (entries : List TimelineEntry)
      → IsListing list_snapshot_index_ids
      → (all_snapshot_entries hash m cursor list_snapshot_ids list_snapshot_index_ids disk).0
        ≡ ok entries
      → All
          (IsStored
            (all_snapshot_entries hash m cursor list_snapshot_ids list_snapshot_index_ids disk).1)
          entries
  unfolding all_snapshot_entries reads ◌>>!◌
  all_snapshot_entries-Stands disk entries w h =
      let ensure =
        ensure_snapshot_index_complete hash m cursor list_snapshot_ids list_snapshot_index_ids in
      let done = (ensure disk).1 in
      let (_, e1, s1, h1) =
        bind-ok ensure (λ _. reads list_snapshot_index_ids >>! load) disk entries h in
      let (ids, e2, s2, h2) = bind-ok (reads list_snapshot_index_ids) load done entries h1 in
      let (loaded, e3, s3, h3) =
        bind-ok (reads (load_entries hash m cursor list_snapshot_ids list_snapshot_index_ids ids))
          (λ es. reads (λ _. ok (sort_entries es))) done entries h2 in
      let stored =
        load_entries-Stands hash m cursor list_snapshot_ids list_snapshot_index_ids ids done loaded
          (w done ids e2) e3 in
      subst (λ (d : Disk). All (IsStored d) entries)
        (sym (ap (λ (x : Result RepositoryError (List TimelineEntry) × Disk). x.1) (s1 ∙ s2 ∙ s3)))
        (subst (All (IsStored done)) (accepted h3) (sort_entries-All (IsStored done) loaded stored))
    where
      load : List ObjectId → Action (List TimelineEntry)
      load ids =
          reads (load_entries hash m cursor list_snapshot_ids list_snapshot_index_ids ids)
          >>! λ entries. reads (λ _. ok (sort_entries entries))

      accepted :
          {x y : List TimelineEntry}
          → ◌≡◌ {A = Result RepositoryError (List TimelineEntry)} (ok x) (ok y)
          → x ≡ y
      accepted h = cc

  search_entries-Resolves :
      (target : Bytes)
      → IsListing list_snapshot_index_ids
      → Resolves (search_entries hash m cursor list_snapshot_ids list_snapshot_index_ids target)
  unfolding search_entries reads ◌>>!◌
  search_entries-Resolves target w =
      let all = all_snapshot_entries hash m cursor list_snapshot_ids list_snapshot_index_ids in
      record {
        quiet = λ disk.
            after-bind (Quiet m disk) all pick disk (all_snapshot_entries-Quiet disk)
              (λ _ _. all_snapshot_entries-Quiet disk);
        stands = λ disk e h.
            let (entries, e1, s1, h1) = bind-ok all pick disk e h in
            subst (λ (d : Disk). IsStored d e)
              (sym (ap (λ (x : Result RepositoryError TimelineEntry × Disk). x.1) s1))
              (only_match-P (IsStored (all disk).1) target _ e
                (match_entries-All (IsStored (all disk).1) target _ entries []
                  (all_snapshot_entries-Stands disk entries w e1) tt)
                h1);
      }
    where
      pick : List TimelineEntry → Action TimelineEntry
      pick entries = reads (λ _.
          only_match target
            (match_entries target (not (bytes_eq target []) && all_hex target) entries []))

  -- What a text resolves to, by its full identifier, as a branch, as a workspace or by a search, is a
  -- stored snapshot; HEAD, the refs and the objects stay.
  pub resolve_snapshot_target-Resolves :
      (target : Bytes)
      → IsListing list_snapshot_index_ids
      → Resolves
          (resolve_snapshot_target hash m cursor list_snapshot_ids list_snapshot_index_ids target)
  unfolding resolve_snapshot_target
  resolve_snapshot_target-Resolves target w =
      or_else-Resolves
        (resolve_full_id hash m cursor list_snapshot_ids list_snapshot_index_ids target) _
        (resolve_full_id-Stands target)
        (or_else-Resolves
          (resolve_branch hash m cursor list_snapshot_ids list_snapshot_index_ids target) _
          (resolve_branch-Stands target)
          (or_else-Resolves
            (resolve_workspace hash m cursor list_snapshot_ids list_snapshot_index_ids target) _
            (resolve_workspace-Stands target) (search_entries-Resolves target w)))
