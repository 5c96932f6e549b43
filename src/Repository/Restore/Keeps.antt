-- ===== src/Repository/Restore/Keeps.antt =====
-- What `resolve_snapshot_target` finds is stored, and restoring keeps every ref on a stored snapshot.
use era.Base.{
  if◌then◌else◌, Bool-cases, Bytes, All, Result, ok, map_err, map_err-eq-ok, bind-eq-ok, ◌≡◌, subst,
  inl, inr, Bool, true, false, ◌&&◌, List, [], ◌∷◌,
}
use era.Base.ByteOrder.{bytes_cmp}
use era.Core.ObjectId.{ObjectId, IsObjectId, to_hex}
use era.Core.Snapshot.{Snapshot}
use era.ObjectStore.Disk.{PathBuf, Disk}
use era.ObjectStore.Local.{get_snapshot}
use era.Repository.Error.{RepositoryError, object_store}
use era.Repository.Refs.{objects_dir}
use era.Repository.Snapshots.{RepositoryCursor, read_snapshot}
use era.Repository.Restore.{
  TimelineEntry, entry_leb, insert_entry, sort_entries, insert_match, starts_with, has_message,
  match_entry, match_entries, only_match, load_entries, resolve_id,
}
use Prim.Native.Nat.{Ordering}

module _ (P : TimelineEntry → Type 0) where
  insert_entry-All :
      (e : TimelineEntry) (entries : List TimelineEntry)
      → P e
      → All P entries
      → All P (insert_entry e entries)
  unfolding insert_entry
  insert_entry-All e [] p h = (p, tt)
  insert_entry-All e (x ∷ entries) p (q, h) = elim (Bool-cases (entry_leb e x)) [
    | inl le ↦ rw (le, insert_entry) (p, (q, h))
    | inr gt ↦ rw (gt, insert_entry) (q, insert_entry-All e entries p h)
  ]

  pub sort_entries-All :
      (entries : List TimelineEntry) → All P entries → All P (sort_entries entries)
  unfolding sort_entries
  sort_entries-All [] h = tt
  sort_entries-All (e ∷ entries) (p, h) =
      insert_entry-All e (sort_entries entries) p (sort_entries-All entries h)

  insert_match-All :
      (e : TimelineEntry) (matches : List TimelineEntry)
      → P e
      → All P matches
      → All P (insert_match e matches)
  unfolding insert_match
  insert_match-All e [] p h = (p, tt)
  insert_match-All e (x ∷ matches) p (q, h) =
      go (bytes_cmp e.snapshot_id x.snapshot_id) (insert_match-All e matches p h)
    where
      go :
          (o : Ordering)
          → All P (insert_match e matches)
          → All P (elim o [
            | Ordering.lt ↦ e ∷ x ∷ matches
            | Ordering.eq ↦ e ∷ matches
            | Ordering.gt ↦ x ∷ insert_match e matches
          ])
      go Ordering.lt r = (p, (q, h))
      go Ordering.eq r = (p, h)
      go Ordering.gt r = (q, r)

  choose-All :
      (b : Bool) (xs ys : List TimelineEntry) → All P xs → All P ys → All P (if b then xs else ys)
  choose-All true xs ys h k = h
  choose-All false xs ys h k = k

  pub match_entries-All :
      (target : Bytes) (is_prefix : Bool) (entries matches : List TimelineEntry)
      → All P entries
      → All P matches
      → All P (match_entries target is_prefix entries matches)
  unfolding match_entries match_entry
  match_entries-All target is_prefix [] matches h k = k
  match_entries-All target is_prefix (e ∷ entries) matches (p, h) k =
      let first =
        if is_prefix && starts_with (to_hex e.snapshot_id) target
        then insert_match e matches
        else matches in
      let k1 : All P first =
        choose-All (is_prefix && starts_with (to_hex e.snapshot_id) target) _ _
          (insert_match-All e matches p k) k in
      match_entries-All target is_prefix entries _ h
        (choose-All (has_message e.snapshot target) _ _ (insert_match-All e first p k1) k1)

  pub only_match-P :
      (target : Bytes) (matches : List TimelineEntry) (e : TimelineEntry)
      → All P matches
      → only_match target matches ≡ ok e
      → P e
  unfolding only_match
  only_match-P target [] e h x = absurd (cc)
  only_match-P target (f ∷ []) e (p, _) x = subst P (same x) p
    where
      same : ◌≡◌ {A = Result RepositoryError TimelineEntry} (ok f) (ok e) → f ≡ e
      same x = cc
  only_match-P target (f ∷ g ∷ matches) e h x = absurd (cc)

-- What the listing of the snapshot index gives: its names are identifiers.
abbrev pub IsListing : (Disk → Result RepositoryError (List ObjectId)) → Type 0
IsListing list_ids =
    (disk : Disk) (ids : List ObjectId) → list_ids disk ≡ ok ids → All IsObjectId ids

module _ (hash : Bytes → ObjectId) (m : PathBuf) (cursor : RepositoryCursor)
    (list_snapshot_ids list_snapshot_index_ids : Disk
      → Result RepositoryError (List ObjectId)) where
  -- The entry is of a stored snapshot.
  unfoldable pub Stands : Disk → TimelineEntry → Type 0
  Stands disk e =
      IsObjectId e.snapshot_id
      × (get_snapshot hash (objects_dir m) disk e.snapshot_id ≡ ok e.snapshot)

  pub resolve_id-Stands :
      (id : ObjectId) (disk : Disk) (e : TimelineEntry)
      → IsObjectId id
      → resolve_id hash m cursor list_snapshot_ids list_snapshot_index_ids id disk ≡ ok e
      → Stands disk e
  unfolding resolve_id read_snapshot Stands
  resolve_id-Stands id disk e v h =
      let (s, h1, h2) =
        bind-eq-ok (map_err object_store (get_snapshot hash (objects_dir m) disk id)) _ h in
      subst (Stands disk) (same s h2) (v, map_err-eq-ok object_store _ h1)
    where
      same :
          (s : Snapshot)
          → ◌≡◌ {A = Result RepositoryError TimelineEntry}
              (ok (record { snapshot_id = id; snapshot = s }))
              (ok e)
          → record { snapshot_id = id; snapshot = s } ≡ e
      same s x = cc

  pub load_entries-Stands :
      (ids : List ObjectId) (disk : Disk) (entries : List TimelineEntry)
      → All IsObjectId ids
      → load_entries hash m cursor list_snapshot_ids list_snapshot_index_ids ids disk ≡ ok entries
      → All (Stands disk) entries
  unfolding load_entries read_snapshot Stands
  load_entries-Stands [] disk entries v h = subst (All (Stands disk)) (same h) tt
    where
      same :
          ◌≡◌ {A = Result RepositoryError (List TimelineEntry)} (ok []) (ok entries) → [] ≡ entries
      same x = cc
  load_entries-Stands (id ∷ ids) disk entries (v, w) h =
      let (s, h1, h2) =
        bind-eq-ok (map_err object_store (get_snapshot hash (objects_dir m) disk id)) _ h in
      let (rest, h3, h4) =
        bind-eq-ok (load_entries hash m cursor list_snapshot_ids list_snapshot_index_ids ids disk) _
          h2 in
      subst (All (Stands disk)) (same s rest h4)
        ((v, map_err-eq-ok object_store _ h1), load_entries-Stands ids disk rest w h3)
    where
      same :
          (s : Snapshot) (rest : List TimelineEntry)
          → ◌≡◌ {A = Result RepositoryError (List TimelineEntry)}
              (ok (record { snapshot_id = id; snapshot = s } ∷ rest))
              (ok entries)
          → record { snapshot_id = id; snapshot = s } ∷ rest ≡ entries
      same s rest x = cc
