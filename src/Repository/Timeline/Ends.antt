-- ===== src/Repository/Timeline/Ends.antt =====
-- The timeline of crates/repository/src/repository.rs ends, and what it lists.
use era.Base.{
  if◌then◌else◌, Bool-cases, Bytes, length, Result, ok, err, Result-cases, ℕ, zero, suc, ◌+◌, ◌<◌,
  ◌≡◌, refl, sym, ap, ◌∙◌, ◌⊎◌, inl, inr, true, false, some, List, [], ◌∷◌, arith,
}
use era.Base.ByteOrder.{bytes_eq, bytes_eq_iff}
use era.Core.ObjectId.{ObjectId}
use era.Core.Snapshot.{Snapshot}
use era.ObjectStore.Disk.{PathBuf, Disk}
use era.Repository.Error.{RepositoryError, snapshot_cycle}
use era.Repository.Snapshots.{RepositoryCursor, current_snapshot_id, read_snapshot}
use era.Repository.Restore.{TimelineEntry}
use era.Repository.Timeline.{seen_before, push_entry, timeline_loop, timeline}

-- Without the first occurrence.
remove : ObjectId → List ObjectId → List ObjectId
remove id [] = []
remove id (x ∷ ids) = let rest = remove id ids in if bytes_eq id x then ids else x ∷ rest

length-remove :
    (id : ObjectId) (ids : List ObjectId)
    → seen_before id ids ≡ true
    → length (remove id ids) + 1 ≡ length ids
unfolding remove seen_before
length-remove id [] h = absurd (cc)
length-remove id (x ∷ ids) h = elim (Bool-cases (bytes_eq id x)) [
  | inl same ↦ rw (same, remove) (omega arith)
  | inr other ↦
      let shorter = length-remove id ids (ground (arith, h, other)) in
      rw (other, remove) (omega (arith, shorter))
]

remove_other :
    (id other : ObjectId) (ids : List ObjectId)
    → bytes_eq other id ≡ false
    → seen_before other ids ≡ true
    → seen_before other (remove id ids) ≡ true
unfolding remove seen_before
remove_other id other [] n h = absurd (cc)
remove_other id other (x ∷ ids) n h = elim (Bool-cases (bytes_eq id x)) [
  | inl same ↦
      let e : bytes_eq other x ≡ false =
        ap (bytes_eq other) (sym ((bytes_eq_iff id x).0 same)) ∙ n in
      rw (same, remove) (ground (arith, e, h))
  | inr differ ↦ elim (Bool-cases (bytes_eq other x)) [
    | inl here ↦ rw (differ, remove) (ground (arith, here))
    | inr there ↦
        rw (differ, remove)
          (ground (arith, there, remove_other id other ids n (ground (arith, there, h))))
  ]
]

module _ (hash : Bytes → ObjectId) (m : PathBuf) (cursor : RepositoryCursor) (disk : Disk) where
  -- The entries from `current` on, along first parents to a snapshot without any, none of them seen.
  pub IsTimeline : ObjectId → List ObjectId → List TimelineEntry → Type 0
  IsTimeline current seen [] = ⊥
  IsTimeline current seen (e ∷ entries) =
      (e.snapshot_id ≡ current)
      × (seen_before current seen ≡ false)
      × (read_snapshot hash m cursor current disk ≡ ok e.snapshot)
      × elim (e.snapshot.parents) [
        | [] ↦ entries ≡ []
        | parent ∷ _ ↦ IsTimeline parent (current ∷ seen) entries
      ]

  abbrev pub IsOutcome :
      ObjectId → List ObjectId → Result RepositoryError (List TimelineEntry) → Type 0
  IsOutcome current seen (ok entries) = IsTimeline current seen entries
  IsOutcome current seen (err e) = Unit

  IsTimeline-last :
      (current : ObjectId) (seen : List ObjectId) (s : Snapshot)
      → seen_before current seen ≡ false
      → read_snapshot hash m cursor current disk ≡ ok s
      → s.parents ≡ []
      → IsTimeline current seen (record { snapshot_id = current; snapshot = s } ∷ [])
  unfolding IsTimeline
  IsTimeline-last current seen s fresh e last = (refl, fresh, e, rw last refl)

  IsTimeline-next :
      (current parent : ObjectId) (seen rest : List ObjectId) (s : Snapshot)
      (entries : List TimelineEntry)
      → seen_before current seen ≡ false
      → read_snapshot hash m cursor current disk ≡ ok s
      → s.parents ≡ parent ∷ rest
      → IsTimeline parent (current ∷ seen) entries
      → IsTimeline current seen (record { snapshot_id = current; snapshot = s } ∷ entries)
  unfolding IsTimeline
  IsTimeline-next current parent seen rest s entries fresh e more w = (refl, fresh, e, rw more w)

  parents-cases :
      (ids : List ObjectId)
      → (ids ≡ []) ⊎ ((id : ObjectId) × (rest : List ObjectId) × (ids ≡ id ∷ rest))
  parents-cases [] = inl refl
  parents-cases (id ∷ rest) = inr (id, rest, refl)

  push_entry-IsOutcome :
      (current parent : ObjectId) (seen rest : List ObjectId) (s : Snapshot)
      (r : Result RepositoryError (List TimelineEntry))
      → seen_before current seen ≡ false
      → read_snapshot hash m cursor current disk ≡ ok s
      → s.parents ≡ parent ∷ rest
      → IsOutcome parent (current ∷ seen) r
      → (x : Result RepositoryError (List TimelineEntry)) × (push_entry
            (record { snapshot_id = current; snapshot = s })
            (some r)
          ≡ some x)
        × IsOutcome current seen x
  unfolding push_entry
  push_entry-IsOutcome current parent seen rest s (ok entries) fresh e more w = (
    ok (record { snapshot_id = current; snapshot = s } ∷ entries),
    refl,
    IsTimeline-next current parent seen rest s entries fresh e more w,
  )
  push_entry-IsOutcome current parent seen rest s (err x) fresh e more w = (err x, refl, tt)

  timeline_loop_lem :
      (fuel : ℕ) (current : ObjectId) (seen left : List ObjectId)
      → length left < fuel
      → ((id : ObjectId) (s : Snapshot)
          → read_snapshot hash m cursor id disk ≡ ok s
          → seen_before id seen ≡ false
          → seen_before id left ≡ true)
      → (r : Result RepositoryError (List TimelineEntry)) × (timeline_loop hash m cursor fuel
            current seen disk
          ≡ some r)
        × IsOutcome current seen r
  unfolding timeline_loop seen_before
  timeline_loop_lem zero current seen left k w = absurd (omega (arith, k))
  timeline_loop_lem (suc fuel) current seen left k w =
      elim (Bool-cases (seen_before current seen)) [
        | inl again ↦ rw (again, timeline_loop) (err (snapshot_cycle current), refl, tt)
        | inr fresh ↦ elim (Result-cases (read_snapshot hash m cursor current disk)) [
          | inr (x, e) ↦ rw (fresh, e, timeline_loop) (err x, refl, tt)
          | inl (s, e) ↦ elim (parents-cases s.parents) [
            | inl last ↦
                rw (fresh, e, last, timeline_loop)
                  (
                    ok (record { snapshot_id = current; snapshot = s } ∷ []),
                    refl,
                    IsTimeline-last current seen s fresh e last,
                  )
            | inr (parent, rest, more) ↦
                let shorter = length-remove current left (w current s e fresh) in
                let (r, h, out) =
                  timeline_loop_lem fuel parent (current ∷ seen) (remove current left)
                    (omega (arith, shorter, k))
                    (λ id t f n.
                      let differ : bytes_eq id current ≡ false = ground (arith, n) in
                      remove_other current id left differ (w id t f (ground (arith, n)))) in
                rw (fresh, e, more, h, timeline_loop)
                  (push_entry-IsOutcome current parent seen rest s r fresh e more out)
          ]
        ]
      ]

-- When a list of identifiers has every snapshot that can be read, as many turns as it has entries and
-- one more are enough for the timeline of a handle: it ends, with an error, or with the entries from the
-- handle's snapshot on, each of a stored snapshot, along first parents to a snapshot without parents,
-- and no identifier twice.
pub timeline_lem :
    (hash : Bytes → ObjectId) (m : PathBuf) (cursor : RepositoryCursor) (disk : Disk)
    (ids : List ObjectId) (current : ObjectId)
    → ((id : ObjectId) (s : Snapshot)
        → read_snapshot hash m cursor id disk ≡ ok s
        → seen_before id ids ≡ true)
    → current_snapshot_id hash m cursor disk ≡ ok current
    → (r : Result RepositoryError (List TimelineEntry)) × (timeline hash m cursor
          (length ids + 1)
          disk
        ≡ some r)
      × IsOutcome hash m cursor disk current [] r
unfolding timeline
timeline_lem hash m cursor disk ids current w e =
    let (r, h, out) =
      timeline_loop_lem hash m cursor disk (length ids + 1) current [] ids (omega arith)
        (λ id s f _. w id s f) in
    (r, rw (e, timeline) h, out)
