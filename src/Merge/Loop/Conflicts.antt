-- ===== src/Merge/Loop/Conflicts.antt =====
-- The conflicts that the loop of `merge_present_lines` in crates/merge/src/lib.rs reports.
use era.Base.ByteOrder.{bytes_eq}
use era.Base.Slice.{slice}
use era.Merge.Edits.{EditRegion, is_insertion}
use era.Base.{
  leb, ◌==◌, Bool-cases, Bytes, length, drop, ℕ, zero, suc, ◌+◌, ◌≡◌, refl, sym, ap, ◌∙◌, ◌≢◌, ◌↔◌,
  ◌⊎◌, inl, inr, Bool, true, false, ◌&&◌, Option, List, [], ◌∷◌, ◌++◌,
}
use era.Merge.{
  ConflictKind, both_inserted, MergeConflict, MergeHunk, resolved_hunk, conflict_hunk, present,
  resolved, conflicted, conflicts_of,
}
use era.Merge.Lines.{Line, lines_to_bytes}
use era.Merge.Hunks.{
  extend_last, push_resolved_bytes, push_resolved_lines, push_conflict, concat_resolved_hunks,
}
use era.Merge.Loop.{
  MergeState, lines_eq, Output, apply_resolved_edit, push_resolved_lines, merge_insertions,
  merge_overlap, step_both, merge_step, merge_loop, merge_edits, outcome_of,
}

-- The flag of a merge is down exactly when none of its hunks is a conflict.
abbrev pub IsReport : Output → Type 0
IsReport output = (output.1 ≡ false) ↔ (conflicts_of output.0 ≡ [])

conflicts_of-append :
    (xs ys : List MergeHunk) → conflicts_of (xs ++ ys) ≡ conflicts_of xs ++ conflicts_of ys
unfolding conflicts_of
conflicts_of-append [] ys = refl
conflicts_of-append (resolved_hunk b ∷ xs) ys = conflicts_of-append xs ys
conflicts_of-append (conflict_hunk c ∷ xs) ys = ap (◌∷◌ c) (conflicts_of-append xs ys)

conflicts_of-extend_last :
    (hunks : List MergeHunk) (b : Bytes) → conflicts_of (extend_last hunks b) ≡ conflicts_of hunks
unfolding conflicts_of extend_last
conflicts_of-extend_last [] b = refl
conflicts_of-extend_last (resolved_hunk e ∷ []) b = refl
conflicts_of-extend_last (conflict_hunk c ∷ []) b = refl
conflicts_of-extend_last (resolved_hunk e ∷ h ∷ hs) b = conflicts_of-extend_last (h ∷ hs) b
conflicts_of-extend_last (conflict_hunk c ∷ h ∷ hs) b =
    ap (◌∷◌ c) (conflicts_of-extend_last (h ∷ hs) b)

conflicts_of-push_resolved_bytes :
    (hunks : List MergeHunk) (b : Bytes)
    → conflicts_of (push_resolved_bytes hunks b) ≡ conflicts_of hunks
unfolding push_resolved_bytes
conflicts_of-push_resolved_bytes hunks [] = refl
conflicts_of-push_resolved_bytes hunks (x ∷ b) = conflicts_of-extend_last hunks (x ∷ b)

pub conflicts_of-push_resolved_lines :
    (hunks : List MergeHunk) (lines : List Line)
    → conflicts_of (push_resolved_lines hunks lines) ≡ conflicts_of hunks
unfolding push_resolved_lines
conflicts_of-push_resolved_lines hunks [] = refl
conflicts_of-push_resolved_lines hunks (l ∷ lines) =
    conflicts_of-push_resolved_bytes hunks (lines_to_bytes (l ∷ lines))

IsReport-lines :
    (hunks : List MergeHunk) (flag : Bool) (lines : List Line)
    → IsReport (hunks, flag)
    → IsReport (push_resolved_lines hunks lines, flag)
IsReport-lines hunks flag lines h = rw (conflicts_of-push_resolved_lines hunks lines) h

IsReport-bytes :
    (hunks : List MergeHunk) (flag : Bool) (bytes : Bytes)
    → IsReport (hunks, flag)
    → IsReport (push_resolved_bytes hunks bytes, flag)
IsReport-bytes hunks flag bytes h = rw (conflicts_of-push_resolved_bytes hunks bytes) h

IsReport-conflict :
    (hunks : List MergeHunk) (kind : ConflictKind) (path : Option Bytes) (base ours theirs : Bytes)
    → IsReport (push_conflict hunks kind path base ours theirs, true)
unfolding push_conflict conflicts_of
IsReport-conflict hunks kind path base ours theirs = (
  λ e. absurd (cc),
  λ e. absurd (never _ (conflicts_of hunks) (sym (conflicts_of-append hunks _) ∙ e)),
)
  where
    never : (c : MergeConflict) (cs : List MergeConflict) → cs ++ (c ∷ []) ≡ [] → ⊥
    never c [] h = cc
    never c (d ∷ cs) h = cc

IsReport-edit :
    (hunks : List MergeHunk) (flag : Bool) (base_lines : List Line) (pos : ℕ) (e : EditRegion)
    → IsReport (hunks, flag)
    → IsReport (apply_resolved_edit hunks base_lines pos e, flag)
unfolding apply_resolved_edit
IsReport-edit hunks flag base_lines pos e h =
    IsReport-lines _ flag e.replacement (IsReport-lines hunks flag (slice base_lines pos e.start) h)

module _ (path : Option Bytes) (base_lines : List Line) where
  IsReport-insertions :
      (hunks : List MergeHunk) (pos : ℕ) (flag : Bool) (o t : EditRegion)
      → IsReport (hunks, flag)
      → IsReport (merge_insertions path base_lines hunks pos flag o t)
  unfolding merge_insertions
  IsReport-insertions hunks pos flag o t h =
      let kept = IsReport-lines hunks flag (slice base_lines pos o.start) h in
      elim (Bool-cases (lines_eq o.replacement t.replacement)) [
        | inl same ↦ rw (same, merge_insertions) (IsReport-lines _ flag o.replacement kept)
        | inr other ↦ rw (other, merge_insertions) (IsReport-conflict _ both_inserted path _ _ _)
      ]

  IsReport-overlap :
      (hunks : List MergeHunk) (flag : Bool) (base ours theirs : Bytes)
      → IsReport (hunks, flag)
      → IsReport (merge_overlap path hunks flag base ours theirs)
  unfolding merge_overlap
  IsReport-overlap hunks flag base ours theirs h = elim (Bool-cases (bytes_eq ours theirs)) [
    | inl same ↦ rw (same, merge_overlap) (IsReport-bytes hunks flag ours h)
    | inr other ↦ rw (other, merge_overlap) (IsReport-conflict hunks _ path base ours theirs)
  ]

  abbrev StateReport : MergeState → Type 0
  StateReport s = IsReport (s.hunks, s.conflicted)

  merge_step-IsReport :
      (ours theirs : List EditRegion) (s : MergeState)
      → StateReport s
      → StateReport (merge_step path base_lines ours theirs s)
  unfolding merge_step step_both
  merge_step-IsReport [] [] s h = h
  merge_step-IsReport (o ∷ os) [] s h = IsReport-edit s.hunks s.conflicted base_lines s.base_pos o h
  merge_step-IsReport [] (t ∷ ts) s h = IsReport-edit s.hunks s.conflicted base_lines s.base_pos t h
  merge_step-IsReport (o ∷ os) (t ∷ ts) s h =
      elim (Bool-cases (is_insertion o && is_insertion t && (o.start == t.start))) [
        | inl together ↦
            rw (together, step_both) (IsReport-insertions s.hunks s.base_pos s.conflicted o t h)
        | inr apart ↦ elim (Bool-cases (leb o.end t.start)) [
          | inl first ↦
              rw (apart, first, step_both)
                (IsReport-edit s.hunks s.conflicted base_lines s.base_pos o h)
          | inr later ↦ elim (Bool-cases (leb t.end o.start)) [
            | inl other ↦
                rw (apart, later, other, step_both)
                  (IsReport-edit s.hunks s.conflicted base_lines s.base_pos t h)
            | inr overlap ↦
                rw (apart, later, overlap, step_both)
                  (IsReport-overlap _ s.conflicted _ _ _ (IsReport-lines s.hunks s.conflicted _ h))
          ]
        ]
      ]

  merge_loop-IsReport :
      (fuel : ℕ) (s : MergeState) → StateReport s → StateReport (merge_loop fuel path base_lines s)
  unfolding merge_loop
  merge_loop-IsReport zero s h = h
  merge_loop-IsReport (suc fuel) s h =
      merge_loop-IsReport fuel (merge_step path base_lines s.ours_edits s.theirs_edits s)
        (merge_step-IsReport s.ours_edits s.theirs_edits s h)

-- Whatever the edits of the two sides are, the merge of present files either has no conflict among
-- its hunks and returns a present file, or returns its hunks, with a conflict among them.
pub outcome_of-merge_edits :
    (path : Option Bytes) (base_lines : List Line) (ours theirs : List EditRegion)
    → (let last = merge_edits path base_lines ours theirs in
        let hunks = push_resolved_lines last.hunks (drop last.base_pos base_lines) in
        ((outcome_of base_lines last ≡ resolved (present (concat_resolved_hunks hunks)))
          × (conflicts_of hunks ≡ []))
        ⊎ ((outcome_of base_lines last ≡ conflicted hunks) × (conflicts_of hunks ≢ [])))
unfolding merge_edits outcome_of conflicts_of
outcome_of-merge_edits path base_lines ours theirs =
    let last = merge_edits path base_lines ours theirs in
    let start : IsReport ([], false) = (λ _. refl, λ _. refl) in
    let report =
      IsReport-lines last.hunks last.conflicted (drop last.base_pos base_lines)
        (merge_loop-IsReport path base_lines (length ours + length theirs) _ start) in
    elim (Bool-cases last.conflicted) [
      | inl flag ↦ inr (rw (flag, outcome_of), λ e. absurd (clash (sym flag ∙ report.1 e)))
      | inr flag ↦ inl (rw (flag, outcome_of), report.0 flag)
    ]
  where
    clash : true ≡ false → ⊥
    clash h = cc
