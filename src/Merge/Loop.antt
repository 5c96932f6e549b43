-- ===== src/Merge/Loop.antt =====
-- The loop of `merge_present_lines` in crates/merge/src/lib.rs. A list of edits stands for those
-- from `ours_index` or `theirs_index` on.
pub mod Conflicts
pub mod Finishes
use Prim.Native.Nat.{min, max}
use era.Base.{
  leb, ◌==◌, if◌then◌else◌, Bytes, length, drop, ℕ, zero, suc, ◌+◌, Bool, true, false, ◌&&◌, Option,
  List, [], ◌∷◌,
}
use era.Base.ByteOrder.{bytes_eq}
use era.Base.Slice.{slice}
use era.Merge.{both_inserted, MergeHunk, present, MergeOutcome, resolved, conflicted}
use era.Merge.Lines.{Line, lines_to_bytes}
use era.Merge.Edits.{EditRegion, is_insertion, apply_edits_to_range}
use era.Merge.Group.{conflict_group}
use era.Merge.Hunks.{
  push_resolved_bytes, push_resolved_lines, push_conflict, concat_resolved_hunks,
  classify_content_conflict,
}

pub record MergeState : Type 0 where
  pub hunks : List MergeHunk
  pub base_pos : ℕ
  pub ours_edits : List EditRegion
  pub theirs_edits : List EditRegion
  pub conflicted : Bool

-- `ours_edit.replacement == theirs_edit.replacement`
pub lines_eq : List Line → List Line → Bool
lines_eq [] [] = true
lines_eq (x ∷ xs) (y ∷ ys) = bytes_eq x y && lines_eq xs ys
lines_eq _ _ = false

-- What a step does to the hunks and to `conflicted`.
abbrev pub Output : Type 0
Output = List MergeHunk × Bool

-- The hunks behind `apply_resolved_edit`, which also sets `base_pos` to the edit's end.
pub apply_resolved_edit : List MergeHunk → List Line → ℕ → EditRegion → List MergeHunk
apply_resolved_edit hunks base_lines base_pos edit =
    push_resolved_lines (push_resolved_lines hunks (slice base_lines base_pos edit.start))
      edit.replacement

-- Two insertions at one place.
pub merge_insertions :
    Option Bytes → List Line → List MergeHunk → ℕ → Bool → EditRegion → EditRegion → Output
merge_insertions path base_lines hunks base_pos flagged ours_edit theirs_edit =
    let kept = push_resolved_lines hunks (slice base_lines base_pos ours_edit.start) in
    if lines_eq ours_edit.replacement theirs_edit.replacement
    then (push_resolved_lines kept ours_edit.replacement, flagged)
    else (
      push_conflict kept both_inserted path [] (lines_to_bytes ours_edit.replacement)
          (lines_to_bytes theirs_edit.replacement),
      true,
    )

-- Edits that overlap, as the bytes that they give on each side.
pub merge_overlap : Option Bytes → List MergeHunk → Bool → Bytes → Bytes → Bytes → Output
merge_overlap path hunks flagged base_bytes ours_bytes theirs_bytes =
    if bytes_eq ours_bytes theirs_bytes then (push_resolved_bytes hunks ours_bytes, flagged) else (
      push_conflict hunks (classify_content_conflict base_bytes ours_bytes theirs_bytes) path
          base_bytes ours_bytes theirs_bytes,
      true,
    )

abbrev state : Output → ℕ → List EditRegion → List EditRegion → MergeState
state output base_pos ours theirs = record {
  hunks = output.0;
  base_pos = base_pos;
  ours_edits = ours;
  theirs_edits = theirs;
  conflicted = output.1;
}

-- The body of the loop on the first edit of each side.
pub step_both :
    Option Bytes
    → List Line
    → MergeState
    → EditRegion
    → List EditRegion
    → EditRegion
    → List EditRegion
    → MergeState
step_both path base_lines s ours_edit ours theirs_edit theirs =
    if is_insertion ours_edit && is_insertion theirs_edit && (ours_edit.start == theirs_edit.start)
    then state
        (merge_insertions path base_lines s.hunks s.base_pos s.conflicted ours_edit theirs_edit)
        ours_edit.start ours theirs
    else if leb ours_edit.end theirs_edit.start
    then state (apply_resolved_edit s.hunks base_lines s.base_pos ours_edit, s.conflicted)
        ours_edit.end ours (theirs_edit ∷ theirs)
    else if leb theirs_edit.end ours_edit.start
    then state (apply_resolved_edit s.hunks base_lines s.base_pos theirs_edit, s.conflicted)
        theirs_edit.end (ours_edit ∷ ours) theirs
    else let conflict_start = min ours_edit.start theirs_edit.start in
      let g =
        conflict_group (ours_edit ∷ ours) (theirs_edit ∷ theirs) conflict_start
          (max ours_edit.end theirs_edit.end) in
      state
        (merge_overlap path
          (push_resolved_lines s.hunks (slice base_lines s.base_pos conflict_start)) s.conflicted
          (lines_to_bytes (slice base_lines conflict_start g.conflict_end))
          (apply_edits_to_range base_lines g.ours_taken conflict_start g.conflict_end)
          (apply_edits_to_range base_lines g.theirs_taken conflict_start g.conflict_end))
        g.conflict_end g.ours_rest g.theirs_rest

-- One turn of the loop; without edits there is none.
pub merge_step :
    Option Bytes → List Line → List EditRegion → List EditRegion → MergeState → MergeState
merge_step path base_lines [] [] s = s
merge_step path base_lines (ours_edit ∷ ours) [] s =
    state (apply_resolved_edit s.hunks base_lines s.base_pos ours_edit, s.conflicted) ours_edit.end
      ours []
merge_step path base_lines [] (theirs_edit ∷ theirs) s =
    state (apply_resolved_edit s.hunks base_lines s.base_pos theirs_edit, s.conflicted)
      theirs_edit.end [] theirs
merge_step path base_lines (ours_edit ∷ ours) (theirs_edit ∷ theirs) s =
    step_both path base_lines s ours_edit ours theirs_edit theirs

-- The loop on fuel: a turn takes an edit at least.
pub merge_loop : ℕ → Option Bytes → List Line → MergeState → MergeState
merge_loop zero path base_lines s = s
merge_loop (suc fuel) path base_lines s =
    merge_loop fuel path base_lines (merge_step path base_lines s.ours_edits s.theirs_edits s)

-- The state that the loop starts from, and how long it may run.
pub merge_edits : Option Bytes → List Line → List EditRegion → List EditRegion → MergeState
merge_edits path base_lines ours_edits theirs_edits =
    merge_loop (length ours_edits + length theirs_edits) path base_lines (record {
      hunks = [];
      base_pos = 0;
      ours_edits = ours_edits;
      theirs_edits = theirs_edits;
      conflicted = false;
    })

-- What `merge_present_lines` returns behind the loop.
pub outcome_of : List Line → MergeState → MergeOutcome
outcome_of base_lines s =
    let hunks = push_resolved_lines s.hunks (drop s.base_pos base_lines) in
    if s.conflicted then conflicted hunks else resolved (present (concat_resolved_hunks hunks))
