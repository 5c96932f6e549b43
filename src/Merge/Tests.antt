-- ===== src/Merge/Tests.antt =====
-- Runs of crates/merge/src/lib.rs at fixed inputs, and the theorems at inputs that meet their
-- hypotheses.
use era.Base.{
  Bytes, length, get_elem?, drop, ℕ, ◌+◌, ◌≤◌, ◌≡◌, refl, subst, ◌≢◌, ◌⊎◌, none, some, List, [],
  ◌∷◌, ◌++◌, arith,
}
use era.Merge.{
  FileMergeInput, unsupported_input, present, deleted, MergeOutcome, resolved, conflicted, merged,
  unsupported, whole_file_conflict, FileMergeStrategy, merge, conflicts_of,
}
use era.Merge.Lines.{Line, lines_to_bytes, split_lines, IsLines, lines_to_bytes-split_lines}
use era.Merge.Edits.{EditRegion, edit_loop, apply_edits_to_range, IsMatching, IsEdits}
use era.Merge.Edits.Apply.{apply_edits_to_range-edit_loop}
use era.Merge.Group.{conflict_group}
use era.Merge.Group.Absorbed.{Inside}
use era.Merge.Group.Closed.{conflict_group_lem}
use era.Merge.Hunks.{push_resolved_lines, concat_resolved_hunks}
use era.Merge.Loop.{merge_loop, merge_edits, outcome_of}
use era.Merge.Matching.Lcs.{collect_lcs_matches}
use era.Merge.Matching.LcsPairs.{IsRange, collect_lcs_matches-IsMatching}
use era.Merge.Loop.Finishes.{Progress, at_start, merge_edits_lem}
use era.Merge.Loop.Conflicts.{outcome_of-merge_edits}
use era.Merge.Input.{merge_line_input}
use era.Merge.Input.OneSide.{merge_line_input_lem}
use era.Merge.Input.Engine.{merge_lem}

-- Lines of one letter.
abbrev line : ℕ → Line
line letter = letter ∷ b'\n' ∷ []

abbrev base_lines : List Line
base_lines = line b'a' ∷ line b'b' ∷ line b'c' ∷ []

abbrev side_lines : List Line
side_lines = line b'A' ∷ line b'b' ∷ line b'c' ∷ line b'd' ∷ []

abbrev text : Bytes
text = b'a' ∷ b'\n' ∷ b'\n' ∷ b'b' ∷ []

lines_to_bytes-split_lines_example :
    (lines_to_bytes (split_lines text) ≡ text) × IsLines (split_lines text)
lines_to_bytes-split_lines_example = lines_to_bytes-split_lines text

abbrev pairs : List (ℕ × ℕ)
pairs = (1, 1) ∷ (2, 2) ∷ []

abbrev side_edits : List EditRegion
side_edits =
    record { start = 0; end = 1; replacement = line b'A' ∷ [] }
    ∷ record { start = 3; end = 3; replacement = line b'd' ∷ [] }
    ∷ []

apply_edits_to_range-edit_loop_example :
    (apply_edits_to_range base_lines
        (edit_loop base_lines side_lines pairs 0 0)
        0
        (length base_lines)
      ≡ lines_to_bytes side_lines)
    × IsEdits (length base_lines) 0 (edit_loop base_lines side_lines pairs 0 0)
apply_edits_to_range-edit_loop_example =
    apply_edits_to_range-edit_loop base_lines side_lines pairs (
      omega arith,
      omega arith,
      (line b'b', refl, refl),
      (omega arith, omega arith, (line b'c', refl, refl), (omega arith, omega arith)),
    )

-- An edit of the first line and one of the first two.
abbrev short_edit : List EditRegion
short_edit = record { start = 0; end = 1; replacement = line b'A' ∷ [] } ∷ []

abbrev long_edit : List EditRegion
long_edit = record { start = 0; end = 2; replacement = line b'B' ∷ [] } ∷ []

short_edit-IsEdits : IsEdits 3 0 short_edit
short_edit-IsEdits = (omega arith, omega arith, omega arith, omega arith)

long_edit-IsEdits : IsEdits 3 0 long_edit
long_edit-IsEdits = (omega arith, omega arith, omega arith, omega arith)

conflict_group_lem_example :
    (let g = conflict_group short_edit long_edit 0 2 in
      (short_edit ≡ g.ours_taken ++ g.ours_rest)
      × (long_edit ≡ g.theirs_taken ++ g.theirs_rest)
      × Inside 0 g.conflict_end g.ours_taken
      × Inside 0 g.conflict_end g.theirs_taken
      × (2 ≤ g.conflict_end)
      × (g.conflict_end ≤ 3)
      × IsEdits 3 g.conflict_end g.ours_rest
      × IsEdits 3 g.conflict_end g.theirs_rest)
conflict_group_lem_example =
    conflict_group_lem 3 0 2 short_edit long_edit (omega arith) (omega arith) short_edit-IsEdits
      (omega arith) long_edit-IsEdits (omega arith)

merge_edits_lem_example :
    Progress
      (length base_lines)
      0
      short_edit
      long_edit
      (merge_loop 1 none base_lines (at_start short_edit long_edit))
    × (let last = merge_edits none base_lines short_edit long_edit in
        (last.ours_edits ≡ []) × (last.theirs_edits ≡ []))
merge_edits_lem_example =
    merge_edits_lem none base_lines short_edit long_edit 1 short_edit-IsEdits long_edit-IsEdits

outcome_of-merge_edits_example :
    (let last = merge_edits none base_lines short_edit long_edit in
      let hunks = push_resolved_lines last.hunks (drop last.base_pos base_lines) in
      ((outcome_of base_lines last ≡ resolved (present (concat_resolved_hunks hunks)))
        × (conflicts_of hunks ≡ []))
      ⊎ ((outcome_of base_lines last ≡ conflicted hunks) × (conflicts_of hunks ≢ [])))
outcome_of-merge_edits_example = outcome_of-merge_edits none base_lines short_edit long_edit

merge_line_input_lem_example :
    (merge_line_input (record { path = none; base = some text; ours = none; theirs = none })
      ≡ resolved deleted)
    × (merge_line_input (record { path = none; base = some text; ours = some text; theirs = none })
        ≡ resolved deleted)
    × (merge_line_input (record { path = none; base = some text; ours = none; theirs = some text })
        ≡ resolved deleted)
merge_line_input_lem_example = merge_line_input_lem none (some text) none

-- A strategy that declines all input.
abbrev json_strategy : FileMergeStrategy
json_strategy = record { name = "json"; merge = λ _. unsupported (record { reason = "not json" }) }

abbrev keep_strategy : FileMergeStrategy
keep_strategy = record { name = "keep"; merge = λ _. merged (resolved deleted) }

abbrev empty_input : FileMergeInput
empty_input = record { path = none; base = none; ours = none; theirs = none }

merge_lem_example :
    ((outcome : MergeOutcome)
      → merged (resolved deleted) ≡ merged outcome
      → merge (json_strategy ∷ keep_strategy ∷ []) empty_input
        ≡ record { strategy = "keep"; outcome = outcome })
    × (merge (json_strategy ∷ []) empty_input
        ≡ record { strategy = "none"; outcome = whole_file_conflict unsupported_input empty_input })
merge_lem_example =
    merge_lem (json_strategy ∷ []) [] keep_strategy empty_input
      ((record { reason = "not json" }, refl), tt)

IsRange-whole : (file : List Line) → IsRange file 0 file
IsRange-whole file = record {
  within = omega arith;
  each =
      λ k l h. let e : k ≡ 0 + k = omega arith in subst (λ (n : ℕ). get_elem? file n ≡ some l) e h;
}

collect_lcs_matches-IsMatching_example :
    IsMatching base_lines side_lines (collect_lcs_matches base_lines 0 side_lines 0) 0 0
collect_lcs_matches-IsMatching_example =
    collect_lcs_matches-IsMatching base_lines side_lines base_lines side_lines 0 0
      (IsRange-whole base_lines) (IsRange-whole side_lines)
