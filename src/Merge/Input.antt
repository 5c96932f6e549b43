-- ===== src/Merge/Input.antt =====
-- `merge_line_input` and `merge_present_lines` of crates/merge/src/lib.rs, and the default engine.
pub mod Engine
pub mod OneSide
use Prim.Native.Nat.{max}
use era.Base.{
  ltb, ◌==◌, if◌then◌else◌, Bytes, length, ℕ, ◌*◌, Bool, false, ◌||◌, Option, none, some, List, [],
  ◌∷◌,
}
use era.Base.ByteOrder.{bytes_eq}
use era.Merge.{
  FileMergeInput, both_added, modify_delete, binary, too_large, present, deleted, MergeOutcome,
  resolved, merged, MergeResult, whole_file_conflict, FileMergeStrategy, merge,
}
use era.Merge.Lines.{Line, split_lines}
use era.Merge.Edits.{EditRegion, edit_loop}
use era.Merge.Matching.{matching_pairs}
use era.Merge.Loop.{merge_edits, outcome_of}

abbrev pub max_text_merge_bytes : ℕ
max_text_merge_bytes = 8 * 1024 * 1024

-- `bytes.contains(&0)`
pub contains_nul : Bytes → Bool
contains_nul [] = false
contains_nul (byte ∷ bytes) = byte == 0 || contains_nul bytes

pub edit_regions : List Line → List Line → List EditRegion
edit_regions base side = edit_loop base side (matching_pairs base side) 0 0

pub merge_present_lines : FileMergeInput → Bytes → Bytes → Bytes → MergeOutcome
merge_present_lines input base ours theirs =
    if contains_nul base || (contains_nul ours || contains_nul theirs)
    then whole_file_conflict binary input
    else if ltb max_text_merge_bytes (length base)
        || (ltb max_text_merge_bytes (length ours) || ltb max_text_merge_bytes (length theirs))
    then whole_file_conflict too_large input
    else let base_lines = split_lines base in
      outcome_of base_lines (
        merge_edits input.path base_lines (edit_regions base_lines (split_lines ours))
          (edit_regions base_lines (split_lines theirs)))

-- The match of `merge_line_input`, arm by arm; its last two tests on one side repeat those above
-- them.
pub merge_versions : FileMergeInput → Option Bytes → Option Bytes → Option Bytes → MergeOutcome
merge_versions input base none none = resolved deleted
merge_versions input none (some ours) (some theirs) =
    if bytes_eq ours theirs then resolved (present ours) else whole_file_conflict both_added input
merge_versions input (some base) (some ours) (some theirs) =
    if bytes_eq ours theirs
    then resolved (present ours)
    else if bytes_eq base ours
    then resolved (present theirs)
    else if bytes_eq base theirs
    then resolved (present ours)
    else merge_present_lines input base ours theirs
merge_versions input none (some ours) none = resolved (present ours)
merge_versions input none none (some theirs) = resolved (present theirs)
merge_versions input (some base) none (some theirs) =
    if bytes_eq base theirs then resolved deleted else whole_file_conflict modify_delete input
merge_versions input (some base) (some ours) none =
    if bytes_eq base ours then resolved deleted else whole_file_conflict modify_delete input

pub merge_line_input : FileMergeInput → MergeOutcome
merge_line_input input = merge_versions input input.base input.ours input.theirs

pub line_merge_strategy : FileMergeStrategy
line_merge_strategy = record { name = "line"; merge = λ input. merged (merge_line_input input) }

abbrev pub default_text : List FileMergeStrategy
default_text = line_merge_strategy ∷ []

pub merge_file : FileMergeInput → MergeResult
merge_file input = merge default_text input
