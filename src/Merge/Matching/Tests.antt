-- ===== src/Merge/Matching/Tests.antt =====
-- Runs of `matching_pairs` of crates/merge/src/lib.rs at fixed inputs.
use era.Base.ByteOrder.{bytes_eq}
use era.Base.{ℕ, ◌≡◌, refl, [], ◌∷◌}
use era.Merge.Lines.{Line}
use era.Merge.Matching.Lcs.{lcs_row, lcs_table, lcs_walk, collect_lcs_matches}
use era.Merge.Matching.{
  common_lines, run_of_pairs, note_line, occurrences_onto, line_occurrences, find_line,
  unique_anchors, pair_leb, insert_pair, sort_pairs, partition_point, set_tail, lis_loop, last_tail,
  follow, longest_increasing_by_side, unique_lis_anchors, anchor_loop, middle_matches,
  collect_patience_matches, matching_pairs,
}

abbrev line : ℕ → Line
line letter = letter ∷ b'\n' ∷ []

-- The lines that are unique on both sides are anchors, and of two that cross one is kept.
anchors_run :
    matching_pairs
      (line b'x' ∷ line b'a' ∷ line b'b' ∷ line b'c' ∷ [])
      (line b'b' ∷ line b'a' ∷ line b'c' ∷ line b'y' ∷ [])
    ≡ (2, 0) ∷ (3, 2) ∷ []
unfolding matching_pairs common_lines run_of_pairs note_line occurrences_onto line_occurrences
    find_line unique_anchors pair_leb insert_pair sort_pairs partition_point set_tail lis_loop
    last_tail follow longest_increasing_by_side unique_lis_anchors anchor_loop middle_matches
    collect_patience_matches collect_lcs_matches lcs_walk lcs_row lcs_table bytes_eq
anchors_run = refl

-- Lines that repeat on one side are left to the longest common subsequence.
repeated_run :
    matching_pairs
      (line b'x' ∷ line b'a' ∷ line b'a' ∷ line b'z' ∷ [])
      (line b'a' ∷ line b'y' ∷ line b'a' ∷ [])
    ≡ (1, 0) ∷ (2, 2) ∷ []
unfolding matching_pairs common_lines run_of_pairs note_line occurrences_onto line_occurrences
    find_line unique_anchors pair_leb insert_pair sort_pairs partition_point set_tail lis_loop
    last_tail follow longest_increasing_by_side unique_lis_anchors anchor_loop middle_matches
    collect_patience_matches collect_lcs_matches lcs_walk lcs_row lcs_table bytes_eq
repeated_run = refl
