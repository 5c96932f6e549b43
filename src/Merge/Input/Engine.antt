-- ===== src/Merge/Input/Engine.antt =====
-- The chain of strategies in `MergeEngine` of crates/merge/src/lib.rs.
use era.Base.{All, ◌≡◌, refl, List, [], ◌∷◌, ◌++◌}
use era.Merge.{
  FileMergeInput, unsupported_input, MergeOutcome, UnsupportedMerge, merged, unsupported,
  whole_file_conflict, FileMergeStrategy, merge,
}

abbrev pub Declines : FileMergeInput → FileMergeStrategy → Type 0
Declines input strategy = (reason : UnsupportedMerge) × (strategy.merge input ≡ unsupported reason)

-- When the strategies before the first that supports the input decline it, the result bears that
-- strategy's name and outcome, whatever stands behind it. When all decline, the result is a
-- conflict of the whole file from no strategy.
pub merge_lem :
    (before after : List FileMergeStrategy) (strategy : FileMergeStrategy) (input : FileMergeInput)
    → All (Declines input) before
    → ((outcome : MergeOutcome)
        → strategy.merge input ≡ merged outcome
        → merge (before ++ (strategy ∷ after)) input
          ≡ record { strategy = strategy.name; outcome = outcome })
      × (merge before input
          ≡ record { strategy = "none"; outcome = whole_file_conflict unsupported_input input })
unfolding merge
merge_lem [] after strategy input d = (λ outcome h. rw h, refl)
merge_lem (s ∷ before) after strategy input ((reason, e), d) =
    let (first, rest) = merge_lem before after strategy input d in
    (λ outcome h. rw e (first outcome h), rw e rest)
