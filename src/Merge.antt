-- ===== src/Merge.antt =====
-- crates/merge/src/lib.rs: three versions of a file, the strategies that merge them, and what a
-- merge returns. A path is its bytes.
pub mod Lines
pub mod Edits
pub mod Group
pub mod Matching
pub mod Hunks
pub mod Loop
pub mod Input
mod Tests
use Prim.Native.String.{String}
use era.Base.{Bytes, Option, none, some, List, [], ◌∷◌}

pub record FileMergeInput : Type 0 where
  pub path : Option Bytes
  pub base : Option Bytes
  pub ours : Option Bytes
  pub theirs : Option Bytes

pub data ConflictKind : Type 0 where
  both_added both_inserted both_modified modify_delete binary too_large unsupported_input :
      ConflictKind

pub record MergeConflict : Type 0 where
  pub kind : ConflictKind
  pub path : Option Bytes
  pub base : Option Bytes
  pub ours : Option Bytes
  pub theirs : Option Bytes

pub data MergeHunk : Type 0 where
  resolved_hunk : Bytes → MergeHunk
  conflict_hunk : MergeConflict → MergeHunk

pub data MergedFile : Type 0 where
  present : Bytes → MergedFile
  deleted : MergedFile

pub data MergeOutcome : Type 0 where
  resolved : MergedFile → MergeOutcome
  conflicted : List MergeHunk → MergeOutcome

pub record UnsupportedMerge : Type 0 where
  pub reason : String

pub data StrategyMergeResult : Type 0 where
  merged : MergeOutcome → StrategyMergeResult
  unsupported : UnsupportedMerge → StrategyMergeResult

pub record MergeResult : Type 0 where
  pub strategy : String
  pub outcome : MergeOutcome

pub whole_file : ConflictKind → FileMergeInput → MergeConflict
whole_file kind input = record {
  kind = kind;
  path = input.path;
  base = input.base;
  ours = input.ours;
  theirs = input.theirs;
}

pub whole_file_conflict : ConflictKind → FileMergeInput → MergeOutcome
whole_file_conflict kind input = conflicted (conflict_hunk (whole_file kind input) ∷ [])

-- The trait object.
pub record FileMergeStrategy : Type 0 where
  pub name : String
  pub merge : FileMergeInput → StrategyMergeResult

-- The engine is its list of strategies.
pub merge : List FileMergeStrategy → FileMergeInput → MergeResult
merge [] input = record { strategy = "none"; outcome = whole_file_conflict unsupported_input input }
merge (strategy ∷ strategies) input = elim (strategy.merge input) [
  | merged outcome ↦ record { strategy = strategy.name; outcome = outcome }
  | unsupported _ ↦ merge strategies input
]

pub resolved_file : MergeResult → Option MergedFile
resolved_file r = elim r.outcome [ resolved file ↦ some file | conflicted _ ↦ none ]

pub resolved_bytes : MergeResult → Option Bytes
resolved_bytes r = elim r.outcome [
  | resolved file ↦ elim file [ present bytes ↦ some bytes | deleted ↦ none ]
  | conflicted _ ↦ none
]

pub conflicts_of : List MergeHunk → List MergeConflict
conflicts_of [] = []
conflicts_of (resolved_hunk _ ∷ hunks) = conflicts_of hunks
conflicts_of (conflict_hunk conflict ∷ hunks) = conflict ∷ conflicts_of hunks

pub conflicts : MergeResult → List MergeConflict
conflicts r = elim r.outcome [ resolved _ ↦ [] | conflicted hunks ↦ conflicts_of hunks ]
