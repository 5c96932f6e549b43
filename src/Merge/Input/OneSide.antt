-- ===== src/Merge/Input/OneSide.antt =====
-- Files that one side alone changed, in `merge_line_input` of crates/merge/src/lib.rs.
use era.Base.{Bool-cases, Bytes, ◌≡◌, refl, ap, inl, inr, Option, none, some}
use era.Base.ByteOrder.{bytes_eq, bytes_eq_iff, bytes_eq_refl}
use era.Merge.{FileMergeInput, MergedFile, present, deleted, resolved}
use era.Merge.Input.{merge_versions, merge_line_input}

-- A version as the resolution of a merge.
abbrev pub file_of : Option Bytes → MergedFile
file_of none = deleted
file_of (some bytes) = present bytes

abbrev versions : Option Bytes → Option Bytes → Option Bytes → Option Bytes → FileMergeInput
versions path base ours theirs = record { path = path; base = base; ours = ours; theirs = theirs }

agreed :
    (path base side : Option Bytes)
    → merge_line_input (versions path base side side) ≡ resolved (file_of side)
unfolding merge_line_input merge_versions
agreed path base none = refl
agreed path none (some s) = rw (bytes_eq_refl s)
agreed path (some b) (some s) = rw (bytes_eq_refl s)

ours_unchanged :
    (path base theirs : Option Bytes)
    → merge_line_input (versions path base base theirs) ≡ resolved (file_of theirs)
unfolding merge_line_input merge_versions
ours_unchanged path none none = refl
ours_unchanged path none (some t) = refl
ours_unchanged path (some b) none = rw (bytes_eq_refl b)
ours_unchanged path (some b) (some t) = elim (Bool-cases (bytes_eq b t)) [
  | inl same ↦ rw same (ap (λ x. resolved (present x)) ((bytes_eq_iff b t).0 same))
  | inr other ↦ rw (other, bytes_eq_refl b)
]

theirs_unchanged :
    (path base ours : Option Bytes)
    → merge_line_input (versions path base ours base) ≡ resolved (file_of ours)
unfolding merge_line_input merge_versions
theirs_unchanged path none none = refl
theirs_unchanged path none (some o) = refl
theirs_unchanged path (some b) none = rw (bytes_eq_refl b)
theirs_unchanged path (some b) (some o) = elim (Bool-cases (bytes_eq o b)) [
  | inl same ↦ rw same
  | inr other ↦ elim (Bool-cases (bytes_eq b o)) [
    | inl same ↦ rw (other, same) (ap (λ x. resolved (present x)) ((bytes_eq_iff b o).0 same))
    | inr differ ↦ rw (other, differ, bytes_eq_refl b)
  ]
]

-- Whatever the files hold, text or not, and whether they exist or not: when both sides have the
-- same version the merge resolves to it, and when one side is as the base it resolves to the other.
pub merge_line_input_lem :
    (path base side : Option Bytes)
    → (merge_line_input (versions path base side side) ≡ resolved (file_of side))
      × (merge_line_input (versions path base base side) ≡ resolved (file_of side))
      × (merge_line_input (versions path base side base) ≡ resolved (file_of side))
merge_line_input_lem path base side =
    (agreed path base side, ours_unchanged path base side, theirs_unchanged path base side)
