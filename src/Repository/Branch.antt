-- ===== src/Repository/Branch.antt =====
-- crates/repository/src/branch.rs: branch names. A `BranchName` is its bytes.
pub mod Names
mod Tests
use era.Base.{if◌then◌else◌, Bytes, Result, ok, err, ◌>>=◌, Option, none, some, [], ◌∷◌}
use era.Base.ByteOrder.{bytes_eq}
use era.Core.Tree.{contains}

pub data InvalidBranchNameReason : Type 0 where
  empty current_directory parent_directory contains_slash contains_backslash contains_nul :
      InvalidBranchNameReason

pub record InvalidBranchName : Type 0 where
  pub name : Bytes
  pub reason : InvalidBranchNameReason

-- The ladder of tests that picks the `reason`.
pub branch_reason : Bytes → Option InvalidBranchNameReason
branch_reason name =
    if bytes_eq name []
    then some empty
    else if bytes_eq name (b'.' ∷ [])
    then some current_directory
    else if bytes_eq name (b'.' ∷ b'.' ∷ [])
    then some parent_directory
    else if contains b'/' name
    then some contains_slash
    else if contains b'\\' name
    then some contains_backslash
    else if contains 0 name
    then some contains_nul
    else none

pub validate_branch_name : Bytes → Result InvalidBranchName (Unit {0})
validate_branch_name name = elim (branch_reason name) [
  | some reason ↦ err (record { name = name; reason = reason })
  | none ↦ ok tt
]

pub new_branch_name : Bytes → Result InvalidBranchName Bytes
new_branch_name value = do _ ← validate_branch_name value; ok value
