-- ===== src/Repository/Branch/Tests.antt =====
-- Runs of branch.rs at fixed inputs, and the theorem at an input that it is about.
use era.Base.{Bytes, ok, err, ◌≡◌, ◌↔◌, [], ◌∷◌}
use era.Repository.Branch.{InvalidBranchName, new_branch_name}
use era.Repository.Branch.Names.{IsPortable, Applies, new_branch_name_iff}

abbrev main_branch : Bytes
main_branch = b'm' ∷ b'a' ∷ b'i' ∷ b'n' ∷ []

new_branch_name_iff_example :
    ((new_branch_name main_branch ≡ ok main_branch) ↔ IsPortable main_branch)
    × ((e : InvalidBranchName)
        → (new_branch_name main_branch ≡ err e)
          ↔ ((e.name ≡ main_branch) × Applies e.reason main_branch))
new_branch_name_iff_example = new_branch_name_iff main_branch
