-- ===== src/Repository/Refs/Tests.antt =====
-- Runs of refs.rs on a small disk, and the theorems at inputs that meet their hypotheses.
use era.Base.{if◌then◌else◌, Bytes, ok, err, ℕ, zero, suc, ◌≡◌, refl, ◌↔◌, [], ◌∷◌, arith}
use era.Base.ByteOrder.{bytes_eq}
use era.Base.Utf8.{is_utf8}
use era.Core.Tree.{contains}
use era.ObjectStore.Disk.{PathBuf, not_found, Disk}
use era.Repository.Branch.Names.{IsPortable}
use era.Repository.Workspace.{
  workspace_reason, validate_workspace_id, new_workspace_id, WorkspacePointer, to_pointer_file,
}
use era.Repository.Refs.{
  era_dir_name, strip_return, parse_workspace_pointer, write_head, read_head_branch,
  write_branch_ref, read_branch_ref,
}
use era.Repository.Refs.Text.{NoNewline}
use era.Repository.Refs.RoundTrip.{
  read_branch_ref-write_branch_ref, read_head_branch-write_head,
  parse_workspace_pointer-to_pointer_file,
}

abbrev repeat : ℕ → ℕ → Bytes
repeat zero x = []
repeat (suc n) x = x ∷ repeat n x

abbrev era_dir : PathBuf
era_dir = era_dir_name ∷ []

abbrev empty : Disk
empty _ = err not_found

abbrev dev : Bytes
dev = b'd' ∷ b'e' ∷ b'v' ∷ []

dev-IsPortable : IsPortable dev
dev-IsPortable = (
  record {
    not_empty = λ e. cc;
    not_current = λ e. cc;
    not_parent = λ e. cc;
    no_slash = ground arith;
    no_nul = ground arith;
  },
  ground arith,
)

read_head_branch-write_head_example :
    (read_head_branch era_dir (write_head era_dir empty dev) ≡ ok dev) ↔ NoNewline dev
unfolding is_utf8
read_head_branch-write_head_example =
    read_head_branch-write_head era_dir empty dev refl dev-IsPortable

read_branch_ref-write_branch_ref_example :
    read_branch_ref era_dir (write_branch_ref era_dir empty dev (repeat 32 9)) dev
    ≡ ok (repeat 32 9)
read_branch_ref-write_branch_ref_example =
    read_branch_ref-write_branch_ref era_dir empty dev (repeat 32 9)
      (record { width = refl; bytes = omega arith })

abbrev pointer : WorkspacePointer
pointer = record { metadata_dir = b'/' ∷ b'p' ∷ []; workspace_id = dev }

dev_accepted : new_workspace_id dev ≡ ok dev
unfolding new_workspace_id validate_workspace_id workspace_reason bytes_eq contains
dev_accepted = refl

-- A replacement character for a path that is no text.
abbrev shown : Bytes → Bytes
shown s = if is_utf8 s then s else 239 ∷ 191 ∷ 189 ∷ []

parse_workspace_pointer-to_pointer_file_example :
    parse_workspace_pointer era_dir (to_pointer_file shown pointer) ≡ ok pointer
unfolding strip_return is_utf8
parse_workspace_pointer-to_pointer_file_example =
    parse_workspace_pointer-to_pointer_file era_dir shown pointer (λ s u. rw u refl) refl
      (ground arith) (ground arith) (λ e. cc) (λ e. cc) refl dev_accepted
