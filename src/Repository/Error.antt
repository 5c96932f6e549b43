-- ===== src/Repository/Error.antt =====
-- crates/repository/src/error.rs. The errors of the materializer and of the clock carry no source
-- here.
use era.Base.{Bytes, ℕ, List}
use era.Core.ObjectId.{ObjectId}
use era.ObjectStore.Disk.{PathBuf}
use era.ObjectStore.Local.{ObjectStoreError}
use era.Repository.Branch.{InvalidBranchName}
use era.Repository.Workspace.{InvalidWorkspaceId}

pub data RepositoryError : Type 0 where
  root_missing : PathBuf → RepositoryError
  root_not_directory : PathBuf → RepositoryError
  already_initialized : PathBuf → RepositoryError
  not_repository : PathBuf → RepositoryError
  metadata_not_directory : PathBuf → RepositoryError
  head_missing : PathBuf → RepositoryError
  invalid_head : PathBuf → Bytes → RepositoryError
  ref_missing : PathBuf → RepositoryError
  invalid_ref : PathBuf → Bytes → RepositoryError
  invalid_branch_name : InvalidBranchName → RepositoryError
  invalid_workspace_id : InvalidWorkspaceId → RepositoryError
  invalid_branch_ref_name : PathBuf → RepositoryError
  branch_already_exists : Bytes → RepositoryError
  branch_not_found : Bytes → RepositoryError
  workspace_already_exists : Bytes → PathBuf → PathBuf → RepositoryError
  workspace_not_found : Bytes → RepositoryError
  invalid_workspace_ref_name : PathBuf → RepositoryError
  invalid_workspace_pointer : PathBuf → Bytes → RepositoryError
  workspace_inside_workspace : PathBuf → PathBuf → RepositoryError
  workspace_path_is_repository : PathBuf → RepositoryError
  lock_timeout : PathBuf → RepositoryError
  snapshot_target_not_found : Bytes → RepositoryError
  snapshot_target_ambiguous : Bytes → List ObjectId → RepositoryError
  snapshot_cycle : ObjectId → RepositoryError
  clock_before_unix_epoch : RepositoryError
  timestamp_overflow : ℕ → RepositoryError
  io_error : PathBuf → RepositoryError
  object_store : ObjectStoreError → RepositoryError
  materialization : RepositoryError
