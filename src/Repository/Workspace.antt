-- ===== src/Repository/Workspace.antt =====
-- crates/repository/src/workspace.rs: workspace identifiers and the pointer file. A `WorkspaceId` is
-- its bytes; the path in a pointer is the bytes of its `OsString`, and `Path::display` a parameter.
use era.Base.{if◌then◌else◌, Bytes, Result, ok, err, ◌>>=◌, Option, none, some, [], ◌∷◌, ◌++◌}
use era.Base.ByteOrder.{bytes_eq}
use era.Core.Tree.{contains}

pub data InvalidWorkspaceIdReason : Type 0 where
  empty current_directory parent_directory contains_slash contains_backslash contains_nul :
      InvalidWorkspaceIdReason

pub record InvalidWorkspaceId : Type 0 where
  pub id : Bytes
  pub reason : InvalidWorkspaceIdReason

abbrev pub default_workspace_id : Bytes
default_workspace_id = b'd' ∷ b'e' ∷ b'f' ∷ b'a' ∷ b'u' ∷ b'l' ∷ b't' ∷ []

-- The ladder of tests that picks the `reason`.
unfoldable pub workspace_reason : Bytes → Option InvalidWorkspaceIdReason
workspace_reason id =
    if bytes_eq id []
    then some empty
    else if bytes_eq id (b'.' ∷ [])
    then some current_directory
    else if bytes_eq id (b'.' ∷ b'.' ∷ [])
    then some parent_directory
    else if contains b'/' id
    then some contains_slash
    else if contains b'\\' id
    then some contains_backslash
    else if contains 0 id
    then some contains_nul
    else none

unfoldable pub validate_workspace_id : Bytes → Result InvalidWorkspaceId (Unit {0})
validate_workspace_id id = elim (workspace_reason id) [
  | some reason ↦ err (record { id = id; reason = reason })
  | none ↦ ok tt
]

unfoldable pub new_workspace_id : Bytes → Result InvalidWorkspaceId Bytes
new_workspace_id value = do _ ← validate_workspace_id value; ok value

pub record WorkspacePointer : Type 0 where
  pub metadata_dir : Bytes
  pub workspace_id : Bytes

abbrev pub pointer_magic : Bytes
pointer_magic =
    b'e' ∷ b'r' ∷ b'a' ∷ b'-' ∷ b'w' ∷ b'o' ∷ b'r' ∷ b'k' ∷ b's' ∷ b'p' ∷ b'a' ∷ b'c' ∷ b'e' ∷ b'-'
    ∷ b'v' ∷ b'1' ∷ []

abbrev pub pointer_metadata_prefix : Bytes
pointer_metadata_prefix = b'm' ∷ b'e' ∷ b't' ∷ b'a' ∷ b'd' ∷ b'a' ∷ b't' ∷ b'a' ∷ b':' ∷ b' ' ∷ []

abbrev pub pointer_workspace_prefix : Bytes
pointer_workspace_prefix =
    b'w' ∷ b'o' ∷ b'r' ∷ b'k' ∷ b's' ∷ b'p' ∷ b'a' ∷ b'c' ∷ b'e' ∷ b':' ∷ b' ' ∷ []

unfoldable pub to_pointer_file : (Bytes → Bytes) → WorkspacePointer → Bytes
to_pointer_file display pointer =
    pointer_magic
    ++ (b'\n'
        ∷ (pointer_metadata_prefix
            ++ (display pointer.metadata_dir
                ++ (b'\n' ∷ (pointer_workspace_prefix ++ (pointer.workspace_id ++ (b'\n' ∷ [])))))))
