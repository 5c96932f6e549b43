-- ===== src/Repository/Refs.antt =====
-- crates/repository/src/refs.rs: HEAD, the refs and the workspace records as files under the
-- metadata directory. Writes succeed; a file is replaced whole, by a rename, or made by a hard link.
pub mod Text
pub mod Paths
pub mod RoundTrip
pub mod Quiet
mod Tests
use era.Base.{
  ◌==◌, if◌then◌else◌, Bytes, Result, ok, err, ◌>>=◌, map_err, ok_or, Bool, true, false, not, ◌||◌,
  Option, none, some, List, [], ◌∷◌, ◌++◌,
}
use era.Base.ByteOrder.{bytes_eq}
use era.Base.Utf8.{is_utf8}
use era.Core.ObjectId.{ObjectId, to_hex, shard_prefix, from_hex}
use era.Core.Tree.{contains}
use era.ObjectStore.Disk.{PathBuf, not_found, unreadable, other_error, Disk, set_file}
use era.Repository.Branch.{new_branch_name}
use era.Repository.Workspace.{
  new_workspace_id, WorkspacePointer, pointer_magic, pointer_metadata_prefix,
  pointer_workspace_prefix, to_pointer_file,
}
use era.Repository.Error.{
  RepositoryError, not_repository, head_missing, invalid_head, ref_missing, invalid_ref,
  invalid_branch_name, invalid_workspace_id, branch_already_exists, workspace_already_exists,
  invalid_workspace_pointer, io_error,
}

abbrev pub objects_dir_name : Bytes
objects_dir_name = b'o' ∷ b'b' ∷ b'j' ∷ b'e' ∷ b'c' ∷ b't' ∷ b's' ∷ []

abbrev pub head_file_name : Bytes
head_file_name = b'H' ∷ b'E' ∷ b'A' ∷ b'D' ∷ []

abbrev pub refs_dir_name : Bytes
refs_dir_name = b'r' ∷ b'e' ∷ b'f' ∷ b's' ∷ []

abbrev pub heads_dir_name : Bytes
heads_dir_name = b'h' ∷ b'e' ∷ b'a' ∷ b'd' ∷ b's' ∷ []

abbrev pub workspaces_dir_name : Bytes
workspaces_dir_name = b'w' ∷ b'o' ∷ b'r' ∷ b'k' ∷ b's' ∷ b'p' ∷ b'a' ∷ b'c' ∷ b'e' ∷ b's' ∷ []

abbrev pub workspace_path_file_name : Bytes
workspace_path_file_name = b'p' ∷ b'a' ∷ b't' ∷ b'h' ∷ []

abbrev pub index_dir_name : Bytes
index_dir_name = b'i' ∷ b'n' ∷ b'd' ∷ b'e' ∷ b'x' ∷ []

abbrev pub snapshot_index_dir_name : Bytes
snapshot_index_dir_name = b's' ∷ b'n' ∷ b'a' ∷ b'p' ∷ b's' ∷ b'h' ∷ b'o' ∷ b't' ∷ b's' ∷ []

abbrev pub snapshot_index_complete_file_name : Bytes
snapshot_index_complete_file_name =
    b'.' ∷ b'c' ∷ b'o' ∷ b'm' ∷ b'p' ∷ b'l' ∷ b'e' ∷ b't' ∷ b'e' ∷ b'-' ∷ b'v' ∷ b'1' ∷ []

abbrev pub era_dir_name : Bytes
era_dir_name = b'.' ∷ b'e' ∷ b'r' ∷ b'a' ∷ []

abbrev pub head_prefix : Bytes
head_prefix = b'r' ∷ b'e' ∷ b'f' ∷ b':' ∷ b' ' ∷ []

abbrev pub refs_heads_prefix : Bytes
refs_heads_prefix = b'r' ∷ b'e' ∷ b'f' ∷ b's' ∷ b'/' ∷ b'h' ∷ b'e' ∷ b'a' ∷ b'd' ∷ b's' ∷ b'/' ∷ []

abbrev pub snapshot_index_complete_text : Bytes
snapshot_index_complete_text =
    b'e' ∷ b'r' ∷ b'a' ∷ b'-' ∷ b's' ∷ b'n' ∷ b'a' ∷ b'p' ∷ b's' ∷ b'h' ∷ b'o' ∷ b't' ∷ b'-' ∷ b'i'
    ∷ b'n' ∷ b'd' ∷ b'e' ∷ b'x' ∷ b'-' ∷ b'v' ∷ b'1' ∷ b'\n' ∷ []

unfoldable pub objects_dir : PathBuf → PathBuf
objects_dir metadata_dir = metadata_dir ++ (objects_dir_name ∷ [])

unfoldable pub head_path : PathBuf → PathBuf
head_path metadata_dir = metadata_dir ++ (head_file_name ∷ [])

pub branch_ref_path : PathBuf → Bytes → PathBuf
branch_ref_path metadata_dir branch = metadata_dir ++ (refs_dir_name ∷ heads_dir_name ∷ branch ∷ [])

unfoldable pub workspace_ref_path : PathBuf → Bytes → PathBuf
workspace_ref_path metadata_dir workspace =
    metadata_dir ++ (refs_dir_name ∷ workspaces_dir_name ∷ workspace ∷ [])

pub workspace_path_file : PathBuf → Bytes → PathBuf
workspace_path_file metadata_dir workspace =
    metadata_dir ++ (workspaces_dir_name ∷ workspace ∷ workspace_path_file_name ∷ [])

pub snapshot_index_entry_path : PathBuf → ObjectId → PathBuf
snapshot_index_entry_path metadata_dir id =
    metadata_dir ++ (index_dir_name ∷ snapshot_index_dir_name ∷ shard_prefix id ∷ to_hex id ∷ [])

pub snapshot_index_complete_path : PathBuf → PathBuf
snapshot_index_complete_path metadata_dir =
    metadata_dir
    ++ (index_dir_name ∷ snapshot_index_dir_name ∷ snapshot_index_complete_file_name ∷ [])

pub workspace_pointer_path : PathBuf → PathBuf
workspace_pointer_path root = root ++ (era_dir_name ∷ [])

-- `strip_suffix('\n').unwrap_or(contents)`
pub strip_newline : Bytes → Bytes
strip_newline [] = []
strip_newline (x ∷ []) = if x == b'\n' then [] else x ∷ []
strip_newline (x ∷ y ∷ rest) = x ∷ strip_newline (y ∷ rest)

-- `str::strip_prefix`
pub strip_prefix : Bytes → Bytes → Option Bytes
strip_prefix [] s = some s
strip_prefix (p ∷ prefix) [] = none
strip_prefix (p ∷ prefix) (x ∷ s) =
    let rest = strip_prefix prefix s in if p == x then rest else none

pub single_line : Bytes → Option Bytes
single_line contents =
    let line = strip_newline contents in
    if contains b'\n' line || bytes_eq line [] then none else some line

-- `str::lines`, with the text of the line so far in front: a line feed ends a line, with the
-- carriage return before it.
pub strip_return : Bytes → Bytes
strip_return [] = []
strip_return (x ∷ []) = if x == b'\r' then [] else x ∷ []
strip_return (x ∷ y ∷ rest) = x ∷ strip_return (y ∷ rest)

pub lines_loop : Bytes → Bytes → List Bytes
lines_loop [] [] = []
lines_loop (x ∷ line) [] = (x ∷ line) ∷ []
lines_loop line (byte ∷ bytes) = elim (byte == b'\n') [
  | true ↦ strip_return line ∷ lines_loop [] bytes
  | false ↦ lines_loop (line ++ (byte ∷ [])) bytes
]

pub parse_head : PathBuf → Bytes → Result RepositoryError Bytes
parse_head path contents = ok_or (single_line contents) (invalid_head path contents) >>= λ line.
    ok_or (strip_prefix head_prefix line) (invalid_head path contents) >>= λ reference.
    ok_or (strip_prefix refs_heads_prefix reference) (invalid_head path contents) >>= λ branch.
    map_err invalid_branch_name (new_branch_name branch)

pub parse_ref : PathBuf → Bytes → Result RepositoryError ObjectId
parse_ref path contents = ok_or (single_line contents) (invalid_ref path contents) >>= λ line.
    map_err (λ _. invalid_ref path contents) (from_hex line)

-- `Option::filter` by `!value.is_empty()`
pub not_empty : Option Bytes → Option Bytes
not_empty none = none
not_empty (some value) = if bytes_eq value [] then none else some value

pub parse_pointer_lines : PathBuf → Bytes → List Bytes → Result RepositoryError WorkspacePointer
parse_pointer_lines path contents (first ∷ metadata ∷ workspace ∷ []) =
    if not (bytes_eq first pointer_magic)
    then err (invalid_workspace_pointer path contents)
    else ok_or (not_empty (strip_prefix pointer_metadata_prefix metadata))
        (invalid_workspace_pointer path contents)
      >>= λ dir.
          ok_or (not_empty (strip_prefix pointer_workspace_prefix workspace))
            (invalid_workspace_pointer path contents)
          >>= λ text. map_err invalid_workspace_id (new_workspace_id text) >>= λ id.
              ok (record { metadata_dir = dir; workspace_id = id })
parse_pointer_lines path contents _ = err (invalid_workspace_pointer path contents)

pub parse_workspace_pointer : PathBuf → Bytes → Result RepositoryError WorkspacePointer
parse_workspace_pointer path contents =
    parse_pointer_lines path contents (lines_loop [] (strip_newline contents))

-- `fs::read_to_string` fails on bytes that are no text.
pub read_text_file : Disk → PathBuf → RepositoryError → Result RepositoryError Bytes
read_text_file disk path missing = elim (disk path) [
  | ok contents ↦ if is_utf8 contents then ok contents else err (io_error path)
  | err e ↦ elim e [
    | not_found ↦ err missing
    | unreadable ↦ err (io_error path)
    | other_error ↦ err (io_error path)
  ]
]

-- `fs::try_exists` with its error.
unfoldable pub path_exists : Disk → PathBuf → Result RepositoryError Bool
path_exists disk path = elim (disk path) [
  | ok _ ↦ ok true
  | err e ↦ elim e [
    | not_found ↦ ok false
    | unreadable ↦ ok true
    | other_error ↦ err (io_error path)
  ]
]

unfoldable pub write_text_file_atomic : Disk → PathBuf → Bytes → Disk
write_text_file_atomic disk path contents = set_file disk path contents

pub create_text_file_new :
    Disk → PathBuf → Bytes → RepositoryError → Result RepositoryError (Unit {0}) × Disk
create_text_file_new disk path contents already_exists = elim (path_exists disk path) [
  | ok there ↦ if there then (err already_exists, disk) else (ok tt, set_file disk path contents)
  | err e ↦ (err e, disk)
]

module _ (metadata_dir : PathBuf) (disk : Disk) where
  pub write_head : Bytes → Disk
  write_head branch =
      write_text_file_atomic disk (head_path metadata_dir)
        (head_prefix ++ (refs_heads_prefix ++ (branch ++ (b'\n' ∷ []))))

  pub read_head_branch : Result RepositoryError Bytes
  read_head_branch =
      let path = head_path metadata_dir in
      read_text_file disk path (head_missing path) >>= λ contents. parse_head path contents

  pub create_branch_ref : Bytes → ObjectId → Result RepositoryError (Unit {0}) × Disk
  create_branch_ref branch id =
      create_text_file_new disk (branch_ref_path metadata_dir branch) (to_hex id ++ (b'\n' ∷ []))
        (branch_already_exists branch)

  pub write_branch_ref : Bytes → ObjectId → Disk
  write_branch_ref branch id =
      write_text_file_atomic disk (branch_ref_path metadata_dir branch) (to_hex id ++ (b'\n' ∷ []))

  pub branch_ref_exists : Bytes → Result RepositoryError Bool
  branch_ref_exists branch = path_exists disk (branch_ref_path metadata_dir branch)

  pub read_branch_ref : Bytes → Result RepositoryError ObjectId
  read_branch_ref branch =
      let path = branch_ref_path metadata_dir branch in
      read_text_file disk path (ref_missing path) >>= λ contents. parse_ref path contents

  pub write_snapshot_index_entry : ObjectId → Disk
  write_snapshot_index_entry id =
      write_text_file_atomic disk (snapshot_index_entry_path metadata_dir id)
        (to_hex id ++ (b'\n' ∷ []))

  pub mark_snapshot_index_complete : Disk
  mark_snapshot_index_complete =
      write_text_file_atomic disk (snapshot_index_complete_path metadata_dir)
        snapshot_index_complete_text

  pub snapshot_index_complete_exists : Result RepositoryError Bool
  snapshot_index_complete_exists = path_exists disk (snapshot_index_complete_path metadata_dir)

  pub create_workspace_ref : Bytes → ObjectId → Result RepositoryError (Unit {0}) × Disk
  create_workspace_ref workspace id =
      let path = workspace_ref_path metadata_dir workspace in
      create_text_file_new disk path (to_hex id ++ (b'\n' ∷ []))
        (workspace_already_exists workspace path path)

  unfoldable pub write_workspace_ref : Bytes → ObjectId → Disk
  write_workspace_ref workspace id =
      write_text_file_atomic disk (workspace_ref_path metadata_dir workspace)
        (to_hex id ++ (b'\n' ∷ []))

  pub workspace_ref_exists : Bytes → Result RepositoryError Bool
  workspace_ref_exists workspace = path_exists disk (workspace_ref_path metadata_dir workspace)

  pub read_workspace_ref : Bytes → Result RepositoryError ObjectId
  read_workspace_ref workspace =
      let path = workspace_ref_path metadata_dir workspace in
      read_text_file disk path (ref_missing path) >>= λ contents. parse_ref path contents

-- The pointer file of an external workspace at `root`.
pub write_workspace_pointer : (Bytes → Bytes) → Disk → PathBuf → WorkspacePointer → Disk
write_workspace_pointer display disk root pointer =
    write_text_file_atomic disk (workspace_pointer_path root) (to_pointer_file display pointer)

pub read_workspace_pointer : Disk → PathBuf → Result RepositoryError WorkspacePointer
read_workspace_pointer disk root =
    let path = workspace_pointer_path root in
    read_text_file disk path (not_repository path) >>= λ contents.
    parse_workspace_pointer path contents
