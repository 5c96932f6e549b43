-- ===== src/Merge/Hunks.antt =====
-- The hunks of a merge in crates/merge/src/lib.rs: a Vec is a list, and a push appends.
use era.Base.{
  if◌then◌else◌, Bytes, Bool, true, false, not, ◌&&◌, ◌||◌, Option, some, List, [], ◌∷◌, ◌++◌,
}
use era.Merge.{
  ConflictKind, both_inserted, both_modified, modify_delete, MergeHunk, resolved_hunk,
  conflict_hunk,
}
use era.Merge.Lines.{Line, lines_to_bytes}

-- The match on `hunks.last_mut()`.
unfoldable pub extend_last : List MergeHunk → Bytes → List MergeHunk
extend_last [] bytes = resolved_hunk bytes ∷ []
extend_last (resolved_hunk existing ∷ []) bytes = resolved_hunk (existing ++ bytes) ∷ []
extend_last (conflict_hunk conflict ∷ []) bytes = conflict_hunk conflict ∷ resolved_hunk bytes ∷ []
extend_last (hunk ∷ next ∷ hunks) bytes = hunk ∷ extend_last (next ∷ hunks) bytes

unfoldable pub push_resolved_bytes : List MergeHunk → Bytes → List MergeHunk
push_resolved_bytes hunks [] = hunks
push_resolved_bytes hunks (byte ∷ bytes) = extend_last hunks (byte ∷ bytes)

unfoldable pub push_resolved_lines : List MergeHunk → List Line → List MergeHunk
push_resolved_lines hunks [] = hunks
push_resolved_lines hunks (line ∷ lines) = push_resolved_bytes hunks (lines_to_bytes (line ∷ lines))

unfoldable pub push_conflict :
    List MergeHunk → ConflictKind → Option Bytes → Bytes → Bytes → Bytes → List MergeHunk
push_conflict hunks kind path base ours theirs =
    hunks
    ++ (conflict_hunk (record {
      kind = kind;
      path = path;
      base = some base;
      ours = some ours;
      theirs = some theirs;
    })
        ∷ [])

pub concat_resolved_hunks : List MergeHunk → Bytes
concat_resolved_hunks [] = []
concat_resolved_hunks (resolved_hunk bytes ∷ hunks) = bytes ++ concat_resolved_hunks hunks
concat_resolved_hunks (conflict_hunk conflict ∷ hunks) = concat_resolved_hunks hunks

abbrev pub is_empty : Bytes → Bool
is_empty [] = true
is_empty (byte ∷ bytes) = false

pub classify_content_conflict : Bytes → Bytes → Bytes → ConflictKind
classify_content_conflict base ours theirs =
    if not (is_empty base) && (is_empty ours || is_empty theirs)
    then modify_delete
    else if is_empty base
    then both_inserted
    else both_modified
