-- ===== src/Repository/Refs/RoundTrip.antt =====
-- What crates/repository/src/refs.rs writes is what it reads.
use era.Base.ByteOrder.{bytes_eq, bytes_eq_refl}
use era.Repository.Workspace.{
  new_workspace_id, WorkspacePointer, pointer_magic, pointer_metadata_prefix,
  pointer_workspace_prefix, to_pointer_file,
}
use era.Base.{
  Bool-cases, Bytes, Result, ok, err, ◌>>=◌, map_err-eq-ok, ok_or, bind-eq-ok, ℕ, ◌≡◌, refl, sym,
  ap, ◌∙◌, ◌≢◌, ◌↔◌, inl, inr, true, some, [], ◌∷◌, ◌++◌, append_assoc, arith,
}
use era.Base.Utf8.{IsUtf8, IsUtf8-append, ascii-IsUtf8}
use era.Core.ObjectId.Parse.{from_hex-ok}
use era.Core.ObjectId.{ObjectId, IsObjectId, to_hex, from_hex}
use era.Core.Tree.{contains}
use era.Core.Tree.Names.{contains-false, ne-bytes_eq}
use era.ObjectStore.Disk.{PathBuf, Disk, set_file, set_file_self}
use era.Repository.Branch.Names.{IsPortable, new_branch_name_iff}
use era.Repository.Error.{RepositoryError, head_missing, invalid_head, ref_missing, invalid_ref}
use era.Repository.Refs.{
  head_prefix, refs_heads_prefix, head_path, branch_ref_path, workspace_ref_path, strip_newline,
  single_line, strip_return, lines_loop, parse_head, parse_ref, not_empty, parse_pointer_lines,
  parse_workspace_pointer, read_text_file, write_text_file_atomic, write_head, read_head_branch,
  write_branch_ref, read_branch_ref, write_workspace_ref, read_workspace_ref,
}
use era.Repository.Refs.Text.{
  NoNewline, strip_newline-append, strip_prefix-append, single_line-append, newline-IsUtf8,
  to_hex-IsUtf8, parse_ref-to_hex, single_line-none, read_text_file-ok, lines_loop-line,
  lines_loop-last,
}

parse_ref-IsObjectId :
    (path : PathBuf) (contents : Bytes) (id : ObjectId)
    → parse_ref path contents ≡ ok id
    → IsObjectId id
unfolding parse_ref
parse_ref-IsObjectId path contents id h =
    let (line, _, h1) = bind-eq-ok (ok_or (single_line contents) (invalid_ref path contents)) _ h in
    (from_hex-ok line (map_err-eq-ok _ (from_hex line) h1)).0

pub read_branch_ref-IsObjectId :
    (m : PathBuf) (disk : Disk) (branch : Bytes) (id : ObjectId)
    → read_branch_ref m disk branch ≡ ok id
    → IsObjectId id
unfolding read_branch_ref
read_branch_ref-IsObjectId m disk branch id h =
    let (contents, _, h1) = bind-eq-ok (read_text_file disk (branch_ref_path m branch) _) _ h in
    parse_ref-IsObjectId (branch_ref_path m branch) contents id h1

pub read_workspace_ref-IsObjectId :
    (m : PathBuf) (disk : Disk) (workspace : Bytes) (id : ObjectId)
    → read_workspace_ref m disk workspace ≡ ok id
    → IsObjectId id
unfolding read_workspace_ref
read_workspace_ref-IsObjectId m disk workspace id h =
    let (contents, _, h1) =
      bind-eq-ok (read_text_file disk (workspace_ref_path m workspace) _) _ h in
    parse_ref-IsObjectId (workspace_ref_path m workspace) contents id h1

module _ (metadata_dir : PathBuf) (disk : Disk) where
  pub read_branch_ref-write_branch_ref :
      (branch : Bytes) (id : ObjectId)
      → IsObjectId id
      → read_branch_ref metadata_dir (write_branch_ref metadata_dir disk branch id) branch ≡ ok id
  unfolding read_branch_ref write_branch_ref write_text_file_atomic
  read_branch_ref-write_branch_ref branch id v =
      let path = branch_ref_path metadata_dir branch in
      rw
        (
          read_text_file-ok (set_file disk path (to_hex id ++ (b'\n' ∷ []))) path (ref_missing path)
              _ (set_file_self disk path (to_hex id ++ (b'\n' ∷ []))) (to_hex-IsUtf8 id),
          ◌>>=◌,
        )
        (parse_ref-to_hex path id v)

  pub read_workspace_ref-write_workspace_ref :
      (workspace : Bytes) (id : ObjectId)
      → IsObjectId id
      → read_workspace_ref metadata_dir
          (write_workspace_ref metadata_dir disk workspace id)
          workspace
        ≡ ok id
  unfolding read_workspace_ref write_workspace_ref write_text_file_atomic
  read_workspace_ref-write_workspace_ref workspace id v =
      let path = workspace_ref_path metadata_dir workspace in
      rw
        (
          read_text_file-ok (set_file disk path (to_hex id ++ (b'\n' ∷ []))) path (ref_missing path)
              _ (set_file_self disk path (to_hex id ++ (b'\n' ∷ []))) (to_hex-IsUtf8 id),
          ◌>>=◌,
        )
        (parse_ref-to_hex path id v)

  abbrev head_text : Bytes → Bytes
  head_text branch = head_prefix ++ (refs_heads_prefix ++ (branch ++ (b'\n' ∷ [])))

  head_text-IsUtf8 : (branch : Bytes) → IsUtf8 branch → IsUtf8 (head_text branch)
  head_text-IsUtf8 branch h =
      IsUtf8-append head_prefix _ (ascii-IsUtf8 head_prefix (ground arith)) (
        IsUtf8-append refs_heads_prefix _ (ascii-IsUtf8 refs_heads_prefix (ground arith))
          (newline-IsUtf8 branch h))

  read_head_branch-head_text :
      (branch : Bytes)
      → IsUtf8 branch
      → read_head_branch metadata_dir (write_head metadata_dir disk branch)
        ≡ parse_head (head_path metadata_dir) (head_text branch)
  unfolding read_head_branch write_head write_text_file_atomic
  read_head_branch-head_text branch u =
      let path = head_path metadata_dir in
      rw
        (
          read_text_file-ok (set_file disk path (head_text branch)) path (head_missing path) _
              (set_file_self disk path (head_text branch)) (head_text-IsUtf8 branch u),
          ◌>>=◌,
        )
        refl

parse_head-head_text :
    (path : PathBuf) (branch : Bytes)
    → NoNewline branch
    → IsPortable branch
    → parse_head path (head_prefix ++ (refs_heads_prefix ++ (branch ++ (b'\n' ∷ [])))) ≡ ok branch
unfolding parse_head
parse_head-head_text path branch n v =
    let line : single_line (head_prefix ++ (refs_heads_prefix ++ (branch ++ (b'\n' ∷ []))))
        ≡ some (head_prefix ++ (refs_heads_prefix ++ branch)) =
      single_line-append (head_prefix ++ (refs_heads_prefix ++ branch)) (ground (arith, n))
        (λ e. cc) in
    rw
      (
        line,
        ◌>>=◌,
        strip_prefix-append head_prefix (refs_heads_prefix ++ branch),
        strip_prefix-append refs_heads_prefix branch,
        (new_branch_name_iff branch).0.1 v,
      )
      refl

parse_head-newline :
    (path : PathBuf) (branch : Bytes)
    → contains b'\n' branch ≡ true
    → parse_head path (head_prefix ++ (refs_heads_prefix ++ (branch ++ (b'\n' ∷ []))))
      ≡ err (invalid_head path (head_prefix ++ (refs_heads_prefix ++ (branch ++ (b'\n' ∷ [])))))
unfolding parse_head
parse_head-newline path branch h =
    rw (single_line-none (head_prefix ++ refs_heads_prefix) branch h, ◌>>=◌) refl

-- HEAD reads back as the branch that was written to it, exactly when the name holds no line feed,
-- which `BranchName::new` does not see to. The name is UTF-8 and one that `BranchName::new` accepts.
pub read_head_branch-write_head :
    (metadata_dir : PathBuf) (disk : Disk) (branch : Bytes)
    → IsUtf8 branch
    → IsPortable branch
    → (read_head_branch metadata_dir (write_head metadata_dir disk branch) ≡ ok branch)
      ↔ NoNewline branch
read_head_branch-write_head metadata_dir disk branch u v = (
  λ h. elim (Bool-cases (contains b'\n' branch)) [
    | inl bad ↦ absurd (
        refused (
          sym (
            read_head_branch-head_text metadata_dir disk branch u
            ∙ parse_head-newline (head_path metadata_dir) branch bad)
          ∙ h))
    | inr good ↦ contains-false b'\n' branch good
  ],
  λ n.
      read_head_branch-head_text metadata_dir disk branch u
      ∙ parse_head-head_text (head_path metadata_dir) branch n v,
)
  where
    refused : {x : RepositoryError} → ◌≡◌ {A = Result RepositoryError Bytes} (err x) (ok branch) → ⊥
    refused h = cc

strip_return-cons : (x : ℕ) (s : Bytes) → s ≢ [] → strip_return (x ∷ s) ≡ x ∷ strip_return s
unfolding strip_return
strip_return-cons x [] n = absurd (n refl)
strip_return-cons x (y ∷ s) n = refl

strip_return-append : (p s : Bytes) → s ≢ [] → strip_return s ≡ s → strip_return (p ++ s) ≡ p ++ s
strip_return-append [] s n e = e
strip_return-append (x ∷ p) s n e =
    strip_return-cons x (p ++ s) (λ h. n (tail_nil p h))
    ∙ ap (λ t. x ∷ t) (strip_return-append p s n e)
  where
    tail_nil : (p : Bytes) → p ++ s ≡ [] → s ≡ []
    tail_nil [] h = h
    tail_nil (x ∷ p) h = cc

not_empty-some : (s : Bytes) → s ≢ [] → not_empty (some s) ≡ some s
unfolding not_empty
not_empty-some s n = rw (ne-bytes_eq s [] n) refl

-- `Path::display` shows a path that is text as it is.
abbrev pub IsDisplay : (Bytes → Bytes) → Type 0
IsDisplay display = (s : Bytes) → IsUtf8 s → display s ≡ s

-- The lines of the pointer file.
pointer_lines :
    (display : Bytes → Bytes) (p : WorkspacePointer)
    → display p.metadata_dir ≡ p.metadata_dir
    → NoNewline p.metadata_dir
    → NoNewline p.workspace_id
    → p.metadata_dir ≢ []
    → strip_return p.metadata_dir ≡ p.metadata_dir
    → lines_loop [] (strip_newline (to_pointer_file display p))
      ≡ pointer_magic
        ∷ (pointer_metadata_prefix ++ p.metadata_dir)
        ∷ (pointer_workspace_prefix ++ p.workspace_id)
        ∷ []
unfolding to_pointer_file strip_return
pointer_lines display p shown h k n r =
    let meta = pointer_metadata_prefix ++ p.metadata_dir in
    let last = pointer_workspace_prefix ++ p.workspace_id in
    let body = pointer_magic ++ (b'\n' ∷ (meta ++ (b'\n' ∷ last))) in
    let e : body ++ (b'\n' ∷ []) ≡ to_pointer_file display p =
      rw (to_pointer_file, shown)
        (ap (λ (t : Bytes). pointer_magic ++ (b'\n' ∷ (pointer_metadata_prefix ++ t)))
          (append_assoc p.metadata_dir (b'\n' ∷ last) (b'\n' ∷ []))) in
    ap (λ t. lines_loop [] (strip_newline t)) (sym e)
    ∙ ap (lines_loop []) (strip_newline-append body)
    ∙ lines_loop-line [] pointer_magic (meta ++ (b'\n' ∷ last)) (ground arith)
    ∙ ap (λ t. pointer_magic ∷ t)
        (lines_loop-line [] meta last (ground (arith, h))
          ∙ ap (λ t. t ∷ lines_loop [] last)
              (strip_return-append pointer_metadata_prefix p.metadata_dir n r)
          ∙ ap (λ t. meta ∷ t) (lines_loop-last [] last (ground (arith, k)) (λ x. cc)))

-- The pointer file of a workspace reads back as the pointer, when the path of the metadata directory
-- is UTF-8, holds no line feed, does not end with a carriage return and is not empty, and the
-- identifier is one that `WorkspaceId::new` accepts, without a line feed. `Path::display` shows a
-- path that is UTF-8 as it is.
pub parse_workspace_pointer-to_pointer_file :
    (path : PathBuf) (display : Bytes → Bytes) (p : WorkspacePointer)
    → IsDisplay display
    → IsUtf8 p.metadata_dir
    → NoNewline p.metadata_dir
    → NoNewline p.workspace_id
    → p.metadata_dir ≢ []
    → p.workspace_id ≢ []
    → strip_return p.metadata_dir ≡ p.metadata_dir
    → new_workspace_id p.workspace_id ≡ ok p.workspace_id
    → parse_workspace_pointer path (to_pointer_file display p) ≡ ok p
unfolding parse_workspace_pointer parse_pointer_lines
parse_workspace_pointer-to_pointer_file path display p d u h k n m r v =
    let magic : bytes_eq pointer_magic pointer_magic ≡ true = bytes_eq_refl pointer_magic in
    rw
      (
        pointer_lines display p (d p.metadata_dir u) h k n r,
        magic,
        strip_prefix-append pointer_metadata_prefix p.metadata_dir,
        not_empty-some p.metadata_dir n,
        ◌>>=◌,
        strip_prefix-append pointer_workspace_prefix p.workspace_id,
        not_empty-some p.workspace_id m,
        v,
      )
      refl
