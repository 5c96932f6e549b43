-- ===== src/Repository/Refs/Text.antt =====
-- The text helpers of crates/repository/src/refs.rs on text that the program writes.
use era.Base.{
  ◌==◌, Bytes, length, All, ok, ◌>>=◌, ℕ, ◌≡◌, refl, sym, ap, ◌∙◌, subst, ◌≢◌, true, false, none,
  some, [], ◌∷◌, ◌++◌, append-nil, append_assoc, arith,
}
use era.Base.Utf8.{is_utf8, IsUtf8, IsUtf8-append, ascii-IsUtf8}
use era.Core.ObjectId.{ObjectId, IsObjectId, to_hex}
use era.Core.ObjectId.Text.{to_hex_ascii, to_hex_no_newline}
use era.Core.ObjectId.Parse.{length-to_hex, from_hex-to_hex}
use era.Core.Tree.{contains}
use era.Core.Tree.Names.{contains-All, contains-append, ne-bytes_eq}
use era.ObjectStore.Disk.{PathBuf, Disk}
use era.Repository.Error.{RepositoryError}
use era.Repository.Refs.{
  strip_newline, strip_prefix, single_line, strip_return, lines_loop, parse_ref, read_text_file,
}

abbrev pub NoNewline : Bytes → Type 0
NoNewline s = All (λ b. b ≢ b'\n') s

pub strip_newline-append : (s : Bytes) → strip_newline (s ++ (b'\n' ∷ [])) ≡ s
unfolding strip_newline
strip_newline-append [] = refl
strip_newline-append (x ∷ []) = refl
strip_newline-append (x ∷ y ∷ s) = ap (λ t. x ∷ t) (strip_newline-append (y ∷ s))

pub strip_prefix-append : (p s : Bytes) → strip_prefix p (p ++ s) ≡ some s
unfolding strip_prefix
strip_prefix-append [] s = refl
strip_prefix-append (x ∷ p) s = ground (arith, strip_prefix-append p s)

pub single_line-append :
    (s : Bytes) → NoNewline s → s ≢ [] → single_line (s ++ (b'\n' ∷ [])) ≡ some s
unfolding single_line
single_line-append s h n = rw (strip_newline-append s, contains-All _ s h, ne-bytes_eq s [] n) refl

pub newline-IsUtf8 : (s : Bytes) → IsUtf8 s → IsUtf8 (s ++ (b'\n' ∷ []))
unfolding is_utf8
newline-IsUtf8 s h = IsUtf8-append s (b'\n' ∷ []) h refl

pub to_hex-IsUtf8 : (id : ObjectId) → IsUtf8 (to_hex id ++ (b'\n' ∷ []))
to_hex-IsUtf8 id = newline-IsUtf8 (to_hex id) (ascii-IsUtf8 (to_hex id) (to_hex_ascii id))

to_hex-ne : (id : ObjectId) → IsObjectId id → to_hex id ≢ []
to_hex-ne id v e = omega (arith, length-to_hex id, v.width, ap (λ (s : Bytes). length s) e)

pub parse_ref-to_hex :
    (path : PathBuf) (id : ObjectId)
    → IsObjectId id
    → parse_ref path (to_hex id ++ (b'\n' ∷ [])) ≡ ok id
unfolding parse_ref
parse_ref-to_hex path id v =
    rw
      (
        single_line-append (to_hex id) (to_hex_no_newline id) (to_hex-ne id v),
        ◌>>=◌,
        from_hex-to_hex id v,
      )
      refl

-- A text that holds a line feed before its end is no single line.
pub single_line-none :
    (p s : Bytes) → contains b'\n' s ≡ true → single_line (p ++ (s ++ (b'\n' ∷ []))) ≡ none
unfolding single_line
single_line-none p s h =
    let e : strip_newline (p ++ (s ++ (b'\n' ∷ []))) ≡ p ++ s =
      ap strip_newline (sym (append_assoc p s (b'\n' ∷ []))) ∙ strip_newline-append (p ++ s) in
    rw (e, contains-append b'\n' p s h) refl

pub read_text_file-ok :
    (disk : Disk) (path : PathBuf) (missing : RepositoryError) (contents : Bytes)
    → disk path ≡ ok contents
    → IsUtf8 contents
    → read_text_file disk path missing ≡ ok contents
unfolding read_text_file
read_text_file-ok disk path missing contents h u = rw (h, u, read_text_file) refl

ne-eq : (a b : ℕ) → a ≢ b → (a == b) ≡ false
ne-eq a b h = ground (arith, h)

-- What a line loop makes of a line and its end.
pub lines_loop-line :
    (line s rest : Bytes)
    → NoNewline s
    → lines_loop line (s ++ (b'\n' ∷ rest)) ≡ strip_return (line ++ s) ∷ lines_loop [] rest
unfolding lines_loop
lines_loop-line line [] rest h =
    ap (λ t. strip_return t ∷ lines_loop [] rest) (sym (append-nil line))
lines_loop-line line (x ∷ s) rest (n, h) =
    rw (ne-eq x b'\n' n, lines_loop)
      (lines_loop-line (line ++ (x ∷ [])) s rest h
        ∙ ap (λ t. strip_return t ∷ lines_loop [] rest) (append_assoc line (x ∷ []) s))

pub lines_loop-last :
    (line s : Bytes) → NoNewline s → line ++ s ≢ [] → lines_loop line s ≡ (line ++ s) ∷ []
unfolding lines_loop
lines_loop-last [] [] h n = absurd (n refl)
lines_loop-last (y ∷ line) [] h n = ap (λ t. t ∷ []) (sym (append-nil (y ∷ line)))
lines_loop-last line (x ∷ s) (m, h) n =
    let e = append_assoc line (x ∷ []) s in
    rw (ne-eq x b'\n' m, lines_loop)
      (lines_loop-last (line ++ (x ∷ [])) s h (subst (λ (t : Bytes). t ≢ []) (sym e) n)
        ∙ ap (λ t. t ∷ []) e)
