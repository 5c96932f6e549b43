-- ===== src/Core/Tree/Writers.antt =====
-- What `to_canonical_bytes` writes, with no accumulator: each piece stands in front of the rest.
use era.Base.{
  Bytes, length, All, >>?-eq-some, ℕ, ◌^◌, ◌<◌, ◌≡◌, sym, ap, ◌∙◌, Option, none, some, List, [],
  ◌∷◌, ◌++◌, append-nil, append_assoc, arith,
}
use era.Base.ByteOrder.{InOrder}
use era.Base.Endian.{IsByte, to_be_bytes}
use era.Core.ObjectId.{IsObjectId}
use era.Core.Tree.{tree_magic, tag, TreeEntry, Tree, write_u32, write_entries, to_canonical_bytes}
use era.Core.Tree.Names.{IsSegment}
use era.Base.Utf8.{IsUtf8}

abbrev pub entry_onto : TreeEntry → Bytes → Bytes
entry_onto e r = tag e.kind ∷ (to_be_bytes 4 (length e.name) ++ (e.name ++ (e.id ++ r)))

abbrev pub entries_onto : List TreeEntry → Bytes → Bytes
entries_onto [] r = r
entries_onto (e ∷ es) r = entry_onto e (entries_onto es r)

abbrev pub tree_onto : List TreeEntry → Bytes
tree_onto es = tree_magic ++ (to_be_bytes 4 (length es) ++ entries_onto es [])

-- What the types `String` and `ObjectId` and the constructor `TreeEntry::new` guarantee.
pub record IsEntry (e : TreeEntry) : Type 0 where
  pub segment : IsSegment e.name
  pub utf8 : IsUtf8 e.name
  pub bytes : All IsByte e.name
  pub id_ok : IsObjectId e.id

abbrev pub Ordered : Option Bytes → List TreeEntry → Type 0
Ordered previous [] = Unit
Ordered previous (e ∷ es) = InOrder previous e.name × Ordered (some e.name) es

-- A tree as `Tree::new` builds it: entries in the strict order of the bytes of their names.
pub record IsTree (t : Tree) : Type 0 where
  pub each : All IsEntry t.entries
  pub ordered : Ordered none t.entries

abbrev pub ShortName : TreeEntry → Type 0
ShortName e = length e.name < 2 ^ 32

write_u32-some :
    (output : Bytes) (n : ℕ) {out : Bytes}
    → write_u32 output n ≡ some out
    → (n < 2 ^ 32) × (out ≡ output ++ to_be_bytes 4 n)
unfolding write_u32
write_u32-some output n h = ground arith

write_u32-lt :
    (output : Bytes) (n : ℕ) → n < 2 ^ 32 → write_u32 output n ≡ some (output ++ to_be_bytes 4 n)
unfolding write_u32
write_u32-lt output n h = ground arith

write_entries-some :
    (es : List TreeEntry) (output : Bytes) {out : Bytes}
    → write_entries output es ≡ some out
    → All ShortName es × (out ≡ output ++ entries_onto es [])
unfolding write_entries
write_entries-some [] output h = (tt, let e : output ≡ _ = cc in sym e ∙ sym (append-nil output))
write_entries-some (e ∷ es) output {out} h =
    let (mid, e1, e2) = >>?-eq-some (write_u32 (output ++ tag e.kind ∷ []) (length e.name)) _ h in
    let (short, eq) = write_u32-some _ _ e1 in
    let (rest, eq2) = write_entries-some es ((mid ++ e.name) ++ e.id) e2 in
    ((short, rest), eq2 ∙ simp (eq, append_assoc))

write_entries-All :
    (es : List TreeEntry) (output : Bytes)
    → All ShortName es
    → write_entries output es ≡ some (output ++ entries_onto es [])
unfolding write_entries
write_entries-All [] output h = ap some (sym (append-nil output))
write_entries-All (e ∷ es) output (p, h) =
    rw (write_u32-lt (output ++ tag e.kind ∷ []) (length e.name) p)
      (write_entries-All es _ h ∙ simp append_assoc)

pub to_canonical_bytes-some :
    (t : Tree) {out : Bytes}
    → to_canonical_bytes t ≡ some out
    → (length t.entries < 2 ^ 32) × All ShortName t.entries × (out ≡ tree_onto t.entries)
unfolding to_canonical_bytes
to_canonical_bytes-some t h =
    let (mid, e1, e2) = >>?-eq-some (write_u32 tree_magic (length t.entries)) _ h in
    let (short, eq) = write_u32-some tree_magic (length t.entries) e1 in
    let (names, eq2) = write_entries-some t.entries mid e2 in
    (short, names, eq2 ∙ ap (λ m. m ++ entries_onto t.entries []) eq ∙ simp append_assoc)

pub to_canonical_bytes-All :
    (t : Tree)
    → length t.entries < 2 ^ 32
    → All ShortName t.entries
    → to_canonical_bytes t ≡ some (tree_onto t.entries)
unfolding to_canonical_bytes
to_canonical_bytes-All t n h =
    rw (write_u32-lt tree_magic (length t.entries) n)
      (write_entries-All t.entries _ h ∙ simp append_assoc)
