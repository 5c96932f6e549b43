-- ===== src/Core/Tree/Canonical.antt =====
-- The decoder of tree.rs against its encoder, in both directions.
use era.Base.ByteOrder.{InOrder}
use era.Core.Cursor.{
  Cursor, cursor, Gets, Stands, Stands-start, Stands-IsByte, Stands-end, ok-subst, byte_complete,
  be_complete, byte_sound, be_sound, literal_sound,
}
use era.Core.ObjectId.{object_id_bytes}
use era.Base.{
  ◌==◌, ==_iff, Bool-cases, Bytes, length, All, All-append_left, Result, ok, err, ok_or, bind-eq-ok,
  ok_or-eq-ok, ℕ, zero, suc, ◌+◌, ◌<◌, ◌≡◌, refl, sym, ap, ap₂, ◌∙◌, subst, inl, inr, true, Option,
  none, some, List, [], ◌∷◌, ◌++◌, arith,
}
use era.Base.Endian.{IsByte, to_be_bytes}
use era.Base.Slice.{usize_mod, At, At-start, At-length}
use era.Base.Utf8.{IsUtf8}
use era.Core.Tree.{
  tree_magic, EntryKind, blob, tree, tag, from_tag, TreeEntry, Tree, TreeError, invalid_magic,
  invalid_entry_kind, validate_entry_name, to_canonical_bytes, read_exact, read_magic, read_byte,
  ok, read_u32, is_finished, from_utf8, check_order, read_entry, read_entries, from_canonical_bytes,
}
use era.Core.Tree.Names.{validate_entry_name-ok, IsSegment-validate_entry_name}
use era.Core.Tree.Readers.{reader, read_magic_complete}
use era.Core.Tree.Writers.{
  entry_onto, entries_onto, tree_onto, IsEntry, Ordered, IsTree, ShortName, to_canonical_bytes-some,
  to_canonical_bytes-All,
}

from_tag-tag : (kind : EntryKind) → from_tag (tag kind) ≡ some kind
unfolding from_tag tag
from_tag-tag blob = refl
from_tag-tag tree = refl

from_tag-some : (x : ℕ) (kind : EntryKind) → from_tag x ≡ some kind → x ≡ tag kind
unfolding from_tag tag
from_tag-some x blob h = ground arith
from_tag-some x tree h = ground arith

from_utf8-IsUtf8 : (i : ℕ) (s : Bytes) → IsUtf8 s → from_utf8 i s ≡ ok s
unfolding from_utf8
from_utf8-IsUtf8 i s h = ground arith

from_utf8-ok : (i : ℕ) (s : Bytes) {n : Bytes} → from_utf8 i s ≡ ok n → IsUtf8 s × (s ≡ n)
unfolding from_utf8
from_utf8-ok i s h = ground arith

check_order-InOrder :
    (previous : Option Bytes) (name : Bytes)
    → InOrder previous name
    → check_order previous name ≡ ok tt
unfolding check_order
check_order-InOrder none name h = refl
check_order-InOrder (some p) name h = ground arith

check_order-ok :
    (previous : Option Bytes) (name : Bytes) {u : Unit {0}}
    → check_order previous name ≡ ok u
    → InOrder previous name
unfolding check_order
check_order-ok none name h = tt
check_order-ok (some p) name h = ground arith

module _ (b : Bytes) (fits : length b < usize_mod) where
  read_entry-At :
      (off i : ℕ) (previous : Option Bytes) (e : TreeEntry) (r : Bytes)
      → IsEntry e
      → ShortName e
      → InOrder previous e.name
      → At b off (entry_onto e r)
      → Gets b (read_entry i previous (cursor b off)) e r
  unfolding read_entry read_byte read_u32
  read_entry-At off i previous e r v short order a =
      let rd = reader b fits in
      let g1 = byte_complete rd off (tag e.kind) _ a in
      let g2 = be_complete rd 4 g1.next (length e.name) _ short g1.at_next in
      let g3 = rd.complete g2.next (length e.name) e.name _ g2.at_next refl in
      let g4 = rd.complete g3.next 32 e.id r g3.at_next v.id_ok.width in
      record {
        next = g4.next;
        returns = rw (
          g1.returns,
          from_tag-tag e.kind,
          g2.returns,
          g3.returns,
          from_utf8-IsUtf8 _ _ v.utf8,
          IsSegment-validate_entry_name e.name v.segment,
          check_order-InOrder _ _ order,
          g4.returns,
        );
        at_next = g4.at_next;
      }

  read_entries-At :
      (es : List TreeEntry) (off i : ℕ) (previous : Option Bytes) (r : Bytes)
      → All IsEntry es
      → All ShortName es
      → Ordered previous es
      → At b off (entries_onto es r)
      → Gets b (read_entries (length es) i previous (cursor b off)) es r
  unfolding read_entries
  read_entries-At [] off i previous r v s o a = record { next = off; returns = refl; at_next = a }
  read_entries-At (e ∷ es) off i previous r (v, vs) (s, ss) (o, os) a =
      let g = read_entry-At off i previous e _ v s o a in
      let h = read_entries-At es g.next (i + 1) (some e.name) r vs ss os g.at_next in
      record { next = h.next; returns = rw (g.returns, h.returns); at_next = h.at_next }

  -- What a successful read of one entry says of the bytes before and behind it.
  abbrev TookEntry : Option Bytes → Bytes → TreeEntry → Cursor → Type 0
  TookEntry previous s e c' =
      (r : Bytes) × (s ≡ entry_onto e r)
      × IsEntry e
      × ShortName e
      × InOrder previous e.name
      × Stands b c' r

  entry_onto-join :
      (name id r4 : Bytes) (kind : EntryKind) {s r1 r2 r3 : Bytes} {x n : ℕ}
      → s ≡ x ∷ r1
      → x ≡ tag kind
      → r1 ≡ to_be_bytes 4 n ++ r2
      → length name ≡ n
      → r2 ≡ name ++ r3
      → r3 ≡ id ++ r4
      → s ≡ entry_onto (record { name = name; kind = kind; id = id }) r4
  entry_onto-join name id r4 kind e1 e2 e3 e4 e5 e6 = rw (e1, e2, e3, e4, e5, e6)

  module _ (bytes : All IsByte b) where
    read_entry-ok :
        (i : ℕ) (previous : Option Bytes) {c c' : Cursor} {s : Bytes} {e : TreeEntry}
        → Stands b c s
        → read_entry i previous c ≡ ok (e, c')
        → TookEntry previous s e c'
    unfolding read_entry read_byte read_u32
    read_entry-ok i previous {c} {c'} {s} {e} a h =
        let rd = reader b fits in
        let (p1, e1, h1) = bind-eq-ok (read_byte c) _ h in
        let (r1, s1, a1) = byte_sound rd c p1.1 s p1.0 a e1 in
        let (kind, e2, h2) = bind-eq-ok (ok_or (from_tag p1.0) (invalid_entry_kind i p1.0)) _ h1 in
        let (p3, e3, h3) = bind-eq-ok (read_u32 p1.1) _ h2 in
        let (r3, s3, small, a3) = be_sound rd 4 p1.1 p3.1 r1 p3.0 bytes a1 e3 in
        let (p4, e4, h4) = bind-eq-ok (read_exact p3.0 p3.1) _ h3 in
        let (r4, s4, len, a4) = rd.sound p3.0 p3.1 p4.1 r3 p4.0 a3 e4 in
        let (name, e5, h5) = bind-eq-ok (from_utf8 i p4.0) _ h4 in
        let (utf8, same) = from_utf8-ok i p4.0 e5 in
        let (u6, e6, h6) = bind-eq-ok (validate_entry_name name) _ h5 in
        let (u7, e7, h7) = bind-eq-ok (check_order previous name) _ h6 in
        let (p8, e8, h8) = bind-eq-ok (read_exact object_id_bytes p4.1) _ h7 in
        let (r8, s8, len8, a8) = rd.sound 32 p4.1 p8.1 r4 p8.0 a4 e8 in
        let name_bytes : All IsByte p4.0 =
          All-append_left IsByte p4.0 r4 (subst (All IsByte) s4 (Stands-IsByte bytes a3)) in
        let id_bytes : All IsByte p8.0 =
          All-append_left IsByte p8.0 r8 (subst (All IsByte) s8 (Stands-IsByte bytes a4)) in
        ok-subst (TookEntry previous s) h8 (
          r8,
          entry_onto-join name p8.0 r8 kind s1 (from_tag-some p1.0 kind (ok_or-eq-ok _ _ e2)) s3
              (ap length (sym same) ∙ len) (s4 ∙ ap (λ t. t ++ r4) same) s8,
          record {
            segment = validate_entry_name-ok name e6;
            utf8 = subst IsUtf8 same utf8;
            bytes = subst (All IsByte) same name_bytes;
            id_ok = record { width = len8; bytes = id_bytes };
          },
          omega (arith, ap length same),
          check_order-ok previous name e7,
          a8,
        )

    abbrev TookEntries : Option Bytes → Bytes → ℕ → List TreeEntry → Cursor → Type 0
    TookEntries previous s n es c' =
        (r : Bytes) × (s ≡ entries_onto es r)
        × (length es ≡ n)
        × All IsEntry es
        × All ShortName es
        × Ordered previous es
        × Stands b c' r

    read_entries-ok :
        (n i : ℕ) (previous : Option Bytes) {c c' : Cursor} {s : Bytes} {es : List TreeEntry}
        → Stands b c s
        → read_entries n i previous c ≡ ok (es, c')
        → TookEntries previous s n es c'
    unfolding read_entries
    read_entries-ok zero i previous {s = s} a h =
        ok-subst (TookEntries previous s 0) h (s, refl, refl, tt, tt, tt, a)
    read_entries-ok (suc n) i previous {c} {c'} {s} {es} a h =
        let (p, e1, h1) = bind-eq-ok (read_entry i previous c) _ h in
        let (r, s1, v, short, o, a1) = read_entry-ok i previous a e1 in
        let (q, e2, h2) = bind-eq-ok (read_entries n (i + 1) (some p.0.name) p.1) _ h1 in
        let (r2, s2, len, vs, shorts, os, a2) = read_entries-ok n (i + 1) (some p.0.name) a1 e2 in
        ok-subst (TookEntries previous s (suc n)) h2
          (r2, s1 ∙ ap (entry_onto p.0) s2, ap suc len, (v, vs), (short, shorts), (o, os), a2)

-- Every tree whose length fields fit 32 bits has canonical bytes, and decoding those bytes gives
-- the tree back. The bytes must fit the address space, as every Rust slice does.
pub Tree-round_trip :
    (t : Tree) (bytes : Bytes)
    → IsTree t
    → to_canonical_bytes t ≡ some bytes
    → length bytes < usize_mod
    → from_canonical_bytes bytes ≡ ok t
unfolding from_canonical_bytes
Tree-round_trip t bytes v h fits =
    let (small, short, eq) = to_canonical_bytes-some t h in
    let start = subst (At bytes 0) eq (At-start bytes) in
    let (off, e1, a1) = read_magic_complete bytes fits _ start in
    let g2 = be_complete (reader bytes fits) 4 off (length t.entries) _ small a1 in
    let g3 =
      read_entries-At bytes fits t.entries g2.next 0 none [] v.each short v.ordered g2.at_next in
    let done : (g3.next == length bytes) ≡ true =
      (==_iff _ _).1 (omega (arith, At-length g3.at_next)) in
    rw (e1, g2.returns, g3.returns, done)

-- Whatever the decoder accepts is the canonical encoding of the tree that it returns, and that
-- tree is well formed: names that are UTF-8 path segments in strict order, identifiers of 32 bytes.
pub Tree-canonical :
    (bytes : Bytes) (t : Tree)
    → All IsByte bytes
    → length bytes < usize_mod
    → from_canonical_bytes bytes ≡ ok t
    → IsTree t × (to_canonical_bytes t ≡ some bytes)
unfolding from_canonical_bytes
Tree-canonical bytes t small fits h =
    let rd = reader bytes fits in
    let (c1, e1, h1) = bind-eq-ok (read_magic (cursor bytes 0)) _ h in
    let (r1, s1, a1) =
      literal_sound rd tree_magic invalid_magic (cursor bytes 0) c1 bytes (Stands-start bytes) e1 in
    let (p2, e2, h2) = bind-eq-ok (read_u32 c1) _ h1 in
    let (r2, s2, count, a2) = be_sound rd 4 c1 p2.1 r1 p2.0 small a1 e2 in
    let (p3, e3, h3) = bind-eq-ok (read_entries p2.0 0 none p2.1) _ h2 in
    let (r3, s3, len, v, short, o, a3) = read_entries-ok bytes fits small p2.0 0 none a2 e3 in
    elim (Bool-cases (is_finished p3.1)) [
      | inl done ↦
          let e4 : record { entries = p3.0 } ≡ t = accepted p3.0 (rw done at h3) in
          let whole : bytes ≡ tree_onto p3.0 =
            s1
            ∙ ap (λ r. tree_magic ++ r)
                (s2
                  ∙ ap₂ (λ (k : ℕ) r. to_be_bytes 4 k ++ r) (sym len)
                      (s3 ∙ ap (entries_onto p3.0) (Stands-end a3 done))) in
          let valid : IsTree (record { entries = p3.0 }) = record { each = v; ordered = o } in
          subst (λ u. IsTree u × (to_canonical_bytes u ≡ some bytes)) e4
            (
              valid,
              to_canonical_bytes-All (record { entries = p3.0 }) (omega (arith, count, len)) short
                  ∙ ap some (sym whole),
            )
      | inr other ↦ absurd (refused (rw other at h3))
    ]
  where
    accepted :
        (es : List TreeEntry)
        → ◌≡◌ {A = Result TreeError Tree} (ok (record { entries = es })) (ok t)
        → record { entries = es } ≡ t
    accepted es h = cc

    refused : {e : TreeError} → ◌≡◌ {A = Result TreeError Tree} (err e) (ok t) → ⊥
    refused h = cc
