-- ===== src/Core/Snapshot/Readers.antt =====
-- Each method of `SnapshotCursor`, on a buffer no longer than a Rust slice can be: it reads what
-- stands at its offset, and what it returns stood there.
use Prim.Native.String.{String}
use Prim.Native.Nat.{min}
use era.Base.{
  ◌==◌, ==_iff, Bool-cases, Bytes, length, drop, All, All-append_left, Result, ok, err, bind-eq-ok,
  ℕ, zero, suc, ◌+◌, ◌-◌, ◌^◌, ◌≤◌, ◌<◌, ◌≡◌, refl, sym, ap, ap₂, ◌∙◌, subst, inl, inr, Option,
  none, some, List, [], ◌∷◌, ◌++◌, arith,
}
use era.Base.Endian.{IsByte, to_be_bytes}
use era.Base.Slice.{slice, usize_mod, At, At-slice, At-next}
use era.Base.Utf8.{is_utf8, IsUtf8}
use era.Core.Cursor.{
  Cursor, cursor, Gets, Stands, Stands-IsByte, Reader, ok-subst, byte_complete, be_complete,
  byte_sound, be_sound,
}
use era.Core.ObjectId.{ObjectId, IsObjectId}
use era.Core.Snapshot.{
  SnapshotError, SnapshotCursor, read_exact, read_object_id, read_u32, read_byte, from_utf8,
  read_string, map_some, read_optional_string, read_parents, ok,
}

-- No Rust object is longer than `isize::MAX` bytes.
abbrev pub slice_mod : ℕ
slice_mod = 2 ^ 63

-- A string whose length field fits 32 bits.
pub record IsText (s : Bytes) : Type 0 where
  pub utf8 : IsUtf8 s
  pub bytes : All IsByte s
  pub short : length s < 2 ^ 32

abbrev pub IsOptionalText : Option Bytes → Type 0
IsOptionalText none = Unit
IsOptionalText (some s) = IsText s

abbrev pub text_onto : Bytes → Bytes → Bytes
text_onto s r = to_be_bytes 4 (length s) ++ (s ++ r)

abbrev pub optional_onto : Option Bytes → Bytes → Bytes
optional_onto none r = 0 ∷ r
optional_onto (some s) r = 1 ∷ text_onto s r

abbrev pub ids_onto : List ObjectId → Bytes → Bytes
ids_onto [] r = r
ids_onto (id ∷ ids) r = id ++ ids_onto ids r

module _ (b : Bytes) (fits : length b < slice_mod) where
  read_exact_complete :
      (off n : ℕ) (ch r : Bytes)
      → At b off (ch ++ r)
      → length ch ≡ n
      → Gets b (read_exact n (cursor b off)) ch r
  unfolding read_exact
  read_exact_complete off n ch r a e =
      let (within, chunk, a') = At-slice {n = n} {ch = ch} a e in
      let stop : min (off + n) (usize_mod - 1) ≡ off + n = omega arith in
      record { next = off + n; returns = rw stop (ground (arith, chunk)); at_next = a' }

  read_exact_sound :
      (n : ℕ) (c c' : SnapshotCursor) (s ch : Bytes)
      → Stands b c s
      → read_exact n c ≡ ok (ch, c')
      → (r : Bytes) × (s ≡ ch ++ r) × (length ch ≡ n) × Stands b c' r
  unfolding read_exact
  read_exact_sound n c c' s ch a e =
      let e1 = rw a.is_cursor at e in
      let low : min (a.next + n) (usize_mod - 1) ≤ length b = ground arith in
      let within : a.next + n ≤ length b = omega arith in
      let stop : min (a.next + n) (usize_mod - 1) ≡ a.next + n = omega arith in
      let (split, len, a') = At-next n a.at_next within in
      let e2 : slice b a.next (a.next + n) ≡ ch = ground arith in
      let e3 : c' ≡ cursor b (a.next + n) = ground arith in
      (
        drop (a.next + n) b,
        split ∙ ap (λ t. t ++ drop (a.next + n) b) e2,
        ap length (sym e2) ∙ len,
        record { next = a.next + n; is_cursor = e3; at_next = a' },
      )

  pub reader : Reader b read_exact
  reader = record { complete = read_exact_complete; sound = read_exact_sound }

  pub read_string_complete :
      (field : String) (off : ℕ) (s r : Bytes)
      → IsText s
      → At b off (text_onto s r)
      → Gets b (read_string field (cursor b off)) s r
  unfolding read_string read_u32 from_utf8
  read_string_complete field off s r v a =
      let g = be_complete reader 4 off (length s) (s ++ r) v.short a in
      let h = reader.complete g.next (length s) s r g.at_next refl in
      record { next = h.next; returns = rw (g.returns, h.returns, v.utf8); at_next = h.at_next }

  pub read_optional_string_complete :
      (field : String) (off : ℕ) (o : Option Bytes) (r : Bytes)
      → IsOptionalText o
      → At b off (optional_onto o r)
      → Gets b (read_optional_string field (cursor b off)) o r
  unfolding read_optional_string read_byte map_some
  read_optional_string_complete field off none r v a =
      let g = byte_complete reader off 0 r a in
      record { next = g.next; returns = rw g.returns; at_next = g.at_next }
  read_optional_string_complete field off (some s) r v a =
      let g = byte_complete reader off 1 (text_onto s r) a in
      let h = read_string_complete field g.next s r v g.at_next in
      record { next = h.next; returns = rw (g.returns, h.returns); at_next = h.at_next }

  pub read_parents_complete :
      (ids : List ObjectId) (off : ℕ) (r : Bytes)
      → All IsObjectId ids
      → At b off (ids_onto ids r)
      → Gets b (read_parents (length ids) (cursor b off)) ids r
  unfolding read_parents read_object_id
  read_parents_complete [] off r v a = record { next = off; returns = refl; at_next = a }
  read_parents_complete (id ∷ ids) off r (v, vs) a =
      let g = reader.complete off 32 id (ids_onto ids r) a v.width in
      let h = read_parents_complete ids g.next r vs g.at_next in
      record { next = h.next; returns = rw (g.returns, h.returns); at_next = h.at_next }

  module _ (bytes : All IsByte b) where
    pub read_object_id_sound :
        (c c' : SnapshotCursor) (s id : Bytes)
        → Stands b c s
        → read_object_id c ≡ ok (id, c')
        → (r : Bytes) × (s ≡ id ++ r) × IsObjectId id × Stands b c' r
    unfolding read_object_id
    read_object_id_sound c c' s id a e =
        let (r, split, len, a') = reader.sound 32 c c' s id a e in
        (
          r,
          split,
          record {
            width = len;
            bytes = All-append_left IsByte id r (subst (All IsByte) split (Stands-IsByte bytes a));
          },
          a',
        )

    abbrev TookText : Bytes → Bytes → Cursor → Type 0
    TookText s x c' = (r : Bytes) × (s ≡ text_onto x r) × IsText x × Stands b c' r

    pub read_string_sound :
        (field : String) (c c' : SnapshotCursor) (s x : Bytes)
        → Stands b c s
        → read_string field c ≡ ok (x, c')
        → TookText s x c'
    unfolding read_string read_u32 from_utf8
    read_string_sound field c c' s x a e =
        let (p, e1, h1) = bind-eq-ok (read_u32 c) _ e in
        let (r1, s1, small, a1) = be_sound reader 4 c p.1 s p.0 bytes a e1 in
        let (q, e2, h2) = bind-eq-ok (read_exact p.0 p.1) _ h1 in
        let (r2, s2, len, a2) = reader.sound p.0 p.1 q.1 r1 q.0 a1 e2 in
        let text : All IsByte q.0 =
          All-append_left IsByte q.0 r2 (subst (All IsByte) s2 (Stands-IsByte bytes a1)) in
        elim (Bool-cases (is_utf8 q.0)) [
          | inl good ↦ ok-subst (TookText s) (rw good at h2) (
            r2,
            s1 ∙ ap₂ (λ (n : ℕ) t. to_be_bytes 4 n ++ t) (sym len) s2,
            record { utf8 = good; bytes = text; short = omega (arith, len, small) },
            a2,
          )
          | inr bad ↦ absurd (refused (rw bad at h2))
        ]
      where
        refused :
            {x : SnapshotError} {y : Bytes} {c' : Cursor}
            → ◌≡◌ {A = Result SnapshotError (Bytes × Cursor)} (err x) (ok (y, c'))
            → ⊥
        refused h = cc

    abbrev TookOptional : Bytes → Option Bytes → Cursor → Type 0
    TookOptional s o c' = (r : Bytes) × (s ≡ optional_onto o r) × IsOptionalText o × Stands b c' r

    pub read_optional_string_sound :
        (field : String) (c c' : SnapshotCursor) (s : Bytes) (o : Option Bytes)
        → Stands b c s
        → read_optional_string field c ≡ ok (o, c')
        → TookOptional s o c'
    unfolding read_optional_string read_byte map_some
    read_optional_string_sound field c c' s o a e =
        let (p, e1, h1) = bind-eq-ok (read_byte c) _ e in
        let (r1, s1, a1) = byte_sound reader c p.1 s p.0 a e1 in
        elim (Bool-cases (p.0 == 0)) [
          | inl zero_tag ↦
              ok-subst (TookOptional s) (rw zero_tag at h1)
                (r1, s1 ∙ ap (λ (t : ℕ). t ∷ r1) ((==_iff p.0 0).0 zero_tag), tt, a1)
          | inr more ↦ elim (Bool-cases (p.0 == 1)) [
            | inl one_tag ↦
                let (q, e2, h2) =
                  bind-eq-ok (read_string field p.1) map_some (rw (more, one_tag) at h1) in
                let (r2, s2, v, a2) = read_string_sound field p.1 q.1 r1 q.0 a1 e2 in
                ok-subst (TookOptional s) h2
                  (r2, s1 ∙ ap₂ (λ (t : ℕ) r. t ∷ r) ((==_iff p.0 1).0 one_tag) s2, v, a2)
            | inr other ↦ absurd (refused (rw (more, other) at h1))
          ]
        ]
      where
        refused :
            {x : SnapshotError} {y : Option Bytes} {c' : Cursor}
            → ◌≡◌ {A = Result SnapshotError (Option Bytes × Cursor)} (err x) (ok (y, c'))
            → ⊥
        refused h = cc

    abbrev TookIds : Bytes → ℕ → List ObjectId → Cursor → Type 0
    TookIds s n ids c' =
        (r : Bytes) × (s ≡ ids_onto ids r) × (length ids ≡ n) × All IsObjectId ids × Stands b c' r

    pub read_parents_sound :
        (n : ℕ) (c c' : SnapshotCursor) (s : Bytes) (ids : List ObjectId)
        → Stands b c s
        → read_parents n c ≡ ok (ids, c')
        → TookIds s n ids c'
    unfolding read_parents
    read_parents_sound zero c c' s ids a e = ok-subst (TookIds s 0) e (s, refl, refl, tt, a)
    read_parents_sound (suc n) c c' s ids a e =
        let (p, e1, h1) = bind-eq-ok (read_object_id c) _ e in
        let (r1, s1, v, a1) = read_object_id_sound c p.1 s p.0 a e1 in
        let (q, e2, h2) = bind-eq-ok (read_parents n p.1) _ h1 in
        let (r2, s2, len, vs, a2) = read_parents_sound n p.1 q.1 r1 q.0 a1 e2 in
        ok-subst (TookIds s (suc n)) h2 (r2, s1 ∙ ap (λ r. p.0 ++ r) s2, ap suc len, (v, vs), a2)
