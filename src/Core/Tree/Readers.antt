-- ===== src/Core/Tree/Readers.antt =====
-- `TreeCursor::read_exact` meets the interface of a reader on every buffer that fits the address
-- space.
use era.Base.{Bytes, length, drop, ok, ℕ, ◌+◌, ◌≤◌, ◌<◌, ◌≡◌, refl, sym, ap, ◌∙◌, ◌++◌, arith}
use era.Base.ByteOrder.{bytes_eq_refl}
use era.Base.Slice.{slice, usize_mod, At, At-slice, At-next}
use era.Core.Cursor.{cursor, Gets, Stands, Reader}
use era.Core.Tree.{tree_magic, TreeCursor, read_exact, read_magic, ok}

module _ (b : Bytes) (fits : length b < usize_mod) where
  read_exact_complete :
      (off n : ℕ) (ch r : Bytes)
      → At b off (ch ++ r)
      → length ch ≡ n
      → Gets b (read_exact n (cursor b off)) ch r
  unfolding read_exact
  read_exact_complete off n ch r a e =
      let (within, chunk, a') = At-slice {n = n} {ch = ch} a e in
      record { next = off + n; returns = ground (arith, chunk); at_next = a' }

  read_exact_sound :
      (n : ℕ) (c c' : TreeCursor) (s ch : Bytes)
      → Stands b c s
      → read_exact n c ≡ ok (ch, c')
      → (r : Bytes) × (s ≡ ch ++ r) × (length ch ≡ n) × Stands b c' r
  unfolding read_exact
  read_exact_sound n c c' s ch a e =
      let e1 = rw a.is_cursor at e in
      let within : a.next + n ≤ length b = ground arith in
      let (split, len, a') = At-next n a.at_next within in
      let e2 : slice b a.next (a.next + n) ≡ ch = ground arith in
      let e3 : c' ≡ cursor b (a.next + n) = ground arith in
      (
        drop (a.next + n) b,
        split ∙ ap (λ t. t ++ drop (a.next + n) b) e2,
        ap length (sym e2) ∙ len,
        record { next = a.next + n; is_cursor = e3; at_next = a' },
      )

  pub reader : Reader b read_exact
  reader = record { complete = read_exact_complete; sound = read_exact_sound }

  pub read_magic_complete :
      (r : Bytes)
      → At b 0 (tree_magic ++ r)
      → (off : ℕ) × (read_magic (cursor b 0) ≡ ok (cursor b off)) × At b off r
  unfolding read_magic
  read_magic_complete r a =
      let g = reader.complete 0 12 tree_magic r a refl in
      (g.next, rw (g.returns, bytes_eq_refl tree_magic), g.at_next)
