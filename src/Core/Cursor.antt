-- ===== src/Core/Cursor.antt =====
-- A cursor over a byte buffer: the shape that `TreeCursor` of crates/core/src/tree.rs and
-- `SnapshotCursor` of crates/core/src/snapshot.rs share, and the laws of what reads through it.
use era.Base.{
  ◌==◌, if◌then◌else◌, ==_iff, Bool-cases, Bytes, length, get_or, All, All-append_left, All-drop,
  Result, ok, err, ◌>>=◌, bind-eq-ok, ℕ, ◌<◌, ◌≡◌, refl, sym, ap, ◌∙◌, subst, inl, inr, true, not,
  [], ◌∷◌, ◌++◌, arith,
}
use era.Base.ByteOrder.{bytes_eq, bytes_eq_iff}
use era.Base.Endian.{
  IsByte, byte_pow, to_be_bytes, from_be_bytes, length-to_be_bytes, from_be_bytes-lt,
  from-to_be_bytes, to-from_be_bytes,
}
use era.Base.Slice.{At, At-start, At-length}

pub record Cursor : Type 0 where
  pub bytes : Bytes
  pub offset : ℕ

abbrev pub cursor : Bytes → ℕ → Cursor
cursor b off = record { bytes = b; offset = off }

-- The call `m` returns `x`, and leaves the cursor in front of `r`.
pub record Gets {E A : Type 0} (b : Bytes) (m : Result E (A × Cursor)) (x : A) (r : Bytes)
    : Type 0 where
  pub next : ℕ
  pub returns : m ≡ ok (x, cursor b next)
  pub at_next : At b next r

-- The cursor `c` stands in `b` in front of `r`.
pub record Stands (b : Bytes) (c : Cursor) (r : Bytes) : Type 0 where
  pub next : ℕ
  pub is_cursor : c ≡ cursor b next
  pub at_next : At b next r

pub Stands-start : (b : Bytes) → Stands b (cursor b 0) b
Stands-start b = record { next = 0; is_cursor = refl; at_next = At-start b }

pub Stands-IsByte :
    {b : Bytes} {c : Cursor} {s : Bytes} → All IsByte b → Stands b c s → All IsByte s
Stands-IsByte {b} bytes a = rw (← a.at_next.rest) (All-drop IsByte a.next b bytes)

-- At the end of the buffer nothing is left.
pub Stands-end :
    {b : Bytes} {c : Cursor} {r : Bytes}
    → Stands b c r
    → (c.offset == length c.bytes) ≡ true
    → r ≡ []
Stands-end {r = []} a h = refl
Stands-end {b = b} {r = x ∷ r} a h =
    let e = rw a.is_cursor at h in
    absurd (omega (arith, At-length a.at_next, (==_iff a.next (length b)).0 e))

-- What a `read_exact` promises on the buffer `b`: it reads the bytes that stand at the offset, and
-- the bytes that it returns stood there.
pub record Reader {E : Type 0} (b : Bytes) (read_exact : ℕ → Cursor → Result E (Bytes × Cursor))
    : Type 0 where
  pub complete :
      (off n : ℕ) (ch r : Bytes)
      → At b off (ch ++ r)
      → length ch ≡ n
      → Gets b (read_exact n (cursor b off)) ch r
  pub sound :
      (n : ℕ) (c c' : Cursor) (s ch : Bytes)
      → Stands b c s
      → read_exact n c ≡ ok (ch, c')
      → (r : Bytes) × (s ≡ ch ++ r) × (length ch ≡ n) × Stands b c' r

-- How `read_byte` and the integer readers end.
abbrev pub byte_of : {E : Type 0} → Bytes × Cursor → Result E (ℕ × Cursor)
byte_of p = ok (get_or p.0 0 0, p.1)

abbrev pub be_of : {E : Type 0} → Bytes × Cursor → Result E (ℕ × Cursor)
be_of p = ok (from_be_bytes p.0, p.1)

-- A statement about what a call returned, carried over to the names that it is given.
pub ok-subst :
    {E A : Type 0} (P : A → Cursor → Type 0) {x y : A} {c d : Cursor}
    → ◌≡◌ {A = Result E (A × Cursor)} (ok (x, c)) (ok (y, d))
    → P x c
    → P y d
ok-subst P {x} {y} {c} {d} h p =
    let e : x ≡ y = cc in let f : c ≡ d = cc in subst (λ u. P u d) e (subst (P x) f p)

module _ {E : Type 0} {b : Bytes} {read_exact : ℕ → Cursor → Result E (Bytes × Cursor)}
    (reader : Reader b read_exact) where
  pub byte_complete :
      (off x : ℕ) (r : Bytes)
      → At b off (x ∷ r)
      → Gets b (read_exact 1 (cursor b off) >>= byte_of) x r
  byte_complete off x r a =
      let g = reader.complete off 1 (x ∷ []) r a refl in
      record { next = g.next; returns = rw g.returns; at_next = g.at_next }

  pub be_complete :
      (w off n : ℕ) (r : Bytes)
      → n < byte_pow w
      → At b off (to_be_bytes w n ++ r)
      → Gets b (read_exact w (cursor b off) >>= be_of) n r
  be_complete w off n r h a =
      let g = reader.complete off w (to_be_bytes w n) r a (length-to_be_bytes w n) in
      record {
        next = g.next;
        returns = rw (g.returns, from-to_be_bytes w n h);
        at_next = g.at_next;
      }

  pub byte_sound :
      (c c' : Cursor) (s : Bytes) (x : ℕ)
      → Stands b c s
      → (read_exact 1 c >>= byte_of) ≡ ok (x, c')
      → (r : Bytes) × (s ≡ x ∷ r) × Stands b c' r
  byte_sound c c' s x a e =
      let (p, e1, e2) = bind-eq-ok (read_exact 1 c) _ e in
      single p.0 (reader.sound 1 c p.1 s p.0 a e1) e2
    where
      single :
          (ch : Bytes) {d : Cursor}
          → ((r : Bytes) × (s ≡ ch ++ r) × (length ch ≡ 1) × Stands b d r)
          → ◌≡◌ {A = Result E (ℕ × Cursor)} (ok (get_or ch 0 0, d)) (ok (x, c'))
          → (r : Bytes) × (s ≡ x ∷ r) × Stands b c' r
      single (y ∷ []) (r, split, len, a') e =
          ok-subst (λ x c'. (r : Bytes) × (s ≡ x ∷ r) × Stands b c' r) e (r, split, a')
      single [] (r, split, len, a') e = absurd (omega arith)
      single (y ∷ z ∷ w) (r, split, len, a') e = absurd (omega arith)

  pub be_sound :
      (w : ℕ) (c c' : Cursor) (s : Bytes) (n : ℕ)
      → All IsByte b
      → Stands b c s
      → (read_exact w c >>= be_of) ≡ ok (n, c')
      → (r : Bytes) × (s ≡ to_be_bytes w n ++ r) × (n < byte_pow w) × Stands b c' r
  be_sound w c c' s n bytes a e =
      let (p, e1, e2) = bind-eq-ok (read_exact w c) _ e in
      let (r, split, len, a') = reader.sound w c p.1 s p.0 a e1 in
      let small : All IsByte p.0 =
        All-append_left IsByte p.0 r (subst (All IsByte) split (Stands-IsByte bytes a)) in
      let bound : from_be_bytes p.0 < byte_pow w =
        subst (λ (k : ℕ). from_be_bytes p.0 < byte_pow k) len (from_be_bytes-lt p.0 small) in
      let text : p.0 ≡ to_be_bytes w (from_be_bytes p.0) =
        sym (to-from_be_bytes p.0 small) ∙ ap (λ k. to_be_bytes k (from_be_bytes p.0)) len in
      ok-subst (λ n c'. (r : Bytes) × (s ≡ to_be_bytes w n ++ r) × (n < byte_pow w) × Stands b c' r)
        e2 (r, split ∙ ap (λ t. t ++ r) text, bound, a')

  pub literal_sound :
      (literal : Bytes) (refusal : E) (c c' : Cursor) (s : Bytes)
      → Stands b c s
      → (read_exact (length literal) c >>= λ p.
          if not (bytes_eq p.0 literal) then err refusal else ok p.1)
        ≡ ok c'
      → (r : Bytes) × (s ≡ literal ++ r) × Stands b c' r
  literal_sound literal refusal c c' s a e =
      let (p, e1, e2) = bind-eq-ok (read_exact (length literal) c) _ e in
      let (r, split, len, a') = reader.sound (length literal) c p.1 s p.0 a e1 in
      elim (Bool-cases (bytes_eq p.0 literal)) [
        | inl same ↦ (
          r,
          split ∙ ap (λ t. t ++ r) ((bytes_eq_iff p.0 literal).0 same),
          subst (λ d. Stands b d r) (ok-injective (rw same at e2)) a',
        )
        | inr other ↦ absurd (refused (rw other at e2))
      ]
    where
      ok-injective : {x y : Cursor} → ◌≡◌ {A = Result E Cursor} (ok x) (ok y) → x ≡ y
      ok-injective h = cc

      refused : {x : E} → ◌≡◌ {A = Result E Cursor} (err x) (ok c') → ⊥
      refused h = cc
