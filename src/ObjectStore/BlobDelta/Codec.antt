-- ===== src/ObjectStore/BlobDelta/Codec.antt =====
-- The stored form of a delta: `decode` against `encode`, in both directions.
use era.Base.ByteOrder.{bytes_eq, bytes_eq_iff}
use Prim.Native.String.{String}
use era.Base.{
  ltb, ◌==◌, ==_iff, Bool-cases, Bytes, length, take, drop, All, length-append, All-append_left,
  All-drop, Result, ok, err, bind-eq-ok, ℕ, ◌+◌, ◌%◌, ◌^◌, ◌≤◌, ◌<◌, ◌≡◌, refl, sym, ap, ap₂, ◌∙◌,
  subst, inl, inr, true, false, Option, none, some, ◌++◌, arith,
}
use era.Base.Endian.{IsByte, to_be_bytes, length-to_be_bytes}
use era.Base.Slice.{slice, usize_mod, At, At-start, At-length, At-slice, At-next}
use era.Core.Cursor.{
  Cursor, cursor, Gets, Stands, Stands-IsByte, Reader, ok-subst, be_complete, be_sound,
}
use era.Core.ObjectId.{ObjectId, IsObjectId}
use era.ObjectStore.BlobDelta.{
  magic, header_len, BlobDelta, get_range, read_u32, read_u64, read_object_id, read_link,
  read_lengths, assemble, decode_fields, decode, encode,
}

-- What the field types of `BlobDelta` guarantee.
pub record IsDelta (d : BlobDelta) : Type 0 where
  pub id_ok : IsObjectId d.base_id
  pub depth_ok : d.depth < 2 ^ 32
  pub base_len_ok : d.base_len < 2 ^ 64
  pub target_len_ok : d.target_len < 2 ^ 64
  pub prefix_len_ok : d.prefix_len < 2 ^ 64
  pub suffix_len_ok : d.suffix_len < 2 ^ 64
  pub insert_ok : All IsByte d.insert

module _ (message : String) (b : Bytes) where
  get_range_complete :
      (off n : ℕ) (ch r : Bytes)
      → At b off (ch ++ r)
      → length ch ≡ n
      → Gets b (get_range message n (cursor b off)) ch r
  unfolding get_range
  get_range_complete off n ch r a e =
      let (within, chunk, a') = At-slice {n = n} {ch = ch} a e in
      record { next = off + n; returns = ground (arith, chunk); at_next = a' }

  get_range_sound :
      (n : ℕ) (c c' : Cursor) (s ch : Bytes)
      → Stands b c s
      → get_range message n c ≡ ok (ch, c')
      → (r : Bytes) × (s ≡ ch ++ r) × (length ch ≡ n) × Stands b c' r
  unfolding get_range
  get_range_sound n c c' s ch a e =
      let e1 = rw a.is_cursor at e in
      let within : a.next + n ≤ length b = ground arith in
      let (split, len, a') = At-next n a.at_next within in
      let e2 : slice b a.next (a.next + n) ≡ ch = ground arith in
      let e3 : c' ≡ cursor b (a.next + n) = ground arith in
      (
        drop (a.next + n) b,
        split ∙ ap (λ t. t ++ drop (a.next + n) b) e2,
        ap length (sym e2) ∙ len,
        record { next = a.next + n; is_cursor = e3; at_next = a' },
      )

  reader : Reader b (get_range message)
  reader = record { complete = get_range_complete; sound = get_range_sound }

abbrev pub lengths_onto : BlobDelta → Bytes → Bytes
lengths_onto d r =
    to_be_bytes 8 d.base_len
    ++ (to_be_bytes 8 d.target_len
        ++ (to_be_bytes 8 d.prefix_len ++ (to_be_bytes 8 d.suffix_len ++ r)))

module _ (b : Bytes) where
  read_link_complete :
      (off depth : ℕ) (id r : Bytes)
      → depth < 2 ^ 32
      → IsObjectId id
      → At b off (to_be_bytes 4 depth ++ (id ++ r))
      → Gets b (read_link (cursor b off)) (depth, id) r
  unfolding read_link read_u32 read_object_id
  read_link_complete off depth id r small v a =
      let g1 = be_complete (reader "truncated blob delta u32" b) 4 off depth _ small a in
      let g2 =
        get_range_complete "truncated blob delta object id" b g1.next 32 id r g1.at_next v.width in
      record { next = g2.next; returns = rw (g1.returns, g2.returns); at_next = g2.at_next }

  read_lengths_complete :
      (off : ℕ) (d : BlobDelta) (r : Bytes)
      → IsDelta d
      → At b off (lengths_onto d r)
      → Gets b
          (read_lengths (cursor b off))
          (d.base_len, d.target_len, d.prefix_len, d.suffix_len)
          r
  unfolding read_lengths read_u64
  read_lengths_complete off d r v a =
      let rd = reader "truncated blob delta u64" b in
      let g1 = be_complete rd 8 off d.base_len _ v.base_len_ok a in
      let g2 = be_complete rd 8 g1.next d.target_len _ v.target_len_ok g1.at_next in
      let g3 = be_complete rd 8 g2.next d.prefix_len _ v.prefix_len_ok g2.at_next in
      let g4 = be_complete rd 8 g3.next d.suffix_len _ v.suffix_len_ok g3.at_next in
      record {
        next = g4.next;
        returns = rw (g1.returns, g2.returns, g3.returns, g4.returns);
        at_next = g4.at_next;
      }

abbrev pub delta_onto : BlobDelta → Bytes
delta_onto d =
    magic
    ++ (to_be_bytes 4 d.depth
        ++ (d.base_id ++ lengths_onto d (to_be_bytes 8 (length d.insert) ++ d.insert)))

pub encode-onto : (d : BlobDelta) → encode d ≡ delta_onto d
unfolding encode
encode-onto d = refl

-- The header and what follows it.
pub length-delta_onto :
    (d : BlobDelta) → IsObjectId d.base_id → length (delta_onto d) ≡ header_len + length d.insert
length-delta_onto d v =
    rw
      (
        length-append, length-append, length-append, length-append, length-append, length-append,
        length-append, length-append, length-to_be_bytes, length-to_be_bytes, length-to_be_bytes,
        length-to_be_bytes, length-to_be_bytes, length-to_be_bytes, v.width,
      )
      (omega arith)

-- Decoding what `encode` wrote gives the delta back.
pub decode-encode :
    (d : BlobDelta) → IsDelta d → length (encode d) < usize_mod → decode (encode d) ≡ ok (some d)
unfolding decode decode_fields read_u64 assemble
decode-encode d v fits =
    let b = encode d in
    let start : At b 0 (delta_onto d) = subst (At b 0) (encode-onto d) (At-start b) in
    let (low, chunk, a0) = At-slice {b = b} {off = 0} {n = 18} {ch = magic} start refl in
    let long : length b ≡ header_len + length d.insert =
      ap length (encode-onto d) ∙ length-delta_onto d v.id_ok in
    let same : bytes_eq (take 18 b) magic ≡ true = (bytes_eq_iff (take 18 b) magic).1 chunk in
    let whole : ltb (length b) header_len ≡ false = ground (arith, long) in
    let g1 = read_link_complete b 18 d.depth d.base_id _ v.depth_ok v.id_ok a0 in
    let g2 = read_lengths_complete b g1.next d _ v g1.at_next in
    let small : length d.insert < 2 ^ 64 = omega (arith, long, fits) in
    let g3 =
      be_complete (reader "truncated blob delta u64" b) 8 g2.next (length d.insert) _ small
        g2.at_next in
    let stop : (length b == (g3.next + length d.insert) % usize_mod) ≡ true =
      (==_iff _ _).1 (omega (arith, At-length g3.at_next, fits)) in
    rw (same, whole, g1.returns, g2.returns, g3.returns, stop, g3.at_next.rest)

module _ (b : Bytes) (small : All IsByte b) where
  abbrev TookLink : Bytes → ℕ × ObjectId → Cursor → Type 0
  TookLink s l c' =
      (r : Bytes) × (s ≡ to_be_bytes 4 l.0 ++ (l.1 ++ r))
      × (l.0 < 2 ^ 32)
      × IsObjectId l.1
      × Stands b c' r

  read_link_sound :
      (c c' : Cursor) (s : Bytes) (l : ℕ × ObjectId)
      → Stands b c s
      → read_link c ≡ ok (l, c')
      → TookLink s l c'
  unfolding read_link read_u32 read_object_id
  read_link_sound c c' s l a e =
      let (p1, e1, h1) = bind-eq-ok (read_u32 c) _ e in
      let (r1, s1, v1, a1) =
        be_sound (reader "truncated blob delta u32" b) 4 c p1.1 s p1.0 small a e1 in
      let (p2, e2, h2) = bind-eq-ok (read_object_id p1.1) _ h1 in
      let (r2, s2, w2, a2) =
        get_range_sound "truncated blob delta object id" b 32 p1.1 p2.1 r1 p2.0 a1 e2 in
      let id_ok : IsObjectId p2.0 = record {
        width = w2;
        bytes = All-append_left IsByte p2.0 r2 (subst (All IsByte) s2 (Stands-IsByte small a1));
      } in
      ok-subst (TookLink s) h2 (r2, s1 ∙ ap (λ t. to_be_bytes 4 p1.0 ++ t) s2, v1, id_ok, a2)

  abbrev TookLengths : Bytes → ℕ × ℕ × ℕ × ℕ → Cursor → Type 0
  TookLengths s l c' =
      (r : Bytes) × (s
        ≡ to_be_bytes 8 l.0
          ++ (to_be_bytes 8 l.1 ++ (to_be_bytes 8 l.2 ++ (to_be_bytes 8 l.3 ++ r))))
      × (l.0 < 2 ^ 64)
      × (l.1 < 2 ^ 64)
      × (l.2 < 2 ^ 64)
      × (l.3 < 2 ^ 64)
      × Stands b c' r

  read_lengths_sound :
      (c c' : Cursor) (s : Bytes) (l : ℕ × ℕ × ℕ × ℕ)
      → Stands b c s
      → read_lengths c ≡ ok (l, c')
      → TookLengths s l c'
  unfolding read_lengths read_u64
  read_lengths_sound c c' s l a e =
      let rd = reader "truncated blob delta u64" b in
      let (p1, e1, h1) = bind-eq-ok (read_u64 c) _ e in
      let (r1, s1, v1, a1) = be_sound rd 8 c p1.1 s p1.0 small a e1 in
      let (p2, e2, h2) = bind-eq-ok (read_u64 p1.1) _ h1 in
      let (r2, s2, v2, a2) = be_sound rd 8 p1.1 p2.1 r1 p2.0 small a1 e2 in
      let (p3, e3, h3) = bind-eq-ok (read_u64 p2.1) _ h2 in
      let (r3, s3, v3, a3) = be_sound rd 8 p2.1 p3.1 r2 p3.0 small a2 e3 in
      let (p4, e4, h4) = bind-eq-ok (read_u64 p3.1) _ h3 in
      let (r4, s4, v4, a4) = be_sound rd 8 p3.1 p4.1 r3 p4.0 small a3 e4 in
      ok-subst (TookLengths s) h4 (
        r4,
        s1
            ∙ ap (λ t. to_be_bytes 8 p1.0 ++ t)
                (s2
                  ∙ ap (λ t. to_be_bytes 8 p2.0 ++ t) (s3 ∙ ap (λ t. to_be_bytes 8 p3.0 ++ t) s4)),
        v1,
        v2,
        v3,
        v4,
        a4,
      )

  abbrev Decoded : BlobDelta → Type 0
  Decoded d = IsDelta d × (encode d ≡ b)

  abbrev TookCount : Bytes → ℕ → Cursor → Type 0
  TookCount s n c' = (r : Bytes) × (s ≡ to_be_bytes 8 n ++ r) × (n < 2 ^ 64) × Stands b c' r

  read_u64_sound :
      (c c' : Cursor) (s : Bytes) (n : ℕ)
      → Stands b c s
      → read_u64 c ≡ ok (n, c')
      → TookCount s n c'
  unfolding read_u64
  read_u64_sound c c' s n a e = be_sound (reader "truncated blob delta u64" b) 8 c c' s n small a e

  accept :
      (link : ℕ × ObjectId) (lengths : ℕ × ℕ × ℕ × ℕ) (n : ℕ) (c1 c2 c3 : Cursor) {r0 : Bytes}
      → length b < 2 ^ 63
      → b ≡ magic ++ r0
      → TookLink r0 link c1
      → ((r : Bytes) → Stands b c1 r → TookLengths r lengths c2)
      → ((r : Bytes) → Stands b c2 r → TookCount r n c3)
      → (length b == (c3.offset + n) % usize_mod) ≡ true
      → Decoded (assemble link lengths (drop c3.offset b))
  unfolding assemble
  accept link lengths n c1 c2 c3 fits s0 (r1, s1, v1, v2, a1) more count stop =
      let (r2, s2, v3, v4, v5, v6, a2) = more r1 a1 in
      let (r3, s3, v7, a3) = count r2 a2 in
      let here : c3.offset ≡ a3.next = ap (λ (c : Cursor). c.offset) a3.is_cursor in
      let body : drop c3.offset b ≡ r3 = ap (λ k. drop k b) here ∙ a3.at_next.rest in
      let total = At-length a3.at_next in
      let len : length r3 ≡ n = omega (arith, here, total, (==_iff _ _).0 stop, fits, v7) in
      let d = assemble link lengths (drop c3.offset b) in
      let small_rest : length r3 < 2 ^ 63 = omega (arith, total, fits) in
      (
        record {
          id_ok = v2;
          depth_ok = v1;
          base_len_ok = v3;
          target_len_ok = v4;
          prefix_len_ok = v5;
          suffix_len_ok = v6;
          insert_ok = All-drop IsByte c3.offset b small;
        },
        encode-onto d
            ∙ sym (
                s0
                ∙ ap (λ t. magic ++ t)
                    (s1
                      ∙ ap (λ t. to_be_bytes 4 link.0 ++ (link.1 ++ t))
                          (s2
                            ∙ ap (lengths_onto d) (
                                s3
                                ∙ ap₂ (λ (k : ℕ) t. to_be_bytes 8 k ++ t)
                                    (sym len ∙ ap length (sym body)) (sym body))))),
      )

  decode_fields-ok :
      (d : BlobDelta) (r : Bytes)
      → length b < 2 ^ 63
      → b ≡ magic ++ r
      → Stands b (cursor b 18) r
      → decode_fields b ≡ ok d
      → Decoded d
  unfolding decode_fields
  decode_fields-ok d r0 fits s0 a0 h0 =
      let (p1, e1, h1) = bind-eq-ok (read_link (cursor b 18)) _ h0 in
      let (p2, e2, h2) = bind-eq-ok (read_lengths p1.1) _ h1 in
      let (p3, e3, h3) = bind-eq-ok (read_u64 p2.1) _ h2 in
      elim (Bool-cases (length b == (p3.1.offset + p3.0) % usize_mod)) [
        | inl stop ↦ subst Decoded (accepted (rw stop at h3)) (
            accept p1.0 p2.0 p3.0 p1.1 p2.1 p3.1 fits s0
              (read_link_sound (cursor b 18) p1.1 r0 p1.0 a0 e1)
              (λ r a. read_lengths_sound p1.1 p2.1 r p2.0 a e2)
              (λ r a. read_u64_sound p2.1 p3.1 r p3.0 a e3) stop)
        | inr other ↦ absurd (refused (rw other at h3))
      ]
    where
      accepted : {x y : BlobDelta} → ◌≡◌ {A = Result String BlobDelta} (ok x) (ok y) → x ≡ y
      accepted h = cc

      refused : {e : String} → ◌≡◌ {A = Result String BlobDelta} (err e) (ok d) → ⊥
      refused h = cc

-- Whatever `decode` accepts is the encoding of the delta that it returns, whose fields are in the
-- range of their types.
pub decode-ok :
    (bytes : Bytes) (d : BlobDelta)
    → All IsByte bytes
    → length bytes < 2 ^ 63
    → decode bytes ≡ ok (some d)
    → IsDelta d × (encode d ≡ bytes)
unfolding decode
decode-ok b d small fits h = elim (Bool-cases (bytes_eq (take 18 b) magic)) [
  | inr other ↦ absurd (foreign (rw other at h))
  | inl same ↦
      let h1 = rw same at h in
      elim (Bool-cases (ltb (length b) header_len)) [
        | inl short ↦ absurd (refused (rw short at h1))
        | inr whole ↦
            let (x, e1, e2) = bind-eq-ok (decode_fields b) (λ d. ok (some d)) (rw whole at h1) in
            let long : header_len ≤ length b = ground arith in
            let within : 0 + 18 ≤ length b = omega (arith, long) in
            let (split, len, a) = At-next 18 (At-start b) within in
            let first : take 18 b ≡ magic = (bytes_eq_iff (take 18 b) magic).0 same in
            subst (λ d. IsDelta d × (encode d ≡ b)) (accepted e2)
              (decode_fields-ok b small x (drop 18 b) fits (split ∙ ap (λ t. t ++ drop 18 b) first)
                (record { next = 18; is_cursor = refl; at_next = a }) e1)
      ]
]
  where
    accepted :
        {x y : BlobDelta}
        → ◌≡◌ {A = Result String (Option BlobDelta)} (ok (some x)) (ok (some y))
        → x ≡ y
    accepted h = cc

    foreign : ◌≡◌ {A = Result String (Option BlobDelta)} (ok none) (ok (some d)) → ⊥
    foreign h = cc

    refused : {e : String} → ◌≡◌ {A = Result String (Option BlobDelta)} (err e) (ok (some d)) → ⊥
    refused h = cc
