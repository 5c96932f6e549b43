-- ===== src/Core/Snapshot/Canonical.antt =====
-- The decoder of snapshot.rs against its encoder, in both directions.
use era.Core.ObjectId.{ObjectId, IsObjectId}
use era.Base.{
  ltb, ◌==◌, ==_iff, Bool-cases, Bytes, length, All, Result, ok, err, bind-eq-ok, ℕ, zero, suc, ◌^◌,
  ◌<◌, ◌≡◌, refl, sym, ap, ap₂, ◌∙◌, subst, inl, inr, true, false, Option, none, some, List, [],
  ◌∷◌, ◌++◌, append-nil, append_assoc, arith,
}
use era.Base.ByteOrder.{bytes_eq, bytes_eq_iff, bytes_eq_refl, InOrder}
use era.Base.Endian.{IsByte, to_be_bytes}
use era.Base.Slice.{At, At-start, At-length}
use era.Core.Cursor.{
  Cursor, cursor, Gets, Stands, Stands-start, Stands-end, ok-subst, be_complete, be_sound,
}
use era.Core.Snapshot.{
  snapshot_magic, Attributes, SnapshotProvenance, insert, Snapshot, to_canonical_bytes,
  SnapshotError, SnapshotCursor, read_exact, read_magic, read_object_id, read_u32, read_u64,
  is_finished, read_string, read_optional_string, read_parents, ok, check_key, read_attributes,
  read_history, read_metadata, read_provenance, assemble, from_canonical_bytes,
}
use era.Core.Snapshot.Provenance.{KeysOrdered, UpTo, UpTo-nil, UpTo-insert}
use era.Core.Snapshot.Readers.{
  slice_mod, IsText, IsOptionalText, text_onto, optional_onto, ids_onto, reader,
  read_string_complete, read_optional_string_complete, read_parents_complete, read_object_id_sound,
  read_string_sound, read_optional_string_sound, read_parents_sound,
}
use era.Core.Snapshot.Writers.{
  attributes_onto, snapshot_onto, IsAttribute, IsSnapshot, to_canonical_bytes-onto,
}

check_key-InOrder :
    (previous : Option Bytes) (key : Bytes) → InOrder previous key → check_key previous key ≡ ok tt
unfolding check_key
check_key-InOrder none key h = refl
check_key-InOrder (some p) key h = ground arith

check_key-ok :
    (previous : Option Bytes) (key : Bytes) {u : Unit {0}}
    → check_key previous key ≡ ok u
    → InOrder previous key
unfolding check_key
check_key-ok none key h = tt
check_key-ok (some p) key h = ground arith

module _ (b : Bytes) (fits : length b < slice_mod) where
  read_magic_complete :
      (r : Bytes)
      → At b 0 (snapshot_magic ++ r)
      → (off : ℕ) × (read_magic (cursor b 0) ≡ ok (cursor b off)) × At b off r
  unfolding read_magic
  read_magic_complete r a =
      let g = (reader b fits).complete 0 16 snapshot_magic r a refl in
      let long : ltb (length b) 16 ≡ false = ground (arith, At-length a) in
      (g.next, rw (long, g.returns, bytes_eq_refl snapshot_magic), g.at_next)

  -- The attributes that are read join those that are there.
  read_attributes_complete :
      (es m : Attributes) (off : ℕ) (previous : Option Bytes) (r : Bytes)
      → All IsAttribute es
      → KeysOrdered previous es
      → UpTo previous m
      → At b off (attributes_onto es r)
      → Gets b (read_attributes (length es) previous m (cursor b off)) (m ++ es) r
  unfolding read_attributes
  read_attributes_complete [] m off previous r v o u a = record {
    next = off;
    returns = rw append-nil;
    at_next = a;
  }
  read_attributes_complete ((key, value) ∷ es) m off previous r ((k, v), vs) (o, os) u a =
      let g1 = read_string_complete b fits "provenance attribute key" off key _ k a in
      let g2 =
        read_string_complete b fits "provenance attribute value" g1.next value _ v g1.at_next in
      let (added, u') = UpTo-insert previous key value m u o in
      let g3 =
        read_attributes_complete es (insert key value m) g2.next (some key) r vs os u' g2.at_next in
      record {
        next = g3.next;
        returns =
            rw (g1.returns, check_key-InOrder previous key o, g2.returns)
              (g3.returns
                ∙ ap (λ (t : Attributes). ok (t ++ es, cursor b g3.next)) added
                ∙ ap (λ (t : Attributes). ok (t, cursor b g3.next))
                    (append_assoc m ((key, value) ∷ []) es));
        at_next = g3.at_next;
      }

  module _ (bytes : All IsByte b) where
    abbrev TookAttributes : Option Bytes → Attributes → Bytes → ℕ → Attributes → Cursor → Type 0
    TookAttributes previous m s n all c' =
        (es : Attributes) × (r : Bytes) × (all ≡ m ++ es)
        × (s ≡ attributes_onto es r)
        × (length es ≡ n)
        × All IsAttribute es
        × KeysOrdered previous es
        × Stands b c' r

    read_attributes_sound :
        (n : ℕ) (previous : Option Bytes) (m : Attributes) (c c' : SnapshotCursor) (s : Bytes)
        (all : Attributes)
        → UpTo previous m
        → Stands b c s
        → read_attributes n previous m c ≡ ok (all, c')
        → TookAttributes previous m s n all c'
    unfolding read_attributes
    read_attributes_sound zero previous m c c' s all u a e =
        ok-subst (TookAttributes previous m s 0) e
          ([], s, sym (append-nil m), refl, refl, tt, tt, a)
    read_attributes_sound (suc n) previous m c c' s all u a e =
        let (p, e1, h1) = bind-eq-ok (read_string "provenance attribute key" c) _ e in
        let (r1, s1, k, a1) = read_string_sound b fits bytes _ c p.1 s p.0 a e1 in
        let (_, e2, h2) = bind-eq-ok (check_key previous p.0) _ h1 in
        let o = check_key-ok previous p.0 e2 in
        let (q, e3, h3) = bind-eq-ok (read_string "provenance attribute value" p.1) _ h2 in
        let (r2, s2, v, a2) = read_string_sound b fits bytes _ p.1 q.1 r1 q.0 a1 e3 in
        let (added, u') = UpTo-insert previous p.0 q.0 m u o in
        let (es, r, eq, s3, len, vs, os, a3) =
          read_attributes_sound n (some p.0) (insert p.0 q.0 m) q.1 c' r2 all u' a2 h3 in
        (
          (p.0, q.0) ∷ es,
          r,
          eq ∙ ap (λ t. t ++ es) added ∙ append_assoc m ((p.0, q.0) ∷ []) es,
          s1 ∙ ap (text_onto p.0) (s2 ∙ ap (text_onto q.0) s3),
          ap suc len,
          ((k, v), vs),
          (o, os),
          a3,
        )

-- Every snapshot has canonical bytes that decode to it, when each of its lengths fits 32 bits and
-- the bytes are no more than a Rust slice can hold.
pub Snapshot-round_trip :
    (s : Snapshot)
    → IsSnapshot s
    → length (to_canonical_bytes s) < slice_mod
    → from_canonical_bytes (to_canonical_bytes s) ≡ ok s
unfolding from_canonical_bytes
Snapshot-round_trip s v fits =
    let b = to_canonical_bytes s in
    let rd = reader b fits in
    let start : At b 0 (snapshot_onto s) =
      subst (At b 0) (to_canonical_bytes-onto s v) (At-start b) in
    let (off, e0, a0) = read_magic_complete b fits _ start in
    let g1 = rd.complete off 32 s.root_tree_id _ a0 v.root_ok.width in
    let g2 = be_complete rd 4 g1.next (length s.parents) _ v.few_parents g1.at_next in
    let g3 = read_parents_complete b fits s.parents g2.next _ v.parents_ok g2.at_next in
    let g4 = be_complete rd 8 g3.next s.timestamp_millis _ v.time_ok g3.at_next in
    let g5 =
      read_optional_string_complete b fits "author" g4.next s.author _ v.author_ok g4.at_next in
    let g6 =
      read_optional_string_complete b fits "message" g5.next s.message _ v.message_ok g5.at_next in
    let g7 =
      read_string_complete b fits "provenance source" g6.next s.provenance.source _ v.source_ok
        g6.at_next in
    let g8 =
      be_complete rd 4 g7.next (length s.provenance.attributes) _ v.few_attributes g7.at_next in
    let g9 =
      read_attributes_complete b fits s.provenance.attributes [] g8.next none [] v.attributes_ok
        v.keys_ok UpTo-nil g8.at_next in
    let done : (g9.next == length b) ≡ true =
      (==_iff _ _).1 (omega (arith, At-length g9.at_next)) in
    rw (
      e0, g1.returns, g2.returns, g3.returns, g4.returns, g5.returns, g6.returns, g7.returns,
      g8.returns, g9.returns, done,
    )

read_magic_sound :
    (b : Bytes) (fits : length b < slice_mod) (c c' : SnapshotCursor) (s : Bytes)
    → Stands b c s
    → read_magic c ≡ ok c'
    → (r : Bytes) × (s ≡ snapshot_magic ++ r) × Stands b c' r
unfolding read_magic
read_magic_sound b fits c c' s a e = elim (Bool-cases (ltb (length c.bytes) 16)) [
  | inl short ↦ absurd (refused (rw short at e))
  | inr long ↦
      let (p, e1, e2) = bind-eq-ok (read_exact 16 c) _ (rw long at e) in
      let (r, split, len, a') = (reader b fits).sound 16 c p.1 s p.0 a e1 in
      elim (Bool-cases (bytes_eq p.0 snapshot_magic)) [
        | inl same ↦ (
          r,
          split ∙ ap (λ t. t ++ r) ((bytes_eq_iff p.0 snapshot_magic).0 same),
          subst (λ d. Stands b d r) (ok-injective (rw same at e2)) a',
        )
        | inr other ↦ absurd (refused (rw other at e2))
      ]
]
  where
    ok-injective : {x y : Cursor} → ◌≡◌ {A = Result SnapshotError Cursor} (ok x) (ok y) → x ≡ y
    ok-injective h = cc

    refused : {x : SnapshotError} → ◌≡◌ {A = Result SnapshotError Cursor} (err x) (ok c') → ⊥
    refused h = cc

module _ (b : Bytes) (fits : length b < slice_mod) (small : All IsByte b) where
  abbrev TookHistory : Bytes → ObjectId × List ObjectId → Cursor → Type 0
  TookHistory s h c' =
      (r : Bytes) × (s ≡ h.0 ++ (to_be_bytes 4 (length h.1) ++ ids_onto h.1 r))
      × IsObjectId h.0
      × All IsObjectId h.1
      × (length h.1 < 2 ^ 32)
      × Stands b c' r

  read_history_sound :
      (c c' : SnapshotCursor) (s : Bytes) (h : ObjectId × List ObjectId)
      → Stands b c s
      → read_history c ≡ ok (h, c')
      → TookHistory s h c'
  unfolding read_history read_u32
  read_history_sound c c' s h a e =
      let (p1, e1, h1) = bind-eq-ok (read_object_id c) _ e in
      let (r1, s1, v1, a1) = read_object_id_sound b fits small c p1.1 s p1.0 a e1 in
      let (p2, e2, h2) = bind-eq-ok (read_u32 p1.1) _ h1 in
      let (r2, s2, v2, a2) = be_sound (reader b fits) 4 p1.1 p2.1 r1 p2.0 small a1 e2 in
      let (p3, e3, h3) = bind-eq-ok (read_parents p2.0 p2.1) _ h2 in
      let (r3, s3, n3, v3, a3) = read_parents_sound b fits small p2.0 p2.1 p3.1 r2 p3.0 a2 e3 in
      ok-subst (TookHistory s) h3 (
        r3,
        s1 ∙ ap (λ t. p1.0 ++ t) (s2 ∙ ap₂ (λ (n : ℕ) t. to_be_bytes 4 n ++ t) (sym n3) s3),
        v1,
        v3,
        omega (arith, n3, v2),
        a3,
      )

  abbrev TookMetadata : Bytes → ℕ × Option Bytes × Option Bytes → Cursor → Type 0
  TookMetadata s m c' =
      (r : Bytes) × (s ≡ to_be_bytes 8 m.0 ++ optional_onto m.1 (optional_onto m.2 r))
      × (m.0 < 2 ^ 64)
      × IsOptionalText m.1
      × IsOptionalText m.2
      × Stands b c' r

  read_metadata_sound :
      (c c' : SnapshotCursor) (s : Bytes) (m : ℕ × Option Bytes × Option Bytes)
      → Stands b c s
      → read_metadata c ≡ ok (m, c')
      → TookMetadata s m c'
  unfolding read_metadata read_u64
  read_metadata_sound c c' s m a e =
      let (p4, e4, h4) = bind-eq-ok (read_u64 c) _ e in
      let (r4, s4, v4, a4) = be_sound (reader b fits) 8 c p4.1 s p4.0 small a e4 in
      let (p5, e5, h5) = bind-eq-ok (read_optional_string "author" p4.1) _ h4 in
      let (r5, s5, v5, a5) = read_optional_string_sound b fits small _ p4.1 p5.1 r4 p5.0 a4 e5 in
      let (p6, e6, h6) = bind-eq-ok (read_optional_string "message" p5.1) _ h5 in
      let (r6, s6, v6, a6) = read_optional_string_sound b fits small _ p5.1 p6.1 r5 p6.0 a5 e6 in
      ok-subst (TookMetadata s) h6 (
        r6,
        s4 ∙ ap (λ t. to_be_bytes 8 p4.0 ++ t) (s5 ∙ ap (optional_onto p5.0) s6),
        v4,
        v5,
        v6,
        a6,
      )

  abbrev TookProvenance : Bytes → SnapshotProvenance → Cursor → Type 0
  TookProvenance s p c' =
      (r : Bytes) × (s
        ≡ text_onto p.source
            (to_be_bytes 4 (length p.attributes) ++ attributes_onto p.attributes r))
      × IsText p.source
      × All IsAttribute p.attributes
      × (length p.attributes < 2 ^ 32)
      × KeysOrdered none p.attributes
      × Stands b c' r

  read_provenance_sound :
      (c c' : SnapshotCursor) (s : Bytes) (p : SnapshotProvenance)
      → Stands b c s
      → read_provenance c ≡ ok (p, c')
      → TookProvenance s p c'
  unfolding read_provenance read_u32
  read_provenance_sound c c' s p a e =
      let (p7, e7, h7) = bind-eq-ok (read_string "provenance source" c) _ e in
      let (r7, s7, v7, a7) = read_string_sound b fits small _ c p7.1 s p7.0 a e7 in
      let (p8, e8, h8) = bind-eq-ok (read_u32 p7.1) _ h7 in
      let (r8, s8, v8, a8) = be_sound (reader b fits) 4 p7.1 p8.1 r7 p8.0 small a7 e8 in
      let (p9, e9, h9) = bind-eq-ok (read_attributes p8.0 none [] p8.1) _ h8 in
      let (es, r9, eq, s9, n9, v9, o9, a9) =
        read_attributes_sound b fits small p8.0 none [] p8.1 p9.1 r8 p9.0 UpTo-nil a8 e9 in
      ok-subst (TookProvenance s) h9 (
        subst
          (λ (all : Attributes). TookProvenance s (record { source = p7.0; attributes = all }) p9.1)
          (sym eq)
          (
            r9,
            s7 ∙ ap (text_onto p7.0) (s8 ∙ ap₂ (λ (n : ℕ) t. to_be_bytes 4 n ++ t) (sym n9) s9),
            v7,
            v9,
            omega (arith, n9, v8),
            o9,
            a9,
          ))

  accept :
      (s : Snapshot) (c3 c6 c9 : Cursor) {r0 : Bytes}
      → b ≡ snapshot_magic ++ r0
      → TookHistory r0 (s.root_tree_id, s.parents) c3
      → ((r : Bytes) → Stands b c3 r → TookMetadata r (s.timestamp_millis, s.author, s.message) c6)
      → ((r : Bytes) → Stands b c6 r → TookProvenance r s.provenance c9)
      → (c9.offset == length c9.bytes) ≡ true
      → IsSnapshot s × (to_canonical_bytes s ≡ b)
  accept s c3 c6 c9 s0 (r1, s1, v1, v2, v3, a1) metadata provenance done =
      let (r2, s2, v4, v5, v6, a2) = metadata r1 a1 in
      let (r3, s3, v7, v8, v9, v10, a3) = provenance r2 a2 in
      let valid : IsSnapshot s = record {
        root_ok = v1;
        parents_ok = v2;
        few_parents = v3;
        time_ok = v4;
        author_ok = v5;
        message_ok = v6;
        source_ok = v7;
        attributes_ok = v8;
        few_attributes = v9;
        keys_ok = v10;
      } in
      (
        valid,
        to_canonical_bytes-onto s valid
            ∙ sym (
                s0
                ∙ ap (λ t. snapshot_magic ++ t)
                    (s1
                      ∙ ap
                          (λ t.
                            s.root_tree_id
                            ++ (to_be_bytes 4 (length s.parents) ++ ids_onto s.parents t))
                          (s2
                            ∙ ap
                                (λ t.
                                  to_be_bytes 8 s.timestamp_millis
                                  ++ optional_onto s.author (optional_onto s.message t))
                                (s3
                                  ∙ ap
                                      (λ t. text_onto s.provenance.source (
                                        to_be_bytes 4 (length s.provenance.attributes)
                                        ++ attributes_onto s.provenance.attributes t))
                                      (Stands-end a3 done))))),
      )

-- Whatever the decoder accepts is the canonical encoding of the snapshot that it returns, and that
-- snapshot is well formed, with its attribute keys in strict order.
pub Snapshot-canonical :
    (bytes : Bytes) (s : Snapshot)
    → All IsByte bytes
    → length bytes < slice_mod
    → from_canonical_bytes bytes ≡ ok s
    → IsSnapshot s × (to_canonical_bytes s ≡ bytes)
unfolding from_canonical_bytes
Snapshot-canonical b s small fits h =
    let (c0, e0, h0) = bind-eq-ok (read_magic (cursor b 0)) _ h in
    let (r0, s0, a0) = read_magic_sound b fits (cursor b 0) c0 b (Stands-start b) e0 in
    let (p1, e1, h1) = bind-eq-ok (read_history c0) _ h0 in
    let (p2, e2, h2) = bind-eq-ok (read_metadata p1.1) _ h1 in
    let (p3, e3, h3) = bind-eq-ok (read_provenance p2.1) _ h2 in
    elim (Bool-cases (is_finished p3.1)) [
      | inl done ↦
          subst (λ u. IsSnapshot u × (to_canonical_bytes u ≡ b))
            (accepted (assemble p1.0 p2.0 p3.0) (rw done at h3))
            (accept b fits small (assemble p1.0 p2.0 p3.0) p1.1 p2.1 p3.1 s0
              (read_history_sound b fits small c0 p1.1 r0 p1.0 a0 e1)
              (λ r a. read_metadata_sound b fits small p1.1 p2.1 r p2.0 a e2)
              (λ r a. read_provenance_sound b fits small p2.1 p3.1 r p3.0 a e3) done)
      | inr other ↦ absurd (refused (rw other at h3))
    ]
  where
    accepted : (u : Snapshot) → ◌≡◌ {A = Result SnapshotError Snapshot} (ok u) (ok s) → u ≡ s
    accepted u h = cc

    refused : {e : SnapshotError} → ◌≡◌ {A = Result SnapshotError Snapshot} (err e) (ok s) → ⊥
    refused h = cc
