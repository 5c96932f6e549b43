-- ===== src/Core/Snapshot/Writers.antt =====
-- What `to_canonical_bytes` writes for a snapshot whose lengths fit 32 bits, with no accumulator.
use era.Base.{
  Bytes, length, All, ℕ, ◌%◌, ◌^◌, ◌<◌, ◌≡◌, refl, sym, ◌∙◌, Option, none, some, List, [], ◌∷◌,
  ◌++◌, append-nil, append_assoc, arith,
}
use era.Base.Endian.{to_be_bytes}
use era.Core.ObjectId.{ObjectId, IsObjectId}
use era.Core.Snapshot.{
  snapshot_magic, Attributes, Snapshot, write_u32, write_u64, write_string, write_optional_string,
  write_parents, write_attributes, to_canonical_bytes,
}
use era.Core.Snapshot.Readers.{IsText, IsOptionalText, text_onto, optional_onto, ids_onto}
use era.Core.Snapshot.Provenance.{KeysOrdered}

abbrev pub attributes_onto : Attributes → Bytes → Bytes
attributes_onto [] r = r
attributes_onto ((key, value) ∷ m) r = text_onto key (text_onto value (attributes_onto m r))

abbrev pub snapshot_onto : Snapshot → Bytes
snapshot_onto s =
    snapshot_magic
    ++ (s.root_tree_id
        ++ (to_be_bytes 4 (length s.parents)
            ++ ids_onto s.parents (
                to_be_bytes 8 s.timestamp_millis
                ++ optional_onto s.author (
                    optional_onto s.message (
                      text_onto s.provenance.source (
                        to_be_bytes 4 (length s.provenance.attributes)
                        ++ attributes_onto s.provenance.attributes []))))))

abbrev pub IsAttribute : Bytes × Bytes → Type 0
IsAttribute e = IsText e.0 × IsText e.1

-- What the Rust types guarantee of a snapshot, with every length below 2 ^ 32.
pub record IsSnapshot (s : Snapshot) : Type 0 where
  pub root_ok : IsObjectId s.root_tree_id
  pub parents_ok : All IsObjectId s.parents
  pub few_parents : length s.parents < 2 ^ 32
  pub time_ok : s.timestamp_millis < 2 ^ 64
  pub author_ok : IsOptionalText s.author
  pub message_ok : IsOptionalText s.message
  pub source_ok : IsText s.provenance.source
  pub attributes_ok : All IsAttribute s.provenance.attributes
  pub few_attributes : length s.provenance.attributes < 2 ^ 32
  pub keys_ok : KeysOrdered none s.provenance.attributes

write_u32-lt :
    (output : Bytes) (n : ℕ) → n < 2 ^ 32 → write_u32 output n ≡ output ++ to_be_bytes 4 n
unfolding write_u32
write_u32-lt output n h = let e : n % 2 ^ 32 ≡ n = omega arith in rw e

write_u32-onto :
    (output : Bytes) (n : ℕ) (r : Bytes)
    → n < 2 ^ 32
    → write_u32 output n ++ r ≡ output ++ (to_be_bytes 4 n ++ r)
write_u32-onto output n r h = rw (write_u32-lt output n h) (append_assoc output (to_be_bytes 4 n) r)

write_u64-onto :
    (output : Bytes) (n : ℕ) (r : Bytes)
    → write_u64 output n ++ r ≡ output ++ (to_be_bytes 8 n ++ r)
unfolding write_u64
write_u64-onto output n r = append_assoc output (to_be_bytes 8 n) r

write_string-onto :
    (output s r : Bytes) → length s < 2 ^ 32 → write_string output s ++ r ≡ output ++ text_onto s r
unfolding write_string
write_string-onto output s r h = rw (write_u32-lt output (length s) h) (simp append_assoc)

write_optional_string-onto :
    (output : Bytes) (o : Option Bytes) (r : Bytes)
    → IsOptionalText o
    → write_optional_string output o ++ r ≡ output ++ optional_onto o r
unfolding write_optional_string
write_optional_string-onto output none r v = append_assoc output (0 ∷ []) r
write_optional_string-onto output (some s) r v =
    write_string-onto (output ++ 1 ∷ []) s r v.short ∙ append_assoc output (1 ∷ []) (text_onto s r)

write_parents-onto :
    (ids : List ObjectId) (output r : Bytes)
    → write_parents output ids ++ r ≡ output ++ ids_onto ids r
unfolding write_parents
write_parents-onto [] output r = refl
write_parents-onto (id ∷ ids) output r =
    write_parents-onto ids (output ++ id) r ∙ append_assoc output id (ids_onto ids r)

write_attributes-onto :
    (m : Attributes) (output : Bytes)
    → All IsAttribute m
    → write_attributes output m ≡ output ++ attributes_onto m []
unfolding write_attributes
write_attributes-onto [] output h = sym (append-nil output)
write_attributes-onto ((key, value) ∷ m) output ((k, v), h) =
    write_attributes-onto m _ h
    ∙ write_string-onto (write_string output key) value _ v.short
    ∙ write_string-onto output key _ k.short

pub to_canonical_bytes-onto : (s : Snapshot) → IsSnapshot s → to_canonical_bytes s ≡ snapshot_onto s
unfolding to_canonical_bytes
to_canonical_bytes-onto s v =
    write_attributes-onto s.provenance.attributes _ v.attributes_ok
    ∙ write_u32-onto _ (length s.provenance.attributes) _ v.few_attributes
    ∙ write_string-onto _ s.provenance.source _ v.source_ok.short
    ∙ write_optional_string-onto _ s.message _ v.message_ok
    ∙ write_optional_string-onto _ s.author _ v.author_ok
    ∙ write_u64-onto _ s.timestamp_millis _
    ∙ write_parents-onto s.parents _ _
    ∙ write_u32-onto _ (length s.parents) _ v.few_parents
    ∙ append_assoc snapshot_magic s.root_tree_id _
