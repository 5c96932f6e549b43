-- ===== src/Core/Snapshot/Tests.antt =====
-- Runs of snapshot.rs at fixed inputs, and the theorems at inputs that meet their hypotheses.
use era.Base.{
  if◌then◌else◌, Bytes, length, All, ok, ◌^◌, ◌<◌, ◌≡◌, refl, true, none, some, [], ◌∷◌, ◌++◌,
  arith,
}
use era.Base.ByteOrder.{bytes_eq, bytes_cmp}
use era.Base.Endian.{IsByte, to_be_bytes, from_be_bytes}
use era.Base.Utf8.{is_utf8}
use era.Core.ObjectId.{ObjectId, IsObjectId}
use era.Core.Snapshot.{
  snapshot_magic, SnapshotProvenance, new_provenance, insert, with_attribute, Snapshot, write_u32,
  write_u64, write_string, write_optional_string, write_parents, write_attributes,
  to_canonical_bytes, ok, from_canonical_bytes,
}
use era.Core.Snapshot.Provenance.{get, KeysOrdered, with_attribute_lem}
use era.Core.Snapshot.Readers.{slice_mod, IsText}
use era.Core.Snapshot.Writers.{IsSnapshot}
use era.Core.Snapshot.Canonical.{Snapshot-round_trip, Snapshot-canonical}

abbrev sixteen : Bytes
sixteen = 0 ∷ 1 ∷ 2 ∷ 3 ∷ 4 ∷ 5 ∷ 6 ∷ 7 ∷ 8 ∷ 9 ∷ 10 ∷ 11 ∷ 12 ∷ 13 ∷ 14 ∷ 15 ∷ []

abbrev some_id : ObjectId
some_id = 0 ∷ 1 ∷ 2 ∷ 3 ∷ 4 ∷ 5 ∷ 6 ∷ 7 ∷ 8 ∷ 9 ∷ 10 ∷ 11 ∷ 12 ∷ 13 ∷ 14 ∷ 255 ∷ sixteen

abbrev agent : Bytes
agent = b'a' ∷ b'g' ∷ []

abbrev model : Bytes
model = b'm' ∷ []

abbrev provenance : SnapshotProvenance
provenance = record {
  source = b'm' ∷ b'a' ∷ b'n' ∷ [];
  attributes = (agent, b'p' ∷ []) ∷ (model, []) ∷ [];
}

added :
    with_attribute (with_attribute (new_provenance provenance.source) model []) agent (b'p' ∷ [])
    ≡ provenance
unfolding with_attribute new_provenance insert bytes_cmp
added = refl

abbrev sample : Snapshot
sample = record {
  root_tree_id = some_id;
  parents = some_id ∷ [];
  timestamp_millis = 1_700_000_000_123;
  author = some (b'A' ∷ []);
  message = none;
  provenance = provenance;
}

text : (s : Bytes) → is_utf8 s ≡ true → All IsByte s → length s < 2 ^ 32 → IsText s
text s u b n = record { utf8 = u; bytes = b; short = n }

some_id-IsObjectId : IsObjectId some_id
some_id-IsObjectId = record { width = refl; bytes = omega arith }

sample-IsSnapshot : IsSnapshot sample
unfolding is_utf8 bytes_cmp
sample-IsSnapshot = record {
  root_ok = some_id-IsObjectId;
  parents_ok = (some_id-IsObjectId, tt);
  few_parents = omega arith;
  time_ok = omega arith;
  author_ok = text _ refl (omega arith) (omega arith);
  message_ok = tt;
  source_ok = text _ refl (omega arith) (omega arith);
  attributes_ok = (
    (
      text agent refl (omega arith) (omega arith),
      text (b'p' ∷ []) refl (omega arith) (omega arith),
    ),
    ((text model refl (omega arith) (omega arith), text [] refl (omega arith) (omega arith)), tt),
  );
  few_attributes = omega arith;
  keys_ok = (tt, (refl, tt));
}

abbrev sample_bytes : Bytes
sample_bytes =
    snapshot_magic
    ++ (some_id
        ++ (0
            ∷ 0
            ∷ 0
            ∷ 1
            ∷ (some_id
                ++ (to_be_bytes 8 1_700_000_000_123
                    ++ (1 ∷ 0 ∷ 0 ∷ 0 ∷ 1 ∷ b'A' ∷ 0 ∷ 0 ∷ 0 ∷ 0 ∷ 3 ∷ b'm' ∷ b'a' ∷ b'n' ∷ 0 ∷ 0
                        ∷ 0 ∷ 2 ∷ 0 ∷ 0 ∷ 0 ∷ 2 ∷ b'a' ∷ b'g' ∷ 0 ∷ 0 ∷ 0 ∷ 1 ∷ b'p' ∷ 0 ∷ 0 ∷ 0 ∷ 1
                        ∷ b'm' ∷ 0 ∷ 0 ∷ 0 ∷ 0 ∷ [])))))

sample_encodes : to_canonical_bytes sample ≡ sample_bytes
unfolding to_canonical_bytes to_be_bytes write_u32 write_u64 write_string write_optional_string
    write_parents write_attributes
sample_encodes = refl

sample_decodes : from_canonical_bytes sample_bytes ≡ ok sample
unfolding from_canonical_bytes from_be_bytes to_be_bytes bytes_eq bytes_cmp is_utf8
sample_decodes = refl

with_attribute_lem_example :
    KeysOrdered none (with_attribute provenance agent []).attributes
    × ((j : Bytes)
        → get j (with_attribute provenance agent []).attributes
          ≡ (if bytes_eq agent j then some [] else get j provenance.attributes))
    × ((with_attribute provenance agent []).source ≡ provenance.source)
with_attribute_lem_example = with_attribute_lem provenance agent [] sample-IsSnapshot.keys_ok

length-sample_bytes : length (to_canonical_bytes sample) < slice_mod
unfolding to_be_bytes
length-sample_bytes = rw sample_encodes (omega arith)

Snapshot-round_trip_example : from_canonical_bytes (to_canonical_bytes sample) ≡ ok sample
Snapshot-round_trip_example = Snapshot-round_trip sample sample-IsSnapshot length-sample_bytes

Snapshot-canonical_example : IsSnapshot sample × (to_canonical_bytes sample ≡ sample_bytes)
unfolding to_be_bytes
Snapshot-canonical_example =
    Snapshot-canonical sample_bytes sample (omega arith) (omega arith) sample_decodes
