-- ===== src/Repository/Snapshots/Samples.antt =====
-- Two snapshots of small repositories, a hash that tells them apart, and that they can be stored, for
-- the theorems on crates/repository/src/repository.rs.

use era.Base.{
  ◌==◌, if◌then◌else◌, Bool-cases, Bytes, ℕ, zero, suc, ◌≡◌, refl, inl, inr, false, none, some, [],
  ◌∷◌, arith,
}
use era.Base.ByteOrder.{bytes_eq, bytes_eq_iff, bytes_eq_refl}
use era.Base.Endian.{to_be_bytes}
use era.Base.Utf8.{is_utf8}
use era.Core.ObjectId.{ObjectId}
use era.Core.Snapshot.{
  Snapshot, write_u32, write_u64, write_string, write_optional_string, write_parents,
  write_attributes, to_canonical_bytes,
}
use era.ObjectStore.Local.Puts.{NoCollision}
use era.Repository.Snapshots.{CaptureResult, SnapshotRequest, made}
use era.Repository.Snapshots.Stores.{Storable}
use era.Repository.Snapshots.Moves.{IsHash}

abbrev pub repeat : ℕ → ℕ → Bytes
repeat zero x = []
repeat (suc n) x = x ∷ repeat n x

-- Ones and twos for two samples, zeros for all else.
abbrev pick : Bytes → Bytes → Bytes → ObjectId
pick first second bytes =
    if bytes_eq bytes first
    then repeat 32 1
    else if bytes_eq bytes second
    then repeat 32 2
    else repeat 32 0

pub pick-IsHash : (first second : Bytes) → IsHash (pick first second)
unfolding bytes_eq
pick-IsHash first second bytes = elim (Bool-cases (bytes_eq bytes first)) [
  | inl e ↦ rw e (record { width = refl; bytes = omega arith })
  | inr e ↦ elim (Bool-cases (bytes_eq bytes second)) [
    | inl f ↦ rw (e, f) (record { width = refl; bytes = omega arith })
    | inr f ↦ rw (e, f) (record { width = refl; bytes = omega arith })
  ]
]

apart : (a b : ℕ) → (a == b) ≡ false → ◌≡◌ {A = ObjectId} (repeat 32 a) (repeat 32 b) → ⊥
apart a b h e = clash (head_of e)
  where
    head_of : ◌≡◌ {A = ObjectId} (repeat 32 a) (repeat 32 b) → a ≡ b
    head_of e = cc

    clash : a ≡ b → ⊥
    clash e = ground (arith, h)

pick-first : (first second : Bytes) → NoCollision (pick first second) first
pick-first first second other h = elim (Bool-cases (bytes_eq other first)) [
  | inl same ↦ (bytes_eq_iff other first).0 same
  | inr e ↦ elim (Bool-cases (bytes_eq other second)) [
    | inl f ↦ absurd (apart 2 1 refl (rw (e, f, bytes_eq_refl first) at h))
    | inr f ↦ absurd (apart 0 1 refl (rw (e, f, bytes_eq_refl first) at h))
  ]
]

pick-second :
    (first second : Bytes) → bytes_eq second first ≡ false → NoCollision (pick first second) second
pick-second first second n other h = elim (Bool-cases (bytes_eq other first)) [
  | inl e ↦ absurd (apart 1 2 refl (rw (e, n, bytes_eq_refl second) at h))
  | inr e ↦ elim (Bool-cases (bytes_eq other second)) [
    | inl f ↦ (bytes_eq_iff other second).0 f
    | inr f ↦ absurd (apart 0 2 refl (rw (e, f, n, bytes_eq_refl second) at h))
  ]
]

abbrev pub first : Snapshot
first = record {
  root_tree_id = repeat 32 3;
  parents = [];
  timestamp_millis = 5;
  author = none;
  message = none;
  provenance = record { source = b'm' ∷ []; attributes = [] };
}

abbrev pub request : SnapshotRequest
request = record {
  timestamp_millis = some 7;
  author = none;
  message = none;
  provenance = record { source = b'm' ∷ []; attributes = [] };
}

abbrev pub captured : CaptureResult
captured = record { root_tree_id = repeat 32 0 }

abbrev pub second : Snapshot
second = made captured request (repeat 32 1 ∷ []) 7

abbrev pub hash : Bytes → ObjectId
hash = pick (to_canonical_bytes first) (to_canonical_bytes second)

pub first-Storable : Storable hash first
unfolding is_utf8 to_canonical_bytes to_be_bytes write_u32 write_u64 write_string
    write_optional_string write_parents write_attributes
first-Storable = record {
  valid = record {
    root_ok = record { width = refl; bytes = omega arith };
    parents_ok = tt;
    few_parents = omega arith;
    time_ok = omega arith;
    author_ok = tt;
    message_ok = tt;
    source_ok = record { utf8 = refl; bytes = omega arith; short = omega arith };
    attributes_ok = tt;
    few_attributes = omega arith;
    keys_ok = tt;
  };
  fits = omega arith;
  unique = pick-first (to_canonical_bytes first) (to_canonical_bytes second);
}

pub second-Storable : Storable hash second
unfolding is_utf8 to_canonical_bytes to_be_bytes write_u32 write_u64 write_string
    write_optional_string write_parents write_attributes bytes_eq
second-Storable = record {
  valid = record {
    root_ok = record { width = refl; bytes = omega arith };
    parents_ok = (record { width = refl; bytes = omega arith }, tt);
    few_parents = omega arith;
    time_ok = omega arith;
    author_ok = tt;
    message_ok = tt;
    source_ok = record { utf8 = refl; bytes = omega arith; short = omega arith };
    attributes_ok = tt;
    few_attributes = omega arith;
    keys_ok = tt;
  };
  fits = omega arith;
  unique = pick-second (to_canonical_bytes first) (to_canonical_bytes second) refl;
}
