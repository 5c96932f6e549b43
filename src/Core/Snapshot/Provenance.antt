-- ===== src/Core/Snapshot/Provenance.antt =====
-- Provenance attributes: `BTreeMap::insert` on the sorted list of pairs, and `check_key`, which
-- keeps the keys of a decoded snapshot in order.
use Prim.Native.Nat.{Ordering}
use era.Base.{
  if◌then◌else◌, Bytes, All, All-append, ◌≡◌, refl, sym, subst, inl, inr, Option, none, some, [],
  ◌∷◌, ◌++◌, arith,
}
use era.Base.ByteOrder.{
  bytes_eq, bytes_eq_iff, bytes_cmp, BytesLt, bytes_cmp-eq, bytes_cmp_refl, bytes_cmp-gt,
  BytesLt-trans, bytes_cmp-cases, bytes_cmp-lt, InOrder,
}
use era.Core.Snapshot.{Attributes, SnapshotProvenance, insert, with_attribute}

-- The value of a key.
pub get : Bytes → Attributes → Option Bytes
get key [] = none
get key ((k, v) ∷ m) = if bytes_eq k key then some v else get key m

-- The keys stand in strict order, behind `previous` if there is one.
abbrev pub KeysOrdered : Option Bytes → Attributes → Type 0
KeysOrdered previous [] = Unit
KeysOrdered previous ((k, v) ∷ m) = InOrder previous k × KeysOrdered (some k) m

module _ (key value k v : Bytes) (m : Attributes) where
  insert-lt :
      bytes_cmp key k ≡ Ordering.lt → insert key value ((k, v) ∷ m) ≡ (key, value) ∷ (k, v) ∷ m
  unfolding insert
  insert-lt e = rw (e, insert)

  insert-eq : bytes_cmp key k ≡ Ordering.eq → insert key value ((k, v) ∷ m) ≡ (key, value) ∷ m
  unfolding insert
  insert-eq e = rw (e, insert)

  insert-gt :
      bytes_cmp key k ≡ Ordering.gt → insert key value ((k, v) ∷ m) ≡ (k, v) ∷ insert key value m
  unfolding insert
  insert-gt e = rw (e, insert)

insert-KeysOrdered :
    (key value : Bytes) (previous : Option Bytes) (m : Attributes)
    → InOrder previous key
    → KeysOrdered previous m
    → KeysOrdered previous (insert key value m)
insert-KeysOrdered key value previous [] h o = unfold insert in (h, tt)
insert-KeysOrdered key value previous ((k, v) ∷ m) h (p, o) = elim (bytes_cmp-cases key k) [
  | inl lt ↦ rw (insert-lt key value k v m lt) (h, (lt, o))
  | inr (inl eq) ↦
      rw (insert-eq key value k v m eq)
        (h, subst (λ j. KeysOrdered (some j) m) (sym (bytes_cmp-eq key k eq)) o)
  | inr (inr gt) ↦
      rw (insert-gt key value k v m gt)
        (p, insert-KeysOrdered key value (some k) m (bytes_cmp-gt key k gt) o)
]

get-insert :
    (key value j : Bytes) (m : Attributes)
    → get j (insert key value m) ≡ (if bytes_eq key j then some value else get j m)
unfolding get insert
get-insert key value j [] = refl
get-insert key value j ((k, v) ∷ m) = elim (bytes_cmp-cases key k) [
  | inl lt ↦ rw (insert-lt key value k v m lt)
  | inr (inl eq) ↦
      rw (insert-eq key value k v m eq)
        (ground (arith, bytes_cmp-eq key k eq, bytes_eq_iff k j, bytes_eq_iff key j))
  | inr (inr gt) ↦ rw (insert-gt key value k v m gt) (
      ground
        (arith, get-insert key value j m, bytes_eq_iff k j, bytes_eq_iff key j, bytes_cmp_refl k))
]

-- `with_attribute` sets the value of its key, leaves the value of every other key and the source
-- alone, and keeps the keys in strict order.
pub with_attribute_lem :
    (p : SnapshotProvenance) (key value : Bytes)
    → KeysOrdered none p.attributes
    → KeysOrdered none (with_attribute p key value).attributes
      × ((j : Bytes)
          → get j (with_attribute p key value).attributes
            ≡ (if bytes_eq key j then some value else get j p.attributes))
      × ((with_attribute p key value).source ≡ p.source)
unfolding with_attribute
with_attribute_lem p key value o = (
  insert-KeysOrdered key value none p.attributes tt o,
  λ j. get-insert key value j p.attributes,
  refl,
)

-- Every key of `m` stands before any key that may follow `previous`.
abbrev pub UpTo : Option Bytes → Attributes → Type 0
UpTo previous m = (k : Bytes) → InOrder previous k → All (λ (e : Bytes × Bytes). BytesLt e.0 k) m

insert-append :
    (key value : Bytes) (m : Attributes)
    → All (λ (e : Bytes × Bytes). BytesLt e.0 key) m
    → insert key value m ≡ m ++ (key, value) ∷ []
unfolding insert
insert-append key value [] h = refl
insert-append key value ((k, v) ∷ m) (lt, h) =
    rw (insert-gt key value k v m (bytes_cmp-lt k key lt), insert-append key value m h)

pub UpTo-nil : UpTo none []
UpTo-nil k h = tt

-- A key in order is appended, and the map then reaches up to it.
pub UpTo-insert :
    (previous : Option Bytes) (key value : Bytes) (m : Attributes)
    → UpTo previous m
    → InOrder previous key
    → (insert key value m ≡ m ++ (key, value) ∷ []) × UpTo (some key) (insert key value m)
UpTo-insert previous key value m u h =
    let e = insert-append key value m (u key h) in
    (
      e,
      λ k lt. rw e (
          All-append (λ (e : Bytes × Bytes). BytesLt e.0 k) m ((key, value) ∷ [])
            (later k lt m (u key h)) (lt, tt)),
    )
  where
    later :
        (k : Bytes)
        → BytesLt key k
        → (m : Attributes) → All (λ (e : Bytes × Bytes). BytesLt e.0 key) m
        → All (λ (e : Bytes × Bytes). BytesLt e.0 k) m
    later k lt [] h = tt
    later k lt ((j, v) ∷ m) (p, h) = (BytesLt-trans j key k p lt, later k lt m h)
