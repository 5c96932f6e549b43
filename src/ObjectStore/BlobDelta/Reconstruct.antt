-- ===== src/ObjectStore/BlobDelta/Reconstruct.antt =====
-- `create` against `reconstruct`: a delta gives back the blob that it was made for.
use Prim.Native.Nat.{min}
use mathlib.Core.List.{reverse-append, reverse-reverse}
use era.Base.{
  ◌==◌, ==_iff, Bool-cases, Bytes, length, take, drop, length-append, length-reverse,
  take-append-drop, length-take, length-drop, drop-length-append, drop-nil, drop-drop, ok, ℕ, zero,
  suc, ◌+◌, ◌-◌, ◌^◌, ◌≤◌, ◌<◌, ◌≡◌, refl, sym, ap, ap₂, ◌∙◌, subst, inl, inr, some, [], ◌∷◌, ◌++◌,
  reverse, arith,
}
use era.Base.Slice.{slice}
use era.Core.ObjectId.{ObjectId}
use era.ObjectStore.BlobDelta.{
  max_delta_chain_depth, min_delta_savings_bytes, BlobDelta, encoded_len, common_prefix_len,
  count_equal, common_suffix_len, make_delta, create, kept_suffix, reconstruct,
}

common_prefix_len_lem :
    (base target : Bytes)
    → (common_prefix_len base target ≤ length base)
      × (common_prefix_len base target ≤ length target)
      × (take (common_prefix_len base target) base ≡ take (common_prefix_len base target) target)
unfolding common_prefix_len
common_prefix_len_lem (x ∷ base) (y ∷ target) = elim (Bool-cases (x == y)) [
  | inl same ↦
      let (p, q, e) = common_prefix_len_lem base target in
      rw (same, common_prefix_len) (omega arith, omega arith, ap₂ ◌∷◌ ((==_iff x y).0 same) e)
  | inr other ↦ rw (other, common_prefix_len) (omega arith, omega arith, refl)
]
common_prefix_len_lem [] target = (omega arith, omega arith, refl)
common_prefix_len_lem (x ∷ base) [] = (omega arith, omega arith, refl)

count_equal_lem :
    (limit : ℕ) (base target : Bytes)
    → (count_equal limit base target ≤ limit)
      × (count_equal limit base target ≤ length base)
      × (count_equal limit base target ≤ length target)
      × (take (count_equal limit base target) base ≡ take (count_equal limit base target) target)
unfolding count_equal
count_equal_lem (suc limit) (x ∷ base) (y ∷ target) = elim (Bool-cases (x == y)) [
  | inl same ↦
      let (l, p, q, e) = count_equal_lem limit base target in
      rw (same, count_equal)
        (omega arith, omega arith, omega arith, ap₂ ◌∷◌ ((==_iff x y).0 same) e)
  | inr other ↦ rw (other, count_equal) (omega arith, omega arith, omega arith, refl)
]
count_equal_lem zero base target = (omega arith, omega arith, omega arith, refl)
count_equal_lem (suc limit) [] target = (omega arith, omega arith, omega arith, refl)
count_equal_lem (suc limit) (x ∷ base) [] = (omega arith, omega arith, omega arith, refl)

-- The last `k` elements, through the reversed list.
drop_suffix :
    (k : ℕ) (xs : Bytes) → k ≤ length xs → drop (length xs - k) xs ≡ reverse (take k (reverse xs))
drop_suffix k xs h =
    ap₂ drop count (sym (reverse-reverse xs) ∙ whole)
    ∙ drop-length-append (reverse (drop k (reverse xs))) (reverse (take k (reverse xs)))
  where
    whole : reverse (reverse xs) ≡ reverse (drop k (reverse xs)) ++ reverse (take k (reverse xs))
    whole =
        ap reverse (sym (take-append-drop k (reverse xs)))
        ∙ reverse-append (take k (reverse xs)) (drop k (reverse xs))

    count : length xs - k ≡ length (reverse (drop k (reverse xs)))
    count =
        omega (
          arith,
          length-reverse (drop k (reverse xs)),
          length-drop k (reverse xs),
          length-reverse xs,
        )

common_suffix_len_lem :
    (base target : Bytes) (p : ℕ)
    → p ≤ length base
    → p ≤ length target
    → (common_suffix_len base target p ≤ length base - p)
      × (common_suffix_len base target p ≤ length target - p)
      × (drop (length base - common_suffix_len base target p) base
          ≡ drop (length target - common_suffix_len base target p) target)
unfolding common_suffix_len
common_suffix_len_lem base target p hb ht =
    let k = count_equal (min (length base) (length target) - p) (reverse base) (reverse target) in
    let (l, _, _, e) =
      count_equal_lem (min (length base) (length target) - p) (reverse base) (reverse target) in
    (
      omega arith,
      omega arith,
      drop_suffix k base (omega arith) ∙ ap reverse e ∙ sym (drop_suffix k target (omega arith)),
    )

-- A blob is its first `p` bytes, its last `s` bytes and what stands between them.
three_parts :
    (target : Bytes) (p s : ℕ)
    → s ≤ length target - p
    → p ≤ length target
    → take p target ++ (slice target p (length target - s) ++ drop (length target - s) target)
      ≡ target
three_parts target p s hs hp =
    let n = length target - s - p in
    let e : drop (length target - s) target ≡ drop n (drop p target) =
      sym (drop-drop n p target ∙ (let f : p + n ≡ length target - s = omega arith in rw f)) in
    ap (λ t. take p target ++ (take n (drop p target) ++ t)) e
    ∙ ap (λ t. take p target ++ t) (take-append-drop n (drop p target))
    ∙ take-append-drop p target

kept_suffix-drop :
    (base : Bytes) (s : ℕ) → s ≤ length base → kept_suffix base s ≡ drop (length base - s) base
unfolding kept_suffix
kept_suffix-drop base zero h = sym (drop_all base)
  where
    drop_all : (xs : Bytes) → drop (length xs - 0) xs ≡ []
    drop_all [] = drop-nil 0
    drop_all (x ∷ xs) = let e : suc (length xs) - 0 ≡ suc (length xs) = omega arith in rw e (all xs)
      where
        all : (xs : Bytes) → drop (length xs) xs ≡ []
        all [] = refl
        all (x ∷ xs) = all xs
kept_suffix-drop base (suc s) h = ground arith

make_delta-reconstruct :
    (base_id : ObjectId) (base : Bytes) (base_depth : ℕ) (target : Bytes)
    → reconstruct (make_delta base_id base base_depth target) base ≡ ok target
unfolding reconstruct make_delta
make_delta-reconstruct base_id base base_depth target =
    let p = common_prefix_len base target in
    let s = common_suffix_len base target p in
    let (pb, pt, prefix) = common_prefix_len_lem base target in
    let (sb, st, suffix) = common_suffix_len_lem base target p pb pt in
    let len : length (slice target p (length target - s)) ≡ length target - p - s =
      omega (arith, length-take (length target - s - p) (drop p target), length-drop p target) in
    let whole =
      ap₂ (λ a b. a ++ (slice target p (length target - s) ++ b)) prefix
        (kept_suffix-drop base s (omega arith) ∙ suffix)
      ∙ three_parts target p s st pt in
    ground (arith, len, whole)

-- What `create` returns gives the target back on the base that it was made from, one link deeper
-- than the base and never deeper than 16, and its encoding is over 1024 bytes shorter than the
-- target. The target fits the memory that a Rust slice can take.
pub create-reconstruct :
    (base_id : ObjectId) (base : Bytes) (base_depth : ℕ) (target : Bytes) (d : BlobDelta)
    → length target < 2 ^ 63
    → create base_id base base_depth target ≡ some d
    → (reconstruct d base ≡ ok target)
      × (d.base_id ≡ base_id)
      × (d.depth ≡ base_depth + 1)
      × (d.depth ≤ max_delta_chain_depth)
      × (encoded_len d + min_delta_savings_bytes < length target)
unfolding create
create-reconstruct base_id base base_depth target d fits h =
    let made : make_delta base_id base base_depth target ≡ d = ground arith in
    let shallow : base_depth < max_delta_chain_depth = ground arith in
    let saved : encoded_len (make_delta base_id base base_depth target) + min_delta_savings_bytes
        < length target =
      ground arith in
    let depth : (make_delta base_id base base_depth target).depth ≡ base_depth + 1 =
      unfold make_delta in refl in
    subst
      (λ (d : BlobDelta).
        (reconstruct d base ≡ ok target)
        × (d.base_id ≡ base_id)
        × (d.depth ≡ base_depth + 1)
        × (d.depth ≤ max_delta_chain_depth)
        × (encoded_len d + min_delta_savings_bytes < length target))
      made
      (
        make_delta-reconstruct base_id base base_depth target,
        unfold make_delta in refl,
        depth,
        omega arith,
        saved,
      )

-- Whatever delta is applied, to whatever base: a result has the target length that the delta
-- states, the base has the length that it states, and the result starts with the base's first
-- `prefix_len` bytes and ends with its last `suffix_len` bytes, with `insert` between them.
pub reconstruct-ok :
    (d : BlobDelta) (base result : Bytes)
    → reconstruct d base ≡ ok result
    → (length base ≡ d.base_len)
      × (length result ≡ d.target_len)
      × (d.prefix_len + d.suffix_len ≤ length base)
      × (result ≡ take d.prefix_len base ++ (d.insert ++ drop (length base - d.suffix_len) base))
unfolding reconstruct
reconstruct-ok d base result h =
    let eq : take d.prefix_len base ++ (d.insert ++ kept_suffix base d.suffix_len) ≡ result =
      ground arith in
    let sizes : length base ≡ d.base_len = ground arith in
    let room : d.prefix_len + d.suffix_len ≤ length base = ground arith in
    let fits : d.prefix_len + d.suffix_len ≤ d.target_len = ground arith in
    let mid : length d.insert ≡ d.target_len - d.prefix_len - d.suffix_len = ground arith in
    let whole =
      sym eq
      ∙ ap (λ t. take d.prefix_len base ++ (d.insert ++ t))
          (kept_suffix-drop base d.suffix_len (omega arith)) in
    (
      sizes,
      omega (
        arith,
        ap length whole,
        length-append (take d.prefix_len base) (d.insert ++ drop (length base - d.suffix_len) base),
        length-append d.insert (drop (length base - d.suffix_len) base),
        length-take d.prefix_len base,
        length-drop (length base - d.suffix_len) base,
      ),
      room,
      whole,
    )
