-- ===== src/Base/Slice.antt =====
-- Slices `&bytes[from..to]`, and what is left of a buffer behind an offset.
use Prim.Native.Nat.{ℕ, zero, suc, ◌<◌, ◌+◌, ◌-◌, ◌≤◌, ◌^◌}
use mathlib.Core.Path.{◌≡◌, refl, ap, sym, ◌∙◌}
use mathlib.Core.List.{List, [], ◌∷◌, ◌++◌}
use mathlib.Core.Option.{some}
use native.Mathlib.Omega.{arith}
use era.Base.Lists.{
  Bytes, length, get_elem?, take, drop, length-append, take-append-drop, length-take, length-drop,
  take-length-append, drop-length-append, drop-drop,
}

-- `from ≤ to ≤ length b` at every call, as Rust's bounds check demands.
abbrev pub slice {ℓ} : {A : Type ℓ} → List A → ℕ → ℕ → List A
slice b from to = take (to - from) (drop from b)

-- The largest buffer that a 64-bit address space can hold is shorter than this.
abbrev pub usize_mod : ℕ
usize_mod = 2 ^ 64

-- The bytes of `b` from offset `off` on are `s`.
pub record At (b : Bytes) (off : ℕ) (s : Bytes) : Type 0 where
  pub rest : drop off b ≡ s
  pub within : off ≤ length b

pub At-start : (b : Bytes) → At b 0 b
At-start b = record { rest = refl; within = omega arith }

pub At-length : {b : Bytes} {off : ℕ} {s : Bytes} → At b off s → off + length s ≡ length b
At-length {b} {off} a = omega (arith, ap length a.rest, length-drop off b, a.within)

pub At-slice :
    {b : Bytes} {off n : ℕ} {ch r : Bytes}
    → At b off (ch ++ r)
    → length ch ≡ n
    → (off + n ≤ length b) × (slice b off (off + n) ≡ ch) × At b (off + n) r
At-slice {b} {off} {n} {ch} {r} a e = (fits, chunk, record { rest = left; within = fits })
  where
    fits : off + n ≤ length b
    fits = omega (arith, At-length a, length-append ch r)

    chunk : slice b off (off + n) ≡ ch
    chunk =
        let w : off + n - off ≡ length ch = omega arith in rw (w, a.rest) (take-length-append ch r)

    left : drop (off + n) b ≡ r
    left = sym (drop-drop n off b) ∙ rw (a.rest, ← e) (drop-length-append ch r)

pub At-next :
    {b : Bytes} {off : ℕ} {s : Bytes} (n : ℕ)
    → At b off s
    → off + n ≤ length b
    → (s ≡ slice b off (off + n) ++ drop (off + n) b)
      × (length (slice b off (off + n)) ≡ n)
      × At b (off + n) (drop (off + n) b)
At-next {b} {off} {s} n a h = (
  sym (
      ap (λ t. take (off + n - off) (drop off b) ++ t) tail
      ∙ take-append-drop (off + n - off) (drop off b)
      ∙ a.rest),
  omega (arith, length-take (off + n - off) (drop off b), length-drop off b),
  record { rest = refl; within = h },
)
  where
    tail : drop (off + n) b ≡ drop (off + n - off) (drop off b)
    tail = let w : off + n - off ≡ n = omega arith in rw w (sym (drop-drop n off b))

module _ {ℓ} {A : Type ℓ} where
  some-injective : {x y : A} → some x ≡ some y → x ≡ y
  some-injective h = cc

  pub drop-cons :
      (i : ℕ) (xs : List A) {x : A} → get_elem? xs i ≡ some x → drop i xs ≡ x ∷ drop (suc i) xs
  drop-cons zero [] h = cc
  drop-cons (suc i) [] h = cc
  drop-cons zero (y ∷ xs) h = ap (λ t. t ∷ xs) (some-injective h)
  drop-cons (suc i) (y ∷ xs) h = drop-cons i xs h

  pub get_elem?-length : (i : ℕ) (xs : List A) {x : A} → get_elem? xs i ≡ some x → i < length xs
  get_elem?-length zero [] h = cc
  get_elem?-length (suc i) [] h = cc
  get_elem?-length zero (y ∷ xs) h = omega arith
  get_elem?-length (suc i) (y ∷ xs) h = omega (arith, get_elem?-length i xs h)

  -- A slice and what follows it.
  pub slice-drop : (i j : ℕ) (xs : List A) → i ≤ j → slice xs i j ++ drop j xs ≡ drop i xs
  slice-drop i j xs h =
      ap (λ t. slice xs i j ++ t)
        (let e : i + (j - i) ≡ j = omega arith in
          sym (drop-drop (j - i) i xs ∙ ap (λ k. drop k xs) e))
      ∙ take-append-drop (j - i) (drop i xs)

  take-nil : (n : ℕ) → take {A = A} n [] ≡ []
  take-nil zero = refl
  take-nil (suc n) = refl

  take-add : (m n : ℕ) (xs : List A) → take (m + n) xs ≡ take m xs ++ take n (drop m xs)
  take-add zero n xs = ap (λ k. take k xs) (omega arith)
  take-add (suc m) n [] = let e : suc m + n ≡ suc (m + n) = omega arith in rw e (sym (take-nil n))
  take-add (suc m) n (x ∷ xs) =
      let e : suc m + n ≡ suc (m + n) = omega arith in rw e (ap (◌∷◌ x) (take-add m n xs))

  pub slice-append :
      (i j k : ℕ) (xs : List A) → i ≤ j → j ≤ k → slice xs i k ≡ slice xs i j ++ slice xs j k
  slice-append i j k xs h1 h2 =
      let e : k - i ≡ (j - i) + (k - j) = omega arith in
      let f : i + (j - i) ≡ j = omega arith in
      ap (λ n. take n (drop i xs)) e
      ∙ take-add (j - i) (k - j) (drop i xs)
      ∙ ap (λ t. take (j - i) (drop i xs) ++ take (k - j) t)
          (drop-drop (j - i) i xs ∙ ap (λ n. drop n xs) f)

  pub slice-one :
      (i : ℕ) (xs : List A) {x : A} → get_elem? xs i ≡ some x → slice xs i (i + 1) ≡ x ∷ []
  slice-one i xs h = let e : i + 1 - i ≡ 1 = omega arith in rw (e, drop-cons i xs h)

  pub slice-empty : (i : ℕ) (xs : List A) → slice xs i i ≡ []
  slice-empty i xs = let e : i - i ≡ 0 = omega arith in rw e

  pub drop-length : (xs : List A) → drop (length xs) xs ≡ []
  drop-length [] = refl
  drop-length (x ∷ xs) = drop-length xs
