-- ===== src/Base/ByteOrder.antt =====
-- Equality and the lexicographic order of byte slices: `==` and `cmp` on `[u8]`.
use Prim.Native.Nat.{compare, Ordering}
use mathlib.Core.Path.{◌≡◌, refl}
use mathlib.Core.Logic.{◌↔◌, ◌⊎◌, inl, inr}
use mathlib.Core.Bool.{Bool, true, false, ◌&&◌}
use mathlib.Core.Option.{Option, none, some}
use mathlib.Core.List.{[], ◌∷◌}
use native.Mathlib.Omega.{arith}
use era.Base.Lists.{Bytes}
use era.Base.Tests.{◌==◌}

unfoldable pub bytes_eq : Bytes → Bytes → Bool
bytes_eq [] [] = true
bytes_eq (x ∷ xs) (y ∷ ys) = x == y && bytes_eq xs ys
bytes_eq _ _ = false

pub bytes_eq_iff : (a b : Bytes) → (bytes_eq a b ≡ true) ↔ (a ≡ b)
unfolding bytes_eq
bytes_eq_iff (x ∷ a) (y ∷ b) = ground (arith, bytes_eq_iff a b)
bytes_eq_iff _ _ = ground arith

pub bytes_eq_refl : (a : Bytes) → bytes_eq a a ≡ true
bytes_eq_refl a = (bytes_eq_iff a a).1 refl

unfoldable pub bytes_cmp : Bytes → Bytes → Ordering
bytes_cmp [] [] = Ordering.eq
bytes_cmp [] (y ∷ ys) = Ordering.lt
bytes_cmp (x ∷ xs) [] = Ordering.gt
bytes_cmp (x ∷ xs) (y ∷ ys) =
    let rest = bytes_cmp xs ys in
    elim (compare x y) [
      | Ordering.lt ↦ Ordering.lt
      | Ordering.eq ↦ rest
      | Ordering.gt ↦ Ordering.gt
    ]

abbrev pub BytesLt : Bytes → Bytes → Type 0
BytesLt a b = bytes_cmp a b ≡ Ordering.lt

pub bytes_cmp-eq : (a b : Bytes) → bytes_cmp a b ≡ Ordering.eq → a ≡ b
unfolding bytes_cmp
bytes_cmp-eq (x ∷ a) (y ∷ b) h = ground (arith, bytes_cmp-eq a b)
bytes_cmp-eq [] [] h = refl
bytes_cmp-eq _ _ h = cc

pub bytes_cmp_refl : (a : Bytes) → bytes_cmp a a ≡ Ordering.eq
unfolding bytes_cmp
bytes_cmp_refl [] = refl
bytes_cmp_refl (x ∷ a) = ground (arith, bytes_cmp_refl a)

pub bytes_cmp-gt : (a b : Bytes) → bytes_cmp a b ≡ Ordering.gt → BytesLt b a
unfolding bytes_cmp
bytes_cmp-gt (x ∷ a) (y ∷ b) h = ground (arith, bytes_cmp-gt a b)
bytes_cmp-gt (x ∷ a) [] h = refl
bytes_cmp-gt [] (y ∷ b) h = cc
bytes_cmp-gt [] [] h = cc

pub BytesLt-trans : (a b c : Bytes) → BytesLt a b → BytesLt b c → BytesLt a c
unfolding bytes_cmp
BytesLt-trans (x ∷ a) (y ∷ b) (z ∷ c) h k = ground (arith, BytesLt-trans a b c)
BytesLt-trans [] _ (z ∷ c) h k = refl
BytesLt-trans [] (y ∷ b) [] h k = cc
BytesLt-trans [] [] [] h k = cc
BytesLt-trans _ _ _ h k = cc

pub BytesLt-irrefl : (a : Bytes) → ¬ (BytesLt a a)
BytesLt-irrefl a h = cc (bytes_cmp_refl a)

pub BytesLt-asymm : (a b : Bytes) → BytesLt a b → ¬ (BytesLt b a)
BytesLt-asymm a b h k = BytesLt-irrefl a (BytesLt-trans a b a h k)

pub bytes_cmp-cases :
    (a b : Bytes)
    → (bytes_cmp a b ≡ Ordering.lt) ⊎ (bytes_cmp a b ≡ Ordering.eq) ⊎ (bytes_cmp a b ≡ Ordering.gt)
bytes_cmp-cases a b = go (bytes_cmp a b)
  where
    go : (o : Ordering) → (o ≡ Ordering.lt) ⊎ (o ≡ Ordering.eq) ⊎ (o ≡ Ordering.gt)
    go Ordering.lt = inl refl
    go Ordering.eq = inr (inl refl)
    go Ordering.gt = inr (inr refl)

pub bytes_cmp-lt : (a b : Bytes) → BytesLt a b → bytes_cmp b a ≡ Ordering.gt
unfolding bytes_cmp
bytes_cmp-lt (x ∷ a) (y ∷ b) h = ground (arith, bytes_cmp-lt a b)
bytes_cmp-lt [] (y ∷ b) h = refl
bytes_cmp-lt (x ∷ a) [] h = cc
bytes_cmp-lt [] [] h = cc

-- A key that may follow the one before, if there is one.
abbrev pub InOrder : Option Bytes → Bytes → Type 0
InOrder none name = Unit
InOrder (some previous) name = BytesLt previous name
