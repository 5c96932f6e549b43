-- ===== src/Base/Utf8.antt =====
-- The well-formed UTF-8 byte sequences, which `String::from_utf8` accepts (Unicode, table 3-7).
-- A Rust string is modelled by its bytes.
use Prim.Native.Nat.{ℕ, ◌<◌}
use mathlib.Core.Path.{◌≡◌, refl}
use native.Mathlib.Omega.{arith}
use mathlib.Core.Bool.{Bool, true, false, ◌&&◌}
use mathlib.Core.Option.{Option, none, some}
use mathlib.Core.List.{List, [], ◌∷◌, ◌++◌}
use era.Base.Lists.{Bytes, All}
use mathlib.Core.Logic.{inl, inr}
use era.Base.Tests.{Option-cases, leb, ltb, ◌==◌, if◌then◌else◌}

abbrev within : ℕ → ℕ → ℕ → Bool
within lo hi b = leb lo b && leb b hi

abbrev continuation : ℕ × ℕ
continuation = (0x80, 0xbf)

-- The ranges of the bytes that must follow a first byte; `none` if no character starts with it.
first_byte : ℕ → Option (List (ℕ × ℕ))
first_byte b =
    if ltb b 0x80
    then some []
    else if within 0xc2 0xdf b
    then some (continuation ∷ [])
    else if b == 0xe0
    then some ((0xa0, 0xbf) ∷ continuation ∷ [])
    else if b == 0xed
    then some ((0x80, 0x9f) ∷ continuation ∷ [])
    else if within 0xe1 0xef b
    then some (continuation ∷ continuation ∷ [])
    else if b == 0xf0
    then some ((0x90, 0xbf) ∷ continuation ∷ continuation ∷ [])
    else if within 0xf1 0xf3 b
    then some (continuation ∷ continuation ∷ continuation ∷ [])
    else if b == 0xf4
    then some ((0x80, 0x8f) ∷ continuation ∷ continuation ∷ [])
    else none

utf8_from : List (ℕ × ℕ) → Bytes → Bool
utf8_from [] [] = true
utf8_from (r ∷ rs) [] = false
utf8_from ((lo, hi) ∷ rs) (b ∷ bs) = within lo hi b && utf8_from rs bs
utf8_from [] (b ∷ bs) = elim (first_byte b) [ none ↦ false | some rs ↦ utf8_from rs bs ]

unfoldable pub is_utf8 : Bytes → Bool
unfolding utf8_from first_byte
is_utf8 bytes = utf8_from [] bytes

abbrev pub IsUtf8 : Bytes → Type 0
IsUtf8 s = is_utf8 s ≡ true

utf8_from-append :
    (rs : List (ℕ × ℕ)) (a b : Bytes)
    → utf8_from rs a ≡ true
    → utf8_from [] b ≡ true
    → utf8_from rs (a ++ b) ≡ true
unfolding utf8_from
utf8_from-append [] [] b h k = k
utf8_from-append (r ∷ rs) [] b h k = absurd (cc)
utf8_from-append ((lo, hi) ∷ rs) (x ∷ a) b h k = ground (arith, utf8_from-append rs a b)
utf8_from-append [] (x ∷ a) b h k = elim (Option-cases (first_byte x)) [
  | inl e ↦ absurd (clash (rw (e, utf8_from) at h))
  | inr (rs, e) ↦ rw (e, utf8_from) (utf8_from-append rs a b (rw (e, utf8_from) at h) k)
]
  where
    clash : false ≡ true → ⊥
    clash h = cc

pub IsUtf8-append : (a b : Bytes) → IsUtf8 a → IsUtf8 b → IsUtf8 (a ++ b)
unfolding is_utf8
IsUtf8-append a b h k = utf8_from-append [] a b h k

utf8_from-ascii : (s : Bytes) → All (λ b. b < 128) s → utf8_from [] s ≡ true
unfolding utf8_from first_byte
utf8_from-ascii [] h = refl
utf8_from-ascii (x ∷ s) (small, h) =
    let e : ltb x 0x80 ≡ true = ground (arith, small) in
    rw (e, utf8_from, first_byte) (utf8_from-ascii s h)

pub ascii-IsUtf8 : (s : Bytes) → All (λ b. b < 128) s → IsUtf8 s
unfolding is_utf8
ascii-IsUtf8 s h = utf8_from-ascii s h

accepts_e_acute : IsUtf8 (0x65 ∷ 0xc3 ∷ 0xa9 ∷ [])
unfolding is_utf8
accepts_e_acute = refl

refuses_surrogate : is_utf8 (0xed ∷ 0xa0 ∷ 0x80 ∷ []) ≡ false
unfolding is_utf8
refuses_surrogate = refl
