-- ===== src/Core/ObjectId/Nibbles.antt =====
-- The digit tables of object_id.rs, checked by evaluation.
use Prim.Native.Nat.{bit_and, bit_or}
use era.Base.{
  leb, if◌then◌else◌, ℕ, zero, suc, ◌+◌, ◌*◌, ◌/◌, ◌%◌, ◌^◌, ◌<◌, ◌≡◌, refl, Bool, true, false,
  ◌&&◌, Option, none, some, arith,
}
use mathlib.Core.Logic.{ite}
use native.Mathlib.Decide.{ℕ_discrete}
use era.Core.ObjectId.{hex_digit, decode_hex_digit}

module _ (f g : ℕ → ℕ) where
  agree_below : ℕ → Bool
  unfolding ℕ_discrete
  agree_below zero = true
  agree_below (suc n) = ite (ℕ_discrete (f n) (g n)) (agree_below n) false

  agree_below→eq : (n : ℕ) → agree_below n ≡ true → (i : ℕ) → i < n → f i ≡ g i
  unfolding agree_below
  agree_below→eq zero e i h = absurd (omega arith)
  agree_below→eq (suc n) e i h = ground (arith, agree_below→eq n (ground arith) i)

pub low_nibble : (b : ℕ) → b < 256 → bit_and b 0x0f ≡ b % 16
unfolding agree_below
low_nibble = agree_below→eq _ _ 256 refl

-- The byte of two nibbles, as `from_str` joins them.
abbrev pub join : ℕ → ℕ → ℕ
join high low = bit_or (high * 2 ^ 4 % 256) low

join_table : (b : ℕ) → b < 256 → join (b / 16) (b % 16) ≡ b
unfolding agree_below
join_table = agree_below→eq _ _ 256 refl

pub join-add : (high low : ℕ) → high < 16 → low < 16 → join high low ≡ high * 16 + low
join-add high low h l = go (omega arith) (omega arith) (join_table (high * 16 + low) (omega arith))
  where
    go :
        {a b : ℕ}
        → a ≡ high
        → b ≡ low
        → join a b ≡ high * 16 + low
        → join high low ≡ high * 16 + low
    go p q e = rw (p, q) at e

-- `u8::to_ascii_lowercase`
abbrev pub ascii_lower : ℕ → ℕ
ascii_lower c = if leb b'A' c && leb c b'Z' then c + 32 else c

abbrev option_code : Option ℕ → ℕ
option_code none = 0
option_code (some v) = suc v

decode_table : (v : ℕ) → v < 16 → option_code (decode_hex_digit (hex_digit v)) ≡ suc v
unfolding agree_below decode_hex_digit hex_digit
decode_table = agree_below→eq _ _ 16 refl

pub decode_hex_digit-hex_digit : (v : ℕ) → v < 16 → decode_hex_digit (hex_digit v) ≡ some v
decode_hex_digit-hex_digit v h = go (decode_hex_digit (hex_digit v)) (decode_table v h)
  where
    go : (o : Option ℕ) → option_code o ≡ suc v → o ≡ some v
    go none e = absurd (omega arith)
    go (some w) e = let e' : w ≡ v = omega arith in rw e'

abbrev digit_of : Option ℕ → ℕ
digit_of none = 0
digit_of (some v) = hex_digit v

abbrev lower_of : ℕ → Option ℕ → ℕ
lower_of c none = 0
lower_of c (some v) = ascii_lower c

lower_table : (c : ℕ) → c < 256 → digit_of (decode_hex_digit c) ≡ lower_of c (decode_hex_digit c)
unfolding agree_below decode_hex_digit hex_digit
lower_table = agree_below→eq _ _ 256 refl

pub decode_hex_digit_bounds : (c v : ℕ) → decode_hex_digit c ≡ some v → (c < 256) × (v < 16)
unfolding decode_hex_digit
decode_hex_digit_bounds c v h = ground arith

pub hex_digit-decode_hex_digit :
    (c v : ℕ) → decode_hex_digit c ≡ some v → hex_digit v ≡ ascii_lower c
hex_digit-decode_hex_digit c v h = rw h at (lower_table c (decode_hex_digit_bounds c v h).0)
