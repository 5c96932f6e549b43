-- ===== src/Core/ObjectId.antt =====
-- crates/core/src/object_id.rs: object identifiers and their hexadecimal form.
-- An `ObjectId` is its byte array. BLAKE3 is third-party code: it is a parameter wherever content
-- is hashed, and nothing here depends on it.
pub mod Nibbles
pub mod Parse
pub mod Text
mod Tests
use Prim.Native.Nat.{bit_and, bit_or}
use era.Base.{
  leb, ◌==◌, if◌then◌else◌, Bytes, length, get_or, All, Result, ok, err, ◌>>=◌, ok_or, ℕ, ◌+◌, ◌-◌,
  ◌*◌, ◌/◌, ◌%◌, ◌^◌, ◌≡◌, not, ◌&&◌, Option, none, some, [], ◌∷◌, ◌++◌,
}
use era.Base.Endian.{IsByte}

abbrev pub object_id_bytes : ℕ
object_id_bytes = 32

abbrev pub object_id_hex_length : ℕ
object_id_hex_length = object_id_bytes * 2

abbrev pub ObjectId : Type 0
ObjectId = Bytes

-- The array type `[u8; 32]`.
pub record IsObjectId (id : ObjectId) : Type 0 where
  pub width : length id ≡ object_id_bytes
  pub bytes : All IsByte id

pub data ParseObjectIdError : Type 0 where
  invalid_length : ℕ → ParseObjectIdError
  invalid_hex : ℕ → ℕ → ParseObjectIdError

abbrev hex_digits : Bytes
hex_digits =
    b'0' ∷ b'1' ∷ b'2' ∷ b'3' ∷ b'4' ∷ b'5' ∷ b'6' ∷ b'7' ∷ b'8' ∷ b'9' ∷ b'a' ∷ b'b' ∷ b'c' ∷ b'd'
    ∷ b'e' ∷ b'f' ∷ []

-- The table lookup; every caller passes four bits, so the index is in range.
unfoldable pub hex_digit : ℕ → ℕ
hex_digit value = get_or hex_digits value 0

pub decode_hex_digit : ℕ → Option ℕ
decode_hex_digit value =
    if leb b'0' value && leb value b'9'
    then some (value - b'0')
    else if leb b'a' value && leb value b'f'
    then some (value - b'a' + 10)
    else if leb b'A' value && leb value b'F'
    then some (value - b'A' + 10)
    else none

-- The two digits that `to_hex` and `shard_prefix` push for a byte: `byte >> 4`, `byte & 0x0f`.
unfoldable pub hex_pair : ℕ → Bytes
hex_pair byte = hex_digit (byte / 2 ^ 4) ∷ hex_digit (bit_and byte 0x0f) ∷ []

unfoldable pub to_hex : ObjectId → Bytes
to_hex [] = []
to_hex (byte ∷ rest) = hex_pair byte ++ to_hex rest

-- The first byte; an array of 32 bytes has one.
unfoldable pub shard_prefix : ObjectId → Bytes
shard_prefix [] = []
shard_prefix (byte ∷ rest) = hex_pair byte

-- The loop over `chunks_exact(2)`; `index` counts the chunks.
pub parse_chunks : ℕ → Bytes → Result ParseObjectIdError Bytes
parse_chunks index (high_digit ∷ low_digit ∷ rest) = do
  high ← ok_or (decode_hex_digit high_digit) (invalid_hex (index * 2) high_digit)
  low ← ok_or (decode_hex_digit low_digit) (invalid_hex (index * 2 + 1) low_digit)
  bytes ← parse_chunks (index + 1) rest
  ok (bit_or (high * 2 ^ 4 % 256) low ∷ bytes)
parse_chunks index _ = ok []

-- `FromStr::from_str`, which `from_hex` calls.
unfoldable pub from_hex : Bytes → Result ParseObjectIdError ObjectId
from_hex input =
    if not (length input == object_id_hex_length)
    then err (invalid_length (length input))
    else parse_chunks 0 input
