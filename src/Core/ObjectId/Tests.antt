-- ===== src/Core/ObjectId/Tests.antt =====
-- Runs of object_id.rs at fixed inputs, and the theorems at inputs that meet their hypotheses.
use era.Base.{Bytes, length, ok, err, ℕ, ◌≡◌, refl, ◌≢◌, ◌⊎◌, [], ◌∷◌, map, arith}
use era.Core.ObjectId.{
  ObjectId, IsObjectId, invalid_length, invalid_hex, hex_digit, decode_hex_digit, hex_pair, to_hex,
  parse_chunks, from_hex,
}
use era.Core.ObjectId.Parse.{from_hex-to_hex, from_hex-ok, FirstBad, from_hex-err}
use era.Core.ObjectId.Nibbles.{ascii_lower}

abbrev sixteen : Bytes
sixteen =
    0x00 ∷ 0x1f ∷ 0xaf ∷ 0x13 ∷ 0x49 ∷ 0xb9 ∷ 0xf5 ∷ 0xf9 ∷ 0x00 ∷ 0x01 ∷ 0x02 ∷ 0x03 ∷ 0x04 ∷ 0x05
    ∷ 0x06 ∷ 0x07 ∷ []

abbrev pub sample_id : ObjectId
sample_id =
    0xff ∷ 0x1f ∷ 0xaf ∷ 0x13 ∷ 0x49 ∷ 0xb9 ∷ 0xf5 ∷ 0xf9 ∷ 0x00 ∷ 0x01 ∷ 0x02 ∷ 0x03 ∷ 0x04 ∷ 0x05
    ∷ 0x06 ∷ 0x07 ∷ sixteen

sample_id-IsObjectId : IsObjectId sample_id
sample_id-IsObjectId = record { width = refl; bytes = omega arith }

from_hex_abc : from_hex (b'a' ∷ b'b' ∷ b'c' ∷ []) ≡ err (invalid_length 3)
unfolding from_hex
from_hex_abc = refl

from_hex-to_hex_example : from_hex (to_hex sample_id) ≡ ok sample_id
from_hex-to_hex_example = from_hex-to_hex sample_id sample_id-IsObjectId

-- 64 digits, the first and the last in upper case.
abbrev digits_62 : Bytes
digits_62 = to_hex (
    0x0a ∷ 0xaf ∷ 0x13 ∷ 0x49 ∷ 0xb9 ∷ 0xf5 ∷ 0xf9 ∷ 0x00 ∷ 0x01 ∷ 0x02 ∷ 0x03 ∷ 0x04 ∷ 0x05 ∷ 0x06
    ∷ 0x07 ∷ sixteen)

abbrev upper : Bytes
upper = b'A' ∷ b'0' ∷ digits_62

abbrev upper_id : ObjectId
upper_id =
    0xa0 ∷ 0x0a ∷ 0xaf ∷ 0x13 ∷ 0x49 ∷ 0xb9 ∷ 0xf5 ∷ 0xf9 ∷ 0x00 ∷ 0x01 ∷ 0x02 ∷ 0x03 ∷ 0x04 ∷ 0x05
    ∷ 0x06 ∷ 0x07 ∷ sixteen

from_hex-ok_example :
    IsObjectId upper_id × (length upper ≡ 64) × (to_hex upper_id ≡ map ascii_lower upper)
unfolding from_hex to_hex hex_pair hex_digit parse_chunks decode_hex_digit
from_hex-ok_example = from_hex-ok upper refl

from_hex-err_example :
    ((length (b'z' ∷ b'f' ∷ digits_62) ≢ 64)
      × (invalid_hex 0 b'z' ≡ invalid_length (length (b'z' ∷ b'f' ∷ digits_62))))
    ⊎ ((length (b'z' ∷ b'f' ∷ digits_62) ≡ 64)
        × ((j : ℕ) × (c : ℕ) × (invalid_hex 0 b'z' ≡ invalid_hex j c)
            × FirstBad (b'z' ∷ b'f' ∷ digits_62) j c))
unfolding from_hex to_hex hex_pair hex_digit parse_chunks decode_hex_digit
from_hex-err_example = from_hex-err (b'z' ∷ b'f' ∷ digits_62) refl
