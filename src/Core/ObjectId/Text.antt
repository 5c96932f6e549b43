-- ===== src/Core/ObjectId/Text.antt =====
-- The canonical text of an identifier is ASCII, without a line feed.
use era.Base.{Bytes, get_or, All, ℕ, zero, suc, ◌<◌, ◌≢◌, [], ◌∷◌, arith}
use era.Core.ObjectId.{ObjectId, hex_digits, hex_digit, hex_pair, to_hex}

get_or-All : (P : ℕ → Type 0) (xs : Bytes) (i : ℕ) → All P xs → P 0 → P (get_or xs i 0)
get_or-All P [] i h p = p
get_or-All P (x ∷ xs) zero (q, h) p = q
get_or-All P (x ∷ xs) (suc i) (q, h) p = get_or-All P xs i h p

-- A digit is ASCII and no line feed.
abbrev IsPlain : ℕ → Type 0
IsPlain b = (b < 128) × (b ≢ b'\n')

hex_digit-IsPlain : (v : ℕ) → IsPlain (hex_digit v)
unfolding hex_digit
hex_digit-IsPlain v = get_or-All IsPlain hex_digits v (ground arith) (ground arith)

to_hex-IsPlain : (id : ObjectId) → All IsPlain (to_hex id)
unfolding to_hex hex_pair
to_hex-IsPlain [] = tt
to_hex-IsPlain (b ∷ id) = (hex_digit-IsPlain _, (hex_digit-IsPlain _, to_hex-IsPlain id))

ascii_of : (s : Bytes) → All IsPlain s → All (λ b. b < 128) s
ascii_of [] h = tt
ascii_of (x ∷ s) ((a, b), h) = (a, ascii_of s h)

no_newline_of : (s : Bytes) → All IsPlain s → All (λ b. b ≢ b'\n') s
no_newline_of [] h = tt
no_newline_of (x ∷ s) ((a, b), h) = (b, no_newline_of s h)

pub to_hex_ascii : (id : ObjectId) → All (λ b. b < 128) (to_hex id)
to_hex_ascii id = ascii_of (to_hex id) (to_hex-IsPlain id)

pub to_hex_no_newline : (id : ObjectId) → All (λ b. b ≢ b'\n') (to_hex id)
to_hex_no_newline id = no_newline_of (to_hex id) (to_hex-IsPlain id)
