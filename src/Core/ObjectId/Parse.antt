-- ===== src/Core/ObjectId/Parse.antt =====
-- What `from_str` accepts, and its round trip with `to_hex`.
use era.Base.{
  ◌==◌, Bool-cases, Option-cases, Bytes, length, get_elem?, take, All, Result, ok, err, ok_or,
  bind-eq-ok, bind-ok-err, ok_or-eq-ok, ℕ, suc, ◌+◌, ◌*◌, ◌/◌, ◌%◌, ◌≡◌, refl, sym, ap, ◌∙◌, ◌≢◌,
  ◌⊎◌, inl, inr, none, some, [], ◌∷◌, map, arith,
}
use era.Base.Endian.{IsByte}
use era.Core.ObjectId.{
  ObjectId, IsObjectId, ParseObjectIdError, invalid_length, invalid_hex, decode_hex_digit, hex_pair,
  to_hex, shard_prefix, parse_chunks, from_hex,
}
use era.Core.ObjectId.Nibbles.{
  low_nibble, join, join-add, ascii_lower, decode_hex_digit-hex_digit, decode_hex_digit_bounds,
  hex_digit-decode_hex_digit,
}

-- A hexadecimal digit, of either case.
abbrev pub IsHex : ℕ → Type 0
IsHex c = decode_hex_digit c ≢ none

pub length-to_hex : (id : ObjectId) → length (to_hex id) ≡ 2 * length id
unfolding to_hex hex_pair
length-to_hex [] = omega arith
length-to_hex (b ∷ id) = omega (arith, length-to_hex id)

parse_chunks-to_hex : (i : ℕ) (id : ObjectId) → All IsByte id → parse_chunks i (to_hex id) ≡ ok id
unfolding to_hex hex_pair parse_chunks
parse_chunks-to_hex i [] h = refl
parse_chunks-to_hex i (b ∷ id) (p, h) =
    rw
      (
        low_nibble b p,
        decode_hex_digit-hex_digit (b / 16) (omega arith),
        decode_hex_digit-hex_digit (b % 16) (omega arith),
        parse_chunks-to_hex (i + 1) id h,
      )
      (ap (λ x. ok (x ∷ id)) (join-add (b / 16) (b % 16) (omega arith) (omega arith) ∙ omega arith))

-- Parsing the canonical text of an identifier gives the identifier back.
pub from_hex-to_hex : (id : ObjectId) → IsObjectId id → from_hex (to_hex id) ≡ ok id
unfolding from_hex
from_hex-to_hex id v =
    let e : length (to_hex id) ≡ 64 = omega (arith, length-to_hex id, v.width) in
    rw e (parse_chunks-to_hex 0 id v.bytes)

record Chunks (s : Bytes) (bytes : Bytes) : Type 0 where
  width : length s ≡ 2 * length bytes
  bytes_ok : All IsByte bytes
  text : to_hex bytes ≡ map ascii_lower s

Chunks-cons :
    (h l high low : ℕ) {s bytes : Bytes}
    → decode_hex_digit h ≡ some high
    → decode_hex_digit l ≡ some low
    → Chunks s bytes
    → Chunks (h ∷ l ∷ s) (join high low ∷ bytes)
unfolding to_hex hex_pair
Chunks-cons h l high low p q c =
    let (_, ph) = decode_hex_digit_bounds h high p in
    let (_, pl) = decode_hex_digit_bounds l low q in
    let e = join-add high low ph pl in
    let d : (high * 16 + low) / 16 ≡ high = omega arith in
    let m : (high * 16 + low) % 16 ≡ low = omega arith in
    record {
      width = omega (arith, c.width);
      bytes_ok = (rw e (omega arith), c.bytes_ok);
      text = rw (
        e,
        low_nibble (high * 16 + low) (omega arith),
        d,
        m,
        hex_digit-decode_hex_digit h high p,
        hex_digit-decode_hex_digit l low q,
        c.text,
      );
    }

parse_chunks-ok :
    (i : ℕ) (s : Bytes) {bytes : Bytes}
    → length s % 2 ≡ 0
    → parse_chunks i s ≡ ok bytes
    → Chunks s bytes
unfolding parse_chunks to_hex
parse_chunks-ok i [] {bytes} n e =
    let e' : [] ≡ bytes = cc in
    rw (← e') (record { width = omega arith; bytes_ok = tt; text = refl })
parse_chunks-ok i (h ∷ []) n e = absurd (omega arith)
parse_chunks-ok i (h ∷ l ∷ s) {bytes} n e =
    let (high, p, e1) = bind-eq-ok (ok_or (decode_hex_digit h) (invalid_hex (i * 2) h)) _ e in
    let (low, q, e2) = bind-eq-ok (ok_or (decode_hex_digit l) (invalid_hex (i * 2 + 1) l)) _ e1 in
    let (rest, r, e3) = bind-eq-ok (parse_chunks (i + 1) s) _ e2 in
    let e' : join high low ∷ rest ≡ bytes = cc in
    rw (← e') (
      Chunks-cons h l high low (ok_or-eq-ok _ _ p) (ok_or-eq-ok _ _ q)
        (parse_chunks-ok (i + 1) s (omega arith) r))

-- Whatever `from_hex` accepts is 64 bytes long, and the identifier is 32 bytes whose canonical
-- text is the input in lower case.
pub from_hex-ok :
    (s : Bytes) {id : ObjectId}
    → from_hex s ≡ ok id
    → IsObjectId id × (length s ≡ 64) × (to_hex id ≡ map ascii_lower s)
unfolding from_hex
from_hex-ok s {id} e = elim (Bool-cases (length s == 64)) [
  | inl same ↦
      let n : length s ≡ 64 = ground arith in
      let c : Chunks s id = parse_chunks-ok 0 s (omega arith) (rw same at e) in
      (record { width = omega (arith, c.width); bytes = c.bytes_ok }, n, c.text)
  | inr other ↦ absurd (wrong (rw other at e))
]
  where
    wrong : {e : ParseObjectIdError} → err e ≡ ok id → ⊥
    wrong e = cc

-- Position `j` of the input holds the byte that is no digit, and all before it are digits.
pub record FirstBad (s : Bytes) (j c : ℕ) : Type 0 where
  pub at_j : get_elem? s j ≡ some c
  pub bad : decode_hex_digit c ≡ none
  pub before : All IsHex (take j s)

abbrev BadAt : ℕ → Bytes → ParseObjectIdError → Type 0
BadAt i s e = (j : ℕ) × (c : ℕ) × (e ≡ invalid_hex (i * 2 + j) c) × FirstBad s j c

FirstBad-skip :
    {s : Bytes} {j c : ℕ} (h l : ℕ)
    → IsHex h
    → IsHex l
    → FirstBad s j c
    → FirstBad (h ∷ l ∷ s) (suc (suc j)) c
FirstBad-skip h l p q b = record { at_j = b.at_j; bad = b.bad; before = (p, (q, b.before)) }

parse_chunks-err :
    (i : ℕ) (s : Bytes) {e : ParseObjectIdError} → parse_chunks i s ≡ err e → BadAt i s e
unfolding parse_chunks
parse_chunks-err i [] h = absurd (cc)
parse_chunks-err i (a ∷ []) h = absurd (cc)
parse_chunks-err i (a ∷ b ∷ s) {e} h = elim (Option-cases (decode_hex_digit a)) [
  | inl bad ↦ (
    0,
    a,
    sym (err-injective (rw bad at h)) ∙ ap (λ k. invalid_hex k a) (omega arith),
    record { at_j = refl; bad = bad; before = tt },
  )
  | inr (high, p) ↦ elim (Option-cases (decode_hex_digit b)) [
    | inl bad ↦ (
      1,
      b,
      sym (err-injective (rw (p, bad) at h)),
      record { at_j = refl; bad = bad; before = (IsHex-some a p, tt) },
    )
    | inr (low, q) ↦
        let (j, c, e1, f) = parse_chunks-err (i + 1) s (
          bind-ok-err (parse_chunks (i + 1) s) (λ bytes. join high low ∷ bytes) (rw (p, q) at h)) in
        (
          suc (suc j),
          c,
          e1 ∙ ap (λ k. invalid_hex k c) (omega arith),
          FirstBad-skip a b (IsHex-some a p) (IsHex-some b q) f,
        )
  ]
]
  where
    err-injective :
        {x y : ParseObjectIdError}
        → ◌≡◌ {A = Result ParseObjectIdError Bytes} (err x) (err y)
        → x ≡ y
    err-injective h = cc

    IsHex-some : (c : ℕ) {v : ℕ} → decode_hex_digit c ≡ some v → IsHex c
    IsHex-some c h k = cc

-- A refusal names its reason: the length, when it is not 64, and otherwise the first byte that is
-- no hexadecimal digit, with its index.
pub from_hex-err :
    (s : Bytes) {e : ParseObjectIdError}
    → from_hex s ≡ err e
    → ((length s ≢ 64) × (e ≡ invalid_length (length s)))
      ⊎ ((length s ≡ 64) × ((j : ℕ) × (c : ℕ) × (e ≡ invalid_hex j c) × FirstBad s j c))
unfolding from_hex
from_hex-err s {e} h = elim (Bool-cases (length s == 64)) [
  | inl same ↦
      let n : length s ≡ 64 = ground arith in
      let (j, c, e1, f) = parse_chunks-err 0 s (rw same at h) in
      inr (n, (j, c, e1 ∙ ap (λ k. invalid_hex k c) (omega arith), f))
  | inr other ↦ inl (ground arith, wrong (rw other at h))
]
  where
    wrong :
        ◌≡◌ {A = Result ParseObjectIdError Bytes} (err (invalid_length (length s))) (err e)
        → e ≡ invalid_length (length s)
    wrong h = cc

-- The shard directory of an identifier is the first two characters of its canonical text, and
-- two identifiers with one canonical text are equal.
pub shard_prefix-to_hex :
    (a b : ObjectId)
    → IsObjectId a
    → IsObjectId b
    → (take 2 (to_hex a) ≡ shard_prefix a) × (to_hex a ≡ to_hex b → a ≡ b)
unfolding shard_prefix to_hex hex_pair
shard_prefix-to_hex [] b v w = absurd (omega (arith, v.width))
shard_prefix-to_hex (x ∷ a) b v w = (
  refl,
  λ e. ok-injective (sym (from_hex-to_hex (x ∷ a) v) ∙ ap from_hex e ∙ from_hex-to_hex b w),
)
  where
    ok-injective : {x y : Bytes} → ◌≡◌ {A = Result ParseObjectIdError Bytes} (ok x) (ok y) → x ≡ y
    ok-injective h = cc
