-- ===== src/Merge/Lines.antt =====
-- `split_lines` and the functions of crates/merge/src/lib.rs that put lines together again.
use era.Base.{
  ◌==◌, ==_iff, Bool-cases, Bytes, ℕ, ◌≡◌, refl, sym, ap, ◌∙◌, ◌≢◌, ◌⊎◌, inl, inr, Bool, true,
  false, not, ◌&&◌, List, [], ◌∷◌, ◌++◌, append_assoc, arith,
}

abbrev pub Line : Type 0
Line = Bytes

-- `append_lines` onto an empty output.
pub lines_to_bytes : List Line → Bytes
lines_to_bytes [] = []
lines_to_bytes (line ∷ lines) = line ++ lines_to_bytes lines

-- The loop of `split_lines`: `line` is `bytes[start..index]`.
pub split_loop : Bytes → Bytes → List Line
split_loop [] [] = []
split_loop (x ∷ line) [] = (x ∷ line) ∷ []
split_loop line (byte ∷ bytes) = elim (byte == b'\n') [
  | true ↦ (line ++ (byte ∷ [])) ∷ split_loop [] bytes
  | false ↦ split_loop (line ++ (byte ∷ [])) bytes
]

pub split_lines : Bytes → List Line
split_lines bytes = split_loop [] bytes

pub no_newline : Bytes → Bool
no_newline [] = true
no_newline (x ∷ xs) = not (x == b'\n') && no_newline xs

-- A line that a line feed ends, and that holds no other.
pub record IsFullLine (line : Line) : Type 0 where
  pub body : Bytes
  pub text : line ≡ body ++ (b'\n' ∷ [])
  pub single : no_newline body ≡ true

-- The lines of a file: each is full, but for the last, which may lack its line feed and is not
-- empty then.
pub IsLines : List Line → Type 0
IsLines [] = Unit
IsLines (line ∷ []) = IsFullLine line ⊎ ((no_newline line ≡ true) × (line ≢ []))
IsLines (line ∷ next ∷ lines) = IsFullLine line × IsLines (next ∷ lines)

append-cons : (xs : Bytes) (y : ℕ) (ys : Bytes) → (xs ++ (y ∷ [])) ++ ys ≡ xs ++ (y ∷ ys)
append-cons xs y ys = append_assoc xs (y ∷ []) ys

lines_to_bytes-split_loop :
    (line bytes : Bytes) → lines_to_bytes (split_loop line bytes) ≡ line ++ bytes
unfolding lines_to_bytes split_loop
lines_to_bytes-split_loop [] [] = refl
lines_to_bytes-split_loop (x ∷ line) [] = refl
lines_to_bytes-split_loop line (byte ∷ bytes) = elim (Bool-cases (byte == b'\n')) [
  | inl end ↦
      rw (end, lines_to_bytes)
        (ap (λ t. (line ++ (byte ∷ [])) ++ t) (lines_to_bytes-split_loop [] bytes)
          ∙ append-cons line byte bytes)
  | inr more ↦
      rw (more, lines_to_bytes)
        (lines_to_bytes-split_loop (line ++ (byte ∷ [])) bytes ∙ append-cons line byte bytes)
]

no_newline-snoc :
    (line : Bytes) (byte : ℕ)
    → no_newline line ≡ true
    → (byte == b'\n') ≡ false
    → no_newline (line ++ (byte ∷ [])) ≡ true
unfolding no_newline
no_newline-snoc [] byte h e = rw e
no_newline-snoc (x ∷ line) byte h e = ground (arith, no_newline-snoc line byte)

IsLines-cons :
    (line : Line) (lines : List Line) → IsFullLine line → IsLines lines → IsLines (line ∷ lines)
unfolding IsLines
IsLines-cons line [] f h = inl f
IsLines-cons line (next ∷ lines) f h = (f, h)

split_loop-IsLines : (line bytes : Bytes) → no_newline line ≡ true → IsLines (split_loop line bytes)
unfolding split_loop IsLines
split_loop-IsLines [] [] h = tt
split_loop-IsLines (x ∷ line) [] h = inr (h, λ e. cc)
split_loop-IsLines line (byte ∷ bytes) h = elim (Bool-cases (byte == b'\n')) [
  | inl end ↦
      let nl : byte ≡ b'\n' = (==_iff byte b'\n').0 end in
      let full : IsFullLine (line ++ (byte ∷ [])) = record {
        body = line;
        text = ap (λ (t : ℕ). line ++ (t ∷ [])) nl;
        single = h;
      } in
      rw (end, IsLines)
        (IsLines-cons (line ++ (byte ∷ [])) (split_loop [] bytes) full
          (split_loop-IsLines [] bytes (unfold no_newline in refl)))
  | inr more ↦
      rw (more, IsLines)
        (split_loop-IsLines (line ++ (byte ∷ [])) bytes (no_newline-snoc line byte h more))
]

pub lines_to_bytes-append :
    (xs ys : List Line) → lines_to_bytes (xs ++ ys) ≡ lines_to_bytes xs ++ lines_to_bytes ys
unfolding lines_to_bytes
lines_to_bytes-append [] ys = refl
lines_to_bytes-append (x ∷ xs) ys =
    ap (λ t. x ++ t) (lines_to_bytes-append xs ys)
    ∙ sym (append_assoc x (lines_to_bytes xs) (lines_to_bytes ys))

pub lines_to_bytes-nil : lines_to_bytes [] ≡ []
unfolding lines_to_bytes
lines_to_bytes-nil = refl

-- No byte is lost or added by splitting a file into lines, and what comes out are its lines: all
-- but the last end with a line feed, and no line holds another one.
pub lines_to_bytes-split_lines :
    (bytes : Bytes) → (lines_to_bytes (split_lines bytes) ≡ bytes) × IsLines (split_lines bytes)
unfolding split_lines no_newline
lines_to_bytes-split_lines bytes =
    (lines_to_bytes-split_loop [] bytes, split_loop-IsLines [] bytes refl)
