-- ===== src/Merge/Edits/Apply.antt =====
-- `edit_regions` of crates/merge/src/lib.rs against `apply_edits_to_range`.
use Prim.Native.Nat.{max}
use era.Base.{
  ltb, ◌==◌, if◌then◌else◌, Bool-cases, Bytes, length, get_elem?, drop, ℕ, suc, ◌+◌, ◌≤◌, ◌≡◌, sym,
  ap, ap₂, ◌∙◌, inl, inr, false, not, ◌||◌, some, List, [], ◌∷◌, ◌++◌, append-nil, append_assoc,
  arith,
}
use era.Base.Slice.{
  slice, drop-cons, get_elem?-length, slice-drop, slice-append, slice-one, slice-empty, drop-length,
}
use era.Merge.Lines.{Line, lines_to_bytes, lines_to_bytes-append, lines_to_bytes-nil}
use era.Merge.Edits.{edit_loop, apply_edits, apply_edits_to_range, IsMatching, IsEdits}

-- The copy of the base up to an edit, whether its test finds it empty or not.
copied :
    (base : List Line) (i j : ℕ)
    → i ≤ j
    → (if ltb i j then lines_to_bytes (slice base i j) else []) ≡ lines_to_bytes (slice base i j)
copied base i j h = elim (Bool-cases (ltb i j)) [
  | inl less ↦ rw less
  | inr more ↦
      let e : i ≡ j = ground arith in
      rw more (
        sym (
          ap (λ k. lines_to_bytes (slice base i k)) (sym e)
          ∙ ap lines_to_bytes (slice-empty i base)
          ∙ lines_to_bytes-nil))
]

module _ (base side : List Line) where
  abbrev copy : ℕ → ℕ → Bytes
  copy i j = lines_to_bytes (slice base i j)

  -- The matched line comes from the base, and the side goes on behind it.
  matched :
      (b s : ℕ) {line : Line}
      → get_elem? base b ≡ some line
      → get_elem? side s ≡ some line
      → copy b (b + 1) ++ lines_to_bytes (drop (s + 1) side) ≡ lines_to_bytes (drop s side)
  matched b s {line} eb es =
      let e : s + 1 ≡ suc s = omega arith in
      ap (λ t. lines_to_bytes t ++ lines_to_bytes (drop (s + 1) side)) (slice-one b base eb)
      ∙ sym (lines_to_bytes-append (line ∷ []) (drop (s + 1) side))
      ∙ ap (λ k. lines_to_bytes (line ∷ drop k side)) e
      ∙ ap lines_to_bytes (sym (drop-cons s side es))

  -- Applied from a cursor before the first region, the regions give the base up to where the
  -- matching starts, and then the side.
  apply_edits-edit_loop :
      (matches : List (ℕ × ℕ)) (cursor i j : ℕ)
      → IsMatching base side matches i j
      → cursor ≤ i
      → apply_edits base (edit_loop base side matches i j) cursor (length base)
        ≡ copy cursor i ++ lines_to_bytes (drop j side)
  unfolding edit_loop apply_edits
  apply_edits-edit_loop [] cursor i j m h =
      elim (Bool-cases (not (i == length base) || not (j == length side))) [
        | inl touched ↦
            let past : ltb (max cursor (length base)) (length base) ≡ false = ground arith in
            rw (touched, apply_edits, past)
              (ap (λ t. t ++ (lines_to_bytes (drop j side) ++ [])) (copied base cursor i h)
                ∙ ap (λ t. copy cursor i ++ t) (append-nil (lines_to_bytes (drop j side))))
        | inr same ↦
            let ei : i ≡ length base = ground arith in
            let ej : j ≡ length side = ground arith in
            rw (same, apply_edits)
              (copied base cursor (length base) (omega (arith, ei, h))
                ∙ ap (copy cursor) (sym ei)
                ∙ sym (append-nil (copy cursor i))
                ∙ ap (λ t. copy cursor i ++ t)
                    (sym (
                      ap (λ k. lines_to_bytes (drop k side)) ej
                      ∙ ap lines_to_bytes (drop-length side)
                      ∙ lines_to_bytes-nil)))
      ]
  apply_edits-edit_loop ((b, s) ∷ matches) cursor i j (hb, hs, (line, eb, es), m) h =
      elim (Bool-cases (not (i == b) || not (j == s))) [
        | inl touched ↦
            let top : max cursor b ≡ b = omega arith in
            rw (touched, apply_edits, top)
              (ap
                  (λ t.
                    t
                    ++ (lines_to_bytes (slice side j s)
                        ++ apply_edits base (edit_loop base side matches (b + 1) (s + 1)) b
                            (length base)))
                  (copied base cursor i h)
                ∙ ap (λ t. copy cursor i ++ t)
                    (ap (λ t. lines_to_bytes (slice side j s) ++ t)
                        (apply_edits-edit_loop matches b (b + 1) (s + 1) m (omega arith)
                          ∙ matched b s eb es)
                      ∙ sym (lines_to_bytes-append (slice side j s) (drop s side))
                      ∙ ap lines_to_bytes (slice-drop j s side hs)))
        | inr same ↦
            let ei : i ≡ b = ground arith in
            let ej : j ≡ s = ground arith in
            rw same (
              apply_edits-edit_loop matches cursor (b + 1) (s + 1) m (omega arith)
              ∙ ap (λ t. lines_to_bytes t ++ lines_to_bytes (drop (s + 1) side))
                  (slice-append cursor b (b + 1) base (omega arith) (omega arith))
              ∙ ap (λ t. t ++ lines_to_bytes (drop (s + 1) side))
                  (lines_to_bytes-append (slice base cursor b) (slice base b (b + 1)))
              ∙ append_assoc (copy cursor b) (copy b (b + 1)) (lines_to_bytes (drop (s + 1) side))
              ∙ ap (λ t. copy cursor b ++ t) (matched b s eb es)
              ∙ ap₂ (λ x y. copy cursor x ++ lines_to_bytes (drop y side)) (sym ei) (sym ej))
      ]

  edit_loop-IsEdits :
      (matches : List (ℕ × ℕ)) (k i j : ℕ)
      → IsMatching base side matches i j
      → k ≤ i
      → IsEdits (length base) k (edit_loop base side matches i j)
  unfolding edit_loop
  edit_loop-IsEdits [] k i j (hi, hj) h =
      elim (Bool-cases (not (i == length base) || not (j == length side))) [
        | inl touched ↦ rw touched (h, hi, omega arith, omega arith)
        | inr same ↦ rw same (omega arith)
      ]
  edit_loop-IsEdits ((b, s) ∷ matches) k i j (hb, hs, (line, eb, es), m) h =
      elim (Bool-cases (not (i == b) || not (j == s))) [
        | inl touched ↦
            let within = get_elem?-length b base eb in
            rw touched (
              h,
              hb,
              omega (arith, within),
              edit_loop-IsEdits matches (b + 1) (b + 1) (s + 1) m (omega arith),
            )
        | inr same ↦ rw same (edit_loop-IsEdits matches k (b + 1) (s + 1) m (omega arith))
      ]

-- For every matching of equal lines in order, the edit regions between the matches are in order
-- and within the base, and applying them to the whole base gives the side.
pub apply_edits_to_range-edit_loop :
    (base side : List Line) (matches : List (ℕ × ℕ))
    → IsMatching base side matches 0 0
    → (apply_edits_to_range base (edit_loop base side matches 0 0) 0 (length base)
        ≡ lines_to_bytes side)
      × IsEdits (length base) 0 (edit_loop base side matches 0 0)
unfolding apply_edits_to_range
apply_edits_to_range-edit_loop base side matches m = (
  apply_edits-edit_loop base side matches 0 0 0 m (omega arith)
      ∙ ap (λ t. t ++ lines_to_bytes side) lines_to_bytes-nil,
  edit_loop-IsEdits base side matches 0 0 0 m (omega arith),
)
