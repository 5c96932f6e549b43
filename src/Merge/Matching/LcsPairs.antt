-- ===== src/Merge/Matching/LcsPairs.antt =====
-- The pairs that `collect_lcs_matches` of crates/merge/src/lib.rs adds.
use era.Base.{
  ltb, leb, Bool-cases, length, get_elem?, ℕ, zero, suc, ◌+◌, ◌*◌, ◌≤◌, ◌≡◌, refl, sym, ap, ◌∙◌,
  subst, inl, inr, some, List, [], ◌∷◌, arith,
}
use era.Base.ByteOrder.{bytes_eq, bytes_eq_iff}
use era.Merge.Lines.{Line}
use era.Merge.Edits.{IsMatching}
use era.Merge.Matching.Lcs.{max_lcs_cells, lcs_table, cell, lcs_walk, collect_lcs_matches}

-- The lines of `file` from index `start` on begin with `lines`.
pub record IsRange (file : List Line) (start : ℕ) (lines : List Line) : Type 0 where
  pub within : start + length lines ≤ length file
  pub each :
      (k : ℕ) (line : Line) → get_elem? lines k ≡ some line → get_elem? file (start + k) ≡ some line

IsRange-tail :
    (file : List Line) (start next : ℕ) (line : Line) (lines : List Line)
    → next ≡ start + 1
    → IsRange file start (line ∷ lines)
    → IsRange file next lines
IsRange-tail file start next line lines e r = record {
  within = omega (arith, r.within, e);
  each = λ k l h.
      let f : start + suc k ≡ next + k = omega (arith, e) in
      subst (λ (n : ℕ). get_elem? file n ≡ some l) f (r.each (suc k) l h);
}

IsRange-head :
    (file : List Line) (start : ℕ) (line : Line) (lines : List Line)
    → IsRange file start (line ∷ lines)
    → get_elem? file start ≡ some line
IsRange-head file start line lines r =
    let f : start + 0 ≡ start = omega arith in
    subst (λ (n : ℕ). get_elem? file n ≡ some line) f (r.each 0 line refl)

module _ (base_file side_file : List Line) where
  IsMatching-weaken :
      (matches : List (ℕ × ℕ)) (i j k l : ℕ)
      → k ≤ i
      → l ≤ j
      → IsMatching base_file side_file matches i j
      → IsMatching base_file side_file matches k l
  IsMatching-weaken [] i j k l h1 h2 (a, b) = (omega arith, omega arith)
  IsMatching-weaken ((b, s) ∷ matches) i j k l h1 h2 (hb, hs, e, m) =
      (omega arith, omega arith, e, m)

  ends :
      (base side : List Line) (p q : ℕ)
      → IsRange base_file p base
      → IsRange side_file q side
      → IsMatching base_file side_file [] p q
  ends base side p q r t = (omega (arith, r.within), omega (arith, t.within))

  lcs_walk-IsMatching :
      (fuel : ℕ) (lengths : List (List ℕ)) (base : List Line) (bs i : ℕ) (side : List Line)
      (ss j : ℕ)
      → IsRange base_file (bs + i) base
      → IsRange side_file (ss + j) side
      → IsMatching base_file side_file (lcs_walk fuel lengths base bs i side ss j) (bs + i) (ss + j)
  unfolding lcs_walk
  lcs_walk-IsMatching zero lengths base bs i side ss j r t = ends base side _ _ r t
  lcs_walk-IsMatching (suc fuel) lengths [] bs i side ss j r t = ends [] side _ _ r t
  lcs_walk-IsMatching (suc fuel) lengths (b ∷ base) bs i [] ss j r t = ends (b ∷ base) [] _ _ r t
  lcs_walk-IsMatching (suc fuel) lengths (b ∷ base) bs i (s ∷ side) ss j r t =
      let ei : bs + (i + 1) ≡ bs + i + 1 = omega arith in
      let ej : ss + (j + 1) ≡ ss + j + 1 = omega arith in
      let r' = IsRange-tail base_file (bs + i) (bs + (i + 1)) b base ei r in
      let t' = IsRange-tail side_file (ss + j) (ss + (j + 1)) s side ej t in
      elim (Bool-cases (bytes_eq b s)) [
        | inl same ↦
            let eq : s ≡ b = sym ((bytes_eq_iff b s).0 same) in
            let here = IsRange-head side_file (ss + j) s side t ∙ ap some eq in
            let rest = lcs_walk-IsMatching fuel lengths base bs (i + 1) side ss (j + 1) r' t' in
            rw (same, IsMatching)
              (
                omega arith,
                omega arith,
                (b, IsRange-head base_file (bs + i) b base r, here),
                IsMatching-weaken _ _ _ _ _ (omega arith) (omega arith) rest,
              )
        | inr other ↦ elim (Bool-cases (leb (cell lengths i (j + 1)) (cell lengths (i + 1) j))) [
          | inl down ↦
              rw (other, down, IsMatching)
                (IsMatching-weaken _ _ _ _ _ (omega arith) (omega arith)
                  (lcs_walk-IsMatching fuel lengths base bs (i + 1) (s ∷ side) ss j r' t))
          | inr right ↦
              rw (other, right, IsMatching)
                (IsMatching-weaken _ _ _ _ _ (omega arith) (omega arith)
                  (lcs_walk-IsMatching fuel lengths (b ∷ base) bs i side ss (j + 1) r t'))
        ]
      ]

-- For a range of each file, the pairs that `collect_lcs_matches` adds are of equal lines, at
-- increasing indices of both files that start with the ranges: a matching that `edit_regions` may
-- work on.
pub collect_lcs_matches-IsMatching :
    (base_file side_file base side : List Line) (base_start side_start : ℕ)
    → IsRange base_file base_start base
    → IsRange side_file side_start side
    → IsMatching base_file side_file
        (collect_lcs_matches base base_start side side_start)
        base_start
        side_start
unfolding collect_lcs_matches
collect_lcs_matches-IsMatching base_file side_file base side bs ss r t =
    elim (Bool-cases (ltb max_lcs_cells (length base * length side))) [
      | inl large ↦ rw large (ends base_file side_file base side bs ss r t)
      | inr small ↦
          let eb : bs + 0 ≡ bs = omega arith in
          let es : ss + 0 ≡ ss = omega arith in
          rw small (
            IsMatching-weaken base_file side_file _ _ _ _ _ (omega arith) (omega arith) (
              lcs_walk-IsMatching base_file side_file (length base + length side)
                (lcs_table base side) base bs 0 side ss 0
                (subst (λ (n : ℕ). IsRange base_file n base) (sym eb) r)
                (subst (λ (n : ℕ). IsRange side_file n side) (sym es) t)))
    ]
