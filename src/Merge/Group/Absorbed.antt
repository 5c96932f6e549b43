-- ===== src/Merge/Group/Absorbed.antt =====
-- One scan of `conflict_group` in crates/merge/src/lib.rs over the edits of a side.
use Prim.Native.Nat.{max}
use era.Base.{
  if◌then◌else◌, Bool-cases, length, All, ℕ, ◌+◌, ◌≤◌, ◌<◌, ◌≡◌, refl, ap, inl, inr, true, List, [],
  ◌∷◌, ◌++◌, arith,
}
use era.Merge.Edits.{EditRegion, IsEdits}
use era.Merge.Group.{edit_inside_conflict, absorb, is_empty}

-- The first of the edits, and so each of them, ends behind `start`.
abbrev pub EndsAfter : ℕ → List EditRegion → Type 0
EndsAfter start [] = Unit
EndsAfter start (edit ∷ edits) = start < edit.end

-- The first of the edits, and so each of them, starts at `end` or behind it.
abbrev pub StartsFrom : ℕ → List EditRegion → Type 0
StartsFrom end [] = Unit
StartsFrom end (edit ∷ edits) = end ≤ edit.start

-- Each of the edits lies between `start` and `end`.
abbrev pub Inside : ℕ → ℕ → List EditRegion → Type 0
Inside start end edits = All (λ (e : EditRegion). (start ≤ e.start) × (e.end ≤ end)) edits

pub Inside-grow :
    (start end k : ℕ) (edits : List EditRegion)
    → end ≤ k
    → Inside start end edits
    → Inside start k edits
Inside-grow start end k [] h i = tt
Inside-grow start end k (edit ∷ edits) h ((a, b), i) =
    ((a, omega (arith, b, h)), Inside-grow start end k edits h i)

module _ (len : ℕ) where
  pub IsEdits-weaken :
      {i k : ℕ} (edits : List EditRegion) → k ≤ i → IsEdits len i edits → IsEdits len k edits
  IsEdits-weaken [] h e = omega arith
  IsEdits-weaken (edit ∷ edits) h (a, b, c, d) = (omega arith, b, c, d)

  pub IsEdits-from :
      (i k : ℕ) (edits : List EditRegion)
      → IsEdits len i edits
      → StartsFrom k edits
      → k ≤ len
      → IsEdits len k edits
  IsEdits-from i k [] e s h = omega arith
  IsEdits-from i k (edit ∷ edits) (a, b, c, d) s h = (s, b, c, d)

  -- What a scan of edits from `start` on gives, with the conflict ending at `end`.
  pub record Absorbed (start end : ℕ) (edits : List EditRegion)
      (r : ℕ × List EditRegion × List EditRegion) : Type 0 where
    pub split : edits ≡ r.1 ++ r.2
    pub grows : end ≤ r.0
    pub taken : Inside start r.0 r.1
    pub within : r.0 ≤ len
    pub ordered : IsEdits len start r.2
    pub after : EndsAfter start r.2
    pub clear : StartsFrom r.0 r.2
    pub still : is_empty r.1 ≡ true → r.0 ≡ end
    pub smaller : length r.2 + (if is_empty r.1 then 0 else 1) ≤ length edits

  pub absorb-Absorbed :
      (start end : ℕ) (edits : List EditRegion)
      → start < end
      → end ≤ len
      → IsEdits len start edits
      → EndsAfter start edits
      → Absorbed start end edits (absorb start end edits)
  unfolding absorb edit_inside_conflict
  absorb-Absorbed start end [] h k o a = record {
    split = refl;
    grows = omega arith;
    taken = tt;
    within = k;
    ordered = o;
    after = tt;
    clear = tt;
    still = λ _. refl;
    smaller = omega arith;
  }
  absorb-Absorbed start end (edit ∷ edits) h k (o1, o2, o3, o4) a =
      elim (Bool-cases (edit_inside_conflict edit start end)) [
        | inl inside ↦
            let low : edit.start < end = ground arith in
            let r =
              absorb-Absorbed start (max end edit.end) edits (omega (arith, h))
                (omega (arith, k, o3)) (IsEdits-weaken edits (omega (arith, o1, o2)) o4)
                (next edits o4) in
            rw (inside, absorb)
              (record {
                split = ap (◌∷◌ edit) r.split;
                grows = omega (arith, r.grows);
                taken = ((o1, omega (arith, r.grows)), r.taken);
                within = r.within;
                ordered = r.ordered;
                after = r.after;
                clear = r.clear;
                still = λ e. absurd (cc);
                smaller = ground (arith, r.smaller);
              })
        | inr outside ↦
            let high : end ≤ edit.start = ground arith in
            rw (outside, absorb)
              (record {
                split = refl;
                grows = omega arith;
                taken = tt;
                within = k;
                ordered = (o1, o2, o3, o4);
                after = a;
                clear = high;
                still = λ _. refl;
                smaller = omega arith;
              })
      ]
    where
      next : (es : List EditRegion) → IsEdits len (edit.end + 1) es → EndsAfter start es
      next [] o = tt
      next (e ∷ es) (a, b, c, d) = omega (arith, a, b, o1, o2)
