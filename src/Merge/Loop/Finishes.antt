-- ===== src/Merge/Loop/Finishes.antt =====
-- The loop of `merge_present_lines` in crates/merge/src/lib.rs, and its bounds.
use era.Merge.Group.Absorbed.{Inside, IsEdits-weaken}
use era.Merge.Group.Closed.{conflict_group_lem}
use Prim.Native.Nat.{min, max}
use era.Base.{
  leb, ◌==◌, ◌-◌, ◌∙◌, All, false, append_assoc, Bool-cases, Bytes, length, length-append, ℕ, zero,
  suc, ◌+◌, ◌≤◌, ◌<◌, ◌≡◌, refl, sym, ap, subst, inl, inr, ◌&&◌, Option, List, [], ◌∷◌, ◌++◌, arith,
}
use era.Merge.Lines.{Line}
use era.Merge.Edits.{EditRegion, is_insertion, IsEdits}
use era.Merge.Loop.{MergeState, Output, state, step_both, merge_step, merge_loop, merge_edits}

-- The edits left are in order, in the file, and not before `base_pos`.
pub record InBounds (len : ℕ) (s : MergeState) : Type 0 where
  pub pos_ok : s.base_pos ≤ len
  pub ours_ok : IsEdits len s.base_pos s.ours_edits
  pub theirs_ok : IsEdits len s.base_pos s.theirs_edits

abbrev pub left : MergeState → ℕ
left s = length s.ours_edits + length s.theirs_edits

-- Of the edits, those in front of the rest are taken, and none of them ends behind `pos`.
pub record Took (edits rest : List EditRegion) (pos : ℕ) : Type 0 where
  pub taken : List EditRegion
  pub split : edits ≡ taken ++ rest
  pub behind : All (λ (e : EditRegion). e.end ≤ pos) taken

-- What turns of the loop come to from edits of both sides, with `base_pos` at `pos`.
pub record Progress (len pos : ℕ) (ours theirs : List EditRegion) (next : MergeState) : Type 0 where
  pub bounds : InBounds len next
  pub forward : pos ≤ next.base_pos
  pub ours_took : Took ours next.ours_edits next.base_pos
  pub theirs_took : Took theirs next.theirs_edits next.base_pos

-- A turn leaves fewer edits too.
record Turn (len pos : ℕ) (ours theirs : List EditRegion) (next : MergeState) : Type 0 where
  progress : Progress len pos ours theirs next
  fewer : left next < length ours + length theirs

Took-none : (edits : List EditRegion) (pos : ℕ) → Took edits edits pos
Took-none edits pos = record { taken = []; split = refl; behind = tt }

Took-one : (e : EditRegion) (es : List EditRegion) (pos : ℕ) → e.end ≤ pos → Took (e ∷ es) es pos
Took-one e es pos h = record { taken = e ∷ []; split = refl; behind = (h, tt) }

All-weaken :
    (p q : ℕ) (edits : List EditRegion)
    → p ≤ q
    → All (λ (e : EditRegion). e.end ≤ p) edits
    → All (λ (e : EditRegion). e.end ≤ q) edits
All-weaken p q [] h a = tt
All-weaken p q (e ∷ es) h (b, a) = (omega (arith, b, h), All-weaken p q es h a)

Inside-All :
    (start end : ℕ) (edits : List EditRegion)
    → Inside start end edits
    → All (λ (e : EditRegion). e.end ≤ end) edits
Inside-All start end [] i = tt
Inside-All start end (e ∷ es) ((a, b), i) = (b, Inside-All start end es i)

Took-trans :
    {edits mid rest : List EditRegion} {p q : ℕ}
    → Took edits mid p
    → Took mid rest q
    → p ≤ q
    → Took edits rest q
Took-trans {edits} {mid} {rest} {p} {q} a b h = record {
  taken = a.taken ++ b.taken;
  split =
      a.split
      ∙ ap (λ (t : List EditRegion). a.taken ++ t) b.split
      ∙ sym (append_assoc a.taken b.taken rest);
  behind = joined a.taken (All-weaken p q a.taken h a.behind);
}
  where
    joined :
        (es : List EditRegion)
        → All (λ (e : EditRegion). e.end ≤ q) es
        → All (λ (e : EditRegion). e.end ≤ q) (es ++ b.taken)
    joined [] x = b.behind
    joined (e ∷ es) (y, x) = (y, joined es x)

turn :
    (len from : ℕ) (all_ours all_theirs : List EditRegion) (output : Output) (pos : ℕ)
    (ours theirs : List EditRegion)
    → pos ≤ len
    → from ≤ pos
    → IsEdits len pos ours
    → IsEdits len pos theirs
    → Took all_ours ours pos
    → Took all_theirs theirs pos
    → length ours + length theirs < length all_ours + length all_theirs
    → Turn len from all_ours all_theirs (state output pos ours theirs)
turn len from all_ours all_theirs output pos ours theirs h f o t a b k = record {
  progress = record {
    bounds = record { pos_ok = h; ours_ok = o; theirs_ok = t };
    forward = f;
    ours_took = a;
    theirs_took = b;
  };
  fewer = k;
}

-- Edits that start before those that are left have lost their first.
shorter :
    (len k : ℕ) (e : EditRegion) (es taken rest : List EditRegion)
    → e ∷ es ≡ taken ++ rest
    → IsEdits len k rest
    → e.start < k
    → length rest < suc (length es)
shorter len k e es [] rest eq o h =
    absurd (let o1 = subst (IsEdits len k) (sym eq) o in omega (arith, o1.0, h))
shorter len k e es (x ∷ taken) rest eq o h = omega (arith, ap length eq, length-append taken rest)

module _ (path : Option Bytes) (base_lines : List Line) (len : ℕ) where
  step_both-Turn :
      (s : MergeState) (o t : EditRegion) (os ts : List EditRegion)
      → IsEdits len s.base_pos (o ∷ os)
      → IsEdits len s.base_pos (t ∷ ts)
      → Turn len s.base_pos (o ∷ os) (t ∷ ts) (step_both path base_lines s o os t ts)
  unfolding step_both
  step_both-Turn s o t os ts (o1, o2, o3, o4) (t1, t2, t3, t4) =
      elim (Bool-cases (is_insertion o && is_insertion t && (o.start == t.start))) [
        | inl together ↦
            let same : (o.end ≡ o.start) × (t.end ≡ o.start) = ground arith in
            rw (together, step_both)
              (turn len _ _ _ _ o.start os ts (omega (arith, o2, o3)) o1
                (IsEdits-weaken len os (omega (arith, o2)) o4)
                (IsEdits-weaken len ts (omega (arith, same.1)) t4)
                (Took-one o os o.start (omega (arith, same.0)))
                (Took-one t ts o.start (omega (arith, same.1))) (omega arith))
        | inr apart ↦ elim (Bool-cases (leb o.end t.start)) [
          | inl ours_first ↦
              let before : o.end ≤ t.start = ground arith in
              rw (apart, ours_first, step_both)
                (turn len _ _ _ _ o.end os (t ∷ ts) o3 (omega (arith, o1, o2))
                  (IsEdits-weaken len os (omega arith) o4) (before, t2, t3, t4)
                  (Took-one o os o.end (omega arith)) (Took-none (t ∷ ts) o.end) (omega arith))
          | inr ours_later ↦ elim (Bool-cases (leb t.end o.start)) [
            | inl theirs_first ↦
                let before : t.end ≤ o.start = ground arith in
                rw (apart, ours_later, theirs_first, step_both)
                  (turn len _ _ _ _ t.end (o ∷ os) ts t3 (omega (arith, t1, t2))
                    (before, o2, o3, o4) (IsEdits-weaken len ts (omega arith) t4)
                    (Took-none (o ∷ os) t.end) (Took-one t ts t.end (omega arith)) (omega arith))
            | inr theirs_later ↦
                let h1 : t.start < o.end = ground arith in
                let h2 : o.start < t.end = ground arith in
                let (e1, e2, i1, i2, e3, e4, e5, e6) =
                  conflict_group_lem len (min o.start t.start) (max o.end t.end) (o ∷ os) (t ∷ ts)
                    (omega (arith, h1)) (omega (arith, o3, t3)) (omega arith, o2, o3, o4)
                    (omega (arith, h1)) (omega arith, t2, t3, t4) (omega (arith, h2)) in
                rw (apart, ours_later, theirs_later, step_both)
                  (turn len _ _ _ _ _ _ _ e4 (omega (arith, o1, h2, e3)) e5 e6
                    (record { taken = _; split = e1; behind = Inside-All _ _ _ i1 })
                    (record { taken = _; split = e2; behind = Inside-All _ _ _ i2 })
                    (omega (
                      arith,
                      shorter len _ o os _ _ e1 e5 (omega (arith, e3, h2)),
                      shorter len _ t ts _ _ e2 e6 (omega (arith, e3, h1)),
                    )))
          ]
        ]
      ]

  merge_step-Turn :
      (s : MergeState) (ours theirs : List EditRegion)
      → s.base_pos ≤ len
      → IsEdits len s.base_pos ours
      → IsEdits len s.base_pos theirs
      → (0 < length ours + length theirs)
      → Turn len s.base_pos ours theirs (merge_step path base_lines ours theirs s)
  unfolding merge_step
  merge_step-Turn s [] [] h o t k = absurd (omega arith)
  merge_step-Turn s (e ∷ es) [] h (o1, o2, o3, o4) t k =
      turn len _ _ _ _ e.end es [] o3 (omega (arith, o1, o2))
        (IsEdits-weaken len es (omega arith) o4) (omega arith) (Took-one e es e.end (omega arith))
        (Took-none [] e.end) (omega arith)
  merge_step-Turn s [] (e ∷ es) h o (t1, t2, t3, t4) k =
      turn len _ _ _ _ e.end [] es t3 (omega (arith, t1, t2)) (omega arith)
        (IsEdits-weaken len es (omega arith) t4) (Took-none [] e.end)
        (Took-one e es e.end (omega arith)) (omega arith)
  merge_step-Turn s (e ∷ es) (f ∷ fs) h o t k = step_both-Turn s e f es fs o t

  -- A turn, or the state as it is when no edit is left.
  merge_step-Progress :
      (s : MergeState) (ours theirs : List EditRegion)
      → ours ≡ s.ours_edits
      → theirs ≡ s.theirs_edits
      → InBounds len s
      → Progress len s.base_pos ours theirs (merge_step path base_lines ours theirs s)
        × (left (merge_step path base_lines ours theirs s) ≤ left s - 1)
  unfolding merge_step
  merge_step-Progress s [] [] e f v = (
    record {
      bounds = v;
      forward = omega arith;
      ours_took =
          subst (λ (es : List EditRegion). Took [] es s.base_pos) e (Took-none [] s.base_pos);
      theirs_took =
          subst (λ (es : List EditRegion). Took [] es s.base_pos) f (Took-none [] s.base_pos);
    },
    omega (arith, ap length e, ap length f),
  )
  merge_step-Progress s (x ∷ ours) [] e f v =
      let o = subst (IsEdits len s.base_pos) (sym e) v.ours_ok in
      let r = merge_step-Turn s (x ∷ ours) [] v.pos_ok o (omega (arith, v.pos_ok)) (omega arith) in
      (r.progress, omega (arith, r.fewer, ap length e, ap length f))
  merge_step-Progress s [] (y ∷ theirs) e f v =
      let t = subst (IsEdits len s.base_pos) (sym f) v.theirs_ok in
      let r =
        merge_step-Turn s [] (y ∷ theirs) v.pos_ok (omega (arith, v.pos_ok)) t (omega arith) in
      (r.progress, omega (arith, r.fewer, ap length e, ap length f))
  merge_step-Progress s (x ∷ ours) (y ∷ theirs) e f v =
      let o = subst (IsEdits len s.base_pos) (sym e) v.ours_ok in
      let t = subst (IsEdits len s.base_pos) (sym f) v.theirs_ok in
      let r = merge_step-Turn s (x ∷ ours) (y ∷ theirs) v.pos_ok o t (omega arith) in
      (r.progress, omega (arith, r.fewer, ap length e, ap length f))

  merge_loop-Progress :
      (fuel : ℕ) (s : MergeState)
      → InBounds len s
      → Progress len s.base_pos s.ours_edits s.theirs_edits (merge_loop fuel path base_lines s)
        × (left (merge_loop fuel path base_lines s) ≤ left s - fuel)
  unfolding merge_loop
  merge_loop-Progress zero s v = (
    record {
      bounds = v;
      forward = omega arith;
      ours_took = Took-none s.ours_edits s.base_pos;
      theirs_took = Took-none s.theirs_edits s.base_pos;
    },
    omega arith,
  )
  merge_loop-Progress (suc fuel) s v =
      let next = merge_step path base_lines s.ours_edits s.theirs_edits s in
      let (p, few) = merge_step-Progress s s.ours_edits s.theirs_edits refl refl v in
      let (q, fewer) = merge_loop-Progress fuel next p.bounds in
      (
        record {
          bounds = q.bounds;
          forward = omega (arith, p.forward, q.forward);
          ours_took = Took-trans p.ours_took q.ours_took q.forward;
          theirs_took = Took-trans p.theirs_took q.theirs_took q.forward;
        },
        omega (arith, few, fewer),
      )

-- The state that the loop starts from.
abbrev pub at_start : List EditRegion → List EditRegion → MergeState
at_start ours theirs = record {
  hunks = [];
  base_pos = 0;
  ours_edits = ours;
  theirs_edits = theirs;
  conflicted = false;
}

none_left : (es : List EditRegion) → length es ≤ 0 → es ≡ []
none_left [] h = refl
none_left (e ∷ es) h = absurd (omega arith)

-- The loop of `merge_present_lines`, when the edits of both sides are in order and within the base.
-- After any number of turns, on each side the edits that are left are the last of those that it was
-- given, each that is taken ends at `base_pos` or before it, and each that is left starts there or
-- behind it, in order; `base_pos` lies in the base. At the end, for which a turn for each edit is
-- enough, no edit is left.
pub merge_edits_lem :
    (path : Option Bytes) (base_lines : List Line) (ours theirs : List EditRegion) (turns : ℕ)
    → IsEdits (length base_lines) 0 ours
    → IsEdits (length base_lines) 0 theirs
    → Progress
        (length base_lines)
        0
        ours
        theirs
        (merge_loop turns path base_lines (at_start ours theirs))
      × (let last = merge_edits path base_lines ours theirs in
          (last.ours_edits ≡ []) × (last.theirs_edits ≡ []))
unfolding merge_edits
merge_edits_lem path base_lines ours theirs turns o t =
    let start_ok : InBounds (length base_lines) (at_start ours theirs) = record {
      pos_ok = omega arith;
      ours_ok = o;
      theirs_ok = t;
    } in
    let all = length ours + length theirs in
    let last = merge_loop all path base_lines (at_start ours theirs) in
    let run = merge_loop-Progress path base_lines (length base_lines) in
    let (_, few) = run all (at_start ours theirs) start_ok in
    (
      (run turns (at_start ours theirs) start_ok).0,
      (
        none_left last.ours_edits (omega (arith, few)),
        none_left last.theirs_edits (omega (arith, few)),
      ),
    )
