-- ===== src/Merge/Group/Closed.antt =====
-- What `conflict_group` of crates/merge/src/lib.rs takes and what it leaves.
use era.Base.{
  if◌then◌else◌, Bool-cases, length, All-append, ℕ, zero, suc, ◌+◌, ◌≤◌, ◌<◌, ◌≡◌, refl, sym, ap,
  ◌∙◌, subst, inl, inr, Bool, true, false, not, ◌||◌, List, [], ◌++◌, append_assoc, arith,
}
use era.Merge.Edits.{EditRegion, IsEdits}
use era.Merge.Group.{Group, absorb, is_empty, group_round, changed, not, group_loop, conflict_group}
use era.Merge.Group.Absorbed.{
  EndsAfter, StartsFrom, Inside, Inside-grow, IsEdits-from, absorb-Absorbed,
}

module _ (len : ℕ) where
  -- What holds of a group at every round: no edit is lost, and those left are in order and end
  -- behind the start of the conflict.
  pub record IsGroup (start : ℕ) (ours theirs : List EditRegion) (g : Group) : Type 0 where
    pub ours_split : ours ≡ g.ours_taken ++ g.ours_rest
    pub theirs_split : theirs ≡ g.theirs_taken ++ g.theirs_rest
    pub ours_inside : Inside start g.conflict_end g.ours_taken
    pub theirs_inside : Inside start g.conflict_end g.theirs_taken
    pub low : start < g.conflict_end
    pub within : g.conflict_end ≤ len
    pub ours_ordered : IsEdits len start g.ours_rest
    pub theirs_ordered : IsEdits len start g.theirs_rest
    pub ours_after : EndsAfter start g.ours_rest
    pub theirs_after : EndsAfter start g.theirs_rest

  module _ (start : ℕ) (ours theirs : List EditRegion) where
    -- What a round gives.
    record Round (g next : Group) (more : Bool) : Type 0 where
      group : IsGroup start ours theirs next
      grows : g.conflict_end ≤ next.conflict_end
      smaller :
          length next.ours_rest + length next.theirs_rest + (if more then 1 else 0)
          ≤ length g.ours_rest + length g.theirs_rest
      closed :
          more ≡ false
          → StartsFrom next.conflict_end next.ours_rest
            × StartsFrom next.conflict_end next.theirs_rest

    group_round-Round :
        (g : Group) → IsGroup start ours theirs g → Round g (group_round start g) (changed start g)
    unfolding group_round changed
    group_round-Round g v =
        let a =
          absorb-Absorbed len start g.conflict_end g.ours_rest v.low v.within v.ours_ordered
            v.ours_after in
        let o = absorb start g.conflict_end g.ours_rest in
        let b =
          absorb-Absorbed len start o.0 g.theirs_rest (omega (arith, v.low, a.grows)) a.within
            v.theirs_ordered v.theirs_after in
        let t = absorb start o.0 g.theirs_rest in
        record {
          group = record {
            ours_split =
                v.ours_split
                ∙ ap (λ es. g.ours_taken ++ es) a.split
                ∙ sym (append_assoc g.ours_taken o.1 o.2);
            theirs_split =
                v.theirs_split
                ∙ ap (λ es. g.theirs_taken ++ es) b.split
                ∙ sym (append_assoc g.theirs_taken t.1 t.2);
            ours_inside =
                All-append (λ (e : EditRegion). (start ≤ e.start) × (e.end ≤ t.0)) g.ours_taken o.1
                  (Inside-grow start g.conflict_end t.0 g.ours_taken
                    (omega (arith, a.grows, b.grows)) v.ours_inside)
                  (Inside-grow start o.0 t.0 o.1 b.grows a.taken);
            theirs_inside =
                All-append (λ (e : EditRegion). (start ≤ e.start) × (e.end ≤ t.0)) g.theirs_taken
                  t.1
                  (Inside-grow start g.conflict_end t.0 g.theirs_taken
                    (omega (arith, a.grows, b.grows)) v.theirs_inside)
                  b.taken;
            low = omega (arith, v.low, a.grows, b.grows);
            within = b.within;
            ours_ordered = a.ordered;
            theirs_ordered = b.ordered;
            ours_after = a.after;
            theirs_after = b.after;
          };
          grows = omega (arith, a.grows, b.grows);
          smaller = count (is_empty o.1) (is_empty t.1) _ _ _ _ a.smaller b.smaller;
          closed = λ e.
              let still : t.0 ≡ o.0 = b.still (second (is_empty o.1) (is_empty t.1) e) in
              (subst (λ (k : ℕ). StartsFrom k o.2) (sym still) a.clear, b.clear);
        }
      where
        second : (x y : Bool) → (not x || not y) ≡ false → y ≡ true
        second x y e = ground arith

        count :
            (x y : Bool) (m n p q : ℕ)
            → m + (if x then 0 else 1) ≤ p
            → n + (if y then 0 else 1) ≤ q
            → m + n + (if not x || not y then 1 else 0) ≤ p + q
        count x y m n p q h k = ground arith

    -- What the loop gives, from a group that no edit is missing from.
    pub record Closed (g last : Group) : Type 0 where
      pub group : IsGroup start ours theirs last
      pub grows : g.conflict_end ≤ last.conflict_end
      pub ours_clear : StartsFrom last.conflict_end last.ours_rest
      pub theirs_clear : StartsFrom last.conflict_end last.theirs_rest

    group_loop-Closed :
        (fuel : ℕ) (g : Group)
        → IsGroup start ours theirs g
        → length g.ours_rest + length g.theirs_rest < fuel
        → Closed g (group_loop fuel start g)
    unfolding group_loop
    group_loop-Closed zero g v h = absurd (omega arith)
    group_loop-Closed (suc fuel) g v h =
        let r = group_round-Round g v in
        elim (Bool-cases (changed start g)) [
          | inl more ↦
              let few = rw more at r.smaller in
              let c =
                group_loop-Closed fuel (group_round start g) r.group (omega (arith, few, h)) in
              rw (more, group_loop)
                (record {
                  group = c.group;
                  grows = omega (arith, c.grows, r.grows);
                  ours_clear = c.ours_clear;
                  theirs_clear = c.theirs_clear;
                })
          | inr done ↦
              let (x, y) = r.closed done in
              rw (done, group_loop)
                (record { group = r.group; grows = r.grows; ours_clear = x; theirs_clear = y })
        ]

-- The group that `conflict_group` returns, for edits in order that end behind the start of the
-- conflict: it loses no edit of either side, every edit that it takes lies between the start and the
-- end of the conflict, that end lies in the file and not before the end that it was called with,
-- and every edit that it leaves starts there or behind it. The fuel is enough for that.
pub conflict_group_lem :
    (len start end : ℕ) (ours theirs : List EditRegion)
    → start < end
    → end ≤ len
    → IsEdits len start ours
    → EndsAfter start ours
    → IsEdits len start theirs
    → EndsAfter start theirs
    → (let g = conflict_group ours theirs start end in
        (ours ≡ g.ours_taken ++ g.ours_rest)
        × (theirs ≡ g.theirs_taken ++ g.theirs_rest)
        × Inside start g.conflict_end g.ours_taken
        × Inside start g.conflict_end g.theirs_taken
        × (end ≤ g.conflict_end)
        × (g.conflict_end ≤ len)
        × IsEdits len g.conflict_end g.ours_rest
        × IsEdits len g.conflict_end g.theirs_rest)
unfolding conflict_group
conflict_group_lem len start end ours theirs h k o oa t ta =
    let first : Group = record {
      conflict_end = end;
      ours_taken = [];
      ours_rest = ours;
      theirs_taken = [];
      theirs_rest = theirs;
    } in
    let v : IsGroup len start ours theirs first = record {
      ours_split = refl;
      theirs_split = refl;
      ours_inside = tt;
      theirs_inside = tt;
      low = h;
      within = k;
      ours_ordered = o;
      theirs_ordered = t;
      ours_after = oa;
      theirs_after = ta;
    } in
    let c =
      group_loop-Closed len start ours theirs (suc (length ours + length theirs)) first v
        (omega arith) in
    let g = c.group in
    (
      g.ours_split,
      g.theirs_split,
      g.ours_inside,
      g.theirs_inside,
      c.grows,
      g.within,
      IsEdits-from len start _ _ g.ours_ordered c.ours_clear g.within,
      IsEdits-from len start _ _ g.theirs_ordered c.theirs_clear g.within,
    )
