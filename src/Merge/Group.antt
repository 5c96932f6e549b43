-- ===== src/Merge/Group.antt =====
-- `conflict_group` of crates/merge/src/lib.rs: the edits of both sides that overlap one conflict. A
-- list stands for the edits from an index on, so that the edits up to `next_ours` and those behind
-- it are two lists.
pub mod Absorbed
pub mod Closed
use Prim.Native.Nat.{max}
use era.Base.{
  ltb, ◌==◌, if◌then◌else◌, length, ℕ, zero, suc, ◌+◌, Bool, true, false, not, ◌&&◌, ◌||◌, List, [],
  ◌∷◌, ◌++◌,
}
use era.Merge.Edits.{EditRegion, is_insertion}

pub record Group : Type 0 where
  pub conflict_end : ℕ
  pub ours_taken : List EditRegion
  pub ours_rest : List EditRegion
  pub theirs_taken : List EditRegion
  pub theirs_rest : List EditRegion

pub edit_inside_conflict : EditRegion → ℕ → ℕ → Bool
edit_inside_conflict edit start end =
    if start == end
    then is_insertion edit && (edit.start == start)
    else if is_insertion edit
    then ltb start edit.start && ltb edit.start end
    else ltb edit.start end && ltb start edit.end

-- One inner `while`: the end of the conflict, the edits that it took and those that it left.
pub absorb : ℕ → ℕ → List EditRegion → ℕ × List EditRegion × List EditRegion
absorb start end [] = (end, [], [])
absorb start end (edit ∷ edits) = elim (edit_inside_conflict edit start end) [
  | true ↦ let r = absorb start (max end edit.end) edits in (r.0, edit ∷ r.1, r.2)
  | false ↦ (end, [], edit ∷ edits)
]

abbrev pub is_empty : List EditRegion → Bool
is_empty [] = true
is_empty (edit ∷ edits) = false

-- One round of `while changed`.
pub group_round : ℕ → Group → Group
group_round start g =
    let ours = absorb start g.conflict_end g.ours_rest in
    let theirs = absorb start ours.0 g.theirs_rest in
    record {
      conflict_end = theirs.0;
      ours_taken = g.ours_taken ++ ours.1;
      ours_rest = ours.2;
      theirs_taken = g.theirs_taken ++ theirs.1;
      theirs_rest = theirs.2;
    }

-- Whether the round takes an edit.
pub changed : ℕ → Group → Bool
changed start g =
    let ours = absorb start g.conflict_end g.ours_rest in
    let theirs = absorb start ours.0 g.theirs_rest in
    not (is_empty ours.1) || not (is_empty theirs.1)

-- `while changed`, on fuel: each round but the last takes an edit.
pub group_loop : ℕ → ℕ → Group → Group
group_loop zero start g = g
group_loop (suc fuel) start g =
    let next = group_round start g in
    elim (changed start g) [ true ↦ group_loop fuel start next | false ↦ next ]

pub conflict_group : List EditRegion → List EditRegion → ℕ → ℕ → Group
conflict_group ours theirs conflict_start initial_end =
    group_loop (suc (length ours + length theirs)) conflict_start (record {
      conflict_end = initial_end;
      ours_taken = [];
      ours_rest = ours;
      theirs_taken = [];
      theirs_rest = theirs;
    })
