-- ===== src/Merge/Matching.antt =====
-- `matching_pairs` of crates/merge/src/lib.rs: the patience matching of two files. A range of lines
-- is the list of its lines and the index of the first. A HashMap is a list of its entries, in the
-- order of their first lines; the code sorts what it reads from the map.
pub mod Lcs
pub mod LcsPairs
mod Tests
use Prim.Native.Nat.{min, max}
use era.Base.{
  ltb, leb, ◌==◌, if◌then◌else◌, length, get_or, take, drop, ℕ, zero, suc, ◌+◌, ◌-◌, Bool, true,
  false, not, ◌&&◌, ◌||◌, Option, none, some, List, [], ◌∷◌, ◌++◌, reverse,
}
use era.Base.ByteOrder.{bytes_eq}
use era.Merge.Lines.{Line}
use Lcs.{collect_lcs_matches}

abbrev pub Pairs : Type 0
Pairs = List (ℕ × ℕ)

abbrev no_lines : List Line → Bool
no_lines [] = true
no_lines (line ∷ lines) = false

-- How many lines two ranges start with in common.
common_lines : List Line → List Line → ℕ
common_lines (x ∷ base) (y ∷ side) =
    let rest = common_lines base side in if bytes_eq x y then suc rest else 0
common_lines _ _ = 0

-- The pairs of indices that `count` equal lines on end give.
run_of_pairs : ℕ → ℕ → ℕ → Pairs
run_of_pairs base side zero = []
run_of_pairs base side (suc count) = (base, side) ∷ run_of_pairs (base + 1) (side + 1) count

pub record Occurrence : Type 0 where
  pub line : Line
  pub count : ℕ
  pub index : ℕ

-- The `entry` call.
note_line : Line → ℕ → List Occurrence → List Occurrence
note_line line index [] = record { line = line; count = 1; index = index } ∷ []
note_line line index (o ∷ occurrences) =
    let rest = note_line line index occurrences in
    if bytes_eq o.line line then (record o { count = o.count + 1 }) ∷ occurrences else o ∷ rest

occurrences_onto : List Occurrence → List Line → ℕ → List Occurrence
occurrences_onto occurrences [] index = occurrences
occurrences_onto occurrences (line ∷ lines) index =
    occurrences_onto (note_line line index occurrences) lines (index + 1)

line_occurrences : List Line → ℕ → List Occurrence
line_occurrences lines offset = occurrences_onto [] lines offset

find_line : Line → List Occurrence → Option Occurrence
find_line line [] = none
find_line line (o ∷ occurrences) =
    let rest = find_line line occurrences in if bytes_eq o.line line then some o else rest

-- The loop of `unique_lis_anchors` over the lines of the base.
unique_anchors : List Occurrence → List Occurrence → Pairs
unique_anchors [] side = []
unique_anchors (o ∷ base) side =
    let rest = unique_anchors base side in
    if not (o.count == 1) then rest else elim (find_line o.line side) [
      | none ↦ rest
      | some s ↦ if s.count == 1 then (o.index, s.index) ∷ rest else rest
    ]

pair_leb : ℕ × ℕ → ℕ × ℕ → Bool
pair_leb p q = ltb p.0 q.0 || ((p.0 == q.0) && leb p.1 q.1)

insert_pair : ℕ × ℕ → Pairs → Pairs
insert_pair p [] = p ∷ []
insert_pair p (q ∷ pairs) =
    let rest = insert_pair p pairs in if pair_leb p q then p ∷ q ∷ pairs else q ∷ rest

pub sort_pairs : Pairs → Pairs
sort_pairs [] = []
sort_pairs (p ∷ pairs) = insert_pair p (sort_pairs pairs)

-- The index of the first tail for which the test fails.
partition_point : Pairs → ℕ → List ℕ → ℕ
partition_point anchors side_index [] = 0
partition_point anchors side_index (tail ∷ tails) =
    let rest = partition_point anchors side_index tails in
    if ltb (get_or anchors tail (0, 0)).1 side_index then suc rest else 0

set_tail : ℕ → ℕ → List ℕ → List ℕ
set_tail position index [] = []
set_tail zero index (tail ∷ tails) = index ∷ tails
set_tail (suc position) index (tail ∷ tails) = tail ∷ set_tail position index tails

-- The loop that fills `tails` and `previous`; an entry of `previous` that is not set yet is left
-- out.
lis_loop : Pairs → ℕ → Pairs → List ℕ → List (Option ℕ) → List ℕ × List (Option ℕ)
lis_loop anchors index [] tails previous = (tails, previous)
lis_loop anchors index ((base_index, side_index) ∷ rest) tails previous =
    let position = partition_point anchors side_index tails in
    let link = if ltb 0 position then some (get_or tails (position - 1) 0) else none in
    let next =
      if position == length tails
      then tails ++ (index ∷ [])
      else if ltb side_index (get_or anchors (get_or tails position 0) (0, 0)).1
      then set_tail position index tails
      else tails in
    lis_loop anchors (index + 1) rest next (previous ++ (link ∷ []))

last_tail : List ℕ → Option ℕ
last_tail [] = none
last_tail (tail ∷ []) = some tail
last_tail (tail ∷ next ∷ tails) = last_tail (next ∷ tails)

-- The links from the last tail back. A link leads to an earlier anchor, so that their number is
-- fuel enough; the accumulator reverses the output.
follow : ℕ → Pairs → List (Option ℕ) → Option ℕ → Pairs → Pairs
follow zero anchors previous current output = output
follow (suc fuel) anchors previous none output = output
follow (suc fuel) anchors previous (some index) output =
    follow fuel anchors previous (get_or previous index none) (get_or anchors index (0, 0) ∷ output)

longest_increasing_by_side : Pairs → Pairs
longest_increasing_by_side anchors =
    let r = lis_loop anchors 0 anchors [] [] in
    follow (length anchors) anchors r.1 (last_tail r.0) []

unique_lis_anchors : List Line → ℕ → List Line → ℕ → Pairs
unique_lis_anchors base base_start side side_start = longest_increasing_by_side (
    sort_pairs
      (unique_anchors (line_occurrences base base_start) (line_occurrences side side_start)))

-- The loop over the anchors: `collect` on the ranges between them, and behind the last.
anchor_loop :
    (List Line → ℕ → List Line → ℕ → Pairs) → Pairs → List Line → ℕ → List Line → ℕ → Pairs
anchor_loop collect [] base current_base side current_side =
    collect base current_base side current_side
anchor_loop collect ((anchor_base, anchor_side) ∷ anchors) base current_base side current_side =
    let i = anchor_base - current_base in
    let j = anchor_side - current_side in
    collect (take i base) current_base (take j side) current_side
    ++ ((anchor_base, anchor_side)
        ∷ anchor_loop collect anchors (drop (suc i) base) (anchor_base + 1) (drop (suc j) side)
            (anchor_side + 1))

-- The part of `collect_patience_matches` between the common prefix and the common suffix.
middle_matches : (List Line → ℕ → List Line → ℕ → Pairs) → List Line → ℕ → List Line → ℕ → Pairs
middle_matches collect base base_start side side_start =
    if no_lines base || no_lines side
    then []
    else elim (unique_lis_anchors base base_start side side_start) [
      | [] ↦ collect_lcs_matches base base_start side side_start
      | anchor ∷ anchors ↦ anchor_loop collect (anchor ∷ anchors) base base_start side side_start
    ]

-- On fuel: each recursive call has a shorter range of the base.
pub collect_patience_matches : ℕ → List Line → ℕ → List Line → ℕ → Pairs
collect_patience_matches zero base base_start side side_start = []
collect_patience_matches (suc fuel) base base_start side side_start =
    let prefix = common_lines base side in
    let base1 = drop prefix base in
    let side1 = drop prefix side in
    let suffix = common_lines (reverse base1) (reverse side1) in
    let base2 = take (length base1 - suffix) base1 in
    let side2 = take (length side1 - suffix) side1 in
    let left_base = base_start + prefix in
    let left_side = side_start + prefix in
    run_of_pairs base_start side_start prefix
    ++ (middle_matches (collect_patience_matches fuel) base2 left_base side2 left_side
        ++ run_of_pairs (left_base + length base2) (left_side + length side2) suffix)

pub matching_pairs : List Line → List Line → Pairs
matching_pairs base side = sort_pairs (collect_patience_matches (suc (length base)) base 0 side 0)
