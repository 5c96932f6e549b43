-- ===== src/Merge/Edits.antt =====
-- Edit regions in crates/merge/src/lib.rs: those that a matching of the lines of two files leaves,
-- and what it gives to apply them.
pub mod Apply
use Prim.Native.Nat.{max}
use era.Base.{
  ltb, ◌==◌, if◌then◌else◌, Bytes, length, get_elem?, drop, ℕ, ◌+◌, ◌≤◌, ◌≡◌, Bool, not, ◌||◌, some,
  List, [], ◌∷◌, ◌++◌,
}
use era.Base.Slice.{slice}
use era.Merge.Lines.{Line, lines_to_bytes}

pub record EditRegion : Type 0 where
  pub start : ℕ
  pub end : ℕ
  pub replacement : List Line

abbrev pub is_insertion : EditRegion → Bool
is_insertion e = e.start == e.end

-- `edit_regions` from the matches on, with its cursors.
pub edit_loop : List Line → List Line → List (ℕ × ℕ) → ℕ → ℕ → List EditRegion
edit_loop base side [] base_cursor side_cursor =
    if not (base_cursor == length base) || not (side_cursor == length side)
    then (record { start = base_cursor; end = length base; replacement = drop side_cursor side })
      ∷ []
    else []
edit_loop base side ((base_index, side_index) ∷ matches) base_cursor side_cursor =
    let rest = edit_loop base side matches (base_index + 1) (side_index + 1) in
    if not (base_cursor == base_index) || not (side_cursor == side_index)
    then (record {
      start = base_cursor;
      end = base_index;
      replacement = slice side side_cursor side_index;
    })
      ∷ rest
    else rest

-- The loop of `apply_edits_to_range` from `cursor` on, and what it appends.
pub apply_edits : List Line → List EditRegion → ℕ → ℕ → Bytes
apply_edits base_lines [] cursor end =
    if ltb cursor end then lines_to_bytes (slice base_lines cursor end) else []
apply_edits base_lines (edit ∷ edits) cursor end =
    (if ltb cursor edit.start then lines_to_bytes (slice base_lines cursor edit.start) else [])
    ++ (lines_to_bytes edit.replacement ++ apply_edits base_lines edits (max cursor edit.end) end)

pub apply_edits_to_range : List Line → List EditRegion → ℕ → ℕ → Bytes
apply_edits_to_range base_lines edits start end = apply_edits base_lines edits start end

-- Pairs of equal lines, at increasing indices of both files from the cursors on.
abbrev pub IsMatching : List Line → List Line → List (ℕ × ℕ) → ℕ → ℕ → Type 0
IsMatching base side [] i j = (i ≤ length base) × (j ≤ length side)
IsMatching base side ((b, s) ∷ matches) i j =
    (i ≤ b)
    × (j ≤ s)
    × ((line : Line) × (get_elem? base b ≡ some line) × (get_elem? side s ≡ some line))
    × IsMatching base side matches (b + 1) (s + 1)

-- Regions of a file of `len` lines in order from `i` on, with an untouched line between two.
abbrev pub IsEdits : ℕ → ℕ → List EditRegion → Type 0
IsEdits len i [] = i ≤ len + 1
IsEdits len i (edit ∷ edits) =
    (i ≤ edit.start) × (edit.start ≤ edit.end) × (edit.end ≤ len) × IsEdits len (edit.end + 1) edits
