-- ===== src/Merge/Matching/Lcs.antt =====
-- `collect_lcs_matches` of crates/merge/src/lib.rs: the longest common subsequence of two ranges of
-- lines, from a table of lengths. The flat table of the code is a list of rows.
use Prim.Native.Nat.{max}
use era.Base.{
  ltb, leb, if◌then◌else◌, length, get_or, drop, ℕ, suc, ◌+◌, ◌*◌, true, false, List, [], ◌∷◌,
}
use era.Base.ByteOrder.{bytes_eq}
use era.Merge.Lines.{Line}

abbrev pub max_lcs_cells : ℕ
max_lcs_cells = 4000000

-- The row for a line of the base, over the row below it.
unfoldable pub lcs_row : Line → List Line → List ℕ → List ℕ
lcs_row line [] below = 0 ∷ []
lcs_row line (s ∷ side) below =
    let rest = lcs_row line side (drop 1 below) in
    (if bytes_eq line s then 1 + get_or below 1 0 else max (get_or below 0 0) (get_or rest 0 0))
    ∷ rest

abbrev pub zeros : List Line → List ℕ
zeros [] = 0 ∷ []
zeros (line ∷ side) = 0 ∷ zeros side

-- `lengths`, a row for each line of the base and one behind them.
unfoldable pub lcs_table : List Line → List Line → List (List ℕ)
lcs_table [] side = zeros side ∷ []
lcs_table (line ∷ base) side =
    let rest = lcs_table base side in lcs_row line side (get_or rest 0 []) ∷ rest

abbrev pub cell : List (List ℕ) → ℕ → ℕ → ℕ
cell lengths i j = get_or (get_or lengths i []) j 0

-- The walk through the table. A turn passes a line of the base or of the side, so that their number
-- is fuel enough.
unfoldable pub lcs_walk : ℕ → List (List ℕ) → List Line → ℕ → ℕ → List Line → ℕ → ℕ → List (ℕ × ℕ)
lcs_walk (suc fuel) lengths (b ∷ base) base_start base_offset (s ∷ side) side_start side_offset =
    elim (bytes_eq b s) [
      | true ↦
          (base_start + base_offset, side_start + side_offset)
          ∷ lcs_walk fuel lengths base base_start (base_offset + 1) side side_start
              (side_offset + 1)
      | false ↦
          elim (leb (cell lengths base_offset (side_offset + 1))
            (cell lengths (base_offset + 1) side_offset)) [
              | true ↦
                  lcs_walk fuel lengths base base_start (base_offset + 1) (s ∷ side) side_start
                    side_offset
              | false ↦
                  lcs_walk fuel lengths (b ∷ base) base_start base_offset side side_start
                    (side_offset + 1)
            ]
    ]
lcs_walk _ _ _ _ _ _ _ _ = []

unfoldable pub collect_lcs_matches : List Line → ℕ → List Line → ℕ → List (ℕ × ℕ)
collect_lcs_matches base base_start side side_start =
    if ltb max_lcs_cells (length base * length side)
    then []
    else lcs_walk (length base + length side) (lcs_table base side) base base_start 0 side
        side_start 0
