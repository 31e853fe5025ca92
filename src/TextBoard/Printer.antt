-- ===== src/TextBoard/Printer.antt =====
-- BoardPrinter.cpp.
use ctd_tamar.Common.{ℕ, zero, suc, pos, none, some, List, [], ◌∷◌, ◌++◌, ltb, if◌then◌else◌}
use ctd_tamar.Core.Position.{position}
use ctd_tamar.Core.Piece.{token}
use ctd_tamar.Core.Board.{Heap, Board, get_piece_at}
use ctd_tamar.TextBoard.Tokens.{empty_cell}

-- The text of a cell.
unfoldable pub cell_text : Heap × Board → ℕ → ℕ → List ℕ
cell_text (h, b) row col = elim (get_piece_at b (position (pos row) (pos col))) [
  | none ↦ empty_cell
  | some r ↦ token (h r)
]

-- The columns from one on, so many of them.
unfoldable pub print_cells : Heap × Board → ℕ → ℕ → ℕ → List ℕ
print_cells s row col zero = []
print_cells s row col (suc n) =
    (if ltb 0 col then b' ' ∷ [] else []) ++ (cell_text s row col ++ print_cells s row (suc col) n)

-- The rows from one on, so many of them.
unfoldable pub print_rows : Heap × Board → ℕ → ℕ → List ℕ
print_rows s row zero = []
print_rows s row (suc n) = print_cells s row 0 s.1.width ++ (10 ∷ print_rows s (suc row) n)

unfoldable pub print : Heap × Board → List ℕ
unfolding print_cells print_rows
print s = print_rows s 0 s.1.height
