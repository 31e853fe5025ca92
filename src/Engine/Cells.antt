-- ===== src/Engine/Cells.antt =====
-- The scans of GameEngine.cpp: attacked squares, the cell of a piece, and the piece at a cell.
use ctd_tamar.Common.{
  ℕ, zero, suc, pos, ◌-ℤ◌, eq_ℤ, abs, Bool, false, ◌&&◌, ◌||◌, not, Option, none, some, List, [],
  ◌∷◌, ◌++◌, ◌==◌, if◌then◌else◌, is_some, find?,
}
use ctd_tamar.Core.Position.{Position, position, no_position, pos_eq, pos_ne}
use ctd_tamar.Core.Piece.{
  PieceColor, PieceKind, king, queen, rook, bishop, knight, pawn, color_eq, is_captured, is_moving,
}
use ctd_tamar.Core.Board.{Board, Heap, Ref, get_piece_at, is_inside, remove_piece}
use ctd_tamar.Rules.Shapes.{
  can_move_like_rook, can_move_like_bishop, can_move_like_queen, can_move_like_knight,
  can_move_like_king, direction_of,
}
use ctd_tamar.Realtime.Arbiter.{Motion}
use ctd_tamar.Engine.State.{GameEngine, update_board}

-- The cells of a row from a column on.
unfoldable pub row_cells : ℕ → ℕ → ℕ → List Position
row_cells row col zero = []
row_cells row col (suc n) = position (pos row) (pos col) ∷ row_cells row (suc col) n

unfoldable pub cells_from : ℕ → ℕ → ℕ → List Position
unfolding row_cells
cells_from row zero width = []
cells_from row (suc n) width = row_cells row 0 width ++ cells_from (suc row) n width

-- The cells of a board in the order of the two nested loops.
abbrev pub all_cells : Board → List Position
all_cells b = cells_from 0 b.height b.width

-- Whether a piece of a kind on `source` attacks `cell`, whatever stands there.
unfoldable pub attacks : PieceKind → Board → PieceColor → Position → Position → Bool
attacks pawn b color source cell =
    eq_ℤ (cell.row -ℤ source.row) (direction_of color) && abs (cell.col -ℤ source.col) == 1
attacks king b color source cell = can_move_like_king source cell
attacks knight b color source cell = can_move_like_knight source cell
attacks rook b color source cell = can_move_like_rook b source cell
attacks bishop b color source cell = can_move_like_bishop b source cell
attacks queen b color source cell = can_move_like_queen b source cell

unfoldable pub is_attacked_from : Heap → Board → Position → PieceColor → Position → Bool
unfolding attacks
is_attacked_from h b cell color source = elim (get_piece_at b source) [
  | none ↦ false
  | some r ↦
      if not (color_eq (h r).color color) || is_captured (h r).state
      then false
      else attacks (h r).kind b color source cell
]

unfoldable pub is_square_attacked : GameEngine → Position → PieceColor → Bool
unfolding is_attacked_from cells_from find?
is_square_attacked g cell color =
    is_some (find? (is_attacked_from g.heap g.board cell color) (all_cells g.board))

-- Whether a cell's content is this piece.
abbrev pub holds : Option Ref → Ref → Bool
holds none r = false
holds (some q) r = q == r

abbrev or_nowhere : Option Position → Position
or_nowhere none = no_position
or_nowhere (some p) = p

unfoldable pub get_logical_cell_of_piece : GameEngine → Ref → Position
unfolding cells_from find?
get_logical_cell_of_piece g r =
    or_nowhere (find? (λ p. holds (get_piece_at g.board p) r) (all_cells g.board))

unfoldable pub remove_piece_from_board : Ref → GameEngine → GameEngine
unfolding get_logical_cell_of_piece
remove_piece_from_board r g =
    let cell = get_logical_cell_of_piece g r in
    if is_inside g.board cell then update_board (remove_piece cell) g else g

-- A piece in motion through the cell, other than the one given.
abbrev pub passes : Heap → Position → Ref → Motion → Bool
passes h cell except m =
    not (m.piece == except) && is_moving (h m.piece).state && pos_eq m.current_cell cell

-- The piece that the board shows on the cell, unless it has moved on from there.
abbrev pub standing : Heap → List Motion → Position → Ref → Option Ref → Option Ref
standing h ms cell except none = none
standing h ms cell except (some r) =
    if r == except
    then none
    else (if is_moving (h r).state
          && is_some (find? (λ m. m.piece == r && pos_ne m.current_cell cell) ms)
        then none
        else some r)

unfoldable pub find_piece_at_real_or_virtual_cell : GameEngine → Position → Ref → Option Ref
unfolding find?
find_piece_at_real_or_virtual_cell g cell except =
    elim (find? (passes g.heap cell except) g.real_time.active_motions) [
      | none ↦ standing g.heap g.real_time.active_motions cell except (get_piece_at g.board cell)
      | some m ↦ some m.piece
    ]
