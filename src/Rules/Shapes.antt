-- ===== src/Rules/Shapes.antt =====
-- The shapes of moves in server/chess_server/src/Rules/PieceRules.cpp.
use ctd_tamar.Common.{
  ℤ, pos, negsuc, sub_ℕ, ◌+ℤ◌, ◌-ℤ◌, eq_ℤ, abs, Bool, false, ◌&&◌, ◌||◌, not, Option, none, some,
  if◌then◌else◌, leb, ◌==◌,
}
use ctd_tamar.Core.Position.{Position, position, pos_eq}
use ctd_tamar.Core.Piece.{PieceColor, white, black, color_eq}
use ctd_tamar.Core.Board.{Board, Heap, Ref, get_piece_at, is_empty}
use ctd_tamar.Rules.Path.{is_path_clear}

unfoldable pub can_move_like_rook : Board → Position → Position → Bool
can_move_like_rook b s d =
    if pos_eq s d
    then false
    else (if not (eq_ℤ s.row d.row) && not (eq_ℤ s.col d.col) then false else is_path_clear b s d)

unfoldable pub can_move_like_bishop : Board → Position → Position → Bool
can_move_like_bishop b s d =
    if pos_eq s d
    then false
    else (if not (abs (d.row -ℤ s.row) == abs (d.col -ℤ s.col)) then false else is_path_clear b s d)

unfoldable pub can_move_like_queen : Board → Position → Position → Bool
unfolding can_move_like_rook can_move_like_bishop
can_move_like_queen b s d = can_move_like_rook b s d || can_move_like_bishop b s d

unfoldable pub can_move_like_knight : Position → Position → Bool
can_move_like_knight s d =
    let row_diff = abs (d.row -ℤ s.row) in
    let col_diff = abs (d.col -ℤ s.col) in
    if pos_eq s d
    then false
    else (row_diff == 2 && col_diff == 1) || (row_diff == 1 && col_diff == 2)

unfoldable pub can_move_like_king : Position → Position → Bool
can_move_like_king s d =
    if pos_eq s d then false else leb (abs (d.row -ℤ s.row)) 1 && leb (abs (d.col -ℤ s.col)) 1

abbrev pub direction_of : PieceColor → ℤ
direction_of white = negsuc 0
direction_of black = pos 1

abbrev pub double_step : PieceColor → ℤ
double_step white = negsuc 1
double_step black = pos 2

-- A white pawn starts on the last row but one, `height - 2`, which is negative on a tiny board.
abbrev pub start_row : Board → PieceColor → ℤ
start_row b white = sub_ℕ b.height 2
start_row b black = pos 1

-- A capture needs a piece of the other colour.
abbrev pub is_enemy : Heap → PieceColor → Option Ref → Bool
is_enemy h color none = false
is_enemy h color (some r) = not (color_eq (h r).color color)

unfoldable pub can_move_like_pawn : Heap → Board → Position → Position → PieceColor → Bool
can_move_like_pawn h b s d color =
    let row_diff = d.row -ℤ s.row in
    let col_diff = d.col -ℤ s.col in
    if pos_eq s d
    then false
    else (if eq_ℤ row_diff (direction_of color) && eq_ℤ col_diff (pos 0)
        then is_empty b d
        else (if eq_ℤ s.row (start_row b color)
              && eq_ℤ row_diff (double_step color)
              && eq_ℤ col_diff (pos 0)
            then is_empty b (position (s.row +ℤ direction_of color) s.col) && is_empty b d
            else (if eq_ℤ row_diff (direction_of color) && abs col_diff == 1
                then is_enemy h color (get_piece_at b d)
                else false)))
