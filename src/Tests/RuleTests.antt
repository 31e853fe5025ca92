-- ===== src/Tests/RuleTests.antt =====
-- The theorems on the rules at the small board.
use ctd_tamar.Common.{◌+ℤ◌, ◌-ℤ◌, ◌≡◌, ◌≢◌, refl, ◌↔◌, ◌⊎◌, inl, true, none}
use ctd_tamar.Core.Position.{pos_eq, pos_ne→ne}
use ctd_tamar.Core.Piece.{Piece, white, black}
use ctd_tamar.Core.Piece
use ctd_tamar.Core.Board.{Ref, is_inside, is_empty, get_piece_at, set_piece_at}
use ctd_tamar.Core.Board
use ctd_tamar.Rules.Path.{path_result, is_path_clear}
use ctd_tamar.Rules.Shapes.{can_move_like_rook, can_move_like_queen, can_move_like_pawn}
use ctd_tamar.Rules.Validate.{validate_move}
use ctd_tamar.Rules.Clear.{IsLine, is_path_clear_iff}
use ctd_tamar.Rules.Lines.{IsOpen, can_move_like_queen_iff}
use ctd_tamar.Rules.Steps.{IsPlayable, validate_move_iff}
use ctd_tamar.Rules.Pawns.{PawnStep, PawnDouble, can_move_like_pawn_iff}
use ctd_tamar.Tests.Scene.{corner_cell, side_cell, king_cell, pawn_cell, some_board, some_heap}

corner≢side : corner_cell ≢ side_cell
corner≢side = pos_ne→ne corner_cell side_cell (unfold pos_eq in refl)

is_path_clear_iff_example :
    (path_result some_board corner_cell side_cell ≢ none)
    × ((is_path_clear some_board corner_cell side_cell ≡ true)
        ↔ IsOpen some_board corner_cell side_cell)
is_path_clear_iff_example =
    is_path_clear_iff some_board corner_cell side_cell (corner≢side, inl refl)

can_move_like_queen_iff_example :
    (can_move_like_queen some_board corner_cell king_cell ≡ true)
    ↔ (IsLine corner_cell king_cell × IsOpen some_board corner_cell king_cell)
can_move_like_queen_iff_example = can_move_like_queen_iff some_board corner_cell king_cell

can_move_like_pawn_iff_example :
    (can_move_like_pawn some_heap some_board pawn_cell corner_cell white ≡ true) ↔ (
      PawnStep some_heap some_board pawn_cell corner_cell white
      ⊎ PawnDouble some_heap some_board pawn_cell corner_cell white)
can_move_like_pawn_iff_example =
    can_move_like_pawn_iff some_heap some_board pawn_cell corner_cell white

rook_moves : (validate_move some_heap some_board corner_cell side_cell).is_valid ≡ true
unfolding validate_move set_piece_at Board.new Piece.new get_piece_at can_move_like_rook
    is_path_clear ◌+ℤ◌ is_empty ◌-ℤ◌
rook_moves = refl

validate_move_iff_example :
    ((validate_move some_heap some_board corner_cell side_cell).is_valid ≡ true)
    ↔ IsPlayable some_heap some_board corner_cell side_cell
validate_move_iff_example = validate_move_iff some_heap some_board corner_cell side_cell
