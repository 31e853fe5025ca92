-- ===== src/Rules/Validate.antt =====
-- server/chess_server/src/Rules/RuleEngine.cpp: the checks on a move, in order, with the reason.
use ctd_tamar.Common.{Bool, true, false, ◌||◌, not, Option, none, some, if◌then◌else◌}
use ctd_tamar.Core.Position.{Position}
use ctd_tamar.Core.Piece.{PieceKind, king, queen, rook, bishop, knight, pawn, PieceColor, color_eq}
use ctd_tamar.Core.Board.{Board, Heap, Ref, is_inside, get_piece_at}
use ctd_tamar.Core.Results.{
  MoveValidation, Reason, ok, outside_board, empty_source, friendly_destination, illegal_piece_move,
}
use ctd_tamar.Rules.Shapes.{
  can_move_like_rook, can_move_like_bishop, can_move_like_queen, can_move_like_knight,
  can_move_like_king, can_move_like_pawn,
}

abbrev pub legal_for : PieceKind → Heap → Board → Position → Position → PieceColor → Bool
legal_for rook h b s d c = can_move_like_rook b s d
legal_for bishop h b s d c = can_move_like_bishop b s d
legal_for queen h b s d c = can_move_like_queen b s d
legal_for knight h b s d c = can_move_like_knight s d
legal_for king h b s d c = can_move_like_king s d
legal_for pawn h b s d c = can_move_like_pawn h b s d c

unfoldable pub is_legal_by_piece_kind : Heap → Board → Position → Position → Bool
is_legal_by_piece_kind h b s d = elim (get_piece_at b s) [
  | none ↦ false
  | some r ↦ legal_for (h r).kind h b s d (h r).color
]

-- Whether the destination holds a piece of the mover's colour.
abbrev pub is_friendly : Heap → PieceColor → Option Ref → Bool
is_friendly h color none = false
is_friendly h color (some r) = color_eq (h r).color color

abbrev valid : Reason → MoveValidation
valid r = record { is_valid = true; reason = r }

abbrev invalid : Reason → MoveValidation
invalid r = record { is_valid = false; reason = r }

unfoldable pub validate_move : Heap → Board → Position → Position → MoveValidation
unfolding is_legal_by_piece_kind
validate_move h b s d =
    if not (is_inside b s) || not (is_inside b d)
    then invalid outside_board
    else elim (get_piece_at b s) [
      | none ↦ invalid empty_source
      | some r ↦
          if is_friendly h (h r).color (get_piece_at b d)
          then invalid friendly_destination
          else (if not (is_legal_by_piece_kind h b s d)
              then invalid illegal_piece_move
              else valid ok)
    ]
