-- ===== src/Core/Board/Laws.antt =====
-- What a read of a board sees after each operation of shared/cpp/src/Core/Board.cpp.
use ctd_tamar.Common.{◌≡◌, ◌&&◌, some, none, if◌then◌else◌, arith}
use ctd_tamar.Core.Position.{Position, pos_eq, pos_eq→eq}
use ctd_tamar.Core.Board.{
  Board, Ref, is_inside, get_piece_at, is_empty, place_piece, remove_piece, set_piece_at,
  move_piece,
}

-- A write on one cell is seen there and nowhere else.
pub get_piece_at-set_piece_at :
    (b : Board) (p q : Position) (r : Ref)
    → get_piece_at (set_piece_at p r b) q
      ≡ (if is_inside b p && pos_eq q p then some r else get_piece_at b q)
unfolding get_piece_at set_piece_at
get_piece_at-set_piece_at b p q r = ground (arith, pos_eq→eq q p)

-- A removal empties one cell and no other.
pub get_piece_at-remove_piece :
    (b : Board) (p q : Position)
    → get_piece_at (remove_piece p b) q ≡ (if pos_eq q p then none else get_piece_at b q)
unfolding get_piece_at remove_piece
get_piece_at-remove_piece b p q = ground (arith, pos_eq→eq q p)

-- Placing succeeds exactly on an inside, empty cell; it then writes that cell alone, and otherwise
-- changes nothing.
pub place_piece_lem :
    (b : Board) (p q : Position) (r : Ref)
    → ((place_piece p r b).1 ≡ (is_inside b p && is_empty b p))
      × (get_piece_at (place_piece p r b).0 q
          ≡ (if (place_piece p r b).1 && pos_eq q p then some r else get_piece_at b q))
unfolding get_piece_at place_piece
place_piece_lem b p q r = ground (arith, pos_eq→eq q p)

-- Moving puts what the source cell held on the destination and empties the source, in this order,
-- so a move of a cell to itself clears it; a move with an end outside changes nothing.
pub get_piece_at-move_piece :
    (b : Board) (s d q : Position)
    → get_piece_at (move_piece s d b) q ≡ (
        if is_inside b s && is_inside b d
        then (if pos_eq q s
            then none
            else (if pos_eq q d then get_piece_at b s else get_piece_at b q))
        else get_piece_at b q)
unfolding get_piece_at move_piece
get_piece_at-move_piece b s d q = ground (arith, pos_eq→eq q s, pos_eq→eq q d)
