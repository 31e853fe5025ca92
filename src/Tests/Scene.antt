-- ===== src/Tests/Scene.antt =====
-- A board of three by three cells: a white rook (0) at (0, 0), a black king (1) at (2, 2) and a
-- white pawn (2) at (2, 0).
use ctd_tamar.Common.{pos, true, ◌==◌, if◌then◌else◌}
use ctd_tamar.Core.Position.{Position, position}
use ctd_tamar.Core.Piece.{Piece, white, black, rook, king, pawn}
use ctd_tamar.Core.Piece
use ctd_tamar.Core.Board.{Heap, Board, Ref, set_piece_at}
use ctd_tamar.Core.Board
use ctd_tamar.Engine.State.{GameEngine, PieceConfigReader, PieceStateConfig}
use ctd_tamar.Engine.State

abbrev pub corner_cell : Position
corner_cell = position (pos 0) (pos 0)

abbrev pub side_cell : Position
side_cell = position (pos 0) (pos 2)

abbrev pub king_cell : Position
king_cell = position (pos 2) (pos 2)

abbrev pub pawn_cell : Position
pawn_cell = position (pos 2) (pos 0)

abbrev pub some_heap : Heap
some_heap r =
    if r == 0
    then Piece.new 10 white rook
    else (if r == 1 then Piece.new 11 black king else Piece.new 12 white pawn)

abbrev pub some_board : Board
some_board =
    set_piece_at corner_cell 0 (set_piece_at king_cell 1 (set_piece_at pawn_cell 2 (Board.new 3 3)))

-- Every piece takes a second for a cell, and jumps and rests for half of one.
abbrev pub some_config : PieceConfigReader
some_config token state = record {
  move_time_per_cell_ms = pos 1000;
  jump_duration_ms = pos 500;
  short_cooldown_ms = pos 500;
}

abbrev pub some_engine : GameEngine
some_engine = State.new some_heap some_board true
