-- ===== src/Server/Setup.antt =====
-- `GameServer::createInitialBoard`: the standard board. The address of a piece is its id.
use ctd_tamar.Common.{ℕ, suc, pos, List, [], ◌∷◌, ◌==◌, if◌then◌else◌}
use ctd_tamar.Core.Position.{position}
use ctd_tamar.Core.Piece.{
  PieceColor, white, black, PieceKind, king, queen, rook, bishop, knight, pawn,
}
use ctd_tamar.Core.Piece
use ctd_tamar.Core.Board.{Heap, Board, place_piece}
use ctd_tamar.Core.Board

abbrev pub back_rank : List PieceKind
back_rank = rook ∷ knight ∷ bishop ∷ queen ∷ king ∷ bishop ∷ knight ∷ rook ∷ []

abbrev pub pawns : List PieceKind
pawns = pawn ∷ pawn ∷ pawn ∷ pawn ∷ pawn ∷ pawn ∷ pawn ∷ pawn ∷ []

-- One round of a loop over the columns.
abbrev pub place_new : ℕ → ℕ → PieceColor → PieceKind → ℕ → Heap × Board → Heap × Board
place_new row col color kind id (h, b) = (
  λ q. if q == id then Piece.new id color kind else h q,
  (place_piece (position (pos row) (pos col)) id b).0,
)

-- A rank, from its first column on, with ids from a first one on.
unfoldable pub place_rank : ℕ → PieceColor → List PieceKind → ℕ → ℕ → Heap × Board → Heap × Board
unfolding place_piece Piece.new
place_rank row color [] col id s = s
place_rank row color (k ∷ ks) col id s =
    place_rank row color ks (suc col) (suc id) (place_new row col color k id s)

-- What stands at an address that was never given out.
abbrev pub empty_heap : Heap
empty_heap q = Piece.new 0 white pawn

unfoldable pub initial_board : Heap × Board
unfolding place_rank Board.new
initial_board = place_rank 7 white back_rank 0 25 (
    place_rank 6 white pawns 0 17
      (place_rank 1 black pawns 0 9 (place_rank 0 black back_rank 0 1 (empty_heap, Board.new 8 8))))
