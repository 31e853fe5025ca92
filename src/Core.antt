-- ===== src/Core.antt =====
-- shared/cpp/include/Core and shared/cpp/src/Core: positions, pieces, the heap of pieces, boards.
pub mod Position
pub mod Piece
pub mod Board
pub mod Results
