-- ===== src/Engine/Frame.antt =====
-- What the parts of GameEngine.cpp do to the pieces and to the motions in progress.
use ctd_tamar.Common.{ℕ, ◌≡◌, refl, Bool, false, ◌==◌, arith, Bool-cases, Option-cases, inl, inr}
use ctd_tamar.Core.Position.{Position}
use ctd_tamar.Core.Piece.{Piece, PieceColor, PieceKind, is_king}
use ctd_tamar.Core.Board.{Ref, Heap, modify}
use ctd_tamar.Core.Results.{MoveHistoryEntry, Reason, king_captured}
use ctd_tamar.Messaging.Event.{GameEvent}
use ctd_tamar.Engine.State.{GameEngine, publish, update_piece}
use ctd_tamar.Engine.Cells.{remove_piece_from_board}
use ctd_tamar.Engine.Record.{
  add_capture_score, end_game, push_history, record_move, publish_move_completed,
  promote_pawn_if_needed,
}
use ctd_tamar.Engine.Steps.{commit_piece_to_cell, publish_last, last?, history_of, end_if_king}

-- Neither the pieces nor the motions change.
abbrev pub Frame : GameEngine → GameEngine → Type 0
Frame g g' = (g'.heap ≡ g.heap) × (g'.real_time ≡ g.real_time)

-- No piece but this one changes.
abbrev pub SameBut : Ref → Heap → Heap → Type 0
SameBut r h h' = (q : Ref) → (q == r) ≡ false → h' q ≡ h q

pub publish-Frame : (e : GameEvent) (g : GameEngine) → Frame g (publish e g)
unfolding publish
publish-Frame e g = ground arith

pub add_capture_score-Frame :
    (c : PieceColor) (k : PieceKind) (g : GameEngine) → Frame g (add_capture_score c k g)
unfolding add_capture_score
add_capture_score-Frame c k g = ground arith

pub end_game-Frame : (c : PieceColor) (why : Reason) (g : GameEngine) → Frame g (end_game c why g)
unfolding end_game
end_game-Frame c why g = ground arith

pub end_if_king-Frame :
    (k : PieceKind) (c : PieceColor) (g : GameEngine) → Frame g (end_if_king k c g)
end_if_king-Frame k c g = elim (Bool-cases (is_king k)) [
  | inl e ↦ rw e (end_game-Frame c king_captured g)
  | inr e ↦ rw e (refl, refl)
]

pub push_history-Frame : (e : MoveHistoryEntry) (g : GameEngine) → Frame g (push_history e g)
unfolding push_history
push_history-Frame e g = ground arith

pub publish_move_completed-Frame :
    (e : MoveHistoryEntry) (w : Bool) (k : PieceKind) (c : PieceColor) (g : GameEngine)
    → Frame g (publish_move_completed e w k c g)
unfolding publish_move_completed
publish_move_completed-Frame e w k c g = ground arith

pub publish_last-Frame :
    (c : PieceColor) (w : Bool) (k : PieceKind) (d : PieceColor) (g : GameEngine)
    → Frame g (publish_last c w k d g)
publish_last-Frame c w k d g = elim (Option-cases (last? (history_of c g))) [
  | inl e ↦ rw (e, publish_last) (refl, refl)
  | inr (x, e) ↦ rw (e, publish_last) (publish_move_completed-Frame x w k d g)
]

pub record_move-Frame :
    (r : Ref) (k : PieceKind) (s d : Position) (w p j : Bool) (at : ℕ) (g : GameEngine)
    → Frame g (record_move r k s d w p j at g)
unfolding record_move
record_move-Frame r k s d w p j at g = push_history-Frame _ g

pub remove_piece_from_board-Frame :
    (r : Ref) (g : GameEngine) → Frame g (remove_piece_from_board r g)
unfolding remove_piece_from_board
remove_piece_from_board-Frame r g = ground arith

pub commit_piece_to_cell-Frame :
    (r : Ref) (s d : Position) (g : GameEngine) → Frame g (commit_piece_to_cell r s d g)
unfolding commit_piece_to_cell
commit_piece_to_cell-Frame r s d g = ground arith

pub modify-SameBut : (r : Ref) (f : Piece → Piece) (h : Heap) → SameBut r h (modify r f h)
unfolding modify
modify-SameBut r f h q e = rw e refl

pub update_piece-SameBut :
    (r : Ref) (f : Piece → Piece) (g : GameEngine) → SameBut r g.heap (update_piece r f g).heap
unfolding update_piece
update_piece-SameBut r f g q e = rw e refl

pub promote-SameBut :
    (r : Ref) (cell : Position) (g : GameEngine)
    → SameBut r g.heap (promote_pawn_if_needed r cell g).0.heap
      × ((promote_pawn_if_needed r cell g).0.real_time ≡ g.real_time)
unfolding promote_pawn_if_needed
promote-SameBut r cell g = (λ q e. ground arith, ground arith)
