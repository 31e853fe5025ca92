-- ===== src/Engine/Standing.antt =====
-- What leaves the scores and the end of the game alone in GameEngine.cpp.
use ctd_tamar.Common.{ℕ, ◌+◌, ◌≡◌, refl, ◌∙◌, Bool, false, ◌||◌, Bool-cases, Option-cases, inl, inr}
use ctd_tamar.Core.Position.{Position}
use ctd_tamar.Core.Piece.{PieceColor, white, black, PieceKind, is_white, is_king, Piece}
use ctd_tamar.Core.Board.{Ref, is_inside}
use ctd_tamar.Core.Results.{MoveHistoryEntry}
use ctd_tamar.Messaging.Event.{GameEvent}
use ctd_tamar.Engine.State.{GameEngine, publish, update_piece}
use ctd_tamar.Engine.Cells.{remove_piece_from_board, get_logical_cell_of_piece}
use ctd_tamar.Engine.Record.{
  get_piece_value, push_history, record_move, publish_move_completed, promote_pawn_if_needed,
  promotes,
}
use ctd_tamar.Engine.Steps.{
  commit_piece_to_cell, publish_last, last?, history_of, settle_piece, stop_moving_piece_at,
}

-- What the game stands at: both scores, and whether it is over.
pub record Standing : Type 0 where
  pub white_points : ℕ
  pub black_points : ℕ
  pub is_over : Bool

abbrev pub standing_of : GameEngine → Standing
standing_of g = record {
  white_points = g.white_score;
  black_points = g.black_score;
  is_over = g.game_over;
}

-- The standing after a capture: the winner gets the value of the piece, and a king ends the game.
abbrev pub after_capture : PieceColor → PieceKind → Standing → Standing
after_capture white k s = record s {
  white_points = s.white_points + get_piece_value k;
  is_over = s.is_over || is_king k;
}
after_capture black k s = record s {
  black_points = s.black_points + get_piece_value k;
  is_over = s.is_over || is_king k;
}

pub standing_of-publish :
    (e : GameEvent) (g : GameEngine) → standing_of (publish e g) ≡ standing_of g
unfolding publish
standing_of-publish e g = elim (Bool-cases g.has_bus) [ inl b ↦ simp b refl | inr b ↦ simp b refl ]

standing_of-push_history :
    (e : MoveHistoryEntry) (g : GameEngine) → standing_of (push_history e g) ≡ standing_of g
unfolding push_history
standing_of-push_history e g = elim (Bool-cases (is_white e.color)) [
  | inl b ↦ rw b refl
  | inr b ↦ rw b refl
]

standing_of-publish_last :
    (c : PieceColor) (b : Bool) (k : PieceKind) (d : PieceColor) (g : GameEngine)
    → standing_of (publish_last c b k d g) ≡ standing_of g
unfolding publish_move_completed
standing_of-publish_last c b k d g = elim (Option-cases (last? (history_of c g))) [
  | inl n ↦ rw (n, publish_last) refl
  | inr (e, m) ↦ rw (m, publish_last) (standing_of-publish _ g)
]

standing_of-commit_piece_to_cell :
    (r : Ref) (s d : Position) (g : GameEngine)
    → standing_of (commit_piece_to_cell r s d g) ≡ standing_of g
unfolding commit_piece_to_cell
standing_of-commit_piece_to_cell r s d g = elim (Bool-cases (is_inside g.board d)) [
  | inl i ↦ rw i refl
  | inr o ↦ rw o refl
]

pub standing_of-remove_piece_from_board :
    (r : Ref) (g : GameEngine) → standing_of (remove_piece_from_board r g) ≡ standing_of g
unfolding remove_piece_from_board
standing_of-remove_piece_from_board r g =
    elim (Bool-cases (is_inside g.board (get_logical_cell_of_piece g r))) [
      | inl i ↦ rw i refl
      | inr o ↦ rw o refl
    ]

standing_of-promote_pawn_if_needed :
    (r : Ref) (cell : Position) (g : GameEngine)
    → standing_of (promote_pawn_if_needed r cell g).0 ≡ standing_of g
unfolding promote_pawn_if_needed
standing_of-promote_pawn_if_needed r cell g =
    elim (Bool-cases (promotes g (g.heap r).kind (g.heap r).color cell)) [
      | inl i ↦ rw i refl
      | inr o ↦ rw o refl
    ]

pub standing_of-update_piece :
    (r : Ref) (f : Piece → Piece) (g : GameEngine)
    → standing_of (update_piece r f g) ≡ standing_of g
unfolding update_piece
standing_of-update_piece r f g = refl

standing_of-record_move :
    (r : Ref) (k : PieceKind) (s d : Position) (a b c : Bool) (at : ℕ) (g : GameEngine)
    → standing_of (record_move r k s d a b c at g) ≡ standing_of g
unfolding record_move
standing_of-record_move r k s d a b c at g = standing_of-push_history _ g

standing_of-settle_piece :
    (r : Ref) (s d : Position) (at : ℕ) (g : GameEngine)
    → standing_of (settle_piece r s d at g) ≡ standing_of g
unfolding update_piece
standing_of-settle_piece r s d at g = refl

pub standing_of-stop_moving_piece_at :
    (r : Ref) (s d : Position) (at : ℕ) (b : Bool) (k : PieceKind) (c : PieceColor) (g : GameEngine)
    → standing_of (stop_moving_piece_at r s d at b k c g) ≡ standing_of g
unfolding stop_moving_piece_at
standing_of-stop_moving_piece_at r s d at b k c g =
    let g0 = commit_piece_to_cell r s d g in
    let g1 = promote_pawn_if_needed r d g0 in
    let g2 = settle_piece r s d at g1.0 in
    let g3 = record_move r (g.heap r).kind s d b g1.1 false at g2 in
    standing_of-publish_last (g3.heap r).color b k c g3
    ∙ standing_of-record_move r (g.heap r).kind s d b g1.1 false at g2
    ∙ standing_of-settle_piece r s d at g1.0
    ∙ standing_of-promote_pawn_if_needed r d g0
    ∙ standing_of-commit_piece_to_cell r s d g
