-- ===== src/Engine/Stopped.antt =====
-- Where stopMovingPieceAt and the captures of GameEngine.cpp leave a piece, and in which state.
use ctd_tamar.Common.{
  ℕ, ◌≡◌, refl, ◌∙◌, ap, Bool, true, false, some, ◌==◌, ==_refl, if◌then◌else◌, if-true, if-cases,
  arith, Bool-cases, Option-cases, inl, inr,
}
use ctd_tamar.Core.Position.{Position, pos_eq_refl}
use ctd_tamar.Core.Piece.{Piece, PieceColor, PieceKind, idle, captured, set_state, start_cooldown}
use ctd_tamar.Core.Board.{Ref, Board, modify, is_inside, get_piece_at, remove_piece, write}
use ctd_tamar.Core.Board.Laws.{get_piece_at-set_piece_at}
use ctd_tamar.Realtime.Arbiter.{StepEvent, cancel_motion, update_motion_cell}
use ctd_tamar.Engine.Effects.{stop-SameBut}
use ctd_tamar.Engine.Castling.{complete_castle}
use ctd_tamar.Engine.State.{PendingCastle, GameEngine, publish, update_piece, update_real_time}
use ctd_tamar.Engine.Cells.{remove_piece_from_board, get_logical_cell_of_piece, holds}
use ctd_tamar.Engine.Record.{
  add_capture_score, publish_move_completed, push_history, record_move, promote_pawn_if_needed,
  end_game,
}
use ctd_tamar.Engine.Steps.{
  commit_piece_to_cell, publish_last, settle_piece, stop_moving_piece_at, end_if_king, rests, last?,
  history_of, captures, captured_by_jumper,
}
use ctd_tamar.Engine.Frame.{
  publish_last-Frame, record_move-Frame, end_if_king-Frame, add_capture_score-Frame,
  remove_piece_from_board-Frame,
}

publish_last-board :
    (c : PieceColor) (w : Bool) (k : PieceKind) (d : PieceColor) (g : GameEngine)
    → (publish_last c w k d g).board ≡ g.board
unfolding publish_move_completed publish
publish_last-board c w k d g = elim (Option-cases (last? (history_of c g))) [
  | inl e ↦ rw (e, publish_last) refl
  | inr (x, e) ↦ rw (e, publish_last) (ground arith)
]

record_move-board :
    (r : Ref) (k : PieceKind) (s d : Position) (w p j : Bool) (at : ℕ) (g : GameEngine)
    → (record_move r k s d w p j at g).board ≡ g.board
unfolding record_move push_history
record_move-board r k s d w p j at g = ground arith

end_if_king-board :
    (k : PieceKind) (c : PieceColor) (g : GameEngine) → (end_if_king k c g).board ≡ g.board
unfolding end_game publish
end_if_king-board k c g = ground arith

add_capture_score-board :
    (c : PieceColor) (k : PieceKind) (g : GameEngine) → (add_capture_score c k g).board ≡ g.board
unfolding add_capture_score publish
add_capture_score-board c k g = ground arith

promote-board :
    (r : Ref) (cell : Position) (g : GameEngine)
    → (promote_pawn_if_needed r cell g).0.board ≡ g.board
unfolding promote_pawn_if_needed update_piece
promote-board r cell g = ground arith

is_inside-remove_piece :
    (p q : Position) (b : Board) → is_inside (remove_piece p b) q ≡ is_inside b q
unfolding is_inside remove_piece write
is_inside-remove_piece p q b = ground arith

-- The removal of a piece leaves the size of the board.
is_inside-remove_piece_from_board :
    (r : Ref) (q : Position) (g : GameEngine)
    → is_inside (remove_piece_from_board r g).board q ≡ is_inside g.board q
unfolding remove_piece_from_board
is_inside-remove_piece_from_board r q g =
    let cell = get_logical_cell_of_piece g r in
    elim (Bool-cases (is_inside g.board cell)) [
      | inl i ↦ rw i (is_inside-remove_piece cell q g.board)
      | inr o ↦ rw o refl
    ]

commit-shows :
    (r : Ref) (s d : Position) (g : GameEngine)
    → is_inside g.board d ≡ true
    → get_piece_at (commit_piece_to_cell r s d g).board d ≡ some r
unfolding commit_piece_to_cell
commit-shows r s d g i =
    let b = if holds (get_piece_at g.board s) r then remove_piece s g.board else g.board in
    let same : is_inside b d ≡ true =
      if-cases (λ (c : Board). is_inside c d ≡ true) (holds (get_piece_at g.board s) r)
        (remove_piece s g.board) g.board (λ _. is_inside-remove_piece s d g.board ∙ i) (λ _. i) in
    rw (i, get_piece_at-set_piece_at b d d r, same, pos_eq_refl d) refl

update_piece-own :
    (r : Ref) (f : Piece → Piece) (g : GameEngine) → (update_piece r f g).heap r ≡ f (g.heap r)
unfolding update_piece modify
update_piece-own r f g = if-true (r == r) _ _ (==_refl r)

rests-idle : (s final : Position) (at : ℕ) (p : Piece) → (rests s final at p).state ≡ idle
unfolding start_cooldown
rests-idle s final at p = refl

module _ (r : Ref) (s final : Position) (at : ℕ) (w : Bool) (k : PieceKind) (c : PieceColor) where
  -- A piece that stops is idle.
  pub stop-idle :
      (g : GameEngine) → ((stop_moving_piece_at r s final at w k c g).heap r).state ≡ idle
  unfolding stop_moving_piece_at
  stop-idle g =
      let g0 = commit_piece_to_cell r s final g in
      let (g1, promoted) = promote_pawn_if_needed r final g0 in
      let g2 = settle_piece r s final at g1 in
      let g3 = record_move r (g.heap r).kind s final w promoted false at g2 in
      ap (λ h. (h r).state)
        ((publish_last-Frame (g3.heap r).color w k c g3).0
          ∙ (record_move-Frame r (g.heap r).kind s final w promoted false at g2).0)
      ∙ ap (λ (p : Piece). p.state) (update_piece-own r (rests s final at) g1)
      ∙ rests-idle s final at (g1.heap r)

  -- The board shows it on the cell where it stops.
  pub stop-shows :
      (g : GameEngine)
      → is_inside g.board final ≡ true
      → get_piece_at (stop_moving_piece_at r s final at w k c g).board final ≡ some r
  unfolding stop_moving_piece_at update_piece
  stop-shows g i =
      let g0 = commit_piece_to_cell r s final g in
      let (g1, promoted) = promote_pawn_if_needed r final g0 in
      let g2 = settle_piece r s final at g1 in
      let g3 = record_move r (g.heap r).kind s final w promoted false at g2 in
      ap (λ b. get_piece_at b final)
        (publish_last-board (g3.heap r).color w k c g3
          ∙ record_move-board r (g.heap r).kind s final w promoted false at g2
          ∙ promote-board r final g0)
      ∙ commit-shows r s final g i

-- A piece that a jumper captures is captured.
pub captured_by_jumper-state :
    (r target : Ref) (g : GameEngine) → ((captured_by_jumper r target g).heap r).state ≡ captured
unfolding captured_by_jumper
captured_by_jumper-state r target g =
    let kind = (g.heap r).kind in
    let winner = (g.heap target).color in
    let g0 = remove_piece_from_board r g in
    let g2 = update_real_time (cancel_motion r) (update_piece r (set_state captured) g0) in
    ap (λ h. (h r).state)
      ((end_if_king-Frame kind winner (add_capture_score winner kind g2)).0
        ∙ (add_capture_score-Frame winner kind g2).0)
    ∙ ap (λ (p : Piece). p.state) (update_piece-own r (set_state captured) g0)

-- The mover of a capture is idle afterwards, on the cell where it captured.
pub captures-mover :
    (r target : Ref) (s : Position) (e : StepEvent) (g : GameEngine)
    → is_inside g.board e.to ≡ true
    → (((captures r target s e g).heap r).state ≡ idle)
      × (get_piece_at (captures r target s e g).board e.to ≡ some r)
unfolding captures update_piece
captures-mover r target s e g i =
    let kind = (g.heap target).kind in
    let color = (g.heap target).color in
    let winner = (g.heap r).color in
    let g0 = update_piece target (set_state captured) g in
    let g2 = update_real_time (cancel_motion target) (remove_piece_from_board target g0) in
    let g3 = add_capture_score winner kind g2 in
    let g4 = update_real_time (update_motion_cell r e.to) g3 in
    let g5 = stop_moving_piece_at r s e.to e.event_time_ms true kind color g4 in
    let inside : is_inside g4.board e.to ≡ true =
      ap (λ b. is_inside b e.to) (add_capture_score-board winner kind g2)
      ∙ is_inside-remove_piece_from_board target e.to g0
      ∙ i in
    (
      ap (λ h. (h r).state) (end_if_king-Frame kind winner g5).0
          ∙ stop-idle r s e.to e.event_time_ms true kind color g4,
      ap (λ b. get_piece_at b e.to) (end_if_king-board kind winner g5)
          ∙ stop-shows r s e.to e.event_time_ms true kind color g4 inside,
    )

-- The piece that is captured is captured afterwards.
pub captures-target :
    (r target : Ref) (s : Position) (e : StepEvent) (g : GameEngine)
    → (target == r) ≡ false
    → ((captures r target s e g).heap target).state ≡ captured
unfolding captures
captures-target r target s e g n =
    let kind = (g.heap target).kind in
    let color = (g.heap target).color in
    let winner = (g.heap r).color in
    let g0 = update_piece target (set_state captured) g in
    let g1 = remove_piece_from_board target g0 in
    let g2 = update_real_time (cancel_motion target) g1 in
    let g3 = add_capture_score winner kind g2 in
    let g4 = update_real_time (update_motion_cell r e.to) g3 in
    let g5 = stop_moving_piece_at r s e.to e.event_time_ms true kind color g4 in
    ap (λ h. (h target).state) (end_if_king-Frame kind winner g5).0
    ∙ ap (λ (p : Piece). p.state)
        (stop-SameBut r s e.to e.event_time_ms true kind color g4 target n)
    ∙ ap (λ h. (h target).state)
        ((add_capture_score-Frame winner kind g2).0 ∙ (remove_piece_from_board-Frame target g0).0)
    ∙ ap (λ (p : Piece). p.state) (update_piece-own target (set_state captured) g)

-- Both pieces of a castle are idle afterwards.
pub castle-idle :
    (c : PendingCastle) (at : ℕ) (g : GameEngine)
    → (((complete_castle c at g).heap c.king).state ≡ idle)
      × (((complete_castle c at g).heap c.rook).state ≡ idle)
unfolding complete_castle update_piece modify start_cooldown push_history publish_move_completed
    publish
castle-idle c at g = ground (arith, ==_refl c.king, ==_refl c.rook)
