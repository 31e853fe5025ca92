-- ===== src/Engine/Scores.antt =====
-- What captures of GameEngine.cpp do to the scores and to the end of the game.
use ctd_tamar.Common.{
  ◌+◌, ◌≡◌, refl, sym, ◌∙◌, ap, Bool, true, false, ◌||◌, ◌==◌, arith, Bool-cases, inl, inr,
  if◌then◌else◌,
}
use ctd_tamar.Core.Position.{Position}
use ctd_tamar.Core.Piece.{PieceColor, white, black, PieceKind, is_king, set_state, captured}
use ctd_tamar.Core.Board.{Ref}
use ctd_tamar.Core.Results.{Reason, king_captured}
use ctd_tamar.Realtime.Arbiter.{StepEvent, cancel_motion, update_motion_cell}
use ctd_tamar.Engine.State.{GameEngine, update_piece, update_real_time}
use ctd_tamar.Engine.Cells.{remove_piece_from_board}
use ctd_tamar.Engine.Record.{add_points, score_event, add_capture_score, get_piece_value, end_game}
use ctd_tamar.Engine.Steps.{end_if_king, stop_moving_piece_at, captured_by_jumper, captures}
use ctd_tamar.Engine.Standing.{
  Standing, standing_of, after_capture, standing_of-publish, standing_of-stop_moving_piece_at,
  standing_of-remove_piece_from_board, standing_of-update_piece,
}

or_true : (b : Bool) → (b || true) ≡ true
or_true b = ground arith

or_false : (b : Bool) → (b || false) ≡ b
or_false b = ground arith

-- The points of a capture, without its end.
abbrev pub with_points : PieceColor → PieceKind → Standing → Standing
with_points white k s = record s { white_points = s.white_points + get_piece_value k }
with_points black k s = record s { black_points = s.black_points + get_piece_value k }

abbrev pub over : Bool → Standing → Standing
over b s = record s { is_over = s.is_over || b }

abbrev pub with_end : PieceKind → Standing → Standing
with_end k = over (is_king k)

standing_of-add_points :
    (c : PieceColor) (k : PieceKind) (g : GameEngine)
    → standing_of (add_points c (get_piece_value k) g) ≡ with_points c k (standing_of g)
standing_of-add_points white k g = refl
standing_of-add_points black k g = refl

no_points :
    (c : PieceColor) (k : PieceKind) (s : Standing)
    → (get_piece_value k == 0) ≡ true
    → s ≡ with_points c k s
no_points white k s z = ground arith
no_points black k s z = ground arith

standing_of-add_capture_score :
    (c : PieceColor) (k : PieceKind) (g : GameEngine)
    → standing_of (add_capture_score c k g) ≡ with_points c k (standing_of g)
unfolding add_capture_score
standing_of-add_capture_score c k g = elim (Bool-cases (get_piece_value k == 0)) [
  | inl z ↦ rw z (no_points c k (standing_of g) z)
  | inr n ↦ rw n (
      let scored = add_points c (get_piece_value k) g in
      standing_of-publish (score_event scored) scored ∙ standing_of-add_points c k g)
]

standing_of-end_game :
    (c : PieceColor) (r : Reason) (g : GameEngine)
    → standing_of (end_game c r g) ≡ record (standing_of g) { is_over = true }
unfolding end_game
standing_of-end_game c r g = elim (Bool-cases g.game_over) [
  | inl o ↦ simp o refl
  | inr n ↦ simp n (standing_of-publish _ (record g { game_over = true }))
]

over_with_king :
    (s : Standing) (b : Bool) → over b s ≡ (if b then record s { is_over = true } else s)
over_with_king s true = ap (λ (b : Bool). record s { is_over = b }) (or_true s.is_over)
over_with_king s false = ap (λ (b : Bool). record s { is_over = b }) (or_false s.is_over)

standing_of-end_if_king :
    (k : PieceKind) (c : PieceColor) (g : GameEngine)
    → standing_of (end_if_king k c g) ≡ with_end k (standing_of g)
standing_of-end_if_king k c g = elim (Bool-cases (is_king k)) [
  | inl y ↦
      rw y (standing_of-end_game c king_captured g ∙ sym (over_with_king (standing_of g) true))
  | inr n ↦ rw n (sym (over_with_king (standing_of g) false))
]

end_after_points :
    (c : PieceColor) (k : PieceKind) (s : Standing)
    → with_end k (with_points c k s) ≡ after_capture c k s
end_after_points white k s = refl
end_after_points black k s = refl

standing_of-captured_by_jumper :
    (r target : Ref) (g : GameEngine)
    → standing_of (captured_by_jumper r target g)
      ≡ after_capture (g.heap target).color (g.heap r).kind (standing_of g)
unfolding captured_by_jumper
standing_of-captured_by_jumper r target g =
    let kind = (g.heap r).kind in
    let winner = (g.heap target).color in
    let g0 = remove_piece_from_board r g in
    let g1 = update_piece r (set_state captured) g0 in
    let g2 = update_real_time (cancel_motion r) g1 in
    standing_of-end_if_king kind winner (add_capture_score winner kind g2)
    ∙ ap (with_end kind) (standing_of-add_capture_score winner kind g2)
    ∙ end_after_points winner kind (standing_of g2)
    ∙ ap (after_capture winner kind) (
        standing_of-update_piece r (set_state captured) g0
        ∙ standing_of-remove_piece_from_board r g)

standing_of-captures :
    (r target : Ref) (s : Position) (e : StepEvent) (g : GameEngine)
    → standing_of (captures r target s e g)
      ≡ after_capture (g.heap r).color (g.heap target).kind (standing_of g)
unfolding captures
standing_of-captures r target s e g =
    let kind = (g.heap target).kind in
    let color = (g.heap target).color in
    let winner = (g.heap r).color in
    let g0 = update_piece target (set_state captured) g in
    let g1 = remove_piece_from_board target g0 in
    let g2 = update_real_time (cancel_motion target) g1 in
    let g3 = add_capture_score winner kind g2 in
    let moved = update_real_time (update_motion_cell r e.to) g3 in
    let g4 = stop_moving_piece_at r s e.to e.event_time_ms true kind color moved in
    standing_of-end_if_king kind winner g4
    ∙ ap (with_end kind) (
        standing_of-stop_moving_piece_at r s e.to e.event_time_ms true kind color moved
        ∙ standing_of-add_capture_score winner kind g2)
    ∙ end_after_points winner kind (standing_of g2)
    ∙ ap (after_capture winner kind) (
        standing_of-remove_piece_from_board target g0
        ∙ standing_of-update_piece target (set_state captured) g)

-- A capture, by the mover or by a jumper that it runs into, gives the capturing colour the value of
-- the captured piece and nothing to the other, and the game is over afterwards exactly if the piece
-- was a king or it was over before.
pub captures_standing :
    (r target : Ref) (s : Position) (e : StepEvent) (g : GameEngine)
    → (standing_of (captures r target s e g)
        ≡ after_capture (g.heap r).color (g.heap target).kind (standing_of g))
      × (standing_of (captured_by_jumper r target g)
          ≡ after_capture (g.heap target).color (g.heap r).kind (standing_of g))
captures_standing r target s e g =
    (standing_of-captures r target s e g, standing_of-captured_by_jumper r target g)
