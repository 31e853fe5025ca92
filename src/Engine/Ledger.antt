-- ===== src/Engine/Ledger.antt =====
-- What the engine of GameEngine.cpp has recorded: scores, histories, published events and the end.
use mathlib.Core.List.{append-nil, append_assoc}
use ctd_tamar.Common.{
  ℕ, ◌≤◌, ◌≡◌, refl, sym, ap, ◌∙◌, inl, inr, Bool, true, false, ◌==◌, List, [], ◌∷◌, ◌++◌, arith,
  Bool-cases, Option-cases,
}
use ctd_tamar.Core.Position.{Position}
use ctd_tamar.Core.Piece.{
  PieceColor, white, black, PieceKind, is_white, is_king, Piece, set_kind, queen,
}
use ctd_tamar.Core.Board.{Ref, is_inside}
use ctd_tamar.Core.Results.{MoveHistoryEntry, Reason, king_captured}
use ctd_tamar.Messaging.Event.{GameEvent}
use ctd_tamar.Engine.State.{GameEngine, publish, update_piece}
use ctd_tamar.Engine.Cells.{remove_piece_from_board, get_logical_cell_of_piece}
use ctd_tamar.Engine.Record.{
  add_points, score_event, add_capture_score, get_piece_value, end_game, push_history, record_move,
  publish_move_completed, promote_pawn_if_needed, promotes,
}
use ctd_tamar.Engine.Steps.{
  commit_piece_to_cell, publish_last, last?, history_of, end_if_king, settle_piece,
  stop_moving_piece_at,
}

module _ {ℓ} {A : Type ℓ} where
  -- The second list goes on from the first.
  abbrev pub IsPrefix : List A → List A → Type ℓ
  IsPrefix xs ys = (zs : List A) × (ys ≡ xs ++ zs)

  IsPrefix-refl : (xs : List A) → IsPrefix xs xs
  IsPrefix-refl xs = ([], sym (append-nil xs))

  IsPrefix-trans : (xs ys zs : List A) → IsPrefix xs ys → IsPrefix ys zs → IsPrefix xs zs
  IsPrefix-trans xs ys zs (us, p) (vs, q) =
      (us ++ vs, q ∙ ap (λ l. l ++ vs) p ∙ append_assoc xs us vs)

-- A later state of the record: an end stays, scores do not fall, and histories and events go on.
abbrev pub Later : GameEngine → GameEngine → Type 0
Later g g' =
    (g.game_over ≡ true → g'.game_over ≡ true)
    × (g.white_score ≤ g'.white_score)
    × (g.black_score ≤ g'.black_score)
    × IsPrefix g.white_move_history g'.white_move_history
    × IsPrefix g.black_move_history g'.black_move_history
    × IsPrefix g.published g'.published

pub Later-refl : (g : GameEngine) → Later g g
Later-refl g = (
  λ h. h,
  omega arith,
  omega arith,
  IsPrefix-refl g.white_move_history,
  IsPrefix-refl g.black_move_history,
  IsPrefix-refl g.published,
)

pub Later-trans : (g h k : GameEngine) → Later g h → Later h k → Later g k
Later-trans g h k p q = (
  λ o. q.0 (p.0 o),
  omega (arith, p.1, q.1),
  omega (arith, p.2, q.2),
  IsPrefix-trans g.white_move_history h.white_move_history k.white_move_history p.3 q.3,
  IsPrefix-trans g.black_move_history h.black_move_history k.black_move_history p.4 q.4,
  IsPrefix-trans g.published h.published k.published p.5 q.5,
)

publish-Later : (e : GameEvent) (g : GameEngine) → Later g (publish e g)
unfolding publish
publish-Later e g = elim (Bool-cases g.has_bus) [
  | inl b ↦ simp b (
    λ h. h,
    omega arith,
    omega arith,
    IsPrefix-refl g.white_move_history,
    IsPrefix-refl g.black_move_history,
    (e ∷ [], refl),
  )
  | inr b ↦ simp b (Later-refl g)
]

pub push_history-Later : (e : MoveHistoryEntry) (g : GameEngine) → Later g (push_history e g)
unfolding push_history
push_history-Later e g = elim (Bool-cases (is_white e.color)) [
  | inl b ↦ rw b (
    λ h. h,
    omega arith,
    omega arith,
    (e ∷ [], refl),
    IsPrefix-refl g.black_move_history,
    IsPrefix-refl g.published,
  )
  | inr b ↦ rw b (
    λ h. h,
    omega arith,
    omega arith,
    IsPrefix-refl g.white_move_history,
    (e ∷ [], refl),
    IsPrefix-refl g.published,
  )
]

add_points-Later : (c : PieceColor) (v : ℕ) (g : GameEngine) → Later g (add_points c v g)
add_points-Later white v g = let l = Later-refl g in (l.0, omega arith, l.2, l.3, l.4, l.5)
add_points-Later black v g = let l = Later-refl g in (l.0, l.1, omega arith, l.3, l.4, l.5)

pub add_capture_score-Later :
    (c : PieceColor) (k : PieceKind) (g : GameEngine) → Later g (add_capture_score c k g)
unfolding add_capture_score
add_capture_score-Later c k g = elim (Bool-cases (get_piece_value k == 0)) [
  | inl z ↦ rw z (Later-refl g)
  | inr n ↦ rw n (
      let scored = add_points c (get_piece_value k) g in
      Later-trans g scored (publish (score_event scored) scored)
        (add_points-Later c (get_piece_value k) g) (publish-Later (score_event scored) scored))
]

pub publish_move_completed-Later :
    (e : MoveHistoryEntry) (b : Bool) (k : PieceKind) (c : PieceColor) (g : GameEngine)
    → Later g (publish_move_completed e b k c g)
unfolding publish_move_completed
publish_move_completed-Later e b k c g = publish-Later _ g

end_game-Later : (c : PieceColor) (r : Reason) (g : GameEngine) → Later g (end_game c r g)
unfolding end_game
end_game-Later c r g = elim (Bool-cases g.game_over) [
  | inl o ↦ simp o (let l = Later-refl g in (λ _. refl, l.1, l.2, l.3, l.4, l.5))
  | inr n ↦ simp n (
      let l = publish-Later _ (record g { game_over = true }) in
      (λ _. l.0 refl, l.1, l.2, l.3, l.4, l.5))
]

pub update_piece-Later :
    (r : Ref) (f : Piece → Piece) (g : GameEngine) → Later g (update_piece r f g)
unfolding update_piece
update_piece-Later r f g = Later-refl g

commit_piece_to_cell-Later :
    (r : Ref) (s d : Position) (g : GameEngine) → Later g (commit_piece_to_cell r s d g)
unfolding commit_piece_to_cell
commit_piece_to_cell-Later r s d g = elim (Bool-cases (is_inside g.board d)) [
  | inl i ↦ rw i (Later-refl g)
  | inr o ↦ rw o (Later-refl g)
]

pub remove_piece_from_board-Later :
    (r : Ref) (g : GameEngine) → Later g (remove_piece_from_board r g)
unfolding remove_piece_from_board
remove_piece_from_board-Later r g =
    elim (Bool-cases (is_inside g.board (get_logical_cell_of_piece g r))) [
      | inl i ↦ rw i (Later-refl g)
      | inr o ↦ rw o (Later-refl g)
    ]

promote_pawn_if_needed-Later :
    (r : Ref) (cell : Position) (g : GameEngine) → Later g (promote_pawn_if_needed r cell g).0
unfolding promote_pawn_if_needed
promote_pawn_if_needed-Later r cell g =
    elim (Bool-cases (promotes g (g.heap r).kind (g.heap r).color cell)) [
      | inl i ↦ rw i (update_piece-Later r (set_kind queen) g)
      | inr o ↦ rw o (Later-refl g)
    ]

publish_last-Later :
    (c : PieceColor) (b : Bool) (k : PieceKind) (d : PieceColor) (g : GameEngine)
    → Later g (publish_last c b k d g)
publish_last-Later c b k d g = elim (Option-cases (last? (history_of c g))) [
  | inl n ↦ rw (n, publish_last) (Later-refl g)
  | inr (e, m) ↦ rw (m, publish_last) (publish_move_completed-Later e b k d g)
]

settle_piece-Later :
    (r : Ref) (s d : Position) (at : ℕ) (g : GameEngine) → Later g (settle_piece r s d at g)
unfolding update_piece
settle_piece-Later r s d at g = Later-refl g

record_move-Later :
    (r : Ref) (k : PieceKind) (s d : Position) (a b c : Bool) (at : ℕ) (g : GameEngine)
    → Later g (record_move r k s d a b c at g)
unfolding record_move
record_move-Later r k s d a b c at g = push_history-Later _ g

pub stop_moving_piece_at-Later :
    (r : Ref) (s d : Position) (at : ℕ) (b : Bool) (k : PieceKind) (c : PieceColor) (g : GameEngine)
    → Later g (stop_moving_piece_at r s d at b k c g)
unfolding stop_moving_piece_at
stop_moving_piece_at-Later r s d at b k c g =
    let g0 = commit_piece_to_cell r s d g in
    let g1 = promote_pawn_if_needed r d g0 in
    let g2 = settle_piece r s d at g1.0 in
    let g3 = record_move r (g.heap r).kind s d b g1.1 false at g2 in
    let g4 = publish_last (g3.heap r).color b k c g3 in
    Later-trans g g0 g4 (commit_piece_to_cell-Later r s d g) (
      Later-trans g0 g1.0 g4 (promote_pawn_if_needed-Later r d g0) (
        Later-trans g1.0 g2 g4 (settle_piece-Later r s d at g1.0) (
          Later-trans g2 g3 g4 (record_move-Later r (g.heap r).kind s d b g1.1 false at g2)
            (publish_last-Later (g3.heap r).color b k c g3))))

pub end_if_king-Later :
    (k : PieceKind) (c : PieceColor) (g : GameEngine) → Later g (end_if_king k c g)
end_if_king-Later k c g = elim (Bool-cases (is_king k)) [
  | inl y ↦ rw y (end_game-Later c king_captured g)
  | inr n ↦ rw n (Later-refl g)
]
