-- ===== src/Engine/Accepts.antt =====
-- Which requests GameEngine.cpp accepts, and that a refusal changes nothing.
use ctd_tamar.Common.{
  ◌≡◌, refl, ◌⊎◌, inl, inr, true, false, not, ◌||◌, some, arith, Bool-cases, Option-cases,
}
use ctd_tamar.Core.Position.{Position}
use ctd_tamar.Core.Piece.{is_idle, is_on_cooldown}
use ctd_tamar.Core.Board.{Ref, is_inside, get_piece_at}
use ctd_tamar.Core.Results.{MoveResult}
use ctd_tamar.Rules.Validate.{validate_move}
use ctd_tamar.Engine.State.{GameEngine, PendingCastle, PieceConfigReader, current_time}
use ctd_tamar.Engine.Castling.{is_castling_request, can_castle}
use ctd_tamar.Engine.Requests.{
  start_castle, start_move, move_ready, request_move, begin_jump, request_jump, is_busy,
}

-- How a request for an idle piece ends: refused with nothing changed, a castle, or a plain move.
pub data MoveEnds (load : PieceConfigReader) (r : Ref) (s d : Position) (g : GameEngine)
    (out : GameEngine × MoveResult) : Type 0 where
  refuses : out.1.is_accepted ≡ false → out.0 ≡ g → MoveEnds load r s d g out
  castled :
      (c : PendingCastle)
      → is_castling_request g s d ≡ true
      → can_castle g s d ≡ some c
      → out.1.is_accepted ≡ true
      → out.0 ≡ start_castle load c g
      → MoveEnds load r s d g out
  moved :
      is_castling_request g s d ≡ false
      → (validate_move g.heap g.board s d).is_valid ≡ true
      → out.1.is_accepted ≡ true
      → out.0 ≡ start_move load r s d g
      → MoveEnds load r s d g out

move_ready-ends :
    (load : PieceConfigReader) (r : Ref) (s d : Position) (g : GameEngine)
    → MoveEnds load r s d g (move_ready load r s d g)
unfolding move_ready
move_ready-ends load r s d g = elim (Bool-cases (is_castling_request g s d)) [
  | inl b ↦ rw b (elim (Option-cases (can_castle g s d)) [
    | inl n ↦ rw (n, move_ready) (refuses refl refl)
    | inr (c, e) ↦ rw (e, move_ready) (castled c b e refl refl)
  ])
  | inr b ↦ rw b (elim (Bool-cases (validate_move g.heap g.board s d).is_valid) [
    | inl v ↦ rw v (moved b v refl refl)
    | inr v ↦ rw v (refuses refl refl)
  ])
]

-- The piece may be asked to act: the game runs, it stands on the cell, is idle and does not rest.
abbrev pub IsFree : GameEngine → Position → Ref → Type 0
IsFree g cell r =
    (g.game_over ≡ false)
    × (is_inside g.board cell ≡ true)
    × (get_piece_at g.board cell ≡ some r)
    × (is_idle (g.heap r).state ≡ true)
    × (is_on_cooldown (current_time g) (g.heap r) ≡ false)

abbrev pub Unchanged : GameEngine → GameEngine × MoveResult → Type 0
Unchanged g out = (out.1.is_accepted ≡ false) × (out.0 ≡ g)

-- A request to move is refused and changes nothing, or it is for a free piece whose destination is
-- on the board, and then it ends as a refusal, a castle or a plain move.
pub request_move-ends :
    (load : PieceConfigReader) (s d : Position) (g : GameEngine)
    → let out = request_move load s d g in
      Unchanged g out
      ⊎ ((r : Ref) × IsFree g s r × (is_inside g.board d ≡ true) × MoveEnds load r s d g out)
unfolding request_move
request_move-ends load s d g = elim (Bool-cases (g.game_over)) [
  | inl o ↦ simp o (inl (refl, refl))
  | inr o ↦ simp o (elim (Bool-cases (not (is_inside g.board s) || not (is_inside g.board d))) [
    | inl b ↦ rw b (inl (refl, refl))
    | inr b ↦ rw b (elim (Option-cases (get_piece_at g.board s)) [
      | inl n ↦ rw (n, request_move) (inl (refl, refl))
      | inr (r, e) ↦
          rw (e, request_move)
            (elim (Bool-cases (is_busy g r)) [
              | inl y ↦ rw y (inl (refl, refl))
              | inr y ↦ rw y (
                  inr (
                    r,
                    (refl, ground arith, refl, ground arith, ground arith),
                    ground arith,
                    move_ready-ends load r s d g,
                  ))
            ])
    ])
  ])
]

-- A request to jump is refused and changes nothing, or it is for a free piece, which jumps.
pub request_jump-ends :
    (load : PieceConfigReader) (cell : Position) (g : GameEngine)
    → let out = request_jump load cell g in
      Unchanged g out
      ⊎ ((r : Ref) × IsFree g cell r
          × (out.1.is_accepted ≡ true)
          × (out.0 ≡ begin_jump load r cell g))
unfolding request_jump
request_jump-ends load cell g = elim (Bool-cases (g.game_over)) [
  | inl o ↦ simp o (inl (refl, refl))
  | inr o ↦ simp o (elim (Bool-cases (is_inside g.board cell)) [
    | inr b ↦ rw b (inl (refl, refl))
    | inl b ↦ rw b (elim (Option-cases (get_piece_at g.board cell)) [
      | inl n ↦ rw (n, request_jump) (inl (refl, refl))
      | inr (r, e) ↦
          rw (e, request_jump)
            (elim (Bool-cases (is_busy g r)) [
              | inl y ↦ rw y (inl (refl, refl))
              | inr y ↦ rw y (inr (r, (refl, refl, refl, ground arith, ground arith), refl, refl))
            ])
    ])
  ])
]
