-- ===== src/Rules/Steps.antt =====
-- Knight and king of server/chess_server/src/Rules/PieceRules.cpp, and what an accepted move
-- of server/chess_server/src/Rules/RuleEngine.cpp guarantees.
use ctd_tamar.Common.{
  Option, none, false, Bool-cases, refl, ℤ, ◌-ℤ◌, abs, -ℤ_parts, one_sign, ◌≡◌, ◌≢◌, ◌↔◌, inl, inr,
  true, false, some, arith, Option-cases,
}
use ctd_tamar.Core.Position.{Position, pos_eq, pos_ne→ne}
use ctd_tamar.Core.Piece.{
  PieceColor, color_eq, same_color, king, queen, rook, bishop, knight, pawn, PieceKind,
}
use ctd_tamar.Core.Board.{Board, Heap, Ref, is_inside, get_piece_at}
use ctd_tamar.Rules.Shapes.{
  can_move_like_knight, can_move_like_king, can_move_like_pawn, can_move_like_rook,
  can_move_like_bishop, can_move_like_queen,
}
use ctd_tamar.Rules.Validate.{validate_move, legal_for, is_friendly, is_legal_by_piece_kind}

abs_sub_comm : (a b : ℤ) → abs (a -ℤ b) ≡ abs (b -ℤ a)
abs_sub_comm a b = omega (arith, -ℤ_parts a b, -ℤ_parts b a, one_sign (a -ℤ b), one_sign (b -ℤ a))

pos_eq_comm : (p q : Position) → pos_eq p q ≡ pos_eq q p
unfolding pos_eq
pos_eq_comm p q = ground arith

-- Knight and king moves can be taken back: the shape is the same in both directions.
pub jump_shapes_comm :
    (s d : Position)
    → (can_move_like_knight s d ≡ can_move_like_knight d s)
      × (can_move_like_king s d ≡ can_move_like_king d s)
unfolding can_move_like_knight can_move_like_king
jump_shapes_comm s d = (
  rw (pos_eq_comm s d, abs_sub_comm d.row s.row, abs_sub_comm d.col s.col),
  rw (pos_eq_comm s d, abs_sub_comm d.row s.row, abs_sub_comm d.col s.col),
)

legal_ne :
    (k : PieceKind) (h : Heap) (b : Board) (s d : Position) (c : PieceColor)
    → legal_for k h b s d c ≡ true
    → pos_eq s d ≡ false
unfolding can_move_like_rook can_move_like_bishop can_move_like_queen can_move_like_knight
    can_move_like_king can_move_like_pawn
legal_ne rook h b s d c e = ground arith
legal_ne bishop h b s d c e = ground arith
legal_ne queen h b s d c e = ground arith
legal_ne knight h b s d c e = ground arith
legal_ne king h b s d c e = ground arith
legal_ne pawn h b s d c e = ground arith

-- What an accepted move needs: a piece on the board, another cell of the board that holds no piece
-- of its colour, and a shape that fits its kind.
abbrev pub IsPlayable : Heap → Board → Position → Position → Type 0
IsPlayable h b s d =
    (r : Ref) × (get_piece_at b s ≡ some r)
    × (is_inside b s ≡ true)
    × (is_inside b d ≡ true)
    × (s ≢ d)
    × ((q : Ref) → get_piece_at b d ≡ some q → (h q).color ≢ (h r).color)
    × (legal_for (h r).kind h b s d (h r).color ≡ true)

not_friendly :
    (h : Heap) (c : PieceColor) (o : Option Ref)
    → (is_friendly h c o ≡ false) ↔ ((q : Ref) → o ≡ some q → (h q).color ≢ c)
not_friendly h c none = ((λ _ q e. absurd (ground arith)), (λ _. refl))
not_friendly h c (some r) = (
  (λ e q k same. ground arith),
  (λ n. elim (Bool-cases (color_eq (h r).color c)) [
    | inl y ↦ absurd (n r refl (same_color (h r).color c y))
    | inr y ↦ y
  ]),
)

validate_move_sound :
    (h : Heap) (b : Board) (s d : Position)
    → (validate_move h b s d).is_valid ≡ true
    → IsPlayable h b s d
unfolding validate_move
validate_move_sound h b s d e = elim (Option-cases (get_piece_at b s)) [
  | inl n ↦ absurd (ground arith)
  | inr (r, p) ↦
      let legal : legal_for (h r).kind h b s d (h r).color ≡ true = ground arith in
      (
        r,
        p,
        ground arith,
        ground arith,
        pos_ne→ne s d (legal_ne (h r).kind h b s d (h r).color legal),
        (not_friendly h (h r).color (get_piece_at b d)).0 (ground arith),
        legal,
      )
]

validate_move_complete :
    (h : Heap) (b : Board) (s d : Position)
    → IsPlayable h b s d
    → (validate_move h b s d).is_valid ≡ true
unfolding validate_move is_legal_by_piece_kind
validate_move_complete h b s d (r, p, i, j, ne, k, l) =
    let f = (not_friendly h (h r).color (get_piece_at b d)).1 k in
    rw (i, j, p, validate_move, f, is_legal_by_piece_kind, p, l) refl

-- A move is accepted exactly when it goes from a piece on the board to another cell of the board
-- that holds no piece of the mover's colour, with a shape that fits the mover's kind.
pub validate_move_iff :
    (h : Heap) (b : Board) (s d : Position)
    → ((validate_move h b s d).is_valid ≡ true) ↔ IsPlayable h b s d
validate_move_iff h b s d = (validate_move_sound h b s d, validate_move_complete h b s d)
