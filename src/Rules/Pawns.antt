-- ===== src/Rules/Pawns.antt =====
-- The pawn of server/chess_server/src/Rules/PieceRules.cpp, against the rules of chess.
use ctd_tamar.Common.{
  ℕ, negsuc, none, +ℤ_parts, sub_ℕ, not, Option, ◌≢◌, ap, sym, ◌∙◌, refl, ℤ, pos, ◌+ℤ◌, ◌-ℤ◌, abs,
  -ℤ_parts, one_sign, ◌≡◌, ◌↔◌, ◌⊎◌, inl, inr, true, false, some, arith, eq_ℤ_iff, Option-cases,
  eq_of_parts,
}
use ctd_tamar.Core.Position.{Position, position, pos_eq}
use ctd_tamar.Core.Piece.{PieceColor, white, black, color_eq}
use ctd_tamar.Core.Board.{Board, Heap, Ref, get_piece_at, is_empty}
use ctd_tamar.Rules.Shapes.{can_move_like_pawn, direction_of, double_step, start_row, is_enemy}

-- Row `n` ahead of another: white pawns go up the board, to lower rows, and black ones down.
abbrev pub Ahead : PieceColor → ℕ → ℤ → ℤ → Type 0
Ahead white n from to = to +ℤ pos n ≡ from
Ahead black n from to = from +ℤ pos n ≡ to

-- The second row from a colour's own end of the board.
abbrev pub IsHome : PieceColor → Board → ℤ → Type 0
IsHome white b row = row +ℤ pos 2 ≡ pos b.height
IsHome black b row = row ≡ pos 1

abbrev pub IsBeside : ℤ → ℤ → Type 0
IsBeside x y = (y +ℤ pos 1 ≡ x) ⊎ (x +ℤ pos 1 ≡ y)

-- A piece of the other colour stands on the cell.
abbrev pub HasEnemy : Heap → Board → PieceColor → Position → Type 0
HasEnemy h b c cell = (r : Ref) × (get_piece_at b cell ≡ some r) × ((h r).color ≢ c)

module _ (h : Heap) (b : Board) (s d : Position) (c : PieceColor) where
  -- Straight ahead to an empty cell, or one column aside onto an enemy.
  abbrev pub PawnStep : Type 0
  PawnStep =
      Ahead c 1 s.row d.row
      × (((d.col ≡ s.col) × (get_piece_at b d ≡ none)) ⊎ (IsBeside s.col d.col × HasEnemy h b c d))

  -- Two cells ahead from the start row over an empty cell to an empty cell.
  abbrev pub PawnDouble : Type 0
  PawnDouble =
      Ahead c 2 s.row d.row
      × IsHome c b s.row
      × (d.col ≡ s.col)
      × ((m : Position) × Ahead c 1 s.row m.row × (m.col ≡ s.col) × (get_piece_at b m ≡ none))
      × (get_piece_at b d ≡ none)

Ahead-one : (c : PieceColor) (x y : ℤ) → (y -ℤ x ≡ direction_of c) ↔ Ahead c 1 x y
Ahead-one white x y = (
  (λ e. ground (arith, -ℤ_parts y x, +ℤ_parts y (pos 1), eq_of_parts (y +ℤ pos 1) x)),
  (λ e. ground (arith, -ℤ_parts y x, +ℤ_parts y (pos 1), eq_of_parts (y -ℤ x) (negsuc 0))),
)
Ahead-one black x y = (
  (λ e. ground (arith, -ℤ_parts y x, +ℤ_parts x (pos 1), eq_of_parts (x +ℤ pos 1) y)),
  (λ e. ground (arith, -ℤ_parts y x, +ℤ_parts x (pos 1), eq_of_parts (y -ℤ x) (pos 1))),
)

Ahead-two : (c : PieceColor) (x y : ℤ) → (y -ℤ x ≡ double_step c) ↔ Ahead c 2 x y
Ahead-two white x y = (
  (λ e. ground (arith, -ℤ_parts y x, +ℤ_parts y (pos 2), eq_of_parts (y +ℤ pos 2) x)),
  (λ e. ground (arith, -ℤ_parts y x, +ℤ_parts y (pos 2), eq_of_parts (y -ℤ x) (negsuc 1))),
)
Ahead-two black x y = (
  (λ e. ground (arith, -ℤ_parts y x, +ℤ_parts x (pos 2), eq_of_parts (x +ℤ pos 2) y)),
  (λ e. ground (arith, -ℤ_parts y x, +ℤ_parts x (pos 2), eq_of_parts (y -ℤ x) (pos 2))),
)

home : (c : PieceColor) (b : Board) (x : ℤ) → (x ≡ start_row b c) ↔ IsHome c b x
home white b x = (
  (λ e. ground (arith, +ℤ_parts x (pos 2), eq_of_parts (x +ℤ pos 2) (pos b.height))),
  (λ e. ground (arith, +ℤ_parts x (pos 2), eq_of_parts x (sub_ℕ b.height 2))),
)
home black b x = ((λ e. e), (λ e. e))

same_column : (x y : ℤ) → (y -ℤ x ≡ pos 0) ↔ (y ≡ x)
same_column x y = (
  (λ e. ground (arith, -ℤ_parts y x, eq_of_parts y x)),
  (λ e. ground (arith, -ℤ_parts y x, eq_of_parts (y -ℤ x) (pos 0))),
)

beside : (x y : ℤ) → (abs (y -ℤ x) ≡ 1) ↔ IsBeside x y
beside x y = (
  (λ e. elim (one_sign (y -ℤ x)) [
    | inl n ↦ inl (ground (arith, -ℤ_parts y x, +ℤ_parts y (pos 1), eq_of_parts (y +ℤ pos 1) x))
    | inr n ↦ inr (ground (arith, -ℤ_parts y x, +ℤ_parts x (pos 1), eq_of_parts (x +ℤ pos 1) y))
  ]),
  (λ e. ground (arith, -ℤ_parts y x, one_sign (y -ℤ x), +ℤ_parts y (pos 1), +ℤ_parts x (pos 1))),
)

differ : (a b : PieceColor) → (not (color_eq a b) ≡ true) ↔ (a ≢ b)
differ a b = ((λ e. ground arith), (λ n. ground arith))

enemy :
    (h : Heap) (c : PieceColor) (o : Option Ref)
    → (is_enemy h c o ≡ true) ↔ ((r : Ref) × (o ≡ some r) × ((h r).color ≢ c))
enemy h c none = ((λ e. absurd (ground arith)), (λ (r, e, n). absurd (ground arith)))
enemy h c (some r) = (
  (λ e. (r, refl, (differ (h r).color c).0 e)),
  (λ (q, e, n). (differ (h r).color c).1 (ground arith)),
)

empty : (b : Board) (p : Position) → (is_empty b p ≡ true) ↔ (get_piece_at b p ≡ none)
unfolding is_empty
empty b p = elim (Option-cases (get_piece_at b p)) [
  | inl n ↦ ground arith
  | inr (r, e) ↦ ground arith
]

Ahead-of : (c : PieceColor) (x : ℤ) → Ahead c 1 x (x +ℤ direction_of c)
Ahead-of white x = ground (
  arith,
  +ℤ_parts x (negsuc 0),
  one_sign x,
  +ℤ_parts (x +ℤ negsuc 0) (pos 1),
  eq_of_parts (x +ℤ negsuc 0 +ℤ pos 1) x,
)
Ahead-of black x = refl

Ahead-same : (c : PieceColor) (x y z : ℤ) → Ahead c 1 x y → Ahead c 1 x z → y ≡ z
Ahead-same white x y z h k =
    ground (arith, +ℤ_parts y (pos 1), +ℤ_parts z (pos 1), one_sign x, eq_of_parts y z)
Ahead-same black x y z h k = sym h ∙ k

between :
    (c : PieceColor) (x y : ℤ) (m : Position)
    → Ahead c 1 x m.row
    → m.col ≡ y
    → m ≡ position (x +ℤ direction_of c) y
between c x y m a e =
    let row = Ahead-same c x m.row (x +ℤ direction_of c) a (Ahead-of c x) in
    ap (λ (k : ℤ). position k m.col) row ∙ ap (position (x +ℤ direction_of c)) e

row_moves : (s d : Position) → d.row -ℤ s.row ≢ pos 0 → pos_eq s d ≡ false
unfolding pos_eq
row_moves s d ne =
    ground
      (arith, -ℤ_parts d.row s.row, one_sign (d.row -ℤ s.row), eq_of_parts (d.row -ℤ s.row) (pos 0))

module _ (h : Heap) (b : Board) (s d : Position) (c : PieceColor) where
  -- The same in the terms of the code: a step, and a double step.
  abbrev ByStep : Type 0
  ByStep =
      (d.row -ℤ s.row ≡ direction_of c)
      × (((d.col -ℤ s.col ≡ pos 0) × (is_empty b d ≡ true))
          ⊎ ((abs (d.col -ℤ s.col) ≡ 1) × (is_enemy h c (get_piece_at b d) ≡ true)))

  abbrev ByDouble : Type 0
  ByDouble =
      (d.row -ℤ s.row ≡ double_step c)
      × (s.row ≡ start_row b c)
      × (d.col -ℤ s.col ≡ pos 0)
      × (is_empty b (position (s.row +ℤ direction_of c) s.col) ≡ true)
      × (is_empty b d ≡ true)

  pawn_guards : can_move_like_pawn h b s d c ≡ true → ByStep ⊎ ByDouble
  unfolding can_move_like_pawn
  pawn_guards e = ground (
    arith,
    eq_ℤ_iff (d.row -ℤ s.row) (direction_of c),
    eq_ℤ_iff (d.col -ℤ s.col) (pos 0),
    eq_ℤ_iff (d.row -ℤ s.row) (double_step c),
    eq_ℤ_iff s.row (start_row b c),
  )

  pawn_accepts : ByStep ⊎ ByDouble → can_move_like_pawn h b s d c ≡ true
  unfolding can_move_like_pawn
  pawn_accepts e = ground (arith, row_moves s d, eq_ℤ_iff (d.col -ℤ s.col) (pos 0))

  step : ByStep ↔ PawnStep h b s d c
  step = (
    (λ (r, k). (
      (Ahead-one c s.row d.row).0 r,
      elim k [
        | inl (z, f) ↦ inl ((same_column s.col d.col).0 z, (empty b d).0 f)
        | inr (o, n) ↦ inr ((beside s.col d.col).0 o, (enemy h c (get_piece_at b d)).0 n)
      ],
    )),
    (λ (r, k). (
      (Ahead-one c s.row d.row).1 r,
      elim k [
        | inl (z, f) ↦ inl ((same_column s.col d.col).1 z, (empty b d).1 f)
        | inr (o, n) ↦ inr ((beside s.col d.col).1 o, (enemy h c (get_piece_at b d)).1 n)
      ],
    )),
  )

  double : ByDouble ↔ PawnDouble h b s d c
  double = (
    (λ (r, st, z, mid, f). (
      (Ahead-two c s.row d.row).0 r,
      (home c b s.row).0 st,
      (same_column s.col d.col).0 z,
      (
        position (s.row +ℤ direction_of c) s.col,
        Ahead-of c s.row,
        refl,
        (empty b (position (s.row +ℤ direction_of c) s.col)).0 mid,
      ),
      (empty b d).0 f,
    )),
    (λ (r, st, z, (m, am, cm, em), f). (
      (Ahead-two c s.row d.row).1 r,
      (home c b s.row).1 st,
      (same_column s.col d.col).1 z,
      (empty b (position (s.row +ℤ direction_of c) s.col)).1
          (ap (get_piece_at b) (sym (between c s.row s.col m am cm)) ∙ em),
      (empty b d).1 f,
    )),
  )

  -- A pawn moves exactly in these ways: one row ahead, where white is ahead in the lower rows and
  -- black in the higher ones, and in its column to a cell without a piece; one row ahead and one
  -- column aside to a cell with a piece of the other colour; or two rows ahead in its column, from
  -- the second row of its end of the board, to a cell without a piece and over one without.
  pub can_move_like_pawn_iff :
      (can_move_like_pawn h b s d c ≡ true) ↔ (PawnStep h b s d c ⊎ PawnDouble h b s d c)
  can_move_like_pawn_iff = (
    (λ e. elim (pawn_guards e) [ inl k ↦ inl (step.0 k) | inr k ↦ inr (double.0 k) ]),
    (λ e. pawn_accepts (elim e [ inl k ↦ inl (step.1 k) | inr k ↦ inr (double.1 k) ])),
  )
