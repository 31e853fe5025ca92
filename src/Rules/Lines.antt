-- ===== src/Rules/Lines.antt =====
-- Rook, bishop and queen of server/chess_server/src/Rules/PieceRules.cpp, described by cells.
use ctd_tamar.Common.{ℕ, ◌<◌, ◌-ℤ◌, abs, eq_ℤ_iff, ◌≡◌, ◌≢◌, ◌↔◌, ◌⊎◌, inl, inr, true, arith}
use ctd_tamar.Core.Position.{Position, pos_eq_iff, pos_ne→ne}
use ctd_tamar.Core.Board.{Board, is_empty}
use ctd_tamar.Rules.Path.{distance, is_path_clear}
use ctd_tamar.Rules.Clear.{cell_between, IsLine, is_path_clear_iff}
use ctd_tamar.Rules.Shapes.{can_move_like_rook, can_move_like_bishop, can_move_like_queen}

-- Every cell strictly between the two is empty.
abbrev pub IsOpen : Board → Position → Position → Type 0
IsOpen b s d = (k : ℕ) → 0 < k → k < distance s d → is_empty b (cell_between s d k) ≡ true

abbrev pub SameRank : Position → Position → Type 0
SameRank s d = (s.row ≡ d.row) ⊎ (s.col ≡ d.col)

abbrev pub SameDiagonal : Position → Position → Type 0
SameDiagonal s d = abs (d.row -ℤ s.row) ≡ abs (d.col -ℤ s.col)

clear→IsOpen : (b : Board) (s d : Position) → IsLine s d → is_path_clear b s d ≡ true → IsOpen b s d
clear→IsOpen b s d l = (is_path_clear_iff b s d l).1.0

IsOpen→clear : (b : Board) (s d : Position) → IsLine s d → IsOpen b s d → is_path_clear b s d ≡ true
IsOpen→clear b s d l = (is_path_clear_iff b s d l).1.1

rook_guards :
    (b : Board) (s d : Position)
    → can_move_like_rook b s d ≡ true
    → (s ≢ d) × SameRank s d × (is_path_clear b s d ≡ true)
unfolding can_move_like_rook
rook_guards b s d h = (
  pos_ne→ne s d (ground arith),
  ground (arith, eq_ℤ_iff s.row d.row, eq_ℤ_iff s.col d.col),
  ground arith,
)

rook_accepts :
    (b : Board) (s d : Position)
    → s ≢ d
    → SameRank s d
    → is_path_clear b s d ≡ true
    → can_move_like_rook b s d ≡ true
unfolding can_move_like_rook
rook_accepts b s d ne r c =
    ground (arith, pos_eq_iff s d, eq_ℤ_iff s.row d.row, eq_ℤ_iff s.col d.col)

rank-IsLine : (s d : Position) → s ≢ d → SameRank s d → IsLine s d
rank-IsLine s d ne (inl e) = (ne, inl e)
rank-IsLine s d ne (inr e) = (ne, inr (inl e))

-- A rook moves exactly between two different cells of one row or column with nothing between.
pub can_move_like_rook_iff :
    (b : Board) (s d : Position)
    → (can_move_like_rook b s d ≡ true) ↔ ((s ≢ d) × SameRank s d × IsOpen b s d)
can_move_like_rook_iff b s d = (
  (λ h.
      let (ne, r, c) = rook_guards b s d h in (ne, r, clear→IsOpen b s d (rank-IsLine s d ne r) c)),
  (λ h. rook_accepts b s d h.0 h.1 (IsOpen→clear b s d (rank-IsLine s d h.0 h.1) h.2)),
)

bishop_guards :
    (b : Board) (s d : Position)
    → can_move_like_bishop b s d ≡ true
    → (s ≢ d) × SameDiagonal s d × (is_path_clear b s d ≡ true)
unfolding can_move_like_bishop
bishop_guards b s d h = (pos_ne→ne s d (ground arith), ground arith, ground arith)

bishop_accepts :
    (b : Board) (s d : Position)
    → s ≢ d
    → SameDiagonal s d
    → is_path_clear b s d ≡ true
    → can_move_like_bishop b s d ≡ true
unfolding can_move_like_bishop
bishop_accepts b s d ne r c = ground (arith, pos_eq_iff s d)

-- A bishop moves exactly between two different cells of one diagonal with nothing between.
pub can_move_like_bishop_iff :
    (b : Board) (s d : Position)
    → (can_move_like_bishop b s d ≡ true) ↔ ((s ≢ d) × SameDiagonal s d × IsOpen b s d)
can_move_like_bishop_iff b s d = (
  (λ h. let (ne, r, c) = bishop_guards b s d h in (ne, r, clear→IsOpen b s d (ne, inr (inr r)) c)),
  (λ h. bishop_accepts b s d h.0 h.1 (IsOpen→clear b s d (h.0, inr (inr h.1)) h.2)),
)

queen_cases :
    (b : Board) (s d : Position)
    → (can_move_like_queen b s d ≡ true)
      ↔ ((can_move_like_rook b s d ≡ true) ⊎ (can_move_like_bishop b s d ≡ true))
unfolding can_move_like_queen
queen_cases b s d = ground arith

-- A queen moves exactly along an open line: a row, a column or a diagonal.
pub can_move_like_queen_iff :
    (b : Board) (s d : Position) → (can_move_like_queen b s d ≡ true) ↔ (IsLine s d × IsOpen b s d)
can_move_like_queen_iff b s d = (there, back)
  where
    there : can_move_like_queen b s d ≡ true → IsLine s d × IsOpen b s d
    there h = elim ((queen_cases b s d).0 h) [
      | inl r ↦ let (ne, e, o) = (can_move_like_rook_iff b s d).0 r in (rank-IsLine s d ne e, o)
      | inr r ↦ let (ne, e, o) = (can_move_like_bishop_iff b s d).0 r in ((ne, inr (inr e)), o)
    ]

    straight : s ≢ d → SameRank s d → IsOpen b s d → can_move_like_queen b s d ≡ true
    straight ne r o = (queen_cases b s d).1 (inl ((can_move_like_rook_iff b s d).1 (ne, r, o)))

    back : IsLine s d × IsOpen b s d → can_move_like_queen b s d ≡ true
    back ((ne, inl e), o) = straight ne (inl e) o
    back ((ne, inr (inl e)), o) = straight ne (inr e) o
    back ((ne, inr (inr e)), o) =
        (queen_cases b s d).1 (inr ((can_move_like_bishop_iff b s d).1 (ne, e, o)))
