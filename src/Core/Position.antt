-- ===== src/Core/Position.antt =====
-- shared/cpp/src/Core/Position.cpp: a cell by row and column, either of which may be negative.
use ctd_tamar.Common.{
  ℤ, negsuc, eq_ℤ, eq_ℤ_iff, eq_ℤ_refl, ◌≡◌, ◌↔◌, ◌≢◌, Bool, true, false, not, ◌&&◌, arith,
}

pub record Position : Type 0 where
  pub row : ℤ
  pub col : ℤ

-- The default constructor: (-1, -1), outside every board.
abbrev pub no_position : Position
no_position = record { row = negsuc 0; col = negsuc 0 }

abbrev pub position : ℤ → ℤ → Position
position r c = record { row = r; col = c }

-- `operator==`.
unfoldable pub pos_eq : Position → Position → Bool
pos_eq p q = eq_ℤ p.row q.row && eq_ℤ p.col q.col

-- `operator!=`.
abbrev pub pos_ne : Position → Position → Bool
pos_ne p q = not (pos_eq p q)

pub pos_eq→eq : (p q : Position) → pos_eq p q ≡ true → p ≡ q
unfolding pos_eq
pos_eq→eq p q h = ground (arith, eq_ℤ_iff p.row q.row, eq_ℤ_iff p.col q.col)

pub pos_eq_refl : (p : Position) → pos_eq p p ≡ true
unfolding pos_eq
pos_eq_refl p = ground (arith, eq_ℤ_refl p.row, eq_ℤ_refl p.col)

-- `operator==` decides equality.
pub pos_eq_iff : (p q : Position) → (pos_eq p q ≡ true) ↔ (p ≡ q)
pos_eq_iff p q = (pos_eq→eq p q, λ e. ground (arith, pos_eq_refl q))

pub pos_ne→ne : (p q : Position) → pos_eq p q ≡ false → p ≢ q
pos_ne→ne p q h e = ground (arith, pos_eq_refl q)
