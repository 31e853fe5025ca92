-- ===== src/Rules/Clear.antt =====
-- The path loop of server/chess_server/src/Rules/PieceRules.cpp against the cells of the line.
use ctd_tamar.Common.{
  ℕ, zero, suc, ◌+◌, ◌-◌, ◌<◌, ℤ, pos, negsuc, pos_part, neg_part, ◌+ℤ◌, ◌-ℤ◌, +ℤ_parts, -ℤ_parts,
  one_sign, eq_ℤ_iff, eq_of_parts, abs, ◌≡◌, refl, ap, ◌≢◌, ◌↔◌, ◌⊎◌, inl, inr, Bool, true, none,
  false, ◌&&◌, some, arith, eq_ℤ, Bool-cases, int_laws,
}
use native.Mathlib.Decide.{ℕ_discrete}
use ctd_tamar.Core.Position.{Position, position}
use ctd_tamar.Core.Board.{Board, is_empty}
use ctd_tamar.Rules.Path.{step_of, walk, distance, path_result, is_path_clear}

-- `n` steps of `s` lead from `a` to `b` along one coordinate.
abbrev Along : ℕ → ℤ → ℤ → ℤ → Type 0
Along n a b s =
    ((s ≡ pos 0) × (a ≡ b))
    ⊎ ((s ≡ pos 1) × (pos_part b + neg_part a ≡ pos_part a + neg_part b + n))
    ⊎ ((s ≡ negsuc 0) × (pos_part a + neg_part b ≡ pos_part b + neg_part a + n))

Along-suc : (n : ℕ) (a b s : ℤ) → Along (suc n) a b s → Along n (a +ℤ s) b s
Along-suc n a b s h = ground (arith, +ℤ_parts a s, eq_of_parts (a +ℤ s) b)

Along-zero : (a b s : ℤ) → Along zero a b s → a ≡ b
Along-zero a b s h = ground (arith, eq_of_parts a b)

Along-ne : (n : ℕ) (a b s : ℤ) → s ≢ pos 0 → Along (suc n) a b s → eq_ℤ a b ≡ false
Along-ne n a b s nz h = ground arith

-- The cell `k` steps on.
abbrev pub ray : ℕ → (row_step col_step row col : ℤ) → Position
ray zero rs cs r c = position r c
ray (suc k) rs cs r c = ray k rs cs (r +ℤ rs) (c +ℤ cs)

-- The first `n` cells from (row, col) on are empty.
clear_cells : ℕ → Board → (row_step col_step row col : ℤ) → Bool
clear_cells zero b rs cs r c = true
clear_cells (suc n) b rs cs r c =
    is_empty b (position r c) && clear_cells n b rs cs (r +ℤ rs) (c +ℤ cs)

clear_cells-head :
    (n : ℕ) (b : Board) (rs cs r c : ℤ)
    → clear_cells (suc n) b rs cs r c ≡ true
    → (clear_cells n b rs cs (r +ℤ rs) (c +ℤ cs) ≡ true
        → (k : ℕ) → k < n
        → is_empty b (ray k rs cs (r +ℤ rs) (c +ℤ cs)) ≡ true)
    → (k : ℕ) → k < suc n
    → is_empty b (ray k rs cs r c) ≡ true
unfolding clear_cells
clear_cells-head n b rs cs r c h rest zero lt = ground arith
clear_cells-head n b rs cs r c h rest (suc k) lt = rest (ground arith) k (omega arith)

clear_cells_iff :
    (n : ℕ) (b : Board) (rs cs r c : ℤ)
    → (clear_cells n b rs cs r c ≡ true) ↔ ((k : ℕ) → k < n → is_empty b (ray k rs cs r c) ≡ true)
unfolding clear_cells
clear_cells_iff zero b rs cs r c = (λ _ k h. absurd (omega arith), λ _. refl)
clear_cells_iff (suc n) b rs cs r c =
    let rest = clear_cells_iff n b rs cs (r +ℤ rs) (c +ℤ cs) in
    (
      λ h k lt. clear_cells-head n b rs cs r c h rest.0 k lt,
      λ h. ground (arith, h 0, rest.1 (λ k lt. h (suc k) (omega arith))),
    )

-- With more fuel than steps the loop ends, and tells whether the cells on the way are empty.
walk-total :
    (n fuel : ℕ) (b : Board) (tr tc rs cs r c : ℤ)
    → n < fuel
    → (rs ≢ pos 0) ⊎ (cs ≢ pos 0)
    → Along n r tr rs
    → Along n c tc cs
    → walk fuel b tr tc rs cs r c ≡ some (clear_cells n b rs cs r c)
unfolding walk clear_cells
walk-total n zero b tr tc rs cs r c h nz ar ac = absurd (omega arith)
walk-total zero (suc fuel) b tr tc rs cs r c h nz ar ac =
    ground (arith, Along-zero r tr rs, Along-zero c tc cs, eq_ℤ_iff r tr, eq_ℤ_iff c tc)
walk-total (suc n) (suc fuel) b tr tc rs cs r c h nz ar ac = ground (
  arith,
  Along-ne n r tr rs,
  Along-ne n c tc cs,
  walk-total n fuel b tr tc rs cs (r +ℤ rs) (c +ℤ cs) (omega arith) nz (Along-suc n r tr rs ar)
      (Along-suc n c tc cs ac),
)

-- The two cells are different and lie on one row, column or diagonal.
abbrev pub IsLine : Position → Position → Type 0
IsLine s d =
    (s ≢ d) × ((s.row ≡ d.row) ⊎ (s.col ≡ d.col) ⊎ (abs (d.row -ℤ s.row) ≡ abs (d.col -ℤ s.col)))

Along-step_of : (a b : ℤ) (n : ℕ) → (a ≡ b) ⊎ (abs (b -ℤ a) ≡ n) → Along n a b (step_of a b)
unfolding step_of
Along-step_of a b n h = ground (arith, -ℤ_parts b a, one_sign (b -ℤ a), eq_of_parts a b)

step_of_ne : (a b : ℤ) → a ≢ b → step_of a b ≢ pos 0
unfolding step_of
step_of_ne a b h = ground (arith, eq_of_parts a b)

parts_zero : (a b : ℤ) → abs (b -ℤ a) ≡ 0 → a ≡ b
parts_zero a b h = omega int_laws

distance_self : (a : ℤ) → abs (a -ℤ a) ≡ 0
distance_self a = omega int_laws

-- On a line each coordinate stays, or changes by the whole distance.
line_steps :
    (s d : Position)
    → IsLine s d
    → ((s.row ≡ d.row) ⊎ (abs (d.row -ℤ s.row) ≡ distance s d))
      × ((s.col ≡ d.col) ⊎ (abs (d.col -ℤ s.col) ≡ distance s d))
unfolding distance
line_steps s d (ne, inl e) = (inl e, inr (omega (int_laws, ap pos_part e, ap neg_part e)))
line_steps s d (ne, inr (inl e)) = (inr (omega (int_laws, ap pos_part e, ap neg_part e)), inl e)
line_steps s d (ne, inr (inr e)) = (inr (omega arith), inr (omega arith))

distance-pos : (s d : Position) → s ≢ d → 0 < distance s d
unfolding distance
distance-pos s d ne = elim (ℕ_discrete (distance s d) 0) [
  | yes e ↦ absurd (
      ne (λ i. record {
        row = parts_zero s.row d.row (omega arith) i;
        col = parts_zero s.col d.col (omega arith) i;
      }))
  | no n ↦ omega arith
]

line_moves :
    (s d : Position) → s ≢ d → (step_of s.row d.row ≢ pos 0) ⊎ (step_of s.col d.col ≢ pos 0)
line_moves s d ne = elim (Bool-cases (eq_ℤ s.row d.row)) [
  | inr e ↦ inl (step_of_ne s.row d.row (λ p. ground (arith, eq_ℤ_iff s.row d.row)))
  | inl e ↦ inr (
      step_of_ne s.col d.col
        (λ p. ne (λ i. record { row = (eq_ℤ_iff s.row d.row).0 e i; col = p i })))
]

-- The cell `k` steps from `s` towards `d`.
abbrev pub cell_between : Position → Position → ℕ → Position
cell_between s d k = ray k (step_of s.row d.row) (step_of s.col d.col) s.row s.col

-- On a line the loop ends within its fuel, with the emptiness of the cells strictly between.
path_result-clear_cells :
    (b : Board) (s d : Position)
    → IsLine s d
    → path_result b s d
      ≡ some (
          clear_cells
            (distance s d - 1)
            b
            (step_of s.row d.row)
            (step_of s.col d.col)
            (s.row +ℤ step_of s.row d.row)
            (s.col +ℤ step_of s.col d.col))
unfolding path_result
path_result-clear_cells b s d l =
    let steps = line_steps s d l in
    let n : ℕ = distance s d in
    let e : n ≡ suc (n - 1) = omega (arith, distance-pos s d l.0) in
    walk-total (n - 1) (suc n) b d.row d.col _ _ _ _ (omega arith) (line_moves s d l.0)
      (Along-suc (n - 1) s.row d.row _ (rw (← e) (Along-step_of s.row d.row n steps.0)))
      (Along-suc (n - 1) s.col d.col _ (rw (← e) (Along-step_of s.col d.col n steps.1)))

-- Counting the cells between from the first of them.
from_first {ℓ} :
    (P : ℕ → Type ℓ) (n : ℕ) → ((k : ℕ) → k < n - 1 → P (suc k)) → (k : ℕ) → 0 < k → k < n → P k
from_first P n h zero p q = absurd (omega arith)
from_first P n h (suc k) p q = h k (omega arith)

-- Between two cells of a row, column or diagonal the path loop ends within its fuel, and the path
-- is clear exactly when every cell strictly between them is empty.
pub is_path_clear_iff :
    (b : Board) (s d : Position)
    → IsLine s d
    → (path_result b s d ≢ none)
      × ((is_path_clear b s d ≡ true)
          ↔ ((k : ℕ) → 0 < k → k < distance s d → is_empty b (cell_between s d k) ≡ true))
unfolding is_path_clear
is_path_clear_iff b s d l =
    let e = path_result-clear_cells b s d l in
    let m =
      clear_cells_iff (distance s d - 1) b (step_of s.row d.row) (step_of s.col d.col)
        (s.row +ℤ step_of s.row d.row) (s.col +ℤ step_of s.col d.col) in
    (
      λ n. cc,
      (
        (λ c.
            from_first (λ k. is_empty b (cell_between s d k) ≡ true) (distance s d)
              (m.0 (ground (arith, e)))),
        (λ h. ground (arith, e, m.1 (λ k lt. h (suc k) (omega arith) (omega arith)))),
      ),
    )
