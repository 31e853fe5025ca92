-- ===== src/Client/Cells.antt =====
-- `mapClickToCell` of NetworkController.cpp: which pixels belong to a cell.
use ctd_tamar.Common.{
  ℕ, ◌+◌, ◌*◌, ◌/◌, ◌%◌, ◌<◌, ℤ, pos, negsuc, ◌+ℤ◌, ◌-ℤ◌, ◌≡◌, ◌↔◌, refl, sym, ap, ◌∙◌, some, arith,
  +ℤ_parts, -ℤ_parts, eq_of_parts,
}
use native.Mathlib.Nat.{mul-add-div_right, div-eq_of_lt, add-zero, mod-add-div', mod-lt}
use ctd_tamar.Core.Position.{Position, position}
use ctd_tamar.Client.NetworkController.{NetworkController, map_click_to_cell, cell_of}

-- The pixel lies in the k-th of `count` stretches of this size.
abbrev pub LiesIn : ℤ → ℕ → ℕ → ℤ → ℕ → Type 0
LiesIn start size count p k = (k < count) × (d : ℕ) × (d < size) × (p ≡ start +ℤ pos (k * size + d))

-- The pixel lies in the cell: in its column and in its row.
abbrev pub Covers : NetworkController → Position → ℤ → ℤ → Type 0
Covers n cell x y =
    (row : ℕ) × (col : ℕ) × (cell ≡ position (pos row) (pos col))
    × LiesIn n.board_start_x n.cell_size_x n.board_cols x col
    × LiesIn n.board_start_y n.cell_size_y n.board_rows y row

offset : (start p : ℤ) (k : ℕ) → (p -ℤ start ≡ pos k) ↔ (p ≡ start +ℤ pos k)
offset start p k = (
  (λ e. ground (arith, -ℤ_parts p start, +ℤ_parts start (pos k), eq_of_parts p (start +ℤ pos k))),
  (λ e. ground (arith, -ℤ_parts p start, +ℤ_parts start (pos k), eq_of_parts (p -ℤ start) (pos k))),
)

-- The distance of the pixel from the start, and the stretch that the division gives.
abbrev Divides : ℕ → ℕ → ℤ → ℕ → Type 0
Divides size count u k = (l : ℕ) × (u ≡ pos l) × (l / size ≡ k) × (k < count)

lies_iff :
    (start : ℤ) (size count : ℕ) (p : ℤ) (k : ℕ)
    → 0 < size
    → Divides size count (p -ℤ start) k ↔ LiesIn start size count p k
lies_iff start size count p k hs = (
  (λ (l, e, q, h).
      let parts : k * size + l % size ≡ l =
        ap (λ (i : ℕ). i * size + l % size) (sym q) ∙ omega (arith, mod-add-div' l size) in
      (
        h,
        l % size,
        mod-lt l hs,
        (offset start p l).0 e ∙ ap (λ (i : ℕ). start +ℤ pos i) (sym parts),
      )),
  (λ (h, d, hd, e). (
    k * size + d,
    (offset start p (k * size + d)).1 e,
    mul-add-div_right hs k d ∙ ap (λ (q : ℕ). k + q) (div-eq_of_lt hd) ∙ add-zero k,
    h,
  )),
)

cell_of-Divides :
    (n : NetworkController) (u v : ℤ) (cell : Position)
    → cell_of u v n ≡ some cell
    → (row : ℕ) × (col : ℕ) × (cell ≡ position (pos row) (pos col))
      × Divides n.cell_size_x n.board_cols u col
      × Divides n.cell_size_y n.board_rows v row
cell_of-Divides n (pos l) (pos m) cell h = (
  m / n.cell_size_y,
  l / n.cell_size_x,
  ground arith,
  (l, refl, refl, ground arith),
  (m, refl, refl, ground arith),
)
cell_of-Divides n (pos l) (negsuc m) cell h = absurd (ground arith)
cell_of-Divides n (negsuc l) v cell h = absurd (ground arith)

Divides-cell_of :
    (n : NetworkController) (u v : ℤ) (row col : ℕ)
    → Divides n.cell_size_x n.board_cols u col
    → Divides n.cell_size_y n.board_rows v row
    → cell_of u v n ≡ some (position (pos row) (pos col))
Divides-cell_of n u v row col (l, eu, ql, hl) (m, ev, qm, hm) = rw (eu, ev, ql, qm) (ground arith)

-- With cells that are not empty, a click is mapped to a cell exactly if its pixel lies in it: in one
-- of the board's columns and in one of its rows, each of the size of a cell, from where the board
-- starts. This holds for pixels off the window, too.
pub map_click_to_cell_iff :
    (n : NetworkController) (x y : ℤ) (cell : Position)
    → 0 < n.cell_size_x
    → 0 < n.cell_size_y
    → (map_click_to_cell x y n ≡ some cell) ↔ Covers n cell x y
unfolding map_click_to_cell
map_click_to_cell_iff n x y cell hx hy = (
  (λ h.
      let (row, col, e, a, b) =
        cell_of-Divides n (x -ℤ n.board_start_x) (y -ℤ n.board_start_y) cell h in
      (
        row,
        col,
        e,
        (lies_iff n.board_start_x n.cell_size_x n.board_cols x col hx).0 a,
        (lies_iff n.board_start_y n.cell_size_y n.board_rows y row hy).0 b,
      )),
  (λ (row, col, e, a, b).
      Divides-cell_of n (x -ℤ n.board_start_x) (y -ℤ n.board_start_y) row col
        ((lies_iff n.board_start_x n.cell_size_x n.board_cols x col hx).1 a)
        ((lies_iff n.board_start_y n.cell_size_y n.board_rows y row hy).1 b)
      ∙ ap some (sym e)),
)
