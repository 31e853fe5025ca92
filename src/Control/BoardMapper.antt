-- ===== src/Control/BoardMapper.antt =====
-- server/chess_server/src/IO/BoardMapper.cpp: from a pixel of the window to a cell of the board.
-- The quotients are those of numbers that are not negative, and nothing wraps.
use ctd_tamar.Common.{
  ℕ, ◌+◌, ◌*◌, ◌/◌, ◌<◌, ℤ, pos, pos_part, ◌-ℤ◌, leb_ℤ, ltb_ℤ, ◌≡◌, true, ◌||◌, not, Option, none,
  some, if◌then◌else◌, arith, ap, ◌∙◌, sym, subst,
}
use native.Mathlib.Nat.{mul-add-div_right, div-lt_iff_lt-mul, div-eq_of_lt, add-zero}
use ctd_tamar.Core.Position.{Position, position}
use ctd_tamar.Core.Board.{Board, is_inside, is_inside_iff}
use ctd_tamar.Core.Results.{cell_size}

-- The geometry of the board on the window.
pub record Geometry : Type 0 where
  pub board_start_x : ℤ
  pub board_start_y : ℤ
  pub cell_size_x : ℤ
  pub cell_size_y : ℤ

abbrev pub default_geometry : Geometry
default_geometry = record {
  board_start_x = pos 0;
  board_start_y = pos 0;
  cell_size_x = pos cell_size;
  cell_size_y = pos cell_size;
}

-- The cell of a pixel that lies on the board, by its distance from the board's corner.
abbrev pub cell_at : Board → ℕ → ℕ → ℕ → ℕ → Option Position
cell_at b x y sx sy =
    let p = position (pos (y / sy)) (pos (x / sx)) in
    if leb_ℤ (pos (b.width * sx)) (pos x) || leb_ℤ (pos (b.height * sy)) (pos y)
    then none
    else (if not (is_inside b p) then none else some p)

unfoldable pub pixel_to_cell : ℤ → ℤ → Board → Geometry → Option Position
pixel_to_cell x y b geo =
    let relative_x = x -ℤ geo.board_start_x in
    let relative_y = y -ℤ geo.board_start_y in
    if leb_ℤ geo.cell_size_x (pos 0) || leb_ℤ geo.cell_size_y (pos 0)
    then none
    else (if ltb_ℤ relative_x (pos 0) || ltb_ℤ relative_y (pos 0)
        then none
        else cell_at b (pos_part relative_x) (pos_part relative_y) (pos_part geo.cell_size_x)
            (pos_part geo.cell_size_y))

-- A distance within the n-th cell of `count` cells: its cell is the n-th, and it lies before the end.
in_cell :
    (n size d count : ℕ)
    → n < count
    → d < size
    → ((n * size + d) / size ≡ n) × (n * size + d < count * size)
in_cell n size d count hn hd =
    let some_size : 0 < size = omega (arith, hd) in
    let quotient : (n * size + d) / size ≡ n =
      mul-add-div_right some_size n d ∙ ap (λ (q : ℕ). n + q) (div-eq_of_lt hd) ∙ add-zero n in
    (
      quotient,
      (div-lt_iff_lt-mul {k = size} {x = n * size + d} {y = count} some_size).0
          (subst (λ q. q < count) (sym quotient) hn),
    )

from_start : (start x : ℕ) → pos (start + x) -ℤ pos start ≡ pos x
unfolding ◌-ℤ◌
from_start start x = ground arith

-- Every pixel of a cell of the board is mapped to that cell, in any geometry whose cells are not
-- empty and whose board starts on the window.
pub pixel_to_cell-of_cell :
    (b : Board) (start_x start_y sx sy row col dx dy : ℕ)
    → row < b.height
    → col < b.width
    → dx < sx
    → dy < sy
    → pixel_to_cell (pos (start_x + (col * sx + dx))) (pos (start_y + (row * sy + dy))) b (record {
      board_start_x = pos start_x;
      board_start_y = pos start_y;
      cell_size_x = pos sx;
      cell_size_y = pos sy;
    })
      ≡ some (position (pos row) (pos col))
unfolding pixel_to_cell
pixel_to_cell-of_cell b start_x start_y sx sy row col dx dy hr hc hx hy =
    let across = in_cell col sx dx b.width hc hx in
    let down = in_cell row sy dy b.height hr hy in
    rw
      (
        from_start start_x (col * sx + dx),
        from_start start_y (row * sy + dy),
        across.0,
        down.0,
        (is_inside_iff b (position (pos row) (pos col))).1 (ground arith),
      )
      (ground (arith, across.1, down.1))

-- A pixel that is mapped is mapped to a cell of the board.
pub pixel_to_cell-inside :
    (x y : ℤ) (b : Board) (geo : Geometry) (p : Position)
    → pixel_to_cell x y b geo ≡ some p
    → is_inside b p ≡ true
unfolding pixel_to_cell
pixel_to_cell-inside x y b geo p h = ground arith
