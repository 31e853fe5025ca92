-- ===== src/Core/Board.antt =====
-- shared/cpp/src/Core/Board.cpp, over a heap of pieces: a `shared_ptr<Piece>` is an address, and
-- the heap gives the piece that stands there, so two holders of an address see one piece.
pub mod Laws
use ctd_tamar.Common.{
  ℕ, ◌+◌, ℤ, pos, ltb_ℤ, leb_ℤ, ◌≤ℤ◌, ◌<ℤ◌, ◌≡◌, refl, ◌↔◌, ◌≢◌, Bool, true, false, not, ◌&&◌, ◌||◌,
  Option, none, some, if◌then◌else◌, ◌==◌, is_some, arith, Bool-cases, inl, inr,
}
use ctd_tamar.Core.Position.{Position, pos_eq, pos_eq→eq, pos_eq_refl, pos_ne→ne}
use ctd_tamar.Core.Piece.{Piece}

-- The address of a piece.
abbrev pub Ref : Type 0
Ref = ℕ

abbrev pub Heap : Type 0
Heap = Ref → Piece

-- A change of the piece at an address, seen through every holder of it.
unfoldable pub modify : Ref → (Piece → Piece) → Heap → Heap
modify r f h = λ q. if q == r then f (h r) else h q

-- The grid, whose cells outside the board are never read or written.
pub record Board : Type 0 where
  pub height : ℕ
  pub width : ℕ
  pub cells : Position → Option Ref

-- `Board(height, width)`: every cell is empty.
unfoldable pub new : ℕ → ℕ → Board
new h w = record { height = h; width = w; cells = λ _. none }

unfoldable pub is_inside : Board → Position → Bool
is_inside b p =
    if ltb_ℤ p.row (pos 0) || ltb_ℤ p.col (pos 0)
    then false
    else (if leb_ℤ (pos b.height) p.row
        then false
        else (if leb_ℤ (pos b.width) p.col then false else true))

unfoldable pub get_piece_at : Board → Position → Option Ref
unfolding is_inside
get_piece_at b p = if not (is_inside b p) then none else b.cells p

unfoldable pub is_empty : Board → Position → Bool
unfolding get_piece_at
is_empty b p = not (is_some (get_piece_at b p))

-- A write to one cell of the grid.
unfoldable pub write : Position → Option Ref → Board → Board
unfolding pos_eq
write p v b = record b { cells = λ q. if pos_eq q p then v else b.cells q }

unfoldable pub place_piece : Position → Ref → Board → Board × Bool
unfolding is_inside is_empty write
place_piece p r b =
    if not (is_inside b p)
    then (b, false)
    else (if not (is_empty b p) then (b, false) else (write p (some r) b, true))

unfoldable pub remove_piece : Position → Board → Board
unfolding is_inside write
remove_piece p b = if not (is_inside b p) then b else write p none b

unfoldable pub set_piece_at : Position → Ref → Board → Board
unfolding is_inside write
set_piece_at p r b = if not (is_inside b p) then b else write p (some r) b

unfoldable pub move_piece : Position → Position → Board → Board
unfolding is_inside write
move_piece s d b =
    if not (is_inside b s) || not (is_inside b d) then b else write s none (write d (b.cells s) b)

-- Inside means that both coordinates lie in the board's ranges.
pub is_inside_iff :
    (b : Board) (p : Position)
    → (is_inside b p ≡ true)
      ↔ ((pos 0 ≤ℤ p.row) × (p.row <ℤ pos b.height) × (pos 0 ≤ℤ p.col) × (p.col <ℤ pos b.width))
unfolding is_inside
is_inside_iff b p = ground arith

pub get_piece_at_outside :
    (b : Board) (p : Position) → is_inside b p ≡ false → get_piece_at b p ≡ none
unfolding get_piece_at
get_piece_at_outside b p h = rw h refl

pub get_piece_at_inside :
    (b : Board) (p : Position) {r : Ref} → get_piece_at b p ≡ some r → is_inside b p ≡ true
unfolding get_piece_at
get_piece_at_inside b p h = ground arith
