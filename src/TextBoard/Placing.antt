-- ===== src/TextBoard/Placing.antt =====
-- What placing one token of BoardParser.cpp changes on the printed board.
use ctd_tamar.Common.{
  ℕ, suc, ◌<◌, pos, ◌≡◌, refl, sym, ◌∙◌, ap, Bool, true, false, ◌&&◌, Option, none, some, List, [],
  ◌∷◌, ◌==◌, ==_refl, ==_iff, &&-eq-true, if-cases, if◌then◌else◌, Option-cases, inl, inr,
  same_text, arith,
}
use ctd_tamar.Core.Position.{Position, position, pos_eq}
use ctd_tamar.Core.Piece.{
  Piece, PieceColor, PieceKind, token, color_to_char, kind_to_char, from_char-to_char,
}
use ctd_tamar.Core.Piece
use ctd_tamar.Core.Board.{Heap, Board, is_inside, get_piece_at, place_piece, is_empty}
use ctd_tamar.Core.Board.Laws.{place_piece_lem}
use ctd_tamar.Server.Setup.{place_new}
use ctd_tamar.TextBoard.Tokens.{empty_cell}
use ctd_tamar.TextBoard.Parser.{Placing, place_token}
use ctd_tamar.TextBoard.Printer.{cell_text}
use ctd_tamar.TextBoard.Errors.{IsToken}

-- The board holds no address from the next one on.
abbrev pub IsFresh : Placing → Type 0
IsFresh (s, id) = (p : Position) (r : ℕ) → get_piece_at s.1 p ≡ some r → r < id

-- The token stands on one more cell, and the others are as they were.
abbrev pub Placed : ℕ → ℕ → List ℕ → Placing → Placing → Type 0
Placed row col t p q =
    ((r c : ℕ) → cell_text q.0 r c ≡ (if (r == row) && (c == col) then t else cell_text p.0 r c))
    × (q.0.1.height ≡ p.0.1.height)
    × (q.0.1.width ≡ p.0.1.width)
    × IsFresh q

cell_text-none :
    (s : Heap × Board) (r c : ℕ)
    → get_piece_at s.1 (position (pos r) (pos c)) ≡ none
    → cell_text s r c ≡ empty_cell
unfolding cell_text
cell_text-none s r c e = rw (e, cell_text) refl

cell_text-some :
    (s : Heap × Board) (r c q : ℕ)
    → get_piece_at s.1 (position (pos r) (pos c)) ≡ some q
    → cell_text s r c ≡ token (s.0 q)
unfolding cell_text
cell_text-some s r c q e = rw (e, cell_text) refl

token-ne-empty : (p : Piece) → token p ≡ empty_cell → ⊥
unfolding token
token-ne-empty p e = ground arith

-- A cell that is printed as a point is empty.
no_piece :
    (s : Heap × Board) (r c : ℕ)
    → cell_text s r c ≡ empty_cell
    → get_piece_at s.1 (position (pos r) (pos c)) ≡ none
no_piece s r c e = elim (Option-cases (get_piece_at s.1 (position (pos r) (pos c)))) [
  | inl n ↦ n
  | inr (q, h) ↦ absurd (token-ne-empty (s.0 q) (sym (cell_text-some s r c q h) ∙ e))
]

inside :
    (b : Board) (r c : ℕ)
    → r < b.height
    → c < b.width
    → is_inside b (position (pos r) (pos c)) ≡ true
unfolding is_inside
inside b r c hr hc = ground arith

is_empty-none : (b : Board) (p : Position) → get_piece_at b p ≡ none → is_empty b p ≡ true
unfolding is_empty
is_empty-none b p e = ground arith

lt→ne : (i id : ℕ) → i < id → (i == id) ≡ false
lt→ne i id h = ground arith

pos_eq-pos :
    (r c row col : ℕ)
    → pos_eq (position (pos r) (pos c)) (position (pos row) (pos col)) ≡ ((r == row) && (c == col))
unfolding pos_eq
pos_eq-pos r c row col = ground arith

module _ (row col id : ℕ) (b : Board) (hr : row < b.height) (hc : col < b.width)
    (free : get_piece_at b (position (pos row) (pos col)) ≡ none) where
  abbrev target : Position
  target = position (pos row) (pos col)

  placed : (place_piece target id b).1 ≡ true
  placed = ground (
    arith,
    place_piece_lem b target target id,
    inside b row col hr hc,
    is_empty-none b target free,
  )

  get_piece_at-placed :
      (p : Position)
      → get_piece_at (place_piece target id b).0 p
        ≡ (if pos_eq p target then some id else get_piece_at b p)
  get_piece_at-placed p =
      (place_piece_lem b target p id).1
      ∙ ap (λ (x : Bool). if x && pos_eq p target then some id else get_piece_at b p) placed

not_point : (c : PieceColor) → (color_to_char c == b'.') ≡ false
unfolding color_to_char
not_point c = ground arith

fresh_step :
    (b : Bool) (id r : ℕ) (o : Option ℕ)
    → (if b then some id else o) ≡ some r
    → (o ≡ some r → r < id)
    → r < suc id
fresh_step true id r o e h = ground arith
fresh_step false id r o e h = let l = h e in omega arith

place_piece-size :
    (p : Position) (r : ℕ) (b : Board)
    → ((place_piece p r b).0.height ≡ b.height) × ((place_piece p r b).0.width ≡ b.width)
unfolding place_piece
place_piece-size p r b = ground arith

module _ (row col id : ℕ) (c : PieceColor) (k : PieceKind) (s : Heap × Board)
    (fresh : IsFresh (s, id)) (hr : row < s.1.height) (hc : col < s.1.width)
    (free : get_piece_at s.1 (position (pos row) (pos col)) ≡ none) where
  abbrev after : Heap × Board
  after = place_new row col c k id s

  text_there :
      (r q : ℕ)
      → ((r == row) && (q == col)) ≡ true
      → cell_text after r q ≡ color_to_char c ∷ kind_to_char k ∷ []
  unfolding token Piece.new
  text_there r q e =
      let found : get_piece_at after.1 (position (pos r) (pos q)) ≡ some id =
        get_piece_at-placed row col id s.1 hr hc free (position (pos r) (pos q))
        ∙ rw (pos_eq-pos r q row col, e) refl in
      cell_text-some after r q id found ∙ rw (==_refl id) refl

  text_elsewhere :
      (r q : ℕ) → ((r == row) && (q == col)) ≡ false → cell_text after r q ≡ cell_text s r q
  text_elsewhere r q e =
      let same : get_piece_at after.1 (position (pos r) (pos q))
          ≡ get_piece_at s.1 (position (pos r) (pos q)) =
        get_piece_at-placed row col id s.1 hr hc free (position (pos r) (pos q))
        ∙ rw (pos_eq-pos r q row col, e) refl in
      elim (Option-cases (get_piece_at s.1 (position (pos r) (pos q)))) [
        | inl n ↦ cell_text-none after r q (same ∙ n) ∙ sym (cell_text-none s r q n)
        | inr (i, h) ↦
            cell_text-some after r q i (same ∙ h)
            ∙ rw (lt→ne i id (fresh (position (pos r) (pos q)) i h))
                (sym (cell_text-some s r q i h))
      ]

  still-IsFresh : IsFresh (after, suc id)
  still-IsFresh p r h =
      let target = position (pos row) (pos col) in
      fresh_step (pos_eq p target) id r (get_piece_at s.1 p)
        (sym (get_piece_at-placed row col id s.1 hr hc free p) ∙ h) (fresh p r)

-- The text of a piece.
abbrev letters : PieceColor → PieceKind → List ℕ
letters c k = color_to_char c ∷ kind_to_char k ∷ []

place_token-letters :
    (row col : ℕ) (c : PieceColor) (k : PieceKind) (p : Placing)
    → place_token row col (letters c k) p ≡ (place_new row col c k p.1 p.0, suc p.1)
unfolding place_token same_text
place_token-letters row col c k p =
    let same = from_char-to_char c k in rw (not_point c, same.0, same.1) refl

pub if-same : (b : Bool) (x y : List ℕ) → (b ≡ true → y ≡ x) → y ≡ (if b then x else y)
if-same true x y h = h refl
if-same false x y h = refl

cell_text-at :
    (s : Heap × Board) (r c row col : ℕ)
    → ((r == row) && (c == col)) ≡ true
    → cell_text s r c ≡ cell_text s row col
cell_text-at s r c row col e =
    let both = &&-eq-true (r == row) (c == col) e in
    rw ((==_iff r row).0 both.0, (==_iff c col).0 both.1) refl

pub place_token-Placed :
    (row col : ℕ) (t : List ℕ) (p : Placing)
    → IsToken t
    → IsFresh p
    → row < p.0.1.height
    → col < p.0.1.width
    → cell_text p.0 row col ≡ empty_cell
    → Placed row col t p (place_token row col t p)
unfolding place_token same_text
place_token-Placed row col t p (inl e) f hr hc empty = rw e (
  λ r c.
      if-same ((r == row) && (c == col)) empty_cell (cell_text p.0 r c)
        (λ at. cell_text-at p.0 r c row col at ∙ empty),
  refl,
  refl,
  f,
)
place_token-Placed row col t p (inr (c, k, e)) f hr hc empty =
    let free = no_piece p.0 row col empty in
    let size = place_piece-size (position (pos row) (pos col)) p.1 p.0.1 in
    rw (e, place_token-letters row col c k p)
      (
        λ r q.
            if-cases (λ (x : List ℕ). cell_text (place_new row col c k p.1 p.0) r q ≡ x)
              ((r == row) && (q == col)) (letters c k) (cell_text p.0 r q)
              (text_there row col p.1 c k p.0 f hr hc free r q)
              (text_elsewhere row col p.1 c k p.0 f hr hc free r q),
        size.0,
        size.1,
        still-IsFresh row col p.1 c k p.0 f hr hc free,
      )
