-- ===== src/TextBoard/Rows.antt =====
-- What placing all tokens of BoardParser.cpp makes of the printed board.
use ctd_tamar.Common.{
  ℕ, zero, suc, ◌+◌, ◌-◌, ◌≤◌, ◌<◌, ◌≡◌, refl, ◌∙◌, ◌&&◌, List, [], ◌∷◌, ◌==◌, ==_iff, &&-eq-true,
  leb→le, leb, length, All, if◌then◌else◌, Bool-cases, inl, inr, arith,
}
use ctd_tamar.TextBoard.Tokens.{empty_cell}
use ctd_tamar.TextBoard.Parser.{Placing, place_token, place_row, place_rows}
use ctd_tamar.TextBoard.Printer.{cell_text}
use ctd_tamar.TextBoard.Errors.{IsToken, IsRow}
use ctd_tamar.TextBoard.Placing.{IsFresh, place_token-Placed, if-same}

-- The token in a column of a row, a point beyond its end.
abbrev pub token_at : List (List ℕ) → ℕ → List ℕ
token_at [] n = empty_cell
token_at (t ∷ ts) zero = t
token_at (t ∷ ts) (suc n) = token_at ts n

pub token_at-first :
    (t : List ℕ) (ts : List (List ℕ)) (c col : ℕ) → c ≡ col → token_at (t ∷ ts) (c - col) ≡ t
token_at-first t ts c col e = let z : c - col ≡ 0 = omega arith in rw z refl

pub token_at-later :
    (t : List ℕ) (ts : List (List ℕ)) (c col : ℕ)
    → col < c
    → token_at (t ∷ ts) (c - col) ≡ token_at ts (c - suc col)
token_at-later t ts c col l = let z : c - col ≡ suc (c - suc col) = omega arith in rw z refl

-- A row of tokens stands from a column on, in a row that was empty there.
abbrev pub PlacedRow : ℕ → ℕ → List (List ℕ) → Placing → Placing → Type 0
PlacedRow row col ts p q =
    ((r c : ℕ)
      → cell_text q.0 r c
        ≡ (if (r == row) && leb col c then token_at ts (c - col) else cell_text p.0 r c))
    × (q.0.1.height ≡ p.0.1.height)
    × (q.0.1.width ≡ p.0.1.width)
    × IsFresh q

next_token :
    (t : List ℕ) (ts : List (List ℕ)) (r row c col : ℕ) (x y z : List ℕ)
    → x ≡ (if (r == row) && leb (suc col) c then token_at ts (c - suc col) else y)
    → y ≡ (if (r == row) && (c == col) then t else z)
    → x ≡ (if (r == row) && leb col c then token_at (t ∷ ts) (c - col) else z)
next_token t ts r row c col x y z e f =
    ground (arith, token_at-first t ts c col, token_at-later t ts c col)

place_row-Placed :
    (row col : ℕ) (ts : List (List ℕ)) (p : Placing)
    → All IsToken ts
    → IsFresh p
    → row < p.0.1.height
    → col + length ts ≤ p.0.1.width
    → ((c : ℕ) → col ≤ c → cell_text p.0 row c ≡ empty_cell)
    → PlacedRow row col ts p (place_row row col ts p)
unfolding place_row
place_row-Placed row col [] p a f hr hw empty = (
  λ r c. if-same ((r == row) && leb col c) empty_cell (cell_text p.0 r c) (λ e.
      let both = &&-eq-true (r == row) (leb col c) e in
      rw ((==_iff r row).0 both.0) (empty c (leb→le col c both.1))),
  refl,
  refl,
  f,
)
place_row-Placed row col (t ∷ ts) p a f hr hw empty =
    let q = place_token row col t p in
    let one = place_token-Placed row col t p a.0 f hr (omega arith) (empty col (omega arith)) in
    let rest =
      place_row-Placed row (suc col) ts q a.1 one.3 (rw one.1 hr) (rw one.2 (omega arith))
        (λ c l. one.0 row c ∙ ground (arith, empty c)) in
    (
      λ r c. next_token t ts r row c col _ _ _ (rest.0 r c) (one.0 r c),
      rest.1 ∙ one.1,
      rest.2 ∙ one.2,
      rest.3,
    )

-- The row of a number, without tokens beyond the last one.
abbrev pub row_at : List (List (List ℕ)) → ℕ → List (List ℕ)
row_at [] n = []
row_at (row ∷ rows) zero = row
row_at (row ∷ rows) (suc n) = row_at rows n

pub row_at-first :
    (ts : List (List ℕ)) (rows : List (List (List ℕ))) (r row : ℕ)
    → r ≡ row
    → row_at (ts ∷ rows) (r - row) ≡ ts
row_at-first ts rows r row e = let z : r - row ≡ 0 = omega arith in rw z refl

pub row_at-later :
    (ts : List (List ℕ)) (rows : List (List (List ℕ))) (r row : ℕ)
    → row < r
    → row_at (ts ∷ rows) (r - row) ≡ row_at rows (r - suc row)
row_at-later ts rows r row l = let z : r - row ≡ suc (r - suc row) = omega arith in rw z refl

abbrev pub PlacedRows : ℕ → List (List (List ℕ)) → Placing → Placing → Type 0
PlacedRows row rows p q =
    ((r c : ℕ)
      → cell_text q.0 r c
        ≡ (if leb row r then token_at (row_at rows (r - row)) c else cell_text p.0 r c))
    × (q.0.1.height ≡ p.0.1.height)
    × (q.0.1.width ≡ p.0.1.width)

next_row :
    (ts : List (List ℕ)) (rows : List (List (List ℕ))) (r row c : ℕ) (x y z : List ℕ)
    → x ≡ (if leb (suc row) r then token_at (row_at rows (r - suc row)) c else y)
    → y ≡ (if (r == row) && leb 0 c then token_at ts (c - 0) else z)
    → x ≡ (if leb row r then token_at (row_at (ts ∷ rows) (r - row)) c else z)
next_row ts rows r row c x y z e f =
    let same : c - 0 ≡ c = omega arith in
    elim (Bool-cases (r == row)) [
      | inl h ↦ let at = (==_iff r row).0 h in ground (arith, row_at-first ts rows r row at, same)
      | inr h ↦ ground (arith, row_at-later ts rows r row)
    ]

pub place_rows-Placed :
    (width row : ℕ) (rows : List (List (List ℕ))) (p : Placing)
    → All (IsRow width) rows
    → IsFresh p
    → p.0.1.width ≡ width
    → row + length rows ≤ p.0.1.height
    → ((r c : ℕ) → row ≤ r → cell_text p.0 r c ≡ empty_cell)
    → PlacedRows row rows p (place_rows row rows p)
unfolding place_rows
place_rows-Placed width row [] p a f w hh empty = (
  λ r c. if-same (leb row r) empty_cell (cell_text p.0 r c) (λ e. empty r c (leb→le row r e)),
  refl,
  refl,
)
place_rows-Placed width row (ts ∷ rows) p a f w hh empty =
    let q = place_row row 0 ts p in
    let one =
      place_row-Placed row 0 ts p a.0.1 f (omega arith) (omega (arith, a.0.0, w))
        (λ c l. empty row c (omega arith)) in
    let rest =
      place_rows-Placed width (suc row) rows q a.1 one.3 (one.2 ∙ w) (rw one.1 (omega arith))
        (λ r c l. one.0 r c ∙ ground (arith, empty r c)) in
    (λ r c. next_row ts rows r row c _ _ _ (rest.0 r c) (one.0 r c), rest.1 ∙ one.1, rest.2 ∙ one.2)
