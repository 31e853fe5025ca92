-- ===== src/TextBoard/RoundTrip.antt =====
-- What BoardParser.cpp reads, BoardPrinter.cpp prints.
use ctd_tamar.Common.{
  ℕ, suc, ◌-◌, ◌≤◌, ◌<◌, ◌≡◌, refl, sym, ◌∙◌, ap, none, pos, some, List, [], ◌∷◌, ◌++◌, leb, length,
  All, le→leb, lt→ltb, if-true, subst, arith,
}
use ctd_tamar.Core.Position.{Position, position}
use ctd_tamar.Core.Board.{Heap, Board, get_piece_at, is_inside}
use ctd_tamar.Core.Board
use ctd_tamar.Server.Setup.{empty_heap}
use ctd_tamar.TextBoard.Tokens.{empty_cell}
use ctd_tamar.TextBoard.Parser.{Placing, place_rows, parse, parse_rows, token_rows, first_width}
use ctd_tamar.TextBoard.Printer.{cell_text, print_cells, print_rows, print}
use ctd_tamar.TextBoard.Errors.{IsRow, find_error→IsRow, parse_rows-error}
use ctd_tamar.TextBoard.Rows.{
  token_at, token_at-first, token_at-later, row_at, row_at-first, row_at-later, place_rows-Placed,
}

-- Tokens with one blank between them, and rows with a line feed after each.
abbrev pub spaced : List (List ℕ) → List ℕ
spaced [] = []
spaced (t ∷ ts) = b' ' ∷ (t ++ spaced ts)

abbrev pub join : List (List ℕ) → List ℕ
join [] = []
join (t ∷ ts) = t ++ spaced ts

abbrev pub render : List (List (List ℕ)) → List ℕ
render [] = []
render (row ∷ rows) = join row ++ (10 ∷ render rows)

print_cells-spaced :
    (s : Heap × Board) (row col : ℕ) (ts : List (List ℕ))
    → ((c : ℕ) → suc col ≤ c → cell_text s row c ≡ token_at ts (c - suc col))
    → print_cells s row (suc col) (length ts) ≡ spaced ts
unfolding print_cells
print_cells-spaced s row col [] h = refl
print_cells-spaced s row col (t ∷ ts) h =
    rw
      (
        h (suc col) (omega arith) ∙ token_at-first t ts (suc col) (suc col) refl,
        print_cells-spaced s row (suc col) ts
            (λ c l. h c (omega arith) ∙ token_at-later t ts c (suc col) l),
        lt→ltb 0 (suc col) (omega arith),
      )
      refl

print_cells-join :
    (s : Heap × Board) (row : ℕ) (ts : List (List ℕ))
    → ((c : ℕ) → cell_text s row c ≡ token_at ts c)
    → print_cells s row 0 (length ts) ≡ join ts
unfolding print_cells
print_cells-join s row [] h = refl
print_cells-join s row (t ∷ ts) h =
    rw
      (
        h 0,
        print_cells-spaced s row 0 ts (λ c l.
            let same : c ≡ c - 0 = omega arith in
            h c ∙ ap (token_at (t ∷ ts)) same ∙ token_at-later t ts c 0 l),
      )
      refl

print_rows-render :
    (s : Heap × Board) (row : ℕ) (rows : List (List (List ℕ)))
    → All (IsRow s.1.width) rows
    → ((r c : ℕ) → row ≤ r → cell_text s r c ≡ token_at (row_at rows (r - row)) c)
    → print_rows s row (length rows) ≡ render rows
unfolding print_rows
print_rows-render s row [] a h = refl
print_rows-render s row (ts ∷ rows) a h =
    rw
      (
        ap (print_cells s row 0) (sym a.0.0)
            ∙ print_cells-join s row ts (λ c.
              h row c (omega arith) ∙ ap (λ x. token_at x c) (row_at-first ts rows row row refl)),
        print_rows-render s (suc row) rows a.1
            (λ r c l. h r c (omega arith) ∙ ap (λ x. token_at x c) (row_at-later ts rows r row l)),
      )
      refl

blank : (h w r c : ℕ) → get_piece_at (Board.new h w) (position (pos r) (pos c)) ≡ none
unfolding get_piece_at Board.new
blank h w r c = ground arith

nothing : (h w : ℕ) (p : Position) (r : ℕ) → get_piece_at (Board.new h w) p ≡ some r → r < 1
unfolding get_piece_at Board.new
nothing h w p r e = absurd (ground arith)

blank_text : (h w r c : ℕ) → cell_text (empty_heap, Board.new h w) r c ≡ empty_cell
unfolding cell_text
blank_text h w r c = rw (blank h w r c, cell_text) refl

print-place_rows :
    (rows : List (List (List ℕ)))
    → All (IsRow (first_width rows)) rows
    → print (place_rows 0 rows ((empty_heap, Board.new (length rows) (first_width rows)), 1)).0
      ≡ render rows
unfolding print Board.new
print-place_rows rows a =
    let start : Placing = ((empty_heap, Board.new (length rows) (first_width rows)), 1) in
    let q = (place_rows 0 rows start).0 in
    let placed =
      place_rows-Placed (first_width rows) 0 rows start a
        (λ p r e. nothing (length rows) (first_width rows) p r e) refl (omega arith)
        (λ r c l. blank_text (length rows) (first_width rows) r c) in
    ap (print_rows q 0) placed.1
    ∙ print_rows-render q 0 rows (subst (λ w. All (IsRow w) rows) (sym placed.2) a)
        (λ r c l. placed.0 r c ∙ if-true (leb 0 r) _ _ (le→leb 0 r l))

-- A text that is read without an error is printed with its tokens as they were, one blank between
-- them and a line feed after each row; blank lines are left out.
pub print-parse :
    (lines : List (List ℕ))
    → (parse lines).1 ≡ none
    → print (parse lines).0 ≡ render (token_rows lines)
unfolding parse parse_rows
print-parse lines e =
    let rows = token_rows lines in
    let found = sym (parse_rows-error rows) ∙ e in
    rw (found, parse_rows) (print-place_rows rows (find_error→IsRow (first_width rows) rows found))
