-- ===== src/TextBoard/Parser.antt =====
-- BoardParser.cpp: `parse`, with the error that it prints. The address of a piece is its id.
use ctd_tamar.Common.{
  ℕ, suc, Bool, true, false, not, Option, none, some, List, [], ◌∷◌, ◌==◌, if◌then◌else◌,
  is_empty_list, length, same_text, map, keep_if,
}
use ctd_tamar.Core.Piece.{PieceColor, PieceKind, color_from_char, kind_from_char}
use ctd_tamar.Core.Board.{Heap, Board}
use ctd_tamar.Core.Board
use ctd_tamar.Server.Setup.{place_new, empty_heap}
use ctd_tamar.TextBoard.Tokens.{empty_cell, is_allowed_token, split_line_to_tokens}

pub data ParseError : Type 0 where
  unknown_token row_width_mismatch : ParseError

abbrev pub are_allowed : List (List ℕ) → Bool
are_allowed [] = true
are_allowed (t ∷ ts) = if not (is_allowed_token t) then false else are_allowed ts

-- The first error in a row: its width is tested before its tokens.
abbrev pub row_error : ℕ → List (List ℕ) → Option ParseError
row_error width row =
    if not (length row == width)
    then some row_width_mismatch
    else (if not (are_allowed row) then some unknown_token else none)

unfoldable pub find_error : ℕ → List (List (List ℕ)) → Option ParseError
find_error width [] = none
find_error width (row ∷ rows) = elim (row_error width row) [
  | some e ↦ some e
  | none ↦ find_error width rows
]

abbrev pub color_of_token : List ℕ → PieceColor
color_of_token [] = color_from_char 0
color_of_token (c ∷ _) = color_from_char c

abbrev pub kind_of_token : List ℕ → PieceKind
kind_of_token (_ ∷ k ∷ _) = kind_from_char k
kind_of_token _ = kind_from_char 0

-- What is placed so far, and the next id.
abbrev pub Placing : Type 0
Placing = (Heap × Board) × ℕ

unfoldable pub place_token : ℕ → ℕ → List ℕ → Placing → Placing
place_token row col token (s, id) =
    if same_text token empty_cell
    then (s, id)
    else (place_new row col (color_of_token token) (kind_of_token token) id s, suc id)

unfoldable pub place_row : ℕ → ℕ → List (List ℕ) → Placing → Placing
place_row row col [] p = p
place_row row col (t ∷ ts) p = place_row row (suc col) ts (place_token row col t p)

unfoldable pub place_rows : ℕ → List (List (List ℕ)) → Placing → Placing
place_rows row [] p = p
place_rows row (ts ∷ rows) p = place_rows (suc row) rows (place_row row 0 ts p)

abbrev pub no_board : Heap × Board
no_board = (empty_heap, Board.new 0 0)

abbrev pub first_width : List (List (List ℕ)) → ℕ
first_width [] = 0
first_width (row ∷ _) = length row

unfoldable pub token_rows : List (List ℕ) → List (List (List ℕ))
unfolding keep_if
token_rows lines =
    keep_if (λ (row : List (List ℕ)). not (is_empty_list row)) (map split_line_to_tokens lines)

unfoldable pub parse_rows : List (List (List ℕ)) → (Heap × Board) × Option ParseError
parse_rows rows = elim (find_error (first_width rows) rows) [
  | some e ↦ (no_board, some e)
  | none ↦
      ((place_rows 0 rows ((empty_heap, Board.new (length rows) (first_width rows)), 1)).0, none)
]

-- Without any row the widths are 0 too, so that the early return is no case of its own.
unfoldable pub parse : List (List ℕ) → (Heap × Board) × Option ParseError
unfolding find_error parse_rows
parse lines = parse_rows (token_rows lines)
