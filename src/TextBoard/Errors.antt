-- ===== src/TextBoard/Errors.antt =====
-- Which texts BoardParser.cpp refuses.
use ctd_tamar.Common.{
  ℕ, ◌≡◌, ◌↔◌, ◌⊎◌, inl, inr, refl, sym, ◌∙◌, true, none, some, List, [], ◌∷◌, ==_iff, length, All,
  Bool-cases, Option-cases, arith,
}
use ctd_tamar.Core.Piece.{
  PieceColor, PieceKind, color_to_char, kind_to_char, color_from_char, kind_from_char,
}
use ctd_tamar.TextBoard.Tokens.{empty_cell, is_allowed_token, is_color_char, is_kind_char}
use ctd_tamar.TextBoard.Parser.{
  are_allowed, find_error, first_width, token_rows, parse, parse_rows, no_board, row_error,
  ParseError,
}

-- The tokens of the notation: a point, or the letters of a colour and a kind.
abbrev pub IsToken : List ℕ → Type 0
IsToken t =
    (t ≡ empty_cell)
    ⊎ ((c : PieceColor) × (k : PieceKind) × (t ≡ color_to_char c ∷ kind_to_char k ∷ []))

color_char : (c : ℕ) → is_color_char c ≡ true → color_to_char (color_from_char c) ≡ c
unfolding color_to_char color_from_char
color_char c h = ground arith

kind_char : (k : ℕ) → is_kind_char k ≡ true → kind_to_char (kind_from_char k) ≡ k
unfolding kind_to_char kind_from_char
kind_char k h = ground arith

char_color : (c : PieceColor) → is_color_char (color_to_char c) ≡ true
unfolding color_to_char
char_color c = ground arith

char_kind : (k : PieceKind) → is_kind_char (kind_to_char k) ≡ true
unfolding kind_to_char
char_kind k = ground arith

pub allowed→IsToken : (t : List ℕ) → is_allowed_token t ≡ true → IsToken t
unfolding is_allowed_token
allowed→IsToken [] h = cc
allowed→IsToken (c ∷ []) h = inl (ground (arith, ==_iff c b'.'))
allowed→IsToken (c ∷ k ∷ []) h =
    inr (color_from_char c, kind_from_char k, ground (arith, color_char c, kind_char k))
allowed→IsToken (c ∷ k ∷ l ∷ t) h = absurd (ground arith)

IsToken→allowed : (t : List ℕ) → IsToken t → is_allowed_token t ≡ true
unfolding is_allowed_token
IsToken→allowed t (inl e) = rw e refl
IsToken→allowed t (inr (c, k, e)) = rw e (ground (arith, char_color c, char_kind k))

are_allowed→All : (ts : List (List ℕ)) → are_allowed ts ≡ true → All IsToken ts
are_allowed→All [] h = tt
are_allowed→All (t ∷ ts) h = elim (Bool-cases (is_allowed_token t)) [
  | inl y ↦ (allowed→IsToken t y, are_allowed→All ts (ground arith))
  | inr n ↦ absurd (ground arith)
]

All→are_allowed : (ts : List (List ℕ)) → All IsToken ts → are_allowed ts ≡ true
All→are_allowed [] h = refl
All→are_allowed (t ∷ ts) h = ground (arith, IsToken→allowed t h.0, All→are_allowed ts h.1)

-- A row of so many tokens.
abbrev pub IsRow : ℕ → List (List ℕ) → Type 0
IsRow width row = (length row ≡ width) × All IsToken row

no_error→IsRow : (width : ℕ) (row : List (List ℕ)) → row_error width row ≡ none → IsRow width row
no_error→IsRow width row h = (ground arith, are_allowed→All row (ground arith))

pub find_error→IsRow :
    (width : ℕ) (rows : List (List (List ℕ)))
    → find_error width rows ≡ none
    → All (IsRow width) rows
unfolding find_error
find_error→IsRow width [] h = tt
find_error→IsRow width (row ∷ rows) h = elim (Option-cases (row_error width row)) [
  | inl n ↦ (no_error→IsRow width row n, find_error→IsRow width rows (ground arith))
  | inr (e, s) ↦ absurd (ground arith)
]

IsRow→find_error :
    (width : ℕ) (rows : List (List (List ℕ)))
    → All (IsRow width) rows
    → find_error width rows ≡ none
unfolding find_error
IsRow→find_error width [] h = refl
IsRow→find_error width (row ∷ rows) h =
    ground (arith, All→are_allowed row h.0.1, IsRow→find_error width rows h.1)

pub parse_rows-error :
    (rows : List (List (List ℕ))) → (parse_rows rows).1 ≡ find_error (first_width rows) rows
unfolding parse_rows
parse_rows-error rows = elim (Option-cases (find_error (first_width rows) rows)) [
  | inl n ↦ rw (n, parse_rows) refl
  | inr (e, s) ↦ rw (s, parse_rows) refl
]

-- An error leaves a board without cells.
pub parse_rows-refused :
    (rows : List (List (List ℕ))) {e : ParseError}
    → (parse_rows rows).1 ≡ some e
    → (parse_rows rows).0 ≡ no_board
unfolding parse_rows
parse_rows-refused rows {e} h =
    let found = sym (parse_rows-error rows) ∙ h in rw (found, parse_rows) refl

-- A text is read without an error exactly if all its rows that are not blank have as many tokens as
-- the first of them, each a point or the letters of a colour and a kind; and what is read with an
-- error is a board without cells.
pub parse_iff :
    (lines : List (List ℕ))
    → (((parse lines).1 ≡ none) ↔ All (IsRow (first_width (token_rows lines))) (token_rows lines))
      × (((parse lines).1 ≡ none) ⊎ ((parse lines).0 ≡ no_board))
unfolding parse
parse_iff lines =
    let rows = token_rows lines in
    let error = parse_rows-error rows in
    (
      (
        λ h. find_error→IsRow (first_width rows) rows (sym error ∙ h),
        λ h. error ∙ IsRow→find_error (first_width rows) rows h,
      ),
      elim (Option-cases (parse_rows rows).1) [
        | inl n ↦ inl n
        | inr (e, s) ↦ inr (parse_rows-refused rows s)
      ],
    )
