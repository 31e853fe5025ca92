-- ===== src/Tests/TextTests.antt =====
-- The theorems on boards as text at short texts.
use ctd_tamar.Common.{ℕ, ◌≡◌, refl, ◌⊎◌, ◌↔◌, none, List, [], ◌∷◌, All, keep_if, same_text}
use ctd_tamar.TextBoard.Tokens.{is_allowed_token, split_from}
use ctd_tamar.TextBoard.Parser.{first_width, token_rows, parse, parse_rows, find_error, no_board}
use ctd_tamar.TextBoard.Printer.{print}
use ctd_tamar.TextBoard.Errors.{IsRow, parse_iff}
use ctd_tamar.TextBoard.RoundTrip.{render, print-parse}

-- The lines `wK .`, a blank one, and ` . bP`.
abbrev two_rows : List (List ℕ)
two_rows =
    (b'w' ∷ b'K' ∷ b' ' ∷ b'.' ∷ []) ∷ (b' ' ∷ []) ∷ (b' ' ∷ b'.' ∷ b' ' ∷ b'b' ∷ b'P' ∷ []) ∷ []

two_rows-read : (parse two_rows).1 ≡ none
unfolding parse parse_rows find_error token_rows split_from is_allowed_token keep_if same_text
two_rows-read = refl

parse_iff_example :
    (((parse two_rows).1 ≡ none)
      ↔ All (IsRow (first_width (token_rows two_rows))) (token_rows two_rows))
    × (((parse two_rows).1 ≡ none) ⊎ ((parse two_rows).0 ≡ no_board))
parse_iff_example = parse_iff two_rows

print-parse_example : print (parse two_rows).0 ≡ render (token_rows two_rows)
print-parse_example = print-parse two_rows two_rows-read
