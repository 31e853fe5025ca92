-- ===== src/TextBoard/Tokens.antt =====
-- `isAllowedToken` and `splitLineToTokens` of BoardParser.cpp.
use ctd_tamar.Common.{
  ℕ, Bool, true, false, ◌&&◌, ◌||◌, List, [], ◌∷◌, ◌++◌, ◌==◌, if◌then◌else◌, is_empty_list,
  same_text,
}
use ctd_tamar.Client.Username.{is_space}

abbrev pub empty_cell : List ℕ
empty_cell = b'.' ∷ []

abbrev pub is_color_char : ℕ → Bool
is_color_char c = (c == b'w') || (c == b'b')

abbrev pub is_kind_char : ℕ → Bool
is_kind_char k =
    (k == b'K') || ((k == b'Q') || ((k == b'R') || ((k == b'B') || ((k == b'N') || (k == b'P')))))

-- A token of two characters, the length that the source tests for.
abbrev pub is_piece_token : List ℕ → Bool
is_piece_token (c ∷ k ∷ []) = is_color_char c && is_kind_char k
is_piece_token _ = false

unfoldable pub is_allowed_token : List ℕ → Bool
unfolding same_text
is_allowed_token token = if same_text token empty_cell then true else is_piece_token token

abbrev pub flush : List ℕ → List (List ℕ) → List (List ℕ)
flush token rest = if is_empty_list token then rest else token ∷ rest

-- The extraction of words from a stream, with the word that is being read.
unfoldable pub split_from : List ℕ → List ℕ → List (List ℕ)
split_from token [] = flush token []
split_from token (c ∷ cs) = elim (is_space c) [
  | true ↦ flush token (split_from [] cs)
  | false ↦ split_from (token ++ c ∷ []) cs
]

abbrev pub split_line_to_tokens : List ℕ → List (List ℕ)
split_line_to_tokens line = split_from [] line
