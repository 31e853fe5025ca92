-- ===== src/Rules/Path.antt =====
-- PieceRules::isPathClear of server/chess_server/src/Rules/PieceRules.cpp. The loop takes fuel:
-- the distance of the two cells, which is enough on the lines that its callers check first.
use ctd_tamar.Common.{
  ℕ, zero, suc, max, ℤ, pos, negsuc, ◌+ℤ◌, ◌-ℤ◌, ltb_ℤ, eq_ℤ, abs, Bool, true, false, ◌&&◌, not,
  Option, none, some, if◌then◌else◌,
}
use ctd_tamar.Core.Position.{Position, position}
use ctd_tamar.Core.Board.{Board, is_empty}

-- The sign of `to - from`.
unfoldable pub step_of : ℤ → ℤ → ℤ
step_of from to = if ltb_ℤ from to then pos 1 else (if ltb_ℤ to from then negsuc 0 else pos 0)

-- The `while` loop; `none` means that the fuel ran out before the destination was met.
unfoldable pub walk : ℕ → Board → (to_row to_col row_step col_step row col : ℤ) → Option Bool
walk zero b tr tc rs cs r c = none
walk (suc fuel) b tr tc rs cs r c =
    let rest = walk fuel b tr tc rs cs (r +ℤ rs) (c +ℤ cs) in
    if eq_ℤ r tr && eq_ℤ c tc
    then some true
    else (if not (is_empty b (position r c)) then some false else rest)

-- The larger of the two coordinate distances.
unfoldable pub distance : Position → Position → ℕ
distance s d = max (abs (d.row -ℤ s.row)) (abs (d.col -ℤ s.col))

unfoldable pub path_result : Board → Position → Position → Option Bool
unfolding step_of walk distance
path_result b s d =
    let rs = step_of s.row d.row in
    let cs = step_of s.col d.col in
    walk (suc (distance s d)) b d.row d.col rs cs (s.row +ℤ rs) (s.col +ℤ cs)

abbrev pub answer : Option Bool → Bool
answer none = false
answer (some c) = c

unfoldable pub is_path_clear : Board → Position → Position → Bool
unfolding path_result
is_path_clear b s d = answer (path_result b s d)
