-- ===== src/Core/Piece.antt =====
-- shared/cpp/src/Core/Piece.cpp. Characters are their codes, a text is a list of them, and times
-- are milliseconds since the game began, which are never negative.
use ctd_tamar.Common.{
  ℕ, ◌+◌, ◌-◌, ◌<◌, ◌≤◌, ℤ, pos, pos_part, is_negative, ◌≡◌, ◌≢◌, refl, ◌↔◌, Bool, true, false,
  ◌&&◌, ◌||◌, not, List, [], ◌∷◌, ltb, leb, ◌==◌, if◌then◌else◌, arith,
}

pub data PieceColor : Type 0 where
  white black : PieceColor

pub data PieceKind : Type 0 where
  king queen rook bishop knight pawn : PieceKind

pub data PieceState : Type 0 where
  idle moving airborne captured : PieceState

pub record Piece : Type 0 where
  pub id : ℕ
  pub color : PieceColor
  pub kind : PieceKind
  pub state : PieceState
  pub cooldown_started_at_ms : ℕ
  pub cooldown_until_ms : ℕ
  pub total_cooldown_ms : ℕ
  pub has_moved : Bool

abbrev pub color_eq : PieceColor → PieceColor → Bool
color_eq white white = true
color_eq black black = true
color_eq _ _ = false

pub same_color : (a b : PieceColor) → color_eq a b ≡ true → a ≡ b
same_color white white h = refl
same_color black black h = refl
same_color white black h = cc
same_color black white h = cc

pub other_color : (a b : PieceColor) → color_eq a b ≡ false → a ≢ b
other_color a b h e = ground arith

abbrev pub is_white : PieceColor → Bool
is_white white = true
is_white black = false

abbrev pub is_king : PieceKind → Bool
is_king king = true
is_king _ = false

abbrev pub is_rook : PieceKind → Bool
is_rook rook = true
is_rook _ = false

abbrev pub is_knight : PieceKind → Bool
is_knight knight = true
is_knight _ = false

abbrev pub is_pawn : PieceKind → Bool
is_pawn pawn = true
is_pawn _ = false

abbrev pub is_idle : PieceState → Bool
is_idle idle = true
is_idle _ = false

abbrev pub is_moving : PieceState → Bool
is_moving moving = true
is_moving _ = false

abbrev pub is_airborne : PieceState → Bool
is_airborne airborne = true
is_airborne _ = false

abbrev pub is_captured : PieceState → Bool
is_captured captured = true
is_captured _ = false

-- The constructor.
unfoldable pub new : ℕ → PieceColor → PieceKind → Piece
new id color kind = record {
  id = id;
  color = color;
  kind = kind;
  state = idle;
  cooldown_started_at_ms = 0;
  cooldown_until_ms = 0;
  total_cooldown_ms = 0;
  has_moved = false;
}

abbrev pub set_state : PieceState → Piece → Piece
set_state s p = record p { state = s }

abbrev pub set_kind : PieceKind → Piece → Piece
set_kind k p = record p { kind = k }

abbrev pub mark_as_moved : Piece → Piece
mark_as_moved p = record p { has_moved = true }

-- A negative duration counts as 0.
unfoldable pub start_cooldown : ℕ → ℤ → Piece → Piece
start_cooldown now duration p =
    let d : ℕ = if is_negative duration then 0 else pos_part duration in
    record p { cooldown_started_at_ms = now; total_cooldown_ms = d; cooldown_until_ms = now + d }

unfoldable pub is_on_cooldown : ℕ → Piece → Bool
is_on_cooldown now p = is_idle p.state && ltb now p.cooldown_until_ms

unfoldable pub get_remaining_cooldown_ms : ℕ → Piece → ℕ
unfolding is_on_cooldown
get_remaining_cooldown_ms now p = if is_on_cooldown now p then p.cooldown_until_ms - now else 0

-- The `double` as an exact quotient, numerator and denominator; the test for a negative ratio
-- never holds here.
unfoldable pub get_cooldown_ratio : ℕ → Piece → ℕ × ℕ
unfolding is_on_cooldown get_remaining_cooldown_ms
get_cooldown_ratio now p =
    if leb p.total_cooldown_ms 0 || not (is_on_cooldown now p)
    then (0, 1)
    else (let remaining = get_remaining_cooldown_ms now p in
        if ltb p.total_cooldown_ms remaining then (1, 1) else (remaining, p.total_cooldown_ms))

unfoldable pub color_to_char : PieceColor → ℕ
color_to_char white = b'w'
color_to_char black = b'b'

unfoldable pub kind_to_char : PieceKind → ℕ
kind_to_char king = b'K'
kind_to_char queen = b'Q'
kind_to_char rook = b'R'
kind_to_char bishop = b'B'
kind_to_char knight = b'N'
kind_to_char pawn = b'P'

unfoldable pub color_from_char : ℕ → PieceColor
color_from_char c = if c == b'w' then white else black

unfoldable pub kind_from_char : ℕ → PieceKind
kind_from_char c =
    if c == b'K'
    then king
    else (if c == b'Q'
        then queen
        else (if c == b'R'
            then rook
            else (if c == b'B' then bishop else (if c == b'N' then knight else pawn))))

unfoldable pub token : Piece → List ℕ
unfolding color_to_char kind_to_char
token p = color_to_char p.color ∷ kind_to_char p.kind ∷ []

-- The characters of a colour and a kind read back as that colour and kind.
pub from_char-to_char :
    (c : PieceColor) (k : PieceKind)
    → (color_from_char (color_to_char c) ≡ c) × (kind_from_char (kind_to_char k) ≡ k)
unfolding color_from_char color_to_char kind_from_char kind_to_char
from_char-to_char c k = ground arith

-- A cooldown that starts on an idle piece holds from its start until its duration has passed, and
-- no longer; meanwhile the remaining time is what is left of the duration.
pub start_cooldown_window :
    (start now : ℕ) (duration : ℕ) (p : Piece)
    → p.state ≡ idle
    → start ≤ now
    → ((is_on_cooldown now (start_cooldown start (pos duration) p) ≡ true)
        ↔ (now < start + duration))
      × (get_remaining_cooldown_ms now (start_cooldown start (pos duration) p)
          ≡ start + duration - now)
unfolding is_on_cooldown start_cooldown get_remaining_cooldown_ms
start_cooldown_window start now duration p i h = ground arith
