-- ===== src/Client/Pieces.antt =====
-- NetworkController.cpp: which pieces of the snapshot a player can use.
use ctd_tamar.Common.{
  ℕ, ◌≡◌, refl, ◌↔◌, ◌⊎◌, Bool, true, false, not, ◌||◌, Option, none, some, List, [], ◌∷◌, is_some,
  arith,
}
use ctd_tamar.Core.Position.{Position}
use ctd_tamar.Core.Piece.{
  PieceColor, PieceState, white, black, idle, moving, airborne, captured, is_idle, color_to_char,
}
use ctd_tamar.Messaging.Snapshot.{PieceSnapshot}
use ctd_tamar.Client.GameState.{find_piece_at}
use ctd_tamar.Client.NetworkController.{
  NetworkController, is_piece_available, is_owned_piece, have_same_color, token_text, starts_with,
}

abbrev pub Begins : ℕ → List ℕ → Type 0
Begins c [] = ⊥
Begins c (x ∷ _) = x ≡ c

-- The letters of a colour's tokens begin with its own.
abbrev pub HasColor : PieceColor → List ℕ → Type 0
HasColor white t = Begins b'w' t
HasColor black t = Begins b'b' t

-- A piece of the player's own colour, which is idle and does not rest.
abbrev pub Ready : NetworkController → Option PieceSnapshot → Type 0
Ready n none = ⊥
Ready n (some p) =
    (p.state ≡ idle)
    × (p.remaining_cooldown_ms ≡ 0)
    × (n.client.player_assigned ≡ true)
    × HasColor n.client.assigned_color p.token

abbrev pub IsReady : NetworkController → Position → Type 0
IsReady n cell = Ready n (find_piece_at cell n.game_state)

-- Two pieces whose tokens begin with the same letter.
abbrev pub Alike : Option PieceSnapshot → Option PieceSnapshot → Type 0
Alike (some p) (some q) = (c : ℕ) × Begins c p.token × Begins c q.token
Alike _ _ = ⊥

-- The cells show pieces of the same colour.
abbrev pub IsAlike : NetworkController → Position → Position → Type 0
IsAlike n a b = Alike (find_piece_at a n.game_state) (find_piece_at b n.game_state)

idle_iff : (s : PieceState) → (is_idle s ≡ true) ↔ (s ≡ idle)
idle_iff idle = ((λ _. refl), (λ _. refl))
idle_iff moving = ((λ e. cc), (λ e. cc))
idle_iff airborne = ((λ e. cc), (λ e. cc))
idle_iff captured = ((λ e. cc), (λ e. cc))

Begins-letter_iff : (c : ℕ) (t : List ℕ) → (starts_with c t ≡ true) ↔ Begins c t
Begins-letter_iff c [] = ((λ e. ground arith), (λ e. absurd e))
Begins-letter_iff c (x ∷ t) = ground arith

color_iff : (c : PieceColor) (t : List ℕ) → (starts_with (color_to_char c) t ≡ true) ↔ HasColor c t
unfolding color_to_char
color_iff white t = Begins-letter_iff b'w' t
color_iff black t = Begins-letter_iff b'b' t

available_iff :
    (p : PieceSnapshot)
    → (is_piece_available (some p) ≡ true) ↔ ((p.state ≡ idle) × (p.remaining_cooldown_ms ≡ 0))
available_iff p = (
  (λ e. ((idle_iff p.state).0 (ground arith), ground arith)),
  (λ (s, z). ground (arith, (idle_iff p.state).1 s)),
)

owned_iff :
    (n : NetworkController) (p : PieceSnapshot)
    → (is_owned_piece (some p) n ≡ true)
      ↔ ((n.client.player_assigned ≡ true) × HasColor n.client.assigned_color p.token)
unfolding is_owned_piece
owned_iff n p =
    let letter = color_iff n.client.assigned_color p.token in
    ((λ e. (ground arith, letter.0 (ground arith))), (λ (a, c). ground (arith, letter.1 c)))

pub Ready-of :
    (n : NetworkController) (o : Option PieceSnapshot)
    → is_piece_available o ≡ true
    → is_owned_piece o n ≡ true
    → Ready n o
Ready-of n none a o = absurd (ground arith)
Ready-of n (some p) a o =
    let (s, z) = (available_iff p).0 a in let (y, c) = (owned_iff n p).0 o in (s, z, y, c)

Ready-tests :
    (n : NetworkController) (o : Option PieceSnapshot)
    → Ready n o
    → (is_piece_available o ≡ true) × (is_owned_piece o n ≡ true)
Ready-tests n none r = absurd r
Ready-tests n (some p) (s, z, y, c) = ((available_iff p).1 (s, z), (owned_iff n p).1 (y, c))

letters_iff : (s t : List ℕ) → (have_same_color s t ≡ true) ↔ ((c : ℕ) × Begins c s × Begins c t)
letters_iff [] t = ((λ e. absurd (ground arith)), (λ (c, a, b). absurd a))
letters_iff (x ∷ s) [] = ((λ e. absurd (ground arith)), (λ (c, a, b). absurd b))
letters_iff (x ∷ s) (y ∷ t) = ((λ e. (x, refl, ground arith)), (λ (c, a, b). ground arith))

pub Alike-iff :
    (a b : Option PieceSnapshot)
    → (have_same_color (token_text a) (token_text b) ≡ true) ↔ Alike a b
Alike-iff none b = ((λ e. absurd (ground arith)), (λ e. absurd e))
Alike-iff (some p) none = ((λ e. absurd (((letters_iff p.token []).0 e).2)), (λ e. absurd e))
Alike-iff (some p) (some q) = letters_iff p.token q.token

-- A piece that is missing, moves, rests or is not the player's is not ready.
pub not-Ready :
    (n : NetworkController) (o : Option PieceSnapshot)
    → ((is_piece_available o ≡ false) ⊎ (is_owned_piece o n ≡ false))
    → ¬ Ready n o
not-Ready n o k r = let (a, b) = Ready-tests n o r in ground arith

pub missing : (o : Option PieceSnapshot) → not (is_some o) ≡ true → is_piece_available o ≡ false
missing none h = refl
missing (some p) h = absurd (ground arith)

pub denied : (a : Bool) → not a ≡ true → a ≡ false
denied a h = ground arith

pub either : (a b : Bool) → (not a || not b) ≡ true → (a ≡ false) ⊎ (b ≡ false)
either a b h = ground arith

pub both : (a b : Bool) → (not a || not b) ≡ false → (a ≡ true) × (b ≡ true)
both a b h = ground arith

pub granted : (a : Bool) → not a ≡ false → a ≡ true
granted a h = ground arith
