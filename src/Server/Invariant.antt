-- ===== src/Server/Invariant.antt =====
-- What holds of the server of GameServer.cpp between two of its steps.
use ctd_tamar.Common.{
  ℕ, ◌<◌, ◌≤◌, ◌≡◌, refl, Bool, true, false, ◌||◌, Option, none, some, ◌==◌, if-cases, arith,
}
use ctd_tamar.Core.Piece.{PieceColor, white, black}
use ctd_tamar.Messaging.Bus.{MessageBus}
use ctd_tamar.Messaging.Bus
use ctd_tamar.Server.State
use ctd_tamar.Server.State.{GameServer, ClientSession, put_session}
use ctd_tamar.Server.Sessions.{player_of, pick, holds, vacate, vacated, reserve}
use ctd_tamar.Server.Stable.{IsStable, is_player, color_of}

-- A player's session has the slot's colour, and its id was given out.
abbrev pub Seats : (ℕ → ClientSession) → ℕ → PieceColor → Option ℕ → Type 0
Seats sessions next color none = Unit
Seats sessions next color (some i) = ((sessions i).assigned_color ≡ color) × (i < next)

-- A slot is reserved only in a game that was started and is interrupted, and then it is empty.
abbrev pub Reserves : (pending was_started started : Bool) → Option ℕ → Type 0
Reserves false w g slot = Unit
Reserves true w g slot = (w ≡ true) × (g ≡ false) × (slot ≡ none)

-- A game that runs was started, and the beginning of a game that was started is set.
abbrev pub Began : (was_started started : Bool) → ℕ → Type 0
Began false g n = g ≡ false
Began true g n = 4000 ≤ n

abbrev pub IsSound : GameServer → Type 0
IsSound s =
    Seats s.sessions s.next_client_id white s.white_player
    × Seats s.sessions s.next_client_id black s.black_player
    × Reserves s.reconnection_pending s.game_was_started s.game_started
        (player_of s.reserved_color s)
    × Began s.game_was_started s.game_started s.gameplay_starts_at_epoch_ms
    × (s.closing_expired_game ≡ false)
    × (s.message_bus ≡ Bus.new)

Seats-put :
    (color : PieceColor) (o : Option ℕ) (i : ℕ) (c : ClientSession) (s : GameServer)
    → c.assigned_color ≡ color_of i s
    → Seats s.sessions s.next_client_id color o
    → Seats (put_session i c s).sessions s.next_client_id color o
unfolding put_session
Seats-put color none i c s e h = tt
Seats-put color (some j) i c s e h = ground arith

Seats-vacate :
    (f : ℕ → ClientSession) (n : ℕ) (color : PieceColor) (o : Option ℕ) (i : ℕ)
    → Seats f n color o
    → Seats f n color (vacate o i)
Seats-vacate f n color none i h = tt
Seats-vacate f n color (some j) i h =
    if-cases (Seats f n color) (j == i) none (some j) (λ _. tt) (λ _. h)

vacate-pick :
    (color : PieceColor) (i : ℕ) (w b : Option ℕ)
    → pick color w b ≡ none
    → pick color (vacate w i) (vacate b i) ≡ none
vacate-pick white i w b h = rw h refl
vacate-pick black i w b h = rw h refl

vacate_slots :
    (f : ℕ → ClientSession) (n i : ℕ) (w b : Option ℕ)
    → (holds w i || holds b i) ≡ true
    → Seats f n white w
    → Seats f n black b
    → pick (f i).assigned_color (vacate w i) (vacate b i) ≡ none
vacate_slots f n i none none y w b = ground arith
vacate_slots f n i none (some j) y w b = ground arith
vacate_slots f n i (some j) none y w b = ground arith
vacate_slots f n i (some j) (some k) y w b = ground arith

-- A player who leaves empties the slot of the session's colour.
vacate-own :
    (i : ℕ) (s : GameServer)
    → is_player i s ≡ true
    → Seats s.sessions s.next_client_id white s.white_player
    → Seats s.sessions s.next_client_id black s.black_player
    → pick (color_of i s) (vacate s.white_player i) (vacate s.black_player i) ≡ none
vacate-own i s y w b =
    vacate_slots s.sessions s.next_client_id i s.white_player s.black_player y w b

Reserves-vacate :
    (pending was started : Bool) (color : PieceColor) (i : ℕ) (w b : Option ℕ)
    → Reserves pending was started (pick color w b)
    → Reserves pending was false (pick color (vacate w i) (vacate b i))
Reserves-vacate false was started color i w b h = tt
Reserves-vacate true was started color i w b h = (h.0, refl, vacate-pick color i w b h.2)

Began-stop : (was started : Bool) (n : ℕ) → Began was started n → Began was false n
Began-stop false started n h = refl
Began-stop true started n h = h

vacated-IsSound : (i : ℕ) (s : GameServer) → IsSound s → IsSound (vacated i s)
unfolding vacated
vacated-IsSound i s h = (
  Seats-vacate s.sessions s.next_client_id white s.white_player i h.0,
  Seats-vacate s.sessions s.next_client_id black s.black_player i h.1,
  Reserves-vacate s.reconnection_pending s.game_was_started s.game_started s.reserved_color i
      s.white_player s.black_player h.2,
  Began-stop s.game_was_started s.game_started s.gameplay_starts_at_epoch_ms h.3,
  h.4,
  h.5,
)

pub IsSound-IsStable : IsStable IsSound
unfolding put_session vacated reserve
IsSound-IsStable = record {
  puts = λ i c s e h. (
    Seats-put white s.white_player i c s e h.0,
    Seats-put black s.black_player i c s e h.1,
    h.2,
    h.3,
    h.4,
    h.5,
  );
  vacates = λ i s y h. vacated-IsSound i s h;
  reserves = λ now i s y w r h.
      let v = vacated-IsSound i s h in
      (v.0, v.1, (w, refl, vacate-own i s y h.0 h.1), v.3, v.4, v.5);
  forgets = λ i s y w h. vacated-IsSound i s h;
}

pub new-IsSound : IsSound State.new
new-IsSound = (tt, tt, tt, refl, refl, refl)
