-- ===== src/Server/Starts.antt =====
-- GameServer.cpp: the start of a game.
use ctd_tamar.Common.{ℕ, ◌+◌, ◌≡◌, refl, true, false, if◌then◌else◌, if-false, Bool-cases, inl, inr}
use ctd_tamar.Messaging.Subscribers.{Subscribers, publish_started, standard_bus}
use ctd_tamar.Server.State.{GameServer, put_session}
use ctd_tamar.Server.Sessions.{vacated, reserve}
use ctd_tamar.Server.Service.{mark_started, start_game}
use ctd_tamar.Server.Stable.{IsStable, broadcast-keeps}

-- A game that was started, with its beginning and what its subscribers know.
abbrev pub HasBegun : ℕ → Subscribers → GameServer → Type 0
HasBegun begins seen s =
    (s.gameplay_starts_at_epoch_ms ≡ begins) × (s.subscribers ≡ seen) × (s.game_was_started ≡ true)

HasBegun-IsStable : (begins : ℕ) (seen : Subscribers) → IsStable (HasBegun begins seen)
unfolding put_session vacated reserve
HasBegun-IsStable begins seen = record {
  puts = λ i c s e h. h;
  vacates = λ i s y h. h;
  reserves = λ now i s y w r h. h;
  forgets = λ i s y w h. h;
}

-- The beginning of a game: four seconds from its first start, and unmoved by a return to it.
abbrev pub beginning : ℕ → GameServer → ℕ
beginning epoch s = if s.game_was_started then s.gameplay_starts_at_epoch_ms else epoch + 4000

abbrev pub seen_start : GameServer → Subscribers
seen_start s =
    if s.game_was_started then s.subscribers else (publish_started standard_bus s.subscribers).0

mark_started-HasBegun :
    (epoch : ℕ) (s : GameServer)
    → HasBegun (beginning epoch s) (seen_start s) (mark_started epoch s)
unfolding mark_started
mark_started-HasBegun epoch s = elim (Bool-cases s.game_was_started) [
  | inl e ↦ simp e (refl, refl, refl)
  | inr e ↦ simp e (refl, refl, refl)
]

-- When a game that does not run starts, gameplay begins four seconds later and the start is published
-- if it is the first start; else the beginning stays and nothing is published. This holds also when
-- players are lost while they are told.
pub start_game-HasBegun :
    (epoch now : ℕ) (s : GameServer)
    → s.game_started ≡ false
    → HasBegun (beginning epoch s) (seen_start s) (start_game epoch now s)
unfolding start_game
start_game-HasBegun epoch now s e = rw (if-false s.game_started _ _ e) (
    broadcast-keeps (HasBegun-IsStable (beginning epoch s) (seen_start s)) now _ _
      (mark_started-HasBegun epoch s))
