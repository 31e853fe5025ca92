-- ===== src/Tests/LobbyTests.antt =====
-- The theorems on the lobby at short histories.
use ctd_tamar.Common.{ℕ, pos, ◌≡◌, refl, false, true, List, [], ◌∷◌}
use ctd_tamar.Messaging.Snapshot.{default_snapshot}
use ctd_tamar.Lobby.Events.{MatchReadyEvent, MatchStateEvent, match_ready, text_eq}
use ctd_tamar.Lobby.State.{LobbyViewModel, failed, network_actions_enabled}
use ctd_tamar.Lobby.State
use ctd_tamar.Lobby.Session.{set_connection_state}
use ctd_tamar.Lobby.Apply.{apply_event, match_of, apply_match_ready}
use ctd_tamar.Lobby.Coherence.{
  LobbyCall, succeeds, applies, connection, IsCoherent, perform_all, perform_all-IsCoherent,
}
use ctd_tamar.Lobby.Connection.{network_actions_enabled-down}
use ctd_tamar.Lobby.Revisions.{HasLatest, apply_states, apply_states-HasLatest}

abbrev some_match : MatchReadyEvent
some_match = record {
  room_id = "r1";
  color = "white";
  opponent = "bob";
  revision = 3;
  state = default_snapshot;
  game_starts_at = "soon";
  white_rating = pos 1200;
  black_rating = pos 1250;
}

abbrev state_of : ℕ → MatchStateEvent
state_of n = record { room_id = "r1"; revision = n; state = default_snapshot }

abbrev some_calls : List LobbyCall
some_calls = succeeds "ann" ∷ applies (match_ready some_match) ∷ connection failed ∷ []

abbrev in_match : LobbyViewModel
in_match = apply_match_ready some_match State.new

perform_all-IsCoherent_example : IsCoherent (perform_all some_calls State.new)
perform_all-IsCoherent_example = perform_all-IsCoherent some_calls State.new tt

network_actions_enabled-down_example :
    (network_actions_enabled (set_connection_state failed State.new) ≡ false)
    × (network_actions_enabled
          (apply_event (match_ready some_match) (set_connection_state failed State.new))
        ≡ false)
network_actions_enabled-down_example =
    network_actions_enabled-down failed (match_ready some_match) State.new refl

same_room : text_eq "r1" "r1" ≡ true
unfolding text_eq
same_room = refl

apply_states-HasLatest_example :
    HasLatest
      (match_of some_match)
      (state_of 5 ∷ state_of 4 ∷ [])
      (apply_states (state_of 5 ∷ state_of 4 ∷ []) in_match)
apply_states-HasLatest_example =
    apply_states-HasLatest (state_of 5 ∷ state_of 4 ∷ []) (match_of some_match) in_match refl
      (same_room, (same_room, tt))
