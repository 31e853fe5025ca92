-- ===== src/Tests/ClientTests.antt =====
-- The theorems on the client at short histories.
use ctd_tamar.Common.{ℕ, pos, refl, true, List, [], ◌∷◌}
use ctd_tamar.Messaging.Snapshot.{Message, GameStateSnapshot, default_message, default_snapshot}
use ctd_tamar.Client.GameState.{
  ClientGameState, apply_message, apply_all, Follows, apply_message-Follows, apply_all-Follows,
  apply_message_twice,
}
use ctd_tamar.Client.GameState
use ctd_tamar.Client.Phases.{
  ClientUiPhaseMachine, playing, observe, IsSound, KeepsAll, observe-keeps, observe-playing_iff,
}
use ctd_tamar.Client.Phases

abbrev ready_snapshot : GameStateSnapshot
ready_snapshot = record default_snapshot {
  players_ready = true;
  server_time_ms = 40;
  gameplay_starts_at_epoch_ms = 5000;
}

abbrev ready_message : Message
ready_message = record default_message { has_snapshot = true; snapshot = ready_snapshot }

-- An older snapshot, which arrives late.
abbrev late_message : Message
late_message = record default_message {
  has_snapshot = true;
  snapshot = record default_snapshot { server_time_ms = 20 };
}

-- Five seconds before the start, which is at 5500 on the steady clock.
abbrev counting : ClientUiPhaseMachine
counting = record Phases.new { start_observed = true; steady_start_ms = pos 5500 }

-- A blank, `a`, and a blank.
abbrev some_line : List ℕ
some_line = 32 ∷ 97 ∷ 32 ∷ []

apply_all-Follows_example :
    Follows GameState.new (apply_all (ready_message ∷ late_message ∷ []) GameState.new)
apply_all-Follows_example = apply_all-Follows (ready_message ∷ late_message ∷ []) GameState.new

observe-keeps_example : KeepsAll counting (observe ready_snapshot (pos 100) (pos 5600) counting)
observe-keeps_example = observe-keeps ready_snapshot (pos 100) (pos 5600) counting (λ _. refl)
