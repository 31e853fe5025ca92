-- ===== src/Tests/NetworkTests.antt =====
-- The theorems on the connection and the clicks of a player at short queues.
use ctd_tamar.Common.{arith, pos, ◌≡◌, ◌↔◌, refl, true, some, List, [], ◌∷◌}
use ctd_tamar.Core.Position.{position}
use ctd_tamar.Core.Piece.{white}
use ctd_tamar.Messaging.Snapshot.{
  Message, default_message, move_accepted, move_rejected, game_state_updated, move_request,
}
use ctd_tamar.Client.GameClient.{GameClient, take_response}
use ctd_tamar.Client.GameClient
use ctd_tamar.Client.GameState
use ctd_tamar.Client.NetworkController.{
  NetworkController, Network, request_of, send_request, apply_pending_updates, click,
  map_click_to_cell,
}
use ctd_tamar.Client.Pending.{Drains, apply_pending_updates-Drains}
use ctd_tamar.Client.Cells.{Covers, map_click_to_cell_iff}
use ctd_tamar.Client.Clicks.{ClickEnds, click-Ends}
use ctd_tamar.Client.Numbering.{
  PlayerEvent, clicks_on, jumps_on, receives, act_all, IsNumbered, act_all-IsNumbered,
}
use ctd_tamar.Client.Exchanges.{Concludes}
use ctd_tamar.Server.Service.{answer}
use ctd_tamar.Server.Exchange.{link, send_request-Concludes}
use ctd_tamar.Tests.ServerTests.{some_env, playing, playing-IsSound}

-- An update, which starts the state of the game.
abbrev update : Message
update = record default_message { type = game_state_updated; has_snapshot = true }

-- An update, the answer to request 1, and the answer to request 2.
abbrev waiting_client : GameClient
waiting_client = record (GameClient.new []) {
  connected = true;
  game_started = true;
  player_assigned = true;
  next_sequence = 3;
  incoming_messages =
      update
      ∷ record default_message { type = move_rejected; sequence = 1 }
      ∷ record default_message { type = move_accepted; sequence = 2 }
      ∷ [];
}

-- White's player, who has selected a cell of a board of eight by eight cells of ten pixels.
abbrev player : NetworkController
player = record {
  client = waiting_client;
  game_state = GameState.new;
  selected_cell = some (position (pos 6) (pos 0));
  board_start_x = pos 0;
  board_start_y = pos 0;
  cell_size_x = 10;
  cell_size_y = 10;
  board_rows = 8;
  board_cols = 8;
}

abbrev server_link : Network
server_link = link (update ∷ []) some_env 7000 white playing

apply_pending_updates-Drains_example :
    let out = (apply_pending_updates player).0 in
    Drains player.client player.game_state out.client out.game_state
apply_pending_updates-Drains_example = apply_pending_updates-Drains player

map_click_to_cell_iff_example :
    (map_click_to_cell (pos 5) (pos 65) player ≡ some (position (pos 6) (pos 0)))
    ↔ Covers player (position (pos 6) (pos 0)) (pos 5) (pos 65)
map_click_to_cell_iff_example =
    map_click_to_cell_iff player (pos 5) (pos 65) (position (pos 6) (pos 0)) (omega arith)
      (omega arith)

click-Ends_example :
    ClickEnds server_link
      (pos 5)
      (pos 65)
      (apply_pending_updates player).0
      (click server_link (pos 5) (pos 65) player)
click-Ends_example = click-Ends server_link (pos 5) (pos 65) player

abbrev some_acts : List PlayerEvent
some_acts =
    clicks_on server_link (pos 5) (pos 65)
    ∷ receives (update ∷ [])
    ∷ jumps_on server_link (pos 5) (pos 65)
    ∷ []

act_all-IsNumbered_example : IsNumbered (act_all some_acts player).client
act_all-IsNumbered_example = act_all-IsNumbered some_acts player (tt, tt)

send_request-Concludes_example :
    let source = position (pos 6) (pos 0) in
    let destination = position (pos 5) (pos 0) in
    (r : Message) × ((answer some_env 7000 white
        (request_of move_request 3 source destination player)
        playing).1
      ≡ some r)
    × Concludes player
        (update ∷ [])
        r
        (send_request server_link move_request source destination player)
send_request-Concludes_example =
    send_request-Concludes some_env 7000 white playing (update ∷ []) move_request
      (position (pos 6) (pos 0)) (position (pos 5) (pos 0)) player playing-IsSound refl refl refl
      (refl, (refl, (refl, tt))) (refl, tt)
