-- ===== src/Tests/ControlTests.antt =====
-- The theorems on messages and clicks at the small game.
use ctd_tamar.Common.{◌+◌, ◌*◌, pos, ◌≡◌, refl, some, List, [], ◌∷◌, ◌++◌, arith}
use ctd_tamar.Core.Position.{position}
use ctd_tamar.Core.Board.{is_inside, set_piece_at}
use ctd_tamar.Core.Board
use ctd_tamar.Messaging.Snapshot.{Message, default_message, move_request, jump_request}
use ctd_tamar.Control.BoardMapper.{default_geometry, pixel_to_cell, pixel_to_cell-of_cell}
use ctd_tamar.Control.Handler.{process_all_messages, answer_all, process_all_messages-answers}
use ctd_tamar.Control.Controller.{Controller, select, click, send_request}
use ctd_tamar.Control.Controller
use ctd_tamar.Control.Answers.{ClickEnds, click-ends}
use ctd_tamar.Tests.Scene.{corner_cell, side_cell, king_cell, some_board, some_config, some_engine}

abbrev some_request : Message
some_request = record default_message {
  type = move_request;
  sequence = 7;
  source = corner_cell;
  destination = side_cell;
}

abbrev some_requests : List Message
some_requests =
    some_request ∷ record default_message { type = jump_request; source = king_cell } ∷ []

-- The rook is selected.
abbrev some_controller : Controller
some_controller = select (some corner_cell) (Controller.new some_engine default_geometry)

process_all_messages-answers_example :
    process_all_messages 3 some_config
      (some_engine, record { client_to_engine = some_requests; engine_to_client = [] })
    ≡ some (
      (answer_all some_config some_requests some_engine).0,
      record {
        client_to_engine = [];
        engine_to_client = [] ++ (answer_all some_config some_requests some_engine).1;
      },
    )
process_all_messages-answers_example =
    process_all_messages-answers some_config 3 some_requests [] some_engine (omega arith)

click-ends_example :
    ClickEnds some_config some_controller (click some_config (pos 250) (pos 50) some_controller)
click-ends_example = click-ends some_config (pos 250) (pos 50) some_controller refl

pixel_to_cell-of_cell_example :
    pixel_to_cell (pos (10 + (2 * 100 + 50))) (pos (10 + (1 * 80 + 79))) some_board (record {
      board_start_x = pos 10;
      board_start_y = pos 10;
      cell_size_x = pos 100;
      cell_size_y = pos 80;
    })
    ≡ some (position (pos 1) (pos 2))
unfolding set_piece_at Board.new
pixel_to_cell-of_cell_example =
    pixel_to_cell-of_cell some_board 10 10 100 80 1 2 50 79 (omega arith) (omega arith)
      (omega arith) (omega arith)
