-- ===== src/Tests/ConsoleTests.antt =====
-- The theorem on sessions on the terminal at a short one.
use ctd_tamar.Common.{ℕ, ◌+◌, pos, ◌≡◌, List, [], ◌∷◌}
use ctd_tamar.Engine.State.{current_time}
use ctd_tamar.Engine.Steps.{wait}
use ctd_tamar.Engine.Wait.{Done}
use ctd_tamar.Engine.Played.{PlayedFrom}
use ctd_tamar.Console.App.{
  Command, clicks, jumps, prints, waits, board_word, board_argument, run_console,
}
use ctd_tamar.Console.Sessions.{first_engine, run_console-PlayedFrom}
use ctd_tamar.Tests.Scene.{some_config}

-- `Board`, `wR .`, and `. bK`.
abbrev some_lines : List (List ℕ)
some_lines = board_word ∷ (b'w' ∷ b'R' ∷ b' ' ∷ b'.' ∷ []) ∷ (b'.' ∷ b' ' ∷ b'b' ∷ b'K' ∷ []) ∷ []

-- The rook is moved down, and the board is printed after two seconds.
abbrev some_commands : List Command
some_commands =
    clicks (pos 50) (pos 50)
    ∷ clicks (pos 50) (pos 150)
    ∷ waits (pos 2000)
    ∷ prints board_argument
    ∷ jumps (pos 150) (pos 150)
    ∷ []

run_console-PlayedFrom_example :
    let g = (run_console some_config some_lines some_commands).controller.engine in
    PlayedFrom some_config (first_engine some_lines) g
    × Done (wait some_config (pos 700) g)
    × (current_time (wait some_config (pos 700) g) ≡ current_time g + 700)
run_console-PlayedFrom_example = run_console-PlayedFrom some_config some_lines some_commands 700
