-- ===== src/Console/App.antt =====
-- ConsoleApp.cpp: the lines of the board, and the commands, which are given with their arguments read.
use ctd_tamar.Common.{
  ℕ, ℤ, Bool, true, false, ◌&&◌, ◌||◌, not, Option, List, [], ◌∷◌, ◌++◌, ◌==◌, if◌then◌else◌,
  is_empty_list, same_text,
}
use ctd_tamar.Core.Board.{Heap, Board}
use ctd_tamar.Engine.State.{GameEngine, PieceConfigReader}
use ctd_tamar.Engine.State
use ctd_tamar.Engine.Steps.{wait}
use ctd_tamar.Control.BoardMapper.{default_geometry}
use ctd_tamar.Control.Controller.{Controller, click, jump}
use ctd_tamar.Control.Controller
use ctd_tamar.TextBoard.Parser.{ParseError, parse}
use ctd_tamar.TextBoard.Printer.{print}

-- A blank, a tab, a carriage return or a line feed.
abbrev pub is_blank : ℕ → Bool
is_blank c = (c == 32) || ((c == 9) || ((c == 13) || (c == 10)))

abbrev pub strip_front : List ℕ → List ℕ
strip_front [] = []
strip_front (c ∷ cs) = let rest = strip_front cs in if is_blank c then rest else c ∷ cs

abbrev pub strip_back : List ℕ → List ℕ
strip_back [] = []
strip_back (c ∷ cs) =
    let rest = strip_back cs in if is_blank c && is_empty_list rest then [] else c ∷ rest

-- `trim` of this file.
abbrev pub strip : List ℕ → List ℕ
strip line = strip_back (strip_front line)

abbrev pub board_word : List ℕ
board_word = b'B' ∷ b'o' ∷ b'a' ∷ b'r' ∷ b'd' ∷ []

abbrev pub commands_word : List ℕ
commands_word = b'C' ∷ b'o' ∷ b'm' ∷ b'm' ∷ b'a' ∷ b'n' ∷ b'd' ∷ b's' ∷ []

-- A header is its word, with or without a colon.
abbrev pub is_header : List ℕ → List ℕ → Bool
is_header word line = same_text line (word ++ b':' ∷ []) || same_text line word

abbrev pub keep_line : Bool → List ℕ → List (List ℕ) → List (List ℕ)
keep_line reading line rest = if reading && not (is_empty_list line) then line ∷ rest else rest

-- The first loop: the lines between the two headers, trimmed, without the blank ones.
unfoldable pub read_board : Bool → List (List ℕ) → List (List ℕ)
unfolding same_text
read_board reading [] = []
read_board reading (line ∷ lines) = elim (is_header board_word (strip line)) [
  | true ↦ read_board true lines
  | false ↦ elim (is_header commands_word (strip line)) [
    | true ↦ []
    | false ↦ keep_line reading (strip line) (read_board reading lines)
  ]
]

-- The state of the second loop, and what was printed: the error of the board, and the boards.
pub record Console : Type 0 where
  pub controller : Controller
  pub error : Option ParseError
  pub output : List ℕ

pub data Command : Type 0 where
  clicks : (x y : ℤ) → Command
  jumps : (x y : ℤ) → Command
  prints : List ℕ → Command
  waits : ℤ → Command
  unknown : Command

abbrev pub board_argument : List ℕ
board_argument = b'b' ∷ b'o' ∷ b'a' ∷ b'r' ∷ b'd' ∷ []

abbrev pub print_board : Console → Console
print_board c = record c {
  output = c.output ++ print (c.controller.engine.heap, c.controller.engine.board);
}

unfoldable pub execute : PieceConfigReader → Command → Console → Console
unfolding click jump wait same_text print
execute load (clicks x y) c = record c { controller = (click load x y c.controller).0 }
execute load (jumps x y) c = record c { controller = (jump load x y c.controller).0 }
execute load (prints what) c = if same_text what board_argument then print_board c else c
execute load (waits ms) c = record c {
  controller = record c.controller { engine = wait load ms c.controller.engine };
}
execute load unknown c = c

unfoldable pub execute_all : PieceConfigReader → List Command → Console → Console
unfolding execute
execute_all load [] c = c
execute_all load (x ∷ xs) c = execute_all load xs (execute load x c)

-- The game on a board that was read, without an event bus.
abbrev pub start : (Heap × Board) × Option ParseError → Console
start ((h, b), error) = record {
  controller = Controller.new (State.new h b false) default_geometry;
  error = error;
  output = [];
}

unfoldable pub run_console : PieceConfigReader → List (List ℕ) → List Command → Console
unfolding parse read_board execute_all
run_console load lines commands = execute_all load commands (start (parse (read_board false lines)))
