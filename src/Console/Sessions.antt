-- ===== src/Console/Sessions.antt =====
-- What a session on the terminal makes of the engine.
use ctd_tamar.Common.{
  ℕ, ◌+◌, ℤ, pos, ◌≡◌, refl, ap, subst, sym, Option, none, List, [], ◌∷◌, Option-cases, inl, inr,
  false, if-cases, same_text,
}
use ctd_tamar.Core.Position.{Position}
use ctd_tamar.Messaging.Snapshot.{MessageType, jump_request}
use ctd_tamar.Messaging.Bus
use ctd_tamar.Engine.State.{GameEngine, PieceConfigReader, current_time}
use ctd_tamar.Engine.State
use ctd_tamar.Engine.Steps.{wait}
use ctd_tamar.Engine.Wait.{Done}
use ctd_tamar.Engine.Runs
use ctd_tamar.Engine.Runs.{step, run, run-new-wait}
use ctd_tamar.Engine.Played.{PlayedFrom, step-PlayedFrom, handle_message-PlayedFrom}
use ctd_tamar.Control.Controller.{Controller, click, jump, select, request_of, map_click_to_cell}
use ctd_tamar.Control.Answers.{
  ClickEnds, asks, selects, click-ends, answered, send_request-answered,
}
use ctd_tamar.TextBoard.Parser.{parse}
use ctd_tamar.Console.App.{
  Console, Command, clicks, jumps, prints, waits, unknown, execute, execute_all, start, run_console,
  read_board, print_board, board_argument,
}

module _ (load : PieceConfigReader) (first : GameEngine) where
  -- The engine of a controller comes from the first one, and its bus is empty.
  pub record Plays (c : Controller) : Type 0 where
    pub empty_bus : c.message_bus ≡ Bus.new
    pub played : PlayedFrom load first c.engine

  answered-Plays :
      (type : MessageType) (s d : Position) (c : Controller)
      → Plays c
      → Plays (answered load type s d c).0
  answered-Plays type s d c h = record {
    empty_bus = h.empty_bus;
    played = handle_message-PlayedFrom load first (request_of type s d c) c.engine h.played;
  }

  select-Plays : (p : Option Position) (c : Controller) → Plays c → Plays (select p c)
  select-Plays p c h = record { empty_bus = h.empty_bus; played = h.played }

  click-Plays : (x y : ℤ) (c : Controller) → Plays c → Plays (click load x y c).0
  click-Plays x y c h = by_end (click-ends load x y c h.empty_bus)
    where
      by_end : ClickEnds load c (click load x y c) → Plays (click load x y c).0
      by_end (asks type s d _ e) =
          subst Plays (sym (ap (λ out. out.0) e))
            (answered-Plays type s d (select none c) (select-Plays none c h))
      by_end (selects p _ e) = subst Plays (sym e) (select-Plays p c h)

  jump-Plays : (x y : ℤ) (c : Controller) → Plays c → Plays (jump load x y c).0
  unfolding jump
  jump-Plays x y c h = elim (Option-cases (map_click_to_cell x y c)) [
    | inl n ↦ rw (n, jump) (select-Plays none c h)
    | inr (p, e) ↦
        rw (e, jump, send_request-answered load jump_request p p (select none c) h.empty_bus)
          (answered-Plays jump_request p p (select none c) (select-Plays none c h))
  ]

  execute-Plays :
      (x : Command) (c : Console) → Plays c.controller → Plays (execute load x c).controller
  unfolding execute step
  execute-Plays (clicks x y) c h = click-Plays x y c.controller h
  execute-Plays (jumps x y) c h = jump-Plays x y c.controller h
  execute-Plays (prints what) c h =
      if-cases (λ (d : Console). Plays d.controller) (same_text what board_argument) (print_board c)
        c (λ _. h) (λ _. h)
  execute-Plays (waits ms) c h = record {
    empty_bus = h.empty_bus;
    played = step-PlayedFrom load first (Runs.waits ms) c.controller.engine h.played;
  }
  execute-Plays unknown c h = h

  execute_all-Plays :
      (xs : List Command) (c : Console)
      → Plays c.controller
      → Plays (execute_all load xs c).controller
  unfolding execute_all
  execute_all-Plays [] c h = h
  execute_all-Plays (x ∷ xs) c h = execute_all-Plays xs (execute load x c) (execute-Plays x c h)

-- The game on a board that the parser returns.
abbrev pub first_engine : List (List ℕ) → GameEngine
first_engine lines = let read = (parse (read_board false lines)).0 in State.new read.0 read.1 false

-- Whatever is typed, the engine is always one that moves, jumps and waits have made of a new game on
-- the board that was read; and a further wait returns, at the time asked for, with no step and no
-- landing due.
pub run_console-PlayedFrom :
    (load : PieceConfigReader) (lines : List (List ℕ)) (commands : List Command) (ms : ℕ)
    → let g = (run_console load lines commands).controller.engine in
      PlayedFrom load (first_engine lines) g
      × Done (wait load (pos ms) g)
      × (current_time (wait load (pos ms) g) ≡ current_time g + ms)
unfolding run_console run
run_console-PlayedFrom load lines commands ms =
    let read = (parse (read_board false lines)).0 in
    let begun : Plays load (first_engine lines)
        (start (parse (read_board false lines))).controller =
      record { empty_bus = refl; played = ([], refl) } in
    let (cs, e) =
      (execute_all-Plays load (first_engine lines) commands (start (parse (read_board false lines)))
        begun).played in
    let w = run-new-wait load read.0 read.1 false cs ms in ((cs, e), rw e w.1, rw e w.2)
