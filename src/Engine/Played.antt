-- ===== src/Engine/Played.antt =====
-- Engines that moves, jumps and waits have made of a first one.
use ctd_tamar.Common.{◌≡◌, refl, List, [], ◌∷◌, ◌++◌}
use ctd_tamar.Messaging.Snapshot.{Message, MessageType, move_request, jump_request}
use ctd_tamar.Engine.State.{GameEngine, PieceConfigReader}
use ctd_tamar.Engine.Requests.{handle_message, dispatch}
use ctd_tamar.Engine.Runs.{Call, moves, jumps, step, run}

-- The engine is what a sequence of calls makes of the first one.
abbrev pub PlayedFrom : PieceConfigReader → GameEngine → GameEngine → Type 0
PlayedFrom load first g = (cs : List Call) × (g ≡ run load cs first)

run-last :
    (load : PieceConfigReader) (cs : List Call) (c : Call) (g : GameEngine)
    → run load (cs ++ c ∷ []) g ≡ step load c (run load cs g)
unfolding run
run-last load [] c g = refl
run-last load (x ∷ cs) c g = run-last load cs c (step load x g)

pub step-PlayedFrom :
    (load : PieceConfigReader) (first : GameEngine) (c : Call) (g : GameEngine)
    → PlayedFrom load first g
    → PlayedFrom load first (step load c g)
step-PlayedFrom load first c g (cs, e) = (cs ++ c ∷ [], rw (run-last load cs c first, e) refl)

pub handle_message-PlayedFrom :
    (load : PieceConfigReader) (first : GameEngine) (m : Message) (g : GameEngine)
    → PlayedFrom load first g
    → PlayedFrom load first (handle_message load m g).0
unfolding handle_message step
handle_message-PlayedFrom load first m g p = by_type m.type
  where
    by_type : (t : MessageType) → PlayedFrom load first (dispatch load t m g).0
    by_type move_request = step-PlayedFrom load first (moves m.source m.destination) g p
    by_type jump_request = step-PlayedFrom load first (jumps m.source) g p
    by_type _ = p
