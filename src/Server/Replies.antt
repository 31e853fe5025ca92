-- ===== src/Server/Replies.antt =====
-- GameServer.cpp: the response to a request, and what GameClient.cpp makes of it.
use ctd_tamar.Common.{
  ℕ, ◌≡◌, refl, ap, Bool, true, false, Option, some, ==_refl, if◌then◌else◌, arith,
}
use ctd_tamar.Core.Piece.{PieceColor}
use ctd_tamar.Core.Results.{Reason}
use ctd_tamar.Messaging.Snapshot.{Message, MessageType, move_accepted, move_rejected}
use ctd_tamar.Engine.State.{GameEngine, PieceConfigReader}
use ctd_tamar.Engine.Requests.{handle_message, dispatch}
use ctd_tamar.Control.Handler.{with_snapshot}
use ctd_tamar.Control.Answers.{Echoes, handle_message-Echoes}
use ctd_tamar.Client.GameClient.{is_response, is_matching_response}
use ctd_tamar.Server.State.{Environment, GameServer}
use ctd_tamar.Server.Service.{answer, rejection}
use ctd_tamar.Server.Invariant.{IsSound}
use ctd_tamar.Server.Lasting.{Answers, answer-Answers}
use ctd_tamar.Server.Runs.{ask_engine-empty}

abbrev pub response_type : Bool → MessageType
response_type accepted = if accepted then move_accepted else move_rejected

-- A message that answers a request: the client that waits for the request takes it, and it carries
-- the state of the game.
abbrev pub Replies : Message → Message → Type 0
Replies m r =
    (is_matching_response m.sequence r ≡ true)
    × Echoes m r
    × (r.type ≡ response_type r.accepted)
    × (r.has_snapshot ≡ true)

dispatch-type :
    (load : PieceConfigReader) (t : MessageType) (m : Message) (g : GameEngine)
    → (dispatch load t m g).1.type ≡ response_type (dispatch load t m g).1.accepted
dispatch-type load t m g = ground arith

handle_message-type :
    (load : PieceConfigReader) (m : Message) (g : GameEngine)
    → (handle_message load m g).1.type ≡ response_type (handle_message load m g).1.accepted
unfolding handle_message
handle_message-type load m g = dispatch-type load m.type m g

response_type-is_response : (accepted : Bool) → is_response (response_type accepted) ≡ true
response_type-is_response true = refl
response_type-is_response false = refl

matches :
    (m r : Message)
    → Echoes m r
    → r.type ≡ response_type r.accepted
    → is_matching_response m.sequence r ≡ true
matches m r h t = rw (h.0, t, ==_refl m.sequence, response_type-is_response r.accepted) refl

handle_message-Replies :
    (load : PieceConfigReader) (m : Message) (g : GameEngine)
    → Replies m (with_snapshot (handle_message load m g))
handle_message-Replies load m g =
    let r = with_snapshot (handle_message load m g) in
    let e : Echoes m r = handle_message-Echoes load m g in
    let t : r.type ≡ response_type r.accepted = handle_message-type load m g in
    (matches m r e t, e, t, refl)

-- A response of the server to a request, whatever the outcome.
abbrev pub IsAnswered : Message → Option Message → Type 0
IsAnswered m o = (r : Message) × (o ≡ some r) × Replies m r

Answers-IsAnswered :
    (env : Environment) (epoch : ℕ) (color : PieceColor) (m : Message) (s : GameServer)
    {out : GameServer × Option Message}
    → IsSound s
    → Answers env epoch color m s out
    → IsAnswered m out.1
Answers-IsAnswered env epoch color m s h (Answers.early _) =
    let r =
      rejection
        (if s.game_started then Reason.countdown_in_progress else Reason.waiting_for_opponent) m
        s in
    (r, refl, (matches m r (refl, refl, refl) refl, (refl, refl, refl), refl, refl))
Answers-IsAnswered env epoch color m s h (Answers.foreign _ _) =
    let r = rejection Reason.not_your_piece m s in
    (r, refl, (matches m r (refl, refl, refl) refl, (refl, refl, refl), refl, refl))
Answers-IsAnswered env epoch color m s h (Answers.asked _ _) = (
  with_snapshot (handle_message env.load m s.engine),
  ap (λ (out : GameServer × Option Message). out.1) (ask_engine-empty env.load m s h.5),
  handle_message-Replies env.load m s.engine,
)

-- On a sound server no request stays without a response, whichever branch answers it: the response
-- has the request's sequence number and cells, its type says whether the request was accepted, it
-- carries the state of the game, and the client that waits for it takes it.
pub answer-IsAnswered :
    (env : Environment) (epoch : ℕ) (color : PieceColor) (m : Message) (s : GameServer)
    → IsSound s
    → IsAnswered m (answer env epoch color m s).1
answer-IsAnswered env epoch color m s h =
    Answers-IsAnswered env epoch color m s h (answer-Answers env epoch color m s)
