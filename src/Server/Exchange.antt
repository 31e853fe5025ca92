-- ===== src/Server/Exchange.antt =====
-- A request of NetworkController.cpp that GameServer.cpp answers.
use ctd_tamar.Common.{
  ℕ, ◌≡◌, refl, sym, ◌∙◌, ap, true, false, not, Option, none, some, List, [], ◌∷◌, ◌++◌, All,
  if-false, subst,
}
use ctd_tamar.Core.Position.{Position}
use ctd_tamar.Core.Piece.{PieceColor}
use ctd_tamar.Messaging.Snapshot.{Message, MessageType, game_state_updated}
use ctd_tamar.Client.GameClient.{create_sequence}
use ctd_tamar.Client.NetworkController.{
  NetworkController, Network, request_of, answer_click, send_request,
}
use ctd_tamar.Server.State.{Environment, GameServer}
use ctd_tamar.Server.Service.{answer}
use ctd_tamar.Server.Invariant.{IsSound}
use ctd_tamar.Server.Replies.{answer-IsAnswered}
use ctd_tamar.Client.Exchanges.{IsFresh, Concludes, answer_click-Concludes, exchange-received}

abbrev pub as_list : Option Message → List Message
as_list none = []
as_list (some m) = m ∷ []

-- A connection that works, over which a server first sends some updates and then what it answers.
abbrev pub link : List Message → Environment → ℕ → PieceColor → GameServer → Network
link updates env epoch color s = record {
  fails = λ _. false;
  arrives = λ m. updates ++ as_list (answer env epoch color m s).1;
}

module _ (env : Environment) (epoch : ℕ) (color : PieceColor) (s : GameServer) where
  -- A request of a player whose connection works is concluded by the response of a sound server to
  -- it, behind whatever updates the server sends first: the controller returns the response's
  -- verdict and applies its state, nothing stays selected, and the updates wait in the queue behind
  -- what waited there. It needs a started game, and that no response in the queue has the number yet.
  pub send_request-Concludes :
      (updates : List Message) (type : MessageType) (source destination : Position)
      (n : NetworkController)
      → IsSound s
      → n.client.game_started ≡ true
      → n.client.connected ≡ true
      → n.client.stop_requested ≡ false
      → IsFresh n
      → All (λ (m : Message). m.type ≡ game_state_updated) updates
      → let request = request_of type n.client.next_sequence source destination n in
        (r : Message) × ((answer env epoch color request s).1 ≡ some r)
        × Concludes n updates r
            (send_request (link updates env epoch color s) type source destination n)
  unfolding send_request
  send_request-Concludes updates type source destination n h g o q fresh u =
      let net = link updates env epoch color s in
      let c = (create_sequence n.client).0 in
      let request = request_of type n.client.next_sequence source destination n in
      let (r, e, reply) = answer-IsAnswered env epoch color request s h in
      let (d, x, i) =
        exchange-received net request c updates r refl (ap (λ a. updates ++ as_list a) e) o q fresh
          u reply.0 in
      (
        r,
        e,
        subst (Concludes n updates r)
            (sym (
              if-false (not n.client.game_started) _ _ (ap not g)
              ∙ if-false (not n.client.connected) _ _ (ap not o)
              ∙ ap (answer_click (record n { client = c })) x))
            (answer_click-Concludes n c d updates r i reply.3),
      )
