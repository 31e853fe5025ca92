-- ===== src/Client/Sending.antt =====
-- GameClient.cpp and NetworkController.cpp: what each call does to the requests that were sent.
use ctd_tamar.Common.{
  ℕ, ◌≡◌, refl, ◌∙◌, Bool, true, false, not, ◌&&◌, Option, none, some, List, [], ◌∷◌, ◌++◌,
  if◌then◌else◌, if-cases, same_text,
}
use ctd_tamar.Messaging.Snapshot.{Message, MessageType}
use ctd_tamar.Client.GameClient.{
  GameClient, learn_names, receive_assignment, receive_by_type, receive_message, receive_messages,
  mark_connection_lost, send, take_first, take_response, put_back, is_matching_response,
  names_players, assign, invalid_color, send_failed,
}
use ctd_tamar.Core.Piece.{white, black}
use ctd_tamar.Server.Service.{color_text}
use ctd_tamar.Client.NetworkController.{Network, exchange}

-- The same requests, and the same next number.
pub record SameSent (c d : GameClient) : Type 0 where
  pub sent_same : d.sent ≡ c.sent
  pub next_same : d.next_sequence ≡ c.next_sequence

unchanged : {c d : GameClient} → d.sent ≡ c.sent → d.next_sequence ≡ c.next_sequence → SameSent c d
unchanged e f = record { sent_same = e; next_same = f }

SameSent-trans : {c d e : GameClient} → SameSent d e → SameSent c d → SameSent c e
SameSent-trans h k = unchanged (h.sent_same ∙ k.sent_same) (h.next_same ∙ k.next_same)

learn_names-SameSent : (m : Message) (c : GameClient) → SameSent c (learn_names m c)
unfolding learn_names
learn_names-SameSent m c =
    if-cases (SameSent c) m.has_snapshot _ _ (λ _. unchanged refl refl)
      (λ _.
        if-cases (SameSent c) (names_players m.type) _ c (λ _. unchanged refl refl)
          (λ _. unchanged refl refl))

receive_assignment-SameSent : (m : Message) (c : GameClient) → SameSent c (receive_assignment m c)
unfolding receive_assignment mark_connection_lost
receive_assignment-SameSent m c =
    let wrong = if c.stop_requested then c else mark_connection_lost invalid_color c in
    let is_black = same_text m.player_color (color_text black) in
    if-cases (SameSent c) (same_text m.player_color (color_text white)) (assign white m c)
      (if is_black then assign black m c else wrong) (λ _. unchanged refl refl)
      (λ _.
        if-cases (SameSent c) is_black (assign black m c) wrong (λ _. unchanged refl refl)
          (λ _.
            if-cases (SameSent c) c.stop_requested c (mark_connection_lost invalid_color c)
              (λ _. unchanged refl refl) (λ _. unchanged refl refl)))

receive_by_type-SameSent :
    (t : MessageType) (m : Message) (c : GameClient) → SameSent c (receive_by_type t m c)
receive_by_type-SameSent MessageType.player_assigned m c = receive_assignment-SameSent m c
receive_by_type-SameSent MessageType.waiting_for_opponent m c = unchanged refl refl
receive_by_type-SameSent MessageType.game_started m c = unchanged refl refl
receive_by_type-SameSent MessageType.game_full m c = unchanged refl refl
receive_by_type-SameSent MessageType.reconnecting m c = unchanged refl refl
receive_by_type-SameSent MessageType.game_closed m c = unchanged refl refl
receive_by_type-SameSent _ m c = unchanged refl refl

receive_message-SameSent : (m : Message) (c : GameClient) → SameSent c (receive_message m c)
unfolding receive_message
receive_message-SameSent m c =
    SameSent-trans (receive_by_type-SameSent m.type m (learn_names m c)) (learn_names-SameSent m c)

pub receive_messages-SameSent :
    (ms : List Message) (c : GameClient) → SameSent c (receive_messages ms c)
unfolding receive_messages
receive_messages-SameSent [] c = unchanged refl refl
receive_messages-SameSent (m ∷ ms) c =
    let d = if c.connected && not c.stop_requested then receive_message m c else c in
    let one : SameSent c d =
      if-cases (SameSent c) _ _ c (λ _. receive_message-SameSent m c) (λ _. unchanged refl refl) in
    SameSent-trans (receive_messages-SameSent ms d) one

take_response-SameSent : (q : ℕ) (c : GameClient) → SameSent c (take_response q c).0
unfolding take_response
take_response-SameSent q c = by_found (take_first (is_matching_response q) c.incoming_messages)
  where
    by_found : (o : Option (Message × List Message)) → SameSent c (put_back c o).0
    by_found none = unchanged refl refl
    by_found (some (m, rest)) = unchanged refl refl

-- How a request ends for the requests that were sent: it is one of them, or it could not be sent.
pub data Sends (m : Message) (c : GameClient) : GameClient → Type 0 where
  sends_none : {d : GameClient} → SameSent c d → Sends m c d
  sends_one : {d : GameClient} → SameSent (record c { sent = c.sent ++ m ∷ [] }) d → Sends m c d

data SendEnds (m : Message) (c : GameClient) : GameClient × Bool → Type 0 where
  fails : {d : GameClient} → SameSent c d → SendEnds m c (d, false)
  succeeds : SendEnds m c (record c { sent = c.sent ++ m ∷ [] }, true)

send-Ends : (fails : Bool) (m : Message) (c : GameClient) → SendEnds m c (send fails m c)
unfolding send mark_connection_lost
send-Ends f m c =
    let written : GameClient × Bool = (record c { sent = c.sent ++ m ∷ [] }, true) in
    let lost : GameClient × Bool = (mark_connection_lost send_failed c, false) in
    if-cases (SendEnds m c) (not c.connected) (c, false) (if f then lost else written)
      (λ _. fails (unchanged refl refl))
      (λ _.
        if-cases (SendEnds m c) f lost written (λ _. fails (unchanged refl refl)) (λ _. succeeds))

pub exchange-Sends : (net : Network) (m : Message) (c : GameClient) → Sends m c (exchange net m c).0
unfolding exchange
exchange-Sends net m c = by_send (send (net.fails m) m c) (send-Ends (net.fails m) m c)
  where
    by_send :
        (out : GameClient × Bool)
        → SendEnds m c out
        → Sends m c
            (if not out.1
              then (out.0, none)
              else take_response m.sequence (receive_messages (net.arrives m) out.0)).0
    by_send _ (fails k) = sends_none k
    by_send _ succeeds =
        let d = record c { sent = c.sent ++ m ∷ [] } in
        sends_one (
          SameSent-trans (take_response-SameSent m.sequence (receive_messages (net.arrives m) d))
            (receive_messages-SameSent (net.arrives m) d))
