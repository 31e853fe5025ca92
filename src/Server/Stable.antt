-- ===== src/Server/Stable.antt =====
-- What a predicate of the server needs so that sends, disconnections and departures keep it, and
-- that `broadcast`, `removeSession` and all that is made of them then keep it too.
use ctd_tamar.Common.{
  ℕ, zero, suc, ◌≡◌, refl, Bool, true, false, not, ◌||◌, Option, none, some, List, [], ◌∷◌, ◌∙◌,
  if-cases, &&-eq-true, arith,
}
use ctd_tamar.Core.Piece.{PieceColor}
use ctd_tamar.Messaging.Snapshot.{Message}
use ctd_tamar.Server.State.{
  GameServer, ClientSession, put_session, send_message, disconnect, is_connected,
}
use ctd_tamar.Server.Sessions.{
  send_to, drop_session, send_each, holds, vacated, remaining_of, reserves_slot, reserve, forget,
  set_identity, notify_waiting, depart, remove_with, broadcast_with, broadcast,
  send_reconnecting_status, remove_session, connected_players, reconnecting_message,
  waiting_message,
}
use ctd_tamar.Server.Service.{leave}

abbrev pub is_player : ℕ → GameServer → Bool
is_player i s = holds s.white_player i || holds s.black_player i

abbrev pub color_of : ℕ → GameServer → PieceColor
color_of i s = (s.sessions i).assigned_color

pub record IsStable (P : GameServer → Type 0) : Type 0 where
  pub puts :
      (i : ℕ) (c : ClientSession) (s : GameServer)
      → c.assigned_color ≡ color_of i s
      → P s
      → P (put_session i c s)
  pub vacates : (i : ℕ) (s : GameServer) → is_player i s ≡ true → P s → P (vacated i s)
  pub reserves :
      (now i : ℕ) (s : GameServer)
      → is_player i s ≡ true
      → s.game_was_started ≡ true
      → is_connected (remaining_of (vacated i s)) (vacated i s) ≡ true
      → P s
      → P (reserve now (color_of i s) (vacated i s))
  pub forgets :
      (i : ℕ) (s : GameServer)
      → is_player i s ≡ true
      → s.game_was_started ≡ false
      → P s
      → P (set_identity (color_of i s) [] [] (vacated i s))

send_message-color :
    (m : Message) (c : ClientSession) → (send_message m c).0.assigned_color ≡ c.assigned_color
unfolding send_message
send_message-color m c = ground arith

disconnect-color : (c : ClientSession) → (disconnect c).assigned_color ≡ c.assigned_color
unfolding disconnect
disconnect-color c = ground arith

started-vacated : (i : ℕ) (s : GameServer) → s.game_was_started ≡ (vacated i s).game_was_started
unfolding vacated
started-vacated i s = refl

reserves_slot-true :
    (s : GameServer)
    → reserves_slot s ≡ true
    → (s.game_was_started ≡ true) × (is_connected (remaining_of s) s ≡ true)
reserves_slot-true s e =
    let rest = &&-eq-true s.game_was_started _ e in
    (rest.0, (&&-eq-true (not s.closing_expired_game) _ rest.1).1)

module _ {P : GameServer → Type 0} (h : IsStable P) where
  open h use {puts, vacates, reserves, forgets}

  pub send_to-keeps : (i : ℕ) (m : Message) (s : GameServer) → P s → P (send_to i m s).0
  unfolding send_to
  send_to-keeps i m s p =
      puts i (send_message m (s.sessions i)).0 s (send_message-color m (s.sessions i)) p

  pub drop_session-keeps : (i : ℕ) (s : GameServer) → P s → P (drop_session i s)
  unfolding drop_session
  drop_session-keeps i s p =
      puts i (disconnect (s.sessions i)) s (disconnect-color (s.sessions i)) p

  pub notify_waiting-keeps : (o : Option ℕ) (s : GameServer) → P s → P (notify_waiting o s)
  unfolding notify_waiting
  notify_waiting-keeps none s p = p
  notify_waiting-keeps (some i) s p =
      let sent = send_to-keeps i waiting_message s p in
      if-cases P _ _ _ (λ _. sent) (λ _. drop_session-keeps i _ sent)

  forget-keeps :
      (i : ℕ) (s : GameServer)
      → is_player i s ≡ true
      → P s
      → P (forget (color_of i s) (vacated i s))
  unfolding forget
  forget-keeps i s y p =
      if-cases P _ _ _ (λ _. vacates i s y p) (λ e. forgets i s y (started-vacated i s ∙ e) p)

  module _ (announce : ℕ → GameServer → GameServer)
      (keep : (seconds : ℕ) (s : GameServer) → P s → P (announce seconds s)) where
    depart-keeps :
        (now i : ℕ) (s : GameServer)
        → is_player i s ≡ true
        → P s
        → P (depart announce now (color_of i s) (vacated i s))
    unfolding depart
    depart-keeps now i s y p =
        if-cases P (reserves_slot (vacated i s)) _ _
          (λ e.
            let tests = reserves_slot-true (vacated i s) e in
            keep 20 _ (reserves now i s y (started-vacated i s ∙ tests.0) tests.1 p))
          (λ _. notify_waiting-keeps _ _ (forget-keeps i s y p))

    pub remove_with-keeps : (now i : ℕ) (s : GameServer) → P s → P (remove_with announce now i s)
    unfolding remove_with
    remove_with-keeps now i s p =
        if-cases P (is_player i s) _ _ (λ y. depart-keeps now i s y p) (λ _. p)

  pub send_each-keeps :
      (remove : ℕ → GameServer → GameServer)
      → ((i : ℕ) (s : GameServer) → P s → P (remove i s))
      → (m : Message) (is : List ℕ) (s : GameServer) → P s
      → P (send_each remove m is s)
  unfolding send_each
  send_each-keeps remove keep m [] s p = p
  send_each-keeps remove keep m (i ∷ is) s p =
      let sent = send_to-keeps i m s p in
      send_each-keeps remove keep m is _
        (if-cases P _ _ _ (λ _. sent) (λ _. keep i _ (drop_session-keeps i _ sent)))

  pub broadcast_with-keeps :
      (fuel now : ℕ) (m : Message) (s : GameServer) → P s → P (broadcast_with fuel now m s)
  unfolding broadcast_with
  broadcast_with-keeps zero now m s p = p
  broadcast_with-keeps (suc fuel) now m s p =
      send_each-keeps _
        (remove_with-keeps _
          (λ seconds. broadcast_with-keeps fuel now (reconnecting_message seconds)) now)
        m (connected_players s) s p

  pub broadcast-keeps : (now : ℕ) (m : Message) (s : GameServer) → P s → P (broadcast now m s)
  unfolding broadcast
  broadcast-keeps now m s p = broadcast_with-keeps 2 now m s p

  pub send_reconnecting_status-keeps :
      (now seconds : ℕ) (s : GameServer) → P s → P (send_reconnecting_status now seconds s)
  unfolding send_reconnecting_status
  send_reconnecting_status-keeps now seconds s p = broadcast-keeps now _ s p

  pub leave-keeps : (now i : ℕ) (s : GameServer) → P s → P (leave now i s)
  unfolding leave remove_session
  leave-keeps now i s p =
      remove_with-keeps _ (send_reconnecting_status-keeps now) now i _ (drop_session-keeps i s p)
