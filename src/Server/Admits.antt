-- ===== src/Server/Admits.antt =====
-- `createSession` of GameServer.cpp: who gets which slot, and that the server stays sound.
use ctd_tamar.Common.{
  ℕ, suc, ◌≡◌, ◌⊎◌, refl, Bool, true, false, not, ◌&&◌, Option, none, some, List, ◌==◌,
  if◌then◌else◌, if-cases, arith,
}
use ctd_tamar.Core.Piece.{PieceColor, white, black}
use ctd_tamar.Client.Username.{trim, is_valid}
use ctd_tamar.Core.Results.{Reason}
use ctd_tamar.Messaging.Snapshot.{MessageType}
use ctd_tamar.Server.State.{Environment, GameServer, ClientSession, new_session, is_connected}
use ctd_tamar.Server.Sessions.{
  pick, player_of, join, reclaim, assign_slot, create_session, Admission, valid_reconnect,
  has_expired, username_of, refusal, admitted, invalid_reason,
}
use ctd_tamar.Server.Invariant.{Seats, Reserves, IsSound}

-- The session table with a new entry behind those that were given out.
abbrev with_new : (ℕ → ClientSession) → ℕ → ClientSession → ℕ → ClientSession
with_new f n c j = if j == n then c else f j

Seats-new :
    (f : ℕ → ClientSession) (n : ℕ) (c : ClientSession) (color : PieceColor) (o : Option ℕ)
    → Seats f n color o
    → Seats (with_new f n c) (suc n) color o
Seats-new f n c color none h = tt
Seats-new f n c color (some j) h = ground arith

Seats-seat :
    (f : ℕ → ClientSession) (n : ℕ) (color : PieceColor) (name : List ℕ) (w b : Option ℕ)
    → Seats f n white w
    → Seats f n black b
    → Seats (with_new f n (new_session n color name)) (suc n) white (pick color (some n) w)
      × Seats (with_new f n (new_session n color name)) (suc n) black (pick color b (some n))
Seats-seat f n white name w b hw hb = (ground arith, Seats-new f n _ black b hb)
Seats-seat f n black name w b hw hb = (Seats-new f n _ white w hw, ground arith)

abbrev pub next_id : GameServer → GameServer
next_id s = record s { next_client_id = suc s.next_client_id }

Seats-later :
    (f : ℕ → ClientSession) (n : ℕ) (color : PieceColor) (o : Option ℕ)
    → Seats f n color o
    → Seats f (suc n) color o
Seats-later f n color none h = tt
Seats-later f n color (some j) h = ground arith

pub next_id-IsSound : (s : GameServer) → IsSound s → IsSound (next_id s)
next_id-IsSound s h = (
  Seats-later s.sessions s.next_client_id white s.white_player h.0,
  Seats-later s.sessions s.next_client_id black s.black_player h.1,
  h.2,
  h.3,
  h.4,
  h.5,
)

-- How `createSession` ends, and when. The name is the requested one without blanks at its ends.
pub data Ends (env : Environment) (token name : List ℕ) (s : GameServer)
    : GameServer × Admission → Type 0 where
  closing :
      s.closing_expired_game ≡ true
      → Ends env token name s (next_id s, refusal MessageType.game_full Reason.game_closing)
  expired :
      has_expired token s ≡ true
      → Ends env token name s
          (next_id s, refusal MessageType.game_closed Reason.opponent_did_not_reconnect)
  nameless :
      valid_reconnect token s ≡ false
      → is_valid name ≡ false
      → Ends env token name s
          (next_id s, refusal MessageType.invalid_username (invalid_reason name))
  reclaims :
      s.closing_expired_game ≡ false
      → has_expired token s ≡ false
      → valid_reconnect token s ≡ true
      → Ends env token name s (reclaim s.next_client_id (next_id s), admitted s.next_client_id)
  joins :
      (color : PieceColor)
      → s.reconnection_pending ≡ false
      → is_connected (player_of color s) s ≡ false
      → has_expired token s ≡ false
      → is_valid name ≡ true
      → Ends env token name s
          (join env s.next_client_id color name (next_id s), admitted s.next_client_id)
  full :
      ((s.reconnection_pending ≡ true) × (valid_reconnect token s ≡ false))
        ⊎ ((is_connected s.white_player s ≡ true) × (is_connected s.black_player s ≡ true))
      → Ends env token name s (next_id s, refusal MessageType.game_full Reason.game_full)

is_connected-next_id :
    (o : Option ℕ) (s : GameServer) → is_connected o (next_id s) ≡ is_connected o s
is_connected-next_id none s = refl
is_connected-next_id (some i) s = refl

free_slot :
    (color : PieceColor) (s : GameServer)
    → (not s.reconnection_pending && not (is_connected (player_of color s) (next_id s))) ≡ true
    → (s.reconnection_pending ≡ false) × (is_connected (player_of color s) s ≡ false)
free_slot color s e = ground (arith, is_connected-next_id (player_of color s) s)

valid_name :
    (token name : List ℕ) (s : GameServer)
    → (not (valid_reconnect token s) && not (is_valid name)) ≡ true
    → (valid_reconnect token s ≡ false) × (is_valid name ≡ false)
valid_name token name s e = ground arith

name_valid :
    (token name : List ℕ) (s : GameServer)
    → (not (valid_reconnect token s) && not (is_valid name)) ≡ false
    → valid_reconnect token s ≡ false
    → is_valid name ≡ true
name_valid token name s e v = ground arith

no_slot :
    (token : List ℕ) (s : GameServer)
    → (not s.reconnection_pending && not (is_connected s.white_player (next_id s))) ≡ false
    → (not s.reconnection_pending && not (is_connected s.black_player (next_id s))) ≡ false
    → valid_reconnect token s ≡ false
    → ((s.reconnection_pending ≡ true) × (valid_reconnect token s ≡ false))
      ⊎ ((is_connected s.white_player s ≡ true) × (is_connected s.black_player s ≡ true))
no_slot token s e f v =
    ground (arith, is_connected-next_id s.white_player s, is_connected-next_id s.black_player s)

pub create_session-Ends :
    (env : Environment) (token name : List ℕ) (s : GameServer)
    → Ends env token (trim name) s (create_session env token name s)
unfolding create_session assign_slot valid_reconnect has_expired
create_session-Ends env token name s = if-cases (Ends env token (trim name) s) _ _ _ closing (λ c.
    if-cases (Ends env token (trim name) s) _ _ _ expired (λ x.
      if-cases (Ends env token (trim name) s) _ _ _
        (λ e. let n = valid_name token (trim name) s e in nameless n.0 n.1)
        (λ e.
          if-cases (Ends env token (trim name) s) _ _ _ (λ v. reclaims c x v)
            (λ v.
              let name_ok = name_valid token (trim name) s e v in
              if-cases (Ends env token (trim name) s) _ _ _
                (λ w. let f = free_slot white s w in joins white f.0 f.1 x name_ok)
                (λ w.
                  if-cases (Ends env token (trim name) s) _ _ _
                    (λ b. let f = free_slot black s b in joins black f.0 f.1 x name_ok)
                    (λ b. full (no_slot token s w b v)))))))

reclaim-IsSound : (s : GameServer) → IsSound s → IsSound (reclaim s.next_client_id (next_id s))
unfolding reclaim
reclaim-IsSound s h =
    let seats =
      Seats-seat s.sessions s.next_client_id s.reserved_color (username_of s.reserved_color s)
        s.white_player s.black_player h.0 h.1 in
    (seats.0, seats.1, tt, h.3, h.4, h.5)

Reserves-none :
    (w g : Bool) (slot : Option ℕ) (pending : Bool) → pending ≡ false → Reserves pending w g slot
Reserves-none w g slot false e = tt
Reserves-none w g slot true e = cc

join-IsSound :
    (env : Environment) (color : PieceColor) (name : List ℕ) (s : GameServer)
    → s.reconnection_pending ≡ false
    → IsSound s
    → IsSound (join env s.next_client_id color name (next_id s))
unfolding join
join-IsSound env color name s e h =
    let seats =
      Seats-seat s.sessions s.next_client_id color name s.white_player s.black_player h.0 h.1 in
    (seats.0, seats.1, Reserves-none _ _ _ s.reconnection_pending e, h.3, h.4, h.5)

Ends-IsSound :
    (env : Environment) (token name : List ℕ) (s : GameServer) {out : GameServer × Admission}
    → Ends env token name s out
    → IsSound s
    → IsSound out.0
Ends-IsSound env token name s (closing _) h = next_id-IsSound s h
Ends-IsSound env token name s (expired _) h = next_id-IsSound s h
Ends-IsSound env token name s (nameless _ _) h = next_id-IsSound s h
Ends-IsSound env token name s (reclaims _ _ _) h = reclaim-IsSound s h
Ends-IsSound env token name s (joins color e _ _ _) h = join-IsSound env color name s e h
Ends-IsSound env token name s (full _) h = next_id-IsSound s h

pub create_session-IsSound :
    (env : Environment) (token name : List ℕ) (s : GameServer)
    → IsSound s
    → IsSound (create_session env token name s).0
create_session-IsSound env token name s h =
    Ends-IsSound env token (trim name) s (create_session-Ends env token name s) h
