-- ===== src/Client/GameState.antt =====
-- client/desktop_client/src/Client/ClientGameState.cpp: the latest snapshot of the server. A method
-- holds the lock from its start to its end, so each is one step.
use ctd_tamar.Common.{
  ℕ, ◌≤◌, ltb, ◌==◌, ◌≡◌, ◌⊎◌, inl, inr, Bool, true, false, ◌&&◌, not, Option, none, List, [], ◌∷◌,
  if◌then◌else◌, is_empty_list, find?, arith,
}
use ctd_tamar.Core.Position.{Position, pos_eq}
use ctd_tamar.Messaging.Snapshot.{Message, GameStateSnapshot, PieceSnapshot, default_snapshot}

pub record ClientGameState : Type 0 where
  pub current_snapshot : GameStateSnapshot
  pub initialized : Bool

abbrev pub new : ClientGameState
new = record { current_snapshot = default_snapshot; initialized = false }

-- The new snapshot is older than the current one.
abbrev pub is_older : GameStateSnapshot → GameStateSnapshot → Bool
is_older next now = ltb next.server_time_ms now.server_time_ms

-- It has the same time, and neither makes the players ready nor ends the game.
abbrev pub is_repeated : GameStateSnapshot → GameStateSnapshot → Bool
is_repeated next now =
    (next.server_time_ms == now.server_time_ms)
    && (not (not now.players_ready && next.players_ready)
        && not (not now.game_over && next.game_over))

abbrev pub unreadies : GameStateSnapshot → GameStateSnapshot → Bool
unreadies next now = now.players_ready && not next.players_ready

-- It has lost all its pieces in the middle of a game.
abbrev pub loses_pieces : GameStateSnapshot → GameStateSnapshot → Bool
loses_pieces next now =
    now.players_ready
    && (not (is_empty_list now.pieces) && (is_empty_list next.pieces && not next.game_over))

unfoldable pub apply_message : Message → ClientGameState → ClientGameState × Bool
apply_message m c =
    let now = c.current_snapshot in
    let next = m.snapshot in
    if not m.has_snapshot
    then (c, false)
    else (if c.initialized && is_older next now
        then (c, false)
        else (if c.initialized && is_repeated next now
            then (c, false)
            else (if c.initialized && unreadies next now
                then (c, false)
                else (if c.initialized && loses_pieces next now
                    then (c, false)
                    else (record { current_snapshot = next; initialized = true }, true)))))

unfoldable pub find_piece_by_id : ℕ → ClientGameState → Option PieceSnapshot
find_piece_by_id i c =
    if not c.initialized
    then none
    else find? (λ (p : PieceSnapshot). p.id == i) c.current_snapshot.pieces

unfoldable pub find_piece_at : Position → ClientGameState → Option PieceSnapshot
find_piece_at q c =
    if not c.initialized
    then none
    else find? (λ (p : PieceSnapshot). pos_eq p.position q) c.current_snapshot.pieces

abbrev pub is_game_over : ClientGameState → Bool
is_game_over c = c.initialized && c.current_snapshot.game_over

abbrev pub apply_all : List Message → ClientGameState → ClientGameState
apply_all [] c = c
apply_all (m ∷ ms) c = apply_all ms (apply_message m c).0

-- What the client has shown is not taken back: its time does not go back, and players that were
-- ready stay so.
abbrev pub Follows : ClientGameState → ClientGameState → Type 0
Follows c d =
    (c.initialized ≡ true → d.initialized ≡ true)
    × (c.initialized ≡ true → c.current_snapshot.server_time_ms ≤ d.current_snapshot.server_time_ms)
    × (c.initialized ≡ true
        → c.current_snapshot.players_ready ≡ true
        → d.current_snapshot.players_ready ≡ true)

-- One message, in any order and repeated or not, is refused with nothing changed, or its snapshot
-- becomes the current one; either way the time does not go back and the players stay ready.
pub apply_message-Follows :
    (m : Message) (c : ClientGameState)
    → let out = apply_message m c in
      Follows c out.0
      × (((out.1 ≡ false) × (out.0 ≡ c))
          ⊎ ((out.1 ≡ true)
              × (m.has_snapshot ≡ true)
              × (out.0 ≡ record { current_snapshot = m.snapshot; initialized = true })))
unfolding apply_message
apply_message-Follows m c = ground arith

-- Messages that arrive in any order never take the client back in time, nor from ready players to
-- waiting for one.
pub apply_all-Follows : (ms : List Message) (c : ClientGameState) → Follows c (apply_all ms c)
apply_all-Follows [] c = (λ i. i, λ i. omega arith, λ i r. r)
apply_all-Follows (m ∷ ms) c =
    let one = (apply_message-Follows m c).0 in
    let rest = apply_all-Follows ms (apply_message m c).0 in
    (
      λ i. rest.0 (one.0 i),
      λ i. omega (arith, one.1 i, rest.1 (one.0 i)),
      λ i r. rest.2 (one.0 i) (one.2 i r),
    )

refused_pair :
    (m : Message) (c : ClientGameState)
    → (apply_message m c).1 ≡ false
    → (apply_message m c).0 ≡ c
    → apply_message m c ≡ (c, false)
refused_pair m c f e = cc

repeated :
    (m : Message)
    → m.has_snapshot ≡ true
    → let d : ClientGameState = record { current_snapshot = m.snapshot; initialized = true } in
      apply_message m d ≡ (d, false)
unfolding apply_message
repeated m h = ground arith

-- A message is refused when it is received again at once, whether it was applied or not.
pub apply_message_twice :
    (m : Message) (c : ClientGameState)
    → let d = (apply_message m c).0 in apply_message m d ≡ (d, false)
apply_message_twice m c = elim (apply_message-Follows m c).1 [
  | inl (no_change, e) ↦ rw e (refused_pair m c no_change e)
  | inr (done, has, e) ↦ rw e (repeated m has)
]
