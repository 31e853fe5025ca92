-- ===== src/Lobby/Revisions.antt =====
-- The states of a match that reach LobbyApplicationState::applyEvent in any order.
use ctd_tamar.Common.{
  ◌≤◌, ltb, ◌≡◌, refl, true, false, some, List, [], ◌∷◌, All, arith, Bool-cases, inl, inr,
}
use ctd_tamar.Lobby.Events.{MatchStateEvent, match_state, text_eq}
use ctd_tamar.Lobby.State.{AuthoritativeMatchView, LobbyViewModel}
use ctd_tamar.Lobby.Apply.{apply_event}

abbrev pub apply_states : List MatchStateEvent → LobbyViewModel → LobbyViewModel
apply_states [] v = v
apply_states (e ∷ es) v = apply_states es (apply_event (match_state e) v)

-- The match has this view, with a revision that is not before any of the events.
abbrev pub HasLatest : AuthoritativeMatchView → List MatchStateEvent → LobbyViewModel → Type 0
HasLatest m es v =
    (n : AuthoritativeMatchView) × (v.current_match ≡ some n)
    × (m.revision ≤ n.revision)
    × All (λ (e : MatchStateEvent). e.revision ≤ n.revision) es

match_state-takes :
    (e : MatchStateEvent) (m : AuthoritativeMatchView) (v : LobbyViewModel)
    → v.current_match ≡ some m
    → text_eq m.room_id e.room_id ≡ true
    → ltb m.revision e.revision ≡ true
    → (apply_event (match_state e) v).current_match
      ≡ some (record m { revision = e.revision; snapshot = e.state })
unfolding apply_event
match_state-takes e m v h r l = simp (h, r, l) refl

match_state-ignores :
    (e : MatchStateEvent) (m : AuthoritativeMatchView) (v : LobbyViewModel)
    → v.current_match ≡ some m
    → text_eq m.room_id e.room_id ≡ true
    → ltb m.revision e.revision ≡ false
    → (apply_event (match_state e) v).current_match ≡ some m
unfolding apply_event
match_state-ignores e m v h r l = simp (h, r, l) refl

-- States of the current match, in any order and repeated or not: the revision that is shown never
-- falls and is in the end not before any of them.
pub apply_states-HasLatest :
    (es : List MatchStateEvent) (m : AuthoritativeMatchView) (v : LobbyViewModel)
    → v.current_match ≡ some m
    → All (λ (e : MatchStateEvent). text_eq m.room_id e.room_id ≡ true) es
    → HasLatest m es (apply_states es v)
unfolding apply_event
apply_states-HasLatest [] m v h r = (m, h, omega arith, tt)
apply_states-HasLatest (e ∷ es) m v h (r, rs) =
    let w = apply_event (match_state e) v in
    elim (Bool-cases (ltb m.revision e.revision)) [
      | inl later ↦
          let n : AuthoritativeMatchView = record m { revision = e.revision; snapshot = e.state } in
          let (k, latest, le, all) =
            apply_states-HasLatest es n w (match_state-takes e m v h r later) rs in
          (k, latest, ground (arith, le), (le, all))
      | inr earlier ↦
          let (k, latest, le, all) =
            apply_states-HasLatest es m w (match_state-ignores e m v h r earlier) rs in
          (k, latest, le, (ground (arith, le), all))
    ]
