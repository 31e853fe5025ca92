-- ===== src/Server/Broadcasts.antt =====
-- The recursion between `broadcast` and `removeSession` of GameServer.cpp ends.
use ctd_tamar.Common.{
  ℕ, zero, suc, ◌+◌, ◌≤◌, ◌<◌, ◌≡◌, refl, sym, ◌∙◌, true, ◌||◌, Option, none, some, List, [], ◌∷◌,
  if-cases, if-true, if-false, Bool-cases, inl, inr, arith,
}
use ctd_tamar.Messaging.Snapshot.{Message}
use ctd_tamar.Server.State.{GameServer, put_session}
use ctd_tamar.Server.Sessions.{
  holds, vacate, vacated, reserve, depart, remove_with, reserves_slot, send_each, send_to,
  drop_session, broadcast_with, broadcast, connected_players, reconnecting_message,
}
use ctd_tamar.Server.Stable.{
  IsStable, is_player, color_of, remove_with-keeps, send_to-keeps, drop_session-keeps,
  broadcast_with-keeps,
}

abbrev count : Option ℕ → ℕ
count none = 0
count (some _) = 1

abbrev players : GameServer → ℕ
players s = count s.white_player + count s.black_player

abbrev HasAtMost : ℕ → GameServer → Type 0
HasAtMost k s = players s ≤ k

count-vacate-le : (o : Option ℕ) (i : ℕ) → count (vacate o i) ≤ count o
count-vacate-le none i = omega arith
count-vacate-le (some j) i = ground arith

vacate-lt :
    (w b : Option ℕ) (i : ℕ)
    → (holds w i || holds b i) ≡ true
    → count (vacate w i) + count (vacate b i) < count w + count b
vacate-lt none none i y = cc
vacate-lt none (some k) i y = ground arith
vacate-lt (some j) none i y = ground arith
vacate-lt (some j) (some k) i y = ground arith

fewer : (i : ℕ) (s : GameServer) (k : ℕ) → players s ≤ k → players (vacated i s) ≤ k
unfolding vacated
fewer i s k h = omega (arith, h, count-vacate-le s.white_player i, count-vacate-le s.black_player i)

one_fewer :
    (i : ℕ) (s : GameServer) (k : ℕ)
    → is_player i s ≡ true
    → players s ≤ suc k
    → players (vacated i s) ≤ k
unfolding vacated
one_fewer i s k y h = omega (arith, h, vacate-lt s.white_player s.black_player i y)

HasAtMost-IsStable : (k : ℕ) → IsStable (HasAtMost k)
unfolding put_session vacated reserve
HasAtMost-IsStable k = record {
  puts = λ i c s e h. h;
  vacates = λ i s y h. fewer i s k h;
  reserves = λ now i s y w r h. fewer i s k h;
  forgets = λ i s y w h. fewer i s k h;
}

module _ (a b : ℕ → GameServer → GameServer) (k : ℕ)
    (agree : (seconds : ℕ) (s : GameServer) → players s ≤ k → a seconds s ≡ b seconds s) where
  depart-agree :
      (now i : ℕ) (s : GameServer)
      → players (vacated i s) ≤ k
      → depart a now (color_of i s) (vacated i s) ≡ depart b now (color_of i s) (vacated i s)
  unfolding depart reserve
  depart-agree now i s h = elim (Bool-cases (reserves_slot (vacated i s))) [
    | inl e ↦
        if-true (reserves_slot (vacated i s)) _ _ e
        ∙ agree 20 (reserve now (color_of i s) (vacated i s)) h
        ∙ sym (if-true (reserves_slot (vacated i s)) _ _ e)
    | inr e ↦
        if-false (reserves_slot (vacated i s)) _ _ e
        ∙ sym (if-false (reserves_slot (vacated i s)) _ _ e)
  ]

  remove_with-agree :
      (now i : ℕ) (s : GameServer)
      → players s ≤ suc k
      → remove_with a now i s ≡ remove_with b now i s
  unfolding remove_with
  remove_with-agree now i s h = elim (Bool-cases (is_player i s)) [
    | inl e ↦
        if-true (is_player i s) _ _ e
        ∙ depart-agree now i s (one_fewer i s k e h)
        ∙ sym (if-true (is_player i s) _ _ e)
    | inr e ↦ if-false (is_player i s) _ _ e ∙ sym (if-false (is_player i s) _ _ e)
  ]

send_each-agree :
    (f g : ℕ → GameServer → GameServer) (k : ℕ)
    → ((i : ℕ) (s : GameServer) → players s ≤ k → f i s ≡ g i s)
    → ((i : ℕ) (s : GameServer) → players s ≤ k → players (g i s) ≤ k)
    → (m : Message) (is : List ℕ) (s : GameServer) → players s ≤ k
    → send_each f m is s ≡ send_each g m is s
unfolding send_each
send_each-agree f g k same keep m [] s h = refl
send_each-agree f g k same keep m (i ∷ is) s h =
    let t : GameServer = (send_to i m s).0 in
    let sent = send_to-keeps (HasAtMost-IsStable k) i m s h in
    let dropped = drop_session-keeps (HasAtMost-IsStable k) i t sent in
    rw (same i (drop_session i t) dropped) (
      send_each-agree f g k same keep m is _ (
        if-cases (HasAtMost k) (send_to i m s).1 t (g i (drop_session i t)) (λ _. sent)
          (λ _. keep i (drop_session i t) dropped)))

connected_slots :
    (w b : Option ℕ) (s : GameServer) → count w + count b ≤ 0 → (w ≡ none) × (b ≡ none)
connected_slots none none s h = (refl, refl)
connected_slots none (some b) s h = absurd (omega arith)
connected_slots (some w) b s h = absurd (omega arith)

no_players : (s : GameServer) → players s ≤ 0 → connected_players s ≡ []
unfolding connected_players
no_players s h = let e = connected_slots s.white_player s.black_player s h in simp (e.0, e.1)

broadcast_with-none :
    (fuel now : ℕ) (m : Message) (s : GameServer) → players s ≤ 0 → broadcast_with fuel now m s ≡ s
unfolding broadcast_with send_each
broadcast_with-none zero now m s h = refl
broadcast_with-none (suc fuel) now m s h = rw (no_players s h) refl

broadcast_with-enough :
    (k n now : ℕ) (m : Message) (s : GameServer)
    → players s ≤ k
    → broadcast_with (n + k) now m s ≡ broadcast_with k now m s
unfolding broadcast_with
broadcast_with-enough zero n now m s h = broadcast_with-none (n + 0) now m s h
broadcast_with-enough (suc k) n now m s h =
    let next : n + suc k ≡ suc (n + k) = omega arith in
    rw next (
      send_each-agree _ _ (suc k)
        (remove_with-agree _ _ k
          (λ seconds t small. broadcast_with-enough k n now (reconnecting_message seconds) t small)
          now)
        (remove_with-keeps (HasAtMost-IsStable (suc k)) _
          (λ seconds.
            broadcast_with-keeps (HasAtMost-IsStable (suc k)) k now (reconnecting_message seconds))
          now)
        m (connected_players s) s h)

at_most_two : (w b : Option ℕ) → count w + count b ≤ 2
at_most_two none none = omega arith
at_most_two none (some _) = omega arith
at_most_two (some _) none = omega arith
at_most_two (some _) (some _) = omega arith

-- `broadcast` ends: its recursion through `removeSession` gives the same result at every depth from
-- two on, since each level empties one of the two slots.
pub broadcast_depth :
    (n now : ℕ) (m : Message) (s : GameServer) → broadcast_with (n + 2) now m s ≡ broadcast now m s
unfolding broadcast
broadcast_depth n now m s =
    broadcast_with-enough 2 n now m s (at_most_two s.white_player s.black_player)
