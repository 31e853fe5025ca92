-- ===== src/Client/Phases.antt =====
-- client/desktop_client/include/Client/GameStartState.hpp: the phases of the client's window. A
-- text is the constructor named after it; times are integers, whose differences do not wrap.
use ctd_tamar.Common.{
  ℤ, pos, ◌+ℤ◌, ◌-ℤ◌, leb_ℤ, ltb_ℤ, ◌≤ℤ◌, ◌≡◌, refl, sym, ap, subst, ◌∙◌, -ℤ_parts, ◌↔◌, Bool, true,
  false, ◌&&◌, not, if◌then◌else◌, arith, Bool-cases, inl, inr,
}
use ctd_tamar.Messaging.Snapshot.{GameStateSnapshot}

pub data ClientUiPhase : Type 0 where
  username_entry connecting waiting_for_opponent countdown playing reconnecting : ClientUiPhase
  game_over : ClientUiPhase

pub data DisplayText : Type 0 where
  nothing waiting_for_another_player go one two three : DisplayText

pub record GameStartDisplay : Type 0 where
  pub phase : ClientUiPhase
  pub text : DisplayText

abbrev pub shows : ClientUiPhase → DisplayText → GameStartDisplay
shows p t = record { phase = p; text = t }

-- What a ready game shows with so much time remaining.
abbrev pub display_of : ℤ → GameStartDisplay
display_of remaining =
    if leb_ℤ remaining (pos 0)
    then shows playing nothing
    else (if leb_ℤ remaining (pos 1000)
        then shows countdown go
        else (if leb_ℤ remaining (pos 2000)
            then shows countdown one
            else (if leb_ℤ remaining (pos 3000)
                then shows countdown two
                else shows countdown three)))

unfoldable pub build_game_start_display : Bool → ℤ → ℤ → GameStartDisplay
build_game_start_display players_ready starts_at now =
    if not players_ready
    then shows waiting_for_opponent waiting_for_another_player
    else display_of (starts_at -ℤ now)

pub record ClientUiPhaseMachine : Type 0 where
  pub current_phase : ClientUiPhase
  pub start_observed : Bool
  pub playing_reached : Bool
  pub steady_start_ms : ℤ

abbrev pub new : ClientUiPhaseMachine
new = record {
  current_phase = username_entry;
  start_observed = false;
  playing_reached = false;
  steady_start_ms = pos 0;
}

abbrev pub mark_connecting : ClientUiPhaseMachine → ClientUiPhaseMachine
mark_connecting m = if not m.playing_reached then record m { current_phase = connecting } else m

abbrev pub mark_reconnecting : ClientUiPhaseMachine → ClientUiPhaseMachine
mark_reconnecting m = if m.start_observed then record m { current_phase = reconnecting } else m

abbrev pub is_playing : ClientUiPhase → Bool
is_playing playing = true
is_playing _ = false

-- `remaining > 0 ? remaining : 0`.
abbrev pub not_below_zero : ℤ → ℤ
not_below_zero r = if ltb_ℤ (pos 0) r then r else pos 0

-- The first snapshot with ready players fixes the start on the steady clock.
unfoldable pub observe_start :
    GameStateSnapshot → ℤ → ℤ → ClientUiPhaseMachine → ClientUiPhaseMachine
observe_start s now_epoch now_steady m =
    if not m.start_observed && s.players_ready
    then record m {
      start_observed = true;
      steady_start_ms =
          now_steady +ℤ not_below_zero (pos s.gameplay_starts_at_epoch_ms -ℤ now_epoch);
    }
    else m

abbrev pub shown : GameStartDisplay → ClientUiPhaseMachine → ClientUiPhaseMachine × GameStartDisplay
shown d m = (record m { current_phase = d.phase }, d)

-- The display of a start that was observed.
abbrev pub count_down : ℤ → ClientUiPhaseMachine → ClientUiPhaseMachine × GameStartDisplay
count_down now_steady m =
    let d = build_game_start_display true m.steady_start_ms now_steady in
    if is_playing d.phase
    then (record m { current_phase = d.phase; playing_reached = true }, d)
    else shown d m

-- The display of a running game whose start, if it has one, has just been observed.
abbrev pub show_start : ℤ → ClientUiPhaseMachine → ClientUiPhaseMachine × GameStartDisplay
show_start now_steady m =
    if not m.start_observed
    then shown (shows waiting_for_opponent waiting_for_another_player) m
    else count_down now_steady m

unfoldable pub observe :
    GameStateSnapshot → ℤ → ℤ → ClientUiPhaseMachine → ClientUiPhaseMachine × GameStartDisplay
observe s now_epoch now_steady m =
    if s.game_over
    then shown (shows game_over nothing) m
    else (if m.playing_reached
        then shown (shows playing nothing) m
        else show_start now_steady (observe_start s now_epoch now_steady m))

-- A phase machine in which playing has been reached only after a start.
abbrev pub IsSound : ClientUiPhaseMachine → Type 0
IsSound m = m.playing_reached ≡ true → m.start_observed ≡ true

-- What an observation keeps of a machine: a start with its time, and that playing was reached.
abbrev pub Keeps : ClientUiPhaseMachine → ClientUiPhaseMachine → Type 0
Keeps m n =
    (m.start_observed ≡ true → (n.start_observed ≡ true) × (n.steady_start_ms ≡ m.steady_start_ms))
    × (m.playing_reached ≡ true → n.playing_reached ≡ true)

-- An outcome that is sound, displays its phase and keeps what the machine had.
abbrev pub KeepsAll : ClientUiPhaseMachine → ClientUiPhaseMachine × GameStartDisplay → Type 0
KeepsAll m out = IsSound out.0 × (out.0.current_phase ≡ out.1.phase) × Keeps m out.0

count_down-keeps :
    (now : ℤ) (m : ClientUiPhaseMachine) → m.start_observed ≡ true → KeepsAll m (count_down now m)
count_down-keeps now m o =
    elim (Bool-cases (is_playing (build_game_start_display true m.steady_start_ms now).phase)) [
      | inl y ↦ rw y (λ _. o, refl, (λ h. (h, refl), λ _. refl))
      | inr y ↦ rw y (λ _. o, refl, (λ h. (h, refl), λ h. h))
    ]

show_start-keeps : (now : ℤ) (m : ClientUiPhaseMachine) → IsSound m → KeepsAll m (show_start now m)
show_start-keeps now m sound =
    let waits = shown (shows waiting_for_opponent waiting_for_another_player) m in
    let choose : Bool → ClientUiPhaseMachine × GameStartDisplay =
      λ b. if not b then waits else count_down now m in
    elim (Bool-cases m.start_observed) [
      | inl y ↦ subst (KeepsAll m) (sym (ap choose y)) (count_down-keeps now m y)
      | inr n ↦ subst (KeepsAll m) (sym (ap choose n)) (sound, refl, (λ h. (h, refl), λ h. h))
    ]

observe_start-Keeps :
    (s : GameStateSnapshot) (now_epoch now_steady : ℤ) (m : ClientUiPhaseMachine)
    → IsSound m
    → let n = observe_start s now_epoch now_steady m in IsSound n × Keeps m n
unfolding observe_start
observe_start-Keeps s now_epoch now_steady m sound = ground arith

-- A display has the machine's phase, a start that was observed keeps its time, and playing is
-- never forgotten and never reached without a start.
pub observe-keeps :
    (s : GameStateSnapshot) (now_epoch now_steady : ℤ) (m : ClientUiPhaseMachine)
    → IsSound m
    → KeepsAll m (observe s now_epoch now_steady m)
unfolding observe
observe-keeps s now_epoch now_steady m sound =
    let kept = observe_start-Keeps s now_epoch now_steady m sound in
    let after = show_start-keeps now_steady (observe_start s now_epoch now_steady m) kept.0 in
    elim (Bool-cases s.game_over) [
      | inl o ↦ simp o (sound, refl, (λ h. (h, refl), λ h. h))
      | inr o ↦ simp o (elim (Bool-cases m.playing_reached) [
        | inl p ↦ simp p ((λ _. sound p), refl, (λ h. (h, refl), λ _. refl))
        | inr p ↦ simp p (
          after.0,
          after.1,
          (
            λ h. let k = kept.1.0 h in let e = after.2.0 k.0 in (e.0, e.1 ∙ k.1),
            λ h. after.2.1 (kept.1.1 (p ∙ h)),
          ),
        )
      ])
    ]

display_playing_iff :
    (start now : ℤ) → ((build_game_start_display true start now).phase ≡ playing) ↔ (start ≤ℤ now)
unfolding build_game_start_display
display_playing_iff start now = ground (arith, -ℤ_parts start now)

observed_start :
    (s : GameStateSnapshot) (now_epoch now_steady : ℤ) (m : ClientUiPhaseMachine)
    → m.start_observed ≡ true
    → observe_start s now_epoch now_steady m ≡ m
unfolding observe_start
observed_start s now_epoch now_steady m y = rw y refl

-- Of a running game, a machine with an observed start that has not reached playing shows playing
-- exactly from the start on.
pub observe-playing_iff :
    (s : GameStateSnapshot) (now_epoch now_steady : ℤ) (m : ClientUiPhaseMachine)
    → s.game_over ≡ false
    → m.start_observed ≡ true
    → m.playing_reached ≡ false
    → ((observe s now_epoch now_steady m).1.phase ≡ playing) ↔ (m.steady_start_ms ≤ℤ now_steady)
unfolding observe
observe-playing_iff s now_epoch now_steady m o y n =
    rw (observed_start s now_epoch now_steady m y) (
      simp (o, n, y)
        (elim (Bool-cases
          (is_playing (build_game_start_display true m.steady_start_ms now_steady).phase)) [
            | inl e ↦ rw e (display_playing_iff m.steady_start_ms now_steady)
            | inr e ↦ rw e (display_playing_iff m.steady_start_ms now_steady)
          ]))
