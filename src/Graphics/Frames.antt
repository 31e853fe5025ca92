-- ===== src/Graphics/Frames.antt =====
-- AnimationPlayer.cpp: when the loop of `update` ends, and what it leaves.
use native.Mathlib.Nat.{div-eq_of_lt, div-eq-sub-div, suc-mul}
use ctd_tamar.Common.{
  ℕ, zero, suc, ◌+◌, ◌-◌, ◌*◌, ◌≤◌, ◌<◌, pos, ◌≡◌, refl, ◌∙◌, ap, false, none, some, List, [], ◌∷◌,
  length, leb, leb→le, le→leb, is_empty_list, Bool-cases, inl, inr, if-true, if-false, arith,
}
use ctd_tamar.Graphics.Animation.{
  AnimationPlayer, next_frame, advance_frames, frame_duration_ms, advance_by, update,
}

-- A player between two updates: its frame is one of its frames.
abbrev pub IsPlaying : AnimationPlayer → Type 0
IsPlaying p = p.current_frame_index < length p.frame_paths

next_frame-IsPlaying : (d : ℕ) (p : AnimationPlayer) → IsPlaying p → IsPlaying (next_frame d p)
next_frame-IsPlaying d p h = ground arith

-- What the loop leaves of a player: less than the time of a frame, whole frames later, and a frame.
abbrev pub Plays : ℕ → AnimationPlayer → AnimationPlayer → Type 0
Plays d p q =
    (q.elapsed_ms < d)
    × ((n : ℕ) × (p.elapsed_ms ≡ q.elapsed_ms + n * d))
    × (q.frame_paths ≡ p.frame_paths)
    × IsPlaying q

one_more : (e d b n : ℕ) → d ≤ e → e - d ≡ b + n * d → e ≡ b + suc n * d
one_more e d b n l h = omega (arith, suc-mul n d)

advance_frames-Plays :
    (fuel d : ℕ) (p : AnimationPlayer)
    → 0 < d
    → p.elapsed_ms < fuel
    → IsPlaying p
    → (q : AnimationPlayer) × (advance_frames fuel d p ≡ some q) × Plays d p q
unfolding advance_frames
advance_frames-Plays zero d p o l h = elim l [ ]
advance_frames-Plays (suc fuel) d p o l h = elim (Bool-cases (leb d p.elapsed_ms)) [
  | inl y ↦
      let long = leb→le d p.elapsed_ms y in
      let (q, e, (b, (n, m), f, i)) =
        advance_frames-Plays fuel d (next_frame d p) o (omega arith) (next_frame-IsPlaying d p h) in
      (
        q,
        if-true (leb d p.elapsed_ms) _ _ y ∙ e,
        (b, (suc n, one_more p.elapsed_ms d q.elapsed_ms n long m), f, i),
      )
  | inr n ↦ (p, if-false (leb d p.elapsed_ms) _ _ n, (ground arith, (0, omega arith), refl, h))
]

advance_frames-never : (fuel : ℕ) (p : AnimationPlayer) → advance_frames fuel 0 p ≡ none
unfolding advance_frames
advance_frames-never zero p = refl
advance_frames-never (suc fuel) p =
    if-true (leb 0 p.elapsed_ms) _ _ (le→leb 0 p.elapsed_ms (omega arith))
    ∙ advance_frames-never fuel (next_frame 0 p)

not_empty : (xs : List (List ℕ)) {n : ℕ} → n < length xs → is_empty_list xs ≡ false
not_empty [] h = elim h [ ]
not_empty (x ∷ xs) h = refl

enough_time : (fps : ℕ) → suc fps ≤ 1000 → 0 < frame_duration_ms (suc fps)
enough_time fps l = omega (arith, div-eq-sub-div {m = suc fps} {n = 1000} (omega arith) l)

no_time : (fps : ℕ) → 1000 < suc fps → frame_duration_ms (suc fps) ≡ 0
no_time fps l = div-eq_of_lt l

module _ (p : AnimationPlayer) (fps delta : ℕ) (e : p.frames_per_second ≡ pos (suc fps))
    (h : IsPlaying p) where
  abbrev later : AnimationPlayer
  later = record p { elapsed_ms = p.elapsed_ms + delta }

  update-frames :
      (fuel : ℕ) → update fuel delta p ≡ advance_frames fuel (frame_duration_ms (suc fps)) later
  unfolding update
  update-frames fuel =
      if-false (is_empty_list p.frame_paths) _ _ (not_empty p.frame_paths h)
      ∙ ap (λ rate. advance_by fuel rate delta p) e

  -- With frames, and at a rate of at most a thousand frames a second, `update` ends: the time that is
  -- left is less than that of a frame, whole frames have gone by, and the frame that is shown is one
  -- of the player's.
  pub update-Plays :
      suc fps ≤ 1000
      → (q : AnimationPlayer) × (update (suc (p.elapsed_ms + delta)) delta p ≡ some q)
        × Plays (frame_duration_ms (suc fps)) (record p { elapsed_ms = p.elapsed_ms + delta }) q
  update-Plays l =
      let fuel = suc (p.elapsed_ms + delta) in
      let (q, x, k) =
        advance_frames-Plays fuel (frame_duration_ms (suc fps)) later (enough_time fps l)
          (omega arith) h in
      (q, update-frames fuel ∙ x, k)

  -- At a higher rate a frame has no time at all, and the loop of `update` does not end.
  pub update-never : 1000 < suc fps → (fuel : ℕ) → update fuel delta p ≡ none
  update-never l fuel =
      update-frames fuel
      ∙ ap (λ d. advance_frames fuel d later) (no_time fps l)
      ∙ advance_frames-never fuel later
