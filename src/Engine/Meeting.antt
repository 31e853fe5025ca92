-- ===== src/Engine/Meeting.antt =====
-- Who is met on a cell: what findPieceAtRealOrVirtualCell of GameEngine.cpp finds.
use ctd_tamar.Common.{
  ◌≡◌, ◌≢◌, ◌⊎◌, inl, inr, refl, sym, ap, Bool, true, false, not, ◌&&◌, Option, none, some, List,
  [], ◌∷◌, ◌==◌, is_some, find?, find?-sound, All, Bool-cases, Option-cases, arith, subst,
  &&-eq-true,
}
use ctd_tamar.Core.Position.{Position, pos_eq, pos_ne, pos_eq→eq, pos_eq_refl, pos_ne→ne}
use ctd_tamar.Core.Piece.{PieceState, moving, idle, airborne, captured, is_moving}
use ctd_tamar.Core.Board.{Ref, get_piece_at}
use ctd_tamar.Realtime.Arbiter.{Motion}
use ctd_tamar.Engine.State.{GameEngine}
use ctd_tamar.Engine.Cells.{passes, standing, find_piece_at_real_or_virtual_cell}

abbrev pub Exists {ℓ} : {A : Type ℓ} → (A → Type 0) → List A → Type 0
Exists P [] = ⊥
Exists P (x ∷ xs) = P x ⊎ Exists P xs

-- A piece that moves, and that a motion has brought to the cell.
abbrev pub Passing : GameEngine → Position → Ref → Type 0
Passing g cell t =
    ((g.heap t).state ≡ moving)
    × Exists (λ (m : Motion). (m.piece ≡ t) × (m.current_cell ≡ cell)) g.real_time.active_motions

-- A motion of the piece that has left the cell.
abbrev pub HasLeft : Position → Ref → Motion → Type 0
HasLeft cell t m = (m.piece ≡ t) × (m.current_cell ≢ cell)

-- A piece that the board shows on the cell, unless it moves and has left it.
abbrev pub Standing : GameEngine → Position → Ref → Type 0
Standing g cell t =
    (get_piece_at g.board cell ≡ some t)
    × (((g.heap t).state ≢ moving)
        ⊎ All (λ (m : Motion). ¬ HasLeft cell t m) g.real_time.active_motions)

-- Another piece on the cell.
abbrev pub Meets : GameEngine → Position → Ref → Ref → Type 0
Meets g cell r t = (t ≢ r) × (Passing g cell t ⊎ Standing g cell t)

abbrev pub Nobody : GameEngine → Position → Ref → Type 0
Nobody g cell r = (t : Ref) → ¬ Meets g cell r t

pub moving→eq : (s : PieceState) → is_moving s ≡ true → s ≡ moving
moving→eq moving h = refl
moving→eq idle h = cc
moving→eq airborne h = cc
moving→eq captured h = cc

pub not_moving→ne : (s : PieceState) → is_moving s ≡ false → s ≢ moving
not_moving→ne s h e = ground arith

pub ==→eq : (a b : Ref) → (a == b) ≡ true → a ≡ b
==→eq a b h = ground arith

pub ==→ne : (a b : Ref) → (a == b) ≡ false → a ≢ b
==→ne a b h e = ground arith

pub ne→== : (a b : Ref) → a ≢ b → (a == b) ≡ false
ne→== a b h = elim (Bool-cases (a == b)) [ inl y ↦ absurd (h (==→eq a b y)) | inr n ↦ n ]

pub found-Exists :
    {A : Type 0} (P : A → Type 0) (p : A → Bool) (xs : List A) {x : A}
    → ((y : A) → p y ≡ true → y ≡ x → P y)
    → find? p xs ≡ some x
    → Exists P xs
unfolding find?
found-Exists P p [] f h = cc
found-Exists P p (y ∷ xs) {x} f h = elim (Bool-cases (p y)) [
  | inl b ↦ inl (f y b (ground arith))
  | inr b ↦ inr (found-Exists P p xs {x = x} f (ground arith))
]

pub not_found-All :
    {A : Type 0} (P : A → Type 0) (p : A → Bool) (xs : List A)
    → ((y : A) → p y ≡ false → P y)
    → find? p xs ≡ none
    → All P xs
unfolding find?
not_found-All P p [] f h = tt
not_found-All P p (y ∷ xs) f h = elim (Bool-cases (p y)) [
  | inl b ↦ absurd (ground arith)
  | inr b ↦ (f y b, not_found-All P p xs f (ground arith))
]

pub not_Exists : {A : Type 0} (P : A → Type 0) (xs : List A) → All (λ x. ¬ P x) xs → ¬ Exists P xs
not_Exists P [] h e = e
not_Exists P (x ∷ xs) h (inl p) = h.0 p
not_Exists P (x ∷ xs) h (inr e) = not_Exists P xs h.1 e

three : (a b c : Bool) → (not a && b && c) ≡ true → (a ≡ false) × (b ≡ true) × (c ≡ true)
three a b c h = ground arith

module _ (g : GameEngine) (cell : Position) (r : Ref) where
  passes_parts :
      (m : Motion)
      → passes g.heap cell r m ≡ true
      → (m.piece ≢ r) × ((g.heap m.piece).state ≡ moving) × (m.current_cell ≡ cell)
  passes_parts m h =
      let (a, b, c) = three (m.piece == r) (is_moving (g.heap m.piece).state) _ h in
      (==→ne m.piece r a, moving→eq _ b, pos_eq→eq m.current_cell cell c)

  not_passing :
      (k : Motion)
      → passes g.heap cell r k ≡ false
      → (t : Ref) → t ≢ r
      → (g.heap t).state ≡ moving
      → k.piece ≡ t
      → ¬ (k.current_cell ≡ cell)
  not_passing k b t d m e c =
      let other : (k.piece == r) ≡ false = ne→== k.piece r (subst (λ x. x ≢ r) (sym e) d) in
      let moves : is_moving (g.heap k.piece).state ≡ true = rw (e, m) refl in
      let at : pos_eq k.current_cell cell ≡ true = rw c (pos_eq_refl cell) in absurd (ground arith)

  passes-Meets :
      (m : Motion)
      → find? (passes g.heap cell r) g.real_time.active_motions ≡ some m
      → Meets g cell r m.piece
  passes-Meets m h =
      let (n, s, c) =
        passes_parts m (find?-sound (passes g.heap cell r) g.real_time.active_motions h) in
      (
        n,
        inl (
          s,
          found-Exists (λ (k : Motion). (k.piece ≡ m.piece) × (k.current_cell ≡ cell))
              (passes g.heap cell r) g.real_time.active_motions
              (λ k b e. (ap (λ (x : Motion). x.piece) e, (passes_parts k b).2)) h,
        ),
      )

  abbrev has_left : Ref → Motion → Bool
  has_left t m = m.piece == t && pos_ne m.current_cell cell

  not_left : (t : Ref) (m : Motion) → has_left t m ≡ false → ¬ HasLeft cell t m
  not_left t m h (e, n) = elim (Bool-cases (pos_eq m.current_cell cell)) [
    | inl y ↦ n (pos_eq→eq m.current_cell cell y)
    | inr b ↦ absurd (ground arith)
  ]

  left : (t : Ref) (m : Motion) → has_left t m ≡ true → HasLeft cell t m
  left t m h =
      let (a, b) = &&-eq-true (m.piece == t) _ h in
      (==→eq m.piece t a, pos_ne→ne m.current_cell cell (ground arith))

  -- Whether the piece that the board shows moves and has left the cell.
  abbrev is_gone : Ref → Bool
  is_gone t = is_moving (g.heap t).state && is_some (find? (has_left t) g.real_time.active_motions)

  here : (t : Ref) → is_gone t ≡ false → get_piece_at g.board cell ≡ some t → Standing g cell t
  here t h e = elim (Bool-cases (is_moving (g.heap t).state)) [
    | inr n ↦ (e, inl (not_moving→ne _ n))
    | inl y ↦ elim (Option-cases (find? (has_left t) g.real_time.active_motions)) [
      | inl n ↦ (
        e,
        inr (
            not_found-All (λ (m : Motion). ¬ HasLeft cell t m) (has_left t)
              g.real_time.active_motions (not_left t) n),
      )
      | inr (m, f) ↦ absurd (ground arith)
    ]
  ]

  gone : (t : Ref) → is_gone t ≡ true → ¬ Standing g cell t
  gone t h (e, inl n) = n (moving→eq _ (&&-eq-true (is_moving (g.heap t).state) _ h).0)
  gone t h (e, inr a) = elim (Option-cases (find? (has_left t) g.real_time.active_motions)) [
    | inl n ↦ absurd (ground arith)
    | inr (m, f) ↦ not_Exists (HasLeft cell t) g.real_time.active_motions a (
        found-Exists (HasLeft cell t) (has_left t) g.real_time.active_motions (λ k b _. left t k b)
          f)
  ]

  standing-Meets :
      (o : Option Ref) {t : Ref}
      → get_piece_at g.board cell ≡ o
      → standing g.heap g.real_time.active_motions cell r o ≡ some t
      → Meets g cell r t
  standing-Meets none e h = cc
  standing-Meets (some q) {t} e h = elim (Bool-cases (q == r)) [
    | inl y ↦ absurd (ground arith)
    | inr n ↦ elim (Bool-cases (is_gone q)) [
      | inl y ↦ absurd (ground arith)
      | inr b ↦
          let same : q ≡ t = ground arith in
          subst (Meets g cell r) same (==→ne q r n, inr (here q b e))
    ]
  ]

  standing-nobody :
      (o : Option Ref)
      → get_piece_at g.board cell ≡ o
      → standing g.heap g.real_time.active_motions cell r o ≡ none
      → (t : Ref) → t ≢ r
      → ¬ Standing g cell t
  standing-nobody none e h t n s = cc
  standing-nobody (some q) e h t n s =
      let same : t ≡ q = ground (arith, s.0) in
      let other : (q == r) ≡ false = ne→== q r (subst (λ x. x ≢ r) same n) in
      elim (Bool-cases (is_gone q)) [
        | inl y ↦ gone q y (subst (Standing g cell) same s)
        | inr b ↦ absurd (ground arith)
      ]

  pub find-Meets :
      {t : Ref} → find_piece_at_real_or_virtual_cell g cell r ≡ some t → Meets g cell r t
  unfolding find_piece_at_real_or_virtual_cell
  find-Meets {t} h = elim (Option-cases (find? (passes g.heap cell r) g.real_time.active_motions)) [
    | inl n ↦ standing-Meets (get_piece_at g.board cell) refl (ground arith)
    | inr (m, f) ↦
        let same : m.piece ≡ t = ground arith in subst (Meets g cell r) same (passes-Meets m f)
  ]

  pub find-Nobody : find_piece_at_real_or_virtual_cell g cell r ≡ none → Nobody g cell r
  unfolding find_piece_at_real_or_virtual_cell
  find-Nobody h = elim (Option-cases (find? (passes g.heap cell r) g.real_time.active_motions)) [
    | inl n ↦ λ t (d, at). elim at [
      | inl (m, x) ↦
          not_Exists (λ (k : Motion). (k.piece ≡ t) × (k.current_cell ≡ cell))
            g.real_time.active_motions
            (not_found-All (λ (k : Motion). ¬ ((k.piece ≡ t) × (k.current_cell ≡ cell)))
              (passes g.heap cell r) g.real_time.active_motions
              (λ k b (e, c). not_passing k b t d m e c) n)
            x
      | inr s ↦ standing-nobody (get_piece_at g.board cell) refl (ground arith) t d s
    ]
    | inr (m, f) ↦ absurd (ground arith)
  ]
