-- ===== src/Client/Username.antt =====
-- shared/cpp/include/Client/Username.hpp: display names, as the codes of their bytes.
use mathlib.Core.Option
use ctd_tamar.Common.{
  ℕ, leb, ◌==◌, ◌≡◌, refl, ap, subst, ◌∙◌, inl, inr, Bool, true, false, ◌&&◌, ◌||◌, not, Option,
  none, some, List, [], ◌∷◌, if◌then◌else◌, is_empty_list, length, find?, arith, Bool-cases,
}

abbrev pub max_length : ℕ
max_length = 64

-- `std::isspace` of the "C" locale: the blank, and the codes from tab to carriage return.
abbrev pub is_space : ℕ → Bool
is_space c = (c == 32) || (leb 9 c && leb c 13)

-- The first loop: the text from its first byte that is no space.
unfoldable pub trim_front : List ℕ → List ℕ
trim_front [] = []
trim_front (c ∷ cs) = let rest = trim_front cs in if is_space c then rest else c ∷ cs

-- The second loop: the text up to its last byte that is no space.
unfoldable pub trim_back : List ℕ → List ℕ
trim_back [] = []
trim_back (c ∷ cs) =
    let rest = trim_back cs in if is_space c && is_empty_list rest then [] else c ∷ rest

abbrev pub trim : List ℕ → List ℕ
trim value = trim_back (trim_front value)

unfoldable pub is_valid : List ℕ → Bool
is_valid value =
    let trimmed = trim value in not (is_empty_list trimmed) && leb (length trimmed) max_length

-- The loop of `prompt` over the lines of its input; at their end it throws, which is `none`.
unfoldable pub prompt : List (List ℕ) → Option (List ℕ)
unfolding is_valid
prompt [] = none
prompt (line ∷ lines) =
    let rest = prompt lines in if is_valid (trim line) then some (trim line) else rest

-- A text that is empty or begins with a byte that is no space.
abbrev pub StartsClean : List ℕ → Type 0
StartsClean [] = Unit
StartsClean (c ∷ cs) = is_space c ≡ false

trim_front-StartsClean : (xs : List ℕ) → StartsClean (trim_front xs)
unfolding trim_front
trim_front-StartsClean [] = tt
trim_front-StartsClean (c ∷ cs) = elim (Bool-cases (is_space c)) [
  | inl y ↦ rw y (trim_front-StartsClean cs)
  | inr n ↦ rw n n
]

trim_front_clean : (xs : List ℕ) → StartsClean xs → trim_front xs ≡ xs
unfolding trim_front
trim_front_clean [] h = refl
trim_front_clean (c ∷ cs) h = rw h refl

trim_back-StartsClean : (xs : List ℕ) → StartsClean xs → StartsClean (trim_back xs)
unfolding trim_back
trim_back-StartsClean [] h = tt
trim_back-StartsClean (c ∷ cs) h = rw h h

trim_back_twice : (xs : List ℕ) → trim_back (trim_back xs) ≡ trim_back xs
unfolding trim_back
trim_back_twice [] = refl
trim_back_twice (c ∷ cs) = elim (Bool-cases (is_space c && is_empty_list (trim_back cs))) [
  | inl y ↦ rw y refl
  | inr n ↦ rw (n, trim_back_twice cs, n) refl
]

-- A trimmed text has nothing left to trim.
pub trim_twice : (xs : List ℕ) → trim (trim xs) ≡ trim xs
trim_twice xs =
    ap trim_back (
      trim_front_clean (trim xs)
        (trim_back-StartsClean (trim_front xs) (trim_front-StartsClean xs)))
    ∙ trim_back_twice (trim_front xs)

-- A name is valid exactly if its trimmed form is.
pub is_valid-trim : (xs : List ℕ) → is_valid (trim xs) ≡ is_valid xs
unfolding is_valid
is_valid-trim xs = rw (trim_twice xs) refl

valid_trimmed :
    (line name : List ℕ)
    → is_valid line ≡ true
    → some (trim line) ≡ some name
    → (is_valid name ≡ true) × (trim name ≡ name)
valid_trimmed line name y h =
    let e : trim line ≡ name = cc in
    subst (λ n. (is_valid n ≡ true) × (trim n ≡ n)) e (is_valid-trim line ∙ y, trim_twice line)

-- What is prompted for is the trimmed form of the first valid line, and there is none only if no
-- line is valid; so a name that is returned is trimmed and valid.
pub prompt_lem :
    (lines : List (List ℕ))
    → (prompt lines ≡ Option.map trim (find? is_valid lines))
      × ((name : List ℕ) → prompt lines ≡ some name → (is_valid name ≡ true) × (trim name ≡ name))
unfolding prompt find?
prompt_lem [] = (refl, λ name h. ground (arith, h))
prompt_lem (line ∷ lines) = elim (Bool-cases (is_valid line)) [
  | inl y ↦ rw (is_valid-trim line, y) (refl, λ name h. valid_trimmed line name y h)
  | inr n ↦ rw (is_valid-trim line, n) (prompt_lem lines)
]
