-- ===== src/Common/Lists.antt =====
-- Lists measured and indexed by native numbers, under the library's names, and Boolean searches.
use Prim.Native.Nat.{ℕ, zero, suc, ◌+◌, ◌≤◌}
use mathlib.Core.Path.{◌≡◌}
use mathlib.Core.Bool.{Bool, true, false, ◌&&◌, ◌||◌}
use mathlib.Core.Logic.{◌↔◌}
use mathlib.Core.List.{List, [], ◌∷◌, ◌++◌}
use mathlib.Core.Option.{Option, none, some}
use native.Mathlib.Omega.{arith}
use ctd_tamar.Common.Tests.{if◌then◌else◌, ◌==◌}

module _ {ℓ} {A : Type ℓ} where
  abbrev pub length : List A → ℕ
  length [] = 0
  length (x ∷ xs) = suc (length xs)

  -- `vector::empty`.
  abbrev pub is_empty_list : List A → Bool
  is_empty_list [] = true
  is_empty_list (_ ∷ _) = false

  abbrev pub is_some : Option A → Bool
  is_some none = false
  is_some (some _) = true

  -- What follows the first elements of a list.
  unfoldable pub drop : ℕ → List A → List A
  drop zero xs = xs
  drop (suc n) [] = []
  drop (suc n) (x ∷ xs) = drop n xs

  pub length-append : (xs ys : List A) → length (xs ++ ys) ≡ length xs + length ys
  length-append [] ys = omega arith
  length-append (x ∷ xs) ys = omega (arith, length-append xs ys)

module _ {ℓ} {A : Type ℓ} where
  -- The first element that passes the test: `find_if`, or a loop that returns at a hit.
  unfoldable pub find? : (A → Bool) → List A → Option A
  find? p [] = none
  find? p (x ∷ xs) = if p x then some x else find? p xs

  -- The elements that pass the test: `remove_if` and `erase` with the test negated.
  unfoldable pub keep_if : (A → Bool) → List A → List A
  keep_if p [] = []
  keep_if p (x ∷ xs) = let rest = keep_if p xs in if p x then x ∷ rest else rest

  pub find?-sound : (p : A → Bool) (xs : List A) {x : A} → find? p xs ≡ some x → p x ≡ true
  unfolding find?
  find?-sound p [] h = cc
  find?-sound p (y ∷ xs) {x} h = ground (arith, find?-sound p xs {x = x})

  pub length-keep_if-le : (p : A → Bool) (xs : List A) → length (keep_if p xs) ≤ length xs
  unfolding keep_if
  length-keep_if-le p [] = omega arith
  length-keep_if-le p (x ∷ xs) = ground (arith, length-keep_if-le p xs)

module _ {ℓ κ} {A : Type ℓ} where
  -- A predicate of every element, by recursion.
  abbrev pub All : (A → Type κ) → List A → Type κ
  All P [] = Unit
  All P (x ∷ xs) = P x × All P xs

  pub All-append : (P : A → Type κ) (xs ys : List A) → All P xs → All P ys → All P (xs ++ ys)
  All-append P [] ys hx hy = hy
  All-append P (x ∷ xs) ys hx hy = (hx.0, All-append P xs ys hx.1 hy)

  pub All-keep_if : (P : A → Type κ) (p : A → Bool) (xs : List A) → All P xs → All P (keep_if p xs)
  unfolding keep_if
  All-keep_if P p [] h = h
  All-keep_if P p (x ∷ xs) h = ground (arith, All-keep_if P p xs h.1)

-- Equality of two texts, given by their characters.
unfoldable pub same_text : List ℕ → List ℕ → Bool
same_text [] [] = true
same_text [] (_ ∷ _) = false
same_text (_ ∷ _) [] = false
same_text (a ∷ as') (b ∷ bs) = a == b && same_text as' bs

pub same_text_iff : (a b : List ℕ) → (same_text a b ≡ true) ↔ (a ≡ b)
unfolding same_text
same_text_iff [] [] = ground arith
same_text_iff [] (b ∷ bs) = ground arith
same_text_iff (a ∷ as') [] = ground arith
same_text_iff (a ∷ as') (b ∷ bs) = ground (arith, same_text_iff as' bs)

-- Membership of a text in a set of texts, a list here.
unfoldable pub contains_text : List ℕ → List (List ℕ) → Bool
contains_text a [] = false
contains_text a (b ∷ bs) = same_text a b || contains_text a bs
