-- ===== src/Common/Text.antt =====
-- `std::to_string` on integers: decimal digits as character codes.
use Prim.Native.Nat.{ℕ, zero, suc, ◌+◌, ◌-◌, ◌*◌, ◌/◌, ◌%◌, ◌<◌}
use mathlib.Core.Path.{◌≡◌, refl}
use mathlib.Core.Logic.{inl, inr}
use mathlib.Core.List.{List, [], ◌∷◌, ◌++◌}
use native.Mathlib.Omega.{arith}
use ctd_tamar.Common.Tests.{ltb, if◌then◌else◌, Bool-cases}
use ctd_tamar.Common.Int.{ℤ, pos, negsuc}

-- The fuel `n + 1` is more than the number of digits of `n`.
unfoldable pub digits : ℕ → ℕ → List ℕ
digits zero n = []
digits (suc fuel) n =
    let rest = digits fuel (n / 10) in
    if ltb n 10 then (b'0' + n) ∷ [] else rest ++ (b'0' + n % 10) ∷ []

unfoldable pub to_string : ℤ → List ℕ
unfolding digits
to_string (pos n) = digits (suc n) n
to_string (negsuc n) = b'-' ∷ digits (suc (suc n)) (suc n)

-- The number that digits denote.
abbrev pub value_from : ℕ → List ℕ → ℕ
value_from acc [] = acc
value_from acc (c ∷ cs) = value_from (acc * 10 + (c - b'0')) cs

value_from-append :
    (acc : ℕ) (xs : List ℕ) (c : ℕ)
    → value_from acc (xs ++ c ∷ []) ≡ value_from acc xs * 10 + (c - b'0')
value_from-append acc [] c = refl
value_from-append acc (x ∷ xs) c = value_from-append (acc * 10 + (x - b'0')) xs c

-- Enough fuel gives the digits of the number.
pub digits_value : (fuel n : ℕ) → n < fuel → value_from 0 (digits fuel n) ≡ n
unfolding digits
digits_value zero n h = elim h [ ]
digits_value (suc fuel) n h = elim (Bool-cases (ltb n 10)) [
  | inl small ↦ rw small (omega arith)
  | inr big ↦
      rw
        (
          big,
          value_from-append 0 (digits fuel (n / 10)) (b'0' + n % 10),
          digits_value fuel (n / 10) (ground arith),
        )
        (omega arith)
]
