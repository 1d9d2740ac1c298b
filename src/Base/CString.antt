-- ===== src/Base/CString.antt =====
-- C strings: a string's bytes are those before the first 0.
use Prim.Native.Nat.{ℕ, zero, suc}
use mathlib.Core.Bool.{Bool, true, false, ◌&&◌}
use native.Mathlib.Omega.{arith}
use ece344_operating_systems.Base.Tests.{◌==◌}
use mathlib.Core.Path.{◌≡◌, refl}
use mathlib.Core.Option.{Option, none, some}
use mathlib.Core.List.{List, [], ◌∷◌, ◌++◌}

-- What a string function reads from an array of these bytes: `none` where it reads behind the end.
abbrev pub c_string : List ℕ → Option (List ℕ)
c_string [] = none
c_string (zero ∷ xs) = some []
c_string (suc c ∷ xs) = elim (c_string xs) [ none ↦ none | some s ↦ some (suc c ∷ s) ]

-- `strcmp` finds them equal.
abbrev pub eq_string : List ℕ → List ℕ → Bool
eq_string [] [] = true
eq_string [] (y ∷ ys) = false
eq_string (x ∷ xs) [] = false
eq_string (x ∷ xs) (y ∷ ys) = (x == y) && eq_string xs ys

pub eq_string_refl : (xs : List ℕ) → eq_string xs xs ≡ true
eq_string_refl [] = refl
eq_string_refl (x ∷ xs) = ground (arith, eq_string_refl xs)

pub eq_string_sound : (xs ys : List ℕ) → eq_string xs ys ≡ true → xs ≡ ys
eq_string_sound [] [] e = refl
eq_string_sound [] (y ∷ ys) e = ground arith
eq_string_sound (x ∷ xs) [] e = ground arith
eq_string_sound (x ∷ xs) (y ∷ ys) e = ground (arith, eq_string_sound xs ys)

abbrev pub has_zero : List ℕ → Bool
has_zero [] = false
has_zero (zero ∷ xs) = true
has_zero (suc c ∷ xs) = has_zero xs

pub c_string_terminated : (xs : List ℕ) → has_zero xs ≡ false → c_string (xs ++ 0 ∷ []) ≡ some xs
c_string_terminated [] h = refl
c_string_terminated (zero ∷ xs) h = ground arith
c_string_terminated (suc c ∷ xs) h = rw (c_string_terminated xs h) refl
