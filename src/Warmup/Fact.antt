-- ===== src/Warmup/Fact.antt =====
-- warmup/fact.c. `strtod` and `floor` are not modelled: their answer is.
use native.Mathlib.Nat.{suc-mul}
use ece344_operating_systems.Base.{
  ℕ, zero, suc, ◌+◌, ◌*◌, ◌^◌, ◌≤◌, true, Option, none, some, ltb, ◌==◌, if◌then◌else◌, ◌≡◌, refl,
  arith, ◌≢◌, Bool-cases, inl, inr,
}

-- A product of ints; `none` where it overflows, which C leaves undefined.
abbrev pub mul_int : ℕ → Option ℕ → Option ℕ
mul_int a none = none
mul_int a (some b) = if ltb (a * b) (2 ^ 31) then some (a * b) else none

unfoldable pub recursive : ℕ → Option ℕ
recursive zero = some 1
recursive (suc n) = let rest = recursive n in if n == 0 then some 1 else mul_int (suc n) rest

-- The argument: text behind a number or none, or a number that is or is not a positive whole one.
pub data Argument : Type 0 where
  malformed : Argument
  not_positive_whole : Argument
  positive_whole : ℕ → Argument

-- A line of the output, or the undefined behaviour of an overflow.
pub data Line : Type 0 where
  huh overflow undefined : Line
  number : ℕ → Line

abbrev printed : Option ℕ → Line
printed none = undefined
printed (some n) = number n

unfoldable pub main : Argument → Line
unfolding recursive
main malformed = huh
main not_positive_whole = huh
main (positive_whole n) = if ltb 12 n then overflow else printed (recursive n)

abbrev pub factorial : ℕ → ℕ
factorial zero = 1
factorial (suc n) = suc n * factorial n

recursive-step :
    (n a b : ℕ)
    → recursive n ≡ some a
    → n ≢ 0
    → ltb (suc n * a) (2 ^ 31) ≡ true
    → suc n * a ≡ b
    → recursive (suc n) ≡ some b
unfolding recursive
recursive-step n a b e ne lt eq = rw (recursive, e) (ground arith)

factorial_grows : (n m : ℕ) → n ≤ m → factorial n ≤ factorial m
factorial_grows n zero l = let e : n ≡ 0 = omega arith in rw e (omega arith)
factorial_grows n (suc m) l = elim (Bool-cases (ltb m n)) [
  | inl lt ↦ let e : n ≡ suc m = ground arith in rw e (omega arith)
  | inr le ↦
      let g : factorial n ≤ factorial m = factorial_grows n m (ground arith) in
      let e : factorial (suc m) ≡ m * factorial m + factorial m = suc-mul m (factorial m) in
      omega (arith, e, g)
]

within_int : (n : ℕ) → n ≤ 12 → ltb (factorial n) (2 ^ 31) ≡ true
within_int n l =
    let g : factorial n ≤ factorial 12 = factorial_grows n 12 l in
    let v : factorial 12 ≡ 479001600 = refl in ground (arith, g, v)

recursive_within : (n : ℕ) → n ≤ 12 → recursive n ≡ some (factorial n)
unfolding recursive
recursive_within zero l = refl
recursive_within (suc zero) l = refl
recursive_within (suc (suc n)) l =
    recursive-step (suc n) (factorial (suc n)) (factorial (suc (suc n)))
      (recursive_within (suc n) (omega (arith, l))) (ground arith) (within_int (suc (suc n)) l) refl

-- `main` never runs into the overflow, whatever its argument is.
pub main-defined : (a : Argument) → main a ≢ undefined
unfolding main
main-defined malformed e = ground (arith, e)
main-defined not_positive_whole e = ground (arith, e)
main-defined (positive_whole n) e = ground (arith, e, recursive_within n)
