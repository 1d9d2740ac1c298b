-- ===== src/Base/Text/Decimal.antt =====
-- Decimal numbers are read back as they were printed.
use Prim.Native.Nat.{ℕ, zero, suc, ◌+◌, ◌-◌, ◌*◌, ◌/◌, ◌%◌, ◌<◌, ◌≤◌, ◌^◌}
use mathlib.Core.Path.{◌≡◌, refl, ◌∙◌, ap}
use mathlib.Core.Logic.{inl, inr}
use mathlib.Core.Bool.{Bool, true, false}
use mathlib.Core.List.{List, [], ◌∷◌, ◌++◌}
use native.Mathlib.Omega.{arith}
use native.Mathlib.Nat.{pow-succ'}
use ece344_operating_systems.Base.Tests.{◌==◌, if◌then◌else◌, Bool-cases, ltb}
use ece344_operating_systems.Base.Text.{digits_from, decimal, read_digits, is_digit}
use ece344_operating_systems.Base.{◌^◌, ◌&&◌, length, ◌||◌}

-- The text does not begin with a digit.
abbrev pub ends_number : List ℕ → Bool
ends_number [] = true
ends_number (c ∷ cs) = if is_digit c then false else true

read-digit :
    (n d : ℕ) (out : List ℕ)
    → d < 10
    → read_digits n ((48 + d) ∷ out) ≡ read_digits (n * 10 + d) out
unfolding read_digits
read-digit n d out l =
    let a : is_digit (48 + d) ≡ true = ground arith in
    let b : 48 + d - 48 ≡ d = omega arith in rw (a, b) refl

read-digits_from :
    (fuel n : ℕ) (out rest : List ℕ)
    → n ≤ fuel
    → read_digits 0 (digits_from fuel n out ++ rest) ≡ read_digits n (out ++ rest)
unfolding digits_from
read-digits_from zero n out rest l = ap (λ (k : ℕ). read_digits k (out ++ rest)) (omega arith)
read-digits_from (suc fuel) n out rest l = elim (Bool-cases (n == 0)) [
  | inl z ↦ let e : n ≡ 0 = ground arith in rw e refl
  | inr p ↦
      let small : n / 10 ≤ fuel = ground arith in
      let back : n / 10 * 10 + n % 10 ≡ n = omega arith in
      rw p (
        read-digits_from fuel (n / 10) ((48 + n % 10) ∷ out) rest small
        ∙ read-digit (n / 10) (n % 10) (out ++ rest) (omega arith)
        ∙ ap (λ (k : ℕ). read_digits k (out ++ rest)) back)
]

read-stop : (n : ℕ) (rest : List ℕ) → ends_number rest ≡ true → read_digits n rest ≡ (n, rest)
unfolding read_digits
read-stop n [] h = refl
read-stop n (c ∷ cs) h = let a : is_digit c ≡ false = ground arith in rw a refl

-- A printed number, with what is no digit behind it, is read back.
pub read_digits-decimal :
    (n : ℕ) (rest : List ℕ)
    → ends_number rest ≡ true
    → read_digits 0 (decimal n ++ rest) ≡ (n, rest)
unfolding decimal
read_digits-decimal n rest h = elim (Bool-cases (n == 0)) [
  | inl z ↦
      let e : n ≡ 0 = ground arith in rw e (read-digit 0 0 rest (omega arith) ∙ read-stop 0 rest h)
  | inr p ↦ rw p (read-digits_from n n [] rest (omega arith) ∙ read-stop n rest h)
]

abbrev pub first_digit : List ℕ → Bool
first_digit [] = false
first_digit (c ∷ cs) = is_digit c

abbrev pub all_digits : List ℕ → Bool
all_digits [] = true
all_digits (c ∷ cs) = is_digit c && all_digits cs

first-digits_from :
    (fuel n : ℕ) (out : List ℕ)
    → n ≤ fuel
    → ltb 0 n || first_digit out ≡ true
    → first_digit (digits_from fuel n out) ≡ true
unfolding digits_from
first-digits_from zero n out l h = ground arith
first-digits_from (suc fuel) n out l h = elim (Bool-cases (n == 0)) [
  | inl z ↦ rw z (ground arith)
  | inr p ↦
      let a : is_digit (48 + n % 10) ≡ true = ground arith in
      rw p
        (first-digits_from fuel (n / 10) ((48 + n % 10) ∷ out) (ground arith) (ground (arith, a)))
]

pub first_digit-decimal : (n : ℕ) → first_digit (decimal n) ≡ true
unfolding decimal
first_digit-decimal n = elim (Bool-cases (n == 0)) [
  | inl z ↦ rw z refl
  | inr p ↦ rw p (first-digits_from n n [] (omega arith) (ground arith))
]

all_digits-digits_from :
    (fuel n : ℕ) (out : List ℕ) → all_digits out ≡ true → all_digits (digits_from fuel n out) ≡ true
unfolding digits_from
all_digits-digits_from zero n out h = h
all_digits-digits_from (suc fuel) n out h =
    let a : is_digit (48 + n % 10) ≡ true = ground arith in
    let rest = all_digits-digits_from fuel (n / 10) ((48 + n % 10) ∷ out) (ground (arith, a)) in
    elim (Bool-cases (n == 0)) [ inl z ↦ rw z h | inr p ↦ rw p rest ]

pub all_digits-decimal : (n : ℕ) → all_digits (decimal n) ≡ true
unfolding decimal
all_digits-decimal n = elim (Bool-cases (n == 0)) [
  | inl z ↦ rw z refl
  | inr p ↦ rw p (all_digits-digits_from n n [] refl)
]

length-digits_from :
    (fuel k n : ℕ) (out : List ℕ) → n < 10 ^ k → length (digits_from fuel n out) ≤ k + length out
unfolding digits_from
length-digits_from zero k n out l = omega arith
length-digits_from (suc fuel) zero n out l =
    let z : (n == 0) ≡ true = ground arith in rw z (omega arith)
length-digits_from (suc fuel) (suc k) n out l =
    let power : 10 ^ suc k ≡ 10 * 10 ^ k = pow-succ' 10 k in
    let small : n / 10 < 10 ^ k = omega arith in
    let ih = length-digits_from fuel k (n / 10) ((48 + n % 10) ∷ out) small in
    elim (Bool-cases (n == 0)) [ inl z ↦ rw z (omega arith) | inr p ↦ rw p (omega arith) ]

-- A number of 32 bits has at most ten digits.
pub length-decimal : (n : ℕ) → n < 2 ^ 32 → length (decimal n) ≤ 10
unfolding decimal
length-decimal n l = elim (Bool-cases (n == 0)) [
  | inl z ↦ rw z (omega arith)
  | inr p ↦ let few = length-digits_from n 10 n [] (omega arith) in rw p (omega arith)
]
