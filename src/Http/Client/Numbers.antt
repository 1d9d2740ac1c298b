-- ===== src/Http/Client/Numbers.antt =====
-- `client_print` finds the number that a header line gives.
use ece344_operating_systems.Base.{
  ℕ, ◌%◌, ◌^◌, ◌<◌, true, false, some, List, [], ◌∷◌, ◌++◌, ◌==◌, ◌≡◌, refl, ap, ◌∙◌, arith,
  isspace, is_digit, decimal, read_digits, skip_space,
}
use ece344_operating_systems.Base.Text.Decimal.{
  read_digits-decimal, first_digit, first_digit-decimal, all_digits, ends_number,
}
use ece344_operating_systems.Http.Rio.Gets.{is_clean}
use ece344_operating_systems.Http.Client.{scan_int, scan_sign, scan_digits}

pub digits-clean : (xs : List ℕ) → all_digits xs ≡ true → is_clean xs ≡ true
digits-clean [] h = refl
digits-clean (c ∷ cs) h = ground (arith, digits-clean cs)

first_digit-append : (xs ys : List ℕ) → first_digit xs ≡ true → first_digit (xs ++ ys) ≡ true
first_digit-append [] ys h = absurd (ground (arith, h))
first_digit-append (c ∷ cs) ys h = h

scan_int-digits :
    (xs : List ℕ)
    → first_digit xs ≡ true
    → scan_int (32 ∷ xs) ≡ some ((read_digits 0 xs).0 % 2 ^ 32, (read_digits 0 xs).1)
scan_int-digits [] h = absurd (ground (arith, h))
scan_int-digits (c ∷ cs) h =
    let solid : isspace c ≡ false = ground (arith, h) in
    let no_minus : (c == 45) ≡ false = ground (arith, h) in
    let no_plus : (c == 43) ≡ false = ground (arith, h) in
    let digit : is_digit c ≡ true = h in
    let skips : skip_space (c ∷ cs) ≡ c ∷ cs = rw solid refl in
    let digits : scan_digits (c ∷ cs)
        ≡ some ((read_digits 0 (c ∷ cs)).0 % 2 ^ 32, (read_digits 0 (c ∷ cs)).1) =
      rw digit refl in
    let signs : scan_sign (c ∷ cs) ≡ scan_digits (c ∷ cs) = rw (no_minus, no_plus) refl in
    ap scan_sign skips ∙ signs ∙ digits

pub scan_int-decimal :
    (n : ℕ) (rest : List ℕ)
    → ends_number rest ≡ true
    → n < 2 ^ 32
    → scan_int (32 ∷ (decimal n ++ rest)) ≡ some (n, rest)
scan_int-decimal n rest h l =
    scan_int-digits (decimal n ++ rest)
      (first_digit-append (decimal n) rest (first_digit-decimal n))
    ∙ ap (λ (p : ℕ × List ℕ). some (p.0 % 2 ^ 32, p.1)) (read_digits-decimal n rest h)
    ∙ ap (λ (k : ℕ). some (k, rest)) (omega arith)
