-- ===== src/Http/Rio/Write.antt =====
-- `rio_write` and `rio_read` handle every number of bytes that a call may move.
use mathlib.Core.List.{append-nil, append_assoc}
use ece344_operating_systems.Http.Rio.{
  Taken, wrote, again, broken, rio_write, Input, got, interrupted, failed, rio_read, done, put_back,
}
use ece344_operating_systems.Http.Rio.Bytes.{
  flat, is_reliable, take-drop, flat-put_back, reliable-put_back,
}
use ece344_operating_systems.Base.{
  ℕ, length, List, ◌≡◌, Bool, ltb, true, ◌++◌, false, suc, if◌then◌else◌, [], arith, ◌-◌, ◌∷◌, ap,
  ◌∙◌, Bool-cases, zero, inl, refl, sym, inr, take, drop,
}

abbrev pub is_broken : List Taken → Bool
is_broken [] = false
is_broken (broken ∷ answers) = true
is_broken (_ ∷ answers) = is_broken answers

-- `rio_write` writes the bytes in order, each once, whatever part of them each call takes: all of
-- them if it returns their number, which it does unless a call fails for good, and else a first
-- part of them.
pub rio_write-prefix :
    (xs : List ℕ) (answers : List Taken)
    → (rest : List ℕ) × ((rio_write xs answers).0 ++ rest ≡ xs)
      × (if (rio_write xs answers).1 then rest ≡ [] else is_broken answers ≡ true)
unfolding rio_write
rio_write-prefix [] answers = ([], refl, refl)
rio_write-prefix (x ∷ xs) [] = ([], append-nil (x ∷ xs), refl)
rio_write-prefix (x ∷ xs) (again ∷ answers) = rio_write-prefix (x ∷ xs) answers
rio_write-prefix (x ∷ xs) (broken ∷ answers) = (x ∷ xs, refl, refl)
rio_write-prefix (x ∷ xs) (wrote zero ∷ answers) = rio_write-prefix (x ∷ xs) answers
rio_write-prefix (x ∷ xs) (wrote (suc k) ∷ answers) =
    let (rest, e, all) = rio_write-prefix (drop k xs) answers in
    (
      rest,
      ap (λ (l : List ℕ). x ∷ l)
          (append_assoc (take k xs) (rio_write (drop k xs) answers).0 rest
            ∙ ap (λ (l : List ℕ). take k xs ++ l) e
            ∙ take-drop k xs),
      all,
    )

take-append : (n : ℕ) (xs ys : List ℕ) → ltb n (length xs) ≡ true → take n (xs ++ ys) ≡ take n xs
take-append zero xs ys h = refl
take-append (suc n) [] ys h = absurd (ground (arith, h))
take-append (suc n) (x ∷ xs) ys h =
    ap (λ (l : List ℕ). x ∷ l) (take-append n xs ys (ground (arith, h)))

drop-append :
    (n : ℕ) (xs ys : List ℕ) → ltb n (length xs) ≡ true → drop n (xs ++ ys) ≡ drop n xs ++ ys
drop-append zero xs ys h = refl
drop-append (suc n) [] ys h = absurd (ground (arith, h))
drop-append (suc n) (x ∷ xs) ys h = drop-append n xs ys (ground (arith, h))

take-past :
    (n : ℕ) (xs ys : List ℕ)
    → ltb n (length xs) ≡ false
    → take n (xs ++ ys) ≡ xs ++ take (n - length xs) ys
take-past n [] ys h = ap (λ (k : ℕ). take k ys) (omega arith)
take-past zero (x ∷ xs) ys h = absurd (ground (arith, h))
take-past (suc n) (x ∷ xs) ys h =
    ap (λ (l : List ℕ). x ∷ l)
      (take-past n xs ys (ground (arith, h)) ∙ ap (λ (k : ℕ). xs ++ take k ys) (omega arith))

drop-past :
    (n : ℕ) (xs ys : List ℕ)
    → ltb n (length xs) ≡ false
    → drop n (xs ++ ys) ≡ drop (n - length xs) ys
drop-past n [] ys h = ap (λ (k : ℕ). drop k ys) (omega arith)
drop-past zero (x ∷ xs) ys h = absurd (ground (arith, h))
drop-past (suc n) (x ∷ xs) ys h =
    drop-past n xs ys (ground (arith, h)) ∙ ap (λ (k : ℕ). drop k ys) (omega arith)

-- `rio_read` on a descriptor without errors reads the next `n` bytes, or all that are left,
-- whatever the pieces that they come in.
pub rio_read-take :
    (n : ℕ) (input : Input)
    → is_reliable input ≡ true
    → (input' : Input) × (rio_read n input ≡ done (take n (flat input)) input')
      × (flat input' ≡ drop n (flat input))
      × (is_reliable input' ≡ true)
unfolding rio_read
rio_read-take zero input r = (input, refl, refl, r)
rio_read-take (suc n) [] r = ([], refl, refl, refl)
rio_read-take (suc n) (interrupted ∷ input) r = rio_read-take (suc n) input r
rio_read-take (suc n) (failed ∷ input) r = absurd (ground (arith, r))
rio_read-take (suc n) (got [] ∷ input) r = absurd (ground (arith, r))
rio_read-take (suc n) (got (x ∷ xs) ∷ input) r = elim (Bool-cases (ltb n (length xs))) [
  | inl lt ↦ (
    put_back (drop n xs) input,
    rw (lt, take-append n xs (flat input) lt) refl,
    flat-put_back (drop n xs) input ∙ sym (drop-append n xs (flat input) lt),
    reliable-put_back (drop n xs) input ∙ r,
  )
  | inr ge ↦
      let (input', runs, left, r') = rio_read-take (n - length xs) input r in
      (
        input',
        rw (ge, runs, take-past n xs (flat input) ge) refl,
        left ∙ sym (drop-past n xs (flat input) ge),
        r',
      )
]
