-- ===== src/Http/Rio/Gets.antt =====
-- `rio_readlineb` on a text of whole lines, each shorter than the buffer.
use ece344_operating_systems.Base.{
  ℕ, zero, suc, ◌+◌, ◌≤◌, ◌<◌, Bool, true, false, not, ◌&&◌, List, [], ◌∷◌, ◌++◌, ◌==◌,
  if◌then◌else◌, length, ◌≡◌, refl, ap, ◌∙◌, arith, Bool-cases, inl, inr, length-append,
}
use ece344_operating_systems.Http.Rio.{Rio, a_line, end_of_file, rio_readlineb, in_buffer, line}
use ece344_operating_systems.Http.Rio.Bytes.{content, is_reliable}
use ece344_operating_systems.Http.Rio.Lines.{take_line, readline_from-Reads}

-- The reader gives the line and has the rest still to give.
abbrev pub Gets : ℕ → Rio → List ℕ → List ℕ → Type 0
Gets n rp l rest =
    (rp' : Rio) × (rio_readlineb n rp ≡ a_line l rp')
    × (content rp' ≡ rest)
    × (is_reliable rp'.input ≡ true)

-- The reader is at the end of the file.
abbrev pub Ends : ℕ → Rio → Type 0
Ends n rp =
    (rp' : Rio) × (rio_readlineb n rp ≡ end_of_file rp')
    × (content rp' ≡ [])
    × (is_reliable rp'.input ≡ true)

pub readlineb-Gets :
    (n : ℕ) (rp : Rio) (c : ℕ) (cs rest : List ℕ)
    → is_reliable rp.input ≡ true
    → take_line n (content rp) ≡ (c ∷ cs, rest)
    → suc (length cs) < n
    → Gets n rp (c ∷ cs) rest
unfolding rio_readlineb
readlineb-Gets n rp c cs rest r e short =
    let (rp', runs, left, r') = readline_from-Reads n rp r in
    let test : (suc (length cs) == n) ≡ false = ground arith in
    let opened : in_buffer n (line (c ∷ cs) rp') ≡ a_line (c ∷ cs) rp' = rw test refl in
    (
      rp',
      ap (in_buffer n) runs ∙ ap (λ (p : List ℕ × List ℕ). in_buffer n (line (p.0) rp')) e ∙ opened,
      left ∙ ap (λ (p : List ℕ × List ℕ). p.1) e,
      r',
    )

pub readlineb-Ends :
    (n : ℕ) (rp : Rio) → is_reliable rp.input ≡ true → content rp ≡ [] → Ends (suc n) rp
unfolding rio_readlineb
readlineb-Ends n rp r e =
    let (rp', runs, left, r') = readline_from-Reads (suc n) rp r in
    (
      rp',
      ap (in_buffer (suc n)) runs
          ∙ ap (λ (xs : List ℕ). in_buffer (suc n) (line ((take_line (suc n) xs).0) rp')) e,
      left ∙ ap (λ (xs : List ℕ). (take_line (suc n) xs).1) e,
      r',
    )

-- No 0 and no end of a line.
abbrev pub is_clean : List ℕ → Bool
is_clean [] = true
is_clean (c ∷ cs) = not (c == 0) && not (c == 10) && is_clean cs

pub clean-append :
    (xs ys : List ℕ) → is_clean xs ≡ true → is_clean ys ≡ true → is_clean (xs ++ ys) ≡ true
clean-append [] ys a b = b
clean-append (x ∷ xs) ys a b = ground (arith, clean-append xs ys)

-- The bytes before a line's "\r\n" and the rest behind it are what a read gives.
pub take_line-clean :
    (n : ℕ) (xs rest : List ℕ)
    → is_clean xs ≡ true
    → length xs + 2 ≤ n
    → take_line n (xs ++ 13 ∷ 10 ∷ rest) ≡ (xs ++ 13 ∷ 10 ∷ [], rest)
take_line-clean zero xs rest a l = absurd (omega arith)
take_line-clean (suc zero) xs rest a l = absurd (omega arith)
take_line-clean (suc (suc n)) [] rest a l = refl
take_line-clean (suc (suc n)) (x ∷ xs) rest a l =
    let other : (x == 10) ≡ false = ground arith in
    let more : is_clean xs ≡ true = ground arith in
    let ih = take_line-clean (suc n) xs rest more (omega arith) in rw (other, ih) refl

take_line-newline :
    (n : ℕ) (xs rest : List ℕ)
    → is_clean xs ≡ true
    → length xs + 1 ≤ n
    → take_line n (xs ++ 10 ∷ rest) ≡ (xs ++ 10 ∷ [], rest)
take_line-newline zero xs rest a l = absurd (omega arith)
take_line-newline (suc n) [] rest a l = refl
take_line-newline (suc n) (x ∷ xs) rest a l =
    let other : (x == 10) ≡ false = ground arith in
    let more : is_clean xs ≡ true = ground arith in
    let ih = take_line-newline n xs rest more (omega arith) in rw (other, ih) refl

-- A line without its end is read as a whole.
pub newline-Gets :
    (n : ℕ) (rp : Rio) (xs rest : List ℕ)
    → is_reliable rp.input ≡ true
    → is_clean xs ≡ true
    → length xs + 2 ≤ n
    → content rp ≡ xs ++ 10 ∷ rest
    → Gets n rp (xs ++ 10 ∷ []) rest
newline-Gets n rp [] rest r a l e =
    readlineb-Gets n rp 10 [] rest r
      (ap (take_line n) e ∙ take_line-newline n [] rest a (omega arith)) (omega arith)
newline-Gets n rp (c ∷ cs) rest r a l e =
    let size = length-append cs (10 ∷ []) in
    readlineb-Gets n rp c (cs ++ 10 ∷ []) rest r
      (ap (take_line n) e ∙ take_line-newline n (c ∷ cs) rest a (omega arith)) (omega arith)

-- Each line has at most 8191 bytes, the first at most `k`.
abbrev pub short_from : ℕ → List ℕ → Bool
short_from k [] = true
short_from zero (c ∷ cs) = false
short_from (suc k) (c ∷ cs) =
    let next = short_from 8191 cs in let same = short_from k cs in if c == 10 then next else same

abbrev pub Takes : ℕ → List ℕ → List ℕ × List ℕ → Type 0
Takes k xs (l, rest) = (l ++ rest ≡ xs) × (length l ≤ k) × (short_from 8191 rest ≡ true)

pub take_line-short :
    (k : ℕ) (xs : List ℕ) → short_from k xs ≡ true → Takes k xs (take_line (suc k) xs)
take_line-short k [] s = (refl, omega arith, refl)
take_line-short zero (c ∷ cs) s = absurd (ground (arith, s))
take_line-short (suc k) (c ∷ cs) s = elim (Bool-cases (c == 10)) [
  | inl nl ↦ rw nl (refl, omega arith, ground (arith, s, nl))
  | inr more ↦
      let same : short_from k cs ≡ true = ground (arith, s, more) in
      let (back, few, rest) = take_line-short k cs same in
      rw more (ap (λ (l : List ℕ). c ∷ l) back, omega arith, rest)
]

-- A first line of at most `k` bytes.
abbrev pub Splits : ℕ → ℕ → List ℕ → Type 0
Splits k c cs =
    (d : ℕ) × (ds rest : List ℕ) × (take_line (suc k) (c ∷ cs) ≡ (d ∷ ds, rest))
    × (d ∷ ds ++ rest ≡ c ∷ cs)
    × (suc (length ds) ≤ k)
    × (short_from 8191 rest ≡ true)

pub short-Splits : (k c : ℕ) (cs : List ℕ) → short_from k (c ∷ cs) ≡ true → Splits k c cs
short-Splits zero c cs s = absurd (ground (arith, s))
short-Splits (suc k) c cs s = elim (Bool-cases (c == 10)) [
  | inl nl ↦ rw nl (c, [], cs, refl, refl, omega arith, ground (arith, s, nl))
  | inr more ↦
      let same : short_from k cs ≡ true = ground (arith, s, more) in
      let (back, few, rest) = take_line-short k cs same in
      rw more (
        c,
        (take_line (suc k) cs).0,
        (take_line (suc k) cs).1,
        refl,
        ap (λ (l : List ℕ). c ∷ l) back,
        omega arith,
        rest,
      )
]
