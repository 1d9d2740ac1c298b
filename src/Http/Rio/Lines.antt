-- ===== src/Http/Rio/Lines.antt =====
-- `rio_readlineb` gives the lines of the bytes, whatever the pieces that they come in.
use ece344_operating_systems.Http.Rio.{
  Rio, GotLine, end_of_file, overrun, a_line, in_buffer, rio_readlineb, readline_from, Line, line,
  prepend_line,
}
use ece344_operating_systems.Http.Rio.Bytes.{content, is_reliable, readb-at_end, readb-copied}
use ece344_operating_systems.Base.{
  length, false, arith, ℕ, List, ◌≡◌, [], true, suc, ◌∷◌, if◌then◌else◌, ◌==◌, zero, Bool-cases,
  inl, inr, ap, ◌∙◌, refl,
}

-- The first line with its end, at most `n` bytes of it, and what comes behind.
abbrev pub take_line : ℕ → List ℕ → List ℕ × List ℕ
take_line zero xs = ([], xs)
take_line (suc n) [] = ([], [])
take_line (suc n) (c ∷ cs) =
    let (l, r) = take_line n cs in if c == 10 then (c ∷ [], cs) else (c ∷ l, r)

-- A line read.
abbrev pub Reads : ℕ → Rio → Line → Type 0
Reads n rp o =
    (rp' : Rio) × (o ≡ line (take_line n (content rp)).0 rp')
    × (content rp' ≡ (take_line n (content rp)).1)
    × (is_reliable rp'.input ≡ true)

pub readline_from-Reads :
    (n : ℕ) (rp : Rio) → is_reliable rp.input ≡ true → Reads n rp (readline_from n rp)
unfolding readline_from
readline_from-Reads zero rp r = (rp, refl, refl, r)
readline_from-Reads (suc n) rp r = by_content (content rp) refl (λ rp1. readline_from-Reads n rp1)
  where
    by_content :
        (xs : List ℕ)
        → content rp ≡ xs
        → ((rp1 : Rio) → is_reliable rp1.input ≡ true → Reads n rp1 (readline_from n rp1))
        → Reads (suc n) rp (readline_from (suc n) rp)
    by_content [] e ih =
        let (rp', runs, left, r') = readb-at_end rp r e in
        rw (e, readline_from, runs) (rp', refl, left, r')
    by_content (c ∷ cs) e ih =
        let (rp1, runs, left, r1) = readb-copied rp c cs r e in
        let (rp2, line2, left2, r2) = ih rp1 r1 in
        elim (Bool-cases (c == 10)) [
          | inl nl ↦ rw (e, readline_from, runs, nl) (rp1, refl, left, r1)
          | inr more ↦
              rw (e, readline_from, runs, more)
                (
                  rp2,
                  ap (prepend_line c) line2
                      ∙ ap (λ (l : List ℕ). line (c ∷ (take_line n l).0) rp2) left,
                  left2 ∙ ap (λ (l : List ℕ). (take_line n l).1) left,
                  r2,
                )
        ]

-- What `rio_readlineb` makes of a line for a buffer of `n` bytes: nothing at the end of the file,
-- and a 0 written behind the buffer where the line fills it.
abbrev pub delivers : ℕ → List ℕ → Rio → GotLine
delivers n l rp =
    if length l == 0 then end_of_file rp else if length l == n then overrun else a_line l rp

in_buffer-delivers : (n : ℕ) (l : List ℕ) (rp : Rio) → in_buffer n (line l rp) ≡ delivers n l rp
in_buffer-delivers n [] rp = refl
in_buffer-delivers n (c ∷ cs) rp =
    let some_bytes : (suc (length cs) == 0) ≡ false = ground arith in rw some_bytes refl

-- From a descriptor without errors, `rio_readlineb` with a buffer of `n` bytes takes from what is to
-- come the bytes up to the end of the line, but at most `n` of them, and leaves those behind, whatever
-- the pieces that `read` has cut them into and however often it was interrupted. It returns 0 if
-- nothing is to come, and else the line with a 0 behind it; where the line has `n` bytes that 0 is
-- written behind the buffer.
pub rio_readlineb-line :
    (n : ℕ) (rp : Rio)
    → is_reliable rp.input ≡ true
    → (rp' : Rio) × (rio_readlineb n rp ≡ delivers n (take_line n (content rp)).0 rp')
      × (content rp' ≡ (take_line n (content rp)).1)
      × (is_reliable rp'.input ≡ true)
unfolding rio_readlineb
rio_readlineb-line n rp r =
    let (rp', runs, left, r') = readline_from-Reads n rp r in
    (rp', ap (in_buffer n) runs ∙ in_buffer-delivers n (take_line n (content rp)).0 rp', left, r')
