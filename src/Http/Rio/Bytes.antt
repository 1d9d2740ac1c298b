-- ===== src/Http/Rio/Bytes.antt =====
-- What is still to be read, whatever the pieces that it comes in.
use mathlib.Core.List.{append_assoc}
use ece344_operating_systems.Http.Rio.{
  Input, got, interrupted, failed, put_back, Rio, filled, ended, refill, rio_readb, copied, at_end,
}
use ece344_operating_systems.Base.{
  ℕ, List, Bool, ◌≡◌, true, ◌∷◌, ◌++◌, false, suc, [], arith, ap, refl, ◌∙◌, zero, sym, take, drop,
}

-- All bytes of the answers.
abbrev pub flat : Input → List ℕ
flat [] = []
flat (interrupted ∷ input) = flat input
flat (failed ∷ input) = flat input
flat (got xs ∷ input) = xs ++ flat input

-- No error, and the end of the file only behind the answers.
abbrev pub is_reliable : Input → Bool
is_reliable [] = true
is_reliable (interrupted ∷ input) = is_reliable input
is_reliable (failed ∷ input) = false
is_reliable (got [] ∷ input) = false
is_reliable (got (x ∷ xs) ∷ input) = is_reliable input

pub take-drop : (n : ℕ) (xs : List ℕ) → take n xs ++ drop n xs ≡ xs
take-drop zero xs = refl
take-drop (suc n) [] = refl
take-drop (suc n) (x ∷ xs) = ap (λ (l : List ℕ). x ∷ l) (take-drop n xs)

pub flat-put_back : (xs : List ℕ) (input : Input) → flat (put_back xs input) ≡ xs ++ flat input
flat-put_back [] input = refl
flat-put_back (x ∷ xs) input = refl

pub reliable-put_back :
    (xs : List ℕ) (input : Input) → is_reliable (put_back xs input) ≡ is_reliable input
reliable-put_back [] input = refl
reliable-put_back (x ∷ xs) input = refl

-- The bytes that a buffered reader has still to give.
abbrev pub content : Rio → List ℕ
content rp = rp.unread ++ flat rp.input

refill-ended :
    (input : Input)
    → is_reliable input ≡ true
    → flat input ≡ []
    → refill input ≡ ended (record { unread = []; input = [] })
unfolding refill
refill-ended [] r e = refl
refill-ended (interrupted ∷ input) r e = refill-ended input r e
refill-ended (failed ∷ input) r e = absurd (ground (arith, r))
refill-ended (got [] ∷ input) r e = absurd (ground (arith, r))
refill-ended (got (x ∷ xs) ∷ input) r e = absurd (ground (arith, e))

refill-filled :
    (input : Input) (c : ℕ) (cs : List ℕ)
    → is_reliable input ≡ true
    → flat input ≡ c ∷ cs
    → (u : List ℕ) × (i : Input) × (refill input ≡ filled (record { unread = c ∷ u; input = i }))
      × (u ++ flat i ≡ cs)
      × (is_reliable i ≡ true)
unfolding refill
refill-filled [] c cs r e = absurd (ground (arith, e))
refill-filled (interrupted ∷ input) c cs r e = refill-filled input c cs r e
refill-filled (failed ∷ input) c cs r e = absurd (ground (arith, r))
refill-filled (got [] ∷ input) c cs r e = absurd (ground (arith, r))
refill-filled (got (x ∷ xs) ∷ input) c cs r e =
    let u = take 8191 xs in
    let i = put_back (drop 8191 xs) input in
    let same : x ≡ c = ground (arith, e) in
    let rest : xs ++ flat input ≡ cs = ground (arith, e) in
    (
      u,
      i,
      ap (λ (y : ℕ). filled (record { unread = y ∷ u; input = i })) same,
      ap (λ (l : List ℕ). u ++ l) (flat-put_back (drop 8191 xs) input)
          ∙ sym (append_assoc u (drop 8191 xs) (flat input))
          ∙ ap (λ (l : List ℕ). l ++ flat input) (take-drop 8191 xs)
          ∙ rest,
      reliable-put_back (drop 8191 xs) input ∙ r,
    )

pub readb-at_end :
    (rp : Rio)
    → is_reliable rp.input ≡ true
    → content rp ≡ []
    → (rp' : Rio) × (rio_readb 1 rp ≡ at_end rp')
      × (content rp' ≡ [])
      × (is_reliable rp'.input ≡ true)
unfolding rio_readb
readb-at_end rp r e = at_end_of rp.unread refl
  where
    at_end_of :
        (u : List ℕ)
        → rp.unread ≡ u
        → (rp' : Rio) × (rio_readb 1 rp ≡ at_end rp')
          × (content rp' ≡ [])
          × (is_reliable rp'.input ≡ true)
    at_end_of [] h =
        let none_left : flat rp.input ≡ [] = ground (arith, e, h) in
        (
          record { unread = []; input = [] },
          rw (rio_readb, h, refill-ended rp.input r none_left) refl,
          refl,
          refl,
        )
    at_end_of (x ∷ xs) h = absurd (ground (arith, e, h))

pub readb-copied :
    (rp : Rio) (c : ℕ) (cs : List ℕ)
    → is_reliable rp.input ≡ true
    → content rp ≡ c ∷ cs
    → (rp' : Rio) × (rio_readb 1 rp ≡ copied (c ∷ []) rp')
      × (content rp' ≡ cs)
      × (is_reliable rp'.input ≡ true)
unfolding rio_readb
readb-copied rp c cs r e = copied_of rp.unread refl
  where
    copied_of :
        (u : List ℕ)
        → rp.unread ≡ u
        → (rp' : Rio) × (rio_readb 1 rp ≡ copied (c ∷ []) rp')
          × (content rp' ≡ cs)
          × (is_reliable rp'.input ≡ true)
    copied_of [] h =
        let some_left : flat rp.input ≡ c ∷ cs = ground (arith, e, h) in
        let (u, i, runs, same, r') = refill-filled rp.input c cs r some_left in
        (record { unread = u; input = i }, rw (rio_readb, h, runs) refl, same, r')
    copied_of (x ∷ xs) h =
        let same : x ≡ c = ground (arith, e, h) in
        let first = ap (λ (v : List ℕ). copied (take 1 v) (record rp { unread = drop 1 v })) h in
        let run : rio_readb 1 rp ≡ copied (x ∷ []) (record rp { unread = xs }) =
          rw (rio_readb, h) first in
        (
          record { unread = xs; input = rp.input },
          run ∙ ap (λ (y : ℕ). copied (y ∷ []) (record rp { unread = xs })) same,
          ground (arith, e, h),
          r,
        )
