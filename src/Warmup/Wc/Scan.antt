-- ===== src/Warmup/Wc/Scan.antt =====
-- The words that `wc_init` finds in its array.
use mathlib.Core.Path.{subst}
use mathlib.Core.List.{append_assoc, append-nil}
use ece344_operating_systems.Warmup.Wc.{Wc, insert, scan_from, wc_init, buffer_str, wc_output}
use ece344_operating_systems.Warmup.Wc.Counts.{
  Tallies, insert-Tallies, count_in, lines_with, once, occurrences, wc_output-count,
}
use ece344_operating_systems.Base.{
  length, ℕ, has_zero, List, ◌∷◌, ◌≡◌, ◌++◌, ap, false, if◌then◌else◌, ◌||◌, [], suc, some, refl,
  ◌+◌, c_string, zero, ◌∙◌, c_string_terminated, arith, true, ◌≢◌, sym, ◌==◌, ltb, Bool-cases, inl,
  length-append, inr, ◌*◌, ◌<◌, isspace, take, drop,
}

-- The runs of other characters that a space ends, with `acc` read already.
abbrev pub words_from : List ℕ → List ℕ → List (List ℕ)
words_from acc [] = []
words_from [] (c ∷ cs) = if isspace c then words_from [] cs else words_from (c ∷ []) cs
words_from (a ∷ acc) (c ∷ cs) =
    if isspace c then (a ∷ acc) ∷ words_from [] cs else words_from (a ∷ (acc ++ c ∷ [])) cs

abbrev pub insert_all : List (List ℕ) → Wc → Wc
insert_all [] wc = wc
insert_all (k ∷ ks) wc = insert_all ks (insert k wc)

drop-append : (xs ys : List ℕ) → drop (length xs) (xs ++ ys) ≡ ys
drop-append [] ys = refl
drop-append (x ∷ xs) ys = drop-append xs ys

take-append : (xs ys : List ℕ) → take (length xs) (xs ++ ys) ≡ xs
take-append [] ys = refl
take-append (x ∷ xs) ys = ap (λ (l : List ℕ). x ∷ l) (take-append xs ys)

has_zero-append : (xs ys : List ℕ) → has_zero (xs ++ ys) ≡ (has_zero xs || has_zero ys)
has_zero-append [] ys = refl
has_zero-append (zero ∷ xs) ys = refl
has_zero-append (suc c ∷ xs) ys = has_zero-append xs ys

no_zero_inside : (xs ys zs : List ℕ) → has_zero (xs ++ (ys ++ zs)) ≡ false → has_zero ys ≡ false
no_zero_inside xs ys zs h = ground (arith, has_zero-append xs (ys ++ zs), has_zero-append ys zs)

buffer-word :
    (before acc left : List ℕ)
    → has_zero acc ≡ false
    → buffer_str 0 (before ++ (acc ++ left)) (length before) (length acc) ≡ some acc
unfolding buffer_str
buffer-word before acc left h =
    ap (λ (l : List ℕ). c_string (take (length acc) l ++ 0 ∷ [])) (drop-append before (acc ++ left))
    ∙ ap (λ (l : List ℕ). c_string (l ++ 0 ∷ [])) (take-append acc left)
    ∙ c_string_terminated acc h

-- A step of the loop, one lemma for each branch.
module _ (arr left : List ℕ) (c idx head : ℕ) (wc : Wc) where
  scan-skip :
      isspace c ≡ true
      → scan_from 0 arr (c ∷ left) idx head 0 wc ≡ scan_from 0 arr left (idx + 1) head 0 wc
  unfolding scan_from
  scan-skip sp = rw sp refl

  scan-begin :
      isspace c ≡ false
      → scan_from 0 arr (c ∷ left) idx head 0 wc ≡ scan_from 0 arr left (idx + 1) idx 1 wc
  unfolding scan_from
  scan-begin sp = rw sp refl

  scan-count :
      (n : ℕ)
      → isspace c ≡ false
      → scan_from 0 arr (c ∷ left) idx head (suc n) wc
        ≡ scan_from 0 arr left (idx + 1) head (suc n + 1) wc
  unfolding scan_from
  scan-count n sp = let ne : (suc n == 0) ≡ false = ground arith in rw (sp, ne) refl

  scan-word :
      (n : ℕ) (key : List ℕ)
      → isspace c ≡ true
      → buffer_str 0 arr head (suc n) ≡ some key
      → scan_from 0 arr (c ∷ left) idx head (suc n) wc
        ≡ scan_from 0 arr left (idx + 1) head 0 (insert key wc)
  unfolding scan_from
  scan-word n key sp e = let pos : ltb 0 (suc n) ≡ true = ground arith in rw (sp, pos, e) refl

scan-words :
    (arr left before acc : List ℕ) (idx head : ℕ) (wc : Wc)
    → has_zero arr ≡ false
    → arr ≡ before ++ (acc ++ left)
    → idx ≡ length before + length acc
    → (length acc ≢ 0 → head ≡ length before)
    → scan_from 0 arr left idx head (length acc) wc ≡ some (insert_all (words_from acc left) wc)
unfolding scan_from
scan-words arr [] before [] idx head wc nz e at h = refl
scan-words arr [] before (a ∷ acc) idx head wc nz e at h = refl
scan-words arr (c ∷ left) before [] idx head wc nz e at h = elim (Bool-cases (isspace c)) [
  | inl sp ↦
      let split : arr ≡ (before ++ c ∷ []) ++ left = e ∙ sym (append_assoc before (c ∷ []) left) in
      let len : idx + 1 ≡ length (before ++ c ∷ []) + 0 =
        omega (arith, at, length-append before (c ∷ [])) in
      scan-skip arr left c idx head wc sp
      ∙ scan-words arr left (before ++ c ∷ []) [] (idx + 1) head wc nz split len
          (λ k. absurd (k refl))
      ∙ ground (arith, sp)
  | inr sp ↦
      let len : idx + 1 ≡ length before + 1 = omega (arith, at) in
      scan-begin arr left c idx head wc sp
      ∙ scan-words arr left before (c ∷ []) (idx + 1) idx wc nz e len (λ k. omega (arith, at))
      ∙ ground (arith, sp)
]
scan-words arr (c ∷ left) before (a ∷ acc) idx head wc nz e at h = elim (Bool-cases (isspace c)) [
  | inl sp ↦
      let split : arr ≡ (before ++ ((a ∷ acc) ++ c ∷ [])) ++ left =
        e
        ∙ ap (λ (l : List ℕ). before ++ l) (sym (append_assoc (a ∷ acc) (c ∷ []) left))
        ∙ sym (append_assoc before ((a ∷ acc) ++ c ∷ []) left) in
      let len : idx + 1 ≡ length (before ++ ((a ∷ acc) ++ c ∷ [])) + 0 =
        omega (
          arith,
          at,
          length-append before ((a ∷ acc) ++ c ∷ []),
          length-append (a ∷ acc) (c ∷ []),
        ) in
      let clean : has_zero (a ∷ acc) ≡ false =
        no_zero_inside before (a ∷ acc) (c ∷ left) (ap has_zero (sym e) ∙ nz) in
      let key : buffer_str 0 arr head (suc (length acc)) ≡ some (a ∷ acc) =
        ap (λ (l : List ℕ). buffer_str 0 l head (suc (length acc))) e
        ∙ ap (λ (k : ℕ). buffer_str 0 (before ++ ((a ∷ acc) ++ (c ∷ left))) k (suc (length acc)))
            (h (λ k. ground (arith, k)))
        ∙ buffer-word before (a ∷ acc) (c ∷ left) clean in
      scan-word arr left c idx head wc (length acc) (a ∷ acc) sp key
      ∙ scan-words arr left (before ++ ((a ∷ acc) ++ c ∷ [])) [] (idx + 1) head
          (insert (a ∷ acc) wc) nz split len (λ k. absurd (k refl))
      ∙ ground (arith, sp)
  | inr sp ↦
      let split : arr ≡ before ++ ((a ∷ (acc ++ c ∷ [])) ++ left) =
        e ∙ ap (λ (l : List ℕ). before ++ l) (sym (append_assoc (a ∷ acc) (c ∷ []) left)) in
      let grown : length (a ∷ (acc ++ c ∷ [])) ≡ suc (length acc) + 1 =
        omega (arith, length-append acc (c ∷ [])) in
      let len : idx + 1 ≡ length before + length (a ∷ (acc ++ c ∷ [])) = omega (arith, at, grown) in
      scan-count arr left c idx head wc (length acc) sp
      ∙ ap (λ (k : ℕ). scan_from 0 arr left (idx + 1) head k wc) (sym grown)
      ∙ scan-words arr left before (a ∷ (acc ++ c ∷ [])) (idx + 1) head wc nz split len
          (λ k. h (λ z. ground (arith, z)))
      ∙ ground (arith, sp)
]

insert_all-Tallies :
    (ks ws : List (List ℕ)) (wc : Wc) → Tallies ws wc → Tallies (ws ++ ks) (insert_all ks wc)
insert_all-Tallies [] ws wc t = subst (λ (l : List (List ℕ)). Tallies l wc) (sym (append-nil ws)) t
insert_all-Tallies (k ∷ ks) ws wc t =
    subst (λ (l : List (List ℕ)). Tallies l (insert_all ks (insert k wc)))
      (append_assoc ws (k ∷ []) ks)
      (insert_all-Tallies ks (ws ++ k ∷ []) (insert k wc) (insert-Tallies k ws wc t))

insert_all-size : (ks : List (List ℕ)) (wc : Wc) → (insert_all ks wc).size ≡ wc.size
unfolding insert
insert_all-size [] wc = refl
insert_all-size (k ∷ ks) wc = insert_all-size ks (insert k wc) ∙ refl

abbrev empty : ℕ → Wc
empty n = record { items = λ i. []; element_count = 0; size = n }

empty-Tallies : (n : ℕ) → Tallies [] (empty n)
empty-Tallies n w i = (ground arith, ground arith)

init_words :
    (arr : List ℕ)
    → has_zero arr ≡ false
    → wc_init 0 arr ≡ some (insert_all (words_from [] arr) (empty (length arr * 2)))
unfolding wc_init
init_words arr nz =
    scan-words arr arr [] [] 0 0 (empty (length arr * 2)) nz refl (omega arith) (λ k. refl)

-- The lines printed for a word: one if a space ends it somewhere in the array, with the number of
-- times that one does, and else none.
abbrev pub Counts : List ℕ → Wc → Type 0
Counts arr wc =
    (w : List ℕ)
    → (count_in w (wc_output wc) ≡ occurrences w (words_from [] arr))
      × (lines_with w (wc_output wc) ≡ once (occurrences w (words_from [] arr)))

nothing : Counts [] (empty 0)
unfolding wc_output
nothing w = (refl, refl)

-- On an array without 0 bytes, where `malloc` leaves a 0 behind each copied word, `wc_init`
-- succeeds, and `wc_output` then prints exactly one line for each word that a space ends in the
-- array, with the number of times that one does, and no other line.
pub wc_init-counts :
    (arr : List ℕ) → has_zero arr ≡ false → (wc : Wc) × (wc_init 0 arr ≡ some wc) × Counts arr wc
wc_init-counts [] nz = (empty 0, init_words [] nz, nothing)
wc_init-counts (c ∷ cs) nz =
    let ks = words_from [] (c ∷ cs) in
    let start = empty (length (c ∷ cs) * 2) in
    let pos : 0 < (insert_all ks start).size = rw (insert_all-size ks start) (omega arith) in
    (
      insert_all ks start,
      init_words (c ∷ cs) nz,
      λ w.
          wc_output-count w ks (insert_all ks start) pos
            (insert_all-Tallies ks [] start (empty-Tallies _)),
    )
