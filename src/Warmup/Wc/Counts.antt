-- ===== src/Warmup/Wc/Counts.antt =====
-- How often the table has counted a word.
use native.Mathlib.Nat.{mod-lt}
use mathlib.Core.Path.{subst}
use ece344_operating_systems.Warmup.Wc.{
  Item, Wc, insert, insert_chain, count_again, hash_function, output_from, wc_output, create_items,
}
use ece344_operating_systems.Base.{
  ℕ, ◌≤◌, false, List, ◌∷◌, Option, eq_string, ◌<◌, ◌≡◌, ◌++◌, some, true, Bool-cases, [], ◌∙◌,
  if◌then◌else◌, ◌+◌, arith, ap, inl, Option-cases, leb, ◌==◌, none, sym, inr, eq_string_sound,
  ◌&&◌, ltb, refl, suc, zero,
}

-- What the items with this key have counted.
abbrev pub count_in : List ℕ → List Item → ℕ
count_in w [] = 0
count_in w (x ∷ xs) = (if eq_string w x.key then x.count else 0) + count_in w xs

abbrev pub occurrences : List ℕ → List (List ℕ) → ℕ
occurrences w [] = 0
occurrences w (k ∷ ks) = (if eq_string w k then 1 else 0) + occurrences w ks

count_in-append :
    (w : List ℕ) (xs ys : List Item) → count_in w (xs ++ ys) ≡ count_in w xs + count_in w ys
count_in-append w [] ys = omega arith
count_in-append w (x ∷ xs) ys = omega (arith, count_in-append w xs ys)

-- What the look for a key, and its count, change in a chain.
abbrev Counted : List ℕ → List ℕ → List Item → Option (List Item) → Type 0
Counted w key chain none = Unit {0}
Counted w key chain (some c) = count_in w c ≡ (if eq_string w key then 1 else 0) + count_in w chain

same_key :
    (w key : List ℕ) (x : Item) → eq_string key x.key ≡ true → eq_string w x.key ≡ eq_string w key
same_key w key x e = ap (eq_string w) (sym (eq_string_sound key x.key e))

Counted-cons :
    (w key : List ℕ) (x : Item) (xs : List Item) (o : Option (List Item))
    → Counted w key xs o
    → Counted w key (x ∷ xs) (elim o [ none ↦ none | some rest ↦ some (x ∷ rest) ])
Counted-cons w key x xs none h = tt
Counted-cons w key x xs (some c) h = omega (arith, h)

Counted-first :
    (w key : List ℕ) (x : Item) (xs : List Item)
    → eq_string key x.key ≡ true
    → Counted w key (x ∷ xs) (some (record x { count = x.count + 1 } ∷ xs))
Counted-first w key x xs e = ground (arith, same_key w key x e)

count_again-Counted :
    (w key : List ℕ) (chain : List Item) → Counted w key chain (count_again key chain)
unfolding count_again
count_again-Counted w key [] = tt
count_again-Counted w key (x ∷ xs) = elim (Bool-cases (eq_string key x.key)) [
  | inl e ↦ rw e (Counted-first w key x xs e)
  | inr e ↦ rw e (Counted-cons w key x xs (count_again key xs) (count_again-Counted w key xs))
]

insert_chain-count :
    (w key : List ℕ) (chain : List Item)
    → count_in w (insert_chain key chain) ≡ (if eq_string w key then 1 else 0) + count_in w chain
unfolding insert_chain create_items
insert_chain-count w key [] = refl
insert_chain-count w key (x ∷ xs) = elim (Option-cases (count_again key (x ∷ xs))) [
  | inl e ↦ rw (insert_chain, e) (count_in-append w (x ∷ xs) _ ∙ omega arith)
  | inr (c, e) ↦
      let h : Counted w key (x ∷ xs) (some c) =
        subst (Counted w key (x ∷ xs)) e (count_again-Counted w key (x ∷ xs)) in
      rw (insert_chain, e) h
]

-- How many items have this key.
abbrev pub lines_with : List ℕ → List Item → ℕ
lines_with w [] = 0
lines_with w (x ∷ xs) = (if eq_string w x.key then 1 else 0) + lines_with w xs

lines_with-append :
    (w : List ℕ) (xs ys : List Item) → lines_with w (xs ++ ys) ≡ lines_with w xs + lines_with w ys
lines_with-append w [] ys = omega arith
lines_with-append w (x ∷ xs) ys = omega (arith, lines_with-append w xs ys)

-- A key that is found has an item already, and gets no other; one that is not found has none.
abbrev Kept : List ℕ → List ℕ → List Item → Option (List Item) → Type 0
Kept w key chain none = lines_with key chain ≡ 0
Kept w key chain (some c) = (lines_with w c ≡ lines_with w chain) × (1 ≤ lines_with key chain)

Kept-cons :
    (w key : List ℕ) (x : Item) (xs : List Item) (o : Option (List Item))
    → eq_string key x.key ≡ false
    → Kept w key xs o
    → Kept w key (x ∷ xs) (elim o [ none ↦ none | some rest ↦ some (x ∷ rest) ])
Kept-cons w key x xs none e h = rw e (omega (arith, h))
Kept-cons w key x xs (some c) e (h, k) = (omega (arith, h), omega (arith, k))

Kept-first :
    (w key : List ℕ) (x : Item) (xs : List Item)
    → eq_string key x.key ≡ true
    → Kept w key (x ∷ xs) (some (record x { count = x.count + 1 } ∷ xs))
Kept-first w key x xs e = (refl, ground (arith, e))

count_again-Kept : (w key : List ℕ) (chain : List Item) → Kept w key chain (count_again key chain)
unfolding count_again
count_again-Kept w key [] = refl
count_again-Kept w key (x ∷ xs) = elim (Bool-cases (eq_string key x.key)) [
  | inl e ↦ rw e (Kept-first w key x xs e)
  | inr e ↦ rw e (Kept-cons w key x xs (count_again key xs) e (count_again-Kept w key xs))
]

same_lines :
    (w key : List ℕ) (chain : List Item)
    → eq_string w key ≡ true
    → lines_with w chain ≡ lines_with key chain
same_lines w key chain e = ap (λ (k : List ℕ). lines_with k chain) (eq_string_sound w key e)

absent_line :
    (w key : List ℕ) (chain : List Item)
    → lines_with key chain ≡ 0
    → lines_with w chain + ((if eq_string w key then 1 else 0) + 0)
      ≡ (if eq_string w key && (lines_with w chain == 0) then 1 else lines_with w chain)
absent_line w key chain h = ground (arith, same_lines w key chain)

present_line :
    (w key : List ℕ) (chain : List Item)
    → 1 ≤ lines_with key chain
    → lines_with w chain
      ≡ (if eq_string w key && (lines_with w chain == 0) then 1 else lines_with w chain)
present_line w key chain h = ground (arith, same_lines w key chain)

-- A key that is inserted has one item more only where it had none.
insert_chain-lines :
    (w key : List ℕ) (chain : List Item)
    → lines_with w (insert_chain key chain)
      ≡ (if eq_string w key && (lines_with w chain == 0) then 1 else lines_with w chain)
unfolding insert_chain create_items
insert_chain-lines w key [] = ground arith
insert_chain-lines w key (x ∷ xs) = elim (Option-cases (count_again key (x ∷ xs))) [
  | inl e ↦
      let h : Kept w key (x ∷ xs) none =
        subst (Kept w key (x ∷ xs)) e (count_again-Kept w key (x ∷ xs)) in
      rw (insert_chain, e)
        (lines_with-append w (x ∷ xs) (create_items key 1 ∷ []) ∙ absent_line w key (x ∷ xs) h)
  | inr (c, e) ↦
      let h : Kept w key (x ∷ xs) (some c) =
        subst (Kept w key (x ∷ xs)) e (count_again-Kept w key (x ∷ xs)) in
      rw (insert_chain, e) (h.0 ∙ present_line w key (x ∷ xs) h.1)
]

-- One line for a word that occurs.
abbrev pub once : ℕ → ℕ
once zero = 0
once (suc n) = 1

-- Each slot holds the words that hash to it, each in one item, with its number of occurrences in
-- `ws`.
abbrev pub Tallies : List (List ℕ) → Wc → Type 0
Tallies ws wc =
    (w : List ℕ) (i : ℕ)
    → (count_in w (wc.items i) ≡ (if i == hash_function w wc.size then occurrences w ws else 0))
      × (lines_with w (wc.items i)
          ≡ (if i == hash_function w wc.size then once (occurrences w ws) else 0))

occurrences-append :
    (w : List ℕ) (xs ys : List (List ℕ))
    → occurrences w (xs ++ ys) ≡ occurrences w xs + occurrences w ys
occurrences-append w [] ys = omega arith
occurrences-append w (x ∷ xs) ys = omega (arith, occurrences-append w xs ys)

-- A word that occurs once more.
once-more : (n : ℕ) → (if once n == 0 then 1 else once n) ≡ once (n + 1)
once-more zero = refl
once-more (suc n) = let more : suc n + 1 ≡ suc (n + 1) = omega arith in ap once (sym more)

once_again :
    (w key : List ℕ) (ws : List (List ℕ))
    → (if eq_string w key && (once (occurrences w ws) == 0) then 1 else once (occurrences w ws))
      ≡ once (occurrences w (ws ++ key ∷ []))
once_again w key ws =
    let seen = occurrences-append w ws (key ∷ []) in
    elim (Bool-cases (eq_string w key)) [
      | inl e ↦
          let one : occurrences w (ws ++ key ∷ []) ≡ occurrences w ws + 1 = ground (arith, e) in
          rw (e, one) (once-more (occurrences w ws))
      | inr e ↦
          let same : occurrences w (ws ++ key ∷ []) ≡ occurrences w ws = ground (arith, e) in
          rw (e, same) refl
    ]

pub insert-Tallies :
    (key : List ℕ) (ws : List (List ℕ)) (wc : Wc)
    → Tallies ws wc
    → Tallies (ws ++ key ∷ []) (insert key wc)
unfolding insert
insert-Tallies key ws wc h w i =
    let more = insert_chain-count w key (wc.items (hash_function key wc.size)) in
    let lines = insert_chain-lines w key (wc.items (hash_function key wc.size)) in
    let same : eq_string w key ≡ true → hash_function w wc.size ≡ hash_function key wc.size =
      λ e. ap (λ (k : List ℕ). hash_function k wc.size) (eq_string_sound w key e) in
    let seen = occurrences-append w ws (key ∷ []) in
    let again = once_again w key ws in
    (ground (arith, (h w i).0, more, same, seen), ground (arith, (h w i).1, lines, same, again))

-- A measure of the items, which one slot has, is that of the lines printed.
module _ (m : List Item → ℕ) (none_there : m [] ≡ 0)
    (adds : (xs ys : List Item) → m (xs ++ ys) ≡ m xs + m ys) where
  output_from-sum :
      (n i slot v : ℕ) (wc : Wc)
      → ((j : ℕ) → m (wc.items j) ≡ (if j == slot then v else 0))
      → m (output_from n i wc) ≡ (if leb i slot && ltb slot (i + n) then v else 0)
  unfolding output_from
  output_from-sum zero i slot v wc h = ground (arith, none_there)
  output_from-sum (suc n) i slot v wc h =
      adds (wc.items i) (output_from n (i + 1) wc)
      ∙ ground (arith, h i, output_from-sum n (i + 1) slot v wc h)

  wc_output-sum :
      (slot v : ℕ) (wc : Wc)
      → slot < wc.size
      → ((j : ℕ) → m (wc.items j) ≡ (if j == slot then v else 0))
      → m (wc_output wc) ≡ v
  unfolding wc_output
  wc_output-sum slot v wc lt h = output_from-sum wc.size 0 slot v wc h ∙ ground (arith, lt)

hash_lt : (w : List ℕ) (n : ℕ) → 0 < n → hash_function w n < n
unfolding hash_function
hash_lt w n h = mod-lt _ h

-- The lines that are printed: one for each word that was inserted, with the number of times it was.
pub wc_output-count :
    (w : List ℕ) (ws : List (List ℕ)) (wc : Wc)
    → 0 < wc.size
    → Tallies ws wc
    → (count_in w (wc_output wc) ≡ occurrences w ws)
      × (lines_with w (wc_output wc) ≡ once (occurrences w ws))
wc_output-count w ws wc pos h =
    let slot = hash_function w wc.size in
    let lt : slot < wc.size = hash_lt w wc.size pos in
    (
      wc_output-sum (count_in w) refl (count_in-append w) slot (occurrences w ws) wc lt
          (λ j. (h w j).0),
      wc_output-sum (lines_with w) refl (lines_with-append w) slot (once (occurrences w ws)) wc lt
          (λ j. (h w j).1),
    )
