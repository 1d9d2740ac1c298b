-- ===== src/Warmup/Wc.antt =====
-- warmup/wc.c: the table of words, how it is filled, and what is printed.
pub mod Counts
pub mod Scan
use ece344_operating_systems.Base.{
  ℕ, zero, suc, ◌+◌, ◌-◌, ◌*◌, ◌%◌, ◌^◌, Bool, true, false, Option, none, some, List, [], ◌∷◌, ◌++◌,
  ◌==◌, ◌||◌, ◌&&◌, not, ltb, leb, if◌then◌else◌, c_string, eq_string, length, take, drop, isspace,
}
use ece344_operating_systems.Threads.State.{assign, ◌>>=◌}

-- `struct item`, less its `next`: a chain is the list of its items.
pub record Item : Type 0 where
  pub key : List ℕ
  pub count : ℕ

-- `struct wc`.
pub record Wc : Type 0 where
  pub items : ℕ → List Item
  pub element_count : ℕ
  pub size : ℕ

-- A `char` is signed, and becomes an unsigned long through an int.
abbrev pub char_value : ℕ → ℕ
char_value c = if ltb c 128 then c else 2 ^ 64 - (256 - c)

abbrev hash_from : ℕ → List ℕ → ℕ
hash_from hash [] = hash
hash_from hash (c ∷ key) = hash_from ((hash * 32 % 2 ^ 64 + hash + char_value c) % 2 ^ 64) key

unfoldable pub hash_function : List ℕ → ℕ → ℕ
hash_function key size = hash_from 5381 key % size

unfoldable pub create_items : List ℕ → ℕ → Item
create_items key count = record { key = key; count = count }

-- The loop that looks for the key and counts it; `none` is `need_chaining`.
unfoldable pub count_again : List ℕ → List Item → Option (List Item)
count_again key [] = none
count_again key (temp ∷ rest) =
    let later = count_again key rest in
    if eq_string key temp.key
    then some (record temp { count = temp.count + 1 } ∷ rest)
    else elim later [ none ↦ none | some rest' ↦ some (temp ∷ rest') ]

unfoldable pub insert_chain : List ℕ → List Item → List Item
unfolding create_items count_again
insert_chain key [] = create_items key 1 ∷ []
insert_chain key (temp ∷ rest) = elim (count_again key (temp ∷ rest)) [
  | some chain ↦ chain
  | none ↦ (temp ∷ rest) ++ create_items key 1 ∷ []
]

unfoldable pub insert : List ℕ → Wc → Wc
unfolding insert_chain hash_function
insert key wc =
    let insert_id = hash_function key wc.size in
    record wc {
      items = assign wc.items insert_id (insert_chain key (wc.items insert_id));
      element_count = wc.element_count + 1;
    }

-- `buffer_str` after `strncpy`, which copies no terminator of its own, and `strcat`, which adds
-- none: `last_byte` is what `malloc` left in its last byte.
unfoldable pub buffer_str : ℕ → List ℕ → ℕ → ℕ → Option (List ℕ)
buffer_str last_byte word_array head_of_word counter =
    c_string (take counter (drop head_of_word word_array) ++ last_byte ∷ [])

-- The loop of `wc_init` on what is left of `word_array` from `index` on.
unfoldable pub scan_from : ℕ → List ℕ → List ℕ → ℕ → ℕ → ℕ → Wc → Option Wc
unfolding insert buffer_str
scan_from last_byte word_array [] index head_of_word counter wc = some wc
scan_from last_byte word_array (c ∷ left) index head_of_word counter wc =
    let at = index + 1 in
    let skipped = scan_from last_byte word_array left at head_of_word counter wc in
    let begun = scan_from last_byte word_array left at index 1 wc in
    let counted = scan_from last_byte word_array left at head_of_word (counter + 1) wc in
    let inserted =
      λ (key : List ℕ). scan_from last_byte word_array left at head_of_word 0 (insert key wc) in
    if isspace c && ltb 0 counter
    then buffer_str last_byte word_array head_of_word counter >>= inserted
    else if (counter == 0) && isspace c
    then skipped
    else if not (isspace c) && (counter == 0)
    then begun
    else counted

-- Twice the array's length in slots; the size is an int, so the array has less than 2 ^ 30 bytes.
unfoldable pub wc_init : ℕ → List ℕ → Option Wc
unfolding scan_from
wc_init last_byte word_array =
    scan_from last_byte word_array word_array 0 0 0
      (record { items = λ i. []; element_count = 0; size = length word_array * 2 })

-- The loop of `wc_output` from slot `i` on, with `n` left: the lines, each a key and its count.
unfoldable pub output_from : ℕ → ℕ → Wc → List Item
output_from zero i wc = []
output_from (suc n) i wc = wc.items i ++ output_from n (i + 1) wc

unfoldable pub wc_output : Wc → List Item
unfolding output_from
wc_output wc = output_from wc.size 0 wc
