-- ===== src/Server/Cache/Clean.antt =====
-- The cache does not fault where `malloc` returns cleared memory.
use ece344_operating_systems.Server.Cache.{
  Cache, FileData, Chain, null, garbage, entry, cache_insert, cache_lookup, insert_entry,
  lookup_chain, put_first, chain_at, hash_function, table_size, index_of, cache_evict_helper,
  assign, is_positive, look_in,
}
use ece344_operating_systems.Server.Cache.Entries.{with_entry, chain_at-within, cache_insert-lookup}
use ece344_operating_systems.Base.{
  ℕ, ◌≡◌, ◌⊎◌, Bool, true, List, Option, ◌≢◌, false, some, pos, ltb, refl, if◌then◌else◌, none,
  arith, suc, c_string, ◌+◌, ◌<◌, Bool-cases, ap, leb, zero, eq_string, ℤ, inl, ◌-◌, inr, ◌∙◌,
}

abbrev pub is_clean : Chain → Bool
is_clean null = true
is_clean garbage = false
is_clean (entry d next) = is_clean next

-- No chain leads to a pointer that nobody has set.
abbrev pub Clean : Cache → Type 0
Clean cache = (i : ℕ) → is_clean (cache.hash_table i) ≡ true

lookup_chain-defined :
    (w : List ℕ) (chain : Chain)
    → is_clean chain ≡ true
    → (r : Option FileData) × (lookup_chain w chain ≡ some r)
unfolding lookup_chain
lookup_chain-defined w null h = (none, refl)
lookup_chain-defined w garbage h = absurd (ground (arith, h))
lookup_chain-defined w (entry d next) h = elim (Bool-cases (eq_string d.file_name w)) [
  | inl e ↦ (some d, rw e refl)
  | inr e ↦ let (r, f) = lookup_chain-defined w next h in (r, rw e f)
]

cache_lookup-defined :
    (cache : Cache) (w : List ℕ) (i : ℕ)
    → Clean cache
    → hash_function w table_size ≡ pos i
    → i < table_size
    → (r : Option FileData) × (cache_lookup cache w ≡ some r)
unfolding cache_lookup
cache_lookup-defined cache w i c e l =
    let (r, f) = lookup_chain-defined w (cache.hash_table i) (c i) in
    (
      r,
      ap (λ (k : ℤ). look_in w (chain_at cache.hash_table k)) e
          ∙ ap (look_in w) (chain_at-within cache.hash_table i l)
          ∙ f,
    )

put_first-clean :
    (d : FileData) (chain : Chain)
    → is_clean chain ≡ true
    → is_clean (put_first null d chain) ≡ true
put_first-clean d null h = refl
put_first-clean d garbage h = h
put_first-clean d (entry e next) h = h

clean_assign :
    (table : ℕ → Chain) (key : ℕ) (chain : Chain) (i : ℕ)
    → ((j : ℕ) → is_clean (table j) ≡ true)
    → is_clean chain ≡ true
    → is_clean (assign table key chain i) ≡ true
clean_assign table key chain i c h = ground (arith, c i)

with_entry-Clean :
    (d : FileData) (buf : List ℕ) (cache : Cache) → Clean cache → Clean (with_entry d buf cache)
with_entry-Clean d buf cache c i =
    let key = index_of (hash_function d.file_name table_size) in
    let d' : FileData = record d { file_buf = buf } in
    let new = put_first-clean d' (cache.hash_table key) (c key) in
    clean_assign cache.hash_table key (put_first null d' (cache.hash_table key)) i c new

-- Whether the cache refuses a file: it is there already, or would not fit.
abbrev pub refuses : ℕ → FileData → Option FileData → Cache → Bool
refuses max d (some found) cache = true
refuses max d none cache = ltb max (d.file_size + cache.occupied_cache)

positive : (n : ℕ) → n ≢ 0 → is_positive (pos n) ≡ true
positive zero ne = absurd (ne refl)
positive (suc n) ne = refl

too_much :
    (max size occ : ℕ)
    → ltb max (size + occ) ≡ true
    → is_positive (cache_evict_helper max size occ) ≡ true
unfolding cache_evict_helper
too_much max size occ h =
    let le : leb max (size + occ) ≡ true = ground arith in
    let ne : size + occ - max ≢ 0 = ground arith in rw le (positive (size + occ - max) ne)

enough :
    (max size occ : ℕ)
    → ltb max (size + occ) ≡ false
    → is_positive (cache_evict_helper max size occ) ≡ false
unfolding cache_evict_helper
enough max size occ h = elim (Bool-cases (leb max (size + occ))) [
  | inl le ↦ let z : size + occ - max ≡ 0 = ground arith in rw (le, z) refl
  | inr gt ↦ rw gt refl
]

refused :
    (max : ℕ) (d : FileData) (r : Option FileData) (cache : Cache)
    → cache_lookup cache d.file_name ≡ some r
    → refuses max d r cache ≡ true
    → cache_insert null max d cache ≡ some (none, cache)
unfolding cache_insert
refused max d (some found) cache f h = elim (Bool-cases (ltb max d.file_size)) [
  | inl big ↦ rw big refl
  | inr small ↦ rw (small, f) refl
]
refused max d none cache f h = elim (Bool-cases (ltb max d.file_size)) [
  | inl big ↦ rw big refl
  | inr small ↦ rw (small, f, too_much max d.file_size cache.occupied_cache h) refl
]

accepted :
    (max : ℕ) (d : FileData) (buf : List ℕ) (cache : Cache)
    → cache_lookup cache d.file_name ≡ some none
    → ltb max (d.file_size + cache.occupied_cache) ≡ false
    → c_string d.file_buf ≡ some buf
    → cache_insert null max d cache
      ≡ some (some (record d { file_buf = buf }), with_entry d buf cache)
unfolding cache_insert insert_entry
accepted max d buf cache f h b =
    let small : ltb max d.file_size ≡ false = ground arith in
    rw (cache_insert, small, f, enough max d.file_size cache.occupied_cache h, insert_entry, b) refl

-- What a call that has stored the file leaves: the file is found under its name, every other name
-- finds what it found before, and the file's size is counted.
abbrev pub Stored : FileData → Cache → Cache → Type 0
Stored e cache c' =
    Clean c'
    × (c'.occupied_cache ≡ cache.occupied_cache + e.file_size)
    × ((w : List ℕ)
        → cache_lookup c' w
          ≡ (if eq_string e.file_name w then some (some e) else cache_lookup cache w))

-- Both ends of `cache_insert`.
abbrev pub Inserts : ℕ → FileData → FileData → Cache → Option (Option FileData × Cache) → Type 0
Inserts max d e cache o =
    (r : Option FileData) × (cache_lookup cache d.file_name ≡ some r)
    × (((refuses max d r cache ≡ true) × (o ≡ some (none, cache)))
        ⊎ ((refuses max d r cache ≡ false)
            × (c' : Cache) × (o ≡ some (some e, c'))
            × Stored e cache c'))

accepted-Stored :
    (max : ℕ) (d : FileData) (buf : List ℕ) (cache : Cache)
    → Clean cache
    → cache_insert null max d cache
      ≡ some (some (record d { file_buf = buf }), with_entry d buf cache)
    → Stored (record d { file_buf = buf }) cache (with_entry d buf cache)
accepted-Stored max d buf cache c h =
    let e : FileData = record d { file_buf = buf } in
    let (absent, counted, within_size, name, bytes, found) =
      cache_insert-lookup max d cache e (with_entry d buf cache) h in
    (with_entry-Clean d buf cache c, counted, found)

-- On a clean cache, for a name whose hash is an index and a content that is a string,
-- `cache_insert` returns. If the name is there, or the file and the bytes that are taken are more
-- than the cache's size, it changes nothing and returns NULL. Else it returns a copy of the file
-- with the string, a look-up of the name finds that copy from then on, every other name finds what
-- it found before, the bytes that are taken grow by the file's size, and the cache is clean.
pub cache_insert-Clean :
    (max : ℕ) (d : FileData) (buf : List ℕ) (cache : Cache) (i : ℕ)
    → Clean cache
    → hash_function d.file_name table_size ≡ pos i
    → i < table_size
    → c_string d.file_buf ≡ some buf
    → Inserts max d (record d { file_buf = buf }) cache (cache_insert null max d cache)
cache_insert-Clean max d buf cache i c e l b =
    let (r, f) = cache_lookup-defined cache d.file_name i c e l in (r, f, by_answer r f)
  where
    by_answer :
        (r : Option FileData)
        → cache_lookup cache d.file_name ≡ some r
        → ((refuses max d r cache ≡ true) × (cache_insert null max d cache ≡ some (none, cache)))
          ⊎ ((refuses max d r cache ≡ false)
              × (c' : Cache) × (cache_insert null max d cache
                  ≡ some (some (record d { file_buf = buf }), c'))
              × Stored (record d { file_buf = buf }) cache c')
    by_answer (some found) f = inl (refl, refused max d (some found) cache f refl)
    by_answer none f = elim (Bool-cases (ltb max (d.file_size + cache.occupied_cache))) [
      | inl big ↦ inl (big, refused max d none cache f big)
      | inr fits ↦
          let run = accepted max d buf cache f fits b in
          inr (fits, with_entry d buf cache, run, accepted-Stored max d buf cache c run)
    ]
