-- ===== src/Server/Cache/Entries.antt =====
-- What the cache holds, where `malloc` returns cleared memory.
use ece344_operating_systems.Server.Cache.{
  Cache, FileData, Chain, null, garbage, entry, cache_insert, cache_lookup, insert_entry,
  lookup_chain, put_first, chain_at, hash_function, table_size, index_of, cache_evict_helper,
  assign, is_positive, look_in,
}
use ece344_operating_systems.Base.{
  ℕ, ◌≡◌, List, ℤ, if◌then◌else◌, eq_string, none, ◌+◌, some, pos, arith, refl, negsuc, Option,
  c_string, leb, Bool-cases, ◌≤◌, ◌<◌, true, Option-cases, false, ltb, inl, suc, ◌==◌, ◌-◌, inr,
  zero, sym, ◌∙◌, ap, eq_string_sound,
}
use ece344_operating_systems.Threads.State.{assign_self, assign_ne}

-- An entry put first in a chain is what a look for its name finds; other names are not affected.
put_first-lookup :
    (d : FileData) (w : List ℕ) (chain : Chain)
    → lookup_chain w (put_first null d chain)
      ≡ (if eq_string d.file_name w then some (some d) else lookup_chain w chain)
unfolding lookup_chain
put_first-lookup d w null = refl
put_first-lookup d w garbage = refl
put_first-lookup d w (entry e rest) = refl

-- The cache with the new entry.
abbrev pub with_entry : FileData → List ℕ → Cache → Cache
with_entry d buf cache =
    let key = index_of (hash_function d.file_name table_size) in
    record cache {
      hash_table =
          assign cache.hash_table key
            (put_first null (record d { file_buf = buf }) (cache.hash_table key));
      occupied_cache = cache.occupied_cache + d.file_size;
    }

abbrev look : (ℕ → Chain) → ℤ → List ℕ → Option (Option FileData)
look table k w = look_in w (chain_at table k)

pub chain_at-within :
    (table : ℕ → Chain) (i : ℕ) → i < table_size → chain_at table (pos i) ≡ some (table i)
chain_at-within table i l = ground arith

chain_at_same :
    (table table' : ℕ → Chain) (j : ℕ)
    → table j ≡ table' j
    → chain_at table (pos j) ≡ chain_at table' (pos j)
chain_at_same table table' j e = ground arith

look-put_first :
    (d : FileData) (w : List ℕ) (table : ℕ → Chain) (i : ℕ) (k : ℤ)
    → i < table_size
    → (eq_string d.file_name w ≡ true → k ≡ pos i)
    → look (assign table i (put_first null d (table i))) k w
      ≡ (if eq_string d.file_name w then some (some d) else look table k w)
look-put_first d w table i (negsuc n) l same = ground (arith, same)
look-put_first d w table i (pos j) l same = elim (Bool-cases (j == i)) [
  | inl e ↦
      let at : j ≡ i = ground arith in
      let new = assign table i (put_first null d (table i)) in
      ap (λ (n : ℕ). look new (pos n) w) at
      ∙ ap (look_in w) (chain_at-within new i l)
      ∙ ap (lookup_chain w) (assign_self table i (put_first null d (table i)))
      ∙ put_first-lookup d w (table i)
      ∙ ap (λ (x : Option (Option FileData)). if eq_string d.file_name w then some (some d) else x)
          (sym
            (ap (λ (n : ℕ). look table (pos n) w) at ∙ ap (look_in w) (chain_at-within table i l)))
  | inr e ↦
      let other : eq_string d.file_name w ≡ false = ground (arith, same) in
      rw other (
        ap (look_in w) (
          chain_at_same (assign table i (put_first null d (table i))) table j
            (assign_ne table i (put_first null d (table i)) j (ground arith))))
]

-- What a successful `cache_insert` has tested and done.
abbrev pub Inserted : ℕ → FileData → Cache → FileData → Cache → Type 0
Inserted max d cache e c' =
    (buf : List ℕ) × (c_string d.file_buf ≡ some buf)
    × (e ≡ record d { file_buf = buf })
    × (c' ≡ with_entry d buf cache)
    × (cache_lookup cache d.file_name ≡ some none)
    × (d.file_size + cache.occupied_cache ≤ max)

insert_entry_runs :
    (d : FileData) (buf : List ℕ) (cache : Cache)
    → c_string d.file_buf ≡ some buf
    → insert_entry null d cache ≡ some (some (record d { file_buf = buf }), with_entry d buf cache)
unfolding insert_entry
insert_entry_runs d buf cache b = rw (insert_entry, b) refl

insert_entry-Inserted :
    (max : ℕ) (d : FileData) (cache : Cache) (e : FileData) (c' : Cache)
    → cache_lookup cache d.file_name ≡ some none
    → d.file_size + cache.occupied_cache ≤ max
    → insert_entry null d cache ≡ some (some e, c')
    → Inserted max d cache e c'
unfolding insert_entry
insert_entry-Inserted max d cache e c' absent l h = elim (Option-cases (c_string d.file_buf)) [
  | inl no_buf ↦ absurd (ground (arith, h, no_buf))
  | inr (buf, b) ↦
      let run : ◌≡◌ {A = Option (Option FileData × Cache)}
          (some (some (record d { file_buf = buf }), with_entry d buf cache)) (some (some e, c')) =
        sym (insert_entry_runs d buf cache b) ∙ h in
      (buf, b, cc, cc, absent, l)
]

zero_of : (n : ℕ) → is_positive (pos n) ≡ false → n ≡ 0
zero_of zero h = refl
zero_of (suc n) h = ground arith

le_of : (a b : ℕ) → leb a b ≡ true → a ≤ b
le_of a b h = ground arith

rest_of :
    (max size occ : ℕ)
    → leb max (size + occ) ≡ true
    → is_positive (cache_evict_helper max size occ) ≡ false
    → is_positive (pos (size + occ - max)) ≡ false
unfolding cache_evict_helper
rest_of max size occ le h = ground (arith, h, le)

fits : (max size occ : ℕ) → is_positive (cache_evict_helper max size occ) ≡ false → size + occ ≤ max
unfolding cache_evict_helper
fits max size occ h = elim (Bool-cases (leb max (size + occ))) [
  | inl le ↦
      omega
        (arith, zero_of (size + occ - max) (rest_of max size occ le h), le_of max (size + occ) le)
  | inr gt ↦ ground (arith, gt)
]

cache_insert-Inserted :
    (max : ℕ) (d : FileData) (cache : Cache) (e : FileData) (c' : Cache)
    → cache_insert null max d cache ≡ some (some e, c')
    → Inserted max d cache e c'
unfolding cache_insert
cache_insert-Inserted max d cache e c' h = elim (Bool-cases (ltb max d.file_size)) [
  | inl big ↦ absurd (ground (arith, h, big))
  | inr small ↦ elim (Option-cases (cache_lookup cache d.file_name)) [
    | inl bad ↦ absurd (ground (arith, h, small, bad))
    | inr (some found, f) ↦ absurd (ground (arith, h, small, f))
    | inr (none, f) ↦
        elim (Bool-cases (is_positive (cache_evict_helper max d.file_size cache.occupied_cache))) [
          | inl full ↦ absurd (ground (arith, h, small, f, full))
          | inr room ↦
              insert_entry-Inserted max d cache e c' f
                (fits max d.file_size cache.occupied_cache room) (ground (arith, h, small, f, room))
        ]
  ]
]

-- The index of a name that was looked up without a fault.
in_table :
    (cache : Cache) (w : List ℕ)
    → cache_lookup cache w ≡ some none
    → (i : ℕ) × (hash_function w table_size ≡ pos i) × (i < table_size)
unfolding cache_lookup
in_table cache w h = in_range (hash_function w table_size) refl
  where
    in_range :
        (k : ℤ)
        → hash_function w table_size ≡ k
        → (i : ℕ) × (hash_function w table_size ≡ pos i) × (i < table_size)
    in_range (pos i) e = (i, e, ground (arith, h, e))
    in_range (negsuc n) e = absurd (ground (arith, h, e))

pub cache_insert-lookup :
    (max : ℕ) (d : FileData) (cache : Cache) (e : FileData) (c' : Cache)
    → cache_insert null max d cache ≡ some (some e, c')
    → (cache_lookup cache d.file_name ≡ some none)
      × (c'.occupied_cache ≡ cache.occupied_cache + d.file_size)
      × (c'.occupied_cache ≤ max)
      × (e.file_name ≡ d.file_name)
      × (c_string d.file_buf ≡ some e.file_buf)
      × ((w : List ℕ)
          → cache_lookup c' w
            ≡ (if eq_string d.file_name w then some (some e) else cache_lookup cache w))
unfolding cache_lookup
cache_insert-lookup max d cache e c' h =
    let (buf, b, at_e, at_c, absent, l) = cache_insert-Inserted max d cache e c' h in
    let (i, at_i, lt) = in_table cache d.file_name absent in
    let d' : FileData = record d { file_buf = buf } in
    let stored : with_entry d buf cache ≡ record cache {
      hash_table = assign cache.hash_table i (put_first null d' (cache.hash_table i));
      occupied_cache = cache.occupied_cache + d.file_size;
    } =
      ap
        (λ (k : ℤ). record cache {
          hash_table =
              assign cache.hash_table (index_of k)
                (put_first null d' (cache.hash_table (index_of k)));
          occupied_cache = cache.occupied_cache + d.file_size;
        })
        at_i in
    let within_size : c'.occupied_cache ≤ max =
      rw (ap (λ (c : Cache). c.occupied_cache) at_c) (omega (arith, l)) in
    (
      absent,
      ap (λ (c : Cache). c.occupied_cache) at_c,
      within_size,
      ap (λ (x : FileData). x.file_name) at_e,
      b ∙ ap (λ (x : FileData). some x.file_buf) (sym at_e),
      λ w.
          ap (λ (c : Cache). cache_lookup c w) (at_c ∙ stored)
          ∙ look-put_first d' w cache.hash_table i (hash_function w table_size) lt (λ s.
            ap (λ (x : List ℕ). hash_function x table_size) (sym (eq_string_sound d.file_name w s))
            ∙ at_i)
          ∙ ap
              (λ (x : FileData).
                if eq_string d.file_name w then some (some x) else cache_lookup cache w)
              (sym at_e),
    )
