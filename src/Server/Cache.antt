-- ===== src/Server/Cache.antt =====
-- The file cache of webserver/server_thread.c. What `malloc` leaves in a new object is a parameter:
-- the code does not clear the table of chains, nor the `next` of an entry in an empty one.
pub mod Entries
pub mod Hash
pub mod Clean
mod Tests
use ece344_operating_systems.Base.{
  ℕ, zero, suc, ◌+◌, ◌-◌, ◌*◌, ◌%◌, ◌^◌, ◌≤◌, ◌<◌, Bool, true, false, Option, none, some, List, [],
  ◌∷◌, ◌==◌, ltb, leb, if◌then◌else◌, ℤ, pos, negsuc, c_string, eq_string,
}
use ece344_operating_systems.Threads.State.{assign}

abbrev pub table_size : ℕ
table_size = 5381

-- `struct file_data`: the name, the bytes allocated for the content, none at `NULL`, and the size.
pub record FileData : Type 0 where
  pub file_name : List ℕ
  pub file_buf : List ℕ
  pub file_size : ℕ

-- A chain of `struct hash_table_entry`, or a pointer that nobody has set.
pub data Chain : Type 0 where
  null : Chain
  garbage : Chain
  entry : FileData → Chain → Chain

-- `struct cache_table`, less the LRU queue, which no request touches.
pub record Cache : Type 0 where
  pub occupied_cache : ℕ
  pub maximum_bytes : ℕ
  pub hash_table : ℕ → Chain

-- A `char`, which is signed, as an int of 32 bits.
abbrev pub char_int : ℕ → ℕ
char_int c = if ltb c 128 then c else 2 ^ 32 - (256 - c)

-- The loop of `hash_function` on an int; an overflow, which C leaves undefined, wraps.
abbrev pub hash_from : ℕ → List ℕ → ℕ
hash_from hash [] = hash
hash_from hash (c ∷ key) = hash_from ((hash * 32 + hash + char_int c) % 2 ^ 32) key

abbrev pub signed : ℕ → ℤ
signed u = if ltb u (2 ^ 31) then pos u else negsuc (2 ^ 32 - 1 - u)

abbrev minus : ℕ → ℤ
minus zero = pos 0
minus (suc n) = negsuc n

-- C's remainder takes the sign of the dividend.
abbrev pub rem : ℤ → ℕ → ℤ
rem (pos n) size = pos (n % size)
rem (negsuc n) size = minus (suc n % size)

unfoldable pub hash_function : List ℕ → ℕ → ℤ
hash_function key size = rem (signed (hash_from 5381 key)) size

-- `left` is what `malloc` left in the table.
unfoldable pub cache_table_initialization : (ℕ → Chain) → Cache
cache_table_initialization left = record {
  occupied_cache = 0;
  maximum_bytes = table_size;
  hash_table = left;
}

-- The walk of `cache_lookup`: `none` is a read through a pointer that nobody has set.
unfoldable pub lookup_chain : List ℕ → Chain → Option (Option FileData)
lookup_chain file_to_look null = some none
lookup_chain file_to_look garbage = none
lookup_chain file_to_look (entry d next) =
    let rest = lookup_chain file_to_look next in
    if eq_string d.file_name file_to_look then some (some d) else rest

-- The chain at an index of the table; `none` is an index out of it.
abbrev pub chain_at : (ℕ → Chain) → ℤ → Option Chain
chain_at table (pos i) = if ltb i table_size then some (table i) else none
chain_at table (negsuc n) = none

abbrev pub look_in : List ℕ → Option Chain → Option (Option FileData)
look_in file_to_look none = none
look_in file_to_look (some chain) = lookup_chain file_to_look chain

unfoldable pub cache_lookup : Cache → List ℕ → Option (Option FileData)
unfolding lookup_chain hash_function
cache_lookup cache file_to_look =
    look_in file_to_look (chain_at cache.hash_table (hash_function file_to_look table_size))

-- `file_size + occupied_cache - max_cache_storage`.
unfoldable pub cache_evict_helper : ℕ → ℕ → ℕ → ℤ
cache_evict_helper max_cache_storage file_size occupied_cache =
    let sum = file_size + occupied_cache in
    if leb max_cache_storage sum
    then pos (sum - max_cache_storage)
    else negsuc (max_cache_storage - sum - 1)

abbrev pub is_positive : ℤ → Bool
is_positive (pos zero) = false
is_positive (pos (suc n)) = true
is_positive (negsuc n) = false

-- The new entry goes before a chain that is there; before none, its `next` stays what `malloc`
-- left.
abbrev pub put_first : Chain → FileData → Chain → Chain
put_first left d null = entry d left
put_first left d chain = entry d chain

abbrev pub index_of : ℤ → ℕ
index_of (pos i) = i
index_of (negsuc n) = 0

-- The part of `cache_insert` behind its tests: the content is copied as a string.
unfoldable pub insert_entry : Chain → FileData → Cache → Option (Option FileData × Cache)
unfolding hash_function
insert_entry left data_to_store cache = elim (c_string data_to_store.file_buf) [
  | none ↦ none
  | some file_buf ↦
      let key = index_of (hash_function data_to_store.file_name table_size) in
      let d = record data_to_store { file_buf = file_buf } in
      some (
        some d,
        record cache {
          hash_table = assign cache.hash_table key (put_first left d (cache.hash_table key));
          occupied_cache = cache.occupied_cache + data_to_store.file_size;
        },
      )
]

-- What `cache_insert` returns, and the cache; `none` is a fault. An index out of the table has
-- failed in the look-up already.
unfoldable pub cache_insert : Chain → ℕ → FileData → Cache → Option (Option FileData × Cache)
unfolding cache_lookup cache_evict_helper insert_entry
cache_insert left max_cache_size data_to_store cache =
    if ltb max_cache_size data_to_store.file_size
    then some (none, cache)
    else elim (cache_lookup cache data_to_store.file_name) [
      | none ↦ none
      | some (some found) ↦ some (none, cache)
      | some none ↦
          if is_positive
            (cache_evict_helper max_cache_size data_to_store.file_size cache.occupied_cache)
          then some (none, cache)
          else insert_entry left data_to_store cache
    ]
