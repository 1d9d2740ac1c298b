-- ===== src/Server/Cache/Tests.antt =====
-- The claims on the cache at a concrete file: "ab", of one byte, in a cache of ten.
use ece344_operating_systems.Server.Cache.{
  Cache, FileData, null, cache_table_initialization, cache_insert, hash_function, table_size, ◌∷◌,
}
use ece344_operating_systems.Base.{◌∷◌, ◌≡◌, [], pos, refl, arith}
use ece344_operating_systems.Server.Cache.Clean.{Clean, Inserts, cache_insert-Clean}

abbrev empty : Cache
empty = cache_table_initialization (λ i. null)

abbrev file : FileData
file = record { file_name = 97 ∷ 98 ∷ []; file_buf = 120 ∷ 0 ∷ []; file_size = 1 }

abbrev stored_file : FileData
stored_file = record { file_name = 97 ∷ 98 ∷ []; file_buf = 120 ∷ []; file_size = 1 }

file_index : hash_function file.file_name table_size ≡ pos 3299
unfolding hash_function
file_index = refl

empty-Clean : Clean empty
unfolding cache_table_initialization
empty-Clean i = refl

cache_insert-Clean_example : Inserts 10 file stored_file empty (cache_insert null 10 file empty)
cache_insert-Clean_example =
    cache_insert-Clean 10 file (120 ∷ []) empty 3299 empty-Clean file_index (omega arith) refl
