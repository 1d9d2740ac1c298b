-- ===== src/Server/Cache/Hash.antt =====
-- Where the signed hash of a name is an index of the table.
use native.Mathlib.Nat.{mod-lt}
use ece344_operating_systems.Server.Cache.{
  hash_function, hash_from, table_size, char_int, signed, rem,
}
use ece344_operating_systems.Base.{
  ℕ, length, ltb, List, ◌≤◌, Bool, ◌≡◌, true, ◌∷◌, pos, ◌<◌, ◌*◌, ◌&&◌, ◌+◌, ◌%◌, ◌^◌, arith, [],
  ap, ℤ, refl,
}

abbrev pub is_ascii : List ℕ → Bool
is_ascii [] = true
is_ascii (c ∷ cs) = ltb c 128 && is_ascii cs

lt_of : (a b : ℕ) → ltb a b ≡ true → a < b
lt_of a b h = ground arith

-- A step of the hash that does not overflow an unsigned int.
hash_step :
    (h c : ℕ) → h ≤ 130000000 → ltb c 128 ≡ true → (h * 32 + h + char_int c) % 2 ^ 32 ≡ h * 33 + c
hash_step h c l a =
    let e : h * 32 + h + char_int c ≡ h * 33 + c = rw a (omega arith) in
    rw e (omega (arith, l, lt_of c 128 a))

hash_bound : (key : List ℕ) → length key ≤ 3 → is_ascii key ≡ true → hash_from 5381 key < 2 ^ 31
hash_bound [] l a = omega arith
hash_bound (x ∷ []) l a = ground (arith, hash_step 5381 x)
hash_bound (x ∷ y ∷ []) l a = ground (arith, hash_step 5381 x, hash_step (5381 * 33 + x) y)
hash_bound (x ∷ y ∷ z ∷ []) l a =
    ground
      (arith, hash_step 5381 x, hash_step (5381 * 33 + x) y, hash_step ((5381 * 33 + x) * 33 + y) z)
hash_bound (x ∷ y ∷ z ∷ w ∷ key) l a = absurd (omega (arith, l))

signed_small : (u : ℕ) → ltb u (2 ^ 31) ≡ true → signed u ≡ pos u
signed_small u h = rw h refl

-- A name of at most three characters, all below 128, hashes to an index of the table: its hash does
-- not overflow an int.
pub hash_function-index :
    (key : List ℕ)
    → length key ≤ 3
    → is_ascii key ≡ true
    → (i : ℕ) × (hash_function key table_size ≡ pos i) × (i < table_size)
unfolding hash_function
hash_function-index key l a =
    let b = hash_bound key l a in
    let lt : ltb (hash_from 5381 key) (2 ^ 31) ≡ true = ground (arith, b) in
    (
      hash_from 5381 key % table_size,
      ap (λ (k : ℤ). rem k table_size) (signed_small (hash_from 5381 key) lt),
      mod-lt _ (omega arith),
    )
