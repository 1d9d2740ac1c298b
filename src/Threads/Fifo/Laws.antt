-- ===== src/Threads/Fifo/Laws.antt =====
-- Membership, distinctness and length under the queue operations.
use ece344_operating_systems.Base.{
  ℕ, suc, ◌≡◌, refl, List, Bool, true, false, ◌∷◌, ◌++◌, not, arith, length, [], ◌&&◌, ◌||◌, ◌==◌,
  ◌≢◌,
}
use ece344_operating_systems.Threads.Fifo.{mem, erase}

abbrev pub nodup : List ℕ → Bool
nodup [] = true
nodup (x ∷ xs) = not (mem x xs) && nodup xs

pub mem-erase : (x t : ℕ) (q : List ℕ) → mem x (erase t q) ≡ true → mem x q ≡ true
mem-erase x t [] h = h
mem-erase x t (y ∷ q) h = ground (arith, mem-erase x t q)

pub mem-erase-false : (x t : ℕ) (q : List ℕ) → mem x q ≡ false → mem x (erase t q) ≡ false
mem-erase-false x t [] h = h
mem-erase-false x t (y ∷ q) h = ground (arith, mem-erase-false x t q)

pub mem-erase_self : (t : ℕ) (q : List ℕ) → nodup q ≡ true → mem t (erase t q) ≡ false
mem-erase_self t [] h = refl
mem-erase_self t (y ∷ q) h = ground (arith, mem-erase_self t q)

pub nodup-erase : (t : ℕ) (q : List ℕ) → nodup q ≡ true → nodup (erase t q) ≡ true
nodup-erase t [] h = refl
nodup-erase t (y ∷ q) h = ground (arith, nodup-erase t q, mem-erase-false y t q)

pub length-erase : (t : ℕ) (q : List ℕ) → mem t q ≡ true → length q ≡ suc (length (erase t q))
length-erase t [] h = cc
length-erase t (y ∷ q) h = ground (arith, length-erase t q)

pub mem-append_one : (x t : ℕ) (q : List ℕ) → mem x (q ++ t ∷ []) ≡ (mem x q || x == t)
mem-append_one x t [] = ground arith
mem-append_one x t (y ∷ q) = ground (arith, mem-append_one x t q)

pub nodup-append_one :
    (t : ℕ) (q : List ℕ) → nodup q ≡ true → mem t q ≡ false → nodup (q ++ t ∷ []) ≡ true
nodup-append_one t [] h k = refl
nodup-append_one t (y ∷ q) h k = ground (arith, nodup-append_one t q, mem-append_one y t q)

pub erase_head : (t : ℕ) (q : List ℕ) → erase t (t ∷ q) ≡ q
erase_head t q = ground arith

pub apart_of : (x y : ℕ) (q : List ℕ) → mem x q ≡ true → mem y q ≡ false → x ≢ y
apart_of x y q h k e = cc
