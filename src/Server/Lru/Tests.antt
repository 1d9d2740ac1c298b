-- ===== src/Server/Lru/Tests.antt =====
-- The claims on the LRU queue at a concrete one: "b" at address 1, then "a" at address 2.
use ece344_operating_systems.Server.Lru.{LruQueue, Heap, lru_enqueue_head, if◌then◌else◌, ◌∷◌}
use ece344_operating_systems.Server.Lru.Order.{IsLru, Names, lru_enqueue_head-IsLru}
use ece344_operating_systems.Base.{arith, ◌≡◌, if◌then◌else◌, ◌∷◌, [], some, refl, ◌==◌, none}

abbrev heap : Heap
heap p =
    if p == 1
    then some (record { file_name = 98 ∷ []; previous = 0; next = 2 })
    else if p == 2
    then some (record { file_name = 97 ∷ []; previous = 1; next = 0 })
    else none

abbrev queue : LruQueue
queue = record { head = 1; tail = 2 }

abbrev names : Names
names = (1, 98 ∷ []) ∷ (2, 97 ∷ []) ∷ []

queue-IsLru : IsLru heap queue names
queue-IsLru = record {
  linked = (λ e. omega (arith, e), refl, refl, (λ e. omega (arith, e), refl, refl, tt));
  head_at = refl;
  tail_at = refl;
}

lru_enqueue_head-IsLru_example :
    (queue' : LruQueue) × (heap' : Heap) × (lru_enqueue_head 3 (99 ∷ []) queue heap
      ≡ some (queue', heap'))
    × IsLru heap' queue' ((3, 99 ∷ []) ∷ names)
lru_enqueue_head-IsLru_example =
    lru_enqueue_head-IsLru 3 (99 ∷ []) queue heap names queue-IsLru (λ e. omega (arith, e)) refl
