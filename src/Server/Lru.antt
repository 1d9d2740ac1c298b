-- ===== src/Server/Lru.antt =====
-- The LRU queue of webserver/server_thread.c: a doubly linked list on the heap, most recent first.
-- `none` is a read or write through `NULL` or a pointer that holds no entry.
pub mod Order
mod Tests
use ece344_operating_systems.Base.{
  ℕ, zero, suc, ◌+◌, Bool, true, false, Option, none, some, List, [], ◌∷◌, ◌==◌, ◌||◌,
  if◌then◌else◌, eq_string,
}
use ece344_operating_systems.Threads.State.{◌>>=◌, assign}

-- `struct lru_entry`, less its size, which nothing sets.
pub record LruEntry : Type 0 where
  pub file_name : List ℕ
  pub previous : ℕ
  pub next : ℕ

-- `struct lru_queue`.
pub record LruQueue : Type 0 where
  pub head : ℕ
  pub tail : ℕ

abbrev pub Heap : Type 0
Heap = ℕ → Option LruEntry

unfoldable pub load : Heap → ℕ → Option LruEntry
load heap p = if p == 0 then none else heap p

unfoldable pub set_previous : Heap → ℕ → ℕ → Option Heap
unfolding load
set_previous heap p q = do e ← load heap p; some (assign heap p (some (record e { previous = q })))

unfoldable pub set_next : Heap → ℕ → ℕ → Option Heap
unfolding load
set_next heap p q = do e ← load heap p; some (assign heap p (some (record e { next = q })))

-- `fresh` is what `malloc` returned.
unfoldable pub lru_enqueue_head : ℕ → List ℕ → LruQueue → Heap → Option (LruQueue × Heap)
unfolding set_previous
lru_enqueue_head fresh file_name queue heap =
    if (queue.head == 0) || (queue.tail == 0)
    then some (
      record { head = fresh; tail = fresh },
      assign heap fresh (some (record { file_name = file_name; previous = 0; next = 0 })),
    )
    else (do
      heap' ← set_previous heap queue.head fresh
      some (
        record queue { head = fresh },
        assign heap' fresh
            (some (record { file_name = file_name; previous = 0; next = queue.head })),
      ))

-- Taking the entry `e` at `p` out of the list.
unfoldable pub unlink : ℕ → LruEntry → LruQueue → Heap → Option (LruQueue × Heap)
unfolding set_next set_previous
unlink p e queue heap = do
  (q1, h1) ←
      (if e.previous == 0
        then some (record queue { head = e.next }, heap)
        else (do h ← set_next heap e.previous e.next; some (queue, h)))
  if e.next == 0
      then some (record q1 { tail = e.previous }, h1)
      else (do h ← set_previous h1 e.next e.previous; some (q1, h))

-- The walk from `p` on, on fuel; the found pointer is 0 if the name is not there.
unfoldable pub pop_from : ℕ → ℕ → List ℕ → LruQueue → Heap → Option (ℕ × LruQueue × Heap)
unfolding unlink load
pop_from zero p name queue heap = none
pop_from (suc fuel) p name queue heap = if p == 0 then some (0, queue, heap) else (do
  e ← load heap p
  if eq_string e.file_name name
      then (do (q, h) ← unlink p e queue heap; some (p, q, h))
      else pop_from fuel e.next name queue heap)

unfoldable pub lru_entry_pop_specified : ℕ → List ℕ → LruQueue → Heap → Option (ℕ × LruQueue × Heap)
unfolding pop_from
lru_entry_pop_specified fuel name queue heap = pop_from fuel queue.head name queue heap

-- On an empty queue it prints and returns.
unfoldable pub lru_dequeue_tail : LruQueue → Heap → Option (LruQueue × Heap)
unfolding load set_next
lru_dequeue_tail queue heap = if queue.tail == 0 then some (queue, heap) else (do
  e ← load heap queue.tail
  (q, h) ←
      (if e.previous == 0
        then some (record { head = 0; tail = 0 }, heap)
        else (do h ← set_next heap e.previous 0; some (record queue { tail = e.previous }, h)))
  some (q, assign h queue.tail none))

-- The name must be there: the popped entry is written to without a test.
unfoldable pub lru_bring_up : ℕ → List ℕ → LruQueue → Heap → Option (LruQueue × Heap)
unfolding lru_entry_pop_specified set_next set_previous
lru_bring_up fuel name queue heap = do
  (p, q, h) ← lru_entry_pop_specified fuel name queue heap
  h1 ← set_next h p q.head
  h2 ← set_previous h1 p 0
  if (q.head == 0) || (q.tail == 0)
      then (do h3 ← set_next h2 p 0; some (record { head = p; tail = p }, h3))
      else (do h3 ← set_previous h2 q.head p; some (record q { head = p }, h3))

-- The loop of `lru_clean_up`, on fuel.
unfoldable pub clean_from : ℕ → ℕ → Heap → Option Heap
unfolding load
clean_from zero p heap = none
clean_from (suc fuel) p heap =
    if p == 0 then some heap else (do e ← load heap p; clean_from fuel e.next (assign heap p none))

unfoldable pub lru_clean_up : ℕ → LruQueue → Heap → Option Heap
unfolding clean_from
lru_clean_up fuel queue heap = clean_from fuel queue.head heap
