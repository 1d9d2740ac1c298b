-- ===== src/Threads/Queue/Tests.antt =====
-- The claims on the queues at a concrete one: Tid 5 at address 1 and Tid 6 at address 2.
use ece344_operating_systems.Threads.Queue.{
  Mem, Records, Memory, WaitQueue, node, wait_queue, dequeue_element, wait_queue_destroy, Dequeued,
  ok, mem, if◌then◌else◌, true, ◌≡◌,
}
use ece344_operating_systems.Threads.Queue.Chain.{Cells, IsQueue}
use ece344_operating_systems.Threads.Fifo as Fifo
use ece344_operating_systems.Base.{
  ℕ, ◌≢◌, ◌≡◌, ◌∷◌, if◌then◌else◌, arith, [], refl, ◌==◌, some, none,
}
use ece344_operating_systems.Threads.Queue.Dequeue.{Dequeues, dequeue_element-erase}
use ece344_operating_systems.Threads.Queue.Destroy.{Released, wait_queue_destroy-Released}
use ece344_operating_systems.Threads.Queue.Refine.{as_tid, Stands, dequeue_element-Stands}

abbrev two : Memory
two a = if a == 1 then some (node 5 2) else if a == 2 then some (node 6 0) else none

abbrev memory : Mem
memory = mem two true

abbrev queue : WaitQueue
queue = wait_queue 1 2

abbrev cells : Cells
cells = (1, 5) ∷ (2, 6) ∷ []

queue-IsQueue : IsQueue two queue cells
queue-IsQueue = record {
  chain = (λ e. omega (arith, e), refl, refl, (λ e. omega (arith, e), refl, refl, tt));
  head_at = refl;
  tail_at = refl;
}

dequeue_element-erase_example :
    (r : Dequeued) × (q' : WaitQueue) × (m' : Mem) × (dequeue_element 3 6 queue memory
      ≡ ok (r, q') m')
    × Dequeues 6 cells memory r q' m'
dequeue_element-erase_example =
    dequeue_element-erase 3 6 memory queue cells (omega arith) queue-IsQueue

dequeue_element-Stands_example :
    (r : Dequeued) × (q' : WaitQueue) × (m' : Mem) × (dequeue_element 3 6 queue memory
      ≡ ok (r, q') m')
    × (as_tid r ≡ (Fifo.dequeue_element 6 (5 ∷ 6 ∷ [])).0)
    × Stands m' q' (Fifo.dequeue_element 6 (5 ∷ 6 ∷ [])).1
dequeue_element-Stands_example =
    dequeue_element-Stands 3 6 memory queue cells (omega arith) queue-IsQueue

-- The queue's record at address 9.
abbrev records : Records
records a = if a == 9 then some queue else none

wait_queue_destroy-Released_example :
    (m' : Mem) × (records' : Records) × (wait_queue_destroy 3 9 records memory ≡ ok records' m')
    × Released cells memory m'
    × (records' 9 ≡ none)
    × ((a : ℕ) → a ≢ 9 → records' a ≡ records a)
wait_queue_destroy-Released_example =
    wait_queue_destroy-Released 3 cells memory 9 records queue (omega arith) (λ e. omega (arith, e))
      refl queue-IsQueue
