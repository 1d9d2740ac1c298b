-- ===== src/Threads/Queue.antt =====
-- The queues of threads/thread.c: singly linked nodes on the heap, with a head and a tail pointer.
-- A `struct wait_queue` that a function updates is passed and returned; the nodes and the
-- interrupt mask are the memory. Each walk runs on fuel.
pub mod Chain
pub mod Dequeue
pub mod Enqueue
pub mod Walk
pub mod Destroy
pub mod Refine
mod Tests
use ece344_operating_systems.Base.{
  ℕ, zero, suc, ◌≡◌, Bool, true, false, Option, none, some, ◌==◌, if◌then◌else◌,
}

abbrev pub Ptr : Type 0
Ptr = ℕ

abbrev pub null : Ptr
null = 0

-- `struct thread_node`. A queued Tid is a thread's index.
pub record ThreadNode : Type 0 where
  pub tnumber : ℕ
  pub next : Ptr

abbrev pub node : ℕ → Ptr → ThreadNode
node t p = record { tnumber = t; next = p }

-- `struct wait_queue`, of which `struct ready_queue` is a copy.
pub record WaitQueue : Type 0 where
  pub head : Ptr
  pub tail : Ptr

abbrev pub wait_queue : Ptr → Ptr → WaitQueue
wait_queue h t = record { head = h; tail = t }

abbrev pub Memory : Type 0
Memory = Ptr → Option ThreadNode

-- The allocated nodes, and whether interrupts are on.
pub record Mem : Type 0 where
  pub cell : Memory
  pub enabled : Bool

abbrev pub mem : (Memory) → Bool → Mem
mem c b = record { cell = c; enabled = b }

-- `fault` is a read or write through `NULL` or a pointer that holds no node.
pub data Run (A : Type 0) : Type 0 where
  ok : A → Mem → Run A
  fault : Run A
  out_of_fuel : Run A

abbrev pub Cmd : Type 0 → Type 0
Cmd A = Mem → Run A

abbrev pub pure : {A : Type 0} → A → Cmd A
pure = ok

abbrev pub bind_run : {A B : Type 0} → Run A → (A → Cmd B) → Run B
bind_run (ok a m) k = k a m
bind_run fault k = fault
bind_run out_of_fuel k = out_of_fuel

infixl 5 ◌>>=◌ ◌>>◌
abbrev pub ◌>>=◌ : {A B : Type 0} → Cmd A → (A → Cmd B) → Cmd B
c >>= k = λ m. bind_run (c m) k

abbrev pub ◌>>◌ : {A B : Type 0} → Cmd A → Cmd B → Cmd B
c >> d = c >>= λ _. d

abbrev pub update : Memory → Ptr → Option ThreadNode → Memory
update c p n a = if a == p then n else c a

-- Sets the mask and returns what it was.
unfoldable pub interrupts_set : Bool → Cmd Bool
interrupts_set b m = ok m.enabled (record m { enabled = b })

-- The node at `p`.
unfoldable pub load : Ptr → Cmd ThreadNode
load p m = if p == null then fault else elim (m.cell p) [ none ↦ fault | some n ↦ ok n m ]

-- What `malloc` returned is filled in; a failed `malloc` is `NULL`.
unfoldable pub init_node : Ptr → ThreadNode → Cmd (Unit {0})
init_node p n m = if p == null then fault else ok tt (record m { cell = update m.cell p (some n) })

unfoldable pub set_next : Ptr → Ptr → Cmd (Unit {0})
set_next p q = do n ← load p; init_node p (record n { next = q })

unfoldable pub free : Ptr → Cmd (Unit {0})
free p = load p >> λ m. ok tt (record m { cell = update m.cell p none })

-- What `dequeue_element` and `dequeue_element_from_head` return.
pub data Dequeued : Type 0 where
  tid : ℕ → Dequeued
  thread_invalid : Dequeued
  thread_none : Dequeued

unfoldable pub set_up_r_q : WaitQueue → WaitQueue
set_up_r_q q = wait_queue null null

-- `fresh` is what `malloc` returns.
unfoldable pub enqueue : Ptr → ℕ → WaitQueue → Cmd WaitQueue
unfolding interrupts_set
enqueue fresh id q = do
  enabled ← interrupts_set false
  q' ←
      (if q.head == null
        then (init_node fresh (node id null) >> pure (wait_queue fresh fresh))
        else (do
          init_node fresh (node id null)
          set_next q.tail fresh
          pure (record q { tail = fresh })))
  interrupts_set enabled
  pure q'

-- The walk of `dequeue_element` behind the head. On a hit it returns with interrupts off.
unfoldable pub dequeue_walk : ℕ → ℕ → WaitQueue → Bool → Ptr → Ptr → Cmd (Dequeued × WaitQueue)
unfolding interrupts_set
dequeue_walk zero id q enabled ptr1 ptr2 = λ _. out_of_fuel
dequeue_walk (suc fuel) id q enabled ptr1 ptr2 =
    if ptr2 == null then (interrupts_set enabled >> pure (thread_invalid, q)) else do
      n ← load ptr2
      if n.tnumber == id
          then (do
            set_next ptr1 n.next
            free ptr2
            pure (tid id, if ptr2 == q.tail then record q { tail = ptr1 } else q))
          else dequeue_walk fuel id q enabled ptr2 n.next

unfoldable pub dequeue_element : ℕ → ℕ → WaitQueue → Cmd (Dequeued × WaitQueue)
unfolding dequeue_walk
dequeue_element fuel id q = do
  enabled ← interrupts_set false
  if q.head == null then (interrupts_set enabled >> pure (thread_invalid, q)) else do
    n ← load q.head
    if n.tnumber == id
        then (do
          free q.head
          interrupts_set enabled
          pure
              (tid id, if n.next == null then wait_queue null null else record q { head = n.next }))
        else dequeue_walk fuel id q enabled q.head n.next

unfoldable pub dequeue_element_from_head : WaitQueue → Cmd (Dequeued × WaitQueue)
unfolding interrupts_set
dequeue_element_from_head q = do
  enabled ← interrupts_set false
  if q.head == null then (interrupts_set enabled >> pure (thread_none, q)) else do
    n ← load q.head
    free q.head
    interrupts_set enabled
    pure
        (tid n.tnumber, if n.next == null then wait_queue null null else record q { head = n.next })

-- The loop of `wait_queue_destroy`.
unfoldable pub destroy_walk : ℕ → Ptr → Cmd (Unit {0})
destroy_walk zero p = λ _. out_of_fuel
destroy_walk (suc fuel) p =
    if p == null then pure tt else do n ← load p; free p; destroy_walk fuel n.next

-- The allocated records `struct wait_queue`.
abbrev pub Records : Type 0
Records = Ptr → Option WaitQueue

abbrev pub record_at : Records → Ptr → Option WaitQueue
record_at records wq = if wq == null then none else records wq

abbrev pub forget : Records → Ptr → Records
forget records wq a = if a == wq then none else records a

-- The nodes are freed, and then the record.
unfoldable pub wait_queue_destroy : ℕ → Ptr → Records → Cmd Records
unfolding destroy_walk
wait_queue_destroy fuel wq records = elim (record_at records wq) [
  | none ↦ λ _. fault
  | some q ↦ destroy_walk fuel q.head >> pure (forget records wq)
]
