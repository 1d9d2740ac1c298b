-- ===== src/Threads/Queue/Dequeue.antt =====
-- `dequeue_element` and `dequeue_element_from_head`.
use ece344_operating_systems.Base.{
  ℕ, ◌≡◌, refl, Bool, true, false, none, [], ◌∷◌, arith, if◌then◌else◌, ◌==◌, ◌∙◌, length, ◌<◌,
  Bool-cases, inl, inr, ◌&&◌, not,
}
use ece344_operating_systems.Threads.Queue.{
  Ptr, node, WaitQueue, Mem, mem, ok, update, Dequeued, tid, thread_invalid, dequeue_element,
  wait_queue, null, thread_none, dequeue_element_from_head, Memory,
}
use ece344_operating_systems.Threads.Queue.Walk.{queued, erase, dequeue_walk-Walked}
use ece344_operating_systems.Threads.Queue.Chain.{
  Cells, has, first_ptr, last_ptr, Chain, Chain-update, null_test, load-ok, free-ok, has-false_cons,
  update_ne, IsQueue,
}

-- `dequeue_element` on the cells: the position of the hit decides about the interrupt mask.
abbrev pub at_head : ℕ → Cells → Bool
at_head id [] = false
at_head id ((p, t) ∷ xs) = t == id

-- What `dequeue_element` leaves.
abbrev pub Dequeues : ℕ → Cells → Mem → Dequeued → WaitQueue → Mem → Type 0
Dequeues id xs m r q' m' =
    (r ≡ (if queued id xs then tid id else thread_invalid))
    × IsQueue m'.cell q' (erase id xs)
    × (m'.enabled ≡ (if queued id xs && not (at_head id xs) then false else m.enabled))
    × ((a : Ptr) → has a xs ≡ false → m'.cell a ≡ m.cell a)

if_and_true : (b x y : Bool) → (if b then x else y) ≡ (if b && true then x else y)
if_and_true true x y = refl
if_and_true false x y = refl

-- The queue's record after its head is taken off.
abbrev head_off : Ptr → ℕ → Cells → WaitQueue
head_off p t xs =
    if first_ptr xs == null
    then wait_queue null null
    else wait_queue (first_ptr xs) (last_ptr ((p, t) ∷ xs))

head_off-IsQueue : (p t : ℕ) (xs : Cells) (c : Memory) → Chain c xs → IsQueue c (head_off p t xs) xs
head_off-IsQueue p t [] c h = record { chain = h; head_at = refl; tail_at = refl }
head_off-IsQueue p t ((a, u) ∷ xs) c h =
    rw (null_test h.0) (record { chain = h; head_at = refl; tail_at = refl })

dequeue_cells :
    (fuel id : ℕ) (m : Mem) (xs : Cells)
    → length xs < fuel
    → Chain m.cell xs
    → (r : Dequeued) × (q' : WaitQueue) × (m' : Mem) × (dequeue_element fuel id
          (wait_queue (first_ptr xs) (last_ptr xs))
          m
        ≡ ok (r, q') m')
      × Dequeues id xs m r q' m'
unfolding dequeue_element
dequeue_cells fuel id m [] l h = (
  thread_invalid,
  wait_queue null null,
  m,
  refl,
  (refl, record { chain = tt; head_at = refl; tail_at = refl }, refl, λ a k. refl),
)
dequeue_cells fuel id m ((p, t) ∷ xs) l h = elim (Bool-cases (t == id)) [
  | inl hit ↦
      let freed : Memory = update m.cell p none in
      rw hit (
        tid id,
        head_off p t xs,
        mem freed m.enabled,
        rw (
          null_test h.0,
          load-ok p (node t (first_ptr xs)) (mem m.cell false) h.0 h.1,
          hit,
          free-ok p (node t (first_ptr xs)) (mem m.cell false) h.0 h.1,
        ),
        (
          refl,
          head_off-IsQueue p t xs freed (Chain-update m.cell p none xs h.2 h.3),
          refl,
          λ k out. update_ne m.cell p none k (has-false_cons k p t xs out).0,
        ),
      )
  | inr miss ↦
      let off : Mem = mem m.cell false in
      let q : WaitQueue = wait_queue p (last_ptr ((p, t) ∷ xs)) in
      let (r, q', m', runs, (res, mask, hd, tl, chain, frame)) =
        dequeue_walk-Walked fuel id xs p t off m.enabled q (omega arith) h refl in
      (
        r,
        q',
        m',
        rw (null_test h.0, load-ok p (node t (first_ptr xs)) off h.0 h.1, miss) runs,
        rw miss (
          res,
          record { chain = chain; head_at = hd; tail_at = tl },
          mask ∙ if_and_true (queued id xs) false m.enabled,
          frame,
        ),
      )
]

-- On a well-formed queue, with more fuel than it has nodes, `dequeue_element` returns without a
-- fault: it gives the Tid back and drops its first node if the Tid is queued, and else gives
-- `THREAD_INVALID` and drops none; the queue stays well-formed, head and tail included. The
-- interrupt mask is as before, except that a hit behind the head leaves interrupts off.
pub dequeue_element-erase :
    (fuel id : ℕ) (m : Mem) (q : WaitQueue) (xs : Cells)
    → length xs < fuel
    → IsQueue m.cell q xs
    → (r : Dequeued) × (q' : WaitQueue) × (m' : Mem) × (dequeue_element fuel id q m ≡ ok (r, q') m')
      × Dequeues id xs m r q' m'
dequeue_element-erase fuel id m q xs l h =
    let e : q ≡ wait_queue (first_ptr xs) (last_ptr xs) = ground arith in
    rw e (dequeue_cells fuel id m xs l h.chain)

-- What `dequeue_element_from_head` leaves.
abbrev pub HeadTaken : Cells → Mem → Dequeued → WaitQueue → Mem → Type 0
HeadTaken [] m r q' m' = (r ≡ thread_none) × IsQueue m'.cell q' [] × (m' ≡ m)
HeadTaken ((p, t) ∷ xs) m r q' m' =
    (r ≡ tid t)
    × IsQueue m'.cell q' xs
    × (m'.enabled ≡ m.enabled)
    × ((a : Ptr) → m'.cell a ≡ (if a == p then none else m.cell a))

from_head_cells :
    (m : Mem) (xs : Cells)
    → Chain m.cell xs
    → (r : Dequeued) × (q' : WaitQueue) × (m' : Mem) × (dequeue_element_from_head
          (wait_queue (first_ptr xs) (last_ptr xs))
          m
        ≡ ok (r, q') m')
      × HeadTaken xs m r q' m'
unfolding dequeue_element_from_head
from_head_cells m [] h = (
  thread_none,
  wait_queue null null,
  m,
  refl,
  (refl, record { chain = tt; head_at = refl; tail_at = refl }, refl),
)
from_head_cells m ((p, t) ∷ xs) h =
    let freed : Memory = update m.cell p none in
    (
      tid t,
      head_off p t xs,
      mem freed m.enabled,
      rw (
        null_test h.0,
        load-ok p (node t (first_ptr xs)) (mem m.cell false) h.0 h.1,
        free-ok p (node t (first_ptr xs)) (mem m.cell false) h.0 h.1,
      ),
      (
        refl,
        head_off-IsQueue p t xs freed (Chain-update m.cell p none xs h.2 h.3),
        refl,
        λ a. refl,
      ),
    )

-- On a well-formed queue `dequeue_element_from_head` returns without a fault: on the empty queue
-- `THREAD_NONE`, with nothing changed, and else the oldest Tid, with its node freed, the rest a
-- well-formed queue, and the interrupt mask as before.
pub dequeue_element_from_head_lem :
    (m : Mem) (q : WaitQueue) (xs : Cells)
    → IsQueue m.cell q xs
    → (r : Dequeued) × (q' : WaitQueue) × (m' : Mem) × (dequeue_element_from_head q m
        ≡ ok (r, q') m')
      × HeadTaken xs m r q' m'
dequeue_element_from_head_lem m q xs h =
    let e : q ≡ wait_queue (first_ptr xs) (last_ptr xs) = ground arith in
    rw e (from_head_cells m xs h.chain)
