-- ===== src/Threads/Queue/Refine.antt =====
-- The queues on the heap do what the lists of `Threads.Fifo` do.
use ece344_operating_systems.Threads.Queue.{
  enqueue, dequeue_element, dequeue_element_from_head, Mem, WaitQueue, Dequeued, tid,
  thread_invalid, thread_none, ok, null,
}
use ece344_operating_systems.Threads.Queue.Chain.{Cells, tids, IsQueue, has}
use ece344_operating_systems.Threads.Queue.Walk.{erase, queued}
use ece344_operating_systems.Threads.Queue.Dequeue.{
  dequeue_element-erase, dequeue_element_from_head_lem,
}
use ece344_operating_systems.Threads.Queue.Enqueue.{enqueue-append}
use ece344_operating_systems.Threads.Fifo as Fifo
use ece344_operating_systems.Threads.State.{Tid, id}
use ece344_operating_systems.Threads.State as State
use ece344_operating_systems.Base.{
  length, ℕ, ◌≡◌, List, ◌++◌, Bool, ◌≢◌, ◌<◌, ap, ◌∷◌, false, ◌∙◌, if◌then◌else◌, [], arith, refl,
}

-- A returned number as a `Tid`.
abbrev pub as_tid : Dequeued → Tid
as_tid (tid t) = id t
as_tid thread_invalid = State.thread_invalid
as_tid thread_none = State.thread_none

-- A queue on the heap stands for a list of Tids.
abbrev pub Stands : Mem → WaitQueue → List ℕ → Type 0
Stands m q ts = (xs : Cells) × IsQueue m.cell q xs × (tids xs ≡ ts)

tids-append : (xs : Cells) (p t : ℕ) → tids (xs ++ (p, t) ∷ []) ≡ tids xs ++ t ∷ []
tids-append [] p t = refl
tids-append ((a, u) ∷ xs) p t = ap (λ (l : List ℕ). u ∷ l) (tids-append xs p t)

tids-erase : (t : ℕ) (xs : Cells) → tids (erase t xs) ≡ Fifo.erase t (tids xs)
tids-erase t [] = refl
tids-erase t ((a, u) ∷ xs) = ground (arith, tids-erase t xs)

queued-mem : (t : ℕ) (xs : Cells) → queued t xs ≡ Fifo.mem t (tids xs)
queued-mem t [] = refl
queued-mem t ((a, u) ∷ xs) = ground (arith, queued-mem t xs)

as_tid_if :
    (t : ℕ) (a b : Bool)
    → a ≡ b
    → as_tid (if a then tid t else thread_invalid) ≡ (if b then id t else State.thread_invalid)
as_tid_if t a b e = ground arith

-- `enqueue` on the heap does what `enqueue` on the list does.
pub enqueue-Stands :
    (fresh t : ℕ) (m : Mem) (q : WaitQueue) (xs : Cells)
    → IsQueue m.cell q xs
    → fresh ≢ null
    → has fresh xs ≡ false
    → (q' : WaitQueue) × (m' : Mem) × (enqueue fresh t q m ≡ ok q' m')
      × Stands m' q' (Fifo.enqueue t (tids xs))
      × (m'.enabled ≡ m.enabled)
unfolding Fifo.enqueue
enqueue-Stands fresh t m q xs h ne out =
    let (q', m', runs, (is, en, frame)) = enqueue-append fresh t m q xs h ne out in
    (q', m', runs, (xs ++ (fresh, t) ∷ [], is, tids-append xs fresh t), en)

-- `dequeue_element` on the heap does what `dequeue_element` on the list does.
pub dequeue_element-Stands :
    (fuel t : ℕ) (m : Mem) (q : WaitQueue) (xs : Cells)
    → length xs < fuel
    → IsQueue m.cell q xs
    → (r : Dequeued) × (q' : WaitQueue) × (m' : Mem) × (dequeue_element fuel t q m ≡ ok (r, q') m')
      × (as_tid r ≡ (Fifo.dequeue_element t (tids xs)).0)
      × Stands m' q' (Fifo.dequeue_element t (tids xs)).1
unfolding Fifo.dequeue_element
dequeue_element-Stands fuel t m q xs l h =
    let (r, q', m', runs, (e, is, en, frame)) = dequeue_element-erase fuel t m q xs l h in
    (
      r,
      q',
      m',
      runs,
      ap as_tid e ∙ as_tid_if t (queued t xs) _ (queued-mem t xs),
      (erase t xs, is, tids-erase t xs),
    )

-- `dequeue_element_from_head` on the heap does what it does on the list.
pub dequeue_element_from_head-Stands :
    (m : Mem) (q : WaitQueue) (xs : Cells)
    → IsQueue m.cell q xs
    → (r : Dequeued) × (q' : WaitQueue) × (m' : Mem) × (dequeue_element_from_head q m
        ≡ ok (r, q') m')
      × (as_tid r ≡ (Fifo.dequeue_element_from_head (tids xs)).0)
      × Stands m' q' (Fifo.dequeue_element_from_head (tids xs)).1
unfolding Fifo.dequeue_element_from_head
dequeue_element_from_head-Stands m q [] h =
    let (r, q', m', runs, (e, is, same)) = dequeue_element_from_head_lem m q [] h in
    (r, q', m', runs, ap as_tid e, ([], is, refl))
dequeue_element_from_head-Stands m q ((p, t) ∷ xs) h =
    let (r, q', m', runs, (e, is, en, frame)) = dequeue_element_from_head_lem m q ((p, t) ∷ xs) h in
    (r, q', m', runs, ap as_tid e, (xs, is, refl))
