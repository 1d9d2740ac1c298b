-- ===== src/Threads/Queue/Destroy.antt =====
-- `wait_queue_destroy` frees each node once.
use ece344_operating_systems.Base.{
  ℕ, zero, suc, ◌<◌, ◌≡◌, refl, none, [], ◌∷◌, arith, ◌≢◌, some, false, ◌==◌, if◌then◌else◌, length,
}
use ece344_operating_systems.Threads.Queue.{
  Ptr, Records, forget, node, WaitQueue, Mem, mem, ok, update, destroy_walk, wait_queue_destroy,
}
use ece344_operating_systems.Threads.Queue.Chain.{
  Cells, has, first_ptr, Chain, IsQueue, Chain-update, null_test, load-ok, free-ok,
}

-- The nodes of `xs` are gone, all else is as it was.
abbrev pub Released : Cells → Mem → Mem → Type 0
Released xs m m' =
    (m'.enabled ≡ m.enabled) × ((a : Ptr) → m'.cell a ≡ (if has a xs then none else m.cell a))

destroy_walk-Released :
    (fuel : ℕ) (xs : Cells) (m : Mem)
    → length xs < fuel
    → Chain m.cell xs
    → (m' : Mem) × (destroy_walk fuel (first_ptr xs) m ≡ ok tt m') × Released xs m m'
unfolding destroy_walk
destroy_walk-Released zero xs m l h = absurd (omega arith)
destroy_walk-Released (suc fuel) [] m l h = (m, refl, (refl, λ a. refl))
destroy_walk-Released (suc fuel) ((p, t) ∷ xs) m l h =
    let freed : Mem = mem (update m.cell p none) m.enabled in
    let (m', runs, gone) =
      destroy_walk-Released fuel xs freed (omega arith) (Chain-update m.cell p none xs h.2 h.3) in
    let free_p = free-ok p (node t (first_ptr xs)) m h.0 h.1 in
    (
      m',
      rw (null_test h.0, load-ok p (node t (first_ptr xs)) m h.0 h.1, free_p) runs,
      (gone.0, λ a. ground (arith, gone.1 a)),
    )

-- On a well-formed queue whose record is allocated, with more fuel than it has nodes,
-- `wait_queue_destroy` returns without a fault: the record and exactly the queue's nodes are freed,
-- each once, also when threads still wait in it, and all other records and nodes are as before.
pub wait_queue_destroy-Released :
    (fuel : ℕ) (xs : Cells) (m : Mem) (wq : Ptr) (records : Records) (q : WaitQueue)
    → length xs < fuel
    → wq ≢ 0
    → records wq ≡ some q
    → IsQueue m.cell q xs
    → (m' : Mem) × (records' : Records) × (wait_queue_destroy fuel wq records m ≡ ok records' m')
      × Released xs m m'
      × (records' wq ≡ none)
      × ((a : Ptr) → a ≢ wq → records' a ≡ records a)
unfolding wait_queue_destroy
wait_queue_destroy-Released fuel xs m wq records q l ne at h =
    let there : (wq == 0) ≡ false = ground arith in
    let (m', runs, gone) = destroy_walk-Released fuel xs m l h.chain in
    (
      m',
      forget records wq,
      rw (wait_queue_destroy, there, at, h.head_at, runs) refl,
      gone,
      ground arith,
      λ a k. ground arith,
    )
