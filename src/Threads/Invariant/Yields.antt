-- ===== src/Threads/Invariant/Yields.antt =====
-- `thread_yield` as a caller sees it.
use ece344_operating_systems.Threads.State.{
  State, thread_any, is_killed, in_yield, id, is_exited, thread_invalid, interrupts,
}
use Prim.Native.Nat.{ℕ}
use ece344_operating_systems.Threads.Yield.{resume, thread_yield, yield_to, switch_to}
use ece344_operating_systems.Base.{
  ℕ, Bool, ◌≡◌, false, ◌<◌, arith, ◌≢◌, refl, ◌⊎◌, true, Bool-cases, inl, inr, leb, ◌∙◌, ◌==◌,
}
use ece344_operating_systems.Threads.Invariant.{
  Inv, state_of, returned, thread_max_threads, switched,
}
use ece344_operating_systems.Threads.Fifo.{dequeue_element, mem}
use ece344_operating_systems.Threads.Invariant.Calls.{
  YieldAny, yield_any_cases, taken, Core-interrupts, taken-switch,
}
use ece344_operating_systems.Threads.Invariant.Reap.{reap_from-Cleared}
use ece344_operating_systems.Threads.Invariant.Yield.{SwitchedTo}
use ece344_operating_systems.Threads.Fifo.Laws.{length-erase}

-- While the caller runs and nobody has killed it, `thread_yield(THREAD_ANY)` returns `THREAD_NONE`
-- and changes nothing if no thread is ready; else the oldest ready thread runs, the caller waits
-- behind the others, and the invariant is kept.
pub thread_yield-any :
    (s : State)
    → Inv s
    → is_killed (state_of s s.current) ≡ false
    → YieldAny s (thread_yield thread_any s)
unfolding thread_yield
thread_yield-any s v alive = rw alive (
    yield_any_cases s s.r_q refl v.core alive (ground (arith, v.active))
      (ground (arith, v.active, v.count)))

yield_to_there :
    (n : ℕ) (s : State) → mem n s.r_q ≡ true → yield_to n s ≡ switch_to s.enabled n (taken n s)
unfolding yield_to dequeue_element
yield_to_there n s m = rw (yield_to, m)

yield_to_absent :
    (n : ℕ) (s : State) → mem n s.r_q ≡ false → yield_to n s ≡ returned thread_invalid s
unfolding yield_to dequeue_element
yield_to_absent n s m = rw (yield_to, m)

yield_to_runs :
    (n : ℕ) (s : State)
    → is_killed (state_of s s.current) ≡ false
    → n < thread_max_threads
    → n ≢ s.current
    → thread_yield (id n) s ≡ yield_to n s
unfolding thread_yield
yield_to_runs n s alive lt ne =
    let range : leb thread_max_threads n ≡ false = ground arith in
    let other : (n == s.current) ≡ false = ground arith in rw (alive, range, other)

-- While the caller runs and nobody has killed it, `thread_yield` of the Tid of another thread
-- returns `THREAD_INVALID` and changes nothing if that thread is not ready; else it runs, whatever
-- its place in the ready queue, and the invariant is kept.
pub thread_yield-to :
    (n : ℕ) (s : State)
    → Inv s
    → is_killed (state_of s s.current) ≡ false
    → n < thread_max_threads
    → n ≢ s.current
    → ((mem n s.r_q ≡ false) × (thread_yield (id n) s ≡ returned thread_invalid s))
      ⊎ ((s' : State) × (mem n s.r_q ≡ true)
          × (thread_yield (id n) s ≡ switched s')
          × SwitchedTo s.enabled n (taken n s) s')
thread_yield-to n s v alive lt ne = elim (Bool-cases (mem n s.r_q)) [
  | inl m ↦
      let (s', runs, sw) =
        taken-switch n s v.core m alive (ground (arith, v.active))
          (ground (arith, v.active, v.count, length-erase n s.r_q)) in
      inr (s', m, yield_to_runs n s alive lt ne ∙ yield_to_there n s m ∙ runs, sw)
  | inr out ↦ inl (out, yield_to_runs n s alive lt ne ∙ yield_to_absent n s out)
]

-- A thread that `setcontext` comes back to returns from its `thread_yield` with the Tid that it
-- gave way to and the interrupt mask of before the call; the invariant is kept, the ready queue
-- and the caller's own slot are as they were, and the slots of exited threads are free.
pub resume-in_yield :
    (enable : Bool) (t : ℕ) (s : State)
    → Inv s
    → (s.slots s.current).context ≡ in_yield enable t
    → (s' : State) × (resume s ≡ returned (id t) s')
      × Inv s'
      × (s'.enabled ≡ enable)
      × (s'.r_q ≡ s.r_q)
      × (s'.slots s.current ≡ s.slots s.current)
      × ((j : ℕ) → j < thread_max_threads → j ≢ s.current → is_exited (state_of s' j) ≡ false)
unfolding resume
resume-in_yield enable t s v e =
    let (u, runs, cu, k, cleared, still) =
      reap_from-Cleared thread_max_threads 0 s v.core (omega arith) in
    (
      interrupts u enable,
      rw (resume, e, runs),
      record {
        core = Core-interrupts u enable cu;
        active = ground (arith, k.current, k.own_slot, v.active);
        count = ground (arith, k.nums, k.r_q, v.count);
      },
      refl,
      k.r_q,
      k.own_slot,
      λ j l ne. ground (arith, cleared j, k.current),
    )
