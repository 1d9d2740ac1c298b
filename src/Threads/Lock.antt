-- ===== src/Threads/Lock.antt =====
-- The blocking locks.
use ece344_operating_systems.Base.{
  ℕ, ◌+◌, Bool, true, false, Option, none, some, ◌==◌, if◌then◌else◌,
}
use ece344_operating_systems.Threads.Create.{wait_queue_create}
use ece344_operating_systems.Threads.Sleep.{thread_sleep, thread_wakeup}
use ece344_operating_systems.Threads.Wait.{push_frame}
use ece344_operating_systems.Threads.State.{
  acquire_call, Lock, State, Outcome, finished, fault, assign, interrupts, or_fault,
}

abbrev pub set_lock : State → ℕ → Lock → State
set_lock s l k = record s { locks = assign s.locks l (some k) }

-- `malloc` is asserted not to fail; the lock is allocated before its queue.
unfoldable pub lock_create : State → ℕ × State
unfolding wait_queue_create
lock_create s =
    let l = s.next_ptr in
    let (wq, s') = wait_queue_create (record s { next_ptr = l + 1 }) in
    (l, set_lock s' l (record { held = false; holder = none; wq = wq }))

-- The test is of the pointer, not of the lock: behind the assertion it always fails.
unfoldable pub lock_destroy : ℕ → State → Outcome
lock_destroy lock s =
    if lock == 0
    then fault
    else if lock == 0
    then elim (s.locks lock) [
      | none ↦ fault
      | some k ↦
          finished
            (record s { queues = assign s.queues k.wq none; locks = assign s.locks lock none })
    ]
    else finished s

-- One round of the loop of `lock_acquire`: it sleeps, and the frame stands for the loop, or it
-- takes the lock.
unfoldable pub acquire_loop : ℕ → Bool → State → Outcome
unfolding thread_sleep
acquire_loop lock enabled s = elim (s.locks lock) [
  | none ↦ fault
  | some k ↦
      if k.held
      then thread_sleep k.wq (push_frame (acquire_call lock enabled) s)
      else finished
          (interrupts (set_lock s lock (record k { held = true; holder = some s.current })) enabled)
]

unfoldable pub lock_acquire : ℕ → State → Outcome
unfolding acquire_loop
lock_acquire lock s = if lock == 0 then fault else acquire_loop lock s.enabled (interrupts s false)

unfoldable pub release : ℕ → State → Option State
unfolding thread_wakeup
release lock s = elim (s.locks lock) [
  | none ↦ none
  | some k ↦
      elim (thread_wakeup k.wq 1
        (set_lock s lock (record k { held = false; holder = some s.current }))) [
          | none ↦ none
          | some (_, s') ↦ some s'
        ]
]

-- Who holds the lock is not asked.
unfoldable pub lock_release : ℕ → State → Outcome
unfolding release
lock_release lock s = if lock == 0 then fault else or_fault (release lock s) finished
