-- ===== src/Threads/Sleep.antt =====
-- `thread_sleep` and `thread_wakeup`. A wait queue's argument is its address, 0 at `NULL`.
use ece344_operating_systems.Base.{
  ℕ, ◌+◌, ◌-◌, Option, none, some, List, [], ◌∷◌, ◌==◌, if◌then◌else◌,
}
use ece344_operating_systems.Threads.Fifo.{enqueue}
use ece344_operating_systems.Threads.Yield.{thread_yield}
use ece344_operating_systems.Threads.State.{
  thread_any, thread_invalid, thread_none, sleep, ready, is_killed, State, Outcome, returned, fault,
  set_state, state_of, set_queue,
}

-- Interrupts are set back before the yield, which sets them off again; nothing comes between.
unfoldable pub thread_sleep : ℕ → State → Outcome
unfolding enqueue thread_yield
thread_sleep queue s =
    if queue == 0
    then returned thread_invalid s
    else if s.nums == 1
    then returned thread_none s
    else elim (s.queues queue) [
      | none ↦ fault
      | some q ↦
          let asleep = set_queue (set_state s s.current sleep) queue (enqueue s.current q) in
          thread_yield thread_any (record asleep { nums = s.nums - 1 })
    ]

-- A Tid that was taken from a wait queue goes to the ready queue.
unfoldable pub wake : ℕ → State → State
unfolding enqueue
wake ret s =
    let s' = if is_killed (state_of s ret) then s else set_state s ret ready in
    record s' { r_q = enqueue ret s'.r_q; nums = s'.nums + 1 }

-- The loop that empties the queue: what is woken, and how many.
unfoldable pub wake_all : List ℕ → ℕ → State → ℕ × State
unfolding wake
wake_all [] woken s = (woken, s)
wake_all (ret ∷ q) woken s = wake_all q (woken + 1) (wake ret s)

unfoldable pub wake_one : ℕ → List ℕ → State → ℕ × State
unfolding wake
wake_one queue [] s = (0, s)
wake_one queue (ret ∷ q) s = (1, wake ret (set_queue s queue q))

-- `none` is a read through a pointer to no queue.
unfoldable pub thread_wakeup : ℕ → ℕ → State → Option (ℕ × State)
unfolding wake_all wake_one
thread_wakeup queue all s = if queue == 0 then some (0, s) else elim (s.queues queue) [
  | none ↦ none
  | some q ↦ some (if all == 1 then wake_all q 0 (set_queue s queue []) else wake_one queue q s)
]
