-- ===== src/Threads/Exit.antt =====
-- `thread_exit`, `thread_kill` and `thread_awaken`.
use ece344_operating_systems.Base.{
  ℕ, ◌+◌, ◌-◌, false, Option, none, some, ◌==◌, leb, if◌then◌else◌, ℤ, pos,
}
use ece344_operating_systems.Threads.Fifo.{enqueue, dequeue_element}
use ece344_operating_systems.Threads.Yield.{thread_yield}
use ece344_operating_systems.Threads.Sleep.{thread_wakeup}
use ece344_operating_systems.Threads.State.{
  thread_max_threads, Tid, id, thread_any, thread_invalid, thread_none, exited, killed,
  is_uninitialized, is_sleep, State, Outcome, returned, process_exit, set_slot, set_state, state_of,
  interrupts, set_queue, or_fault,
}

-- The two calls of `thread_yield` at the end of `thread_exit`, with no preemption before them,
-- though interrupts have been set back.
unfoldable pub leave : State → Outcome
unfolding thread_yield
leave s = elim (thread_yield thread_any s) [
  | returned _ s' ↦ elim (thread_yield thread_any s') [
    | returned thread_none s'' ↦ process_exit s''
    | o ↦ o
  ]
  | o ↦ o
]

unfoldable pub thread_exit : ℤ → State → Outcome
unfolding thread_wakeup leave
thread_exit exit_code s =
    or_fault (thread_wakeup (s.slots s.current).wq 1 (interrupts s false)) λ (_, s1).
      if leb 1 s1.nums
      then (let i = s1.current in
          let t = record (s1.slots i) { state = exited; exit_code = exit_code } in
          let s2 = record (set_slot s1 i t) { nums = s1.nums - 1 } in
          or_fault (thread_wakeup (s2.slots i).wq 1 s2) λ (_, s3). leave (interrupts s3 s.enabled))
      else process_exit (interrupts s1 s.enabled)

-- `none`: the index -1, a queue that is not there, or the assertion that the Tid was removed.
unfoldable pub thread_awaken : ℕ → State → Option State
unfolding enqueue dequeue_element
thread_awaken tid s = elim ((s.slots tid).waiting_on) [
  | none ↦ none
  | some waiting_on ↦ elim (s.queues (s.slots waiting_on).wq) [
    | none ↦ none
    | some q ↦
        let (removed, rest) = dequeue_element tid q in
        elim removed [
          | id _ ↦
              let s' = set_state (set_queue s (s.slots waiting_on).wq rest) tid killed in
              some (record s' { r_q = enqueue tid s'.r_q; nums = s'.nums + 1 })
          | _ ↦ none
        ]
  ]
]

unfoldable pub kill_slot : ℕ → State → Outcome
unfolding thread_awaken
kill_slot tid s =
    if tid == s.current
    then returned thread_invalid s
    else if is_uninitialized (state_of s tid)
    then returned thread_invalid s
    else (let woken =
          if is_sleep (state_of s tid)
          then thread_awaken tid (set_state s tid killed)
          else some s in
        or_fault woken λ s'.
          returned (id tid)
            (set_slot s' tid (record (s'.slots tid) { state = killed; exit_code = pos 9 })))

unfoldable pub thread_kill : Tid → State → Outcome
unfolding kill_slot
thread_kill (id tid) s =
    if leb thread_max_threads tid then returned thread_invalid s else kill_slot tid s
thread_kill _ s = returned thread_invalid s
