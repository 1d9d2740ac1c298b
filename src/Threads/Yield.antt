-- ===== src/Threads/Yield.antt =====
-- `thread_yield`, `thread_id`, and what a thread does when `setcontext` jumps into it.
use ece344_operating_systems.Base.{
  ℕ, zero, suc, ◌+◌, Bool, true, false, Option, none, some, ◌==◌, ◌&&◌, not, leb, if◌then◌else◌,
  pos,
}
use ece344_operating_systems.Threads.Fifo.{enqueue, dequeue_element, dequeue_element_from_head}
use ece344_operating_systems.Threads.State.{
  thread_max_threads, Tid, id, thread_any, thread_self, thread_invalid, thread_none, thread_failed,
  ready, running, uninitialized, is_running, is_exited, is_killed, is_sleep, in_yield, stub, unset,
  State, Outcome, returned, switched, exits, runs, fault, assign, set_slot, set_state, state_of,
  interrupts, or_fault, ◌>>=◌,
}

unfoldable pub thread_id : State → ℕ
thread_id s = s.current

-- `free` of a stack: nothing at `NULL`, and a fault where none is allocated.
unfoldable pub free_stack : ℕ → State → Option State
free_stack p s =
    if p == 0
    then some s
    else if s.stacks p
    then some (record s { stacks = assign s.stacks p false })
    else none

-- `wait_queue_destroy`; it reads through its argument.
unfoldable pub wait_queue_destroy : ℕ → State → Option State
wait_queue_destroy a s = elim (s.queues a) [
  | none ↦ none
  | some q ↦ some (record s { queues = assign s.queues a none })
]

-- One round of the loop that frees exited threads.
unfoldable pub reap_slot : ℕ → State → Option State
unfolding free_stack wait_queue_destroy
reap_slot i s =
    if not (i == s.current) && is_exited (state_of s i)
    then (do
      s' ← free_stack (s.slots i).stack_ptr s
      s'' ← wait_queue_destroy (s'.slots i).wq s'
      some (set_state s'' i uninitialized))
    else some s

-- The loop over the slots from `i` on, with `n` left.
unfoldable pub reap_from : ℕ → ℕ → State → Option State
reap_from zero i s = some s
reap_from (suc n) i s = do s' ← reap_slot i s; reap_from n (i + 1) s'

-- The current thread goes back to the ready queue if it is running.
unfoldable pub requeue_current : State → State
unfolding enqueue
requeue_current s =
    if is_running (state_of s s.current) && not (is_sleep (state_of s s.current))
    then record (set_state s s.current ready) { r_q = enqueue s.current s.r_q }
    else s

-- The rest of `thread_yield` behind a successful dequeue of `t`, up to `setcontext`.
unfoldable pub switch_to : Bool → ℕ → State → Outcome
unfolding reap_from requeue_current
switch_to enable t s =
    let saved = set_slot s s.current (record (s.slots s.current) { context = in_yield enable t }) in
    or_fault (reap_from thread_max_threads 0 saved) (λ reaped.
      let queued = requeue_current reaped in
      let next = if is_killed (state_of queued t) then queued else set_state queued t running in
      switched (record next { current = t }))

-- `want_tid >= THREAD_MAX_THREADS || want_tid < -2`.
abbrev pub out_of_range : Tid → Bool
out_of_range (id n) = leb thread_max_threads n
out_of_range thread_any = false
out_of_range thread_self = false
out_of_range _ = true

-- `want_tid == THREAD_SELF || want_tid == current_running_thread`.
abbrev pub is_self : Tid → ℕ → Bool
is_self thread_self current = true
is_self (id n) current = n == current
is_self _ current = false

unfoldable pub yield_any : State → Outcome
unfolding switch_to dequeue_element_from_head
yield_any s =
    let off = interrupts s false in
    let (thread_returned, rest) = dequeue_element_from_head off.r_q in
    elim thread_returned [
      | id t ↦ switch_to s.enabled t (record off { r_q = rest })
      | _ ↦ returned thread_none s
    ]

unfoldable pub yield_to : ℕ → State → Outcome
unfolding switch_to dequeue_element
yield_to want s =
    let off = interrupts s false in
    let (thread_returned, rest) = dequeue_element want off.r_q in
    elim thread_returned [
      | id t ↦ switch_to s.enabled want (record off { r_q = rest })
      | _ ↦ returned thread_invalid s
    ]

-- Interrupts are off from entry; where the call returns at once they are set back to what they
-- were, which leaves the state as it was.
unfoldable pub thread_yield : Tid → State → Outcome
unfolding yield_any yield_to
thread_yield want s =
    if is_killed (state_of s s.current)
    then exits (pos 0) s
    else if out_of_range want
    then returned thread_invalid s
    else if is_self want s.current
    then returned (id s.current) s
    else elim want [ thread_any ↦ yield_any s | id n ↦ yield_to n s | _ ↦ returned thread_failed s ]

-- The thread that `setcontext` jumped into goes on: behind `getcontext` it frees exited threads
-- once more and returns from its `thread_yield`; a new one starts in `thread_stub`.
unfoldable pub resume : State → Outcome
unfolding reap_from
resume s = elim ((s.slots s.current).context) [
  | unset ↦ fault
  | stub fn arg sp ↦ runs fn arg (interrupts s true)
  | in_yield enable t ↦
      or_fault (reap_from thread_max_threads 0 s)
        (λ reaped. returned (id t) (interrupts reaped enable))
]
