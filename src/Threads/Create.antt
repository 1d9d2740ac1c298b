-- ===== src/Threads/Create.antt =====
-- `thread_init` and `thread_create`.
use ece344_operating_systems.Base.{
  ℕ, zero, suc, ◌+◌, ◌-◌, ◌%◌, true, false, Option, none, some, [], ◌==◌, leb, if◌then◌else◌,
  negsuc,
}
use ece344_operating_systems.Threads.Fifo.{enqueue}
use ece344_operating_systems.Threads.Yield.{free_stack}
use ece344_operating_systems.Threads.State.{
  thread_max_threads, thread_min_stack, Tid, id, thread_nomore, thread_nomemory, ready, running,
  uninitialized, is_exited, is_uninitialized, stub, State, Outcome, returned, fault, assign,
  set_slot, set_state, state_of, interrupts, set_queue,
}

-- `wait_queue_create`, which never fails: it asserts that `malloc` did not.
unfoldable pub wait_queue_create : State → ℕ × State
wait_queue_create s = (s.next_ptr, record (set_queue s s.next_ptr []) { next_ptr = s.next_ptr + 1 })

-- One round of the loop of `thread_init`. `getcontext` fills in a context that nothing jumps to
-- before `thread_yield` has written it again.
unfoldable pub init_slot : ℕ → State → State
unfolding wait_queue_create
init_slot i s =
    if i == 0
    then (let (wq, s') = wait_queue_create s in
        set_slot s' i (record (s'.slots i) { state = running; wq = wq; waiting_on = none }))
    else set_slot s i (record (s.slots i) { state = uninitialized; wq = 0 })

unfoldable pub init_from : ℕ → ℕ → State → State
unfolding init_slot
init_from zero i s = s
init_from (suc n) i s = init_from n (i + 1) (init_slot i s)

-- `set_up_r_q` leaves the ready queue empty.
unfoldable pub thread_init : State → State
unfolding init_from
thread_init s =
    let s' = init_from thread_max_threads 0 (record s { nums = s.nums + 1; current = 0 }) in
    record s' { r_q = [] }

-- The stack pointer of a new thread, from the address of its stack.
unfoldable pub aligned_sp : ℕ → ℕ
aligned_sp temp_sp =
    let top = temp_sp + thread_min_stack in let sp_mod = top % 16 in top - sp_mod - 8

unfoldable pub set_context_function : ℕ → ℕ → ℕ → ℕ → State → State
unfolding wait_queue_create aligned_sp enqueue
set_context_function i temp_sp parg fn s =
    let (wq, s') = wait_queue_create s in
    let t = record (s'.slots i) {
      state = ready;
      stack_ptr = temp_sp;
      wq = wq;
      waiting_on = none;
      context = stub fn parg (aligned_sp temp_sp);
    } in
    record (set_slot s' i t) { r_q = enqueue i s'.r_q; nums = s'.nums + 1 }

-- `malloc` of a stack returned `temp_sp`, 0 if it failed.
unfoldable pub fill_slot : ℕ → ℕ → ℕ → ℕ → State → Tid × State
unfolding set_context_function
fill_slot i temp_sp parg fn s = if temp_sp == 0 then (thread_nomemory, s) else (
  id i,
  set_context_function i temp_sp parg fn (record s { stacks = assign s.stacks temp_sp true }),
)

-- The loop of `thread_create_helper` from slot `i` on, with `n` left.
unfoldable pub create_from : ℕ → ℕ → ℕ → ℕ → ℕ → State → Option (Tid × State)
unfolding fill_slot free_stack
create_from zero i fn parg temp_sp s = some (thread_nomore, s)
create_from (suc n) i fn parg temp_sp s =
    let fresh = set_slot s i (record (s.slots i) { exit_code = negsuc 0 }) in
    let rest = create_from n (i + 1) fn parg temp_sp s in
    if is_uninitialized (state_of s i)
    then some (fill_slot i temp_sp parg fn fresh)
    else if is_exited (state_of s i)
    then elim (free_stack (s.slots i).stack_ptr (set_state fresh i ready)) [
      | none ↦ none
      | some freed ↦ some (fill_slot i temp_sp parg fn freed)
    ]
    else rest

unfoldable pub thread_create : ℕ → ℕ → ℕ → State → Outcome
unfolding create_from
thread_create fn parg temp_sp s =
    if leb thread_max_threads s.nums
    then returned thread_nomore s
    else elim (create_from thread_max_threads 0 fn parg temp_sp (interrupts s false)) [
      | none ↦ fault
      | some (ret, s') ↦ returned ret (interrupts s' s.enabled)
    ]
