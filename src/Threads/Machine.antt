-- ===== src/Threads/Machine.antt =====
-- The system as a machine: the calls of a running thread, the jumps of `setcontext`, and the
-- returns into the calls of the library that wait on the C stack of a thread.
use ece344_operating_systems.Base.{ℕ, Bool, List, [], ◌∷◌, ℤ, true}
use ece344_operating_systems.Threads.Yield.{thread_yield, wait_queue_destroy}
use ece344_operating_systems.Threads.Create.{thread_create, wait_queue_create}
use ece344_operating_systems.Threads.Sleep.{thread_sleep, thread_wakeup}
use ece344_operating_systems.Threads.Exit.{thread_exit, thread_kill}
use ece344_operating_systems.Threads.Wait.{thread_wait, wait_rest}
use ece344_operating_systems.Threads.Lock.{
  acquire_loop, lock_acquire, lock_create, lock_destroy, lock_release,
}
use ece344_operating_systems.Threads.Cv.{cv_create, cv_destroy, cv_wait, cv_signal, cv_broadcast}
use ece344_operating_systems.Threads.State.{
  Tid, Frame, wait_call, acquire_call, cv_wait_call, interrupt_call, State, Outcome, returned,
  finished, set_slot, or_fault, interrupts,
}

abbrev pub pop_frame : List Frame → State → State
pop_frame fs s = set_slot s s.current (record (s.slots s.current) { frames = fs })

-- `thread_sleep` or `thread_yield` returned `r` to the innermost call of the current thread. The end
-- of a signal's handler sets the mask back to what it was.
unfoldable pub deliver : Tid → State → Outcome
unfolding wait_rest acquire_loop lock_acquire
deliver r s = elim ((s.slots s.current).frames) [
  | [] ↦ returned r s
  | f ∷ fs ↦ elim f [
    | wait_call tid has_ptr ↦ wait_rest tid has_ptr (pop_frame fs s)
    | acquire_call lock enabled ↦ acquire_loop lock enabled (pop_frame fs s)
    | cv_wait_call lock ↦ lock_acquire lock (pop_frame fs s)
    | interrupt_call ↦ finished (interrupts (pop_frame fs s) true)
  ]
]

pub data Call : Type 0 where
  create : ℕ → ℕ → ℕ → Call
  yield : Tid → Call
  exit : ℤ → Call
  kill : Tid → Call
  sleep : ℕ → Call
  wakeup : ℕ → ℕ → Call
  wait : Tid → Bool → Call
  acquire : ℕ → Call
  release : ℕ → Call
  cond_wait : ℕ → ℕ → Call
  cond_signal : ℕ → ℕ → Call
  cond_broadcast : ℕ → ℕ → Call
  make_queue : Call
  drop_queue : ℕ → Call
  make_lock : Call
  drop_lock : ℕ → Call
  make_cond : Call
  drop_cond : ℕ → Call

unfoldable pub perform : Call → State → Outcome
perform (create fn arg sp) s = thread_create fn arg sp s
perform (yield want) s = thread_yield want s
perform (exit code) s = thread_exit code s
perform (kill tid) s = thread_kill tid s
perform (sleep q) s = thread_sleep q s
perform (wakeup q all) s = or_fault (thread_wakeup q all s) λ (_, s'). finished s'
perform (wait tid has_ptr) s = thread_wait tid has_ptr s
perform (acquire l) s = lock_acquire l s
perform (release l) s = lock_release l s
perform (cond_wait c l) s = cv_wait c l s
perform (cond_signal c l) s = cv_signal c l s
perform (cond_broadcast c l) s = cv_broadcast c l s
perform make_queue s = finished (wait_queue_create s).1
perform (drop_queue q) s = or_fault (wait_queue_destroy q s) finished
perform make_lock s = finished (lock_create s).1
perform (drop_lock l) s = lock_destroy l s
perform make_cond s = finished (cv_create s).1
perform (drop_cond c) s = cv_destroy c s
