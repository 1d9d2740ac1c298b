-- ===== src/Threads/Runs/Always.antt =====
-- The invariant holds along every run.
use ece344_operating_systems.Base.{ℕ, true, false, List, [], ◌∷◌, ◌≡◌, refl}
use ece344_operating_systems.Threads.State.{
  Tid, Frame, wait_call, acquire_call, cv_wait_call, interrupt_call, Context, unset, stub, in_yield,
  thread_any, State, Outcome, returned, finished, switched, exits, runs, process_exit, fault,
  interrupts,
}
use ece344_operating_systems.Threads.Invariant.{Inv}
use ece344_operating_systems.Threads.Invariant.Exit.{Inv-interrupts}
use ece344_operating_systems.Threads.Invariant.Init.{Fresh, thread_init-Inv}
use ece344_operating_systems.Threads.Invariant.Waits.{Inv-own_slot}
use ece344_operating_systems.Threads.Invariant.Yields.{resume-in_yield}
use ece344_operating_systems.Threads.Create.{thread_init}
use ece344_operating_systems.Threads.Yield.{resume}
use ece344_operating_systems.Threads.Wait.{push_frame, wait_rest}
use ece344_operating_systems.Threads.Lock.{acquire_loop, lock_acquire}
use ece344_operating_systems.Threads.Interrupt.{interrupt, interrupt_handler, interrupts_enabled}
use ece344_operating_systems.Threads.Machine.{
  Call, create, yield, exit, kill, sleep, wakeup, wait, acquire, release, cond_wait, cond_signal,
  cond_broadcast, make_queue, drop_queue, make_lock, drop_lock, make_cond, drop_cond, perform,
  deliver, pop_frame,
}
use ece344_operating_systems.Threads.Runs.{
  Config, user, returning, jumping, leaving, ended, failed, after, Allowed, Step, call, preempt,
  to_user, to_frame, land, leave, Reach, start, next,
}
use ece344_operating_systems.Threads.Runs.Good.{Good, yield-Good, exit-Good, sleep-Good}
use ece344_operating_systems.Threads.Runs.Waiting.{wait-Good, wait_rest-Good, Inv-pushed}
use ece344_operating_systems.Threads.Runs.Locking.{
  acquire-Good, acquire_loop-Good, release-Good, wakeup-Good, cv_wait-Good, cv_signal-Good,
  cv_broadcast-Good,
}
use ece344_operating_systems.Threads.Runs.Making.{
  queue_create-Good, queue_destroy-Good, lock_create-Good, lock_destroy-Good, cv_create-Good,
  cv_destroy-Good,
}
use ece344_operating_systems.Threads.Runs.Killing.{kill-Good, create-Good}

-- Whatever the call, its arguments and the state, a call that is made in the invariant leaves it
-- kept: where it returns, where it jumps to another thread and where it goes on to `thread_exit`.
pub perform-Good : (c : Call) (s : State) → Inv s → Allowed c s → Good (perform c s)
unfolding perform
perform-Good (create fn arg sp) s v f = create-Good fn arg sp s v f.0 f.1
perform-Good (yield want) s v f = yield-Good want s v
perform-Good (exit code) s v f = exit-Good code s v
perform-Good (kill tid) s v f = kill-Good tid s v
perform-Good (sleep q) s v f = sleep-Good q s v
perform-Good (wakeup q all) s v f = wakeup-Good q all s v
perform-Good (wait tid has_ptr) s v f = wait-Good tid has_ptr s v
perform-Good (acquire l) s v f = acquire-Good l s v
perform-Good (release l) s v f = release-Good l s v
perform-Good (cond_wait c l) s v f = cv_wait-Good c l s v
perform-Good (cond_signal c l) s v f = cv_signal-Good c l s v
perform-Good (cond_broadcast c l) s v f = cv_broadcast-Good c l s v
perform-Good make_queue s v f = queue_create-Good s v
perform-Good (drop_queue q) s v f = queue_destroy-Good q s v f
perform-Good make_lock s v f = lock_create-Good s v
perform-Good (drop_lock l) s v f = lock_destroy-Good l s v
perform-Good make_cond s v f = cv_create-Good s v
perform-Good (drop_cond c) s v f = cv_destroy-Good c s v f

Inv-popped : (fs : List Frame) (s : State) → Inv s → Inv (pop_frame fs s)
Inv-popped fs s v = Inv-own_slot s (record (s.slots s.current) { frames = fs }) v refl refl refl

deliver-Good : (r : Tid) (s : State) → Inv s → Good (deliver r s)
unfolding deliver
deliver-Good r s v = by_frames (s.slots s.current).frames
  where
    by_frames :
        (l : List Frame)
        → Good (elim l as (λ (x : List Frame). Outcome) [
          | [] ↦ returned r s
          | f ∷ fs ↦ elim f as (λ (g : Frame). Outcome) [
            | wait_call tid has_ptr ↦ wait_rest tid has_ptr (pop_frame fs s)
            | acquire_call lock enabled ↦ acquire_loop lock enabled (pop_frame fs s)
            | cv_wait_call lock ↦ lock_acquire lock (pop_frame fs s)
            | interrupt_call ↦ finished (interrupts (pop_frame fs s) true)
          ]
        ])
    by_frames [] = v
    by_frames (wait_call tid has_ptr ∷ fs) =
        wait_rest-Good tid has_ptr (pop_frame fs s) (Inv-popped fs s v)
    by_frames (acquire_call lock enabled ∷ fs) =
        acquire_loop-Good lock enabled (pop_frame fs s) (Inv-popped fs s v)
    by_frames (cv_wait_call lock ∷ fs) = acquire-Good lock (pop_frame fs s) (Inv-popped fs s v)
    by_frames (interrupt_call ∷ fs) = Inv-interrupts (pop_frame fs s) true (Inv-popped fs s v)

resume_unset : (s : State) → (s.slots s.current).context ≡ unset → resume s ≡ fault
unfolding resume
resume_unset s e = rw (resume, e) refl

resume_stub :
    (fn arg sp : ℕ) (s : State)
    → (s.slots s.current).context ≡ stub fn arg sp
    → resume s ≡ runs fn arg (interrupts s true)
unfolding resume
resume_stub fn arg sp s e = rw (resume, e) refl

resume-Good : (s : State) → Inv s → Good (resume s)
resume-Good s v = by_context (s.slots s.current).context refl
  where
    by_context : (c : Context) → (s.slots s.current).context ≡ c → Good (resume s)
    by_context unset e = rw (resume_unset s e) refl
    by_context (stub fn arg sp) e = rw (resume_stub fn arg sp s e) (Inv-interrupts s true v)
    by_context (in_yield enable t) e =
        let (s', r, v', en, rq, own, cl) = resume-in_yield enable t s v e in rw r v'

interrupt-Good : (s : State) → Inv s → Good (interrupt s)
unfolding interrupt interrupt_handler interrupts_enabled
interrupt-Good s v =
    yield-Good thread_any (push_frame interrupt_call (interrupts s false))
      (Inv-pushed interrupt_call (interrupts s false) (Inv-interrupts s false v))

-- A configuration in the invariant.
abbrev pub Sound : Config → Type 0
Sound (user s) = Inv s
Sound (returning r s) = Inv s
Sound (jumping s) = Inv s
Sound (leaving code s) = Inv s
Sound (ended s) = true ≡ true
Sound failed = true ≡ true

after-Sound : (o : Outcome) → Good o → Sound (after o)
after-Sound (returned r s) g = g
after-Sound (finished s) g = g
after-Sound (switched s) g = g
after-Sound (exits code s) g = g
after-Sound (runs fn arg s) g = g
after-Sound (process_exit s) g = g
after-Sound fault g = g

step-Sound : (c d : Config) → Step c d → Sound c → Sound d
step-Sound _ _ (call k s f) v = after-Sound (perform k s) (perform-Good k s v f)
step-Sound _ _ (preempt s on) v = after-Sound (interrupt s) (interrupt-Good s v)
step-Sound _ _ (to_user r s e) v = v
step-Sound _ _ (to_frame r s f fs e) v = after-Sound (deliver r s) (deliver-Good r s v)
step-Sound _ _ (land s) v = after-Sound (resume s) (resume-Good s v)
step-Sound _ _ (leave code s) v = after-Sound _ (exit-Good code s v)

-- From the start of the program, along every sequence of calls of threads, queues, locks and
-- condition variables, of returns, of jumps and of preemptions between the calls, in any order, the
-- invariant holds as long as no call faults. The arguments of the calls are any, but for these: in
-- `thread_create` `malloc` does not fail and gives a stack that is not in use, and what is destroyed
-- is not the queue that a thread has of its own.
pub Reach-Sound : (s : State) → Fresh s → (c : Config) → Reach (thread_init s) c → Sound c
Reach-Sound s f _ start = let (v, cur, none_ready) = thread_init-Inv s f in v
Reach-Sound s f _ (next {c} {d} r t) = step-Sound c d t (Reach-Sound s f c r)
