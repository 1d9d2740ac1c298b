-- ===== src/Threads/Tests.antt =====
-- The claims on the threads library at a concrete state.
mod Waits
use ece344_operating_systems.Threads.Runs.Exclusive.{TookIt, Taking-TookIt}
use ece344_operating_systems.Threads.Machine.{deliver, pop_frame, make_lock, acquire}
use ece344_operating_systems.Threads.Lock.{lock_create, set_lock}
use ece344_operating_systems.Threads.Wait.{push_frame}
use ece344_operating_systems.Threads.State.{acquire_call, interrupts}
use ece344_operating_systems.Threads.State.{
  State, Thread, Lock, Context, ThreadState, stub, in_yield, unset, running, sleep, ready, exited,
  uninitialized, assign, finished, returned, id, thread_any, thread_invalid, thread_max_threads,
  state_of, fault, is_exited, switched,
}
use ece344_operating_systems.Threads.Invariant.{Core, Inv, InUse}
use Prim.Native.Nat.{ℕ}
use ece344_operating_systems.Base.{
  refl, ◌∷◌, ℕ, arith, Option, if◌then◌else◌, Bool, [], ℤ, ◌==◌, List, none, ltb, pos, some, ◌||◌,
  true, ◌≡◌, negsuc, ◌&&◌, false, ◌<◌, ◌≢◌, ◌≤◌, ◌⊎◌, ◌+◌, inr, inl,
}
use ece344_operating_systems.Threads.Invariant.Locks.{Acquires, lock_acquire-Acquires}
use ece344_operating_systems.Threads.Invariant.Init.{Fresh, thread_init-Inv}
use ece344_operating_systems.Threads.Fifo.{mem}
use ece344_operating_systems.Threads.Invariant.Calls.{YieldAny, taken}
use ece344_operating_systems.Threads.Create.{thread_create, thread_init}
use ece344_operating_systems.Threads.Yield.{resume, reap_from, thread_yield}
use ece344_operating_systems.Threads.Exit.{thread_kill, thread_exit}
use ece344_operating_systems.Threads.Invariant.Exit.{Exits, thread_exit-Exits}
use ece344_operating_systems.Threads.Lock.{lock_release, lock_acquire}
use ece344_operating_systems.Threads.Wait.{thread_wait}
use ece344_operating_systems.Threads.Invariant.Leave.{Sleeps, thread_sleep-Sleeps}
use ece344_operating_systems.Threads.Sleep.{thread_wakeup, thread_sleep}
use ece344_operating_systems.Threads.Invariant.Reap.{Kept, Cleared, reap_from-Cleared}
use ece344_operating_systems.Threads.Invariant.Creates.{thread_create-created}
use ece344_operating_systems.Threads.Invariant.Creates.Loop.{is_free}
use ece344_operating_systems.Threads.Invariant.Creates.Slot.{created}
use ece344_operating_systems.Threads.Invariant.Wakeup.{
  Woken, thread_wakeup-Woken, thread_wakeup_one-Woken,
}
use ece344_operating_systems.Threads.Invariant.Waits.{waiting, thread_wait-Sleeps}
use ece344_operating_systems.Threads.Invariant.Kill.{
  moved, as_killed, thread_kill-awake, thread_kill-asleep,
}
use ece344_operating_systems.Threads.Invariant.Release.{freed, lock_release-Woken}
use ece344_operating_systems.Threads.Invariant.Yields.{
  thread_yield-any, resume-in_yield, thread_yield-to,
}
use ece344_operating_systems.Threads.Invariant.Yield.{SwitchedTo}
use ece344_operating_systems.Threads.Cv.{cv_broadcast, cv_wait, cv_signal}
use ece344_operating_systems.Threads.Invariant.Cvs.{
  Holds, cv_broadcast-Woken, cv_signal-Woken, cv_calls-unheld,
}
use ece344_operating_systems.Threads.Runs.Always.{Sound, Reach-Sound}
use ece344_operating_systems.Threads.Runs.{user, start, after, next, call}
use ece344_operating_systems.Threads.Machine.{perform, yield, Call}
use ece344_operating_systems.Threads.Runs.Fair.{Calm, turns, turns-runs}

-- Thread 0 runs; 1 waits for it; 2 is ready; 3 has exited with code 42; 4 waits for the lock at 8,
-- which 0 holds; the lock at 9 is free.
abbrev pub thread_of : ThreadState → Context → ℕ → ℕ → Option ℕ → ℤ → Thread
thread_of st ctx sp wq on code = record {
  state = st;
  context = ctx;
  stack_ptr = sp;
  wq = wq;
  waiting_on = on;
  exit_code = code;
  exit_code2 = pos 0;
  frames = [];
}

abbrev pub five_slots : ℕ → Thread
five_slots j =
    if j == 0
    then thread_of running (in_yield true 2) 0 1 none (negsuc 0)
    else if j == 1
    then thread_of sleep (in_yield false 2) 100 2 (some 0) (negsuc 0)
    else if j == 2
    then thread_of ready (stub 7 8 32968) 200 3 none (negsuc 0)
    else if j == 3
    then thread_of exited unset 300 4 none (pos 42)
    else if j == 4
    then thread_of sleep (in_yield true 0) 400 5 none (negsuc 0)
    else thread_of uninitialized unset 0 0 none (pos 0)

abbrev seven_queues : ℕ → Option (List ℕ)
seven_queues a =
    if a == 1
    then some (1 ∷ [])
    else if a == 6
    then some (4 ∷ [])
    else if ltb 1 a && ltb a 8
    then some []
    else none

abbrev two_locks : ℕ → Option Lock
two_locks l =
    if l == 8
    then some (record { held = true; holder = some 0; wq = 6 })
    else if l == 9
    then some (record { held = false; holder = none; wq = 7 })
    else none

abbrev four_stacks : ℕ → Bool
four_stacks p = (p == 100) || (p == 200) || (p == 300) || (p == 400)

abbrev pub five : State
five = record {
  slots = five_slots;
  current = 0;
  nums = 2;
  r_q = 2 ∷ [];
  queues = seven_queues;
  locks = two_locks;
  cvs = λ c. none;
  stacks = four_stacks;
  next_ptr = 10;
  enabled = true;
  stored = none;
}

used_five : (j : ℕ) → InUse five j → ltb j 5 ≡ true
used_five j u = ground arith

pub five-Core : Core five
five-Core = record {
  here = omega arith;
  line = λ t m. ground arith;
  once = refl;
  apart = refl;
  asleep = λ a t w. ground arith;
  one_place = λ a b t v w. ground arith;
  once_each = λ a. ground arith;
  own_wq = λ i u. ground arith;
  own_stack = λ i u h. ground arith;
  wq_apart = λ i j u v e. ground arith;
  stack_apart = λ i j u v h e. ground arith;
  fresh = λ a h. ground arith;
  null_free = refl;
  next_pos = omega arith;
}

pub five-Inv : Inv five
five-Inv = record { core = five-Core; active = refl; count = refl }

abbrev held_by_zero : Lock
held_by_zero = record { held = true; holder = some 0; wq = 6 }

thread_exit-Exits_example : Exits (pos 3) five (thread_exit (pos 3) five)
thread_exit-Exits_example = thread_exit-Exits (pos 3) five five-Inv

-- The thread 0 has slept for the lock at 9, and its sleep returns.
abbrev woken_for_nine : State
woken_for_nine = push_frame (acquire_call 9 true) five

woken_takes :
    deliver (id 0) woken_for_nine
    ≡ finished (
        interrupts
          (set_lock
            (pop_frame [] woken_for_nine)
            9
            (record { held = true; holder = some 0; wq = 7 }))
          true)
unfolding deliver
woken_takes = refl

Taking-TookIt_example : TookIt 9 woken_for_nine (
    interrupts
      (set_lock (pop_frame [] woken_for_nine) 9 (record { held = true; holder = some 0; wq = 7 }))
      true)
Taking-TookIt_example =
    Taking-TookIt 9 woken_for_nine _ (deliver (id 0) woken_for_nine)
      (inr (inl (id 0, true, [], refl, refl))) woken_takes

lock_release-Woken_example :
    (s' : State) × (lock_release 8 five ≡ finished s')
    × Woken 6 (4 ∷ []) [] (freed 8 (record { held = true; holder = some 0; wq = 6 }) five) s'
    × Inv s'
lock_release-Woken_example =
    lock_release-Woken 8 (record { held = true; holder = some 0; wq = 6 }) (4 ∷ []) five five-Inv
      (λ e. ground (arith, e)) refl refl

thread_yield-any_example : YieldAny five (thread_yield thread_any five)
thread_yield-any_example = thread_yield-any five five-Inv refl

busy_before : (j : ℕ) → j < 3 → is_free (state_of five j) ≡ false
busy_before j l = ground arith

thread_create-created_example :
    (thread_create 11 12 500 five ≡ returned (id 3) (created 3 500 12 11 five))
    × Inv (created 3 500 12 11 five)
thread_create-created_example =
    thread_create-created 11 12 500 3 five five-Inv (omega arith) (λ e. omega (arith, e)) refl
      (omega arith) refl busy_before

abbrev boot : State
boot = record five {
  slots = λ j. thread_of ready unset 0 0 none (pos 0);
  nums = 0;
  r_q = [];
  queues = λ a. none;
}

boot-Fresh : Fresh boot
boot-Fresh = record { nums = refl; queues = λ a. refl; stack_ptr = refl; next_pos = omega arith }

lock_acquire-Acquires_example : Acquires 8 held_by_zero (4 ∷ []) five (lock_acquire 8 five)
lock_acquire-Acquires_example =
    lock_acquire-Acquires 8 held_by_zero (4 ∷ []) five five-Inv (λ e. omega (arith, e)) refl refl

-- A lock is made, and taken.
abbrev locked : State
locked = (lock_create (thread_init boot)).1

Reach-Sound_example : Sound (after (perform (acquire (lock_create (thread_init boot)).0) locked))
unfolding perform
Reach-Sound_example =
    Reach-Sound boot boot-Fresh
      (after (perform (acquire (lock_create (thread_init boot)).0) locked))
      (next (next start (call make_lock (thread_init boot) refl))
        (call (acquire (lock_create (thread_init boot)).0) locked refl))

five-Calm : Calm five
five-Calm = record { run = refl; line = λ t m. ground arith }

turns-runs_example : (s' : State) × (turns 1 five ≡ some s') × (s'.current ≡ 2) × Inv s'
turns-runs_example = turns-runs [] 2 [] five five-Inv five-Calm refl
