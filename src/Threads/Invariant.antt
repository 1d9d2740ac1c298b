-- ===== src/Threads/Invariant.antt =====
-- The invariant of the thread system: who stands in which queue, and what each slot owns.
pub mod Reap
pub mod Calls
pub mod Leave
pub mod Exit
pub mod Kill
pub mod Locks
pub mod Switch
pub mod Wakeup
pub mod Wake
pub mod Yields
pub mod Cvs
pub mod Waits
pub mod Init
pub mod Creates
pub mod Release
pub mod Yield
use ece344_operating_systems.Base.{
  ℕ, suc, ◌<◌, ◌≤◌, ◌≡◌, ◌≢◌, Bool, true, false, not, ◌&&◌, ◌||◌, Option, none, some, List, [], ◌∷◌,
  ◌==◌, if◌then◌else◌, length,
}
use ece344_operating_systems.Threads.Fifo.{mem}
use ece344_operating_systems.Threads.State.{
  thread_max_threads, ThreadState, ready, running, killed, exited, sleep, is_sleep,
  is_uninitialized, State, state_of, Outcome, returned, finished, switched, exits, runs,
  process_exit, fault,
}
use ece344_operating_systems.Threads.Fifo.Laws.{nodup}

abbrev pub is_queued : ThreadState → Bool
is_queued ready = true
is_queued killed = true
is_queued _ = false

abbrev pub is_active : ThreadState → Bool
is_active running = true
is_active killed = true
is_active _ = false

-- The states of a thread that is about to be left for good or until it is woken.
abbrev pub is_leaving : ThreadState → Bool
is_leaving exited = true
is_leaving sleep = true
is_leaving _ = false

abbrev pub waits : ℕ → Option (List ℕ) → Bool
waits t none = false
waits t (some q) = mem t q

abbrev pub each_once : Option (List ℕ) → Bool
each_once none = true
each_once (some q) = nodup q

abbrev pub is_there : Option (List ℕ) → Bool
is_there none = false
is_there (some q) = true

-- A slot in use.
abbrev pub InUse : State → ℕ → Type 0
InUse s i = (i < thread_max_threads) × (is_uninitialized (state_of s i) ≡ false)

-- The ready queue holds each of its threads once, none of them the current one, all READY or
-- KILLED; a wait queue holds sleeping threads, each in one queue and once; a slot in use has a
-- wait queue and a stack of its own (no stack at `NULL`); addresses from `next_ptr` on are free.
pub record Core (s : State) : Type 0 where
  pub here : s.current < thread_max_threads
  pub line :
      (t : ℕ) → mem t s.r_q ≡ true → (t < thread_max_threads) × (is_queued (state_of s t) ≡ true)
  pub once : nodup s.r_q ≡ true
  pub apart : mem s.current s.r_q ≡ false
  pub asleep :
      (a t : ℕ)
      → waits t (s.queues a) ≡ true
      → (t < thread_max_threads) × (is_sleep (state_of s t) ≡ true)
  pub one_place : (a b t : ℕ) → waits t (s.queues a) ≡ true → waits t (s.queues b) ≡ true → a ≡ b
  pub once_each : (a : ℕ) → each_once (s.queues a) ≡ true
  pub own_wq : (i : ℕ) → InUse s i → is_there (s.queues (s.slots i).wq) ≡ true
  pub own_stack :
      (i : ℕ) → InUse s i → (s.slots i).stack_ptr ≢ 0 → s.stacks (s.slots i).stack_ptr ≡ true
  pub wq_apart : (i j : ℕ) → InUse s i → InUse s j → (s.slots i).wq ≡ (s.slots j).wq → i ≡ j
  pub stack_apart :
      (i j : ℕ)
      → InUse s i
      → InUse s j
      → (s.slots i).stack_ptr ≢ 0
      → (s.slots i).stack_ptr ≡ (s.slots j).stack_ptr
      → i ≡ j
  pub fresh : (a : ℕ) → s.next_ptr ≤ a → s.queues a ≡ none
  pub null_free : s.queues 0 ≡ none
  pub next_pos : 0 < s.next_ptr

-- While a thread runs: it is RUNNING or KILLED, and `nums` counts it and the ready ones.
pub record Inv (s : State) : Type 0 where
  pub core : Core s
  pub active : is_active (state_of s s.current) ≡ true
  pub count : s.nums ≡ suc (length s.r_q)

-- Where the current thread has gone to sleep or exited, and has not yet been left.
pub record Leaving (s : State) : Type 0 where
  pub core : Core s
  pub leaving : is_leaving (state_of s s.current) ≡ true
  pub count : s.nums ≡ length s.r_q
