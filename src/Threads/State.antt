-- ===== src/Threads/State.antt =====
-- The data of threads/thread.c and threads/thread.h: thread control blocks, the global variables,
-- and what a call ends in. A queue is the list of its Tids here, oldest first, which
-- `Queue.Refine` shows its nodes to be.
use ece344_operating_systems.Base.{
  ℕ, Bool, true, false, Option, none, some, List, ◌==◌, if◌then◌else◌, ℤ, ◌≡◌, ◌≢◌, arith,
}

abbrev pub thread_max_threads : ℕ
thread_max_threads = 1024

abbrev pub thread_min_stack : ℕ
thread_min_stack = 32768

-- A `Tid`, an int: an index, a control or error code, or a number below the codes.
pub data Tid : Type 0 where
  id : ℕ → Tid
  thread_any thread_self thread_invalid thread_none thread_nomore thread_nomemory : Tid
  thread_failed : Tid
  below : ℕ → Tid

pub data ThreadState : Type 0 where
  ready running exited killed uninitialized sleep : ThreadState

abbrev pub is_running : ThreadState → Bool
is_running running = true
is_running _ = false

abbrev pub is_exited : ThreadState → Bool
is_exited exited = true
is_exited _ = false

abbrev pub is_killed : ThreadState → Bool
is_killed killed = true
is_killed _ = false

abbrev pub is_uninitialized : ThreadState → Bool
is_uninitialized uninitialized = true
is_uninitialized _ = false

abbrev pub is_sleep : ThreadState → Bool
is_sleep sleep = true
is_sleep _ = false

-- A `ucontext_t`: where `setcontext` goes on. `stub` holds the registers that
-- `set_context_function` writes, RDI, RSI and RSP, with RIP at `thread_stub`; `in_yield` is the
-- point behind `getcontext` in `thread_yield`, with the locals `enable` and `thread_returned`.
pub data Context : Type 0 where
  unset : Context
  stub : ℕ → ℕ → ℕ → Context
  in_yield : Bool → ℕ → Context

-- The calls of this library that wait for a `thread_sleep` or `thread_yield` to return.
pub data Frame : Type 0 where
  wait_call : ℕ → Bool → Frame
  acquire_call : ℕ → Bool → Frame
  cv_wait_call : ℕ → Frame
  interrupt_call : Frame

-- `struct thread`. `waiting_on` is -1 at `none`; a pointer is 0 at `NULL`. `frames` is the thread's
-- C stack, as far as it holds calls of this library, innermost first.
pub record Thread : Type 0 where
  pub state : ThreadState
  pub context : Context
  pub stack_ptr : ℕ
  pub wq : ℕ
  pub waiting_on : Option ℕ
  pub exit_code : ℤ
  pub exit_code2 : ℤ
  pub frames : List Frame

-- `struct lock`; `holder` is -1 at `none`.
pub record Lock : Type 0 where
  pub held : Bool
  pub holder : Option ℕ
  pub wq : ℕ

-- The global variables, the allocated objects by address, the interrupt mask, the next address
-- that `malloc` gives to a queue, lock or cv, and what was last stored through an `exit_code`
-- pointer.
pub record State : Type 0 where
  pub slots : ℕ → Thread
  pub current : ℕ
  pub nums : ℕ
  pub r_q : List ℕ
  pub queues : ℕ → Option (List ℕ)
  pub locks : ℕ → Option Lock
  pub cvs : ℕ → Option ℕ
  pub stacks : ℕ → Bool
  pub next_ptr : ℕ
  pub enabled : Bool
  pub stored : Option ℤ

-- How a call ends: it returns; it jumps by `setcontext` into the thread that is now current; it
-- calls `thread_exit`; `thread_stub` runs a function on an argument; `exit(0)` ends the process;
-- an assertion or a memory access fails.
pub data Outcome : Type 0 where
  returned : Tid → State → Outcome
  finished : State → Outcome
  switched : State → Outcome
  exits : ℤ → State → Outcome
  runs : ℕ → ℕ → State → Outcome
  process_exit : State → Outcome
  fault : Outcome

abbrev pub assign {ℓ} : {A : Type ℓ} → (ℕ → A) → ℕ → A → ℕ → A
assign f i x j = if j == i then x else f j

abbrev pub set_slot : State → ℕ → Thread → State
set_slot s i t = record s { slots = assign s.slots i t }

abbrev pub set_state : State → ℕ → ThreadState → State
set_state s i st = set_slot s i (record (s.slots i) { state = st })

abbrev pub state_of : State → ℕ → ThreadState
state_of s i = (s.slots i).state

abbrev pub interrupts : State → Bool → State
interrupts s b = record s { enabled = b }

abbrev pub set_queue : State → ℕ → List ℕ → State
set_queue s a q = record s { queues = assign s.queues a (some q) }

-- A step that may fail, then the rest of the call.
abbrev pub or_fault {ℓ} : {A : Type ℓ} → Option A → (A → Outcome) → Outcome
or_fault none k = fault
or_fault (some a) k = k a

infixl 5 ◌>>=◌
abbrev pub ◌>>=◌ {ℓ κ} : {A : Type ℓ} {B : Type κ} → Option A → (A → Option B) → Option B
none >>= k = none
some a >>= k = k a

pub assign_self {ℓ} : {A : Type ℓ} (f : ℕ → A) (i : ℕ) (x : A) → assign f i x i ≡ x
assign_self f i x = ground arith

pub assign_ne {ℓ} : {A : Type ℓ} (f : ℕ → A) (i : ℕ) (x : A) (j : ℕ) → j ≢ i → assign f i x j ≡ f j
assign_ne f i x j h = ground arith
