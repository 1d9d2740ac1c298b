-- ===== src/Threads/Runs.antt =====
-- The runs of the thread system: the calls, returns, jumps and interrupts, in any order in which they
-- can follow one another.
pub mod Good
pub mod Waiting
pub mod Locking
pub mod Killing
pub mod Exclusive
pub mod Making
pub mod Always
pub mod Fair
use ece344_operating_systems.Base.{ℕ, true, false, some, ◌≡◌, ◌≢◌, List, [], ◌∷◌, ℤ}
use ece344_operating_systems.Threads.Yield.{resume}
use ece344_operating_systems.Threads.Exit.{thread_exit}
use ece344_operating_systems.Threads.Interrupt.{interrupt}
use ece344_operating_systems.Threads.Machine.{Call, create, drop_queue, drop_cond, perform, deliver}
use ece344_operating_systems.Threads.Invariant.{InUse}
use ece344_operating_systems.Threads.State.{
  Tid, Frame, State, Outcome, returned, finished, switched, exits, runs, process_exit, fault,
}

-- Where the current thread stands: in its own code; behind a call of the library that has returned
-- a Tid; where `setcontext` has jumped to; before a `thread_exit` that the library calls. Or the
-- process has ended, or has failed.
pub data Config : Type 0 where
  user : State → Config
  returning : Tid → State → Config
  jumping : State → Config
  leaving : ℤ → State → Config
  ended : State → Config
  failed : Config

abbrev pub after : Outcome → Config
after (returned r s) = returning r s
after (finished s) = user s
after (switched s) = jumping s
after (exits code s) = leaving code s
after (runs fn arg s) = user s
after (process_exit s) = ended s
after fault = failed

-- No thread has its own wait queue at this address.
abbrev pub NotOwn : ℕ → State → Type 0
NotOwn a s = (i : ℕ) → InUse s i → (s.slots i).wq ≢ a

-- `malloc` does not fail in `thread_create`, and gives it what is not in use; no call destroys a
-- thread's own wait queue, whose address the library keeps to itself.
abbrev pub Allowed : Call → State → Type 0
Allowed (create fn arg sp) s = (sp ≢ 0) × (s.stacks sp ≡ false)
Allowed (drop_queue a) s = NotOwn a s
Allowed (drop_cond c) s = (wq : ℕ) → s.cvs c ≡ some wq → NotOwn wq s
Allowed _ s = true ≡ true

pub data Step : Config → Config → Type 0 where
  call : (c : Call) (s : State) → Allowed c s → Step (user s) (after (perform c s))
  preempt : (s : State) → s.enabled ≡ true → Step (user s) (after (interrupt s))
  to_user : (r : Tid) (s : State) → (s.slots s.current).frames ≡ [] → Step (returning r s) (user s)
  to_frame :
      (r : Tid) (s : State) (f : Frame) (fs : List Frame)
      → (s.slots s.current).frames ≡ f ∷ fs
      → Step (returning r s) (after (deliver r s))
  land : (s : State) → Step (jumping s) (after (resume s))
  leave : (code : ℤ) (s : State) → Step (leaving code s) (after (thread_exit code s))

pub data Reach (s0 : State) : Config → Type 0 where
  start : Reach s0 (user s0)
  next : {c d : Config} → Reach s0 c → Step c d → Reach s0 d
