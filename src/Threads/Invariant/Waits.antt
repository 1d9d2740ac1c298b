-- ===== src/Threads/Invariant/Waits.antt =====
-- `thread_wait`.
use mathlib.Core.Path.{subst}
use ece344_operating_systems.Threads.Invariant.Exit.{there}
use ece344_operating_systems.Threads.State.{
  State, set_slot, Thread, wait_call, id, is_exited, assign_self, assign_ne,
}
use ece344_operating_systems.Threads.Wait.{thread_wait, wait_slot, push_frame}
use ece344_operating_systems.Threads.Invariant.{
  Inv, ℕ, Bool, some, ◌<◌, thread_max_threads, is_active, is_uninitialized, state_of,
}
use ece344_operating_systems.Threads.Invariant.Leave.{Sleeps, thread_sleep-Sleeps}
use ece344_operating_systems.Base.{
  ◌<◌, ◌≡◌, ◌∷◌, ap, refl, ◌≢◌, false, ◌∙◌, List, leb, arith, ◌==◌, sym,
}
use ece344_operating_systems.Threads.Invariant.Switch.{Core-slot}
use ece344_operating_systems.Threads.Sleep.{thread_sleep}

-- The caller, on record as waiting for `tid`, with the rest of `thread_wait` to come.
abbrev pub waiting : ℕ → Bool → State → State
waiting tid has_ptr s =
    push_frame (wait_call tid has_ptr)
      (set_slot s s.current (record (s.slots s.current) { waiting_on = some tid }))

pub Inv-own_slot :
    (s : State) (t : Thread)
    → Inv s
    → t.state ≡ (s.slots s.current).state
    → t.stack_ptr ≡ (s.slots s.current).stack_ptr
    → t.wq ≡ (s.slots s.current).wq
    → Inv (set_slot s s.current t)
Inv-own_slot s t v st sp wq = record {
  core = Core-slot s s.current t v.core st sp wq;
  active =
      ap is_active (ap (λ (x : Thread). x.state) (assign_self s.slots s.current t) ∙ st) ∙ v.active;
  count = v.count;
}

Inv-waiting : (tid : ℕ) (has_ptr : Bool) (s : State) → Inv s → Inv (waiting tid has_ptr s)
Inv-waiting tid has_ptr s v =
    let s1 : State = set_slot s s.current (record (s.slots s.current) { waiting_on = some tid }) in
    let v1 : Inv s1 =
      Inv-own_slot s (record (s.slots s.current) { waiting_on = some tid }) v refl refl refl in
    Inv-own_slot s1
      (record (s1.slots s.current) { frames = wait_call tid has_ptr ∷ (s1.slots s.current).frames })
      v1 refl refl refl

-- Waiting for a thread that is in use and has not exited: if a thread is ready, the caller is put to
-- sleep behind the other sleepers of that thread's own wait queue, which `thread_exit` empties, and
-- the oldest ready thread runs; if none is ready, `thread_sleep` returns at once to `thread_wait`,
-- with only the caller's record of whom it waits on changed.
pub thread_wait-Sleeps :
    (tid : ℕ) (has_ptr : Bool) (s : State)
    → Inv s
    → tid < thread_max_threads
    → tid ≢ s.current
    → is_uninitialized (state_of s tid) ≡ false
    → is_exited (state_of s tid) ≡ false
    → (q : List ℕ) × (s.queues (s.slots tid).wq ≡ some q)
      × Sleeps (s.slots tid).wq q (waiting tid has_ptr s) (thread_wait (id tid) has_ptr s)
unfolding thread_wait wait_slot
thread_wait-Sleeps tid has_ptr s v lt ne used alive =
    let (q, e) = there (s.queues (s.slots tid).wq) (v.core.own_wq tid (lt, used)) in
    let s1 : State = set_slot s s.current (record (s.slots s.current) { waiting_on = some tid }) in
    let at : (s1.slots tid).wq ≡ (s.slots tid).wq =
      ap (λ (x : Thread). x.wq) (assign_ne s.slots s.current _ tid ne) in
    let range : leb thread_max_threads tid ≡ false = ground arith in
    let other : (tid == s.current) ≡ false = ground arith in
    let step : thread_wait (id tid) has_ptr s
        ≡ thread_sleep (s1.slots tid).wq (waiting tid has_ptr s) =
      rw (range, other, used, alive) refl in
    (
      q,
      e,
      subst (Sleeps (s.slots tid).wq q (waiting tid has_ptr s))
          (sym (step ∙ ap (λ (a : ℕ). thread_sleep a (waiting tid has_ptr s)) at))
          (thread_sleep-Sleeps (waiting tid has_ptr s) (s.slots tid).wq q
            (Inv-waiting tid has_ptr s v) e),
    )
