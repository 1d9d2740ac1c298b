-- ===== src/Threads/Invariant/Init.antt =====
-- `thread_init`.
use mathlib.Core.Path.{fun_ext}
use ece344_operating_systems.Threads.State.{State, set_slot, Thread, assign, uninitialized}
use ece344_operating_systems.Threads.Create.{init_from, init_slot, thread_init}
use ece344_operating_systems.Threads.Invariant.{
  Inv, InUse, ℕ, if◌then◌else◌, ◌≢◌, thread_max_threads, running,
}
use ece344_operating_systems.Base.{
  if◌then◌else◌, arith, ◌+◌, ◌≡◌, ◌≢◌, leb, ap, none, [], refl, suc, some, ◌&&◌, ◌<◌, ◌∙◌, ltb, sym,
  ◌==◌, false, zero,
}

-- The slots from `i` on, `n` of them, as the loop leaves them.
abbrev unused : ℕ → ℕ → (ℕ → Thread) → ℕ → Thread
unused n i f j =
    if leb i j && ltb j (i + n) then record (f j) { state = uninitialized; wq = 0 } else f j

unused_step :
    (n i : ℕ) (f : ℕ → Thread)
    → unused n (i + 1) (assign f i (record (f i) { state = uninitialized; wq = 0 }))
      ≡ unused (suc n) i f
unused_step n i f = fun_ext λ j. ground arith

unused_none : (i : ℕ) (f : ℕ → Thread) → f ≡ unused 0 i f
unused_none i f = fun_ext λ j. ground arith

init_from-unused :
    (n i : ℕ) (s : State) → i ≢ 0 → init_from n i s ≡ record s { slots = unused n i s.slots }
unfolding init_from init_slot
init_from-unused zero i s ne =
    ap (λ (f : ℕ → Thread). record s { slots = f }) (unused_none i s.slots)
init_from-unused (suc n) i s ne =
    let next = set_slot s i (record (s.slots i) { state = uninitialized; wq = 0 }) in
    let z : (i == 0) ≡ false = ground arith in
    let first : init_slot i s ≡ next = rw (init_slot, z) refl in
    ap (init_from n (i + 1)) first
    ∙ init_from-unused n (i + 1) next (omega arith)
    ∙ ap (λ (f : ℕ → Thread). record s { slots = f }) (unused_step n i s.slots)

-- The memory of a program that has just begun: no thread, no queue, all of it 0 or unallocated.
pub record Fresh (s : State) : Type 0 where
  pub nums : s.nums ≡ 0
  pub queues : (a : ℕ) → s.queues a ≡ none
  pub stack_ptr : (s.slots 0).stack_ptr ≡ 0
  pub next_pos : 0 < s.next_ptr

-- Slot 0 is the one thread, RUNNING, with a wait queue.
abbrev pub begun : State → State
begun s = record s {
  slots = unused 1023 1 (
      assign s.slots 0
        (record (s.slots 0) { state = running; wq = s.next_ptr; waiting_on = none }));
  current = 0;
  nums = s.nums + 1;
  r_q = [];
  queues = assign s.queues s.next_ptr (some []);
  next_ptr = s.next_ptr + 1;
}

init_steps : (s : State) → init_from thread_max_threads 0 s ≡ init_from 1023 1 (init_slot 0 s)
unfolding init_from
init_steps s = refl

thread_init-begun : (s : State) → thread_init s ≡ begun s
unfolding thread_init init_slot
thread_init-begun s =
    let s0 : State = record s { nums = s.nums + 1; current = 0 } in
    ap (λ (u : State). record u { r_q = [] })
      (init_steps s0 ∙ init_from-unused 1023 1 (init_slot 0 s0) (omega arith))

only_zero : (s : State) (j : ℕ) → InUse (begun s) j → j ≡ 0
only_zero s j u = ground arith

Inv-begun : (s : State) → Fresh s → Inv (begun s)
Inv-begun s f = record {
  core = record {
    here = omega arith;
    line = λ t m. ground arith;
    once = refl;
    apart = refl;
    asleep = λ a t w. ground (arith, f.queues a);
    one_place = λ a b t w x. ground (arith, f.queues a);
    once_each = λ a. ground (arith, f.queues a);
    own_wq = λ j u. rw (only_zero s j u) (ground arith);
    own_stack = λ j u h.
        absurd (h (ap (λ (k : ℕ). ((begun s).slots k).stack_ptr) (only_zero s j u) ∙ f.stack_ptr));
    wq_apart = λ i j u w e. only_zero s i u ∙ sym (only_zero s j w);
    stack_apart = λ i j u w h e. only_zero s i u ∙ sym (only_zero s j w);
    fresh = λ a h. ground (arith, f.queues a);
    null_free = ground (arith, f.queues 0, f.next_pos);
    next_pos = omega arith;
  };
  active = refl;
  count = omega (arith, f.nums);
}

-- Right after the start of the program, `thread_init` establishes the invariant, and the one thread
-- runs in slot 0.
pub thread_init-Inv :
    (s : State)
    → Fresh s
    → Inv (thread_init s) × ((thread_init s).current ≡ 0) × ((thread_init s).r_q ≡ [])
thread_init-Inv s f = rw (thread_init-begun s) (Inv-begun s f, refl, refl)
