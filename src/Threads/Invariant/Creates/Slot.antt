-- ===== src/Threads/Invariant/Creates/Slot.antt =====
-- The invariant with a new thread in its slot.
use mathlib.Core.Bool.{false≢true}
use ece344_operating_systems.Threads.State.{State, stub, Thread, assign, is_exited}
use ece344_operating_systems.Threads.Create.{aligned_sp}
use ece344_operating_systems.Threads.Invariant.{
  Core, Inv, InUse, ℕ, Bool, state_of, if◌then◌else◌, ◌<◌, ready, thread_max_threads, mem,
}
use ece344_operating_systems.Base.{
  negsuc, ◌<◌, inl, if◌then◌else◌, arith, some, ◌≡◌, false, true, none, [], ◌&&◌, ◌+◌, Bool-cases,
  not, ◌≢◌, inr, ◌++◌, ◌==◌, ◌∷◌, ◌∙◌, sym, ap,
}
use ece344_operating_systems.Threads.Fifo.Laws.{mem-append_one, nodup-append_one}
use ece344_operating_systems.Threads.Invariant.Creates.Loop.{is_free}

-- The new thread's slot, and the state that holds it.
abbrev pub new_thread : ℕ → ℕ → ℕ → ℕ → State → Thread
new_thread k sp parg fn s = record (s.slots k) {
  exit_code = negsuc 0;
  state = ready;
  stack_ptr = sp;
  wq = s.next_ptr;
  waiting_on = none;
  context = stub fn parg (aligned_sp sp);
}

-- The stacks behind the `free` of an exited thread's one and the `malloc` of the new one.
abbrev pub stacks_after : ℕ → ℕ → State → ℕ → Bool
stacks_after k sp s =
    if is_exited (state_of s k) && not ((s.slots k).stack_ptr == 0)
    then assign (assign s.stacks (s.slots k).stack_ptr false) sp true
    else assign s.stacks sp true

abbrev pub created : ℕ → ℕ → ℕ → ℕ → State → State
created k sp parg fn s = record s {
  slots = assign s.slots k (new_thread k sp parg fn s);
  queues = assign s.queues s.next_ptr (some []);
  next_ptr = s.next_ptr + 1;
  r_q = s.r_q ++ k ∷ [];
  nums = s.nums + 1;
  stacks = stacks_after k sp s;
}

module _ (k sp parg fn : ℕ) (s : State) (v : Inv s) (lt : k < thread_max_threads)
    (free : is_free (state_of s k) ≡ true) (nz : sp ≢ 0) (unused : s.stacks sp ≡ false) where
  open v use {core as c}

  pub not_current : (s.current == k) ≡ false
  not_current = ground (arith, v.active)

  not_ready : mem k s.r_q ≡ false
  not_ready = ground (arith, c.line k)

  used_before : (j : ℕ) → j ≢ k → InUse (created k sp parg fn s) j → InUse s j
  used_before j ne u = ground arith

  old_wq : (j : ℕ) → InUse s j → (s.slots j).wq ≢ s.next_ptr
  old_wq j u e = ground (arith, c.own_wq j u, c.fresh (s.slots j).wq)

  old_ne : (j : ℕ) → InUse s j → (s.slots j).stack_ptr ≢ sp
  old_ne j u e =
      let n : (s.slots j).stack_ptr ≢ 0 = λ z. nz (sym e ∙ z) in
      false≢true (sym unused ∙ ap s.stacks (sym e) ∙ c.own_stack j u n)

  old_stack :
      (j : ℕ)
      → j ≢ k
      → InUse s j
      → (s.slots j).stack_ptr ≢ 0
      → stacks_after k sp s (s.slots j).stack_ptr ≡ true
  old_stack j ne u n =
      let kept : is_exited (state_of s k) ≡ true
          → (s.slots k).stack_ptr ≢ 0
          → (s.slots j).stack_ptr ≢ (s.slots k).stack_ptr =
        λ x m e. ne (sym (c.stack_apart k j (lt, ground (arith, x)) u m (sym e))) in
      ground (arith, c.own_stack j u n, kept)

  pub Core-created : Core (created k sp parg fn s)
  Core-created = record {
    here = c.here;
    line = λ j m. ground (arith, c.line j, mem-append_one j k s.r_q);
    once = nodup-append_one k s.r_q c.once not_ready;
    apart = ground (arith, mem-append_one s.current k s.r_q, c.apart, not_current);
    asleep = λ a j w. ground (arith, c.asleep a j);
    one_place = λ a b j w x. ground (arith, c.one_place a b j);
    once_each = λ a. ground (arith, c.once_each a);
    own_wq = λ j u. ground (arith, c.own_wq j);
    own_stack = λ j u h. elim (Bool-cases (j == k)) [
      | inl e ↦ ground arith
      | inr e ↦ ground (arith, old_stack j (ground arith) (used_before j (ground arith) u))
    ];
    wq_apart = λ i j u w e. ground (arith, c.wq_apart i j, old_wq i, old_wq j);
    stack_apart = λ i j u w h e.
        ground (arith, c.stack_apart i j, old_ne i, old_ne j, used_before i, used_before j);
    fresh = λ a h. ground (arith, c.fresh a);
    null_free = ground (arith, c.null_free, c.next_pos);
    next_pos = omega arith;
  }
