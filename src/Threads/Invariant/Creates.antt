-- ===== src/Threads/Invariant/Creates.antt =====
-- `thread_create`.
pub mod Loop
pub mod Slot
use mathlib.Core.Path.{fun_ext}
use mathlib.Core.Bool.{false≢true}
use ece344_operating_systems.Threads.State.{
  State, stub, id, thread_nomore, Thread, assign, Tid, is_exited, assign_self, assign_ne,
  interrupts,
}
use ece344_operating_systems.Threads.Create.{create_from, thread_create, fill_slot, aligned_sp}
use ece344_operating_systems.Threads.Invariant.{
  Core, Inv, InUse, ℕ, Bool, ThreadState, Option, state_of, if◌then◌else◌, ◌<◌, is_uninitialized,
  ready, thread_max_threads, mem, returned, Outcome, is_active, fault,
}
use ece344_operating_systems.Base.{
  negsuc, ◌<◌, inl, if◌then◌else◌, arith, some, ◌≡◌, false, true, suc, none, [], ◌&&◌, ◌≤◌, ◌||◌,
  ◌+◌, Bool-cases, not, ◌≢◌, ◌⊎◌, inr, ◌++◌, refl, ◌==◌, ◌∷◌, ◌∙◌, zero, sym, ap, leb,
  length-append,
}
use ece344_operating_systems.Threads.Fifo.Laws.{mem-append_one, nodup-append_one}
use ece344_operating_systems.Threads.Yield.{free_stack}
use ece344_operating_systems.Threads.Invariant.Creates.Loop.{is_free, create_from-First}
use ece344_operating_systems.Threads.Invariant.Creates.Slot.{
  new_thread, stacks_after, created, Core-created, not_current,
}

-- The slot as `set_context_function` fills it in.
abbrev filled : ℕ → ℕ → ℕ → ℕ → Thread → Thread
filled wq sp parg fn t = record t {
  state = ready;
  stack_ptr = sp;
  wq = wq;
  waiting_on = none;
  context = stub fn parg (aligned_sp sp);
}

abbrev staged : State → (ℕ → Thread) → (ℕ → Bool) → State
staged s f ss = record s { slots = f; stacks = ss }

fill_runs :
    (k sp parg fn : ℕ) (s : State) (f : ℕ → Thread) (ss : ℕ → Bool)
    → sp ≢ 0
    → fill_slot k sp parg fn (staged s f ss) ≡ (
      id k,
      record (created k sp parg fn s) {
        slots = assign f k (filled s.next_ptr sp parg fn (f k));
        stacks = assign ss sp true;
      },
    )
unfolding fill_slot
fill_runs k sp parg fn s f ss nz =
    let ne : (sp == 0) ≡ false = ground arith in rw (fill_slot, ne) refl

filled_slots :
    (k sp parg fn : ℕ) (s : State) (f : ℕ → Thread) (st : ThreadState)
    → f k ≡ record (s.slots k) { state = st; exit_code = negsuc 0 }
    → ((j : ℕ) → j ≢ k → f j ≡ s.slots j)
    → assign f k (filled s.next_ptr sp parg fn (f k)) ≡ (created k sp parg fn s).slots
filled_slots k sp parg fn s f st e other = fun_ext λ j. elim (Bool-cases (j == k)) [
  | inl h ↦ rw h (ap (filled s.next_ptr sp parg fn) e)
  | inr h ↦ rw h (other j (ground arith))
]

create_runs :
    (k sp parg fn : ℕ) (s : State) (f : ℕ → Thread) (ss : ℕ → Bool) (st : ThreadState)
    → sp ≢ 0
    → f k ≡ record (s.slots k) { state = st; exit_code = negsuc 0 }
    → ((j : ℕ) → j ≢ k → f j ≡ s.slots j)
    → assign ss sp true ≡ stacks_after k sp s
    → fill_slot k sp parg fn (staged s f ss) ≡ (id k, created k sp parg fn s)
create_runs k sp parg fn s f ss st nz e other t =
    fill_runs k sp parg fn s f ss nz
    ∙ ap
        (λ (g : ℕ → Thread).
          (id k, record (created k sp parg fn s) { slots = g; stacks = assign ss sp true }))
        (filled_slots k sp parg fn s f st e other)
    ∙ ap (λ (g : ℕ → Bool). (id k, record (created k sp parg fn s) { stacks = g })) t

-- An unused slot is taken as it is.
create_unused :
    (k sp parg fn : ℕ) (s : State)
    → sp ≢ 0
    → is_uninitialized (state_of s k) ≡ true
    → create_from 1 k fn parg sp s ≡ some (id k, created k sp parg fn s)
unfolding create_from
create_unused k sp parg fn s nz u =
    let f : ℕ → Thread = assign s.slots k (record (s.slots k) { exit_code = negsuc 0 }) in
    let x : is_exited (state_of s k) ≡ false = ground arith in
    let t : assign s.stacks sp true ≡ stacks_after k sp s = rw x refl in
    rw u (
      ap some (
        create_runs k sp parg fn s f s.stacks (state_of s k) nz (assign_self s.slots k _)
          (λ j ne. assign_ne s.slots k _ j ne) t))

-- The slot of an exited thread gives up its stack first.
create_exited :
    (k sp parg fn : ℕ) (s : State)
    → sp ≢ 0
    → is_exited (state_of s k) ≡ true
    → ((s.slots k).stack_ptr ≢ 0 → s.stacks (s.slots k).stack_ptr ≡ true)
    → create_from 1 k fn parg sp s ≡ some (id k, created k sp parg fn s)
unfolding create_from free_stack
create_exited k sp parg fn s nz x own =
    let fresh : ℕ → Thread = assign s.slots k (record (s.slots k) { exit_code = negsuc 0 }) in
    let f : ℕ → Thread = assign fresh k (record (fresh k) { state = ready }) in
    let u : is_uninitialized (state_of s k) ≡ false = ground arith in
    let at : f k ≡ record (s.slots k) { state = ready; exit_code = negsuc 0 } =
      assign_self fresh k _
      ∙ ap (λ (t : Thread). record t { state = ready }) (assign_self s.slots k _) in
    let other = λ (j : ℕ) (ne : j ≢ k).
      assign_ne fresh k (record (fresh k) { state = ready }) j ne
      ∙ assign_ne s.slots k (record (s.slots k) { exit_code = negsuc 0 }) j ne in
    elim (Bool-cases ((s.slots k).stack_ptr == 0)) [
      | inl none_there ↦
          let t : assign s.stacks sp true ≡ stacks_after k sp s = rw (x, none_there) refl in
          let step : create_from 1 k fn parg sp s
              ≡ some (fill_slot k sp parg fn (staged s f s.stacks)) =
            rw (u, x, none_there) refl in
          step ∙ ap some (create_runs k sp parg fn s f s.stacks ready nz at other t)
      | inr there ↦
          let on : s.stacks (s.slots k).stack_ptr ≡ true = own (ground arith) in
          let t : assign (assign s.stacks (s.slots k).stack_ptr false) sp true
              ≡ stacks_after k sp s =
            rw (x, there) refl in
          let less : ℕ → Bool = assign s.stacks (s.slots k).stack_ptr false in
          let step : create_from 1 k fn parg sp s
              ≡ some (fill_slot k sp parg fn (staged s f less)) =
            rw (u, x, there, on) refl in
          step ∙ ap some (create_runs k sp parg fn s f less ready nz at other t)
    ]

create_free :
    (k sp parg fn : ℕ) (s : State)
    → sp ≢ 0
    → is_free (state_of s k) ≡ true
    → (is_exited (state_of s k) ≡ true
        → (s.slots k).stack_ptr ≢ 0
        → s.stacks (s.slots k).stack_ptr ≡ true)
    → create_from 1 k fn parg sp s ≡ some (id k, created k sp parg fn s)
create_free k sp parg fn s nz free own = elim (Bool-cases (is_uninitialized (state_of s k))) [
  | inl u ↦ create_unused k sp parg fn s nz u
  | inr u ↦
      let x : is_exited (state_of s k) ≡ true = ground arith in
      create_exited k sp parg fn s nz x (own x)
]

first_runs :
    (fn parg sp k : ℕ) (s : State)
    → sp ≢ 0
    → k < thread_max_threads
    → is_free (state_of s k) ≡ true
    → ((j : ℕ) → j < k → is_free (state_of s j) ≡ false)
    → (is_exited (state_of s k) ≡ true
        → (s.slots k).stack_ptr ≢ 0
        → s.stacks (s.slots k).stack_ptr ≡ true)
    → create_from thread_max_threads 0 fn parg sp s ≡ some (id k, created k sp parg fn s)
first_runs fn parg sp k s nz lt free before own =
    elim (create_from-First thread_max_threads 0 fn parg sp s) [
      | inl (none_free, _) ↦
          absurd (false≢true (sym (none_free k (omega arith) (omega arith)) ∙ free))
      | inr (i, _, _, at, earlier, e) ↦
          let ki : leb i k ≡ true = elim (Bool-cases (leb i k)) [
            | inl h ↦ h
            | inr h ↦ absurd (false≢true (sym (earlier k (omega arith) (ground arith)) ∙ free))
          ] in
          let ik : leb k i ≡ true = elim (Bool-cases (leb k i)) [
            | inl h ↦ h
            | inr h ↦ absurd (false≢true (sym (before i (ground arith)) ∙ at))
          ] in
          let same : i ≡ k = ground arith in
          e
          ∙ ap (λ (j : ℕ). create_from 1 j fn parg sp s) same
          ∙ create_free k sp parg fn s nz free own
    ]

-- The end of `thread_create`, from what its tests and its loop give.
abbrev pub outcome : Bool → State → Option (Tid × State) → Outcome
outcome b s r =
    if b
    then returned thread_nomore s
    else elim r [ none ↦ fault | some (ret, s') ↦ returned ret (interrupts s' s.enabled) ]

pub outcome-eq :
    (fn parg sp : ℕ) (s : State)
    → thread_create fn parg sp s
      ≡ outcome
          (leb thread_max_threads s.nums)
          s
          (create_from thread_max_threads 0 fn parg sp (interrupts s false))
unfolding thread_create
outcome-eq fn parg sp s = refl

-- With room and memory, `thread_create` takes the first slot that is unused or an exited thread's:
-- the new thread has a stack and a wait queue of its own and stands ready behind the others, its
-- Tid is returned, the interrupt mask is as before, and the invariant is kept.
pub thread_create-created :
    (fn parg sp k : ℕ) (s : State)
    → Inv s
    → s.nums < thread_max_threads
    → sp ≢ 0
    → s.stacks sp ≡ false
    → k < thread_max_threads
    → is_free (state_of s k) ≡ true
    → ((j : ℕ) → j < k → is_free (state_of s j) ≡ false)
    → (thread_create fn parg sp s ≡ returned (id k) (created k sp parg fn s))
      × Inv (created k sp parg fn s)
unfolding thread_create
thread_create-created fn parg sp k s v room nz unused lt free before =
    let off = interrupts s false in
    let other : s.current ≢ k = ground (arith, not_current k sp parg fn s v lt free nz unused) in
    let le : leb thread_max_threads s.nums ≡ false = ground arith in
    let runs : create_from thread_max_threads 0 fn parg sp off
        ≡ some (id k, created k sp parg fn off) =
      first_runs fn parg sp k off nz lt free before
        (λ x m. v.core.own_stack k (lt, ground (arith, x)) m) in
    (
      outcome-eq fn parg sp s
          ∙ ap (λ (b : Bool). outcome b s (create_from thread_max_threads 0 fn parg sp off)) le
          ∙ ap (outcome false s) runs,
      record {
        core = Core-created k sp parg fn s v lt free nz unused;
        active =
            ap (λ (t : Thread). is_active t.state)
              (assign_ne s.slots k (new_thread k sp parg fn s) s.current (λ e. other e))
            ∙ v.active;
        count = omega (arith, v.count, length-append s.r_q (k ∷ []));
      },
    )
