-- ===== src/Threads/Invariant/Exit.antt =====
-- `thread_exit` wakes the threads that wait for the caller, and never returns to it.
use mathlib.Core.List.{append-nil}
use ece344_operating_systems.Threads.State.{State, interrupts, set_slot, assign_self, Thread}
use ece344_operating_systems.Threads.Invariant.{
  Inv, InUse, Leaving, ℕ, Outcome, Bool, exited, process_exit, state_of, switched, is_there,
  is_sleep,
}
use ece344_operating_systems.Threads.Invariant.Yield.{SwitchedTo}
use ece344_operating_systems.Threads.Invariant.Calls.{taken, Core-interrupts}
use ece344_operating_systems.Threads.Invariant.Leave.{Leaving-yield}
use ece344_operating_systems.Threads.Invariant.Wakeup.{thread_wakeup-Woken, Woken, Woken-Inv}
use ece344_operating_systems.Threads.Exit.{thread_exit, leave}
use ece344_operating_systems.Base.{
  ℤ, arith, inl, List, ◌≡◌, some, [], inr, ◌++◌, ◌-◌, false, ◌⊎◌, length, ◌∷◌, Option, leb, true,
  none, refl, ap, ◌∙◌, sym,
}
use ece344_operating_systems.Threads.Fifo.Laws.{apart_of}
use ece344_operating_systems.Threads.Sleep.{thread_wakeup}

pub there : (o : Option (List ℕ)) → is_there o ≡ true → (q : List ℕ) × (o ≡ some q)
there none h = cc
there (some q) h = (q, refl)

abbrev as_exited : ℤ → State → State
as_exited code s =
    let t = record (s.slots s.current) { state = exited; exit_code = code } in
    record (set_slot s s.current t) { nums = s.nums - 1 }

InUse-exited : (code : ℤ) (s : State) (j : ℕ) → Inv s → InUse (as_exited code s) j → InUse s j
InUse-exited code s j v u = ground (arith, v.active)

exited-Leaving : (code : ℤ) (s : State) → Inv s → Leaving (as_exited code s)
exited-Leaving code s v =
    let c = v.core in
    let used = λ (j : ℕ) (u : InUse (as_exited code s) j). InUse-exited code s j v u in
    record {
      core = record {
        here = c.here;
        line = λ k m. ground (arith, c.line k m, apart_of k s.current s.r_q m c.apart);
        once = c.once;
        apart = c.apart;
        asleep = λ b k w. ground (arith, c.asleep b k w, v.active);
        one_place = c.one_place;
        once_each = c.once_each;
        own_wq = λ j u. ground (arith, c.own_wq j (used j u));
        own_stack = λ j u h. ground (arith, c.own_stack j (used j u));
        wq_apart = λ j k u w h. ground (arith, c.wq_apart j k (used j u) (used k w));
        stack_apart = λ j k u w h g. ground (arith, c.stack_apart j k (used j u) (used k w));
        fresh = c.fresh;
        null_free = c.null_free;
        next_pos = c.next_pos;
      };
      leaving = ground arith;
      count = omega (arith, v.count);
    }

-- Waking nobody keeps a leaving thread's state.
Woken-Leaving :
    (a : ℕ) (s s' : State) → s.queues a ≡ some [] → Leaving s → Woken a [] [] s s' → Leaving s'
Woken-Leaving a s s' e l w = record {
  core = w.core;
  leaving = ground (arith, w.own, w.current, l.leaving);
  count = ground (arith, w.r_q, w.nums, l.count, append-nil s.r_q);
}

-- The end of `thread_exit`: the next ready thread runs, or the process ends.
abbrev pub Leaves : State → Outcome → Type 0
Leaves s o =
    ((s.r_q ≡ []) × (o ≡ process_exit s))
    ⊎ ((t : ℕ) × (rest : List ℕ) × (s' : State) × (s.r_q ≡ t ∷ rest)
        × (o ≡ switched s')
        × SwitchedTo s.enabled t (taken t s) s')

leave-Leaves : (s : State) → Leaving s → Leaves s (leave s)
unfolding leave
leave-Leaves s l = elim (Leaving-yield s l) [
  | inl (e, r) ↦ inl (e, rw (r, leave, r))
  | inr (t, rest, s', e, r, sw) ↦ inr (t, rest, s', e, rw (r, leave), sw)
]

Leaving-interrupts : (s : State) (b : Bool) → Leaving s → Leaving (interrupts s b)
Leaving-interrupts s b l = record {
  core = Core-interrupts s b l.core;
  leaving = l.leaving;
  count = l.count;
}

pub Inv-interrupts : (s : State) (b : Bool) → Inv s → Inv (interrupts s b)
Inv-interrupts s b v = record {
  core = Core-interrupts s b v.core;
  active = v.active;
  count = v.count;
}

-- What `thread_exit` has done before it leaves: `s3` is the state, `q` the Tids that waited.
pub record ExitedState (code : ℤ) (q : List ℕ) (s s3 : State) : Type 0 where
  pub current : s3.current ≡ s.current
  pub r_q : s3.r_q ≡ s.r_q ++ q
  pub state : state_of s3 s.current ≡ exited
  pub exit_code : (s3.slots s.current).exit_code ≡ code
  pub emptied : s3.queues (s.slots s.current).wq ≡ some []
  pub enabled : s3.enabled ≡ s.enabled

exit_chain :
    (code : ℤ) (n m : ℕ) (s s1 s2 : State)
    → thread_wakeup (s.slots s.current).wq 1 (interrupts s false) ≡ some (n, s1)
    → leb 1 s1.nums ≡ true
    → thread_wakeup ((as_exited code s1).slots s1.current).wq 1 (as_exited code s1) ≡ some (m, s2)
    → thread_exit code s ≡ leave (interrupts s2 s.enabled)
unfolding thread_exit
exit_chain code n m s s1 s2 r1 pos r2 = rw (r1, thread_exit, pos, r2)

-- What `thread_exit` leads to: with `q` the Tids that wait in the caller's queue, it has made them
-- ready behind the others and recorded EXITED and the code when it leaves.
abbrev pub Exits : ℤ → State → Outcome → Type 0
Exits code s o =
    (q : List ℕ) × (s3 : State) × (s.queues (s.slots s.current).wq ≡ some q)
    × Leaving s3
    × ExitedState code q s s3
    × Leaves s3 o

-- The second half, with the state behind the first wake-up as a variable.
module _ (code : ℤ) (q : List ℕ) (s s1 : State) (v : Inv s)
    (e : s.queues (s.slots s.current).wq ≡ some q)
    (r1 : thread_wakeup (s.slots s.current).wq 1 (interrupts s false) ≡ some (length q, s1))
    (w1 : Woken (s.slots s.current).wq q [] (interrupts s false) s1) where
  abbrev a : ℕ
  a = (s.slots s.current).wq

  v1 : Inv s1
  v1 = Woken-Inv a q [] (interrupts s false) s1 (Inv-interrupts s false v) w1

  own :
      (as_exited code s1).slots s1.current
      ≡ record (s.slots s.current) { state = exited; exit_code = code }
  own =
      assign_self s1.slots s1.current _
      ∙ ap (λ (x : Thread). record x { state = exited; exit_code = code })
          (ap s1.slots w1.current ∙ w1.own)

  own_a : ((as_exited code s1).slots s1.current).wq ≡ a
  own_a = ap (λ (x : Thread). x.wq) own

  empty : (as_exited code s1).queues a ≡ some []
  empty = ap (λ (f : ℕ → Option (List ℕ)). f a) w1.queues ∙ assign_self s.queues a (some [])

  pos_nums : leb 1 s1.nums ≡ true
  pos_nums = ground (arith, v1.count)

  ExitedState-Woken :
      (s2 : State)
      → Woken a [] [] (as_exited code s1) s2
      → ExitedState code q s (interrupts s2 s.enabled)
  ExitedState-Woken s2 w2 =
      let at : s2.slots s.current
          ≡ record (s.slots s.current) { state = exited; exit_code = code } =
        ap s2.slots (sym w1.current) ∙ w2.own ∙ own in
      record {
        current = w2.current ∙ w1.current;
        r_q = w2.r_q ∙ append-nil s1.r_q ∙ w1.r_q;
        state = ap (λ (x : Thread). x.state) at;
        exit_code = ap (λ (x : Thread). x.exit_code) at;
        emptied =
            ap (λ (f : ℕ → Option (List ℕ)). f a) w2.queues ∙ assign_self s1.queues a (some []);
        enabled = refl;
      }

  exit_rest : Exits code s (thread_exit code s)
  exit_rest =
      let l1 : Leaving (as_exited code s1) = exited-Leaving code s1 v1 in
      let up : is_sleep (state_of (as_exited code s1) s1.current) ≡ false =
        ap (λ (x : Thread). is_sleep x.state) own in
      let (s2, r2, w2) = thread_wakeup-Woken a [] (as_exited code s1) l1.core up empty in
      let l3 : Leaving (interrupts s2 s.enabled) =
        Leaving-interrupts s2 s.enabled (Woken-Leaving a (as_exited code s1) s2 empty l1 w2) in
      let runs : thread_wakeup ((as_exited code s1).slots s1.current).wq 1 (as_exited code s1)
          ≡ some (0, s2) =
        ap (λ (x : ℕ). thread_wakeup x 1 (as_exited code s1)) own_a ∙ r2 in
      (
        q,
        interrupts s2 s.enabled,
        e,
        l3,
        ExitedState-Woken s2 w2,
        rw (exit_chain code (length q) 0 s s1 s2 r1 pos_nums runs)
            (leave-Leaves (interrupts s2 s.enabled) l3),
      )

-- `thread_exit` does not fault and never returns to its caller: with `q` the Tids that wait for the
-- caller, it makes them ready behind the others, records EXITED and the code, and then the oldest
-- ready thread runs, with the invariant kept, or the process ends if there is none.
pub thread_exit-Exits : (code : ℤ) (s : State) → Inv s → Exits code s (thread_exit code s)
thread_exit-Exits code s v =
    let used : InUse s s.current = (v.core.here, ground (arith, v.active)) in
    let (q, e) = there (s.queues (s.slots s.current).wq) (v.core.own_wq s.current used) in
    let up : is_sleep (state_of s s.current) ≡ false = ground (arith, v.active) in
    let (s1, r1, w1) =
      thread_wakeup-Woken (s.slots s.current).wq q (interrupts s false)
        (Core-interrupts s false v.core) up e in
    exit_rest code q s s1 v e r1 w1
