-- ===== src/Threads/Invariant/Leave.antt =====
-- `thread_sleep` and `thread_exit`: a thread leaves, and another one runs.
use ece344_operating_systems.Threads.State.{
  State, set_queue, set_state, thread_any, thread_none, is_killed,
}
use ece344_operating_systems.Threads.Invariant.{
  Core, Inv, InUse, ℕ, List, ◌≡◌, sleep, waits, mem, Leaving, Outcome, is_leaving, returned,
  state_of, switched,
}
use ece344_operating_systems.Threads.Invariant.Yield.{SwitchedTo}
use ece344_operating_systems.Threads.Invariant.Calls.{taken, yield_any_cases, YieldAny}
use ece344_operating_systems.Base.{
  ◌≡◌, some, arith, ◌++◌, false, ◌∷◌, [], ◌-◌, length, Bool-cases, refl, if◌then◌else◌, ◌==◌, true,
  ◌⊎◌, inl, inr,
}
use ece344_operating_systems.Threads.Fifo.Laws.{apart_of, mem-append_one, nodup-append_one}
use ece344_operating_systems.Threads.Yield.{thread_yield, yield_any}
use ece344_operating_systems.Threads.Sleep.{thread_sleep}

-- The current thread behind the others in the queue `a`, before the switch.
abbrev pub asleep : ℕ → List ℕ → State → State
asleep a q s = record (set_queue (set_state s s.current sleep) a (q ++ s.current ∷ [])) {
  nums = s.nums - 1;
}

module _ (s : State) (a : ℕ) (q : List ℕ) (v : Inv s) (e : s.queues a ≡ some q) where
  open v use {core as c}

  not_waiting : (b : ℕ) → waits s.current (s.queues b) ≡ false
  not_waiting b = ground (arith, c.asleep b s.current, v.active)

  not_in : mem s.current q ≡ false
  not_in = ground (arith, not_waiting a)

  InUse-asleep : (j : ℕ) → InUse (asleep a q s) j → InUse s j
  InUse-asleep j u = ground (arith, v.active)

  Core-asleep : Core (asleep a q s)
  Core-asleep = record {
    here = c.here;
    line = λ k m. ground (arith, c.line k, apart_of k s.current s.r_q m c.apart);
    once = c.once;
    apart = c.apart;
    asleep = λ b k w. ground (arith, c.asleep b k, c.here, mem-append_one k s.current q);
    one_place = λ b d k w x.
        ground
          (arith, c.one_place b d k, mem-append_one k s.current q, not_waiting b, not_waiting d);
    once_each =
        λ b. ground (arith, c.once_each b, c.once_each a, nodup-append_one s.current q, not_in);
    own_wq = λ j u. ground (arith, c.own_wq j (InUse-asleep j u));
    own_stack = λ j u h. ground (arith, c.own_stack j (InUse-asleep j u));
    wq_apart = λ j k u w h. ground (arith, c.wq_apart j k (InUse-asleep j u) (InUse-asleep k w));
    stack_apart =
        λ j k u w h g. ground (arith, c.stack_apart j k (InUse-asleep j u) (InUse-asleep k w));
    fresh = λ b h. ground (arith, c.fresh b h);
    null_free = ground (arith, c.null_free);
    next_pos = c.next_pos;
  }

-- A sleeping or exited thread that calls `thread_yield(THREAD_ANY)` is not stopped by its tests.
yield_leaving :
    (s : State) → is_leaving (state_of s s.current) ≡ true → thread_yield thread_any s ≡ yield_any s
unfolding thread_yield
yield_leaving s h = let k : is_killed (state_of s s.current) ≡ false = ground arith in rw k

pub Leaving-yield : (s : State) → Leaving s → YieldAny s (thread_yield thread_any s)
Leaving-yield s l =
    let st = l.leaving in
    rw (yield_leaving s st)
      (yield_any_cases s s.r_q refl l.core (ground arith) (ground arith) (ground (arith, l.count)))

asleep-Leaving :
    (s : State) (a : ℕ) (q : List ℕ) → Inv s → s.queues a ≡ some q → Leaving (asleep a q s)
asleep-Leaving s a q v e = record {
  core = Core-asleep s a q v e;
  leaving = ground arith;
  count = omega (arith, v.count);
}

length_zero : (q : List ℕ) → length q ≡ 0 → q ≡ []
length_zero [] h = refl
length_zero (t ∷ q) h = absurd (omega arith)

sleep-yield :
    (s : State) (a : ℕ) (q : List ℕ)
    → Inv s
    → s.queues a ≡ some q
    → thread_sleep a s
      ≡ (if s.nums == 1 then returned thread_none s else thread_yield thread_any (asleep a q s))
unfolding thread_sleep
sleep-yield s a q v e =
    let ne : (a == 0) ≡ false = ground (arith, v.core.null_free) in rw (ne, e, thread_sleep)

-- What `thread_sleep` on the queue `a` ends in: if no other thread is ready it returns
-- `THREAD_NONE` at once and changes nothing; else the caller joins the queue behind the others, and
-- the oldest ready thread runs.
abbrev pub Sleeps : ℕ → List ℕ → State → Outcome → Type 0
Sleeps a q s o =
    ((s.r_q ≡ []) × (o ≡ returned thread_none s))
    ⊎ ((t : ℕ) × (rest : List ℕ) × (s' : State) × (s.r_q ≡ t ∷ rest)
        × (o ≡ switched s')
        × SwitchedTo s.enabled t (taken t (asleep a q s)) s')

-- On a wait queue that is there, `thread_sleep` returns `THREAD_NONE` and changes nothing if no
-- other thread is ready; else the caller goes to sleep behind the others of the queue and the
-- oldest ready thread runs, with the invariant kept.
pub thread_sleep-Sleeps :
    (s : State) (a : ℕ) (q : List ℕ) → Inv s → s.queues a ≡ some q → Sleeps a q s (thread_sleep a s)
thread_sleep-Sleeps s a q v e = rw (sleep-yield s a q v e) (elim (Bool-cases (s.nums == 1)) [
  | inl one ↦ inl (length_zero s.r_q (ground (arith, v.count)), rw one)
  | inr more ↦ elim (Leaving-yield (asleep a q s) (asleep-Leaving s a q v e)) [
    | inl (none_left, _) ↦ absurd (ground (arith, v.count))
    | inr (t, rest, s', front, runs, sw) ↦ inr (t, rest, s', front, rw more runs, sw)
  ]
])
