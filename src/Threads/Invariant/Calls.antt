-- ===== src/Threads/Invariant/Calls.antt =====
-- `thread_yield` on each of its branches.
use ece344_operating_systems.Threads.State.{State, interrupts, is_killed, thread_none, is_running}
use ece344_operating_systems.Threads.Invariant.{
  Core, ℕ, Bool, Outcome, mem, ◌≡◌, List, state_of, returned, is_active, is_leaving, switched,
}
use ece344_operating_systems.Threads.Invariant.Yield.{SwitchedTo, switch_to-SwitchedTo, leaves}
use ece344_operating_systems.Threads.Yield.{yield_any, switch_to}
use ece344_operating_systems.Base.{
  ◌≡◌, false, true, [], ◌⊎◌, ◌||◌, ◌∷◌, if◌then◌else◌, suc, length, inl, arith, ap, ◌∙◌, inr, sym,
}
use ece344_operating_systems.Threads.Fifo.{erase}
use ece344_operating_systems.Threads.Invariant.Switch.{Core-dequeue}
use ece344_operating_systems.Threads.Fifo.Laws.{apart_of, mem-erase_self, erase_head}

-- The state behind the dequeue of `t`, with interrupts off.
abbrev pub taken : ℕ → State → State
taken t s = record (interrupts s false) { r_q = erase t s.r_q }

pub Core-interrupts : (s : State) (b : Bool) → Core s → Core (interrupts s b)
Core-interrupts s b c = record {
  here = c.here;
  line = c.line;
  once = c.once;
  apart = c.apart;
  asleep = c.asleep;
  one_place = c.one_place;
  once_each = c.once_each;
  own_wq = c.own_wq;
  own_stack = c.own_stack;
  wq_apart = c.wq_apart;
  stack_apart = c.stack_apart;
  fresh = c.fresh;
  null_free = c.null_free;
  next_pos = c.next_pos;
}

-- A switch to a thread of the ready queue.
pub taken-switch :
    (t : ℕ) (s : State)
    → Core s
    → mem t s.r_q ≡ true
    → is_killed (state_of s s.current) ≡ false
    → is_active (state_of s s.current) || is_leaving (state_of s s.current) ≡ true
    → s.nums ≡ leaves (taken t s)
    → (s' : State) × (switch_to s.enabled t (taken t s) ≡ switched s')
      × SwitchedTo s.enabled t (taken t s) s'
taken-switch t s c m alive kind n =
    switch_to-SwitchedTo s.enabled t (taken t s)
      (Core-dequeue (interrupts s false) t (Core-interrupts s false c)) (c.line t m).0
      (λ e. apart_of t s.current s.r_q m c.apart e) (c.line t m).1 (mem-erase_self t s.r_q c.once)
      alive kind n

abbrev pub YieldAny : State → Outcome → Type 0
YieldAny s o =
    ((s.r_q ≡ []) × (o ≡ returned thread_none s))
    ⊎ ((t : ℕ) × (rest : List ℕ) × (s' : State) × (s.r_q ≡ t ∷ rest)
        × (o ≡ switched s')
        × SwitchedTo s.enabled t (taken t s) s')

pub yield_any_cons :
    (s : State) (t : ℕ) (rest : List ℕ)
    → s.r_q ≡ t ∷ rest
    → yield_any s ≡ switch_to s.enabled t (record (interrupts s false) { r_q = rest })
unfolding yield_any
yield_any_cons s t rest e = cc

pub yield_any_cases :
    (s : State) (q : List ℕ)
    → s.r_q ≡ q
    → Core s
    → is_killed (state_of s s.current) ≡ false
    → is_active (state_of s s.current) || is_leaving (state_of s s.current) ≡ true
    → s.nums ≡ (if is_running (state_of s s.current) then suc (length q) else length q)
    → YieldAny s (yield_any s)
unfolding yield_any
yield_any_cases s [] e c alive kind n = inl (e, rw e)
yield_any_cases s (t ∷ rest) e c alive kind n =
    let m : mem t s.r_q ≡ true = ground arith in
    let er : erase t s.r_q ≡ rest = ap (erase t) e ∙ erase_head t rest in
    let (s', runs, sw) = taken-switch t s c m alive kind (ground arith) in
    let at_rest =
      ap (λ (r : List ℕ). switch_to s.enabled t (record (interrupts s false) { r_q = r }))
        (sym er) in
    inr (t, rest, s', e, yield_any_cons s t rest e ∙ at_rest ∙ runs, sw)
