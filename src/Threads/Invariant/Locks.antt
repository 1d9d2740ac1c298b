-- ===== src/Threads/Invariant/Locks.antt =====
-- Mutual exclusion, and who is woken by a release.
use ece344_operating_systems.Threads.Invariant.Leave.{thread_sleep-Sleeps, Sleeps}
use ece344_operating_systems.Threads.Invariant.Waits.{Inv-own_slot}
use ece344_operating_systems.Threads.Invariant.Exit.{Inv-interrupts}
use mathlib.Core.Bool.{false≢true}
use ece344_operating_systems.Threads.State.{
  State, or_fault, thread_any, Lock, assign, interrupts, acquire_call,
}
use ece344_operating_systems.Threads.Invariant.{
  Outcome, Option, ℕ, Bool, ◌≡◌, finished, switched, thread_max_threads, Inv,
}
use ece344_operating_systems.Threads.Invariant.Leave.{asleep}
use ece344_operating_systems.Threads.Invariant.Calls.{yield_any_cons}
use ece344_operating_systems.Threads.Lock.{lock_acquire, acquire_loop, set_lock}
use ece344_operating_systems.Threads.Yield.{yield_any, thread_yield, switch_to, reap_from}
use ece344_operating_systems.Threads.Sleep.{thread_sleep}
use ece344_operating_systems.Base.{
  ◌≡◌, false, some, true, arith, Option-cases, none, inl, refl, inr, Bool-cases, List, ◌∷◌, sym, [],
  ◌∙◌, ap, ◌⊎◌, ◌≢◌, ◌==◌,
}
use ece344_operating_systems.Threads.Wait.{push_frame}

-- No call that gives the processor away ends in `finished`, the end of the calls that take a lock.
abbrev is_finished : Outcome → Bool
is_finished (finished s) = true
is_finished _ = false

or_fault-switched :
    (o : Option State) (f : State → State) → is_finished (or_fault o (λ u. switched (f u))) ≡ false
or_fault-switched none f = refl
or_fault-switched (some u) f = refl

switch_to-unfinished : (b : Bool) (t : ℕ) (s : State) → is_finished (switch_to b t s) ≡ false
unfolding switch_to
switch_to-unfinished b t s = or_fault-switched (reap_from thread_max_threads 0 _) _

yield_cases-unfinished : (q : List ℕ) (s : State) → s.r_q ≡ q → is_finished (yield_any s) ≡ false
unfolding yield_any
yield_cases-unfinished [] s e = rw (e, yield_any)
yield_cases-unfinished (t ∷ q) s e =
    rw (yield_any_cons s t q e)
      (switch_to-unfinished s.enabled t (record (interrupts s false) { r_q = q }))

thread_yield-unfinished : (s : State) → is_finished (thread_yield thread_any s) ≡ false
unfolding thread_yield
thread_yield-unfinished s = ground (arith, yield_cases-unfinished s.r_q s refl)

thread_sleep-unfinished : (a : ℕ) (s : State) → is_finished (thread_sleep a s) ≡ false
unfolding thread_sleep
thread_sleep-unfinished a s = elim (Option-cases (s.queues a)) [
  | inl e ↦ ground arith
  | inr (q, e) ↦ ground (arith, thread_yield-unfinished (asleep a q s))
]

-- What it is to have taken the lock: it was there and free, it is held by the current thread, and
-- no other lock has changed.
abbrev pub Took : ℕ → State → State → Type 0
Took l s s' =
    (k : Lock) × (s.locks l ≡ some k)
    × (k.held ≡ false)
    × (s'.locks ≡ assign s.locks l (some (record k { held = true; holder = some s.current })))
    × (s'.current ≡ s.current)
    × (s'.slots ≡ s.slots)

pub acquire_loop-Took :
    (l : ℕ) (b : Bool) (s s' : State) → acquire_loop l b s ≡ finished s' → Took l s s'
unfolding acquire_loop
acquire_loop-Took l b s s' h = elim (Option-cases (s.locks l)) [
  | inl e ↦ cc
  | inr (k, e) ↦ elim (Bool-cases k.held) [
    | inl held ↦
        let waiting = push_frame (acquire_call l b) s in
        let r : thread_sleep k.wq waiting ≡ finished s' = ground arith in
        absurd (false≢true (sym (thread_sleep-unfinished k.wq waiting) ∙ ap is_finished r))
    | inr free ↦
        let taken =
          interrupts (set_lock s l (record k { held = true; holder = some s.current })) b in
        let r : finished taken ≡ finished s' = ground arith in (k, e, free, cc, cc, cc)
  ]
]

-- Mutual exclusion: `lock_acquire` comes back to its caller only if the lock was free, and then the
-- caller holds it; no other lock, and no thread, has changed.
pub lock_acquire-Took : (l : ℕ) (s s' : State) → lock_acquire l s ≡ finished s' → Took l s s'
unfolding lock_acquire
lock_acquire-Took l s s' h = acquire_loop-Took l s.enabled (interrupts s false) s' (ground arith)

-- The lock, taken by the current thread, and the caller on its way to sleep for it.
abbrev pub acquired : ℕ → Lock → State → State
acquired l k s = set_lock s l (record k { held = true; holder = some s.current })

abbrev pub blocked : ℕ → State → State
blocked l s = push_frame (acquire_call l s.enabled) (interrupts s false)

Inv-blocked : (l : ℕ) (s : State) → Inv s → Inv (blocked l s)
Inv-blocked l s v =
    let t = s.slots s.current in
    Inv-own_slot (interrupts s false) (record t { frames = acquire_call l s.enabled ∷ t.frames })
      (Inv-interrupts s false v) refl refl refl

pub Inv-locks : (s : State) (f : ℕ → Option Lock) → Inv s → Inv (record s { locks = f })
Inv-locks s f v =
    let c = v.core in
    record {
      core = record {
        here = c.here;
        line = c.line;
        once = c.once;
        apart = c.apart;
        asleep = c.asleep;
        one_place = c.one_place;
        once_each = c.once_each;
        own_wq = c.own_wq;
        own_stack = c.own_stack;
        wq_apart = c.wq_apart;
        stack_apart = c.stack_apart;
        fresh = c.fresh;
        null_free = c.null_free;
        next_pos = c.next_pos;
      };
      active = v.active;
      count = v.count;
    }

-- Both ends of `lock_acquire`.
abbrev pub Acquires : ℕ → Lock → List ℕ → State → Outcome → Type 0
Acquires l k q s o =
    ((k.held ≡ false) × (o ≡ finished (acquired l k s)) × Inv (acquired l k s))
    ⊎ ((k.held ≡ true) × Sleeps k.wq q (blocked l s) o)

-- `lock_acquire` of a lock whose queue is there does not fault: if the lock is free the caller
-- takes it at once, the interrupt mask is as before and the invariant is kept; if it is held, by
-- whomever, and a thread is ready, the caller goes to sleep behind the others that wait for the lock
-- and the oldest ready thread runs; if it is held and no thread is ready, `thread_sleep` returns at
-- once to the loop of `lock_acquire`, with interrupts off and nothing else changed.
pub lock_acquire-Acquires :
    (l : ℕ) (k : Lock) (q : List ℕ) (s : State)
    → Inv s
    → l ≢ 0
    → s.locks l ≡ some k
    → s.queues k.wq ≡ some q
    → Acquires l k q s (lock_acquire l s)
unfolding lock_acquire acquire_loop
lock_acquire-Acquires l k q s v ne at e =
    let there : (l == 0) ≡ false = ground arith in
    elim (Bool-cases k.held) [
      | inl held ↦
          let run : lock_acquire l s ≡ thread_sleep k.wq (blocked l s) =
            rw (lock_acquire, acquire_loop, there, at, held) refl in
          inr (held, rw run (thread_sleep-Sleeps (blocked l s) k.wq q (Inv-blocked l s v) e))
      | inr free ↦
          inl (free, rw (lock_acquire, acquire_loop, there, at, free) refl, Inv-locks s _ v)
    ]
