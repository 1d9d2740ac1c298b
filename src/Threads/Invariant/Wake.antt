-- ===== src/Threads/Invariant/Wake.antt =====
-- `thread_wakeup` moves the woken threads to the end of the ready queue, in order.
use mathlib.Core.Bool.{false≢true}
use mathlib.Core.List.{append-nil, append_assoc}
use ece344_operating_systems.Threads.State.{State, set_state, is_killed, assign_ne, Thread}
use ece344_operating_systems.Threads.Invariant.{
  Core, ℕ, List, ◌<◌, is_sleep, ◌≡◌, thread_max_threads, ready, state_of, waits, mem, nodup,
}
use ece344_operating_systems.Threads.Sleep.{wake, wake_all}
use ece344_operating_systems.Base.{
  ◌<◌, ◌≡◌, ◌++◌, true, false, ◌+◌, ◌∷◌, [], arith, length, ◌≢◌, sym, if◌then◌else◌, ◌∙◌, refl, ap,
}
use ece344_operating_systems.Threads.Fifo.Laws.{nodup-append_one, apart_of, mem-append_one}

-- A sleeping thread that is in no queue.
pub record Roused (s : State) (t : ℕ) : Type 0 where
  pub lt : t < thread_max_threads
  pub slept : is_sleep (state_of s t) ≡ true
  pub nowhere : (a : ℕ) → waits t (s.queues a) ≡ false

abbrev woken : State → ℕ → State
woken s t = record (set_state s t ready) { r_q = s.r_q ++ t ∷ []; nums = s.nums + 1 }

wake-woken : (s : State) (t : ℕ) → is_sleep (state_of s t) ≡ true → wake t s ≡ woken s t
unfolding wake
wake-woken s t h = let k : is_killed (state_of s t) ≡ false = ground arith in rw k

not_queued : (s : State) (t : ℕ) → Core s → is_sleep (state_of s t) ≡ true → mem t s.r_q ≡ false
not_queued s t c h = ground (arith, c.line t)

ne_of_sleep :
    (s : State) (t u : ℕ) → is_sleep (state_of s t) ≡ true → is_sleep (state_of s u) ≡ false → t ≢ u
ne_of_sleep s t u h k e = false≢true (sym k ∙ ap (λ i. is_sleep (state_of s i)) (sym e) ∙ h)

module _ (s : State) (t : ℕ) (c : Core s) (r : Roused s t)
    (up : is_sleep (state_of s s.current) ≡ false) where
  Core-woken : Core (woken s t)
  Core-woken = record {
    here = c.here;
    line = λ k m. ground (arith, c.line k, r.lt, mem-append_one k t s.r_q);
    once = nodup-append_one t s.r_q c.once (not_queued s t c r.slept);
    apart = ground (arith, mem-append_one s.current t s.r_q, c.apart, r.slept);
    asleep = λ a k w. ground (arith, c.asleep a k, r.nowhere a);
    one_place = c.one_place;
    once_each = c.once_each;
    own_wq = λ j u. ground (arith, c.own_wq j, r.slept);
    own_stack = λ j u h. ground (arith, c.own_stack j, r.slept);
    wq_apart = λ j k u v e. ground (arith, c.wq_apart j k, r.slept);
    stack_apart = λ j k u v h e. ground (arith, c.stack_apart j k, r.slept);
    fresh = c.fresh;
    null_free = c.null_free;
    next_pos = c.next_pos;
  }

  -- Another sleeper is left asleep.
  Roused-woken : (k : ℕ) → k ≢ t → Roused s k → Roused (woken s t) k
  Roused-woken k ne v = record { lt = v.lt; slept = ground (arith, v.slept); nowhere = v.nowhere }

-- What waking the threads of `q`, none of them elsewhere, leaves.
pub record AllWoken (q : List ℕ) (s s' : State) : Type 0 where
  pub core : Core s'
  pub current : s'.current ≡ s.current
  pub own : s'.slots s.current ≡ s.slots s.current
  pub r_q : s'.r_q ≡ s.r_q ++ q
  pub nums : s'.nums ≡ s.nums + length q
  pub states : (t : ℕ) → state_of s' t ≡ (if mem t q then ready else state_of s t)
  pub queues : s'.queues ≡ s.queues
  pub locks : s'.locks ≡ s.locks
  pub cvs : s'.cvs ≡ s.cvs
  pub enabled : s'.enabled ≡ s.enabled
  pub waiting : (t : ℕ) → (s'.slots t).waiting_on ≡ (s.slots t).waiting_on

pub wake_all-AllWoken :
    (q : List ℕ) (n : ℕ) (s : State)
    → Core s
    → is_sleep (state_of s s.current) ≡ false
    → nodup q ≡ true
    → ((t : ℕ) → mem t q ≡ true → Roused s t)
    → ((wake_all q n s).0 ≡ n + length q) × AllWoken q s (wake_all q n s).1
unfolding wake_all
wake_all-AllWoken [] n s c up once r = (
  omega arith,
  record {
    core = c;
    current = refl;
    own = refl;
    r_q = sym (append-nil s.r_q);
    nums = omega arith;
    states = λ t. refl;
    queues = refl;
    locks = refl;
    cvs = refl;
    enabled = refl;
    waiting = λ t. refl;
  },
)
wake_all-AllWoken (t ∷ q) n s c up once r =
    let rt : Roused s t = r t (ground arith) in
    let out : mem t q ≡ false = ground arith in
    let e : wake t s ≡ woken s t = wake-woken s t rt.slept in
    let ne : t ≢ s.current = ne_of_sleep s t s.current rt.slept up in
    let (cnt, w) =
      wake_all-AllWoken q (n + 1) (woken s t) (Core-woken s t c rt up)
        (ap (λ (x : Thread). is_sleep x.state) (assign_ne s.slots t _ s.current (λ k. ne (sym k)))
          ∙ up)
        (ground arith)
        (λ k m. Roused-woken s t c rt up k (apart_of k t q m out) (r k (ground arith))) in
    rw (e, wake_all)
      (
        omega arith,
        record {
          core = w.core;
          current = w.current;
          own = w.own ∙ assign_ne s.slots t _ s.current (λ k. ne (sym k));
          r_q = w.r_q ∙ append_assoc s.r_q (t ∷ []) q;
          nums = omega (arith, w.nums);
          states = λ k. ground (arith, w.states k);
          queues = w.queues;
          locks = w.locks;
          cvs = w.cvs;
          enabled = w.enabled;
          waiting = λ k. ground (arith, w.waiting k);
        },
      )
