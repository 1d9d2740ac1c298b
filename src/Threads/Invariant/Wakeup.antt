-- ===== src/Threads/Invariant/Wakeup.antt =====
-- `thread_wakeup` on a queue that is there.
use ece344_operating_systems.Threads.State.{State, set_queue}
use ece344_operating_systems.Threads.Invariant.{
  Core, Inv, ℕ, List, ◌≢◌, is_sleep, state_of, mem, nodup, waits,
}
use ece344_operating_systems.Threads.Invariant.Wake.{Roused, AllWoken, wake_all-AllWoken}
use ece344_operating_systems.Threads.Sleep.{thread_wakeup, wake_all}
use ece344_operating_systems.Base.{
  ◌≢◌, arith, ◌≡◌, some, length-append, false, [], ◌==◌, true, length, ◌∷◌, refl,
}

-- A queue may lose threads.
pub Core-set_queue :
    (s : State) (a : ℕ) (q q' : List ℕ)
    → Core s
    → s.queues a ≡ some q
    → ((t : ℕ) → mem t q' ≡ true → mem t q ≡ true)
    → nodup q' ≡ true
    → Core (set_queue s a q')
Core-set_queue s a q q' c e sub once = record {
  here = c.here;
  line = c.line;
  once = c.once;
  apart = c.apart;
  asleep = λ b t w. ground (arith, c.asleep b t, sub t);
  one_place = λ b d t v w. ground (arith, c.one_place b d t, sub t);
  once_each = λ b. ground (arith, c.once_each b);
  own_wq = λ j u. ground (arith, c.own_wq j u);
  own_stack = c.own_stack;
  wq_apart = c.wq_apart;
  stack_apart = c.stack_apart;
  fresh = λ b h. ground (arith, c.fresh b h);
  null_free = ground (arith, c.null_free);
  next_pos = c.next_pos;
}

pub Roused-set_queue :
    (s : State) (a t : ℕ) (q q' : List ℕ)
    → Core s
    → s.queues a ≡ some q
    → mem t q ≡ true
    → mem t q' ≡ false
    → Roused (set_queue s a q') t
Roused-set_queue s a t q q' c e m out =
    let w : waits t (s.queues a) ≡ true = rw e m in
    record {
      lt = (c.asleep a t w).0;
      slept = (c.asleep a t w).1;
      nowhere = λ b. ground (arith, c.one_place a b t w);
    }

ne_null : (s : State) (a : ℕ) (q : List ℕ) → Core s → s.queues a ≡ some q → (a == 0) ≡ false
ne_null s a q c e = ground (arith, c.null_free)

nodup_of_queue : (s : State) (a : ℕ) (q : List ℕ) → Core s → s.queues a ≡ some q → nodup q ≡ true
nodup_of_queue s a q c e = ground (arith, c.once_each a)

-- What `thread_wakeup` leaves, which wakes `q`, a first part of the queue `a`, whose rest is `q'`.
abbrev pub Woken : ℕ → List ℕ → List ℕ → State → State → Type 0
Woken a q q' s s' = AllWoken q (set_queue s a q') s'

-- `thread_wakeup` of all, by a caller that is awake, returns how many slept in the queue: they are
-- all ready, in order and behind the others, and the queue is empty.
pub thread_wakeup-Woken :
    (a : ℕ) (q : List ℕ) (s : State)
    → Core s
    → is_sleep (state_of s s.current) ≡ false
    → s.queues a ≡ some q
    → (s' : State) × (thread_wakeup a 1 s ≡ some (length q, s')) × Woken a q [] s s'
unfolding thread_wakeup
thread_wakeup-Woken a q s c up e =
    let empty : State = set_queue s a [] in
    let (cnt, w) =
      wake_all-AllWoken q 0 empty (Core-set_queue s a q [] c e (λ t m. cc) refl) up
        (nodup_of_queue s a q c e) (λ t m. Roused-set_queue s a t q [] c e m refl) in
    ((wake_all q 0 empty).1, ground (arith, ne_null s a q c e, cnt), w)

-- `thread_wakeup` of one, by a caller that is awake, on a queue that is not empty returns 1: the
-- oldest sleeper is ready behind the others, and the rest sleep on.
pub thread_wakeup_one-Woken :
    (a all t : ℕ) (q : List ℕ) (s : State)
    → Core s
    → is_sleep (state_of s s.current) ≡ false
    → all ≢ 1
    → s.queues a ≡ some (t ∷ q)
    → (s' : State) × (thread_wakeup a all s ≡ some (1, s')) × Woken a (t ∷ []) q s s'
unfolding thread_wakeup wake_all
thread_wakeup_one-Woken a all t q s c up ne e =
    let rest : State = set_queue s a q in
    let once = nodup_of_queue s a (t ∷ q) c e in
    let (cnt, w) =
      wake_all-AllWoken (t ∷ []) 0 rest
        (Core-set_queue s a (t ∷ q) q c e (λ k m. ground arith) (ground arith)) up refl
        (λ k m. Roused-set_queue s a k (t ∷ q) q c e (ground arith) (ground arith)) in
    ((wake_all (t ∷ []) 0 rest).1, ground (arith, ne_null s a (t ∷ q) c e), w)

-- An empty queue wakes nobody.
pub thread_wakeup_one-empty :
    (a all : ℕ) (s : State)
    → Core s
    → all ≢ 1
    → s.queues a ≡ some []
    → thread_wakeup a all s ≡ some (0, s)
unfolding thread_wakeup
thread_wakeup_one-empty a all s c ne e = ground (arith, ne_null s a [] c e)

-- The invariant after a wake-up.
pub Woken-Inv : (a : ℕ) (q q' : List ℕ) (s s' : State) → Inv s → Woken a q q' s s' → Inv s'
Woken-Inv a q q' s s' v w = record {
  core = w.core;
  active = ground (arith, w.own, w.current, v.active);
  count = ground (arith, w.r_q, w.nums, v.count, length-append s.r_q q);
}
