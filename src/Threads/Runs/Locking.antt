-- ===== src/Threads/Runs/Locking.antt =====
-- Locks and condition variables keep the invariant, whatever their arguments.
use ece344_operating_systems.Base.{
  ℕ, Bool, true, false, ◌||◌, Option, none, some, ◌==◌, if◌then◌else◌, ◌≡◌, refl, Option-cases, inl,
  inr,
}
use ece344_operating_systems.Threads.State.{
  State, acquire_call, cv_wait_call, Outcome, finished, fault, interrupts, or_fault,
}
use ece344_operating_systems.Threads.Invariant.{Inv}
use ece344_operating_systems.Threads.Invariant.Exit.{Inv-interrupts}
use ece344_operating_systems.Threads.Invariant.Locks.{Inv-locks}
use ece344_operating_systems.Threads.Sleep.{thread_sleep, thread_wakeup}
use ece344_operating_systems.Threads.Wait.{push_frame}
use ece344_operating_systems.Threads.Lock.{
  set_lock, acquire_loop, lock_acquire, release, lock_release,
}
use ece344_operating_systems.Threads.Cv.{
  cv_wait, cv_wakeup, cv_signal, cv_broadcast, if_holder, is_holder,
}
use ece344_operating_systems.Threads.Runs.Good.{Good, sleep-Good, wakeup-Wakes, Wakes}
use ece344_operating_systems.Threads.Runs.Waiting.{if-Good, Inv-pushed}

-- A step that may fail, and the rest of the call.
or_fault-Good :
    {A : Type 0} (o : Option A) (k : A → Outcome)
    → ((a : A) → o ≡ some a → Good (k a))
    → Good (or_fault o k)
or_fault-Good none k g = refl
or_fault-Good (some a) k g = g a refl

pub acquire_loop-Good :
    (l : ℕ) (enabled : Bool) (s : State) → Inv s → Good (acquire_loop l enabled s)
unfolding acquire_loop
acquire_loop-Good l enabled s v = elim (Option-cases (s.locks l)) [
  | inl e ↦ rw (acquire_loop, e) refl
  | inr (k, e) ↦
      let taken =
        interrupts (set_lock s l (record k { held = true; holder = some s.current })) enabled in
      rw (acquire_loop, e)
        (if-Good k.held (thread_sleep k.wq (push_frame (acquire_call l enabled) s)) (finished taken)
          (sleep-Good k.wq (push_frame (acquire_call l enabled) s)
            (Inv-pushed (acquire_call l enabled) s v))
          (Inv-interrupts (set_lock s l (record k { held = true; holder = some s.current })) enabled
            (Inv-locks s _ v)))
]

pub acquire-Good : (l : ℕ) (s : State) → Inv s → Good (lock_acquire l s)
unfolding lock_acquire
acquire-Good l s v =
    if-Good (l == 0) fault (acquire_loop l s.enabled (interrupts s false)) refl
      (acquire_loop-Good l s.enabled (interrupts s false) (Inv-interrupts s false v))

abbrev Kept : Option State → Type 0
Kept none = true ≡ true
Kept (some s) = Inv s

release-Kept : (l : ℕ) (s : State) → Inv s → Kept (release l s)
unfolding release
release-Kept l s v = elim (Option-cases (s.locks l)) [
  | inl e ↦ rw (release, e) refl
  | inr (k, e) ↦
      let freed = set_lock s l (record k { held = false; holder = some s.current }) in
      rw (release, e)
        (woken (thread_wakeup k.wq 1 freed) (wakeup-Wakes k.wq 1 freed (Inv-locks s _ v)))
]
  where
    woken :
        (o : Option (ℕ × State))
        → Wakes o
        → Kept (elim o as (λ (x : Option (ℕ × State)). Option State) [
          | none ↦ none
          | some r ↦ some (r.1)
        ])
    woken none w = refl
    woken (some r) w = w

Kept-Good :
    (o : Option State) (k : State → Outcome)
    → Kept o
    → ((s : State) → Inv s → Good (k s))
    → Good (or_fault o k)
Kept-Good none k g f = refl
Kept-Good (some s) k g f = f s g

Wakes-Good : (o : Option (ℕ × State)) → Wakes o → Good (or_fault o λ r. finished (r.1))
Wakes-Good none g = refl
Wakes-Good (some r) g = g

pub wakeup-Good :
    (a all : ℕ) (s : State) → Inv s → Good (or_fault (thread_wakeup a all s) λ r. finished (r.1))
wakeup-Good a all s v = Wakes-Good (thread_wakeup a all s) (wakeup-Wakes a all s v)

pub release-Good : (l : ℕ) (s : State) → Inv s → Good (lock_release l s)
unfolding lock_release
release-Good l s v =
    if-Good (l == 0) fault (or_fault (release l s) finished) refl
      (Kept-Good (release l s) finished (release-Kept l s v) (λ s' g. g))

if_holder-Good :
    (cv l : ℕ) (s : State) (act : Outcome) → Inv s → Good act → Good (if_holder cv l s act)
if_holder-Good cv l s act v g =
    if-Good (cv == 0 || l == 0) fault
      (or_fault (s.locks l) (λ k. if is_holder k s.current then act else finished s)) refl
      (or_fault-Good (s.locks l) (λ k. if is_holder k s.current then act else finished s)
        (λ k e. if-Good (is_holder k s.current) act (finished s) g v))

pub cv_wait-Good : (cv l : ℕ) (s : State) → Inv s → Good (cv_wait cv l s)
unfolding cv_wait
cv_wait-Good cv l s v = if_holder-Good cv l s _ v (
    Kept-Good (release l s)
      (λ s'. or_fault (s'.cvs cv) λ wq. thread_sleep wq (push_frame (cv_wait_call l) s'))
      (release-Kept l s v)
      (λ s' v'.
        or_fault-Good (s'.cvs cv) (λ wq. thread_sleep wq (push_frame (cv_wait_call l) s'))
          (λ wq e.
            sleep-Good wq (push_frame (cv_wait_call l) s') (Inv-pushed (cv_wait_call l) s' v'))))

cv_wakeup-Good : (all cv l : ℕ) (s : State) → Inv s → Good (cv_wakeup all cv l s)
unfolding cv_wakeup
cv_wakeup-Good all cv l s v = if_holder-Good cv l s _ v (
    or_fault-Good (s.cvs cv) (λ wq. or_fault (thread_wakeup wq all s) λ r. finished (r.1))
      (λ wq e. wakeup-Good wq all s v))

pub cv_signal-Good : (cv l : ℕ) (s : State) → Inv s → Good (cv_signal cv l s)
unfolding cv_signal
cv_signal-Good cv l s v = cv_wakeup-Good 0 cv l s v

pub cv_broadcast-Good : (cv l : ℕ) (s : State) → Inv s → Good (cv_broadcast cv l s)
unfolding cv_broadcast
cv_broadcast-Good cv l s v = cv_wakeup-Good 1 cv l s v
