-- ===== src/Threads/Invariant/Cvs.antt =====
-- The condition variables.
use ece344_operating_systems.Threads.Lock.{release, lock_acquire}
use ece344_operating_systems.Threads.Wait.{push_frame}
use ece344_operating_systems.Threads.Runs.Exclusive.{deliver-cv_wait}
use ece344_operating_systems.Threads.Machine.{deliver, pop_frame}
use ece344_operating_systems.Threads.Sleep.{thread_sleep}
use ece344_operating_systems.Threads.Invariant.Release.{release-Woken, freed}
use ece344_operating_systems.Threads.Invariant.Leave.{Sleeps, thread_sleep-Sleeps}
use ece344_operating_systems.Threads.Invariant.Waits.{Inv-own_slot}
use ece344_operating_systems.Threads.State.{
  State, Tid, Thread, Lock, cv_wait_call, assign_ne, assign_self,
}
use ece344_operating_systems.Threads.Cv.{cv_signal, cv_broadcast, cv_wait, cv_wakeup, is_holder}
use ece344_operating_systems.Threads.Invariant.{Inv, ℕ, ◌≢◌, List, finished, is_sleep, state_of}
use ece344_operating_systems.Threads.Invariant.Wakeup.{
  thread_wakeup-Woken, thread_wakeup_one-Woken, Woken, Woken-Inv,
}
use ece344_operating_systems.Threads.Sleep.{thread_wakeup}
use ece344_operating_systems.Base.{
  ◌≢◌, ◌≡◌, some, true, false, ◌∷◌, [], ◌==◌, arith, refl, length, ap, Option, ◌∙◌,
}

-- The caller holds the lock at `l`, and the condition variable at `cv` has the queue `wq`.
pub record Holds (cv l wq : ℕ) (k : Lock) (s : State) : Type 0 where
  pub cv_there : cv ≢ 0
  pub lock_there : l ≢ 0
  pub lock : s.locks l ≡ some k
  pub holder : is_holder k s.current ≡ true
  pub queue : s.cvs cv ≡ some wq

cv_wakeup_runs :
    (all cv l wq : ℕ) (k : Lock) (s s' : State) (n : ℕ)
    → Holds cv l wq k s
    → thread_wakeup wq all s ≡ some (n, s')
    → cv_wakeup all cv l s ≡ finished s'
unfolding cv_wakeup
cv_wakeup_runs all cv l wq k s s' n h runs =
    let a : (cv == 0) ≡ false = ground (arith, h.cv_there) in
    let b : (l == 0) ≡ false = ground (arith, h.lock_there) in
    rw (cv_wakeup, a, b, h.lock, h.holder, h.queue, runs) refl

-- `cv_broadcast` by the holder of the lock makes all threads of the condition variable ready, in
-- order and behind the others; the lock stays held and the invariant is kept.
pub cv_broadcast-Woken :
    (cv l wq : ℕ) (k : Lock) (q : List ℕ) (s : State)
    → Inv s
    → Holds cv l wq k s
    → s.queues wq ≡ some q
    → (s' : State) × (cv_broadcast cv l s ≡ finished s') × Woken wq q [] s s' × Inv s'
unfolding cv_broadcast
cv_broadcast-Woken cv l wq k q s v h e =
    let up : is_sleep (state_of s s.current) ≡ false = ground (arith, v.active) in
    let (s', runs, w) = thread_wakeup-Woken wq q s v.core up e in
    (s', cv_wakeup_runs 1 cv l wq k s s' (length q) h runs, w, Woken-Inv wq q [] s s' v w)

-- `cv_signal` by the holder of the lock makes the thread ready that has waited longest for the
-- condition variable; the others wait on, the lock stays held and the invariant is kept.
pub cv_signal-Woken :
    (cv l wq t : ℕ) (k : Lock) (q : List ℕ) (s : State)
    → Inv s
    → Holds cv l wq k s
    → s.queues wq ≡ some (t ∷ q)
    → (s' : State) × (cv_signal cv l s ≡ finished s') × Woken wq (t ∷ []) q s s' × Inv s'
unfolding cv_signal
cv_signal-Woken cv l wq t k q s v h e =
    let up : is_sleep (state_of s s.current) ≡ false = ground (arith, v.active) in
    let (s', runs, w) = thread_wakeup_one-Woken wq 0 t q s v.core up (λ z. omega (arith, z)) e in
    (s', cv_wakeup_runs 0 cv l wq k s s' 1 h runs, w, Woken-Inv wq (t ∷ []) q s s' v w)

-- By a thread that does not hold the lock, waiting, signalling and broadcasting do nothing at all.
pub cv_calls-unheld :
    (cv l : ℕ) (k : Lock) (s : State)
    → cv ≢ 0
    → l ≢ 0
    → s.locks l ≡ some k
    → is_holder k s.current ≡ false
    → (cv_wait cv l s ≡ finished s)
      × (cv_signal cv l s ≡ finished s)
      × (cv_broadcast cv l s ≡ finished s)
unfolding cv_wait cv_signal cv_broadcast cv_wakeup
cv_calls-unheld cv l k s nc nl at not_held =
    let a : (cv == 0) ≡ false = ground arith in
    let b : (l == 0) ≡ false = ground arith in
    (
      rw (cv_wait, a, b, at, not_held) refl,
      rw (cv_signal, cv_wakeup, a, b, at, not_held) refl,
      rw (cv_broadcast, cv_wakeup, a, b, at, not_held) refl,
    )

-- The caller with the rest of `cv_wait` to come.
abbrev pub asleep_in_cv : ℕ → State → State
asleep_in_cv l s = push_frame (cv_wait_call l) s

-- In whatever state a thread is in which its sleep in `cv_wait` returns, it takes the lock again.
abbrev pub Retakes : ℕ → Type 0
Retakes l =
    (r : Tid) (s : State)
    → deliver r (asleep_in_cv l s)
      ≡ lock_acquire l (pop_frame (s.slots s.current).frames (asleep_in_cv l s))

cv_wait_call-Retakes : (l : ℕ) → Retakes l
cv_wait_call-Retakes l r s =
    deliver-cv_wait r l (s.slots s.current).frames (asleep_in_cv l s)
      (ap (λ (t : Thread). t.frames) (assign_self s.slots s.current _))

cv_wait_runs :
    (cv l wq : ℕ) (k : Lock) (s s1 : State)
    → Holds cv l wq k s
    → release l s ≡ some s1
    → s1.cvs cv ≡ some wq
    → cv_wait cv l s ≡ thread_sleep wq (push_frame (cv_wait_call l) s1)
unfolding cv_wait
cv_wait_runs cv l wq k s s1 h runs at =
    let a : (cv == 0) ≡ false = ground (arith, h.cv_there) in
    let b : (l == 0) ≡ false = ground (arith, h.lock_there) in
    rw (cv_wait, a, b, h.lock, h.holder, runs, at) refl

-- `cv_wait` by the holder of the lock, where nothing comes between its parts: the lock is free and
-- all that waited for it are ready; then the caller sleeps behind the others of the condition
-- variable and the oldest ready thread runs, or, if no thread is ready, its `thread_sleep` returns
-- at once. Whenever and wherever its sleep returns, it calls `lock_acquire` on that lock.
pub cv_wait-Sleeps :
    (cv l wq : ℕ) (k : Lock) (ql q : List ℕ) (s : State)
    → Inv s
    → Holds cv l wq k s
    → s.queues k.wq ≡ some ql
    → s.queues wq ≡ some q
    → wq ≢ k.wq
    → (s1 : State) × Woken k.wq ql [] (freed l k s) s1
      × Inv s1
      × Sleeps wq q (asleep_in_cv l s1) (cv_wait cv l s)
      × Retakes l
cv_wait-Sleeps cv l wq k ql q s v h el eq ne =
    let (s1, runs, w, v1) = release-Woken l k ql s v h.lock el in
    let t = s1.slots s1.current in
    let at_cv : s1.cvs cv ≡ some wq = ap (λ (f : ℕ → Option ℕ). f cv) w.cvs ∙ h.queue in
    let at_wq : s1.queues wq ≡ some q =
      ap (λ (f : ℕ → Option (List ℕ)). f wq) w.queues
      ∙ assign_ne s.queues k.wq (some []) wq ne
      ∙ eq in
    let v2 : Inv (push_frame (cv_wait_call l) s1) =
      Inv-own_slot s1 (record t { frames = cv_wait_call l ∷ t.frames }) v1 refl refl refl in
    (
      s1,
      w,
      v1,
      rw (cv_wait_runs cv l wq k s s1 h runs at_cv)
          (thread_sleep-Sleeps (push_frame (cv_wait_call l) s1) wq q v2 at_wq),
      cv_wait_call-Retakes l,
    )
