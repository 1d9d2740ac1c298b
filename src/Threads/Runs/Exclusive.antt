-- ===== src/Threads/Runs/Exclusive.antt =====
-- Mutual exclusion, for a thread that finds the lock free and for one that has slept for it.
use ece344_operating_systems.Base.{
  ℕ, Bool, true, false, some, List, ◌∷◌, ◌≡◌, ◌≢◌, ◌⊎◌, inl, inr, refl, ◌∙◌, sym, ap,
}
use ece344_operating_systems.Threads.State.{
  Tid, Frame, State, Lock, Thread, Outcome, finished, acquire_call, cv_wait_call, assign, assign_ne,
}
use ece344_operating_systems.Threads.Lock.{lock_acquire, acquire_loop}
use ece344_operating_systems.Threads.Machine.{deliver, pop_frame}
use ece344_operating_systems.Threads.Invariant.Locks.{Took, acquire_loop-Took, lock_acquire-Took}

-- How a thread comes to take the lock: it calls `lock_acquire`; or its `thread_sleep` returns into a
-- `lock_acquire`; or it returns into a `cv_wait` with this lock.
abbrev pub Taking : ℕ → State → Outcome → Type 0
Taking l s o =
    (o ≡ lock_acquire l s)
    ⊎ ((r : Tid) × (b : Bool) × (fs : List Frame) × ((s.slots s.current).frames
          ≡ acquire_call l b ∷ fs)
        × (o ≡ deliver r s))
    ⊎ ((r : Tid) × (fs : List Frame) × ((s.slots s.current).frames ≡ cv_wait_call l ∷ fs)
        × (o ≡ deliver r s))

-- The lock was free and is held by the current thread; no other lock and no other thread has
-- changed.
abbrev pub TookIt : ℕ → State → State → Type 0
TookIt l s s' =
    (k : Lock) × (s.locks l ≡ some k)
    × (k.held ≡ false)
    × (s'.locks ≡ assign s.locks l (some (record k { held = true; holder = some s.current })))
    × (s'.current ≡ s.current)
    × ((j : ℕ) → j ≢ s.current → s'.slots j ≡ s.slots j)

deliver-acquire :
    (r : Tid) (l : ℕ) (b : Bool) (fs : List Frame) (s : State)
    → (s.slots s.current).frames ≡ acquire_call l b ∷ fs
    → deliver r s ≡ acquire_loop l b (pop_frame fs s)
unfolding deliver
deliver-acquire r l b fs s e = rw (deliver, e) refl

pub deliver-cv_wait :
    (r : Tid) (l : ℕ) (fs : List Frame) (s : State)
    → (s.slots s.current).frames ≡ cv_wait_call l ∷ fs
    → deliver r s ≡ lock_acquire l (pop_frame fs s)
unfolding deliver
deliver-cv_wait r l fs s e = rw (deliver, e) refl

popped : (l : ℕ) (fs : List Frame) (s s' : State) → Took l (pop_frame fs s) s' → TookIt l s s'
popped l fs s s' (k, at, free, locks, current, slots) = (
  k,
  at,
  free,
  locks,
  current,
  λ j ne.
      ap (λ (f : ℕ → Thread). f j) slots
      ∙ assign_ne s.slots s.current (record (s.slots s.current) { frames = fs }) j ne,
)

-- Mutual exclusion: whether a thread calls `lock_acquire`, is woken in it after a sleep, or is woken
-- in `cv_wait`, it goes on behind that call only if the lock is free at that moment, and then it
-- holds it; no other lock, and no other thread, has changed.
pub Taking-TookIt :
    (l : ℕ) (s s' : State) (o : Outcome) → Taking l s o → o ≡ finished s' → TookIt l s s'
Taking-TookIt l s s' o (inl called) h =
    let (k, at, free, locks, current, slots) = lock_acquire-Took l s s' (sym called ∙ h) in
    (k, at, free, locks, current, λ j ne. ap (λ (f : ℕ → Thread). f j) slots)
Taking-TookIt l s s' o (inr (inl (r, b, fs, e, run))) h =
    popped l fs s s'
      (acquire_loop-Took l b (pop_frame fs s) s' (sym (run ∙ deliver-acquire r l b fs s e) ∙ h))
Taking-TookIt l s s' o (inr (inr (r, fs, e, run))) h =
    popped l fs s s'
      (lock_acquire-Took l (pop_frame fs s) s' (sym (run ∙ deliver-cv_wait r l fs s e) ∙ h))
