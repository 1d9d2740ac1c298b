-- ===== src/Threads/Tests/Waits.antt =====
-- The claims on sleeping, waking, waiting, killing and condition variables at the state `five`.
use ece344_operating_systems.Threads.Runs.Killing.{thread_kill-fault}
use ece344_operating_systems.Threads.Invariant.Cvs.{asleep_in_cv, Retakes}
use ece344_operating_systems.Base.{ℕ, ◌≢◌, if◌then◌else◌}
use ece344_operating_systems.Threads.Tests.{
  five, five-Core, five-Inv, Sleeps, List, thread_wait, thread_kill, if◌then◌else◌, true, arith,
  cv_wait, thread_sleep, Woken, waiting, thread_sleep-Sleeps, thread_wait-Sleeps, moved,
  thread_kill-asleep, freed,
}
use ece344_operating_systems.Threads.State.{State, Lock, id, returned, fault}
use ece344_operating_systems.Threads.Invariant.{Inv, Core}
use ece344_operating_systems.Threads.Invariant.Cvs.{Holds, cv_wait-Sleeps}
use ece344_operating_systems.Base.{
  refl, if◌then◌else◌, [], ℕ, some, ◌≡◌, ◌==◌, none, ◌∷◌, ◌≢◌, Option,
}

thread_sleep-Sleeps_example : Sleeps 3 [] five (thread_sleep 3 five)
thread_sleep-Sleeps_example = thread_sleep-Sleeps five 3 [] five-Inv refl

thread_wait-Sleeps_example :
    (q : List ℕ) × (five.queues 3 ≡ some q)
    × Sleeps 3 q (waiting 2 true five) (thread_wait (id 2) true five)
thread_wait-Sleeps_example =
    thread_wait-Sleeps 2 true five five-Inv (omega arith) (λ e. omega (arith, e)) refl refl

thread_kill-asleep_example :
    (thread_kill (id 1) five ≡ returned (id 1) (moved 1 1 (1 ∷ []) five))
    × Inv (moved 1 1 (1 ∷ []) five)
thread_kill-asleep_example =
    thread_kill-asleep 1 0 (1 ∷ []) five five-Inv (omega arith) (λ e. omega (arith, e)) refl refl
      refl

not_six : (i : ℕ) → (five.slots i).wq ≢ 6
not_six i = ground arith

thread_kill-fault_example : thread_kill (id 4) five ≡ fault
thread_kill-fault_example =
    thread_kill-fault 4 6 (4 ∷ []) five five-Inv (λ e. omega (arith, e)) refl refl not_six

-- The condition variables are no part of the invariant.
Core-cvs : (f : ℕ → Option ℕ) → Core (record five { cvs = f })
Core-cvs f = record {
  here = five-Core.here;
  line = five-Core.line;
  once = five-Core.once;
  apart = five-Core.apart;
  asleep = five-Core.asleep;
  one_place = five-Core.one_place;
  once_each = five-Core.once_each;
  own_wq = five-Core.own_wq;
  own_stack = five-Core.own_stack;
  wq_apart = five-Core.wq_apart;
  stack_apart = five-Core.stack_apart;
  fresh = five-Core.fresh;
  null_free = five-Core.null_free;
  next_pos = five-Core.next_pos;
}

abbrev held_lock : Lock
held_lock = record { held = true; holder = some 0; wq = 6 }

abbrev with_own_cv : State
with_own_cv = record five { cvs = λ c. if c == 30 then some 7 else none }

with_own_cv-Inv : Inv with_own_cv
with_own_cv-Inv = record {
  core = Core-cvs (λ c. if c == 30 then some 7 else none);
  active = refl;
  count = refl;
}

with_own_cv-Holds : Holds 30 8 7 held_lock with_own_cv
with_own_cv-Holds = record {
  cv_there = λ e. omega (arith, e);
  lock_there = λ e. omega (arith, e);
  lock = refl;
  holder = refl;
  queue = refl;
}

cv_wait-Sleeps_example :
    (s1 : State) × Woken 6 (4 ∷ []) [] (freed 8 held_lock with_own_cv) s1
    × Inv s1
    × Sleeps 7 [] (asleep_in_cv 8 s1) (cv_wait 30 8 with_own_cv)
    × Retakes 8
cv_wait-Sleeps_example =
    cv_wait-Sleeps 30 8 7 held_lock (4 ∷ []) [] with_own_cv with_own_cv-Inv with_own_cv-Holds refl
      refl (λ e. omega (arith, e))
