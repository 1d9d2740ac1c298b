-- ===== src/Threads/Cv.antt =====
-- The condition variables. A call by a thread that does not hold the lock does nothing.
use ece344_operating_systems.Base.{
  ℕ, ◌+◌, Bool, false, Option, none, some, ◌==◌, ◌||◌, ◌&&◌, if◌then◌else◌, List, ◌∷◌, [],
}
use ece344_operating_systems.Threads.Create.{wait_queue_create}
use ece344_operating_systems.Threads.Sleep.{thread_sleep, thread_wakeup}
use ece344_operating_systems.Threads.Wait.{push_frame}
use ece344_operating_systems.Threads.Lock.{release}
use ece344_operating_systems.Threads.State.{
  cv_wait_call, Lock, State, Outcome, finished, fault, assign, or_fault,
}

unfoldable pub cv_create : State → ℕ × State
unfolding wait_queue_create
cv_create s =
    let c = s.next_ptr in
    let (wq, s') = wait_queue_create (record s { next_ptr = c + 1 }) in
    (c, record s' { cvs = assign s'.cvs c (some wq) })

-- The nodes are freed and the queue's record is not: it points at them still.
abbrev pub dropped : ℕ → List ℕ → State → ℕ → Option (List ℕ)
dropped wq [] s = s.queues
dropped wq (t ∷ q) s = assign s.queues wq none

unfoldable pub cv_destroy : ℕ → State → Outcome
cv_destroy cv s = if cv == 0 then fault else elim (s.cvs cv) [
  | none ↦ fault
  | some wq ↦ if wq == 0 then finished s else elim (s.queues wq) [
    | none ↦ fault
    | some q ↦ finished (record s { queues = dropped wq q s; cvs = assign s.cvs cv none })
  ]
]

abbrev pub is_holder : Lock → ℕ → Bool
is_holder k i = k.held && elim k.holder [ none ↦ false | some h ↦ h == i ]

-- The two assertions, the test that the caller holds the lock, and what a holder does.
abbrev pub if_holder : ℕ → ℕ → State → Outcome → Outcome
if_holder cv lock s act =
    if cv == 0 || lock == 0
    then fault
    else or_fault (s.locks lock) (λ l. if is_holder l s.current then act else finished s)

-- `lock_release`, `thread_sleep` and then, by the frame, `lock_acquire`, with no preemption between
-- them, though interrupts are on there.
unfoldable pub cv_wait : ℕ → ℕ → State → Outcome
unfolding thread_sleep release
cv_wait cv lock s = if_holder cv lock s (
    or_fault (release lock s)
      λ s'. or_fault (s'.cvs cv) λ wq. thread_sleep wq (push_frame (cv_wait_call lock) s'))

unfoldable pub cv_wakeup : ℕ → ℕ → ℕ → State → Outcome
unfolding thread_wakeup
cv_wakeup all cv lock s =
    if_holder cv lock s
      (or_fault (s.cvs cv) λ wq. or_fault (thread_wakeup wq all s) λ (_, s'). finished s')

unfoldable pub cv_signal : ℕ → ℕ → State → Outcome
unfolding cv_wakeup
cv_signal cv lock s = cv_wakeup 0 cv lock s

unfoldable pub cv_broadcast : ℕ → ℕ → State → Outcome
unfolding cv_wakeup
cv_broadcast cv lock s = cv_wakeup 1 cv lock s
