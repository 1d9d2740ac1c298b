-- ===== src/Threads/Runs/Killing.antt =====
-- `thread_kill` and `thread_create` keep the invariant, whatever their arguments.
use ece344_operating_systems.Base.{
  ℕ, ◌<◌, Bool, true, false, ◌||◌, none, some, List, ◌==◌, leb, ◌≡◌, ◌≢◌, ◌⊎◌, refl, ap, ◌∙◌, arith,
  Bool-cases, Option-cases, inl, inr,
}
use ece344_operating_systems.Threads.Fifo.{mem, dequeue_element}
use ece344_operating_systems.Threads.State.{
  thread_max_threads, Tid, id, thread_invalid, thread_nomore, State, returned, fault, is_sleep,
  is_uninitialized, state_of, interrupts,
}
use ece344_operating_systems.Threads.Invariant.{Inv, waits}
use ece344_operating_systems.Threads.Invariant.Kill.{thread_kill-awake, thread_kill-asleep}
use ece344_operating_systems.Threads.Invariant.Creates.{thread_create-created, outcome-eq, outcome}
use ece344_operating_systems.Threads.Invariant.Creates.Loop.{create_from-First}
use ece344_operating_systems.Threads.Exit.{thread_kill, kill_slot, thread_awaken}
use ece344_operating_systems.Threads.Create.{thread_create, create_from}
use ece344_operating_systems.Threads.Runs.Good.{Good}

kill_refused :
    (n : ℕ) (s : State)
    → leb thread_max_threads n || (n == s.current) || is_uninitialized (state_of s n) ≡ true
    → thread_kill (id n) s ≡ returned thread_invalid s
unfolding thread_kill kill_slot
kill_refused n s h = ground arith

-- A sleeper that has waited for no thread.
kill_unwaited :
    (tid : ℕ) (s : State)
    → tid < thread_max_threads
    → tid ≢ s.current
    → is_sleep (state_of s tid) ≡ true
    → (s.slots tid).waiting_on ≡ none
    → thread_kill (id tid) s ≡ fault
unfolding thread_kill kill_slot thread_awaken
kill_unwaited tid s lt ne st on = ground arith

-- A sleeper that is in no queue of the thread that it has waited for.
kill_unqueued :
    (n w : ℕ) (s : State)
    → n < thread_max_threads
    → n ≢ s.current
    → is_sleep (state_of s n) ≡ true
    → (s.slots n).waiting_on ≡ some w
    → ((s.queues (s.slots w).wq ≡ none)
        ⊎ ((q : List ℕ) × (s.queues (s.slots w).wq ≡ some q) × (mem n q ≡ false)))
    → thread_kill (id n) s ≡ fault
unfolding thread_kill kill_slot thread_awaken dequeue_element
kill_unqueued n w s lt ne st on (inl e) = ground arith
kill_unqueued n w s lt ne st on (inr (q, e, out)) = ground arith

-- A thread that sleeps in a queue that is no thread's own, as that of a lock or of a condition
-- variable is, cannot be killed: whichever thread it waits on or has waited on before, if any,
-- `thread_kill` reads the array of threads at -1, or looks for it in a queue that it is not in, and
-- fails.
pub thread_kill-fault :
    (tid a : ℕ) (q : List ℕ) (s : State)
    → Inv s
    → tid ≢ s.current
    → s.queues a ≡ some q
    → mem tid q ≡ true
    → ((i : ℕ) → (s.slots i).wq ≢ a)
    → thread_kill (id tid) s ≡ fault
thread_kill-fault tid a q s v ne e m apart =
    let there : waits tid (s.queues a) ≡ true = rw e m in
    let (lt, st) = v.core.asleep a tid there in
    elim (Option-cases ((s.slots tid).waiting_on)) [
      | inl on ↦ kill_unwaited tid s lt ne st on
      | inr (w, on) ↦ elim (Option-cases (s.queues (s.slots w).wq)) [
        | inl e' ↦ kill_unqueued tid w s lt ne st on (inl e')
        | inr (q', e') ↦ elim (Bool-cases (mem tid q')) [
          | inl m' ↦
              let here : waits tid (s.queues (s.slots w).wq) ≡ true = rw e' m' in
              absurd (apart w (v.core.one_place (s.slots w).wq a tid here there))
          | inr out ↦ kill_unqueued tid w s lt ne st on (inr (q', e', out))
        ]
      ]
    ]

kill_sleeper :
    (n : ℕ) (s : State)
    → Inv s
    → n < thread_max_threads
    → n ≢ s.current
    → is_sleep (state_of s n) ≡ true
    → Good (thread_kill (id n) s)
kill_sleeper n s v lt ne st = elim (Option-cases ((s.slots n).waiting_on)) [
  | inl on ↦ rw (kill_unwaited n s lt ne st on) refl
  | inr (w, on) ↦ elim (Option-cases (s.queues (s.slots w).wq)) [
    | inl e ↦ rw (kill_unqueued n w s lt ne st on (inl e)) refl
    | inr (q, e) ↦ elim (Bool-cases (mem n q)) [
      | inl m ↦ let (r, v') = thread_kill-asleep n w q s v lt ne on e m in rw r v'
      | inr out ↦ rw (kill_unqueued n w s lt ne st on (inr (q, e, out))) refl
    ]
  ]
]

kill_id-Good : (n : ℕ) (s : State) → Inv s → Good (thread_kill (id n) s)
kill_id-Good n s v =
    elim (Bool-cases
      (leb thread_max_threads n || (n == s.current) || is_uninitialized (state_of s n))) [
        | inl refused ↦ rw (kill_refused n s refused) v
        | inr may ↦
            let lt : n < thread_max_threads = ground (arith, may) in
            let ne : n ≢ s.current = ground (arith, may) in
            let used : is_uninitialized (state_of s n) ≡ false = ground (arith, may) in
            elim (Bool-cases (is_sleep (state_of s n))) [
              | inl st ↦ kill_sleeper n s v lt ne st
              | inr up ↦ let (r, v') = thread_kill-awake n s v lt ne used up in rw r v'
            ]
      ]

kill-otherwise :
    (want : Tid) (s : State)
    → ((n : ℕ) × (want ≡ id n)) ⊎ (thread_kill want s ≡ returned thread_invalid s)
unfolding thread_kill
kill-otherwise (id n) s = inl (n, refl)
kill-otherwise _ s = inr refl

pub kill-Good : (want : Tid) (s : State) → Inv s → Good (thread_kill want s)
kill-Good want s v = elim (kill-otherwise want s) [
  | inl (n, e) ↦ rw e (kill_id-Good n s v)
  | inr e ↦ rw e v
]

-- No slot is free.
create_full :
    (fn arg sp : ℕ) (s : State)
    → leb thread_max_threads s.nums ≡ false
    → create_from thread_max_threads 0 fn arg sp (interrupts s false)
      ≡ some (thread_nomore, interrupts s false)
    → thread_create fn arg sp s ≡ returned thread_nomore s
create_full fn arg sp s room e =
    outcome-eq fn arg sp s
    ∙ ap
        (λ (b : Bool).
          outcome b s (create_from thread_max_threads 0 fn arg sp (interrupts s false)))
        room
    ∙ ap (outcome false s) e

create_many :
    (fn arg sp : ℕ) (s : State)
    → leb thread_max_threads s.nums ≡ true
    → thread_create fn arg sp s ≡ returned thread_nomore s
create_many fn arg sp s full =
    outcome-eq fn arg sp s
    ∙ ap
        (λ (b : Bool).
          outcome b s (create_from thread_max_threads 0 fn arg sp (interrupts s false)))
        full

pub create-Good :
    (fn arg sp : ℕ) (s : State)
    → Inv s
    → sp ≢ 0
    → s.stacks sp ≡ false
    → Good (thread_create fn arg sp s)
create-Good fn arg sp s v nz unused = elim (Bool-cases (leb thread_max_threads s.nums)) [
  | inl full ↦ rw (create_many fn arg sp s full) v
  | inr room ↦ elim (create_from-First thread_max_threads 0 fn arg sp (interrupts s false)) [
    | inl (busy, e) ↦ rw (create_full fn arg sp s room e) v
    | inr (k, ge, lt, free, before, e) ↦
        let (r, v') =
          thread_create-created fn arg sp k s v (ground (arith, room)) nz unused (omega arith) free
            (λ j l. before j (omega arith) l) in
        rw r v'
  ]
]
