-- ===== src/Threads/Runs/Good.antt =====
-- Each call keeps the invariant, however it ends and whatever its arguments.
use ece344_operating_systems.Base.{
  ℕ, ◌<◌, true, false, Option, none, some, List, [], ◌∷◌, ◌==◌, leb, ℤ, pos, ◌≡◌, ◌≢◌, ◌⊎◌, refl,
  arith, Bool-cases, Option-cases, inl, inr,
}
use ece344_operating_systems.Threads.State.{
  thread_max_threads, Tid, id, thread_any, thread_self, thread_invalid, thread_none, thread_nomore,
  thread_nomemory, thread_failed, below, State, Outcome, returned, finished, switched, exits, runs,
  process_exit, fault, is_killed, is_sleep, state_of,
}
use ece344_operating_systems.Threads.Invariant.{Inv}
use ece344_operating_systems.Threads.Invariant.Calls.{YieldAny}
use ece344_operating_systems.Threads.Invariant.Yields.{thread_yield-any, thread_yield-to}
use ece344_operating_systems.Threads.Invariant.Leave.{Sleeps, thread_sleep-Sleeps}
use ece344_operating_systems.Threads.Invariant.Exit.{thread_exit-Exits}
use ece344_operating_systems.Threads.Invariant.Wakeup.{
  Woken-Inv, thread_wakeup-Woken, thread_wakeup_one-Woken, thread_wakeup_one-empty,
}
use ece344_operating_systems.Threads.Yield.{thread_yield}
use ece344_operating_systems.Threads.Sleep.{thread_sleep, thread_wakeup}
use ece344_operating_systems.Threads.Exit.{thread_exit}

-- What a call leaves is in the invariant; a fault leaves nothing.
abbrev pub Good : Outcome → Type 0
Good (returned r s) = Inv s
Good (finished s) = Inv s
Good (switched s) = Inv s
Good (exits code s) = Inv s
Good (runs fn arg s) = Inv s
Good (process_exit s) = true ≡ true
Good fault = true ≡ true

any-Good : (s : State) (o : Outcome) → Inv s → YieldAny s o → Good o
any-Good s o v (inl (e, r)) = rw r v
any-Good s o v (inr (t, rest, s', e, r, sw)) = rw r sw.inv

to-Good :
    (n : ℕ) (s : State)
    → Inv s
    → is_killed (state_of s s.current) ≡ false
    → n < thread_max_threads
    → n ≢ s.current
    → Good (thread_yield (id n) s)
to-Good n s v alive lt ne = elim (thread_yield-to n s v alive lt ne) [
  | inl (out, r) ↦ rw r v
  | inr (s', m, r, sw) ↦ rw r sw.inv
]

killed_exits :
    (want : Tid) (s : State)
    → is_killed (state_of s s.current) ≡ true
    → thread_yield want s ≡ exits (pos 0) s
unfolding thread_yield
killed_exits want s k = rw (thread_yield, k) refl

other_returns :
    (want : Tid) (s : State)
    → is_killed (state_of s s.current) ≡ false
    → ((r : Tid) × (thread_yield want s ≡ returned r s))
      ⊎ (want ≡ thread_any)
      ⊎ ((n : ℕ) × (want ≡ id n) × (n < thread_max_threads) × (n ≢ s.current))
unfolding thread_yield
other_returns (id n) s k = elim (Bool-cases (leb thread_max_threads n)) [
  | inl big ↦ inl (thread_invalid, rw (thread_yield, k, big) refl)
  | inr small ↦ elim (Bool-cases (n == s.current)) [
    | inl self ↦ inl (id s.current, rw (thread_yield, k, small, self) refl)
    | inr other ↦ inr (inr (n, refl, ground (arith, small), ground (arith, other)))
  ]
]
other_returns thread_any s k = inr (inl refl)
other_returns thread_self s k = inl (id s.current, rw (thread_yield, k) refl)
other_returns thread_invalid s k = inl (thread_invalid, rw (thread_yield, k) refl)
other_returns thread_none s k = inl (thread_invalid, rw (thread_yield, k) refl)
other_returns thread_nomore s k = inl (thread_invalid, rw (thread_yield, k) refl)
other_returns thread_nomemory s k = inl (thread_invalid, rw (thread_yield, k) refl)
other_returns thread_failed s k = inl (thread_invalid, rw (thread_yield, k) refl)
other_returns (below n) s k = inl (thread_invalid, rw (thread_yield, k) refl)

pub yield-Good : (want : Tid) (s : State) → Inv s → Good (thread_yield want s)
yield-Good want s v = elim (Bool-cases (is_killed (state_of s s.current))) [
  | inl k ↦ rw (killed_exits want s k) v
  | inr alive ↦ elim (other_returns want s alive) [
    | inl (r, e) ↦ rw e v
    | inr (inl any) ↦ rw any (any-Good s (thread_yield thread_any s) v (thread_yield-any s v alive))
    | inr (inr (n, e, lt, ne)) ↦ rw e (to-Good n s v alive lt ne)
  ]
]

pub exit-Good : (code : ℤ) (s : State) → Inv s → Good (thread_exit code s)
exit-Good code s v =
    let (q, s3, e, l, x, leaves) = thread_exit-Exits code s v in
    elim leaves [ inl (none_left, r) ↦ rw r refl | inr (t, rest, s', e', r, sw) ↦ rw r sw.inv ]

pub Sleeps-Good : (a : ℕ) (q : List ℕ) (s : State) (o : Outcome) → Inv s → Sleeps a q s o → Good o
Sleeps-Good a q s o v (inl (e, r)) = rw r v
Sleeps-Good a q s o v (inr (t, rest, s', e, r, sw)) = rw r sw.inv

-- A queue that is not there.
sleep_nowhere : (a : ℕ) (s : State) → s.queues a ≡ none → Inv s → Good (thread_sleep a s)
unfolding thread_sleep
sleep_nowhere a s e v = elim (Bool-cases (a == 0)) [
  | inl z ↦ rw (thread_sleep, z) v
  | inr p ↦ elim (Bool-cases (s.nums == 1)) [
    | inl one ↦ rw (thread_sleep, p, one) v
    | inr more ↦ rw (thread_sleep, p, more, e) refl
  ]
]

pub sleep-Good : (a : ℕ) (s : State) → Inv s → Good (thread_sleep a s)
sleep-Good a s v = elim (Option-cases (s.queues a)) [
  | inl e ↦ sleep_nowhere a s e v
  | inr (q, e) ↦ Sleeps-Good a q s (thread_sleep a s) v (thread_sleep-Sleeps s a q v e)
]

-- What `thread_wakeup` leaves, where it does not read through a bad pointer.
abbrev pub Wakes : Option (ℕ × State) → Type 0
Wakes none = true ≡ true
Wakes (some r) = Inv (r.1)

wakeup_nowhere : (a all : ℕ) (s : State) → s.queues a ≡ none → Inv s → Wakes (thread_wakeup a all s)
unfolding thread_wakeup
wakeup_nowhere a all s e v = elim (Bool-cases (a == 0)) [
  | inl z ↦ rw (thread_wakeup, z) v
  | inr p ↦ rw (thread_wakeup, p, e) refl
]

wakeup_one :
    (a all : ℕ) (q : List ℕ) (s : State)
    → all ≢ 1
    → s.queues a ≡ some q
    → Inv s
    → is_sleep (state_of s s.current) ≡ false
    → Wakes (thread_wakeup a all s)
wakeup_one a all [] s ne e v up = rw (thread_wakeup_one-empty a all s v.core ne e) v
wakeup_one a all (t ∷ q) s ne e v up =
    let (s', r, w) = thread_wakeup_one-Woken a all t q s v.core up ne e in
    rw r (Woken-Inv a (t ∷ []) q s s' v w)

pub wakeup-Wakes : (a all : ℕ) (s : State) → Inv s → Wakes (thread_wakeup a all s)
wakeup-Wakes a all s v =
    let up : is_sleep (state_of s s.current) ≡ false = ground (arith, v.active) in
    elim (Option-cases (s.queues a)) [
      | inl e ↦ wakeup_nowhere a all s e v
      | inr (q, e) ↦ elim (Bool-cases (all == 1)) [
        | inl one ↦
            let same : all ≡ 1 = ground (arith, one) in
            let (s', r, w) = thread_wakeup-Woken a q s v.core up e in
            rw (same, r) (Woken-Inv a q [] s s' v w)
        | inr one ↦ wakeup_one a all q s (ground (arith, one)) e v up
      ]
    ]
