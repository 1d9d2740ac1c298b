-- ===== src/Threads/Invariant/Reap.antt =====
-- The loop of `thread_yield` that frees exited threads keeps the invariant and does not fault.
use ece344_operating_systems.Base.{
  ℕ, ◌<◌, ◌≡◌, ◌≢◌, Bool, true, false, none, ◌==◌, arith, if◌then◌else◌, ◌∙◌, ap, refl, some, ◌+◌,
  Bool-cases, not, ◌≤◌, ◌&&◌, inl, suc, inr, sym, zero,
}
use ece344_operating_systems.Threads.State.{
  thread_max_threads, is_exited, uninitialized, State, assign, set_state, state_of, Thread,
}
use ece344_operating_systems.Threads.Invariant.{is_there, InUse, Core}
use ece344_operating_systems.Threads.Yield.{reap_slot, reap_from}

abbrev freed : ℕ → (ℕ → Bool) → ℕ → Bool
freed p f = if p == 0 then f else assign f p false

abbrev reaped : ℕ → State → State
reaped i s = record (set_state s i uninitialized) {
  stacks = freed (s.slots i).stack_ptr s.stacks;
  queues = assign s.queues (s.slots i).wq none;
}

module _ (i : ℕ) (s : State) (c : Core s) (lt : i < thread_max_threads)
    (ne : (i == s.current) ≡ false) (ex : is_exited (state_of s i) ≡ true) where
  used : InUse s i
  used = ground arith

  still : (j : ℕ) → InUse (reaped i s) j → InUse s j × (j ≢ i)
  still j u = ground arith

  wq_kept :
      (j : ℕ)
      → InUse (reaped i s) j
      → is_there ((reaped i s).queues ((reaped i s).slots j).wq) ≡ true
  wq_kept j u = let (v, jn) = still j u in ground (arith, c.own_wq j v, c.wq_apart j i v used)

  stack_kept :
      (j : ℕ)
      → InUse (reaped i s) j
      → ((reaped i s).slots j).stack_ptr ≢ 0
      → (reaped i s).stacks ((reaped i s).slots j).stack_ptr ≡ true
  stack_kept j u h =
      let (v, jn) = still j u in ground (arith, c.own_stack j v, c.stack_apart j i v used)

  reaped-Core : Core (reaped i s)
  reaped-Core = record {
    here = c.here;
    line = λ t m. ground (arith, c.line t m);
    once = c.once;
    apart = c.apart;
    asleep = λ a t w. ground (arith, c.asleep a t);
    one_place = λ a b t v w. ground (arith, c.one_place a b t);
    once_each = λ a. ground (arith, c.once_each a);
    own_wq = wq_kept;
    own_stack = stack_kept;
    wq_apart = λ j k u v e.
        let (u', un) = still j u in
        let (v', vn) = still k v in ground (arith, c.wq_apart j k u' v');
    stack_apart = λ j k u v h e.
        let (u', un) = still j u in
        let (v', vn) = still k v in ground (arith, c.stack_apart j k u' v');
    fresh = λ a h. ground (arith, c.fresh a h);
    null_free = ground (arith, c.null_free);
    next_pos = c.next_pos;
  }

-- What the loop leaves alone: all but the slots of exited threads and what those own.
pub record Kept (s s' : State) : Type 0 where
  pub current : s'.current ≡ s.current
  pub nums : s'.nums ≡ s.nums
  pub r_q : s'.r_q ≡ s.r_q
  pub enabled : s'.enabled ≡ s.enabled
  pub next_ptr : s'.next_ptr ≡ s.next_ptr
  pub locks : s'.locks ≡ s.locks
  pub cvs : s'.cvs ≡ s.cvs
  pub slot : (j : ℕ) → is_exited (state_of s j) ≡ false → s'.slots j ≡ s.slots j
  pub own_slot : s'.slots s.current ≡ s.slots s.current

Kept-refl : (s : State) → Kept s s
Kept-refl s = record {
  current = refl;
  nums = refl;
  r_q = refl;
  enabled = refl;
  next_ptr = refl;
  locks = refl;
  cvs = refl;
  slot = λ j h. refl;
  own_slot = refl;
}

-- The slot is no longer that of an exited thread, unless it is the current one.
abbrev pub Cleared : State → ℕ → Type 0
Cleared s i = (i ≢ s.current) → is_exited (state_of s i) ≡ false

reap_slot-Cleared :
    (i : ℕ) (s : State)
    → Core s
    → i < thread_max_threads
    → (s' : State) × (reap_slot i s ≡ some s')
      × Core s'
      × Kept s s'
      × Cleared s' i
      × ((j : ℕ) → is_exited (state_of s j) ≡ false → is_exited (state_of s' j) ≡ false)
unfolding reap_slot
reap_slot-Cleared i s c lt = elim (Bool-cases (not (i == s.current) && is_exited (state_of s i))) [
  | inl dead ↦
      let ne : (i == s.current) ≡ false = ground arith in
      let ex : is_exited (state_of s i) ≡ true = ground arith in
      (
        reaped i s,
        ground (arith, c.own_stack i, c.own_wq i),
        reaped-Core i s c lt ne ex,
        record {
          current = refl;
          nums = refl;
          r_q = refl;
          enabled = refl;
          next_ptr = refl;
          locks = refl;
          cvs = refl;
          slot = λ j h. ground arith;
          own_slot = ground arith;
        },
        ground arith,
        λ j h. ground arith,
      )
  | inr alive ↦ (s, rw alive, c, Kept-refl s, ground arith, λ j h. h)
]

Kept-trans : {s t u : State} → Kept s t → Kept t u → Kept s u
Kept-trans {s} {t} {u} k l = record {
  current = l.current ∙ k.current;
  nums = l.nums ∙ k.nums;
  r_q = l.r_q ∙ k.r_q;
  enabled = l.enabled ∙ k.enabled;
  next_ptr = l.next_ptr ∙ k.next_ptr;
  locks = l.locks ∙ k.locks;
  cvs = l.cvs ∙ k.cvs;
  slot = λ j h. l.slot j (ap (λ (x : Thread). is_exited x.state) (k.slot j h) ∙ h) ∙ k.slot j h;
  own_slot = ground (arith, l.own_slot, k.own_slot, k.current);
}

-- The loop that frees exited threads does not fault, wherever it stands: it keeps what the
-- invariant says of queues and slots, the ready queue and each slot that is not an exited thread's;
-- and behind it no slot that it has passed is an exited thread's, but for the current one.
pub reap_from-Cleared :
    (n i : ℕ) (s : State)
    → Core s
    → i + n ≤ thread_max_threads
    → (s' : State) × (reap_from n i s ≡ some s')
      × Core s'
      × Kept s s'
      × ((j : ℕ) → i ≤ j → j < i + n → Cleared s' j)
      × ((j : ℕ) → is_exited (state_of s j) ≡ false → is_exited (state_of s' j) ≡ false)
unfolding reap_from
reap_from-Cleared zero i s c l = (s, refl, c, Kept-refl s, λ j a b. absurd (omega arith), λ j h. h)
reap_from-Cleared (suc n) i s c l =
    let (t, runs, ct, kt, at, still) = reap_slot-Cleared i s c (omega arith) in
    let (u, rest, cu, ku, after, still') = reap_from-Cleared n (i + 1) t ct (omega arith) in
    (
      u,
      rw runs rest,
      cu,
      Kept-trans kt ku,
      λ j a b ne. elim (Bool-cases (j == i)) [
        | inl e ↦
            let same : j ≡ i = ground arith in
            still' j (rw same (at (λ k. ne (same ∙ k ∙ sym ku.current))))
        | inr e ↦ after j (ground arith) (omega arith) ne
      ],
      λ j h. still' j (still j h),
    )
