-- ===== src/Threads/Invariant/Kill.antt =====
-- `thread_kill`.
use mathlib.Core.Path.{fun_ext}
use ece344_operating_systems.Threads.State.{
  State, set_slot, set_queue, id, Thread, set_state, assign_self,
}
use ece344_operating_systems.Threads.Invariant.{
  Core, Inv, InUse, ℕ, is_sleep, List, ◌<◌, killed, state_of, thread_max_threads, is_uninitialized,
  nodup, waits, returned,
}
use ece344_operating_systems.Threads.Exit.{thread_kill, thread_awaken}
use ece344_operating_systems.Base.{
  ◌<◌, ◌≡◌, pos, false, some, ◌≢◌, ◌++◌, true, arith, ◌∷◌, ◌==◌, [], ◌+◌, length-append, ◌∙◌, ap,
  leb,
}
use ece344_operating_systems.Threads.Fifo.{erase, mem}
use ece344_operating_systems.Threads.Fifo.Laws.{
  mem-append_one, mem-erase_self, mem-erase, nodup-append_one, nodup-erase,
}

abbrev pub as_killed : ℕ → State → State
as_killed tid s = set_slot s tid (record (s.slots tid) { state = killed; exit_code = pos 9 })

-- A thread that neither sleeps nor is without a slot may become KILLED.
Core-killed :
    (tid : ℕ) (s : State)
    → Core s
    → is_sleep (state_of s tid) ≡ false
    → is_uninitialized (state_of s tid) ≡ false
    → Core (as_killed tid s)
Core-killed tid s c up used = record {
  here = c.here;
  line = λ k m. ground (arith, c.line k m);
  once = c.once;
  apart = c.apart;
  asleep = λ b k w. ground (arith, c.asleep b k w);
  one_place = c.one_place;
  once_each = c.once_each;
  own_wq = λ j u. ground (arith, c.own_wq j);
  own_stack = λ j u h. ground (arith, c.own_stack j);
  wq_apart = λ j k u w h. ground (arith, c.wq_apart j k);
  stack_apart = λ j k u w h g. ground (arith, c.stack_apart j k);
  fresh = c.fresh;
  null_free = c.null_free;
  next_pos = c.next_pos;
}

-- A sleeping thread is moved from the queue `a`, which holds `q`, to the ready queue.
abbrev pub moved : ℕ → ℕ → List ℕ → State → State
moved tid a q s = record (set_queue (as_killed tid s) a (erase tid q)) {
  r_q = s.r_q ++ tid ∷ [];
  nums = s.nums + 1;
}

module _ (tid a : ℕ) (q : List ℕ) (s : State) (c : Core s) (e : s.queues a ≡ some q)
    (m : mem tid q ≡ true) (lt : tid < thread_max_threads) (ne : (tid == s.current) ≡ false) where
  sleeps : is_sleep (state_of s tid) ≡ true
  sleeps = ground (arith, c.asleep a tid)

  not_ready : mem tid s.r_q ≡ false
  not_ready = ground (arith, sleeps, c.line tid)

  once_q : nodup q ≡ true
  once_q = ground (arith, c.once_each a)

  gone : (b : ℕ) → waits tid ((moved tid a q s).queues b) ≡ false
  gone b = ground (arith, c.one_place a b tid, mem-erase_self tid q once_q)

  before : (b k : ℕ) → waits k ((moved tid a q s).queues b) ≡ true → waits k (s.queues b) ≡ true
  before b k w = ground (arith, mem-erase k tid q)

  used_before : (j : ℕ) → InUse (moved tid a q s) j → InUse s j
  used_before j u = ground (arith, sleeps)

  Core-moved : Core (moved tid a q s)
  Core-moved = record {
    here = c.here;
    line = λ k w. ground (arith, c.line k, mem-append_one k tid s.r_q);
    once = nodup-append_one tid s.r_q c.once not_ready;
    apart = ground (arith, mem-append_one s.current tid s.r_q, c.apart);
    asleep = λ b k w. ground (arith, c.asleep b k (before b k w), gone b);
    one_place = λ b d k w x. c.one_place b d k (before b k w) (before d k x);
    once_each = λ b. ground (arith, c.once_each b, nodup-erase tid q once_q);
    own_wq = λ j u. ground (arith, c.own_wq j (used_before j u));
    own_stack = λ j u h. ground (arith, c.own_stack j (used_before j u));
    wq_apart = λ j k u w h. ground (arith, c.wq_apart j k (used_before j u) (used_before k w));
    stack_apart =
        λ j k u w h g. ground (arith, c.stack_apart j k (used_before j u) (used_before k w));
    fresh = λ b h. ground (arith, c.fresh b h);
    null_free = ground (arith, c.null_free);
    next_pos = c.next_pos;
  }

-- On a thread that can be killed and does not sleep, `thread_kill` marks it KILLED with exit code 9,
-- leaves it where it stands, changes nothing else, and returns its Tid; the invariant is kept.
pub thread_kill-awake :
    (tid : ℕ) (s : State)
    → Inv s
    → tid < thread_max_threads
    → tid ≢ s.current
    → is_uninitialized (state_of s tid) ≡ false
    → is_sleep (state_of s tid) ≡ false
    → (thread_kill (id tid) s ≡ returned (id tid) (as_killed tid s)) × Inv (as_killed tid s)
unfolding thread_kill
thread_kill-awake tid s v lt ne used up = (
  ground arith,
  record {
    core = Core-killed tid s v.core up used;
    active = ground (arith, v.active);
    count = v.count;
  },
)

-- The slot is written three times on the way.
abbrev thrice : ℕ → State → ℕ → Thread
thrice tid s = (as_killed tid (set_state (set_state s tid killed) tid killed)).slots

killed_once : (tid : ℕ) (s : State) → thrice tid s ≡ (as_killed tid s).slots
killed_once tid s = fun_ext λ j. ground arith

awaken_runs :
    (tid w a : ℕ) (q : List ℕ) (s : State)
    → (s.slots tid).waiting_on ≡ some w
    → (s.slots w).wq ≡ a
    → s.queues a ≡ some q
    → mem tid q ≡ true
    → let s' = set_state (set_queue s a (erase tid q)) tid killed in
      thread_awaken tid s ≡ some (record s' { r_q = s.r_q ++ tid ∷ []; nums = s.nums + 1 })
unfolding thread_awaken
awaken_runs tid w a q s on at e m = cc

kill_runs :
    (tid w : ℕ) (q : List ℕ) (s : State)
    → tid < thread_max_threads
    → tid ≢ s.current
    → (s.slots tid).waiting_on ≡ some w
    → s.queues (s.slots w).wq ≡ some q
    → mem tid q ≡ true
    → is_sleep (state_of s tid) ≡ true
    → thread_kill (id tid) s
      ≡ returned (id tid) (record (moved tid (s.slots w).wq q s) { slots = thrice tid s })
unfolding thread_kill
kill_runs tid w q s lt ne on e m st =
    let s1 = set_state s tid killed in
    let waits_on : (s1.slots tid).waiting_on ≡ some w =
      ap (λ (x : Thread). x.waiting_on) (assign_self s.slots tid _) ∙ on in
    let at : (s1.slots w).wq ≡ (s.slots w).wq = ground arith in
    let range : leb thread_max_threads tid ≡ false = ground arith in
    let other : (tid == s.current) ≡ false = ground arith in
    let used : is_uninitialized (state_of s tid) ≡ false = ground arith in
    rw (range, other, used, st, awaken_runs tid w (s.slots w).wq q s1 waits_on at e m)

-- A thread that sleeps in the wait queue of the thread that it waits on is taken out of that queue,
-- marked KILLED with exit code 9, and made ready behind the others; the invariant is kept.
pub thread_kill-asleep :
    (tid w : ℕ) (q : List ℕ) (s : State)
    → Inv s
    → tid < thread_max_threads
    → tid ≢ s.current
    → (s.slots tid).waiting_on ≡ some w
    → s.queues (s.slots w).wq ≡ some q
    → mem tid q ≡ true
    → (thread_kill (id tid) s ≡ returned (id tid) (moved tid (s.slots w).wq q s))
      × Inv (moved tid (s.slots w).wq q s)
unfolding thread_kill
thread_kill-asleep tid w q s v lt ne on e m =
    let st = sleeps tid (s.slots w).wq q s v.core e m lt (ground arith) in
    (
      kill_runs tid w q s lt ne on e m st
          ∙ ap
              (λ (f : ℕ → Thread).
                returned (id tid) (record (moved tid (s.slots w).wq q s) { slots = f }))
              (killed_once tid s),
      record {
        core = Core-moved tid (s.slots w).wq q s v.core e m lt (ground arith);
        active = ground (arith, v.active, st);
        count = ground (arith, v.count, length-append s.r_q (tid ∷ []));
      },
    )
