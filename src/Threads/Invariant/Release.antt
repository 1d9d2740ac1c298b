-- ===== src/Threads/Invariant/Release.antt =====
-- `lock_release` and the condition variables.
use ece344_operating_systems.Threads.State.{State, Lock}
use ece344_operating_systems.Threads.Invariant.{
  ℕ, Inv, List, false, ◌≢◌, finished, is_sleep, state_of,
}
use ece344_operating_systems.Threads.Lock.{release, lock_release, set_lock}
use ece344_operating_systems.Base.{◌≢◌, some, ◌≡◌, [], arith, ◌==◌}
use ece344_operating_systems.Threads.Invariant.Wakeup.{Woken, thread_wakeup-Woken, Woken-Inv}

-- The lock, free again; the releasing thread stays on record as its holder.
abbrev pub freed : ℕ → Lock → State → State
freed l k s = set_lock s l (record k { held = false; holder = some s.current })

freed-Inv : (l : ℕ) (k : Lock) (s : State) → Inv s → Inv (freed l k s)
freed-Inv l k s v =
    let c = v.core in
    record {
      core = record {
        here = c.here;
        line = c.line;
        once = c.once;
        apart = c.apart;
        asleep = c.asleep;
        one_place = c.one_place;
        once_each = c.once_each;
        own_wq = c.own_wq;
        own_stack = c.own_stack;
        wq_apart = c.wq_apart;
        stack_apart = c.stack_apart;
        fresh = c.fresh;
        null_free = c.null_free;
        next_pos = c.next_pos;
      };
      active = v.active;
      count = v.count;
    }

pub release-Woken :
    (l : ℕ) (k : Lock) (q : List ℕ) (s : State)
    → Inv s
    → s.locks l ≡ some k
    → s.queues k.wq ≡ some q
    → (s' : State) × (release l s ≡ some s') × Woken k.wq q [] (freed l k s) s' × Inv s'
unfolding release
release-Woken l k q s v at e =
    let v1 = freed-Inv l k s v in
    let up : is_sleep (state_of s s.current) ≡ false = ground (arith, v.active) in
    let (s', runs, w) = thread_wakeup-Woken k.wq q (freed l k s) v1.core up e in
    (s', rw (release, at, runs), w, Woken-Inv k.wq q [] (freed l k s) s' v1 w)

-- `lock_release` of a lock whose queue is there does not fault: the lock is free, every thread
-- that waited for it is ready, in order and behind the others, the queue is empty, and the
-- invariant is kept. Whether the caller holds the lock is not a condition.
pub lock_release-Woken :
    (l : ℕ) (k : Lock) (q : List ℕ) (s : State)
    → Inv s
    → l ≢ 0
    → s.locks l ≡ some k
    → s.queues k.wq ≡ some q
    → (s' : State) × (lock_release l s ≡ finished s') × Woken k.wq q [] (freed l k s) s' × Inv s'
unfolding lock_release
lock_release-Woken l k q s v ne at e =
    let (s', runs, w, v') = release-Woken l k q s v at e in
    let there : (l == 0) ≡ false = ground arith in (s', rw (lock_release, there, runs), w, v')
