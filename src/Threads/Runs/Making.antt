-- ===== src/Threads/Runs/Making.antt =====
-- The calls that make and destroy queues, locks and condition variables.
use ece344_operating_systems.Base.{
  ℕ, ◌+◌, ◌==◌, Option, none, some, List, [], ◌∷◌, ◌≡◌, refl, arith, Bool-cases, Option-cases, inl,
  inr,
}
use ece344_operating_systems.Threads.State.{State, finished, assign, or_fault}
use ece344_operating_systems.Threads.Invariant.{Core, Inv}
use ece344_operating_systems.Threads.Invariant.Locks.{Inv-locks}
use ece344_operating_systems.Threads.Create.{wait_queue_create}
use ece344_operating_systems.Threads.Yield.{wait_queue_destroy}
use ece344_operating_systems.Threads.Lock.{lock_create, lock_destroy}
use ece344_operating_systems.Threads.Cv.{cv_create, cv_destroy, dropped}
use ece344_operating_systems.Threads.Runs.{NotOwn}
use ece344_operating_systems.Threads.Runs.Good.{Good}

-- An address that is taken.
abbrev next : ℕ → State → State
next n s = record s { next_ptr = s.next_ptr + n }

Core-next : (n : ℕ) (s : State) → Core s → Core (next n s)
Core-next n s c = record {
  here = c.here;
  line = c.line;
  once = c.once;
  apart = c.apart;
  asleep = c.asleep;
  one_place = c.one_place;
  once_each = c.once_each;
  own_wq = c.own_wq;
  own_stack = c.own_stack;
  wq_apart = c.wq_apart;
  stack_apart = c.stack_apart;
  fresh = λ a h. c.fresh a (omega (arith, h));
  null_free = c.null_free;
  next_pos = omega (arith, c.next_pos);
}

Inv-next : (n : ℕ) (s : State) → Inv s → Inv (next n s)
Inv-next n s v = record { core = Core-next n s v.core; active = v.active; count = v.count }

-- An empty queue at the next address.
Core-made : (s : State) → Core s → Core (wait_queue_create s).1
unfolding wait_queue_create
Core-made s c = record {
  here = c.here;
  line = c.line;
  once = c.once;
  apart = c.apart;
  asleep = λ b t w. ground (arith, c.asleep b t);
  one_place = λ b d t v w. ground (arith, c.one_place b d t);
  once_each = λ b. ground (arith, c.once_each b);
  own_wq = λ j u. ground (arith, c.own_wq j u);
  own_stack = c.own_stack;
  wq_apart = c.wq_apart;
  stack_apart = c.stack_apart;
  fresh = λ b h. ground (arith, c.fresh b (omega (arith, h)));
  null_free = ground (arith, c.null_free, c.next_pos);
  next_pos = omega (arith, c.next_pos);
}

Inv-made : (s : State) → Inv s → Inv (wait_queue_create s).1
unfolding wait_queue_create
Inv-made s v = record { core = Core-made s v.core; active = v.active; count = v.count }

Inv-cvs : (s : State) (f : ℕ → Option ℕ) → Inv s → Inv (record s { cvs = f })
Inv-cvs s f v =
    let c = v.core in
    record {
      core = record {
        here = c.here;
        line = c.line;
        once = c.once;
        apart = c.apart;
        asleep = c.asleep;
        one_place = c.one_place;
        once_each = c.once_each;
        own_wq = c.own_wq;
        own_stack = c.own_stack;
        wq_apart = c.wq_apart;
        stack_apart = c.stack_apart;
        fresh = c.fresh;
        null_free = c.null_free;
        next_pos = c.next_pos;
      };
      active = v.active;
      count = v.count;
    }

abbrev gone : ℕ → State → State
gone a s = record s { queues = assign s.queues a none }

Inv-gone : (a : ℕ) (s : State) → Inv s → NotOwn a s → Inv (gone a s)
Inv-gone a s v apart =
    let c = v.core in
    record {
      core = record {
        here = c.here;
        line = c.line;
        once = c.once;
        apart = c.apart;
        asleep = λ b t w. ground (arith, c.asleep b t);
        one_place = λ b d t x w. ground (arith, c.one_place b d t);
        once_each = λ b. ground (arith, c.once_each b);
        own_wq = λ j u. ground (arith, c.own_wq j u, apart j u);
        own_stack = c.own_stack;
        wq_apart = c.wq_apart;
        stack_apart = c.stack_apart;
        fresh = λ b h. ground (arith, c.fresh b h);
        null_free = ground (arith, c.null_free);
        next_pos = c.next_pos;
      };
      active = v.active;
      count = v.count;
    }

pub queue_create-Good : (s : State) → Inv s → Good (finished (wait_queue_create s).1)
queue_create-Good s v = Inv-made s v

pub queue_destroy-Good :
    (a : ℕ) (s : State) → Inv s → NotOwn a s → Good (or_fault (wait_queue_destroy a s) finished)
unfolding wait_queue_destroy
queue_destroy-Good a s v apart = elim (Option-cases (s.queues a)) [
  | inl e ↦ rw (wait_queue_destroy, e) refl
  | inr (q, e) ↦ rw (wait_queue_destroy, e) (Inv-gone a s v apart)
]

pub lock_create-Good : (s : State) → Inv s → Good (finished (lock_create s).1)
unfolding lock_create
lock_create-Good s v = Inv-locks _ _ (Inv-made (next 1 s) (Inv-next 1 s v))

pub lock_destroy-Good : (l : ℕ) (s : State) → Inv s → Good (lock_destroy l s)
unfolding lock_destroy
lock_destroy-Good l s v = elim (Bool-cases (l == 0)) [
  | inl z ↦ rw (lock_destroy, z) refl
  | inr p ↦ rw (lock_destroy, p) v
]

pub cv_create-Good : (s : State) → Inv s → Good (finished (cv_create s).1)
unfolding cv_create
cv_create-Good s v = Inv-cvs _ _ (Inv-made (next 1 s) (Inv-next 1 s v))

cv_dropped-Inv :
    (wq : ℕ) (q : List ℕ) (s : State) (f : ℕ → Option ℕ)
    → Inv s
    → NotOwn wq s
    → Inv (record s { queues = dropped wq q s; cvs = f })
cv_dropped-Inv wq [] s f v apart = Inv-cvs s f v
cv_dropped-Inv wq (t ∷ q) s f v apart = Inv-cvs (gone wq s) f (Inv-gone wq s v apart)

pub cv_destroy-Good :
    (cv : ℕ) (s : State)
    → Inv s
    → ((wq : ℕ) → s.cvs cv ≡ some wq → NotOwn wq s)
    → Good (cv_destroy cv s)
unfolding cv_destroy
cv_destroy-Good cv s v apart = elim (Bool-cases (cv == 0)) [
  | inl z ↦ rw (cv_destroy, z) refl
  | inr p ↦ elim (Option-cases (s.cvs cv)) [
    | inl e ↦ rw (cv_destroy, p, e) refl
    | inr (wq, e) ↦ elim (Bool-cases (wq == 0)) [
      | inl z ↦ rw (cv_destroy, p, e, z) v
      | inr n ↦ elim (Option-cases (s.queues wq)) [
        | inl none_there ↦ rw (cv_destroy, p, e, n, none_there) refl
        | inr (q, at) ↦ rw (cv_destroy, p, e, n, at) (cv_dropped-Inv wq q s _ v (apart wq e))
      ]
    ]
  ]
]
