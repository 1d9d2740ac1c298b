-- ===== src/Threads/Invariant/Switch.antt =====
-- The switch in `thread_yield` keeps the invariant, and does not fault.
use ece344_operating_systems.Base.{
  ℕ, suc, ◌≡◌, ◌<◌, arith, true, false, length, ◌≢◌, ◌++◌, Bool-cases, length-append, ◌∷◌, [], inl,
  inr, if◌then◌else◌,
}
use ece344_operating_systems.Threads.State.{
  State, Thread, set_slot, set_state, is_running, is_killed,
}
use ece344_operating_systems.Threads.Invariant.{
  Core, Inv, state_of, thread_max_threads, is_queued, running, ready, is_leaving,
}
use ece344_operating_systems.Threads.Fifo.{erase, mem}
use ece344_operating_systems.Threads.Fifo.Laws.{
  mem-erase, nodup-erase, mem-erase-false, mem-append_one, nodup-append_one,
}
use ece344_operating_systems.Threads.Yield.{requeue_current}

-- A slot may change in what the invariant does not speak of.
pub Core-slot :
    (s : State) (i : ℕ) (t : Thread)
    → Core s
    → t.state ≡ state_of s i
    → t.stack_ptr ≡ (s.slots i).stack_ptr
    → t.wq ≡ (s.slots i).wq
    → Core (set_slot s i t)
Core-slot s i t c st sp wq = record {
  here = c.here;
  line = λ k m. ground (arith, c.line k m);
  once = c.once;
  apart = c.apart;
  asleep = λ a k w. ground (arith, c.asleep a k w);
  one_place = c.one_place;
  once_each = c.once_each;
  own_wq = λ j u. ground (arith, c.own_wq j);
  own_stack = λ j u h. ground (arith, c.own_stack j);
  wq_apart = λ j k u v e. ground (arith, c.wq_apart j k);
  stack_apart = λ j k u v h e. ground (arith, c.stack_apart j k);
  fresh = c.fresh;
  null_free = c.null_free;
  next_pos = c.next_pos;
}

-- The ready queue without one of its threads.
pub Core-dequeue : (s : State) (t : ℕ) → Core s → Core (record s { r_q = erase t s.r_q })
Core-dequeue s t c = record {
  here = c.here;
  line = λ k m. c.line k (mem-erase k t s.r_q m);
  once = nodup-erase t s.r_q c.once;
  apart = mem-erase-false s.current t s.r_q c.apart;
  asleep = c.asleep;
  one_place = c.one_place;
  once_each = c.once_each;
  own_wq = c.own_wq;
  own_stack = c.own_stack;
  wq_apart = c.wq_apart;
  stack_apart = c.stack_apart;
  fresh = c.fresh;
  null_free = c.null_free;
  next_pos = c.next_pos;
}

-- A thread that is to run goes to the current place.
module _ (s : State) (t : ℕ) (c : Core s) (lt : t < thread_max_threads)
    (q : is_queued (state_of s t) ≡ true) (out : mem t s.r_q ≡ false) where
  pub Core-run : Core (record (set_state s t running) { current = t })
  Core-run = record {
    here = lt;
    line = λ k m. ground (arith, c.line k m);
    once = c.once;
    apart = out;
    asleep = λ a k w. ground (arith, c.asleep a k w);
    one_place = c.one_place;
    once_each = c.once_each;
    own_wq = λ j u. ground (arith, c.own_wq j);
    own_stack = λ j u h. ground (arith, c.own_stack j);
    wq_apart = λ j k u v e. ground (arith, c.wq_apart j k);
    stack_apart = λ j k u v h e. ground (arith, c.stack_apart j k);
    fresh = c.fresh;
    null_free = c.null_free;
    next_pos = c.next_pos;
  }

  pub Core-run_killed : Core (record s { current = t })
  Core-run_killed = record {
    here = lt;
    line = c.line;
    once = c.once;
    apart = out;
    asleep = c.asleep;
    one_place = c.one_place;
    once_each = c.once_each;
    own_wq = c.own_wq;
    own_stack = c.own_stack;
    wq_apart = c.wq_apart;
    stack_apart = c.stack_apart;
    fresh = c.fresh;
    null_free = c.null_free;
    next_pos = c.next_pos;
  }

abbrev requeued : State → State
requeued s = record (set_state s s.current ready) { r_q = s.r_q ++ s.current ∷ [] }

module _ (s : State) (t : ℕ) (c : Core s) (lt : t < thread_max_threads) (ne : t ≢ s.current)
    (run : is_running (state_of s s.current) ≡ true) (out : mem t s.r_q ≡ false) where
  Core-requeued : Core (record (requeued s) { current = t })
  Core-requeued = record {
    here = lt;
    line = λ k m. ground (arith, c.line k, c.here, mem-append_one k s.current s.r_q);
    once = nodup-append_one s.current s.r_q c.once c.apart;
    apart = ground (arith, mem-append_one t s.current s.r_q);
    asleep = λ a k w. ground (arith, c.asleep a k w);
    one_place = c.one_place;
    once_each = c.once_each;
    own_wq = λ j u. ground (arith, c.own_wq j);
    own_stack = λ j u h. ground (arith, c.own_stack j);
    wq_apart = λ j k u v e. ground (arith, c.wq_apart j k);
    stack_apart = λ j k u v h e. ground (arith, c.stack_apart j k);
    fresh = c.fresh;
    null_free = c.null_free;
    next_pos = c.next_pos;
  }

-- The end of `switch_to`, behind the loop that frees exited threads.
abbrev pub jump : ℕ → State → State
jump t queued =
    record (if is_killed (state_of queued t) then queued else set_state queued t running) {
      current = t;
    }

jumped :
    (s : State) (t : ℕ)
    → Core (record s { current = t })
    → is_queued (state_of s t) ≡ true
    → s.nums ≡ suc (length s.r_q)
    → Inv (jump t s)
jumped s t c q n =
    let here : State = record s { current = t } in
    elim (Bool-cases (is_killed (state_of s t))) [
      | inl k ↦ rw k (record { core = c; active = ground arith; count = n })
      | inr k ↦
          rw k
            (record { core = Core-run here t c c.here q c.apart; active = ground arith; count = n })
    ]

module _ (s : State) (t : ℕ) (c : Core s) (lt : t < thread_max_threads) (ne : t ≢ s.current)
    (q : is_queued (state_of s t) ≡ true) (out : mem t s.r_q ≡ false) where
  -- Left by a running thread, which goes to the ready queue.
  pub jump_running :
      is_running (state_of s s.current) ≡ true
      → s.nums ≡ suc (suc (length s.r_q))
      → Inv (jump t (requeue_current s))
  unfolding requeue_current
  jump_running run n =
      let e : requeue_current s ≡ requeued s = ground arith in
      let c' : Core (record (requeued s) { current = t }) = Core-requeued s t c lt ne run out in
      rw e (
        jumped (requeued s) t c' (ground arith)
          (ground (arith, length-append s.r_q (s.current ∷ []))))

  -- Left by a thread that sleeps or has exited.
  pub jump_leaving :
      is_leaving (state_of s s.current) ≡ true
      → s.nums ≡ suc (length s.r_q)
      → Inv (jump t (requeue_current s))
  unfolding requeue_current
  jump_leaving l n =
      let e : requeue_current s ≡ s = ground arith in
      rw e (jumped s t (Core-run_killed s t c lt q out) q n)
