-- ===== src/Threads/Runs/Fair.antt =====
-- Every ready thread runs in its turn.
use mathlib.Core.Path.{subst}
use mathlib.Core.List.{append_assoc}
use ece344_operating_systems.Base.{
  ℕ, zero, suc, Bool, true, false, ◌&&◌, ◌||◌, Option, none, some, List, [], ◌∷◌, ◌++◌, ◌==◌,
  if◌then◌else◌, ◌≡◌, ◌≢◌, refl, ap, ◌∙◌, sym, arith, Bool-cases, inl, inr, length,
}
use ece344_operating_systems.Threads.Fifo.{mem, erase}
use ece344_operating_systems.Threads.Fifo.Laws.{erase_head, mem-append_one}
use ece344_operating_systems.Threads.State.{
  thread_max_threads, Context, unset, stub, in_yield, ThreadState, ready, is_running, is_killed,
  is_exited, thread_any, State, Thread, state_of, interrupts, Outcome, returned, switched, runs,
}
use ece344_operating_systems.Threads.Invariant.{Inv}
use ece344_operating_systems.Threads.Invariant.Calls.{taken, Core-interrupts}
use ece344_operating_systems.Threads.Invariant.Yield.{SwitchedTo}
use ece344_operating_systems.Threads.Invariant.Yields.{thread_yield-any}
use ece344_operating_systems.Threads.Invariant.Reap.{reap_from-Cleared}
use ece344_operating_systems.Threads.Yield.{thread_yield, resume}
use ece344_operating_systems.Threads.Invariant.Exit.{Inv-interrupts}

-- Where a thread goes on that was jumped to.
abbrev pub landed : Outcome → Option State
landed (returned r s) = some s
landed (runs fn arg s) = some s
landed _ = none

abbrev pub turned : Outcome → Option State
turned (switched s) = landed (resume s)
turned _ = none

-- The current thread calls `thread_yield(THREAD_ANY)`, and another goes on.
abbrev pub turn : State → Option State
turn s = turned (thread_yield thread_any s)

-- So many turns.
abbrev pub turns : ℕ → State → Option State
turns zero s = some s
turns (suc n) s = elim (turn s) [ none ↦ none | some s' ↦ turns n s' ]

abbrev pub is_ready : ThreadState → Bool
is_ready ready = true
is_ready _ = false

abbrev pub is_set : Context → Bool
is_set unset = false
is_set _ = true

-- The current thread runs, and those in the ready queue are ready and can be jumped to: nobody has
-- been killed.
pub record Calm (s : State) : Type 0 where
  pub run : is_running (state_of s s.current) ≡ true
  pub line :
      (t : ℕ) → mem t s.r_q ≡ true → is_ready (state_of s t) && is_set (s.slots t).context ≡ true

-- A turn to the thread `t`, with `rest` behind it.
pub record TurnedTo (t : ℕ) (rest : List ℕ) (s s' : State) : Type 0 where
  pub inv : Inv s'
  pub calm : Calm s'
  pub current : s'.current ≡ t
  pub r_q : s'.r_q ≡ rest ++ s.current ∷ []

-- What landing keeps.
pub record Lands (s s' : State) : Type 0 where
  pub inv : Inv s'
  pub current : s'.current ≡ s.current
  pub r_q : s'.r_q ≡ s.r_q
  pub slots : (j : ℕ) → is_exited (state_of s j) ≡ false → s'.slots j ≡ s.slots j

land_stub :
    (fn arg sp : ℕ) (s : State)
    → (s.slots s.current).context ≡ stub fn arg sp
    → landed (resume s) ≡ some (interrupts s true)
unfolding resume
land_stub fn arg sp s e = rw (resume, e) refl

land_back :
    (enable : Bool) (t : ℕ) (s : State) (v : Inv s)
    → (s.slots s.current).context ≡ in_yield enable t
    → (s' : State) × (landed (resume s) ≡ some s') × Lands s s'
unfolding resume
land_back enable t s v e =
    let (u, reaps, cu, k, cleared, still) =
      reap_from-Cleared thread_max_threads 0 s v.core (omega arith) in
    (
      interrupts u enable,
      rw (resume, e, reaps) refl,
      record {
        inv = record {
          core = Core-interrupts u enable cu;
          active = ground (arith, k.current, k.own_slot, v.active);
          count = ground (arith, k.nums, k.r_q, v.count);
        };
        current = k.current;
        r_q = k.r_q;
        slots = k.slot;
      },
    )

land-Lands :
    (s : State)
    → Inv s
    → (c : Context) → (s.slots s.current).context ≡ c
    → is_set c ≡ true
    → (s' : State) × (landed (resume s) ≡ some s') × Lands s s'
land-Lands s v unset e h = absurd (ground (arith, h))
land-Lands s v (stub fn arg sp) e h = (
  interrupts s true,
  land_stub fn arg sp s e,
  record { inv = Inv-interrupts s true v; current = refl; r_q = refl; slots = λ j x. refl },
)
land-Lands s v (in_yield enable t) e h = land_back enable t s v e

Calm-Lands : (s s' : State) → Calm s → Lands s s' → Calm s'
Calm-Lands s s' c l = record {
  run =
      let live : is_exited (state_of s s.current) ≡ false = ground (arith, c.run) in
      ap (λ (j : ℕ). is_running (state_of s' j)) l.current
      ∙ ap (λ (x : Thread). is_running x.state) (l.slots s.current live)
      ∙ c.run;
  line = λ j m.
      let at : is_ready (state_of s j) && is_set (s.slots j).context ≡ true =
        c.line j (sym (ap (mem j) l.r_q) ∙ m) in
      let live : is_exited (state_of s j) ≡ false = ground (arith, at) in
      ap (λ (x : Thread). is_ready x.state && is_set x.context) (l.slots j live) ∙ at;
}

-- The switch of a turn.
module _ (s : State) (t : ℕ) (rest : List ℕ) (v : Inv s) (calm : Calm s) (e : s.r_q ≡ t ∷ rest)
    (s1 : State) (sw : SwitchedTo s.enabled t (taken t s) s1) where
  at_t : is_ready (state_of s t) && is_set (s.slots t).context ≡ true
  at_t = calm.line t (ap (mem t) e ∙ ground arith)

  left : erase t s.r_q ≡ rest
  left = ap (erase t) e ∙ erase_head t rest

  queued_last : s1.r_q ≡ rest ++ s.current ∷ []
  queued_last =
      sw.r_q
      ∙ ap (λ (b : Bool). if b then erase t s.r_q ++ s.current ∷ [] else erase t s.r_q) calm.run
      ∙ ap (λ (l : List ℕ). l ++ s.current ∷ []) left

  not_t : (j : ℕ) → mem j rest ≡ true → j ≢ t
  not_t j m = ground (arith, v.core.once, e)

  in_line : (j : ℕ) → mem j rest ≡ true → mem j s.r_q ≡ true
  in_line j m = ap (mem j) e ∙ ground arith

  not_current : (j : ℕ) → mem j rest ≡ true → j ≢ s.current
  not_current j m = ground (arith, v.core.apart, in_line j m)

  waiting_ready :
      (j : ℕ) → mem j rest ≡ true → is_ready (state_of s1 j) && is_set (s1.slots j).context ≡ true
  waiting_ready j m =
      let at : is_ready (state_of s j) && is_set (s.slots j).context ≡ true =
        calm.line j (in_line j m) in
      let live : is_exited (state_of s j) ≡ false = ground (arith, at) in
      ap (λ (x : Thread). is_ready x.state && is_set x.context)
        (sw.others j (not_t j m) (not_current j m) live)
      ∙ at

  caller_ready : is_ready (state_of s1 s.current) && is_set (s1.slots s.current).context ≡ true
  caller_ready = ground (arith, sw.back calm.run, sw.saved)

  alive : is_killed (state_of s t) ≡ false
  alive = ground (arith, at_t)

  Calm-switched : Calm s1
  Calm-switched = record {
    run = ap (λ (j : ℕ). is_running (state_of s1 j)) sw.current ∙ ap is_running (sw.front alive);
    line = λ j m.
        let there : mem j rest || j == s.current ≡ true =
          sym (ap (mem j) queued_last ∙ mem-append_one j s.current rest) ∙ m in
        elim (Bool-cases (mem j rest)) [
          | inl in_rest ↦ waiting_ready j in_rest
          | inr out ↦
              let same : j ≡ s.current = ground (arith, there, out) in
              ap (λ (i : ℕ). is_ready (state_of s1 i) && is_set (s1.slots i).context) same
              ∙ caller_ready
        ];
  }

  can_land : is_set (s1.slots s1.current).context ≡ true
  can_land =
      ap (λ (i : ℕ). is_set (s1.slots i).context) sw.current
      ∙ ap is_set sw.landing
      ∙ ground (arith, at_t)

turn-TurnedTo :
    (s : State) (t : ℕ) (rest : List ℕ)
    → Inv s
    → Calm s
    → s.r_q ≡ t ∷ rest
    → (s' : State) × (turn s ≡ some s') × TurnedTo t rest s s'
turn-TurnedTo s t rest v calm e = elim (thread_yield-any s v (ground (arith, calm.run))) [
  | inl (none_ready, r) ↦ absurd (ground (arith, e, none_ready))
  | inr (t', rest', s1, front, r, sw') ↦
      let same : t' ≡ t = ground (arith, e, front) in
      let sw = subst (λ (i : ℕ). SwitchedTo s.enabled i (taken i s) s1) same sw' in
      let (s2, lands, l) =
        land-Lands s1 sw.inv (s1.slots s1.current).context refl
          (can_land s t rest v calm e s1 sw) in
      (
        s2,
        ap turned r ∙ lands,
        record {
          inv = l.inv;
          calm = Calm-Lands s1 s2 (Calm-switched s t rest v calm e s1 sw) l;
          current = l.current ∙ sw.current;
          r_q = l.r_q ∙ queued_last s t rest v calm e s1 sw;
        },
      )
]

-- While every running thread yields and nobody is killed or goes to sleep, the thread that stands
-- in the ready queue behind `before` runs after as many turns as there are threads before it, and
-- one more: none of the calls fails, and no thread waits longer.
pub turns-runs :
    (before : List ℕ) (t : ℕ) (behind : List ℕ) (s : State)
    → Inv s
    → Calm s
    → s.r_q ≡ before ++ t ∷ behind
    → (s' : State) × (turns (suc (length before)) s ≡ some s') × (s'.current ≡ t) × Inv s'
turns-runs [] t behind s v calm e =
    let (s', r, to) = turn-TurnedTo s t behind v calm e in
    (s', rw (turns, r) refl, to.current, to.inv)
turns-runs (b ∷ before) t behind s v calm e =
    let (s1, r, to) = turn-TurnedTo s b (before ++ t ∷ behind) v calm e in
    let (s', rs, cur, v') =
      turns-runs before t (behind ++ s.current ∷ []) s1 to.inv to.calm
        (to.r_q ∙ append_assoc before (t ∷ behind) (s.current ∷ [])) in
    (s', rw (turns, r) rs, cur, v')
