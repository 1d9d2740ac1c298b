-- ===== src/Threads/Invariant/Yield.antt =====
-- `thread_yield` keeps the invariant, does not fault, and serves the ready queue in order.
use ece344_operating_systems.Threads.State.{
  State, is_running, in_yield, is_exited, is_killed, set_slot, Thread, assign_self, assign_ne,
}
use ece344_operating_systems.Threads.Invariant.{
  Core, Inv, Bool, ℕ, ◌≡◌, if◌then◌else◌, ◌<◌, thread_max_threads, state_of, is_queued, mem,
  is_active, is_leaving, switched, ThreadState, ready, running,
}
use ece344_operating_systems.Threads.Yield.{switch_to, requeue_current}
use ece344_operating_systems.Base.{
  if◌then◌else◌, ◌<◌, ◌≡◌, ◌≢◌, ◌++◌, suc, length, true, ◌∷◌, [], false, ◌||◌, arith, refl, ◌∙◌, ap,
  Bool-cases, inl, inr,
}
use ece344_operating_systems.Threads.Invariant.Switch.{Core-slot, jump, jump_running, jump_leaving}
use ece344_operating_systems.Threads.Invariant.Reap.{reap_from-Cleared, Cleared}

-- What a switch to `t` leaves, started behind the dequeue of `t`.
pub record SwitchedTo (enable : Bool) (t : ℕ) (s s' : State) : Type 0 where
  pub inv : Inv s'
  pub current : s'.current ≡ t
  pub r_q : s'.r_q ≡ (if is_running (state_of s s.current) then s.r_q ++ s.current ∷ [] else s.r_q)
  pub saved : (s'.slots s.current).context ≡ in_yield enable t
  pub cleared : (j : ℕ) → j < thread_max_threads → j ≢ s.current → is_exited (state_of s' j) ≡ false
  pub others :
      (j : ℕ) → j ≢ t → j ≢ s.current → is_exited (state_of s j) ≡ false → s'.slots j ≡ s.slots j
  pub back : is_running (state_of s s.current) ≡ true → state_of s' s.current ≡ ready
  pub front : is_killed (state_of s t) ≡ false → state_of s' t ≡ running
  pub landing : (s'.slots t).context ≡ (s.slots t).context

abbrev pub leaves : State → ℕ
leaves s =
    if is_running (state_of s s.current) then suc (suc (length s.r_q)) else suc (length s.r_q)

module _ (enable : Bool) (t : ℕ) (s u : State) (c : Core u) (lt : t < thread_max_threads)
    (ne : t ≢ s.current) (q : is_queued (state_of u t) ≡ true) (out : mem t u.r_q ≡ false)
    (here : u.current ≡ s.current) (rq : u.r_q ≡ s.r_q)
    (st : state_of u s.current ≡ state_of s s.current) where
  abbrev after : State
  unfolding requeue_current
  after = jump t (requeue_current u)

  after-Inv :
      is_killed (state_of s s.current) ≡ false
      → is_active (state_of s s.current) || is_leaving (state_of s s.current) ≡ true
      → u.nums ≡ leaves s
      → Inv after
  unfolding requeue_current
  after-Inv alive kind n =
      let ne' : t ≢ u.current = λ e. ne (e ∙ here) in
      let same : state_of u u.current ≡ state_of s s.current = rw here st in
      elim (Bool-cases (is_running (state_of u u.current))) [
        | inl run ↦ jump_running u t c lt ne' q out run (ground arith)
        | inr not_run ↦ jump_leaving u t c lt ne' q out (ground arith) (ground arith)
      ]

  after-r_q :
      after.r_q ≡ (if is_running (state_of s s.current) then s.r_q ++ s.current ∷ [] else s.r_q)
  unfolding requeue_current
  after-r_q = ground arith

  after-saved : (after.slots s.current).context ≡ (u.slots s.current).context
  unfolding requeue_current
  after-saved = ground arith

  after-others : (j : ℕ) → j ≢ t → j ≢ s.current → after.slots j ≡ u.slots j
  unfolding requeue_current
  after-others j a b = ground arith

  after-back : is_running (state_of s s.current) ≡ true → state_of after s.current ≡ ready
  unfolding requeue_current
  after-back run = ground arith

  after-front : is_killed (state_of u t) ≡ false → state_of after t ≡ running
  unfolding requeue_current
  after-front alive = ground arith

  after-landing : (after.slots t).context ≡ (u.slots t).context
  unfolding requeue_current
  after-landing = ground arith

  after-Cleared :
      ((j : ℕ) → j < thread_max_threads → Cleared u j)
      → (j : ℕ) → j < thread_max_threads
      → j ≢ s.current
      → is_exited (state_of after j) ≡ false
  unfolding requeue_current
  after-Cleared h j l k = ground (arith, h j l)

not_exited : (st : ThreadState) → is_queued st ≡ true → is_exited st ≡ false
not_exited st h = ground arith

pub switch_to-SwitchedTo :
    (enable : Bool) (t : ℕ) (s : State)
    → Core s
    → t < thread_max_threads
    → t ≢ s.current
    → is_queued (state_of s t) ≡ true
    → mem t s.r_q ≡ false
    → is_killed (state_of s s.current) ≡ false
    → is_active (state_of s s.current) || is_leaving (state_of s s.current) ≡ true
    → s.nums ≡ leaves s
    → (s' : State) × (switch_to enable t s ≡ switched s') × SwitchedTo enable t s s'
unfolding switch_to
switch_to-SwitchedTo enable t s c lt ne q out alive st n =
    let cur = s.current in
    let saved : State = set_slot s cur (record (s.slots cur) { context = in_yield enable t }) in
    let c1 : Core saved =
      Core-slot s cur (record (s.slots cur) { context = in_yield enable t }) c refl refl refl in
    let (u, runs, cu, k, cleared, still) =
      reap_from-Cleared thread_max_threads 0 saved c1 (omega arith) in
    let own : saved.slots cur ≡ record (s.slots cur) { context = in_yield enable t } =
      assign_self s.slots cur _ in
    let stu : state_of u cur ≡ state_of s cur = ap (λ (x : Thread). x.state) (k.own_slot ∙ own) in
    let same : saved.slots t ≡ s.slots t = assign_ne s.slots cur _ t ne in
    let live : is_exited (state_of saved t) ≡ false =
      ap (λ (x : Thread). is_exited x.state) same ∙ not_exited (state_of s t) q in
    let qu : is_queued (state_of u t) ≡ true =
      ap (λ (x : Thread). is_queued x.state) (k.slot t live ∙ same) ∙ q in
    let outu : mem t u.r_q ≡ false = ap (mem t) k.r_q ∙ out in
    (
      jump t (requeue_current u),
      rw runs,
      record {
        inv = after-Inv enable t s u cu lt ne qu outu k.current k.r_q stu alive st (k.nums ∙ n);
        current = refl;
        r_q = after-r_q enable t s u cu lt ne qu outu k.current k.r_q stu;
        saved =
            after-saved enable t s u cu lt ne qu outu k.current k.r_q stu
            ∙ ap (λ (x : Thread). x.context) (k.own_slot ∙ own);
        cleared =
            after-Cleared enable t s u cu lt ne qu outu k.current k.r_q stu
              (λ j l. cleared j (omega arith) (omega arith));
        others = λ j a b x.
            let j_same : saved.slots j ≡ s.slots j = assign_ne s.slots cur _ j b in
            after-others enable t s u cu lt ne qu outu k.current k.r_q stu j a b
            ∙ k.slot j (ap (λ (y : Thread). is_exited y.state) j_same ∙ x)
            ∙ j_same;
        back = after-back enable t s u cu lt ne qu outu k.current k.r_q stu;
        front = λ alive_t.
            after-front enable t s u cu lt ne qu outu k.current k.r_q stu
              (ap (λ (y : Thread). is_killed y.state) (k.slot t live ∙ same) ∙ alive_t);
        landing =
            after-landing enable t s u cu lt ne qu outu k.current k.r_q stu
            ∙ ap (λ (x : Thread). x.context) (k.slot t live ∙ same);
      },
    )
