-- ===== src/Threads/Runs/Waiting.antt =====
-- Waiting, locks and condition variables keep the invariant, whatever their arguments.
use ece344_operating_systems.Base.{
  ℕ, Bool, true, false, not, ◌&&◌, ◌||◌, Option, none, some, ◌∷◌, ◌==◌, leb, if◌then◌else◌, ℤ,
  negsuc, is_minus_one, ◌≡◌, ◌⊎◌, refl, arith, inl, inr,
}
use ece344_operating_systems.Threads.State.{
  thread_max_threads, Tid, id, thread_invalid, State, Thread, Frame, wait_call, Outcome, returned,
  exits, fault, is_killed, is_exited, is_uninitialized, state_of, set_slot,
}
use ece344_operating_systems.Threads.Invariant.{Inv}
use ece344_operating_systems.Threads.Invariant.Switch.{Core-slot}
use ece344_operating_systems.Threads.Invariant.Waits.{Inv-own_slot}
use ece344_operating_systems.Threads.Sleep.{thread_sleep}
use ece344_operating_systems.Threads.Wait.{thread_wait, wait_slot, take_code, wait_rest, push_frame}
use ece344_operating_systems.Threads.Runs.Good.{Good, sleep-Good}

-- Fields of a slot that no queue depends on.
Inv-slot :
    (s : State) (i : ℕ) (t : Thread)
    → Inv s
    → t.state ≡ state_of s i
    → t.stack_ptr ≡ (s.slots i).stack_ptr
    → t.wq ≡ (s.slots i).wq
    → Inv (set_slot s i t)
Inv-slot s i t v st sp wq = record {
  core = Core-slot s i t v.core st sp wq;
  active = ground (arith, v.active, st);
  count = v.count;
}

Inv-stored : (s : State) (x : Option ℤ) → Inv s → Inv (record s { stored = x })
Inv-stored s x v =
    let c = v.core in
    record {
      core = record {
        here = c.here;
        line = c.line;
        once = c.once;
        apart = c.apart;
        asleep = c.asleep;
        one_place = c.one_place;
        once_each = c.once_each;
        own_wq = c.own_wq;
        own_stack = c.own_stack;
        wq_apart = c.wq_apart;
        stack_apart = c.stack_apart;
        fresh = c.fresh;
        null_free = c.null_free;
        next_pos = c.next_pos;
      };
      active = v.active;
      count = v.count;
    }

pub Inv-pushed : (f : Frame) (s : State) → Inv s → Inv (push_frame f s)
Inv-pushed f s v =
    let t = s.slots s.current in
    Inv-own_slot s (record t { frames = f ∷ t.frames }) v refl refl refl

take-Good : (tid : ℕ) (s : State) → Inv s → Good (take_code tid s)
unfolding take_code
take-Good tid s v =
    Inv-stored (set_slot s tid (record (s.slots tid) { exit_code = negsuc 0 }))
      (some (s.slots tid).exit_code)
      (Inv-slot s tid (record (s.slots tid) { exit_code = negsuc 0 }) v refl refl refl)

-- One outcome or another.
pub if-Good : (b : Bool) (o p : Outcome) → Good o → Good p → Good (if b then o else p)
if-Good true o p x y = x
if-Good false o p x y = y

wait_slot-Good : (tid : ℕ) (has_ptr : Bool) (s : State) → Inv s → Good (wait_slot tid has_ptr s)
unfolding wait_slot
wait_slot-Good tid has_ptr s v =
    let t = s.slots tid in
    let s1 : State = set_slot s s.current (record (s.slots s.current) { waiting_on = some tid }) in
    let v1 : Inv s1 =
      Inv-own_slot s (record (s.slots s.current) { waiting_on = some tid }) v refl refl refl in
    if-Good
      (is_exited t.state
        || (is_uninitialized t.state && (not (is_minus_one t.exit_code) && has_ptr)))
      (if has_ptr then take_code tid s else fault)
      (if is_uninitialized t.state
        then returned thread_invalid s
        else thread_sleep (s1.slots tid).wq (push_frame (wait_call tid has_ptr) s1))
      (if-Good has_ptr (take_code tid s) fault (take-Good tid s v) refl)
      (if-Good (is_uninitialized t.state) (returned thread_invalid s)
        (thread_sleep (s1.slots tid).wq (push_frame (wait_call tid has_ptr) s1)) v
        (sleep-Good (s1.slots tid).wq (push_frame (wait_call tid has_ptr) s1)
          (Inv-pushed (wait_call tid has_ptr) s1 v1)))

wait-otherwise :
    (want : Tid) (has_ptr : Bool) (s : State)
    → ((n : ℕ) × (want ≡ id n)) ⊎ (thread_wait want has_ptr s ≡ returned thread_invalid s)
unfolding thread_wait
wait-otherwise (id n) has_ptr s = inl (n, refl)
wait-otherwise _ has_ptr s = inr refl

wait_id-Good : (n : ℕ) (has_ptr : Bool) (s : State) → Inv s → Good (thread_wait (id n) has_ptr s)
unfolding thread_wait
wait_id-Good n has_ptr s v =
    if-Good (leb thread_max_threads n || n == s.current) (returned thread_invalid s)
      (wait_slot n has_ptr s) v (wait_slot-Good n has_ptr s v)

pub wait-Good :
    (want : Tid) (has_ptr : Bool) (s : State) → Inv s → Good (thread_wait want has_ptr s)
wait-Good want has_ptr s v = elim (wait-otherwise want has_ptr s) [
  | inl (n, e) ↦ rw e (wait_id-Good n has_ptr s v)
  | inr e ↦ rw e v
]

pub wait_rest-Good : (tid : ℕ) (has_ptr : Bool) (s : State) → Inv s → Good (wait_rest tid has_ptr s)
unfolding wait_rest
wait_rest-Good tid has_ptr s v =
    let t = s.slots tid in
    let taken = set_slot s tid (record t { exit_code2 = t.exit_code; exit_code = negsuc 0 }) in
    let vt : Inv taken =
      Inv-slot s tid (record t { exit_code2 = t.exit_code; exit_code = negsuc 0 }) v refl refl
        refl in
    if-Good (not (is_minus_one t.exit_code))
      (returned (id tid) (if has_ptr then record taken { stored = some t.exit_code } else taken))
      (if is_killed (state_of s s.current)
        then exits (s.slots s.current).exit_code s
        else returned thread_invalid (set_slot s tid (record t { waiting_on = none })))
      (elim has_ptr
        as (λ (b : Bool). Inv (if b then record taken { stored = some t.exit_code } else taken)) [
          | true ↦ Inv-stored taken (some t.exit_code) vt
          | false ↦ vt
        ])
      (if-Good (is_killed (state_of s s.current)) (exits (s.slots s.current).exit_code s)
        (returned thread_invalid (set_slot s tid (record t { waiting_on = none }))) v
        (Inv-slot s tid (record t { waiting_on = none }) v refl refl refl))
