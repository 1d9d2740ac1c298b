-- ===== src/Threads/Wait.antt =====
-- `thread_wait`. Its call of `thread_sleep` stands in the frame `wait_call`; `has_ptr` is whether
-- `exit_code` is not `NULL`.
use ece344_operating_systems.Base.{
  ℕ, Bool, none, some, ◌∷◌, ◌==◌, ◌||◌, ◌&&◌, not, leb, if◌then◌else◌, negsuc, is_minus_one,
}
use ece344_operating_systems.Threads.Sleep.{thread_sleep}
use ece344_operating_systems.Threads.State.{
  thread_max_threads, Tid, id, thread_invalid, Frame, wait_call, is_exited, is_uninitialized,
  is_killed, State, Outcome, returned, fault, exits, set_slot, state_of,
}

abbrev pub push_frame : Frame → State → State
push_frame f s =
    let t = s.slots s.current in set_slot s s.current (record t { frames = f ∷ t.frames })

-- The waited-on thread's code is handed over, and is no longer there for another.
unfoldable pub take_code : ℕ → State → Outcome
take_code tid s =
    let t = s.slots tid in
    returned (id tid)
      (record (set_slot s tid (record t { exit_code = negsuc 0 })) { stored = some t.exit_code })

unfoldable pub wait_slot : ℕ → Bool → State → Outcome
unfolding thread_sleep take_code
wait_slot tid has_ptr s =
    let t = s.slots tid in
    if is_exited t.state
      || (is_uninitialized t.state && (not (is_minus_one t.exit_code) && has_ptr))
    then (if has_ptr then take_code tid s else fault)
    else if is_uninitialized t.state
    then returned thread_invalid s
    else (let waiting =
          set_slot s s.current (record (s.slots s.current) { waiting_on = some tid }) in
        thread_sleep (waiting.slots tid).wq (push_frame (wait_call tid has_ptr) waiting))

unfoldable pub thread_wait : Tid → Bool → State → Outcome
unfolding wait_slot
thread_wait (id tid) has_ptr s =
    if leb thread_max_threads tid || tid == s.current
    then returned thread_invalid s
    else wait_slot tid has_ptr s
thread_wait _ has_ptr s = returned thread_invalid s

-- The rest of `thread_wait`, when `thread_sleep` has returned.
unfoldable pub wait_rest : ℕ → Bool → State → Outcome
wait_rest tid has_ptr s =
    let t = s.slots tid in
    if not (is_minus_one t.exit_code)
    then (let taken =
          set_slot s tid (record t { exit_code2 = t.exit_code; exit_code = negsuc 0 }) in
        returned (id tid) (if has_ptr then record taken { stored = some t.exit_code } else taken))
    else if is_killed (state_of s s.current)
    then exits (s.slots s.current).exit_code s
    else returned thread_invalid (set_slot s tid (record t { waiting_on = none }))
