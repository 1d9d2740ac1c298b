-- ===== src/Server/Ring/Steps.antt =====
-- What the steps of the accepting thread and the workers do to the request buffer.
use mathlib.Core.Path.{subst}
use mathlib.Core.List.{[], ◌∷◌, append_assoc}
use ece344_operating_systems.Server.Ring.{
  start, requested, taken, exited, Server, Reach, server_init, server_request, do_server_thread,
  server_exit, stored, took, blocked, waits, leaves, List, ℤ, ◌≡◌, requested, taken, exited,
}
use ece344_operating_systems.Server.Ring.Fifo.{
  Holds, with_request, full-Holds, without_first, init-Holds, slot_ne, without_first-Holds,
  with_request-Holds,
}
use ece344_operating_systems.Base.{
  ◌≡◌, ◌≢◌, if◌then◌else◌, length, ◌==◌, ◌-◌, ◌<◌, is_minus_one, true, ap, ℕ, ◌∙◌, arith, ◌++◌, sym,
  ◌≤◌, ◌+◌, suc, Bool-cases, refl, inl, inr,
}

-- With worker threads, `server_request` never fails its assertion: it waits exactly while the
-- buffer holds as many requests as it may, and else stores the request behind the others.
pub server_request-Holds :
    (q : List ℤ) (fd : ℤ) (s : Server)
    → Holds q s
    → s.nr_threads ≢ 0
    → server_request fd s
      ≡ (if length q == s.max_requests - 1 then blocked else stored (with_request fd s))
unfolding server_request
server_request-Holds q fd s h ne =
    let slot_free : length q < s.max_requests → is_minus_one (s.conn_buf s.request_head) ≡ true =
      λ l.
        ap (λ (k : ℕ). is_minus_one (s.conn_buf k)) h.head
        ∙ ap is_minus_one (h.empty (length q) (omega arith) l) in
    ground (arith, full-Holds q s h, slot_free h.room)

-- A worker takes the oldest request; without one it waits, and leaves once the server exits.
pub do_server_thread-Holds :
    (q : List ℤ) (s : Server)
    → Holds q s
    → do_server_thread s
      ≡ elim q [ [] ↦ if s.exiting then leaves else waits | fd ∷ rest ↦ took fd (without_first s) ]
unfolding do_server_thread
do_server_thread-Holds [] s h =
    let e : s.request_head ≡ s.request_tail = h.head ∙ ground (arith, h.tail) in ground (arith, e)
do_server_thread-Holds (fd ∷ q) s h =
    let ne : s.request_head ≢ s.request_tail = λ e.
      slot_ne s.max_requests s.request_tail (suc (length q)) 0 h.tail h.room (omega (arith, h.room))
        (omega arith) (sym h.head ∙ e ∙ ground (arith, h.tail)) in
    ground (arith, ne, (without_first-Holds q fd s h).0)

-- What holds in each reachable state: the buffer holds the requests that were stored and not yet
-- taken, oldest first.
abbrev pub Balanced : ℕ → ℕ → List ℤ → List ℤ → Server → Type 0
Balanced nr m ins outs s =
    (q : List ℤ) × (ins ≡ outs ++ q) × Holds q s × (s.nr_threads ≡ nr) × (s.max_requests ≡ m + 1)

requested-Balanced :
    (nr m : ℕ) (ins outs : List ℤ) (fd : ℤ) (s s' : Server)
    → nr ≢ 0
    → Balanced nr m ins outs s
    → server_request fd s ≡ stored s'
    → Balanced nr m (ins ++ fd ∷ []) outs s'
requested-Balanced nr m ins outs fd s s' ne (q, e, h, n, k) r =
    let run = sym (server_request-Holds q fd s h (λ z. ne (sym n ∙ z))) ∙ r in
    elim (Bool-cases (length q == s.max_requests - 1)) [
      | inl full ↦ absurd (ground (arith, run))
      | inr free ↦
          let at : with_request fd s ≡ s' = ground (arith, run) in
          let more : length q + 1 < s.max_requests = ground (arith, h.room) in
          subst (Balanced nr m (ins ++ fd ∷ []) outs) at (
            q ++ fd ∷ [],
            ap (λ (l : List ℤ). l ++ fd ∷ []) e ∙ append_assoc outs q (fd ∷ []),
            with_request-Holds q fd s h more,
            n,
            k,
          )
    ]

taken-Balanced :
    (nr m : ℕ) (ins outs : List ℤ) (fd : ℤ) (s s' : Server)
    → Balanced nr m ins outs s
    → do_server_thread s ≡ took fd s'
    → Balanced nr m ins (outs ++ fd ∷ []) s'
taken-Balanced nr m ins outs fd s s' ([], e, h, n, k) r =
    let run = sym (do_server_thread-Holds [] s h) ∙ r in absurd (ground (arith, run))
taken-Balanced nr m ins outs fd s s' (x ∷ q, e, h, n, k) r =
    let run = sym (do_server_thread-Holds (x ∷ q) s h) ∙ r in
    let same : x ≡ fd = ground (arith, run) in
    let at : without_first s ≡ s' = ground (arith, run) in
    subst (Balanced nr m ins (outs ++ fd ∷ [])) at (
      q,
      e ∙ ap (λ (y : ℤ). outs ++ y ∷ q) same ∙ sym (append_assoc outs (fd ∷ []) q),
      (without_first-Holds q x s h).1,
      n,
      k,
    )

exited-Holds : (q : List ℤ) (s : Server) → Holds q s → Holds q (server_exit s)
unfolding server_exit
exited-Holds q s h = record {
  tail = h.tail;
  room = h.room;
  head = h.head;
  full = h.full;
  empty = h.empty;
}

exited-Balanced :
    (nr m : ℕ) (ins outs : List ℤ) (s : Server)
    → Balanced nr m ins outs s
    → Balanced nr m ins outs (server_exit s)
unfolding server_exit
exited-Balanced nr m ins outs s (q, e, h, n, k) = (q, e, exited-Holds q s h, n, k)

start-Balanced : (nr m c : ℕ) (garbage : ℕ → ℤ) → Balanced nr m [] [] (server_init nr m c garbage)
unfolding server_init
start-Balanced nr m c garbage = ([], refl, init-Holds nr m c garbage, refl, refl)

-- In whatever order the accepting thread and the worker threads take their steps, the requests
-- are taken in the order in which they were stored, none lost and none twice, and the buffer
-- holds those not yet taken: at most as many as the argument of `server_init` allows.
pub Reach-Balanced :
    (nr m c : ℕ) (garbage : ℕ → ℤ) (ins outs : List ℤ) (s : Server)
    → nr ≢ 0
    → Reach nr m c garbage ins outs s
    → (q : List ℤ) × (ins ≡ outs ++ q) × (length q ≤ m) × Holds q s
Reach-Balanced nr m c garbage ins outs s ne r =
    let (q, e, h, n, k) = balanced r in (q, e, omega (arith, h.room, k), h)
  where
    balanced :
        {ins outs : List ℤ} {s : Server}
        → Reach nr m c garbage ins outs s
        → Balanced nr m ins outs s
    balanced start = start-Balanced nr m c garbage
    balanced (requested ins outs fd s s' r e) =
        requested-Balanced nr m ins outs fd s s' ne (balanced r) e
    balanced (taken ins outs fd s s' r e) = taken-Balanced nr m ins outs fd s s' (balanced r) e
    balanced (exited ins outs s r) = exited-Balanced nr m ins outs s (balanced r)
