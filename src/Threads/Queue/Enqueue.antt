-- ===== src/Threads/Queue/Enqueue.antt =====
-- `enqueue` adds at the tail.
use ece344_operating_systems.Base.{
  ℕ, ◌≡◌, ◌≢◌, refl, true, false, some, [], ◌∷◌, ◌++◌, arith, ◌∙◌, sym,
}
use ece344_operating_systems.Threads.Queue.{
  Ptr, null, node, WaitQueue, wait_queue, Mem, mem, ok, update, enqueue, Memory,
}
use ece344_operating_systems.Threads.Queue.Chain.{
  Cells, has, last_ptr, Chain, IsQueue, last_ptr-append, first_ptr, init_node-ok, null_test,
  set_next-ok,
}

pub last_cell :
    (c : Memory) (x : Ptr × ℕ) (xs : Cells)
    → Chain c (x ∷ xs)
    → (t : ℕ) × (last_ptr (x ∷ xs) ≢ null)
      × (c (last_ptr (x ∷ xs)) ≡ some (node t null))
      × (has (last_ptr (x ∷ xs)) (x ∷ xs) ≡ true)
last_cell c (p, t) [] h = (t, h.0, h.1, ground arith)
last_cell c (p, t) (y ∷ ys) h =
    let (u, ne, at, inside) = last_cell c y ys h.3 in (u, ne, at, ground arith)

-- The two writes of `enqueue` on a queue that is not empty.
abbrev linked : Memory → Ptr → ℕ → Ptr → ℕ → Memory
linked c fresh id last t = update (update c fresh (some (node id null))) last (some (node t fresh))

linked_ne :
    (c : Memory) (fresh id last t p : ℕ) → p ≢ fresh → p ≢ last → linked c fresh id last t p ≡ c p
linked_ne c fresh id last t p h k = ground arith

has-false_append :
    (p fresh id : ℕ) (xs : Cells)
    → p ≢ fresh
    → has p xs ≡ false
    → has p (xs ++ (fresh, id) ∷ []) ≡ false
has-false_append p fresh id [] h k = ground arith
has-false_append p fresh id (x ∷ xs) h k = ground (arith, has-false_append p fresh id xs)

pub ne_of_has : (p q : ℕ) (xs : Cells) → has p xs ≡ false → has q xs ≡ true → p ≢ q
ne_of_has p q xs h k e = cc

Chain-linked :
    (c : Memory) (fresh id t : ℕ) (x : Ptr × ℕ) (xs : Cells)
    → Chain c (x ∷ xs)
    → fresh ≢ null
    → has fresh (x ∷ xs) ≡ false
    → c (last_ptr (x ∷ xs)) ≡ some (node t null)
    → Chain (linked c fresh id (last_ptr (x ∷ xs)) t) (x ∷ (xs ++ (fresh, id) ∷ []))
Chain-linked c fresh id t (p, u) [] h ne out at =
    (h.0, ground arith, ground arith, (ne, ground arith, refl, tt))
Chain-linked c fresh id t (p, u) (y ∷ ys) h ne out at =
    let (_, _, _, inside) = last_cell c y ys h.3 in
    let apart : p ≢ fresh = ground arith in
    (
      h.0,
      linked_ne c fresh id (last_ptr (y ∷ ys)) t p apart (ne_of_has p _ (y ∷ ys) h.2 inside) ∙ h.1,
      has-false_append p fresh id (y ∷ ys) apart h.2,
      Chain-linked c fresh id t y ys h.3 ne (ground arith) at,
    )

last_update :
    (c : Memory) (fresh id : ℕ) (x : Ptr × ℕ) (xs : Cells)
    → has fresh (x ∷ xs) ≡ false
    → has (last_ptr (x ∷ xs)) (x ∷ xs) ≡ true
    → update c fresh (some (node id null)) (last_ptr (x ∷ xs)) ≡ c (last_ptr (x ∷ xs))
last_update c fresh id x xs out inside =
    let apart = ne_of_has fresh (last_ptr (x ∷ xs)) (x ∷ xs) out inside in ground arith

-- What `enqueue` leaves: the same mask, the new node behind the others, and no other change.
abbrev pub Enqueued : ℕ → ℕ → Cells → Mem → WaitQueue → Mem → Type 0
Enqueued fresh id xs m q' m' =
    IsQueue m'.cell q' (xs ++ (fresh, id) ∷ [])
    × (m'.enabled ≡ m.enabled)
    × ((a : Ptr) → a ≢ fresh → has a xs ≡ false → m'.cell a ≡ m.cell a)

enqueue_cells :
    (fresh id : ℕ) (m : Mem) (xs : Cells)
    → Chain m.cell xs
    → fresh ≢ null
    → has fresh xs ≡ false
    → (q' : WaitQueue) × (m' : Mem) × (enqueue fresh id (wait_queue (first_ptr xs) (last_ptr xs)) m
        ≡ ok q' m')
      × Enqueued fresh id xs m q' m'
unfolding enqueue
enqueue_cells fresh id m [] h ne out = (
  wait_queue fresh fresh,
  mem (update m.cell fresh (some (node id null))) m.enabled,
  rw (init_node-ok fresh (node id null) (mem m.cell false) ne),
  (record { chain = ground arith; head_at = refl; tail_at = refl }, refl, ground arith),
)
enqueue_cells fresh id m ((p, u) ∷ xs) h ne out =
    let (t, lne, at, inside) = last_cell m.cell (p, u) xs h in
    let up = last_update m.cell fresh id (p, u) xs out inside ∙ at in
    (
      wait_queue p fresh,
      mem (linked m.cell fresh id (last_ptr ((p, u) ∷ xs)) t) m.enabled,
      rw (
        null_test h.0,
        init_node-ok fresh (node id null) (mem m.cell false) ne,
        set_next-ok _ t null fresh (mem (update m.cell fresh (some (node id null))) false) lne up,
      ),
      (
        record {
          chain = Chain-linked m.cell fresh id t (p, u) xs h ne out at;
          head_at = refl;
          tail_at = sym (last_ptr-append ((p, u) ∷ xs) fresh id);
        },
        refl,
        λ a k l. linked_ne m.cell fresh id _ t a k (ne_of_has a _ ((p, u) ∷ xs) l inside),
      ),
    )

-- On a well-formed queue, given a fresh address, `enqueue` returns without a fault; the queue is
-- then the old one with the new Tid behind all others, the interrupt mask is as before, and no
-- cell outside the queue and the new node has changed.
pub enqueue-append :
    (fresh id : ℕ) (m : Mem) (q : WaitQueue) (xs : Cells)
    → IsQueue m.cell q xs
    → fresh ≢ null
    → has fresh xs ≡ false
    → (q' : WaitQueue) × (m' : Mem) × (enqueue fresh id q m ≡ ok q' m')
      × Enqueued fresh id xs m q' m'
enqueue-append fresh id m q xs h ne out =
    let e : q ≡ wait_queue (first_ptr xs) (last_ptr xs) = ground arith in
    rw e (enqueue_cells fresh id m xs h.chain ne out)
