-- ===== src/Server/Lru/Order.antt =====
-- The order of the LRU queue.
use ece344_operating_systems.Server.Lru.{
  LruEntry, LruQueue, Heap, load, set_previous, lru_enqueue_head, clean_from, lru_clean_up, assign,
}
use ece344_operating_systems.Base.{
  ℕ, length, List, Bool, ◌≡◌, Option, ◌≢◌, ◌<◌, false, some, ap, if◌then◌else◌, ◌∷◌, arith, none,
  ◌==◌, [], true, suc, refl, ◌||◌, zero, ◌∙◌, sym,
}
use ece344_operating_systems.Threads.State.{assign_self, assign_ne}

abbrev pub Names : Type 0
Names = List (ℕ × List ℕ)

abbrev pub first : Names → ℕ
first [] = 0
first ((p, n) ∷ xs) = p

abbrev pub last_or : ℕ → Names → ℕ
last_or p [] = p
last_or p ((q, n) ∷ xs) = last_or q xs

abbrev pub among : ℕ → Names → Bool
among a [] = false
among a ((p, n) ∷ xs) = (a == p) || among a xs

-- The entries stand at distinct addresses, and each points to the one before it, the first to
-- `before`, and to the one behind it, the last to `NULL`.
abbrev pub Linked : Heap → ℕ → Names → Type 0
Linked heap before [] = Unit {0}
Linked heap before ((p, n) ∷ xs) =
    (p ≢ 0)
    × (heap p ≡ some (record { file_name = n; previous = before; next = first xs }))
    × (among p xs ≡ false)
    × Linked heap p xs

pub record IsLru (heap : Heap) (queue : LruQueue) (xs : Names) : Type 0 where
  pub linked : Linked heap 0 xs
  pub head_at : queue.head ≡ first xs
  pub tail_at : queue.tail ≡ last_or 0 xs

Linked-assign :
    (heap : Heap) (a before : ℕ) (e : Option LruEntry) (xs : Names)
    → among a xs ≡ false
    → Linked heap before xs
    → Linked (assign heap a e) before xs
Linked-assign heap a before e [] out h = tt
Linked-assign heap a before e ((p, n) ∷ xs) out h = ground (arith, Linked-assign heap a p e xs)

last_ne : (heap : Heap) (p : ℕ) (xs : Names) → p ≢ 0 → Linked heap p xs → last_or p xs ≢ 0
last_ne heap p [] ne h = ne
last_ne heap p ((q, n) ∷ xs) ne h = last_ne heap q xs h.0 h.3

enqueue_runs :
    (fresh h t : ℕ) (name : List ℕ) (heap : Heap) (e : LruEntry)
    → h ≢ 0
    → t ≢ 0
    → heap h ≡ some e
    → lru_enqueue_head fresh name (record { head = h; tail = t }) heap
      ≡ some (
        record { head = fresh; tail = t },
        assign
            (assign heap h (some (record e { previous = fresh })))
            fresh
            (some (record { file_name = name; previous = 0; next = h })),
      )
unfolding lru_enqueue_head set_previous load
enqueue_runs fresh h t name heap e nh nt at =
    let a : (h == 0) ≡ false = ground arith in
    let b : (t == 0) ≡ false = ground arith in
    rw (lru_enqueue_head, set_previous, load, a, b, at) refl

queue_at : (queue : LruQueue) (p : ℕ) → queue.head ≡ p → queue ≡ record queue { head = p }
queue_at queue p e = ap (λ (k : ℕ). record queue { head = k }) e

-- On a well-formed queue, given a fresh address, `lru_enqueue_head` returns without a fault; the
-- queue is well-formed, links in both directions included, with the new name before all others.
pub lru_enqueue_head-IsLru :
    (fresh : ℕ) (name : List ℕ) (queue : LruQueue) (heap : Heap) (xs : Names)
    → IsLru heap queue xs
    → fresh ≢ 0
    → among fresh xs ≡ false
    → (queue' : LruQueue) × (heap' : Heap) × (lru_enqueue_head fresh name queue heap
        ≡ some (queue', heap'))
      × IsLru heap' queue' ((fresh, name) ∷ xs)
unfolding lru_enqueue_head
lru_enqueue_head-IsLru fresh name queue heap [] h ne out =
    let z : (queue.head == 0) ≡ true = rw h.head_at refl in
    (
      record { head = fresh; tail = fresh },
      assign heap fresh (some (record { file_name = name; previous = 0; next = 0 })),
      rw z refl,
      record { linked = (ne, assign_self heap fresh _, refl, tt); head_at = refl; tail_at = refl },
    )
lru_enqueue_head-IsLru fresh name queue heap ((p, n) ∷ xs) h ne out =
    let old : LruEntry = record { file_name = n; previous = 0; next = first xs } in
    let up : Heap = assign heap p (some (record old { previous = fresh })) in
    let l = h.linked in
    let new : Option LruEntry = some (record { file_name = name; previous = 0; next = p }) in
    let heap' : Heap = assign up fresh new in
    let pf : p ≢ fresh = λ e. absurd (ground (arith, out, e)) in
    let outs : among fresh xs ≡ false = ground (arith, out) in
    let rest : Linked heap' p xs =
      Linked-assign up fresh p new xs outs
        (Linked-assign heap p p (some (record old { previous = fresh })) xs l.2 l.3) in
    (
      record { head = fresh; tail = queue.tail },
      heap',
      ap (λ (q : LruQueue). lru_enqueue_head fresh name q heap) (queue_at queue p h.head_at)
          ∙ enqueue_runs fresh p queue.tail name heap old l.0
              (λ e. last_ne heap p xs l.0 l.3 (sym h.tail_at ∙ e)) l.1,
      record {
        linked = (
          ne,
          assign_self up fresh new,
          out,
          (l.0, assign_ne up fresh new p pf ∙ assign_self heap p _, l.2, rest),
        );
        head_at = refl;
        tail_at = h.tail_at;
      },
    )

clean_from-freed :
    (fuel before : ℕ) (heap : Heap) (xs : Names)
    → length xs < fuel
    → Linked heap before xs
    → (heap' : Heap) × (clean_from fuel (first xs) heap ≡ some heap')
      × ((a : ℕ) → heap' a ≡ (if among a xs then none else heap a))
unfolding clean_from load
clean_from-freed zero before heap xs l h = absurd (omega (arith, l))
clean_from-freed (suc fuel) before heap [] l h = (heap, refl, λ a. refl)
clean_from-freed (suc fuel) before heap ((p, n) ∷ xs) l h =
    let less : length xs < fuel = omega (arith, l) in
    let (heap', runs, gone) =
      clean_from-freed fuel p (assign heap p none) xs less
        (Linked-assign heap p p none xs h.2 h.3) in
    let there : (p == 0) ≡ false = ground (arith, h.0) in
    (heap', rw (there, h.1) runs, λ a. ground (arith, gone a))

-- On a well-formed queue, with more fuel than it has entries, `lru_clean_up` frees each entry once
-- and nothing else.
pub lru_clean_up-freed :
    (fuel : ℕ) (queue : LruQueue) (heap : Heap) (xs : Names)
    → length xs < fuel
    → IsLru heap queue xs
    → (heap' : Heap) × (lru_clean_up fuel queue heap ≡ some heap')
      × ((a : ℕ) → heap' a ≡ (if among a xs then none else heap a))
unfolding lru_clean_up
lru_clean_up-freed fuel queue heap xs l h =
    rw h.head_at (clean_from-freed fuel 0 heap xs l h.linked)
