-- ===== src/Threads/Queue/Walk.antt =====
-- The walk of `dequeue_element` behind the head.
use ece344_operating_systems.Base.{
  ℕ, suc, ◌≡◌, ◌≢◌, refl, Bool, true, false, none, some, [], ◌∷◌, arith, if◌then◌else◌, ◌==◌, sym,
  ◌∙◌, length, ◌<◌, Bool-cases, inl, inr, zero,
}
use ece344_operating_systems.Threads.Queue.{
  Ptr, node, WaitQueue, Mem, mem, ok, update, Dequeued, tid, thread_invalid, dequeue_walk, Memory,
}
use ece344_operating_systems.Threads.Queue.Chain.{
  Cells, has, first_ptr, last_ptr, Chain, Chain-update, null_test, load-ok, free-ok, set_next-ok,
  has-false_cons, update_ne, update_self,
}
use ece344_operating_systems.Threads.Queue.Enqueue.{last_cell, ne_of_has}

-- Whether a node holds the Tid, and the cells without the first such node.
abbrev pub queued : ℕ → Cells → Bool
queued id [] = false
queued id ((p, t) ∷ xs) = if t == id then true else queued id xs

abbrev pub erase : ℕ → Cells → Cells
erase id [] = []
erase id ((p, t) ∷ xs) = if t == id then xs else (p, t) ∷ erase id xs

pub has-erase : (a id : ℕ) (xs : Cells) → has a xs ≡ false → has a (erase id xs) ≡ false
has-erase a id [] h = refl
has-erase a id ((p, t) ∷ xs) h = ground (arith, has-erase a id xs)

-- What a walk behind the cell `(a, t)` leaves.
abbrev pub Walked : ℕ → ℕ → ℕ → Cells → Mem → Bool → WaitQueue → Dequeued → WaitQueue → Mem → Type 0
Walked id a t xs m enabled q r q' m' =
    (r ≡ (if queued id xs then tid id else thread_invalid))
    × (m'.enabled ≡ (if queued id xs then m.enabled else enabled))
    × (q'.head ≡ q.head)
    × (q'.tail ≡ last_ptr ((a, t) ∷ erase id xs))
    × Chain m'.cell ((a, t) ∷ erase id xs)
    × ((b : Ptr) → has b ((a, t) ∷ xs) ≡ false → m'.cell b ≡ m.cell b)

-- The node behind `a` is cut out: the tail moves only if it was the last.
abbrev cut_tail : WaitQueue → ℕ → ℕ → WaitQueue
cut_tail q a b = if b == q.tail then record q { tail = a } else q

pub eq_false : {a b : ℕ} → a ≢ b → (a == b) ≡ false
eq_false h = ground arith

head-cut : (q : WaitQueue) (a b : ℕ) → (cut_tail q a b).head ≡ q.head
head-cut q a b = ground arith

has-false_cons2 :
    (k a t b u : ℕ) (ys : Cells)
    → has k ((a, t) ∷ (b, u) ∷ ys) ≡ false
    → (k ≢ a) × (k ≢ b) × (has k ys ≡ false)
has-false_cons2 k a t b u ys h =
    let (ka, r) = has-false_cons k a t ((b, u) ∷ ys) h in
    let (kb, s) = has-false_cons k b u ys r in (ka, kb, s)

tail-cut :
    (a t b u : ℕ) (ys : Cells) (c : Memory) (q : WaitQueue)
    → Chain c ((b, u) ∷ ys)
    → q.tail ≡ last_ptr ((b, u) ∷ ys)
    → (cut_tail q a b).tail ≡ last_ptr ((a, t) ∷ ys)
tail-cut a t b u [] c q h e = ground arith
tail-cut a t b u (y ∷ ys) c q h e =
    let (_, _, _, inside) = last_cell c y ys h.3 in
    let miss : (b == q.tail) ≡ false = rw e (eq_false (ne_of_has b _ (y ∷ ys) h.2 inside)) in
    rw miss e

cut :
    (id a t b u fuel : ℕ) (ys : Cells) (m : Mem) (enabled : Bool) (q : WaitQueue)
    → (u == id) ≡ true
    → Chain m.cell ((a, t) ∷ (b, u) ∷ ys)
    → q.tail ≡ last_ptr ((a, t) ∷ (b, u) ∷ ys)
    → (m' : Mem) × (dequeue_walk (suc fuel) id q enabled a b m ≡ ok (tid id, cut_tail q a b) m')
      × Walked id a t ((b, u) ∷ ys) m enabled q (tid id) (cut_tail q a b) m'
unfolding dequeue_walk
cut id a t b u fuel ys m enabled q hit h e =
    let c1 = update m.cell a (some (node t (first_ptr ys))) in
    let m' : Mem = mem (update c1 b none) m.enabled in
    let (apart, out_a) = has-false_cons a b u ys h.2 in
    let at_b : c1 b ≡ some (node u (first_ptr ys)) =
      update_ne m.cell a _ b (λ k. apart (sym k)) ∙ h.3.1 in
    let at_a : m'.cell a ≡ some (node t (first_ptr ys)) =
      update_ne c1 b none a apart ∙ update_self m.cell a _ in
    rw hit (
      m',
      rw (
        null_test h.3.0,
        load-ok b (node u (first_ptr ys)) m h.3.0 h.3.1,
        hit,
        set_next-ok a t b (first_ptr ys) m h.0 h.1,
        free-ok b (node u (first_ptr ys)) (mem c1 m.enabled) h.3.0 at_b,
      ),
      (
        refl,
        refl,
        head-cut q a b,
        tail-cut a t b u ys m.cell q h.3 e,
        (
          h.0,
          at_a,
          out_a,
          Chain-update c1 b none ys h.3.2
              (Chain-update m.cell a (some (node t (first_ptr ys))) ys out_a h.3.3),
        ),
        λ k out.
            let (ka, kb, _) = has-false_cons2 k a t b u ys out in
            update_ne c1 b none k kb ∙ update_ne m.cell a _ k ka,
      ),
    )

has_cons : (a b u : ℕ) (ys : Cells) → a ≢ b → has a ys ≡ false → has a ((b, u) ∷ ys) ≡ false
has_cons a b u ys h k = ground arith

pub Walked-skip :
    (id a t b u : ℕ) (ys : Cells) (m : Mem) (enabled : Bool) (q q' : WaitQueue) (r : Dequeued)
    (m' : Mem)
    → Chain m.cell ((a, t) ∷ (b, u) ∷ ys)
    → (u == id) ≡ false
    → Walked id b u ys m enabled q r q' m'
    → Walked id a t ((b, u) ∷ ys) m enabled q r q' m'
Walked-skip id a t b u ys m enabled q q' r m' h miss (res, mask, hd, tl, rest, frame) = rw miss (
  res,
  mask,
  hd,
  tl,
  (
    h.0,
    frame a h.2 ∙ h.1,
    has_cons a b u (erase id ys) (has-false_cons a b u ys h.2).0
        (has-erase a id ys (has-false_cons a b u ys h.2).1),
    rest,
  ),
  λ k out. let (_, kb, ky) = has-false_cons2 k a t b u ys out in frame k (has_cons k b u ys kb ky),
)

pub dequeue_walk-Walked :
    (fuel id : ℕ) (xs : Cells) (a t : ℕ) (m : Mem) (enabled : Bool) (q : WaitQueue)
    → length xs < fuel
    → Chain m.cell ((a, t) ∷ xs)
    → q.tail ≡ last_ptr ((a, t) ∷ xs)
    → (r : Dequeued) × (q' : WaitQueue) × (m' : Mem) × (dequeue_walk fuel id q enabled a
          (first_ptr xs)
          m
        ≡ ok (r, q') m')
      × Walked id a t xs m enabled q r q' m'
unfolding dequeue_walk
dequeue_walk-Walked zero id xs a t m enabled q l h e = absurd (omega arith)
dequeue_walk-Walked (suc fuel) id [] a t m enabled q l h e =
    (thread_invalid, q, mem m.cell enabled, refl, (refl, refl, refl, e, h, λ b k. refl))
dequeue_walk-Walked (suc fuel) id ((b, u) ∷ ys) a t m enabled q l h e =
    elim (Bool-cases (u == id)) [
      | inl hit ↦
          let (m', runs, w) = cut id a t b u fuel ys m enabled q hit h e in
          (tid id, cut_tail q a b, m', runs, w)
      | inr miss ↦
          let (r, q', m', runs, w) =
            dequeue_walk-Walked fuel id ys b u m enabled q (omega arith) h.3 e in
          (
            r,
            q',
            m',
            rw (null_test h.3.0, load-ok b (node u (first_ptr ys)) m h.3.0 h.3.1, miss) runs,
            Walked-skip id a t b u ys m enabled q q' r m' h miss w,
          )
    ]
