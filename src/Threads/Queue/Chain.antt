-- ===== src/Threads/Queue/Chain.antt =====
-- What a queue stands for: the address and the Tid of each of its nodes, in order.
use ece344_operating_systems.Base.{
  ℕ, ◌≡◌, ◌≢◌, refl, Bool, false, ◌||◌, Option, none, some, List, [], ◌∷◌, ◌++◌, map, arith, ◌==◌,
}
use ece344_operating_systems.Threads.Queue.{
  Ptr, null, ThreadNode, node, WaitQueue, update, init_node, load, set_next, free, Mem, ok, mem,
  Memory,
}

abbrev pub Cells : Type 0
Cells = List (Ptr × ℕ)

abbrev pub has : Ptr → Cells → Bool
has a [] = false
has a ((p, t) ∷ xs) = (a == p) || has a xs

abbrev pub first_ptr : Cells → Ptr
first_ptr [] = null
first_ptr ((p, t) ∷ xs) = p

abbrev pub last_ptr : Cells → Ptr
last_ptr [] = null
last_ptr ((p, t) ∷ []) = p
last_ptr ((p, t) ∷ (x ∷ xs)) = last_ptr (x ∷ xs)

-- The nodes are distinct, none is at `NULL`, and each leads to the next, the last one to `NULL`.
abbrev pub Chain : Memory → Cells → Type 0
Chain c [] = Unit {0}
Chain c ((p, t) ∷ xs) =
    (p ≢ null) × (c p ≡ some (node t (first_ptr xs))) × (has p xs ≡ false) × Chain c xs

pub record IsQueue (c : Memory) (q : WaitQueue) (xs : Cells) : Type 0 where
  pub chain : Chain c xs
  pub head_at : q.head ≡ first_ptr xs
  pub tail_at : q.tail ≡ last_ptr xs

abbrev pub tids : Cells → List ℕ
tids = map λ x. x.1

-- A change elsewhere leaves a chain alone.
pub Chain-update :
    (c : Memory) (p : Ptr) (n : Option ThreadNode) (xs : Cells)
    → has p xs ≡ false
    → Chain c xs
    → Chain (update c p n) xs
Chain-update c p n [] out h = tt
Chain-update c p n ((a, t) ∷ xs) out h = ground (arith, Chain-update c p n xs)

pub last_ptr-append : (xs : Cells) (p : Ptr) (t : ℕ) → last_ptr (xs ++ (p, t) ∷ []) ≡ p
last_ptr-append [] p t = refl
last_ptr-append (x ∷ []) p t = refl
last_ptr-append (x ∷ y ∷ xs) p t = last_ptr-append (y ∷ xs) p t

pub null_test : {p : Ptr} → p ≢ null → (p == null) ≡ false
null_test h = ground arith

pub init_node-ok :
    (p : Ptr) (n : ThreadNode) (m : Mem)
    → p ≢ null
    → init_node p n m ≡ ok tt (mem (update m.cell p (some n)) m.enabled)
unfolding init_node
init_node-ok p n m h = rw (null_test h)

pub load-ok :
    (p : Ptr) (n : ThreadNode) (m : Mem) → p ≢ null → m.cell p ≡ some n → load p m ≡ ok n m
unfolding load
load-ok p n m h e = rw (null_test h, e)

pub set_next-ok :
    (p t r q : Ptr) (m : Mem)
    → p ≢ null
    → m.cell p ≡ some (node t r)
    → set_next p q m ≡ ok tt (mem (update m.cell p (some (node t q))) m.enabled)
unfolding set_next
set_next-ok p t r q m h e = rw (load-ok p (node t r) m h e, init_node-ok p (node t q) m h)

pub free-ok :
    (p : Ptr) (n : ThreadNode) (m : Mem)
    → p ≢ null
    → m.cell p ≡ some n
    → free p m ≡ ok tt (mem (update m.cell p none) m.enabled)
unfolding free
free-ok p n m h e = rw (load-ok p n m h e)

pub has-false_cons :
    (a b u : ℕ) (ys : Cells) → has a ((b, u) ∷ ys) ≡ false → (a ≢ b) × (has a ys ≡ false)
has-false_cons a b u ys h = ground arith

pub update_ne :
    (c : Memory) (p : Ptr) (n : Option ThreadNode) (a : Ptr) → a ≢ p → update c p n a ≡ c a
update_ne c p n a h = ground arith

pub update_self : (c : Memory) (p : Ptr) (n : Option ThreadNode) → update c p n p ≡ n
update_self c p n = ground arith
