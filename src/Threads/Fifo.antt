-- ===== src/Threads/Fifo.antt =====
-- The queue operations of threads/thread.c on the list of the queued Tids.
pub mod Laws
use ece344_operating_systems.Base.{ℕ, Bool, false, ◌||◌, List, [], ◌∷◌, ◌++◌, ◌==◌, if◌then◌else◌}
use ece344_operating_systems.Threads.State.{Tid, id, thread_invalid, thread_none}

abbrev pub mem : ℕ → List ℕ → Bool
mem t [] = false
mem t (x ∷ xs) = (t == x) || mem t xs

unfoldable pub enqueue : ℕ → List ℕ → List ℕ
enqueue t q = q ++ t ∷ []

abbrev pub erase : ℕ → List ℕ → List ℕ
erase t [] = []
erase t (x ∷ xs) = if x == t then xs else x ∷ erase t xs

unfoldable pub dequeue_element : ℕ → List ℕ → Tid × List ℕ
dequeue_element t q = (if mem t q then id t else thread_invalid, erase t q)

unfoldable pub dequeue_element_from_head : List ℕ → Tid × List ℕ
dequeue_element_from_head [] = (thread_none, [])
dequeue_element_from_head (x ∷ xs) = (id x, xs)
