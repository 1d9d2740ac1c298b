-- ===== src/Threads/Invariant/Creates/Loop.antt =====
-- Where the loop of `thread_create_helper` ends.
use ece344_operating_systems.Threads.State.{State, thread_nomore, Tid, is_exited}
use ece344_operating_systems.Threads.Create.{create_from}
use ece344_operating_systems.Threads.Invariant.{
  ℕ, Bool, ThreadState, Option, state_of, ◌<◌, is_uninitialized,
}
use ece344_operating_systems.Base.{
  ◌<◌, inl, arith, some, ◌≡◌, false, true, suc, ◌≤◌, ◌||◌, ◌+◌, Bool-cases, ◌⊎◌, inr, refl, ◌==◌,
  ◌∙◌, zero,
}

-- A slot that `thread_create` may take.
abbrev pub is_free : ThreadState → Bool
is_free st = is_uninitialized st || is_exited st

-- Where the loop of `thread_create_helper` ends: at the first slot that is free.
abbrev pub First : ℕ → ℕ → (ℕ → Option (Tid × State)) → Option (Tid × State) → State → Type 0
First n i at whole s =
    (((j : ℕ) → i ≤ j → j < i + n → is_free (state_of s j) ≡ false)
      × (whole ≡ some (thread_nomore, s)))
    ⊎ ((k : ℕ) × (i ≤ k)
        × (k < i + n)
        × (is_free (state_of s k) ≡ true)
        × ((j : ℕ) → i ≤ j → j < k → is_free (state_of s j) ≡ false)
        × (whole ≡ at k))

create_from_skip :
    (n i fn parg sp : ℕ) (s : State)
    → is_free (state_of s i) ≡ false
    → create_from (suc n) i fn parg sp s ≡ create_from n (i + 1) fn parg sp s
unfolding create_from
create_from_skip n i fn parg sp s h =
    let u : is_uninitialized (state_of s i) ≡ false = ground arith in
    let x : is_exited (state_of s i) ≡ false = ground arith in rw (u, x) refl

create_from_stop :
    (n i fn parg sp : ℕ) (s : State)
    → is_free (state_of s i) ≡ true
    → create_from (suc n) i fn parg sp s ≡ create_from 1 i fn parg sp s
unfolding create_from
create_from_stop n i fn parg sp s h = elim (Bool-cases (is_uninitialized (state_of s i))) [
  | inl u ↦ rw u refl
  | inr u ↦ let x : is_exited (state_of s i) ≡ true = ground arith in rw (u, x) refl
]

pub create_from-First :
    (n i fn parg sp : ℕ) (s : State)
    → First n i (λ k. create_from 1 k fn parg sp s) (create_from n i fn parg sp s) s
unfolding create_from
create_from-First zero i fn parg sp s = inl (λ j a b. absurd (omega arith), refl)
create_from-First (suc n) i fn parg sp s = elim (Bool-cases (is_free (state_of s i))) [
  | inl free ↦ inr (
    i,
    omega arith,
    omega arith,
    free,
    λ j a b. absurd (omega arith),
    create_from_stop n i fn parg sp s free,
  )
  | inr busy ↦ elim (create_from-First n (i + 1) fn parg sp s) [
    | inl (none_free, e) ↦ inl (
      λ j a b. elim (Bool-cases (j == i)) [
        | inl same ↦ let at : j ≡ i = ground arith in rw at busy
        | inr other ↦ none_free j (ground arith) (omega arith)
      ],
      create_from_skip n i fn parg sp s busy ∙ e,
    )
    | inr (k, a, b, free, before, e) ↦ inr (
      k,
      omega arith,
      omega arith,
      free,
      λ j c d. elim (Bool-cases (j == i)) [
        | inl same ↦ let at : j ≡ i = ground arith in rw at busy
        | inr other ↦ before j (ground arith) d
      ],
      create_from_skip n i fn parg sp s busy ∙ e,
    )
  ]
]
