-- ===== src/Pipe/Codes.antt =====
-- The exit code and the wiring of a pipeline.
use ece344_operating_systems.Pipe.{
  recur_pipe_call, Child, End, stdout, pipe_read, pipe_write, List, ℕ, ◌∷◌,
}
use ece344_operating_systems.Base.{◌≡◌, map, if◌then◌else◌, ◌+◌, ◌==◌, ◌%◌, [], arith, refl}

-- The first code from the left that is not 0.
abbrev pub first_failure : List ℕ → ℕ
first_failure [] = 0
first_failure (x ∷ xs) = if x == 0 then first_failure xs else x

-- A pipeline returns the first exit code that is not 0, from the left, and 0 if all are.
pub recur_pipe_call-first_failure :
    (exit_of : ℕ → ℕ) (commands : List ℕ) (i : ℕ) (input : End)
    → (recur_pipe_call exit_of commands i input).1
      ≡ first_failure (map (λ c. exit_of c % 256) commands)
unfolding recur_pipe_call
recur_pipe_call-first_failure exit_of [] i input = refl
recur_pipe_call-first_failure exit_of (c ∷ []) i input = ground arith
recur_pipe_call-first_failure exit_of (c ∷ d ∷ rest) i input =
    let ih = recur_pipe_call-first_failure exit_of (d ∷ rest) (i + 1) (pipe_read i) in
    ground (arith, ih)

-- How a pipeline must be wired: each command reads what the one before it writes, the first the
-- input it is given, and the last writes to the standard output.
abbrev pub Wired : List ℕ → ℕ → End → List Child → Type 0
Wired [] i input [] = Unit {0}
Wired [] i input (x ∷ xs) = ⊥
Wired (c ∷ cs) i input [] = ⊥
Wired (c ∷ []) i input (x ∷ xs) =
    (x ≡ record { command = c; input = input; output = stdout }) × (xs ≡ [])
Wired (c ∷ d ∷ cs) i input (x ∷ xs) =
    (x ≡ record { command = c; input = input; output = pipe_write i })
    × Wired (d ∷ cs) (i + 1) (pipe_read i) xs

-- The children of a pipeline are its commands, in order, and are wired as a pipeline is.
pub recur_pipe_call-Wired :
    (exit_of : ℕ → ℕ) (commands : List ℕ) (i : ℕ) (input : End)
    → Wired commands i input (recur_pipe_call exit_of commands i input).0
unfolding recur_pipe_call
recur_pipe_call-Wired exit_of [] i input = tt
recur_pipe_call-Wired exit_of (c ∷ []) i input = (refl, refl)
recur_pipe_call-Wired exit_of (c ∷ d ∷ rest) i input =
    (refl, recur_pipe_call-Wired exit_of (d ∷ rest) (i + 1) (pipe_read i))
