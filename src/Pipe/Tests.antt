-- ===== src/Pipe/Tests.antt =====
-- The claims on pipelines at a concrete one: three commands, of which the second exits with 258.
use ece344_operating_systems.Pipe.{recur_pipe_call, stdin, ℕ, ◌∷◌}
use ece344_operating_systems.Pipe.Codes.{recur_pipe_call-first_failure}
use ece344_operating_systems.Base.{◌∷◌, [], if◌then◌else◌, ◌≡◌, ◌==◌}

abbrev exit_of : ℕ → ℕ
exit_of c = if c == 1 then 258 else if c == 2 then 3 else 0

recur_pipe_call-first_failure_example : (recur_pipe_call exit_of (0 ∷ 1 ∷ 2 ∷ []) 1 stdin).1 ≡ 2
recur_pipe_call-first_failure_example =
    recur_pipe_call-first_failure exit_of (0 ∷ 1 ∷ 2 ∷ []) 1 stdin
