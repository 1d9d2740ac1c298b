-- ===== src/Pipe.antt =====
-- pipe/pipe.c. What a command exits with is a parameter, as are the file descriptors that the
-- commands inherit; `pipe` and `fork` are taken to succeed, as the source does.
pub mod Codes
mod Tests
use ece344_operating_systems.Base.{
  ℕ, suc, ◌+◌, Bool, true, false, List, [], ◌∷◌, ◌++◌, ◌==◌, ◌&&◌, not, ltb, if◌then◌else◌, ◌%◌,
}

-- What a child's standard input or output is: the one of the process, or an end of the pipe of the
-- call at an index.
pub data End : Type 0 where
  stdin stdout : End
  pipe_read pipe_write : ℕ → End

-- A forked child: its command, and its ends behind the calls of `dup2`.
pub record Child : Type 0 where
  pub command : ℕ
  pub input : End
  pub output : End

-- The tests behind `waitpid`, in their order; `none_left` is the return at the end.
abbrev pub combine : ℕ → ℕ → ℕ
combine exit_code child_exit_code =
    if (exit_code == 0) && not (child_exit_code == 0)
    then child_exit_code
    else if not (exit_code == 0) && (child_exit_code == 0)
    then exit_code
    else if (exit_code == 0) && (child_exit_code == 0)
    then 0
    else if not (exit_code == 0) && not (child_exit_code == 0)
    then child_exit_code
    else 0

-- The commands from `index_of_command` on, first to last, with what each of them exits with: the
-- children in the order of their forks, and the code that is returned. Only the low 8 bits of a
-- child's code are seen.
unfoldable pub recur_pipe_call : (ℕ → ℕ) → List ℕ → ℕ → End → List Child × ℕ
recur_pipe_call exit_of [] index_of_command in_pipe_fd = ([], 0)
recur_pipe_call exit_of (c ∷ []) index_of_command in_pipe_fd =
    (record { command = c; input = in_pipe_fd; output = stdout } ∷ [], exit_of c % 256)
recur_pipe_call exit_of (c ∷ d ∷ rest) index_of_command in_pipe_fd =
    let (children, exit_code) =
      recur_pipe_call exit_of (d ∷ rest) (index_of_command + 1) (pipe_read index_of_command) in
    let child : Child = record {
      command = c;
      input = in_pipe_fd;
      output = pipe_write index_of_command;
    } in
    (child ∷ children, combine exit_code (exit_of c % 256))

-- `main`: 22 is `EINVAL`.
unfoldable pub main : (ℕ → ℕ) → List ℕ → List Child × ℕ
unfolding recur_pipe_call
main exit_of [] = ([], 22)
main exit_of (c ∷ rest) = recur_pipe_call exit_of (c ∷ rest) 1 stdin
