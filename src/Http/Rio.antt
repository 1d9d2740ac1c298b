-- ===== src/Http/Rio.antt =====
-- The robust input and output of webserver/common.c. What the calls of `read` and `write` on a
-- descriptor return is the input of the model, a list of answers; bytes are numbers.
pub mod Bytes
pub mod Lines
pub mod Gets
pub mod Write
use ece344_operating_systems.Base.{
  ℕ, zero, suc, ◌+◌, ◌-◌, Bool, true, false, List, [], ◌∷◌, ◌++◌, ◌==◌, ltb, if◌then◌else◌, length,
  take, drop,
}

-- The next answers of `read`: bytes that have come, of which a call takes at most as many as it
-- asks for, none at the end of the file; EINTR; another error. Behind the answers the file ends.
pub data Answer : Type 0 where
  got : List ℕ → Answer
  interrupted failed : Answer

abbrev pub Input : Type 0
Input = List Answer

-- The bytes of an answer that a call has left.
abbrev pub put_back : List ℕ → Input → Input
put_back [] input = input
put_back (x ∷ xs) input = got (x ∷ xs) ∷ input

-- What a function has read, or an error.
pub data Read : Type 0 where
  done : List ℕ → Input → Read
  error : Input → Read

abbrev pub prepend : List ℕ → Read → Read
prepend xs (done ys input) = done (xs ++ ys) input
prepend xs (error input) = error input

-- The loop of `rio_read` with `nleft` bytes to come.
unfoldable pub rio_read : ℕ → Input → Read
rio_read zero input = done [] input
rio_read (suc n) [] = done [] []
rio_read (suc n) (interrupted ∷ input) = rio_read (suc n) input
rio_read (suc n) (failed ∷ input) = error input
rio_read (suc n) (got [] ∷ input) = done [] input
rio_read (suc n) (got (x ∷ xs) ∷ input) =
    let rest = rio_read (n - length xs) input in
    if ltb n (length xs)
    then done (take (suc n) (x ∷ xs)) (put_back (drop (suc n) (x ∷ xs)) input)
    else prepend (x ∷ xs) rest

-- The next answers of `write`: how many bytes it has taken, at most those that are left; none, or
-- an error, with `errno` EINTR or another. Behind the answers each call takes all that is left.
pub data Taken : Type 0 where
  wrote : ℕ → Taken
  again : Taken
  broken : Taken

-- The loop of `rio_write`: what has been written, and whether it returns `n`.
unfoldable pub rio_write : List ℕ → List Taken → List ℕ × Bool
rio_write [] answers = ([], true)
rio_write (x ∷ xs) [] = (x ∷ xs, true)
rio_write (x ∷ xs) (again ∷ answers) = rio_write (x ∷ xs) answers
rio_write (x ∷ xs) (broken ∷ answers) = ([], false)
rio_write (x ∷ xs) (wrote zero ∷ answers) = rio_write (x ∷ xs) answers
rio_write (x ∷ xs) (wrote (suc k) ∷ answers) =
    let (rest, all) = rio_write (drop k xs) answers in (x ∷ take k xs ++ rest, all)

abbrev pub rio_bufsize : ℕ
rio_bufsize = 8192

-- `struct rio`: the unread bytes of the buffer, and the descriptor.
pub record Rio : Type 0 where
  pub unread : List ℕ
  pub input : Input

unfoldable pub rio_init : Input → Rio
rio_init input = record { unread = []; input = input }

-- What the loop that fills the buffer ends in.
pub data Filled : Type 0 where
  filled : Rio → Filled
  ended : Rio → Filled
  refused : Rio → Filled

unfoldable pub refill : Input → Filled
refill [] = ended (record { unread = []; input = [] })
refill (interrupted ∷ input) = refill input
refill (failed ∷ input) = refused (record { unread = []; input = input })
refill (got [] ∷ input) = ended (record { unread = []; input = input })
refill (got (x ∷ xs) ∷ input) = filled (record {
  unread = take rio_bufsize (x ∷ xs);
  input = put_back (drop rio_bufsize (x ∷ xs)) input;
})

-- `rio_readb`: the bytes copied to the caller, none at the end of the file, or an error.
pub data Copied : Type 0 where
  copied : List ℕ → Rio → Copied
  at_end : Rio → Copied
  bad : Rio → Copied

abbrev pub copy_out : ℕ → Rio → Copied
copy_out n rp = copied (take n rp.unread) (record rp { unread = drop n rp.unread })

unfoldable pub rio_readb : ℕ → Rio → Copied
unfolding refill
rio_readb n rp = elim rp.unread [
  | [] ↦ elim (refill rp.input) [
    | filled rp' ↦ copy_out n rp'
    | ended rp' ↦ at_end rp'
    | refused rp' ↦ bad rp'
  ]
  | x ∷ xs ↦ copy_out n rp
]

-- A line with its terminating 0 left off: its bytes, none at the end of the file, or an error.
pub data Line : Type 0 where
  line : List ℕ → Rio → Line
  no_line : Rio → Line

abbrev pub prepend_line : ℕ → Line → Line
prepend_line c (line xs rp) = line (c ∷ xs) rp
prepend_line c (no_line rp) = no_line rp

-- The loop of `rio_readlineb`, with room for `left` more bytes.
unfoldable pub readline_from : ℕ → Rio → Line
unfolding rio_readb
readline_from zero rp = line [] rp
readline_from (suc left) rp = elim (rio_readb 1 rp) [
  | copied [] rp' ↦ line [] rp'
  | copied (c ∷ cs) rp' ↦
      let rest = readline_from left rp' in
      if c == 10 then line (c ∷ []) rp' else prepend_line c rest
  | at_end rp' ↦ line [] rp'
  | bad rp' ↦ no_line rp'
]

-- What `rio_readlineb` leaves in the buffer: a line with its 0; nothing, at the end of the file.
-- A line as long as the buffer has its 0 written behind it.
pub data GotLine : Type 0 where
  a_line : List ℕ → Rio → GotLine
  end_of_file : Rio → GotLine
  overrun : GotLine
  read_error : GotLine

abbrev pub in_buffer : ℕ → Line → GotLine
in_buffer maxlen (line [] rp) = end_of_file rp
in_buffer maxlen (line (c ∷ cs) rp) =
    if length (c ∷ cs) == maxlen then overrun else a_line (c ∷ cs) rp
in_buffer maxlen (no_line rp) = read_error

-- `rio_readlineb` with a buffer of `maxlen` bytes, more than none.
unfoldable pub rio_readlineb : ℕ → Rio → GotLine
unfolding readline_from
rio_readlineb maxlen rp = in_buffer maxlen (readline_from maxlen rp)
