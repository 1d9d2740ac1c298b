-- ===== src/Warmup/Cpr.antt =====
-- warmup/cpr.c: the copy of a directory with everything under it. The source is a tree of what the
-- system calls answer for it, the destination a tree of nodes; the destination is not in the source.
pub mod Image
pub mod Copies
use ece344_operating_systems.Base.{
  ℕ, Bool, true, false, Option, none, some, List, [], ◌∷◌, ◌++◌, ◌%◌, ◌||◌, ◌==◌, eq_string, length,
  if◌then◌else◌, drop,
}
use ece344_operating_systems.Http.Result.{Result, ok, stop, exits, running, ◌>>=◌}

-- What the calls of `read` on a file return: zero at its end; the bytes of one call; an error; an
-- error from now on.
pub data Reads : Type 0 where
  eof : Reads
  bytes : ℕ → List ℕ → Reads → Reads
  failed : Reads → Reads
  failing : Reads

-- What is under a directory of the source, in the order of `readdir`, with `st_mode`. A regular
-- file that cannot be opened has no reads; the Boolean of a directory, which is any entry that is
-- not a regular file, says whether `opendir` succeeds.
mutual
  pub data Entry : Type 0 where
    regular : List ℕ → ℕ → Option Reads → Entry
    directory : List ℕ → ℕ → Bool → Listing → Entry

  pub data Listing : Type 0 where
    end : Listing
    entry : Entry → Listing → Listing

-- What is under a directory of the destination: names, bytes and permissions.
mutual
  pub data Node : Type 0 where
    file : List ℕ → ℕ → Node
    folder : Nodes → ℕ → Node

  pub data Nodes : Type 0 where
    empty : Nodes
    node : List ℕ → Node → Nodes → Nodes

unfoldable pub find : List ℕ → Nodes → Option Node
find name empty = none
find name (node n x es) = if eq_string n name then some x else find name es

-- The node of that name is replaced, and is the last where there is none.
unfoldable pub put : List ℕ → Node → Nodes → Nodes
put name x empty = node name x empty
put name x (node n y es) =
    let rest = put name x es in if eq_string n name then node n x es else node n y rest

abbrev pub permissions : ℕ → ℕ
permissions mode = mode % 4096

abbrev pub s_irwxu : ℕ
s_irwxu = 448

unfoldable pub chmod : ℕ → Node → Node
chmod mode (file text m) = file text (permissions mode)
chmod mode (folder es m) = folder es (permissions mode)

-- The loop of `file_copy_routine`, with the bytes of the destination before and behind its offset.
-- Behind an error of `read`, `write` is asked for `(size_t) -1` bytes and takes none.
unfoldable pub copy_loop : Reads → List ℕ → List ℕ → Result (List ℕ)
copy_loop eof before behind = ok (before ++ behind)
copy_loop (bytes x xs rest) before behind =
    copy_loop rest (before ++ x ∷ xs) (drop (length (x ∷ xs)) behind)
copy_loop (failed rest) before behind = copy_loop rest before behind
copy_loop failing before behind = stop running

-- The destination is opened without O_TRUNC; where it is a directory, `open` and every `write` fail.
unfoldable pub file_copy_routine : Option Reads → Option Node → Result Node
file_copy_routine none old = stop exits
file_copy_routine (some reads) none = copy_loop reads [] [] >>= λ text. ok (file text s_irwxu)
file_copy_routine (some reads) (some (file text m)) =
    copy_loop reads [] text >>= λ text'. ok (file text' m)
file_copy_routine (some reads) (some (folder es m)) =
    copy_loop reads [] [] >>= λ text. ok (folder es m)

-- `mkdir`, whose error is ignored.
unfoldable pub mkdir : Option Node → Node
mkdir none = folder empty s_irwxu
mkdir (some x) = x

-- Paths below a file lead nowhere.
abbrev pub inside : Node → Nodes
inside (file text m) = empty
inside (folder es m) = es

abbrev pub with_inside : Nodes → Node → Node
with_inside es (file text m) = file text m
with_inside es (folder es' m) = folder es m

-- "." and "..".
abbrev pub is_dots : List ℕ → Bool
is_dots name = eq_string name (46 ∷ []) || eq_string name (46 ∷ 46 ∷ [])

-- The loop of `dir_recursive`, and its body.
unfoldable mutual
  unfolding find put chmod file_copy_routine mkdir

  pub copy_entries : Listing → Nodes → Result Nodes
  copy_entries end es = ok es
  copy_entries (entry e rest) es = copy_entry e es >>= copy_entries rest

  pub copy_entry : Entry → Nodes → Result Nodes
  copy_entry (regular name mode reads) es =
      if is_dots name
      then ok es
      else (file_copy_routine reads (find name es) >>= λ x. ok (put name (chmod mode x) es))
  copy_entry (directory name mode opens under) es =
      if is_dots name
      then ok es
      else ((if opens then copy_entries under (inside (mkdir (find name es))) else stop exits)
          >>= λ inner. ok (put name (chmod mode (with_inside inner (mkdir (find name es)))) es))

unfoldable pub dir_recursive : Bool → Listing → Nodes → Result Nodes
dir_recursive opens under es = if opens then copy_entries under es else stop exits

-- `main`, with the mode of the source and what stands at the destination.
unfoldable pub main : ℕ → ℕ → Bool → Listing → Option Node → Result Node
unfolding dir_recursive chmod
main argc mode opens under (some x) = stop exits
main argc mode opens under none =
    if argc == 3
    then (dir_recursive opens under empty >>= λ es. ok (chmod mode (folder es s_irwxu)))
    else stop exits
