-- ===== src/Http/Fileset.antt =====
-- The set of files for the client: webserver/fileset.c, which makes it and its index, and
-- `init_fileset` of webserver/client.c, which reads the index. What `random` and `rand_pareto` draw
-- is an input, a list of numbers for each file, as many as its size.
pub mod Index
pub mod Made
use ece344_operating_systems.Base.{
  ℕ, zero, suc, ◌+◌, ◌-◌, ◌*◌, ◌/◌, ◌%◌, ◌^◌, Bool, true, false, not, ◌&&◌, Option, none, some,
  List, [], ◌∷◌, ◌++◌, map, ◌==◌, ltb, leb, if◌then◌else◌, codes, decimal, cut, length,
}
use ece344_operating_systems.Http.Result.{Result, ok, stop, fault, exits, running, ◌>>=◌}
use ece344_operating_systems.Http.Rio.{
  Input, Rio, a_line, end_of_file, overrun, read_error, rio_readlineb, rio_init,
}
use ece344_operating_systems.Http.Request.{maxline, scan_word}
use ece344_operating_systems.Http.Client.{add_bytes, scan_int}

-- `struct fileinfo`, with a checksum and a length of 32 bits.
pub record FileInfo : Type 0 where
  pub name : List ℕ
  pub csum : ℕ
  pub len : ℕ

-- A printable character.
abbrev pub printable : ℕ → ℕ
printable r = r % (115 - 32) + 32

-- `%05d` of a number below 100000.
abbrev pub five_digits : ℕ → List ℕ
five_digits n =
    (48 + n / 10000 % 10)
    ∷ (48 + n / 1000 % 10)
    ∷ (48 + n / 100 % 10)
    ∷ (48 + n / 10 % 10)
    ∷ (48 + n % 10)
    ∷ []

-- The file number `nr`: its name, the checksum of its content, and its size.
unfoldable pub new_file : List ℕ → ℕ → List ℕ → FileInfo
unfolding add_bytes
new_file dir nr draws = record {
  name = dir ++ 47 ∷ five_digits nr;
  csum = add_bytes 0 (map printable draws);
  len = length draws;
}

abbrev pub index_line : FileInfo → List ℕ
index_line f = f.name ++ 32 ∷ (decimal f.csum ++ 32 ∷ (decimal f.len ++ 10 ∷ []))

abbrev pub index_lines : List FileInfo → List ℕ
index_lines [] = []
index_lines (f ∷ fs) = index_line f ++ index_lines fs

-- The loop that makes files until their sizes have the total: the files, in order. The sum of the
-- sizes is an int.
unfoldable pub make_files : List ℕ → ℕ → List (List ℕ) → ℕ → ℕ → ℕ → Result (List FileInfo)
unfolding new_file decimal
make_files dir total [] nr current cur_size = if ltb current total then stop running else ok []
make_files dir total (d ∷ ds) nr current cur_size =
    let f = new_file dir nr d in
    let size = cur_size + length (index_line f) in
    let rest = make_files dir total ds (nr + 1) (current + length d) size in
    if not (ltb current total)
    then ok []
    else if leb (2 ^ 31) (current + length d)
    then stop fault
    else if leb (4096 * 256 - 1) size
    then stop exits
    else (rest >>= λ fs. ok (f ∷ fs))

-- The index file: the number of files, and a line for each.
abbrev pub index_text : List FileInfo → List ℕ
index_text fs = decimal (length fs) ++ 10 ∷ index_lines fs

-- `main` behind its options: the files and the index. The total of the sizes is an int: an
-- overflow, which C leaves undefined, is a fault.
unfoldable pub main : List ℕ → ℕ → ℕ → List (List ℕ) → Result (List FileInfo × List ℕ)
unfolding make_files decimal
main dir default_file_sz default_nr_files draws =
    if leb default_file_sz 1
    then stop exits
    else if not (leb 1 default_nr_files && leb default_nr_files 99999)
    then stop exits
    else if ltb 1000 (length dir)
    then stop exits
    else if leb (2 ^ 31) (default_file_sz * 4096 * default_nr_files)
    then stop fault
    else make_files dir (default_file_sz * 4096 * default_nr_files) draws 0 0 0 >>= λ fs.
        ok (fs, index_text fs)

-- `atoi`, as a word of 32 bits.
abbrev pub atoi : List ℕ → ℕ
atoi buf = elim (scan_int buf) [ none ↦ 0 | some r ↦ r.0 ]

abbrev pub is_positive_int : ℕ → Bool
is_positive_int n = leb 1 n && ltb n (2 ^ 31)

-- `sscanf` of a line of the index; `left` is what `malloc` left in the entry.
abbrev pub scan_len : FileInfo → List ℕ → ℕ → Option (ℕ × List ℕ) → FileInfo
scan_len left name csum none = record left { name = name; csum = csum }
scan_len left name csum (some r) = record { name = name; csum = csum; len = r.0 }

abbrev pub scan_csum : FileInfo → List ℕ → Option (ℕ × List ℕ) → FileInfo
scan_csum left name none = record left { name = name }
scan_csum left name (some r) = scan_len left name (r.0) (scan_int (r.1))

abbrev pub scan_info : FileInfo → List ℕ → FileInfo
scan_info left buf = elim (scan_word buf) [
  | none ↦ left
  | some r ↦ scan_csum left (r.0) (scan_int (r.1))
]

-- The loop of `init_fileset` behind the number of files, with `left_over` of them to come.
unfoldable pub read_infos : ℕ → FileInfo → ℕ → Rio → Result (List FileInfo)
unfolding rio_readlineb
read_infos zero left left_over rp = stop running
read_infos (suc fuel) left left_over rp = elim (rio_readlineb maxline rp) [
  | a_line buf rp' ↦ elim left_over [
    | zero ↦ stop exits
    | suc n ↦ read_infos fuel left n rp' >>= λ fs. ok (scan_info left (cut buf) ∷ fs)
  ]
  | end_of_file rp' ↦ if left_over == 0 then ok [] else stop exits
  | overrun ↦ stop fault
  | read_error ↦ stop exits
]

-- `cl->nr_files` and `cl->fileset`.
unfoldable pub init_fileset : ℕ → FileInfo → Input → Result (ℕ × List FileInfo)
unfolding rio_readlineb rio_init read_infos
init_fileset fuel left input = elim (rio_readlineb maxline (rio_init input)) [
  | a_line buf rp ↦
      let nr_files = atoi (cut buf) in
      if is_positive_int nr_files
      then (read_infos fuel left nr_files rp >>= λ fs. ok (nr_files, fs))
      else stop exits
  | end_of_file rp ↦ stop exits
  | overrun ↦ stop fault
  | read_error ↦ stop exits
]
