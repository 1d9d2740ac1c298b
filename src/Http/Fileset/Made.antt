-- ===== src/Http/Fileset/Made.antt =====
-- The files that webserver/fileset.c makes are those that the client knows of.
use native.Mathlib.Nat.{one-le-mul}
use ece344_operating_systems.Base.{
  ℕ, ◌+◌, ◌*◌, ◌/◌, ◌%◌, ◌^◌, ◌≤◌, ◌<◌, Bool, true, false, not, ◌&&◌, List, [], ◌∷◌, ◌++◌, map,
  ◌==◌, ltb, leb, if◌then◌else◌, ◌≡◌, ◌⊎◌, refl, ◌∙◌, sym, arith, Bool-cases, inl, inr, isspace,
  length, length-append,
}
use ece344_operating_systems.Http.Result.{Result, ok, stop, fault, exits, running, ◌>>=◌}
use ece344_operating_systems.Http.Rio.{Input}
use ece344_operating_systems.Http.Rio.Bytes.{flat, is_reliable}
use ece344_operating_systems.Http.RoundTrip.{is_name}
use ece344_operating_systems.Http.Request.Response.{total}
use ece344_operating_systems.Http.Client.Body.{add_bytes-total}
use ece344_operating_systems.Http.Fileset.{
  FileInfo, printable, five_digits, new_file, make_files, main, index_line, index_text,
  init_fileset,
}
use ece344_operating_systems.Http.Fileset.Index.{
  is_long_name, is_info, all_infos, init_fileset-index_text,
}

-- The bytes that are written into the files.
abbrev pub contents : List (List ℕ) → List (List ℕ)
contents draws = map (map printable) draws

-- A size of 31 bits for each file.
abbrev pub all_small : List (List ℕ) → Bool
all_small [] = true
all_small (d ∷ ds) = ltb (length d) (2 ^ 31) && all_small ds

name-append : (xs ys : List ℕ) → is_name xs ≡ true → is_name ys ≡ true → is_name (xs ++ ys) ≡ true
name-append [] ys a b = b
name-append (x ∷ xs) ys a b = ground (arith, name-append xs ys)

digit-name : (n : ℕ) → not ((48 + n % 10) == 0) && not (isspace (48 + n % 10)) ≡ true
digit-name n = ground arith

digits-name : (n : ℕ) → is_name (47 ∷ five_digits n) ≡ true
digits-name n = ground (
  arith,
  digit-name (n / 10000),
  digit-name (n / 1000),
  digit-name (n / 100),
  digit-name (n / 10),
  digit-name n,
)

long-name :
    (xs : List ℕ) → is_name xs ≡ true → 1 ≤ length xs → length xs < 8000 → is_long_name xs ≡ true
long-name [] h a b = absurd (omega arith)
long-name (c ∷ cs) h a b = ground (arith, h)

new_file-info :
    (dir : List ℕ) (nr : ℕ) (draws : List ℕ)
    → is_name dir ≡ true
    → length dir ≤ 1000
    → length draws < 2 ^ 31
    → is_info (new_file dir nr draws) ≡ true
unfolding new_file
new_file-info dir nr draws h l s =
    let sum = add_bytes-total 0 (map printable draws) (omega arith) in
    let size = length-append dir (47 ∷ five_digits nr) in
    let name =
      long-name (dir ++ 47 ∷ five_digits nr)
        (name-append dir (47 ∷ five_digits nr) h (digits-name nr)) (omega arith) (omega arith) in
    ground (arith, name, sum)

-- Each file has the sum of the bytes written into it, modulo 2 ^ 32, and their number.
abbrev pub Describes : List (List ℕ) → List FileInfo → Type 0
Describes draws [] = true ≡ true
Describes [] (f ∷ fs) = true ≡ false
Describes (d ∷ ds) (f ∷ fs) =
    (f.csum ≡ total (map printable d) % 2 ^ 32) × (f.len ≡ length d) × Describes ds fs

-- What the loop makes.
abbrev Makes : List (List ℕ) → Bool → List FileInfo → Type 0
Makes draws more fs = (all_infos fs ≡ true) × Describes draws fs × (more ≡ true → 1 ≤ length fs)

cons-ok :
    (f : FileInfo) (o : Result (List FileInfo)) (fs : List FileInfo)
    → (o >>= λ (xs : List FileInfo). ok (f ∷ xs)) ≡ ok fs
    → (xs : List FileInfo) × (o ≡ ok xs) × (fs ≡ f ∷ xs)
cons-ok f (ok xs) fs e = (xs, refl, ground (arith, e))
cons-ok f (stop s) fs e = absurd (ground (arith, e))

make_files_nil :
    (dir : List ℕ) (total_size nr current cur_size : ℕ) (fs : List FileInfo)
    → make_files dir total_size [] nr current cur_size ≡ ok fs
    → (ltb current total_size ≡ false) × (fs ≡ [])
unfolding make_files
make_files_nil dir total_size nr current cur_size fs e =
    elim (Bool-cases (ltb current total_size)) [
      | inl more ↦
          let run : make_files dir total_size [] nr current cur_size ≡ stop running =
            rw (make_files, more) refl in
          absurd (ground (arith, sym run ∙ e))
      | inr enough ↦
          let run : make_files dir total_size [] nr current cur_size ≡ ok [] =
            rw (make_files, enough) refl in
          (enough, ground (arith, sym run ∙ e))
    ]

make_files_cons :
    (dir : List ℕ) (total_size : ℕ) (d : List ℕ) (ds : List (List ℕ)) (nr current cur_size : ℕ)
    (fs : List FileInfo)
    → make_files dir total_size (d ∷ ds) nr current cur_size ≡ ok fs
    → ((ltb current total_size ≡ false) × (fs ≡ []))
      ⊎ ((xs : List FileInfo) × (make_files dir total_size ds
              (nr + 1)
              (current + length d)
              (cur_size + length (index_line (new_file dir nr d)))
            ≡ ok xs)
          × (fs ≡ new_file dir nr d ∷ xs))
unfolding make_files
make_files_cons dir total_size d ds nr current cur_size fs e =
    let f = new_file dir nr d in
    let size = cur_size + length (index_line f) in
    let rest = make_files dir total_size ds (nr + 1) (current + length d) size in
    elim (Bool-cases (ltb current total_size)) [
      | inr enough ↦
          let run : make_files dir total_size (d ∷ ds) nr current cur_size ≡ ok [] =
            rw (make_files, enough) refl in
          inl (enough, ground (arith, sym run ∙ e))
      | inl more ↦ elim (Bool-cases (leb (2 ^ 31) (current + length d))) [
        | inl over ↦
            let run : make_files dir total_size (d ∷ ds) nr current cur_size ≡ stop fault =
              rw (make_files, more, over) refl in
            absurd (ground (arith, sym run ∙ e))
        | inr within ↦ elim (Bool-cases (leb 1048575 size)) [
          | inl big ↦
              let run : make_files dir total_size (d ∷ ds) nr current cur_size ≡ stop exits =
                rw (make_files, more, within, big) refl in
              absurd (ground (arith, sym run ∙ e))
          | inr room ↦
              let run : make_files dir total_size (d ∷ ds) nr current cur_size
                  ≡ (rest >>= λ (xs : List FileInfo). ok (f ∷ xs)) =
                rw (make_files, more, within, room) refl in
              inr (cons-ok f rest fs (sym run ∙ e))
        ]
      ]
    ]

new_file-sums :
    (dir : List ℕ) (nr : ℕ) (d : List ℕ)
    → ((new_file dir nr d).csum ≡ total (map printable d) % 2 ^ 32)
      × ((new_file dir nr d).len ≡ length d)
unfolding new_file
new_file-sums dir nr d = (add_bytes-total 0 (map printable d) (omega arith) ∙ omega arith, refl)

make_files-Makes :
    (dir : List ℕ) (total_size : ℕ) (draws : List (List ℕ)) (nr current cur_size : ℕ)
    (fs : List FileInfo)
    → is_name dir ≡ true
    → length dir ≤ 1000
    → all_small draws ≡ true
    → make_files dir total_size draws nr current cur_size ≡ ok fs
    → Makes draws (ltb current total_size) fs
make_files-Makes dir total_size [] nr current cur_size fs h l s e =
    let (enough, none_made) = make_files_nil dir total_size nr current cur_size fs e in
    rw (none_made, enough) (refl, refl, λ x. absurd (ground (arith, x)))
make_files-Makes dir total_size (d ∷ ds) nr current cur_size fs h l s e =
    let small : length d < 2 ^ 31 = ground (arith, s) in
    let others : all_small ds ≡ true = ground (arith, s) in
    let info = new_file-info dir nr d h l small in
    let (sum, len) = new_file-sums dir nr d in
    elim (make_files_cons dir total_size d ds nr current cur_size fs e) [
      | inl (enough, none_made) ↦
          rw (none_made, enough) (refl, refl, λ x. absurd (ground (arith, x)))
      | inr (xs, rest, made) ↦
          let (good, described, some_made) =
            make_files-Makes dir total_size ds (nr + 1) (current + length d)
              (cur_size + length (index_line (new_file dir nr d))) xs h l others rest in
          rw made (ground (arith, info, good), (sum, len, described), λ x. omega arith)
    ]

abbrev with_index : List FileInfo → Result (List FileInfo × List ℕ)
with_index xs = ok (xs, index_text xs)

past_tests :
    (a b c d : Bool) (o : Result (List FileInfo)) (fs : List FileInfo) (text : List ℕ)
    → (if a
        then stop exits
        else if b
        then stop exits
        else if c
        then stop exits
        else if d
        then stop fault
        else (o >>= λ (xs : List FileInfo). with_index xs))
      ≡ ok (fs, text)
    → (a ≡ false) × (b ≡ false) × (c ≡ false) × (o ≡ ok fs) × (text ≡ index_text fs)
past_tests true b c d o fs text e = absurd (ground (arith, e))
past_tests false true c d o fs text e = absurd (ground (arith, e))
past_tests false false true d o fs text e = absurd (ground (arith, e))
past_tests false false false true o fs text e = absurd (ground (arith, e))
past_tests false false false false (stop s) fs text e = absurd (ground (arith, e))
past_tests false false false false (ok xs) fs text e =
    (refl, refl, refl, ground (arith, e), ground (arith, e))

positive-total : (a b : ℕ) → 2 ≤ a → 1 ≤ b → ltb 0 (a * 4096 * b) ≡ true
positive-total a b h k =
    let some_bytes : 1 ≤ a * 4096 * b = one-le-mul (omega arith) k in ground arith

-- What `main` makes, it makes from the total size on.
main-files :
    (dir : List ℕ) (file_sz nr_files : ℕ) (draws : List (List ℕ)) (fs : List FileInfo)
    (text : List ℕ)
    → main dir file_sz nr_files draws ≡ ok (fs, text)
    → (2 ≤ file_sz)
      × (1 ≤ nr_files)
      × (length dir ≤ 1000)
      × (make_files dir (file_sz * 4096 * nr_files) draws 0 0 0 ≡ ok fs)
      × (text ≡ index_text fs)
unfolding main
main-files dir file_sz nr_files draws fs text e =
    let (a, b, c, made, same) =
      past_tests (leb file_sz 1) (not (leb 1 nr_files && leb nr_files 99999))
        (ltb 1000 (length dir)) (leb (2 ^ 31) (file_sz * 4096 * nr_files))
        (make_files dir (file_sz * 4096 * nr_files) draws 0 0 0) fs text e in
    (ground (arith, a), ground (arith, b), ground (arith, c), made, same)

-- The client's `init_fileset` reads from the index that webserver/fileset.c has written exactly the
-- files that it has made, at least one: under their names, and with the sum of the bytes written
-- into each, modulo 2 ^ 32, and their number, if fileset.c ends without an overflow of the sum of
-- the sizes, each file has less than 2 ^ 31 bytes and the directory's name has no white space.
pub init_fileset-main :
    (fuel : ℕ) (left : FileInfo) (dir : List ℕ) (file_sz nr_files : ℕ) (draws : List (List ℕ))
    (fs : List FileInfo) (text : List ℕ) (input : Input)
    → is_name dir ≡ true
    → all_small draws ≡ true
    → main dir file_sz nr_files draws ≡ ok (fs, text)
    → length fs < 2 ^ 31
    → is_reliable input ≡ true
    → flat input ≡ text
    → length fs < fuel
    → (init_fileset fuel left input ≡ ok (length fs, fs)) × (1 ≤ length fs) × Describes draws fs
init_fileset-main fuel left dir file_sz nr_files draws fs text input h s e few r t l =
    let (sz, nr, short, made, same) = main-files dir file_sz nr_files draws fs text e in
    let (good, described, some_made) =
      make_files-Makes dir (file_sz * 4096 * nr_files) draws 0 0 0 fs h short s made in
    let one = some_made (positive-total file_sz nr_files sz nr) in
    (init_fileset-index_text fuel left fs input r good one few (t ∙ same) l, one, described)
