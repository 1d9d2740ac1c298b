-- ===== src/Http/Fileset/Index.antt =====
-- The index of a set of files is read back as it was written.
use mathlib.Core.List.{append_assoc}
use ece344_operating_systems.Base.{
  ℕ, zero, suc, ◌+◌, ◌^◌, ◌≤◌, ◌<◌, Bool, true, false, ◌&&◌, Option, none, some, List, [], ◌∷◌,
  ◌++◌, ltb, ◌≡◌, refl, ap, ◌∙◌, arith, isspace, skip_space, decimal, cut, length, length-append,
}
use ece344_operating_systems.Base.Text.Decimal.{all_digits-decimal, length-decimal}
use ece344_operating_systems.Http.Result.{ok}
use ece344_operating_systems.Http.Rio.{Input, Rio, rio_init}
use ece344_operating_systems.Http.Rio.Bytes.{flat, content, is_reliable}
use ece344_operating_systems.Http.Rio.Gets.{is_clean, clean-append, newline-Gets, readlineb-Ends}
use ece344_operating_systems.Http.Request.{maxline, word, scan_word}
use ece344_operating_systems.Http.RoundTrip.{is_name, name-clean, word-name}
use ece344_operating_systems.Http.Client.{scan_int}
use ece344_operating_systems.Http.Client.Numbers.{digits-clean, scan_int-decimal}
use ece344_operating_systems.Http.Fileset.{
  FileInfo, index_line, index_lines, index_text, scan_info, scan_csum, scan_len, read_infos,
  init_fileset, atoi, is_positive_int,
}

abbrev pub is_long_name : List ℕ → Bool
is_long_name [] = false
is_long_name (c ∷ cs) = is_name (c ∷ cs) && ltb (length (c ∷ cs)) 8000

-- A name of less than 8000 bytes without white space, and numbers of 32 bits.
abbrev pub is_info : FileInfo → Bool
is_info f = is_long_name f.name && ltb f.csum (2 ^ 32) && ltb f.len (2 ^ 32)

abbrev pub all_infos : List FileInfo → Bool
all_infos [] = true
all_infos (f ∷ fs) = is_info f && all_infos fs

-- A line of the index without its end.
abbrev info_text : FileInfo → List ℕ
info_text f = f.name ++ 32 ∷ (decimal f.csum ++ 32 ∷ decimal f.len)

line_text : (f : FileInfo) (rest : List ℕ) → index_line f ++ rest ≡ info_text f ++ 10 ∷ rest
line_text f rest = simp append_assoc refl

cut-newline : (xs : List ℕ) → is_clean xs ≡ true → cut (xs ++ 10 ∷ []) ≡ xs ++ 10 ∷ []
cut-newline [] a = refl
cut-newline (zero ∷ xs) a = absurd (ground (arith, a))
cut-newline (suc c ∷ xs) a = ap (λ (l : List ℕ). suc c ∷ l) (cut-newline xs (ground (arith, a)))

decimal-clean : (n : ℕ) → is_clean (decimal n) ≡ true
decimal-clean n = digits-clean (decimal n) (all_digits-decimal n)

module _ (f : FileInfo) (good : is_info f ≡ true) where
  name_good : is_long_name f.name ≡ true
  name_good = ground (arith, good)

  csum_small : f.csum < 2 ^ 32
  csum_small = ground (arith, good)

  len_small : f.len < 2 ^ 32
  len_small = ground (arith, good)

  is_name-name : (xs : List ℕ) → is_long_name xs ≡ true → is_name xs ≡ true
  is_name-name [] h = refl
  is_name-name (c ∷ cs) h = ground (arith, h)

  short_name : (xs : List ℕ) → is_long_name xs ≡ true → length xs < 8000
  short_name [] h = omega arith
  short_name (c ∷ cs) h = ground (arith, h)

  info-clean : is_clean (info_text f) ≡ true
  info-clean =
      clean-append f.name (32 ∷ (decimal f.csum ++ 32 ∷ decimal f.len))
        (name-clean f.name (is_name-name f.name name_good))
        (clean-append (decimal f.csum) (32 ∷ decimal f.len) (decimal-clean f.csum)
          (decimal-clean f.len))

  info-short : length (info_text f) + 2 ≤ maxline
  info-short =
      let a = length-append f.name (32 ∷ (decimal f.csum ++ 32 ∷ decimal f.len)) in
      let b = length-append (decimal f.csum) (32 ∷ decimal f.len) in
      let c = length-decimal f.csum csum_small in
      let d = length-decimal f.len len_small in let e = short_name f.name name_good in omega arith

  -- The words of the line.
  scan_line :
      (left : FileInfo) (name : List ℕ)
      → is_long_name name ≡ true
      → scan_info left (name ++ 32 ∷ (decimal f.csum ++ 32 ∷ (decimal f.len ++ 10 ∷ [])))
        ≡ record { name = name; csum = f.csum; len = f.len }
  scan_line left [] h = absurd (ground (arith, h))
  scan_line left (c ∷ cs) h =
      let tail = decimal f.csum ++ 32 ∷ (decimal f.len ++ 10 ∷ []) in
      let solid : isspace c ≡ false = ground (arith, h) in
      let skips : skip_space (c ∷ (cs ++ 32 ∷ tail)) ≡ c ∷ (cs ++ 32 ∷ tail) = rw solid refl in
      let first : scan_word (c ∷ (cs ++ 32 ∷ tail)) ≡ some (c ∷ cs, 32 ∷ tail) =
        ap
          (λ (xs : List ℕ). elim xs as (λ (ys : List ℕ). Option (List ℕ × List ℕ)) [
            | [] ↦ none
            | d ∷ ds ↦ some (word (d ∷ ds))
          ])
          skips
        ∙ ap (λ (p : List ℕ × List ℕ). some p) (word-name (c ∷ cs) tail (ground (arith, h))) in
      ap
        (λ (o : Option (List ℕ × List ℕ)). elim o as (λ (p : Option (List ℕ × List ℕ)). FileInfo) [
          | none ↦ left
          | some r ↦ scan_csum left (r.0) (scan_int (r.1))
        ])
        first
      ∙ ap (scan_csum left (c ∷ cs))
          (scan_int-decimal f.csum (32 ∷ (decimal f.len ++ 10 ∷ [])) refl csum_small)
      ∙ ap (scan_len left (c ∷ cs) f.csum) (scan_int-decimal f.len (10 ∷ []) refl len_small)

  scan-info : (left : FileInfo) → scan_info left (cut (info_text f ++ 10 ∷ [])) ≡ f
  scan-info left =
      ap (scan_info left) (
        cut-newline (info_text f) info-clean
        ∙ append_assoc f.name (32 ∷ (decimal f.csum ++ 32 ∷ decimal f.len)) (10 ∷ [])
        ∙ ap (λ (l : List ℕ). f.name ++ 32 ∷ l)
            (append_assoc (decimal f.csum) (32 ∷ decimal f.len) (10 ∷ [])))
      ∙ scan_line left f.name name_good

read_infos-all :
    (fuel : ℕ) (left : FileInfo) (fs : List FileInfo) (rp : Rio)
    → is_reliable rp.input ≡ true
    → all_infos fs ≡ true
    → content rp ≡ index_lines fs
    → length fs < fuel
    → read_infos fuel left (length fs) rp ≡ ok fs
unfolding read_infos
read_infos-all zero left fs rp r h e l = absurd (omega arith)
read_infos-all (suc fuel) left [] rp r h e l =
    let (rp', runs, none_left, r') = readlineb-Ends 8191 rp r e in rw (read_infos, runs) refl
read_infos-all (suc fuel) left (f ∷ fs) rp r h e l =
    let good : is_info f ≡ true = ground (arith, h) in
    let rest : all_infos fs ≡ true = ground (arith, h) in
    let (rp', runs, more, r') =
      newline-Gets maxline rp (info_text f) (index_lines fs) r (info-clean f good)
        (info-short f good) (e ∙ line_text f (index_lines fs)) in
    let ih = read_infos-all fuel left fs rp' r' rest more (omega arith) in
    rw (read_infos, runs, ih) (ap (λ (g : FileInfo). ok (g ∷ fs)) (scan-info f good left))

positive-int : (n : ℕ) → 1 ≤ n → n < 2 ^ 31 → is_positive_int n ≡ true
positive-int n a b = ground arith

-- `init_fileset` on the index of a set of files that is not empty, of names of less than 8000 bytes
-- without white space and numbers of 32 bits, gives back the number of files and each file's name,
-- checksum and length, in order, in whatever pieces the index is read; as many rounds as there are
-- files, and one more, are enough.
pub init_fileset-index_text :
    (fuel : ℕ) (left : FileInfo) (fs : List FileInfo) (input : Input)
    → is_reliable input ≡ true
    → all_infos fs ≡ true
    → 1 ≤ length fs
    → length fs < 2 ^ 31
    → flat input ≡ index_text fs
    → length fs < fuel
    → init_fileset fuel left input ≡ ok (length fs, fs)
unfolding init_fileset rio_init
init_fileset-index_text fuel left fs input r h one few e l =
    let n = length fs in
    let size = length-decimal n (omega arith) in
    let (rp, runs, more, r') =
      newline-Gets maxline (rio_init input) (decimal n) (index_lines fs) r (decimal-clean n)
        (omega arith) e in
    let number : atoi (cut (decimal n ++ 10 ∷ [])) ≡ n =
      ap atoi (cut-newline (decimal n) (decimal-clean n))
      ∙ ap
          (λ (o : Option (ℕ × List ℕ)). elim o as (λ (p : Option (ℕ × List ℕ)). ℕ) [
            | none ↦ 0
            | some k ↦ k.0
          ])
          (scan_int-decimal n (10 ∷ []) refl (omega arith)) in
    let some_files : is_positive_int n ≡ true = positive-int n one few in
    let infos = read_infos-all fuel left fs rp r' h more l in
    rw (init_fileset, runs, number, some_files, infos) refl
