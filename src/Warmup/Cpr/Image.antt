-- ===== src/Warmup/Cpr/Image.antt =====
-- What a copy of a source directory is to be, and when nothing stands in its way.
use ece344_operating_systems.Base.{
  ℕ, zero, suc, Bool, true, false, Option, none, some, List, [], ◌∷◌, ◌++◌, ◌||◌, ◌&&◌, not,
  eq_string, if◌then◌else◌, ◌≡◌, refl, sym, ap, ◌∙◌, arith, length, ◌+◌, length-append, drop,
}
use ece344_operating_systems.Http.Result.{ok}
use ece344_operating_systems.Warmup.Cpr.{
  Reads, eof, bytes, failed, failing, Entry, regular, directory, Listing, end, entry, Node, file,
  folder, Nodes, empty, node, permissions, is_dots, copy_loop, file_copy_routine,
}
use mathlib.Core.List.{append_assoc}

-- The bytes of a file.
abbrev pub text_of : Reads → List ℕ
text_of eof = []
text_of (bytes x xs rest) = x ∷ xs ++ text_of rest
text_of (failed rest) = text_of rest
text_of failing = []

abbrev pub comes_to_end : Reads → Bool
comes_to_end eof = true
comes_to_end (bytes x xs rest) = comes_to_end rest
comes_to_end (failed rest) = comes_to_end rest
comes_to_end failing = false

abbrev pub name_of : Entry → List ℕ
name_of (regular name mode reads) = name
name_of (directory name mode opens under) = name

abbrev pub contents : Option Reads → List ℕ
contents none = []
contents (some reads) = text_of reads

-- The nodes that a directory of the source stands for.
unfoldable mutual
  pub image : Listing → Nodes
  image end = empty
  image (entry e rest) =
      if is_dots (name_of e) then image rest else node (name_of e) (image_of e) (image rest)

  pub image_of : Entry → Node
  image_of (regular name mode reads) = file (contents reads) (permissions mode)
  image_of (directory name mode opens under) = folder (image under) (permissions mode)

abbrev pub is_readable : Option Reads → Bool
is_readable none = false
is_readable (some reads) = comes_to_end reads

unfoldable pub occurs : List ℕ → Listing → Bool
occurs name end = false
occurs name (entry e rest) = eq_string (name_of e) name || occurs name rest

-- Every file can be read to its end, every directory be opened, and no two entries of a directory
-- have one name.
unfoldable mutual
  unfolding occurs

  pub is_copyable : Listing → Bool
  is_copyable end = true
  is_copyable (entry e rest) =
      (is_dots (name_of e) || (is_copyable_entry e && not (occurs (name_of e) rest)))
      && is_copyable rest

  pub is_copyable_entry : Entry → Bool
  is_copyable_entry (regular name mode reads) = is_readable reads
  is_copyable_entry (directory name mode opens under) = opens && is_copyable under

abbrev pub append : Nodes → Nodes → Nodes
append empty es' = es'
append (node n x es) es' = node n x (append es es')

abbrev pub has : List ℕ → Nodes → Bool
has name empty = false
has name (node n x es) = eq_string n name || has name es

-- No entry but "." and ".." has the name of a node.
abbrev pub clear : Listing → Nodes → Bool
clear end es = true
clear (entry e rest) es = (is_dots (name_of e) || not (has (name_of e) es)) && clear rest es

pub copy_loop-text :
    (reads : Reads) (before : List ℕ)
    → comes_to_end reads ≡ true
    → copy_loop reads before [] ≡ ok (before ++ text_of reads)
unfolding copy_loop
copy_loop-text eof before h = refl
copy_loop-text (bytes x xs rest) before h =
    copy_loop-text rest (before ++ x ∷ xs) h ∙ ap ok (append_assoc before (x ∷ xs) (text_of rest))
copy_loop-text (failed rest) before h = copy_loop-text rest before h
copy_loop-text failing before h = ground arith

drop_nil : (n : ℕ) → drop {A = ℕ} n [] ≡ []
drop_nil zero = refl
drop_nil (suc n) = refl

drop-drop :
    (xs : List ℕ) (n : ℕ) (old : List ℕ) → drop n (drop (length xs) old) ≡ drop (length xs + n) old
drop-drop [] n old = ap (λ k. drop k old) (omega arith)
drop-drop (x ∷ xs) n [] = drop_nil n ∙ sym (drop_nil (suc (length xs) + n))
drop-drop (x ∷ xs) n (y ∷ old) =
    let counts : suc (length xs) + n ≡ suc (length xs + n) = omega arith in
    drop-drop xs n old ∙ ap (λ k. drop k (y ∷ old)) (sym counts)

copy_loop-over :
    (reads : Reads) (before behind : List ℕ)
    → comes_to_end reads ≡ true
    → copy_loop reads before behind
      ≡ ok (before ++ (text_of reads ++ drop (length (text_of reads)) behind))
unfolding copy_loop
copy_loop-over eof before behind h = refl
copy_loop-over (bytes x xs rest) before behind h =
    rw (copy_loop-over rest (before ++ x ∷ xs) (drop (length (x ∷ xs)) behind) h) (
      ap ok (
        append_assoc before (x ∷ xs) _
        ∙ ap (λ t. before ++ t)
            (sym (append_assoc (x ∷ xs) (text_of rest) _)
              ∙ ap (λ t. (x ∷ xs) ++ text_of rest ++ t)
                  (drop-drop (x ∷ xs) (length (text_of rest)) behind
                    ∙ ap (λ k. drop k behind) (sym (length-append (x ∷ xs) (text_of rest)))))))
copy_loop-over (failed rest) before behind h = copy_loop-over rest before behind h
copy_loop-over failing before behind h = ground arith

-- The destination is not cut to the length of the source: the bytes of a longer file that stood
-- there stay behind the copy.
pub file_copy_routine-over :
    (reads : Reads) (old : List ℕ) (m : ℕ)
    → comes_to_end reads ≡ true
    → file_copy_routine (some reads) (some (file old m))
      ≡ ok (file (text_of reads ++ drop (length (text_of reads)) old) m)
unfolding file_copy_routine
file_copy_routine-over reads old m h = rw (copy_loop-over reads [] old h) refl
