-- ===== src/Warmup/Cpr/Copies.antt =====
-- The copy onto a destination that does not exist is the image of the source.
use ece344_operating_systems.Base.{
  ℕ, Bool, true, false, Option, none, some, List, [], ◌∷◌, ◌||◌, ◌&&◌, eq_string, ◌≡◌, refl, sym,
  ap, ◌∙◌, arith, Bool-cases, inl, inr,
}
use ece344_operating_systems.Http.Result.{ok}
use ece344_operating_systems.Warmup.Cpr.{
  Reads, Entry, regular, directory, Listing, end, entry, Node, file, folder, Nodes, empty, node,
  find, put, permissions, is_dots, file_copy_routine, mkdir, chmod, copy_entries, copy_entry, main,
}
use ece344_operating_systems.Warmup.Cpr.Image.{
  name_of, contents, image, image_of, is_readable, occurs, is_copyable, is_copyable_entry, append,
  has, clear, copy_loop-text,
}

append-append : (a b c : Nodes) → append (append a b) c ≡ append a (append b c)
append-append empty b c = refl
append-append (node n x a) b c = ap (node n x) (append-append a b c)

find-none : (name : List ℕ) (es : Nodes) → has name es ≡ false → find name es ≡ none
unfolding find
find-none name empty h = refl
find-none name (node n x es) h = ground (arith, find-none name es)

put-last :
    (name : List ℕ) (x : Node) (es : Nodes)
    → has name es ≡ false
    → put name x es ≡ append es (node name x empty)
unfolding put
put-last name x empty h = refl
put-last name x (node n y es) h = ground (arith, put-last name x es)

has-append_one :
    (name n : List ℕ) (x : Node) (es : Nodes)
    → has name (append es (node n x empty)) ≡ (has name es || eq_string n name)
has-append_one name n x empty = ground arith
has-append_one name n x (node m y es) = ground (arith, has-append_one name n x es)

eq_string_swap : (xs ys : List ℕ) → eq_string xs ys ≡ eq_string ys xs
eq_string_swap [] [] = refl
eq_string_swap [] (y ∷ ys) = refl
eq_string_swap (x ∷ xs) [] = refl
eq_string_swap (x ∷ xs) (y ∷ ys) = ground (arith, eq_string_swap xs ys)

clear-append_one :
    (l : Listing) (n : List ℕ) (x : Node) (es : Nodes)
    → clear l es ≡ true
    → occurs n l ≡ false
    → clear l (append es (node n x empty)) ≡ true
unfolding occurs
clear-append_one end n x es h k = refl
clear-append_one (entry e rest) n x es h k = ground (
  arith,
  clear-append_one rest n x es,
  has-append_one (name_of e) n x es,
  eq_string_swap (name_of e) n,
)

clear-empty : (l : Listing) → clear l empty ≡ true
clear-empty end = refl
clear-empty (entry e rest) = ground (arith, clear-empty rest)

copy_entry-dots : (e : Entry) (es : Nodes) → is_dots (name_of e) ≡ true → copy_entry e es ≡ ok es
unfolding copy_entry
copy_entry-dots (regular name mode reads) es h = rw (h) refl
copy_entry-dots (directory name mode opens under) es h = rw (h) refl

routine-image :
    (reads : Option Reads)
    → is_readable reads ≡ true
    → file_copy_routine reads none ≡ ok (file (contents reads) 448)
unfolding file_copy_routine
routine-image none h = ground arith
routine-image (some reads) h = rw (copy_loop-text reads [] h)

regular-image :
    (name : List ℕ) (mode : ℕ) (reads : Option Reads) (es : Nodes)
    → is_readable reads ≡ true
    → is_dots name ≡ false
    → has name es ≡ false
    → copy_entry (regular name mode reads) es
      ≡ ok (append es (node name (file (contents reads) (permissions mode)) empty))
unfolding copy_entry chmod
regular-image name mode reads es h dots new =
    rw (dots, find-none name es new, routine-image reads h)
      (ap ok (put-last name (file (contents reads) (permissions mode)) es new))

directory-image :
    (name : List ℕ) (mode : ℕ) (opens : Bool) (under : Listing) (es inner : Nodes)
    → opens ≡ true
    → copy_entries under empty ≡ ok inner
    → is_dots name ≡ false
    → has name es ≡ false
    → copy_entry (directory name mode opens under) es
      ≡ ok (append es (node name (folder inner (permissions mode)) empty))
unfolding copy_entry chmod mkdir
directory-image name mode opens under es inner opened h dots new =
    rw (dots, opened, find-none name es new, h)
      (ap ok (put-last name (folder inner (permissions mode)) es new))

entries_cons :
    (e : Entry) (rest : Listing) (es : Nodes)
    → ((es' : Nodes) → clear rest es' ≡ true → copy_entries rest es' ≡ ok (append es' (image rest)))
    → copy_entry e es ≡ ok (append es (node (name_of e) (image_of e) empty))
    → clear rest es ≡ true
    → occurs (name_of e) rest ≡ false
    → copy_entries (entry e rest) es ≡ ok (append es (node (name_of e) (image_of e) (image rest)))
unfolding copy_entries
entries_cons e rest es next first h k = rw (first) (
    next _ (clear-append_one rest (name_of e) (image_of e) es h k)
    ∙ ap ok (append-append es (node (name_of e) (image_of e) empty) (image rest)))

entries_dots :
    (e : Entry) (rest : Listing) (es : Nodes)
    → (copy_entries rest es ≡ ok (append es (image rest)))
    → is_dots (name_of e) ≡ true
    → copy_entries (entry e rest) es ≡ ok (append es (image (entry e rest)))
unfolding copy_entries image
entries_dots e rest es next h = rw (copy_entry-dots e es h, h) next

image_cons :
    (e : Entry) (rest : Listing)
    → is_dots (name_of e) ≡ false
    → image (entry e rest) ≡ node (name_of e) (image_of e) (image rest)
unfolding image
image_cons e rest h = rw (h) refl

append-empty : (es : Nodes) → append es empty ≡ es
append-empty empty = refl
append-empty (node n x es) = ap (node n x) (append-empty es)

copy_here :
    (e : Entry) (rest : Listing) (es : Nodes)
    → is_copyable (entry e rest) ≡ true
    → clear (entry e rest) es ≡ true
    → is_dots (name_of e) ≡ false
    → (is_copyable_entry e ≡ true)
      × (occurs (name_of e) rest ≡ false)
      × (has (name_of e) es ≡ false)
unfolding is_copyable
copy_here e rest es h c dots = (ground arith, ground arith, ground arith)

copy_rest :
    (e : Entry) (rest : Listing) (es : Nodes)
    → is_copyable (entry e rest) ≡ true
    → clear (entry e rest) es ≡ true
    → (is_copyable rest ≡ true) × (clear rest es ≡ true)
unfolding is_copyable
copy_rest e rest es h c = (ground arith, ground arith)

opens_under :
    (opens : Bool) (under : Listing)
    → (opens && is_copyable under) ≡ true
    → (opens ≡ true) × (is_copyable under ≡ true)
opens_under true under h = (refl, h)
opens_under false under h = ground arith

mutual
  unfolding copy_entries image is_copyable

  copy_entries-image :
      (l : Listing) (es : Nodes)
      → is_copyable l ≡ true
      → clear l es ≡ true
      → copy_entries l es ≡ ok (append es (image l))
  copy_entries-image end es h c = ap ok (sym (append-empty es))
  copy_entries-image (entry e rest) es h c =
      let (h', c') = copy_rest e rest es h c in
      elim (Bool-cases (is_dots (name_of e))) [
        | inl dots ↦ entries_dots e rest es (copy_entries-image rest es h' c') dots
        | inr not_dots ↦
            let (entry_ok, once, new) = copy_here e rest es h c not_dots in
            entries_cons e rest es (λ es'. copy_entries-image rest es' h')
              (copy_entry-image e es entry_ok not_dots new) c' once
            ∙ ap (λ t. ok (append es t)) (sym (image_cons e rest not_dots))
      ]

  copy_entry-image :
      (e : Entry) (es : Nodes)
      → is_copyable_entry e ≡ true
      → is_dots (name_of e) ≡ false
      → has (name_of e) es ≡ false
      → copy_entry e es ≡ ok (append es (node (name_of e) (image_of e) empty))
  copy_entry-image (regular name mode reads) es h dots new =
      regular-image name mode reads es h dots new
  copy_entry-image (directory name mode opens under) es h dots new =
      let (opened, under_ok) = opens_under opens under h in
      directory-image name mode opens under es (image under) opened
        (copy_entries-image under empty under_ok (clear-empty under)) dots new

-- Where every file under the source can be read to its end, every directory be opened, and no two
-- entries of one directory have one name, `cpr` onto a destination that does not exist ends, and the
-- destination is then a directory with the permissions of the source, in which each entry but "."
-- and ".." stands under its name, in the order read, with its permissions: a file with all of its
-- bytes, a directory with the same of what is under it.
pub main-image :
    (mode : ℕ) (under : Listing)
    → is_copyable under ≡ true
    → main 3 mode true under none ≡ ok (folder (image under) (permissions mode))
unfolding main
main-image mode under h = rw (copy_entries-image under empty h (clear-empty under)) refl
