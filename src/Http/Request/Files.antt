-- ===== src/Http/Request/Files.antt =====
-- The files that `request_readfile` reads, and the names that `request_init` sets.
use ece344_operating_systems.Base.{
  ℕ, zero, suc, ◌≤◌, Bool, true, false, not, ◌&&◌, ◌||◌, Option, none, some, List, [], ◌∷◌, ◌==◌,
  if◌then◌else◌, length, ◌≡◌, refl, ap, ◌∙◌, sym, arith, Bool-cases, inl, inr, codes, contains,
  strrchr,
}
use ece344_operating_systems.Http.Result.{Result, ok, stop, ◌>>=◌}
use ece344_operating_systems.Http.Request.Errors.{paged, request_error-page}
use ece344_operating_systems.Http.Rio.{Input, Read, done, error, rio_read}
use ece344_operating_systems.Http.Request.{
  Request, Disk, File, fill, is_absolute, is_source, load, refuse, read_found, request_readfile,
  request_error, load_opened, with_content, load_read,
}

-- The names that the server reads files for.
abbrev pub is_allowed : List ℕ → Bool
is_allowed name =
    not (is_absolute name) && not (contains (codes "..") name) && not (is_source (strrchr 46 name))

-- The value that is returned; 0 where nothing is.
abbrev pub returns : Result (Request × Bool) → Bool
returns (ok r) = r.1
returns (stop s) = false

-- The request with the file's size, and bytes as many as that in its array.
abbrev pub Loaded : List ℕ → Disk → Result (Request × Bool) → Type 0
Loaded name disk o =
    (is_allowed name ≡ true)
    × (file : File) × (disk name ≡ some file)
    × (file.is_regular ≡ true)
    × (file.may_read ≡ true)
    × (rq' : Request) × (o ≡ ok (rq', true))
    × (rq'.file.file_size ≡ file.st_size)
    × (rq'.file.file_name ≡ name)
    × (rq'.file.file_size ≤ length rq'.file.file_buf)

page-returns : (o : Result Request) → returns (o >>= λ rq'. ok (rq', false)) ≡ false
page-returns (ok rq) = refl
page-returns (stop s) = refl

refuse-returns : (rq : Request) (a b c : List ℕ) → returns (refuse rq a b c) ≡ false
refuse-returns rq a b c = page-returns (request_error rq rq.file.file_name a b c)

pub length-fill : (left : ℕ → ℕ) (n : ℕ) (xs : List ℕ) → length (fill left n xs) ≡ n
length-fill left zero xs = refl
length-fill left (suc n) [] = ap suc (length-fill left n [])
length-fill left (suc n) (x ∷ xs) = ap suc (length-fill left n xs)

-- A loaded file.
abbrev Loads : File → Request → Result (Request × Bool) → Type 0
Loads file rq o =
    (rq' : Request) × (o ≡ ok (rq', true))
    × (rq'.file.file_size ≡ file.st_size)
    × (rq'.file.file_name ≡ rq.file.file_name)
    × (rq'.file.file_size ≤ length rq'.file.file_buf)

opened-Loads :
    (left : ℕ → ℕ) (file : File) (rq : Request) (opened : Option Input)
    → returns (load_opened left file.st_size rq opened) ≡ true
    → Loads file rq (load_opened left file.st_size rq opened)
unfolding load_opened
opened-Loads left file rq none e = absurd (ground (arith, e))
opened-Loads left file rq (some input) e = read-Loads (rio_read file.st_size input) e
  where
    read-Loads :
        (r : Read)
        → returns (load_read left file.st_size rq r) ≡ true
        → Loads file rq (load_read left file.st_size rq r)
    read-Loads (done bytes rest) h =
        let size = length-fill left file.st_size bytes in
        (with_content rq file.st_size (fill left file.st_size bytes), refl, refl, refl, omega arith)
    read-Loads (error rest) h = absurd (ground (arith, h))

load-Loads :
    (left : ℕ → ℕ) (file : File) (rq : Request)
    → returns (load left file rq) ≡ true
    → Loads file rq (load left file rq)
unfolding load
load-Loads left file rq e = elim (Bool-cases (file.st_size == 0)) [
  | inl z ↦
      let size : file.st_size ≡ 0 = ground (arith, z) in
      (with_content rq file.st_size rq.file.file_buf, rw (load, z) refl, refl, refl, omega arith)
  | inr p ↦
      let run : load left file rq ≡ load_opened left file.st_size rq file.opened =
        rw (load, p) refl in
      let (rq', runs, size, name, enough) =
        opened-Loads left file rq file.opened (sym (ap returns run) ∙ e) in
      (rq', run ∙ runs, size, name, enough)
]

found-Loaded :
    (left : ℕ → ℕ) (disk : Disk) (rq : Request) (found : Option File)
    → is_allowed rq.file.file_name ≡ true
    → disk rq.file.file_name ≡ found
    → returns (read_found left found rq) ≡ true
    → Loaded rq.file.file_name disk (read_found left found rq)
unfolding read_found
found-Loaded left disk rq none a d e = absurd (
    ground (
      arith,
      sym (
            refuse-returns rq (codes "404") (codes "Not found")
              (codes "OS Web Server could not find this file"))
          ∙ e,
    ))
found-Loaded left disk rq (some file) a d e =
    elim (Bool-cases (not file.is_regular || not file.may_read)) [
      | inl bad ↦
          let run : read_found left (some file) rq
              ≡ refuse rq (codes "403") (codes "Forbidden")
                  (codes "OS Web Server could not read this file") =
            rw (read_found, bad) refl in
          absurd (
            ground (
              arith,
              sym (
                    refuse-returns rq (codes "403") (codes "Forbidden")
                      (codes "OS Web Server could not read this file"))
                  ∙ sym (ap returns run)
                  ∙ e,
            ))
      | inr good ↦
          let run : read_found left (some file) rq ≡ load left file rq =
            rw (read_found, good) refl in
          let (rq', runs, size, name, enough) =
            load-Loads left file rq (sym (ap returns run) ∙ e) in
          (
            a,
            file,
            d,
            ground (arith, good),
            ground (arith, good),
            rq',
            run ∙ runs,
            size,
            name,
            enough,
          )
    ]

-- Three tests in a row.
abbrev gate :
    Bool
    → Bool
    → Bool
    → Result (Request × Bool)
    → Result (Request × Bool)
    → Result (Request × Bool)
    → Result (Request × Bool)
    → Result (Request × Bool)
gate a b c p q r s = if a then p else if b then q else if c then r else s

gate-true :
    (a b c : Bool) (p q r s : Result (Request × Bool))
    → not a && not b && not c ≡ true
    → gate a b c p q r s ≡ s
gate-true true b c p q r s h = absurd (ground (arith, h))
gate-true false true c p q r s h = absurd (ground (arith, h))
gate-true false false true p q r s h = absurd (ground (arith, h))
gate-true false false false p q r s h = refl

gate-returns :
    (a b c : Bool) (p q r s : Result (Request × Bool))
    → returns p ≡ false
    → returns q ≡ false
    → returns r ≡ false
    → returns (gate a b c p q r s) ≡ true
    → (not a && not b && not c ≡ true) × (returns s ≡ true)
gate-returns true b c p q r s x y z h = absurd (ground (arith, sym x ∙ h))
gate-returns false true c p q r s x y z h = absurd (ground (arith, sym y ∙ h))
gate-returns false false true p q r s x y z h = absurd (ground (arith, sym z ∙ h))
gate-returns false false false p q r s x y z h = (refl, h)

-- The pages for the names that the server reads no files for.
abbrev absolute_page : Request → Result (Request × Bool)
absolute_page rq =
    refuse rq (codes "404") (codes "Not found")
      (codes "OS Web Server doesn't serve files with absolute paths")

abbrev parent_page : Request → Result (Request × Bool)
parent_page rq =
    refuse rq (codes "404") (codes "Not found")
      (codes "OS Web Server doesn't serve files with .. in the path")

abbrev source_page : Request → Result (Request × Bool)
source_page rq =
    refuse rq (codes "404") (codes "Not found")
      (codes "OS Web Server doesn't serve C or header files ")

abbrev gated : Request → Result (Request × Bool) → Result (Request × Bool)
gated rq o =
    let name = rq.file.file_name in
    gate (is_absolute name) (contains (codes "..") name) (is_source (strrchr 46 name))
      (absolute_page rq) (parent_page rq) (source_page rq) o

readfile-gated :
    (left : ℕ → ℕ) (disk : Disk) (rq : Request)
    → request_readfile left disk rq ≡ gated rq (read_found left (disk rq.file.file_name) rq)
unfolding request_readfile
readfile-gated left disk rq = refl

pub readfile-allowed :
    (left : ℕ → ℕ) (disk : Disk) (rq : Request)
    → is_allowed rq.file.file_name ≡ true
    → request_readfile left disk rq ≡ read_found left (disk rq.file.file_name) rq
readfile-allowed left disk rq a =
    let name = rq.file.file_name in
    readfile-gated left disk rq
    ∙ gate-true (is_absolute name) (contains (codes "..") name) (is_source (strrchr 46 name))
        (absolute_page rq) (parent_page rq) (source_page rq) (read_found left (disk name) rq) a

-- Where `request_readfile` returns 1, the name is not absolute, has no ".." in it and does not end
-- in ".c" or ".h", the disk has a regular file of that name that its owner may read, and the request
-- has its size and an array of at least as many bytes.
pub request_readfile-Loaded :
    (left : ℕ → ℕ) (disk : Disk) (rq : Request)
    → returns (request_readfile left disk rq) ≡ true
    → Loaded rq.file.file_name disk (request_readfile left disk rq)
request_readfile-Loaded left disk rq e =
    let name = rq.file.file_name in
    let run = readfile-gated left disk rq in
    let (a, h) =
      gate-returns (is_absolute name) (contains (codes "..") name) (is_source (strrchr 46 name))
        (absolute_page rq) (parent_page rq) (source_page rq) (read_found left (disk name) rq)
        (refuse-returns rq (codes "404") (codes "Not found")
          (codes "OS Web Server doesn't serve files with absolute paths"))
        (refuse-returns rq (codes "404") (codes "Not found")
          (codes "OS Web Server doesn't serve files with .. in the path"))
        (refuse-returns rq (codes "404") (codes "Not found")
          (codes "OS Web Server doesn't serve C or header files "))
        (sym (ap returns run) ∙ e) in
    let (a', file, d, regular, may, rq', runs, size, same, enough) =
      found-Loaded left disk rq (disk name) a refl h in
    (a, file, d, regular, may, rq', readfile-allowed left disk rq a ∙ runs, size, same, enough)

-- Why a name is not allowed.
abbrev pub reason : List ℕ → List ℕ
reason name =
    if is_absolute name
    then codes "OS Web Server doesn't serve files with absolute paths"
    else if contains (codes "..") name
    then codes "OS Web Server doesn't serve files with .. in the path"
    else codes "OS Web Server doesn't serve C or header files "

-- The value returned, 0, behind a page.
abbrev pub denied : Result Request → Result (Request × Bool)
denied o = o >>= λ rq'. ok (rq', false)

gate-denied :
    (a b c : Bool) (x y z : List ℕ) (page : List ℕ → Result (Request × Bool))
    (s : Result (Request × Bool))
    → not a && not b && not c ≡ false
    → gate a b c (page x) (page y) (page z) s ≡ page (if a then x else if b then y else z)
gate-denied true b c x y z page s h = refl
gate-denied false true c x y z page s h = refl
gate-denied false false true x y z page s h = refl
gate-denied false false false x y z page s h = absurd (ground (arith, h))

-- For a name that is absolute, has ".." in it, or ends in ".c" or ".h", `request_readfile` asks for no
-- file: whatever is on the disk, it sends the page "404 Not found" with the name and the reason,
-- behind what has been sent before, and returns 0, or faults where that page is too long for the
-- buffer of `request_error`.
pub request_readfile-confined :
    (left : ℕ → ℕ) (disk : Disk) (rq : Request)
    → is_allowed rq.file.file_name ≡ false
    → request_readfile left disk rq
      ≡ denied
          (paged rq rq.file.file_name (codes "404") (codes "Not found") (reason rq.file.file_name))
request_readfile-confined left disk rq e =
    let name = rq.file.file_name in
    readfile-gated left disk rq
    ∙ gate-denied (is_absolute name) (contains (codes "..") name) (is_source (strrchr 46 name))
        (codes "OS Web Server doesn't serve files with absolute paths")
        (codes "OS Web Server doesn't serve files with .. in the path")
        (codes "OS Web Server doesn't serve C or header files ")
        (refuse rq (codes "404") (codes "Not found")) (read_found left (disk name) rq) e
    ∙ ap denied (request_error-page rq name (codes "404") (codes "Not found") (reason name))
