-- ===== src/Server/Service/Serve.antt =====
-- `do_server_request` for a file on the disk.
use ece344_operating_systems.Base.{
  ℕ, zero, suc, ◌+◌, ◌-◌, ◌≤◌, ◌<◌, Bool, true, false, Option, none, some, List, [], ◌∷◌, ◌++◌,
  ◌==◌, ltb, leb, length, ◌≡◌, refl, ap, ◌∙◌, arith, Bool-cases, inl, inr, codes, c_string,
  has_zero, take,
}
use ece344_operating_systems.Http.Result.{Result, ok, stop, fault, ◌>>=◌}
use ece344_operating_systems.Http.Rio.{Input}
use ece344_operating_systems.Http.Rio.Bytes.{flat, is_reliable}
use ece344_operating_systems.Http.Rio.Write.{rio_read-take}
use ece344_operating_systems.Http.Rio.Gets.{is_clean}
use ece344_operating_systems.Http.Request.{
  Request, Disk, File, fill, load, load_read, load_opened, read_found, with_content,
  request_readfile, request_sendfile, request_destroy,
}
use ece344_operating_systems.Http.Request.Init.{named}
use ece344_operating_systems.Http.Request.Files.{is_allowed, readfile-allowed}
use ece344_operating_systems.Http.Request.Response.{response_of, sendfile-answered}
use ece344_operating_systems.Http.RoundTrip.{is_name, take-all, request_init-client_send}
use ece344_operating_systems.Http.Client.{client_send}
use ece344_operating_systems.Server.Cache.{
  Cache, FileData, cache_lookup, cache_insert, cache_evict_helper, insert_entry, is_positive, Chain,
}
use ece344_operating_systems.Server.Service.{
  World, finish, insert_and_send, serve_missing, serve_cached, do_server_request,
}
use ece344_operating_systems.Server.Service.Paths.{through_cache, do_server_request-cached}

-- The disk has a regular file of this name and content that its owner may read, and reading it is
-- without errors.
abbrev pub OnDisk : Disk → List ℕ → List ℕ → Type 0
OnDisk disk name bytes =
    (file : File) × (disk name ≡ some file)
    × (file.is_regular ≡ true)
    × (file.may_read ≡ true)
    × (content : Input) × (file.opened ≡ some content)
    × (is_reliable content ≡ true)
    × (flat content ≡ bytes)
    × (file.st_size ≡ length bytes)

-- The request for a file, with its content.
abbrev pub holding : List ℕ → List ℕ → Request
holding name bytes = with_content (named name) (length bytes) bytes

fill-all : (left : ℕ → ℕ) (xs : List ℕ) → fill left (length xs) xs ≡ xs
fill-all left [] = refl
fill-all left (x ∷ xs) = ap (λ (l : List ℕ). x ∷ l) (fill-all left xs)

read-holding :
    (left : ℕ → ℕ) (name bytes : List ℕ) (content : Input)
    → is_reliable content ≡ true
    → flat content ≡ bytes
    → load_opened left (length bytes) (named name) (some content) ≡ ok (holding name bytes, true)
unfolding load_opened
read-holding left name bytes content r e =
    let (rest, runs, left_over, r') = rio_read-take (length bytes) content r in
    ap (load_read left (length bytes) (named name)) runs
    ∙ ap
        (λ (xs : List ℕ).
          ok (with_content (named name) (length bytes) (fill left (length bytes) xs), true))
        (ap (take (length bytes)) e ∙ take-all (length bytes) bytes (omega arith))
    ∙ ap (λ (xs : List ℕ). ok (with_content (named name) (length bytes) xs, true))
        (fill-all left bytes)

load-holding :
    (left : ℕ → ℕ) (name bytes : List ℕ) (file : File) (content : Input)
    → file.opened ≡ some content
    → is_reliable content ≡ true
    → flat content ≡ bytes
    → file.st_size ≡ length bytes
    → load left file (named name) ≡ ok (holding name bytes, true)
unfolding load
load-holding left name [] file content o r e s = rw (load, s) refl
load-holding left name (b ∷ bytes) file content o r e s =
    let some_bytes : (suc (length bytes) == 0) ≡ false = ground arith in
    rw (load, s, o, some_bytes) (read-holding left name (b ∷ bytes) content r e)

readfile-holding :
    (left : ℕ → ℕ) (disk : Disk) (name bytes : List ℕ)
    → is_allowed name ≡ true
    → OnDisk disk name bytes
    → request_readfile left disk (named name) ≡ ok (holding name bytes, true)
unfolding read_found
readfile-holding left disk name bytes a (file, d, regular, may, content, o, r, e, s) =
    let run : read_found left (some file) (named name) ≡ load left file (named name) =
      rw (read_found, regular, may) refl in
    readfile-allowed left disk (named name) a
    ∙ ap (λ (f : Option File). read_found left f (named name)) d
    ∙ run
    ∙ load-holding left name bytes file content o r e s

-- The request that is left, with its response sent.
abbrev pub delivered : List ℕ → List ℕ → Request
delivered name bytes = record (holding name bytes) {
  sent = response_of (holding name bytes).file;
  is_open = false;
}

send-delivered :
    (cache : Cache) (name bytes : List ℕ)
    → (request_sendfile (holding name bytes) >>= finish cache) ≡ ok (delivered name bytes, cache)
unfolding request_destroy
send-delivered cache name bytes =
    ap (λ (o : Result Request). o >>= finish cache)
      (sendfile-answered (holding name bytes) (omega arith))

-- A request from the client's `client_send`, as far as the look-up in the cache.
missing-served :
    (fuel max_cache_size : ℕ) (w : World) (cache : Cache) (input : Input) (host : List ℕ) (c : ℕ)
    (cs text : List ℕ)
    → is_name (c ∷ cs) ≡ true
    → is_clean host ≡ true
    → client_send host (c ∷ cs) ≡ ok text
    → is_reliable input ≡ true
    → flat input ≡ text
    → 2 ≤ fuel
    → cache_lookup cache (codes "./" ++ c ∷ cs) ≡ some none
    → do_server_request fuel max_cache_size w cache input
      ≡ serve_missing max_cache_size w cache (named (codes "./" ++ c ∷ cs))
unfolding serve_cached
missing-served fuel max_cache_size w cache input host c cs text n h s r e f m =
    let look : serve_cached max_cache_size w cache (named (codes "./" ++ c ∷ cs))
        ≡ serve_missing max_cache_size w cache (named (codes "./" ++ c ∷ cs)) =
      rw (serve_cached, m) refl in
    do_server_request-cached fuel max_cache_size w cache input
    ∙ ap (λ (o : Result (Request × Bool)). o >>= through_cache max_cache_size w cache)
        (request_init-client_send fuel w.stack host c cs text input n h s r e f)
    ∙ look

read-served :
    (max_cache_size : ℕ) (w : World) (cache : Cache) (name bytes : List ℕ)
    → is_allowed name ≡ true
    → OnDisk w.disk name bytes
    → serve_missing max_cache_size w cache (named name)
      ≡ insert_and_send max_cache_size w (w.others cache) (holding name bytes)
unfolding serve_missing
read-served max_cache_size w cache name bytes a d =
    let runs = readfile-holding w.left w.disk name bytes a d in rw (serve_missing, runs) refl

insert-larger :
    (left : Chain) (max_cache_size : ℕ) (file : FileData) (cache : Cache)
    → max_cache_size < file.file_size
    → cache_insert left max_cache_size file cache ≡ some (none, cache)
unfolding cache_insert
insert-larger left max_cache_size file cache l =
    let large : ltb max_cache_size file.file_size ≡ true = ground arith in
    rw (cache_insert, large) refl

insert-large :
    (max_cache_size : ℕ) (w : World) (cache : Cache) (name bytes : List ℕ)
    → max_cache_size < length bytes
    → insert_and_send max_cache_size w cache (holding name bytes)
      ≡ (request_sendfile (holding name bytes) >>= finish cache)
insert-large max_cache_size w cache name bytes l =
    let kept = insert-larger w.entry_left max_cache_size (holding name bytes).file cache l in
    rw (insert_and_send, kept) refl

-- A file larger than the cache, of an allowed name that the cache does not have, is delivered to the
-- client that has asked for it with `client_send`, in whatever pieces the request and the file
-- come: the response has the whole content behind its header, the connection is closed, and the
-- cache is as the other threads have left it.
pub do_server_request-delivered :
    (fuel max_cache_size : ℕ) (w : World) (cache : Cache) (input : Input) (host : List ℕ) (c : ℕ)
    (cs text bytes : List ℕ)
    → is_name (c ∷ cs) ≡ true
    → is_clean host ≡ true
    → client_send host (c ∷ cs) ≡ ok text
    → is_reliable input ≡ true
    → flat input ≡ text
    → 2 ≤ fuel
    → cache_lookup cache (codes "./" ++ c ∷ cs) ≡ some none
    → is_allowed (codes "./" ++ c ∷ cs) ≡ true
    → OnDisk w.disk (codes "./" ++ c ∷ cs) bytes
    → max_cache_size < length bytes
    → do_server_request fuel max_cache_size w cache input
      ≡ ok (delivered (codes "./" ++ c ∷ cs) bytes, w.others cache)
do_server_request-delivered fuel max_cache_size w cache input host c cs text bytes n h s r e f m a d
      l =
    let name = codes "./" ++ c ∷ cs in
    missing-served fuel max_cache_size w cache input host c cs text n h s r e f m
    ∙ read-served max_cache_size w cache name bytes a d
    ∙ insert-large max_cache_size w (w.others cache) name bytes l
    ∙ send-delivered (w.others cache) name bytes

no_string : (xs : List ℕ) → has_zero xs ≡ false → c_string xs ≡ none
no_string [] h = refl
no_string (zero ∷ xs) h = absurd (ground (arith, h))
no_string (suc c ∷ xs) h = let ih = no_string xs h in rw ih refl

evicts-none :
    (max_cache_size file_size occupied_cache : ℕ)
    → file_size + occupied_cache ≤ max_cache_size
    → is_positive (cache_evict_helper max_cache_size file_size occupied_cache) ≡ false
unfolding cache_evict_helper
evicts-none max_cache_size file_size occupied_cache l =
    elim (Bool-cases (leb max_cache_size (file_size + occupied_cache))) [
      | inl full ↦
          let none_over : file_size + occupied_cache - max_cache_size ≡ 0 = omega arith in
          rw (full, none_over) refl
      | inr room ↦ rw room refl
    ]

insert-unended :
    (left : Chain) (max_cache_size : ℕ) (file : FileData) (cache : Cache)
    → has_zero file.file_buf ≡ false
    → cache_lookup cache file.file_name ≡ some none
    → file.file_size + cache.occupied_cache ≤ max_cache_size
    → cache_insert left max_cache_size file cache ≡ none
unfolding cache_insert insert_entry
insert-unended left max_cache_size file cache z m l =
    let small : ltb max_cache_size file.file_size ≡ false = ground arith in
    let room = evicts-none max_cache_size file.file_size cache.occupied_cache l in
    let unended = no_string file.file_buf z in
    let inner : insert_entry left file cache ≡ none = rw (insert_entry, unended) refl in
    rw (cache_insert, small, m, room) inner

insert-text :
    (max_cache_size : ℕ) (w : World) (cache : Cache) (name bytes : List ℕ)
    → has_zero bytes ≡ false
    → cache_lookup cache name ≡ some none
    → length bytes + cache.occupied_cache ≤ max_cache_size
    → insert_and_send max_cache_size w cache (holding name bytes) ≡ stop fault
insert-text max_cache_size w cache name bytes z m l =
    let faults = insert-unended w.entry_left max_cache_size (holding name bytes).file cache z m l in
    rw (insert_and_send, faults) refl

-- A file without a 0 in it, an empty one included, for which the cache has room, is not delivered:
-- `cache_insert` copies the content by `strdup`, which reads on behind its end.
pub do_server_request-fault :
    (fuel max_cache_size : ℕ) (w : World) (cache : Cache) (input : Input) (host : List ℕ) (c : ℕ)
    (cs text bytes : List ℕ)
    → is_name (c ∷ cs) ≡ true
    → is_clean host ≡ true
    → client_send host (c ∷ cs) ≡ ok text
    → is_reliable input ≡ true
    → flat input ≡ text
    → 2 ≤ fuel
    → cache_lookup cache (codes "./" ++ c ∷ cs) ≡ some none
    → is_allowed (codes "./" ++ c ∷ cs) ≡ true
    → OnDisk w.disk (codes "./" ++ c ∷ cs) bytes
    → has_zero bytes ≡ false
    → cache_lookup (w.others cache) (codes "./" ++ c ∷ cs) ≡ some none
    → length bytes + (w.others cache).occupied_cache ≤ max_cache_size
    → do_server_request fuel max_cache_size w cache input ≡ stop fault
do_server_request-fault fuel max_cache_size w cache input host c cs text bytes n h s r e f m a d z
      m' l =
    let name = codes "./" ++ c ∷ cs in
    missing-served fuel max_cache_size w cache input host c cs text n h s r e f m
    ∙ read-served max_cache_size w cache name bytes a d
    ∙ insert-text max_cache_size w (w.others cache) name bytes z m' l
