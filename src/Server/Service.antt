-- ===== src/Server/Service.antt =====
-- The service of a request in webserver/server_thread.c (`do_server_request`): the parsing of
-- webserver/request.c, the file cache, the disk and the response, in one function.
pub mod Paths
pub mod Serve
pub mod Whole
mod Tests
use ece344_operating_systems.Base.{
  ℕ, ◌++◌, ◌∷◌, [], Bool, true, false, Option, none, some, List, ltb, if◌then◌else◌,
}
use ece344_operating_systems.Http.Result.{Result, ok, stop, fault, ◌>>=◌}
use ece344_operating_systems.Http.Rio.{Input}
use ece344_operating_systems.Http.Request.{
  Request, Stack, Disk, request_init, request_readfile, request_sendfile, request_set_data,
  request_destroy,
}
use ece344_operating_systems.Server.Cache.{Cache, Chain, FileData, cache_lookup, cache_insert}

-- What the service finds: the arrays on its stack, what `malloc` leaves in a file's array and in a
-- new entry of the cache, the disk, and what other threads do to the cache while it is unlocked.
pub record World : Type 0 where
  pub stack : Stack
  pub left : ℕ → ℕ
  pub entry_left : Chain
  pub disk : Disk
  pub others : Cache → Cache

-- The end of each path behind `request_init`: the connection is closed.
abbrev pub finish : Cache → Request → Result (Request × Cache)
finish cache rq = request_destroy rq >>= λ rq'. ok (rq', cache)

-- Without the cache.
unfoldable pub serve_uncached : World → Cache → Request → Result (Request × Cache)
unfolding request_readfile request_sendfile request_destroy
serve_uncached w cache rq = request_readfile w.left w.disk rq >>= λ (r : Request × Bool).
    if r.1 then request_sendfile (r.0) >>= finish cache else finish cache (r.0)

-- `strdup` copies the content that the cache has, with the 0 that ends it.
unfoldable pub set_copy : FileData → Request → Request
unfolding request_set_data
set_copy found rq =
    request_set_data rq
      (record rq.file { file_buf = found.file_buf ++ 0 ∷ []; file_size = found.file_size })

-- A file that the cache has.
unfoldable pub serve_found : Cache → FileData → Request → Result (Request × Cache)
unfolding set_copy request_sendfile request_destroy
serve_found cache found rq = request_sendfile (set_copy found rq) >>= finish cache

-- A file read from the disk is put into the cache, which others may have changed, and is sent.
abbrev pub insert_and_send : ℕ → World → Cache → Request → Result (Request × Cache)
insert_and_send max_cache_size w cache rq =
    elim (cache_insert w.entry_left max_cache_size rq.file cache) [
      | none ↦ stop fault
      | some (found, cache') ↦ request_sendfile rq >>= finish cache'
    ]

unfoldable pub serve_missing : ℕ → World → Cache → Request → Result (Request × Cache)
unfolding request_readfile request_sendfile request_destroy cache_insert
serve_missing max_cache_size w cache rq =
    request_readfile w.left w.disk rq >>= λ (r : Request × Bool).
    if r.1
    then insert_and_send max_cache_size w (w.others cache) (r.0)
    else finish (w.others cache) (r.0)

-- The look-up in the cache, and what follows from it.
unfoldable pub serve_cached : ℕ → World → Cache → Request → Result (Request × Cache)
unfolding cache_lookup serve_found serve_missing
serve_cached max_cache_size w cache rq = elim (cache_lookup cache rq.file.file_name) [
  | none ↦ stop fault
  | some (some found) ↦ serve_found cache found rq
  | some none ↦ serve_missing max_cache_size w cache rq
]

-- The request behind `request_init`, and the cache.
unfoldable pub do_server_request : ℕ → ℕ → World → Cache → Input → Result (Request × Cache)
unfolding request_init serve_uncached serve_cached
do_server_request fuel max_cache_size w cache input =
    request_init fuel w.stack input >>= λ (r : Request × Bool).
    if r.1
    then if ltb max_cache_size r.0.file.file_size
      then serve_uncached w cache (r.0)
      else serve_cached max_cache_size w cache (r.0)
    else ok (r.0, cache)
