-- ===== src/Server/Service/Paths.antt =====
-- All paths of `do_server_request`.
use ece344_operating_systems.Base.{
  ℕ, Bool, true, false, not, Option, none, some, ltb, if◌then◌else◌, ◌≡◌, refl, ap, ◌∙◌, arith,
  Bool-cases, inl, inr,
}
use ece344_operating_systems.Http.Result.{Result, ok, stop, fault, ◌>>=◌}
use ece344_operating_systems.Http.Rio.{Input}
use ece344_operating_systems.Http.Request.{
  Request, maxline, request_init, request_readfile, request_sendfile, request_destroy,
  request_parse_uri,
}
use ece344_operating_systems.Http.Request.Init.{named, Inits, request_init-Inits}
use ece344_operating_systems.Server.Cache.{Cache, FileData, cache_lookup, cache_insert}
use ece344_operating_systems.Server.Service.{
  World, finish, serve_uncached, serve_found, insert_and_send, serve_missing, serve_cached,
  do_server_request, set_copy,
}

-- What follows `request_init` where the cache is always used.
abbrev pub through_cache : ℕ → World → Cache → Request × Bool → Result (Request × Cache)
through_cache max_cache_size w cache r =
    if r.1 then serve_cached max_cache_size w cache (r.0) else ok (r.0, cache)

abbrev by_size : ℕ → World → Cache → Request × Bool → Result (Request × Cache)
by_size max_cache_size w cache r =
    if r.1
    then if ltb max_cache_size r.0.file.file_size
      then serve_uncached w cache (r.0)
      else serve_cached max_cache_size w cache (r.0)
    else ok (r.0, cache)

-- The branch without the cache is never taken, whatever the size of the cache, 0 included: the size
-- that it is compared with is the 0 that `request_init` has set.
pub do_server_request-cached :
    (fuel max_cache_size : ℕ) (w : World) (cache : Cache) (input : Input)
    → do_server_request fuel max_cache_size w cache input
      ≡ (request_init fuel w.stack input >>= through_cache max_cache_size w cache)
unfolding do_server_request
do_server_request-cached fuel max_cache_size w cache input =
    same (request_init fuel w.stack input) (request_init-Inits fuel w.stack input)
  where
    same :
        (o : Result (Request × Bool))
        → Inits o
        → (o >>= by_size max_cache_size w cache) ≡ (o >>= through_cache max_cache_size w cache)
    same o (inl (s, e)) = rw e refl
    same o (inr (inl (rq, e, shut))) = rw e refl
    same o (inr (inr (uri, e))) =
        let never : ltb max_cache_size 0 ≡ false = ground arith in rw (e, never) refl

-- The connection is closed where something is returned.
abbrev pub is_closed : Result (Request × Cache) → Bool
is_closed (ok r) = not r.0.is_open
is_closed (stop s) = true

finish-closed : (cache : Cache) (rq : Request) → is_closed (finish cache rq) ≡ true
unfolding request_destroy
finish-closed cache rq = elim (Bool-cases rq.is_open) [
  | inl live ↦ rw live refl
  | inr shut ↦ rw shut refl
]

then-closed : (cache : Cache) (o : Result Request) → is_closed (o >>= finish cache) ≡ true
then-closed cache (ok rq) = finish-closed cache rq
then-closed cache (stop s) = refl

found-closed :
    (cache : Cache) (found : FileData) (rq : Request)
    → is_closed (serve_found cache found rq) ≡ true
unfolding serve_found
found-closed cache found rq = then-closed cache (request_sendfile (set_copy found rq))

insert-closed :
    (max_cache_size : ℕ) (w : World) (cache : Cache) (rq : Request)
    → is_closed (insert_and_send max_cache_size w cache rq) ≡ true
insert-closed max_cache_size w cache rq =
    inserted (cache_insert w.entry_left max_cache_size rq.file cache)
  where
    inserted :
        (o : Option (Option FileData × Cache))
        → is_closed
            (elim o as (λ (g : Option (Option FileData × Cache)). Result (Request × Cache)) [
              | none ↦ stop fault
              | some r ↦ request_sendfile rq >>= finish (r.1)
            ])
          ≡ true
    inserted none = refl
    inserted (some r) = then-closed (r.1) (request_sendfile rq)

missing-closed :
    (max_cache_size : ℕ) (w : World) (cache : Cache) (rq : Request)
    → is_closed (serve_missing max_cache_size w cache rq) ≡ true
unfolding serve_missing
missing-closed max_cache_size w cache rq = read_in (request_readfile w.left w.disk rq)
  where
    read_in :
        (o : Result (Request × Bool))
        → is_closed (
            o >>= λ (r : Request × Bool).
            if r.1
            then insert_and_send max_cache_size w (w.others cache) (r.0)
            else finish (w.others cache) (r.0))
          ≡ true
    read_in (ok (rq', true)) = insert-closed max_cache_size w (w.others cache) rq'
    read_in (ok (rq', false)) = finish-closed (w.others cache) rq'
    read_in (stop s) = refl

cached-closed :
    (max_cache_size : ℕ) (w : World) (cache : Cache) (rq : Request)
    → is_closed (serve_cached max_cache_size w cache rq) ≡ true
unfolding serve_cached
cached-closed max_cache_size w cache rq = looked_up (cache_lookup cache rq.file.file_name)
  where
    looked_up :
        (o : Option (Option FileData))
        → is_closed (elim o as (λ (g : Option (Option FileData)). Result (Request × Cache)) [
          | none ↦ stop fault
          | some none ↦ serve_missing max_cache_size w cache rq
          | some (some found) ↦ serve_found cache found rq
        ])
          ≡ true
    looked_up none = refl
    looked_up (some none) = missing-closed max_cache_size w cache rq
    looked_up (some (some found)) = found-closed cache found rq

-- On every path on which `do_server_request` returns, error pages included, the connection has been
-- closed.
pub do_server_request-closed :
    (fuel max_cache_size : ℕ) (w : World) (cache : Cache) (input : Input)
    → is_closed (do_server_request fuel max_cache_size w cache input) ≡ true
do_server_request-closed fuel max_cache_size w cache input =
    ap is_closed (do_server_request-cached fuel max_cache_size w cache input)
    ∙ behind (request_init fuel w.stack input) (request_init-Inits fuel w.stack input)
  where
    behind :
        (o : Result (Request × Bool))
        → Inits o
        → is_closed (o >>= through_cache max_cache_size w cache) ≡ true
    behind o (inl (s, e)) = rw e refl
    behind o (inr (inl (rq, e, shut))) = rw (e, shut) refl
    behind o (inr (inr (uri, e))) =
        rw e (cached-closed max_cache_size w cache (named (request_parse_uri uri maxline)))
