-- ===== src/Server/Ring.antt =====
-- The request buffer of webserver/server_thread.c, which the accepting thread fills and the worker
-- threads empty. A call of `pthread_cond_wait` may return at any time, and the waiting thread then
-- tests its condition again: a part between two waits is one step here, done under the mutex.
pub mod Fifo
pub mod Steps
use ece344_operating_systems.Base.{
  ℕ, zero, suc, ◌+◌, ◌-◌, ◌%◌, ◌<◌, Bool, true, false, List, [], ◌∷◌, ◌++◌, ◌==◌, ◌≡◌,
  if◌then◌else◌, ℤ, negsuc, is_minus_one,
}
use ece344_operating_systems.Threads.State.{assign}

-- `struct server`, less the cache; `max_requests` is one more than the argument of `server_init`.
pub record Server : Type 0 where
  pub nr_threads : ℕ
  pub max_requests : ℕ
  pub max_cache_size : ℕ
  pub exiting : Bool
  pub conn_buf : ℕ → ℤ
  pub request_head : ℕ
  pub request_tail : ℕ

-- The loop that clears `conn_buf`, from slot `i` on, with `n` left; `malloc` leaves what is there.
unfoldable pub clear_from : ℕ → ℕ → (ℕ → ℤ) → ℕ → ℤ
clear_from zero i buf = buf
clear_from (suc n) i buf = clear_from n (i + 1) (assign buf i (negsuc 0))

unfoldable pub server_init : ℕ → ℕ → ℕ → (ℕ → ℤ) → Server
unfolding clear_from
server_init nr_threads max_requests max_cache_size garbage = record {
  nr_threads = nr_threads;
  max_requests = max_requests + 1;
  max_cache_size = max_cache_size;
  exiting = false;
  conn_buf = clear_from (max_requests + 1) 0 garbage;
  request_head = 0;
  request_tail = 0;
}

-- What a pass through `server_request` ends in: the request is served by the caller, the caller
-- waits on `prod_cond`, the assertion fails, or the request is stored and `cons_cond` signalled.
pub data Requested : Type 0 where
  served : ℤ → Requested
  blocked : Requested
  assertion_failed : Requested
  stored : Server → Requested

-- `request_tail` is at most `max_requests`, so the subtraction is written last.
abbrev pub is_full : Server → Bool
is_full s =
    (s.request_head + s.max_requests - s.request_tail) % s.max_requests == s.max_requests - 1

unfoldable pub server_request : ℤ → Server → Requested
server_request connfd s =
    if s.nr_threads == 0
    then served connfd
    else if is_full s
    then blocked
    else if is_minus_one (s.conn_buf s.request_head)
    then stored (record s {
      conn_buf = assign s.conn_buf s.request_head connfd;
      request_head = (s.request_head + 1) % s.max_requests;
    })
    else assertion_failed

-- What a worker does under the mutex: it leaves the loop, waits on `cons_cond`, or takes a request
-- and signals `prod_cond`.
pub data Taken : Type 0 where
  leaves : Taken
  waits : Taken
  took : ℤ → Server → Taken

unfoldable pub do_server_thread : Server → Taken
do_server_thread s =
    if s.request_head == s.request_tail
    then if s.exiting then leaves else waits
    else took (s.conn_buf s.request_tail) (record s {
      conn_buf = assign s.conn_buf s.request_tail (negsuc 0);
      request_tail = (s.request_tail + 1) % s.max_requests;
    })

-- `server_exit` up to its joins.
unfoldable pub server_exit : Server → Server
server_exit s = record s { exiting = true }

-- The states that the accepting thread and the workers reach, in any order of their steps: with
-- the requests stored, and those taken, both in order.
pub data Reach (nr_threads max_requests max_cache_size : ℕ) (garbage : ℕ → ℤ)
    : List ℤ → List ℤ → Server → Type 0 where
  start :
      Reach nr_threads max_requests max_cache_size garbage [] []
        (server_init nr_threads max_requests max_cache_size garbage)
  requested :
      (ins outs : List ℤ) (connfd : ℤ) (s s' : Server)
      → Reach nr_threads max_requests max_cache_size garbage ins outs s
      → server_request connfd s ≡ stored s'
      → Reach nr_threads max_requests max_cache_size garbage (ins ++ connfd ∷ []) outs s'
  taken :
      (ins outs : List ℤ) (connfd : ℤ) (s s' : Server)
      → Reach nr_threads max_requests max_cache_size garbage ins outs s
      → do_server_thread s ≡ took connfd s'
      → Reach nr_threads max_requests max_cache_size garbage ins (outs ++ connfd ∷ []) s'
  exited :
      (ins outs : List ℤ) (s : Server)
      → Reach nr_threads max_requests max_cache_size garbage ins outs s
      → Reach nr_threads max_requests max_cache_size garbage ins outs (server_exit s)
