-- ===== src/Server/Service/Tests.antt =====
-- `do_server_request` at concrete inputs: the file "a", of three bytes.
use mathlib.Core.List.{append-nil}
use ece344_operating_systems.Base.{
  ℕ, ◌≡◌, refl, List, ◌∷◌, [], codes, true, some, none, arith, ◌%◌, ◌^◌,
}
use ece344_operating_systems.Http.Result.{ok, stop, fault, ◌>>=◌}
use ece344_operating_systems.Http.Rio.{Input, got}
use ece344_operating_systems.Http.Request.{File, request_init}
use ece344_operating_systems.Http.Request.Response.{total}
use ece344_operating_systems.Http.Client.{client_send, client_print, get_text}
use ece344_operating_systems.Server.Cache.{Cache, null, cache_table_initialization, cache_lookup}
use ece344_operating_systems.Server.Service.{World, do_server_request}
use ece344_operating_systems.Server.Service.Paths.{
  through_cache, do_server_request-cached, is_closed, do_server_request-closed,
}
use ece344_operating_systems.Server.Service.Serve.{
  OnDisk, delivered, do_server_request-delivered, do_server_request-fault,
}
use ece344_operating_systems.Server.Service.Whole.{printout, client_print-do_server_request}

abbrev content : List ℕ
content = 97 ∷ 98 ∷ 10 ∷ []

abbrev on_disk : File
on_disk = record {
  is_regular = true;
  may_read = true;
  st_size = 3;
  opened = some (got content ∷ []);
}

abbrev world : World
world = record {
  stack = record { line = []; method = []; uri = []; header = [] };
  left = λ i. 0;
  entry_left = null;
  disk = λ name. some on_disk;
  others = λ c. c;
}

abbrev nothing : Cache
nothing = cache_table_initialization (λ i. null)

abbrev get_page : List ℕ
get_page = get_text (codes "host") (codes "a")

abbrev input : Input
input = got get_page ∷ []

sends : client_send (codes "host") (codes "a") ≡ ok get_page
unfolding client_send
sends = refl

misses : cache_lookup nothing (codes "./a") ≡ some none
unfolding cache_lookup cache_table_initialization
misses = refl

there : OnDisk world.disk (codes "./a") content
there = (on_disk, refl, refl, refl, got content ∷ [], refl, refl, refl, refl)

do_server_request-closed_example : is_closed (do_server_request 2 1 world nothing input) ≡ true
do_server_request-closed_example = do_server_request-closed 2 1 world nothing input

do_server_request-cached_example :
    do_server_request 2 0 world nothing input
    ≡ (request_init 2 world.stack input >>= through_cache 0 world nothing)
do_server_request-cached_example = do_server_request-cached 2 0 world nothing input

do_server_request-delivered_example :
    do_server_request 2 1 world nothing input ≡ ok (delivered (codes "./a") content, nothing)
do_server_request-delivered_example =
    do_server_request-delivered 2 1 world nothing input (codes "host") 97 [] get_page content refl
      refl sends refl refl (omega arith) misses refl there (omega arith)

do_server_request-fault_example : do_server_request 2 10 world nothing input ≡ stop fault
unfolding cache_table_initialization
do_server_request-fault_example =
    do_server_request-fault 2 10 world nothing input (codes "host") 97 [] get_page content refl refl
      sends refl refl (omega arith) misses refl there refl misses (omega arith)

abbrev sent : List ℕ
sent = (delivered (codes "./a") content).sent

client_print-do_server_request_example :
    client_print 9 [] (total content % 2 ^ 32) 3 true (got sent ∷ [])
    ≡ ok (printout true (codes "./a") content)
client_print-do_server_request_example =
    client_print-do_server_request 2 1 world nothing input (codes "host") 97 [] get_page content 9
      [] true (got sent ∷ []) (delivered (codes "./a") content) nothing refl refl sends refl refl
      (omega arith) misses refl there (omega arith) (omega arith) refl
      do_server_request-delivered_example refl (append-nil sent) (omega arith)
