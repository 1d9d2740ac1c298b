-- ===== src/Server/Service/Whole.antt =====
-- A request from the client to the server and back.
use ece344_operating_systems.Base.{
  ℕ, ◌+◌, ◌%◌, ◌^◌, ◌≤◌, ◌<◌, Bool, true, none, some, List, [], ◌∷◌, ◌++◌, length, ◌≡◌, ap, ◌∙◌,
  sym, arith, codes,
}
use ece344_operating_systems.Http.Result.{ok}
use ece344_operating_systems.Http.Rio.{Input}
use ece344_operating_systems.Http.Rio.Bytes.{flat, is_reliable}
use ece344_operating_systems.Http.Rio.Gets.{is_clean, short_from}
use ece344_operating_systems.Http.Request.{Request}
use ece344_operating_systems.Http.Request.Files.{is_allowed}
use ece344_operating_systems.Http.Request.Response.{total, body_of}
use ece344_operating_systems.Http.RoundTrip.{is_name, take-all}
use ece344_operating_systems.Http.Client.{client_send, client_print}
use ece344_operating_systems.Http.Client.Body.{shown}
use ece344_operating_systems.Http.Client.Head.{print_all}
use ece344_operating_systems.Http.Delivery.{status, ok_lines, client_print-response}
use ece344_operating_systems.Server.Cache.{Cache, cache_lookup}
use ece344_operating_systems.Server.Service.{World, do_server_request}
use ece344_operating_systems.Server.Service.Serve.{
  OnDisk, holding, delivered, do_server_request-delivered,
}

-- What a client prints of a file.
abbrev pub printout : Bool → List ℕ → List ℕ → List ℕ
printout print name bytes =
    print_all print (status ∷ ok_lines (holding name bytes).file) [] ++ shown print bytes

-- A file larger than the cache, and below 2 ^ 31 bytes, whose lines are shorter than the client's
-- buffer, goes from the disk to the client that has asked for it: where that receives what
-- `do_server_request` has sent, in whatever pieces, its assertions on the length and the checksum of
-- the file hold, and `client_print` returns.
pub client_print-do_server_request :
    (fuel max_cache_size : ℕ) (w : World) (cache : Cache) (input : Input) (host : List ℕ) (c : ℕ)
    (cs text bytes : List ℕ) (client_fuel : ℕ) (buf : List ℕ) (print : Bool) (received : Input)
    (rq' : Request) (cache' : Cache)
    → is_name (c ∷ cs) ≡ true
    → is_clean host ≡ true
    → client_send host (c ∷ cs) ≡ ok text
    → is_reliable input ≡ true
    → flat input ≡ text
    → 2 ≤ fuel
    → cache_lookup cache (codes "./" ++ c ∷ cs) ≡ some none
    → is_allowed (codes "./" ++ c ∷ cs) ≡ true
    → OnDisk w.disk (codes "./" ++ c ∷ cs) bytes
    → max_cache_size < length bytes
    → length bytes < 2 ^ 31
    → short_from 8191 bytes ≡ true
    → do_server_request fuel max_cache_size w cache input ≡ ok (rq', cache')
    → is_reliable received ≡ true
    → flat received ≡ rq'.sent
    → length bytes + 6 ≤ client_fuel
    → client_print client_fuel buf (total bytes % 2 ^ 32) (length bytes) print received
      ≡ ok (printout print (codes "./" ++ c ∷ cs) bytes)
client_print-do_server_request fuel max_cache_size w cache input host c cs text bytes client_fuel
      buf print received rq' cache' n h s r e f m a d l big short served r' e' f' =
    let name = codes "./" ++ c ∷ cs in
    let file = (holding name bytes).file in
    let runs =
      do_server_request-delivered fuel max_cache_size w cache input host c cs text bytes n h s r e f
        m a d l in
    let same : delivered name bytes ≡ rq' = ground (arith, sym runs ∙ served) in
    let all : body_of file ≡ bytes = take-all (length bytes) bytes (omega arith) in
    ap
      (λ (xs : List ℕ).
        client_print client_fuel buf (total xs % 2 ^ 32) (length bytes) print received)
      (sym all)
    ∙ client_print-response client_fuel buf print received file big (omega arith)
        (ap (short_from 8191) all ∙ short) r' (e' ∙ sym (ap (λ (q : Request). q.sent) same)) f'
    ∙ ap (λ (xs : List ℕ). ok (print_all print (status ∷ ok_lines file) [] ++ shown print xs)) all
