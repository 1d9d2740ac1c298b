-- ===== src/Server/Tests.antt =====
-- The claims on the web server at concrete states.
use ece344_operating_systems.Server.Ring.{
  start, requested, taken, Server, Reach, server_init, server_request, do_server_thread, stored,
  took,
}
use ece344_operating_systems.Server.Ring.Fifo.{
  Holds, with_request, without_first, with_request-Holds, init-Holds,
}
use Prim.Native.Nat.{ℕ}
use ece344_operating_systems.Base.{
  ◌≡◌, ◌≢◌, ℕ, List, pos, ℤ, ◌∷◌, arith, [], refl, ◌+◌, ◌++◌, ◌<◌, length, ◌≤◌,
}
use ece344_operating_systems.Server.Ring.Steps.{Reach-Balanced}

abbrev garbage : ℕ → ℤ
garbage i = pos 77

-- Room for two requests.
abbrev s0 : Server
s0 = server_init 1 2 0 garbage

abbrev s1 : Server
s1 = with_request (pos 4) s0

abbrev s2 : Server
s2 = with_request (pos 5) s1

abbrev s3 : Server
s3 = without_first s2

stores_four : server_request (pos 4) s0 ≡ stored s1
unfolding server_request server_init
stores_four = refl

stores_five : server_request (pos 5) s1 ≡ stored s2
unfolding server_request server_init
stores_five = refl

takes_four : do_server_thread s2 ≡ took (pos 4) s3
unfolding do_server_thread server_init
takes_four = refl

reach : Reach 1 2 0 garbage (pos 4 ∷ pos 5 ∷ []) (pos 4 ∷ []) s3
reach =
    taken (pos 4 ∷ pos 5 ∷ []) [] (pos 4) s2 s3
      (requested (pos 4 ∷ []) [] (pos 5) s1 s2 (requested [] [] (pos 4) s0 s1 start stores_four)
        stores_five)
      takes_four

Reach-Balanced_example :
    (q : List ℤ) × (pos 4 ∷ pos 5 ∷ [] ≡ (pos 4 ∷ []) ++ q) × (length q ≤ 2) × Holds q s3
Reach-Balanced_example =
    Reach-Balanced 1 2 0 garbage (pos 4 ∷ pos 5 ∷ []) (pos 4 ∷ []) s3 (λ e. omega (arith, e)) reach

room_two : (g : ℕ → ℤ) → 0 + 1 < (server_init 1 2 0 g).max_requests
unfolding server_init
room_two g = omega arith

one_worker : s1.nr_threads ≢ 0
unfolding server_init
one_worker e = omega (arith, e)

s1-Holds : Holds (pos 4 ∷ []) s1
s1-Holds = with_request-Holds [] (pos 4) s0 (init-Holds 1 2 0 garbage) (room_two garbage)
