-- ===== src/Http/RoundTrip.antt =====
-- The request that the client sends and the one that the server reads.
use mathlib.Core.List.{append_assoc}
use ece344_operating_systems.Base.{
  ℕ, zero, suc, ◌+◌, ◌≤◌, ◌<◌, Bool, true, false, not, ◌&&◌, List, [], ◌∷◌, ◌++◌, ◌==◌, leb,
  if◌then◌else◌, length, length-append, ◌≡◌, refl, ap, ◌∙◌, sym, arith, Bool-cases, inl, inr, codes,
  isspace, some, Option, skip_space, none, take,
}
use ece344_operating_systems.Http.Result.{Result, ok, stop, fault, ◌>>=◌}
use ece344_operating_systems.Http.Rio.{Input, Rio, rio_init}
use ece344_operating_systems.Http.Rio.Bytes.{flat, content, is_reliable}
use ece344_operating_systems.Http.Rio.Gets.{is_clean, clean-append}
use ece344_operating_systems.Http.Request.{
  Stack, request_init, init_from, accept, scan_request, scan_word, word, request_parse_uri, crlf,
  maxline, strcasecmp, reject,
}
use ece344_operating_systems.Http.Request.Headers.{
  is_header, all_headers, head_text, header-Gets, cut-clean, request_read_headers-Skips,
}
use ece344_operating_systems.Http.Request.Init.{named}
use ece344_operating_systems.Http.Client.{client_send, get_text}

-- No white space and no 0.
abbrev pub is_name : List ℕ → Bool
is_name [] = true
is_name (c ∷ cs) = not (c == 0) && not (isspace c) && is_name cs

pub name-clean : (xs : List ℕ) → is_name xs ≡ true → is_clean xs ≡ true
name-clean [] h = refl
name-clean (x ∷ xs) h = ground (arith, name-clean xs)

pub word-name : (xs rest : List ℕ) → is_name xs ≡ true → word (xs ++ 32 ∷ rest) ≡ (xs, 32 ∷ rest)
word-name [] rest h = refl
word-name (x ∷ xs) rest h =
    let a : isspace x ≡ false = ground (arith, h) in
    let ih = word-name xs rest (ground (arith, h)) in rw (a, ih) refl

pub take-all : (n : ℕ) (xs : List ℕ) → length xs ≤ n → take n xs ≡ xs
take-all zero [] l = refl
take-all (suc n) [] l = refl
take-all zero (x ∷ xs) l = absurd (omega arith)
take-all (suc n) (x ∷ xs) l = ap (λ (l : List ℕ). x ∷ l) (take-all n xs (omega arith))

-- A first line that is read as a whole is what `request_init` goes on with.
pub init-line :
    (fuel : ℕ) (stack : Stack) (input : Input) (x rest : List ℕ)
    → is_reliable input ≡ true
    → is_header x ≡ true
    → flat input ≡ x ++ 13 ∷ 10 ∷ rest
    → (rp : Rio) × (request_init fuel stack input ≡ init_from fuel stack (named []) (x ++ crlf) rp)
      × (content rp ≡ rest)
      × (is_reliable rp.input ≡ true)
unfolding request_init rio_init
init-line fuel stack input x rest r h e =
    let (rp, runs, left, r') = header-Gets (rio_init input) x rest r h e in
    (rp, rw (request_init, runs) refl, left, r')

abbrev get_line : List ℕ → List ℕ
get_line name = codes "GET " ++ (name ++ codes " HTTP/1.0")

abbrev host_line : List ℕ → List ℕ
host_line host = codes "host: " ++ host

get_text-lines :
    (host name : List ℕ)
    → get_text host name ≡ get_line name ++ 13 ∷ 10 ∷ head_text (host_line host ∷ []) (13 ∷ 10 ∷ [])
get_text-lines host name =
    let tail = codes "host: " ++ (host ++ (crlf ++ crlf)) in
    ap (λ (l : List ℕ). codes "GET " ++ l)
      (append_assoc name (codes " HTTP/1.0" ++ crlf) tail
        ∙ sym (append_assoc name (codes " HTTP/1.0") (crlf ++ tail)))

scan_word-name :
    (c : ℕ) (cs rest : List ℕ)
    → is_name (c ∷ cs) ≡ true
    → scan_word (32 ∷ c ∷ (cs ++ 32 ∷ rest)) ≡ some (c ∷ cs, 32 ∷ rest)
scan_word-name c cs rest h =
    let solid : isspace c ≡ false = ground (arith, h) in
    let skips : skip_space (c ∷ (cs ++ 32 ∷ rest)) ≡ c ∷ (cs ++ 32 ∷ rest) = rw solid refl in
    ap (λ (xs : List ℕ). elim xs [ [] ↦ none | d ∷ ds ↦ some (word (d ∷ ds)) ]) skips
    ∙ ap (λ (p : List ℕ × List ℕ). some p) (word-name (c ∷ cs) rest h)

scan-get_line :
    (stack : Stack) (c : ℕ) (cs : List ℕ)
    → is_name (c ∷ cs) ≡ true
    → scan_request stack (get_line (c ∷ cs) ++ crlf) ≡ (codes "GET", c ∷ cs)
scan-get_line stack c cs h =
    let second = λ (o : Option (List ℕ × List ℕ)).
      elim o as (λ (o' : Option (List ℕ × List ℕ)). List ℕ × List ℕ) [
        | none ↦ (codes "GET", stack.uri)
        | some p ↦ (codes "GET", p.0)
      ] in
    ap (λ (xs : List ℕ). second (scan_word (32 ∷ c ∷ xs)))
      (append_assoc cs (codes " HTTP/1.0") crlf)
    ∙ ap second (scan_word-name c cs (codes "HTTP/1.0" ++ crlf) h)

text_length : (host name : List ℕ) → length (get_text host name) ≡ length name + length host + 25
text_length host name =
    let outer = length-append name (codes " HTTP/1.0" ++ crlf) in
    let inner = length-append host (crlf ++ crlf) in
    let whole =
      length-append (codes "GET " ++ (name ++ (codes " HTTP/1.0" ++ crlf)))
        (codes "host: " ++ (host ++ (crlf ++ crlf))) in
    omega arith

client_send-ok :
    (host name text : List ℕ)
    → client_send host name ≡ ok text
    → (get_text host name ≡ text) × (length name + length host + 25 < maxline)
unfolding client_send
client_send-ok host name text e =
    let total : length (get_text host name) ≡ length name + length host + 25 =
      text_length host name in
    elim (Bool-cases (leb maxline (length (get_text host name)))) [
      | inl big ↦
          let refused : client_send host name ≡ stop fault = rw (client_send, big) refl in
          absurd (ground (arith, sym refused ∙ e))
      | inr small ↦
          let sent : client_send host name ≡ ok (get_text host name) =
            rw (client_send, small) refl in
          (ground (arith, sym sent ∙ e), ground (arith, small, total))
    ]

get_line-clean : (name : List ℕ) → is_name name ≡ true → is_clean (get_line name) ≡ true
get_line-clean name h =
    let clean = clean-append name (codes " HTTP/1.0") (name-clean name h) refl in
    ground (arith, clean)

get_line-header :
    (name : List ℕ) → is_name name ≡ true → length name < 8173 → is_header (get_line name) ≡ true
get_line-header name h l =
    let clean = clean-append name (codes " HTTP/1.0") (name-clean name h) refl in
    let size = length-append name (codes " HTTP/1.0") in ground (arith, clean, size)

host_line-header :
    (host : List ℕ) → is_clean host ≡ true → length host < 8173 → is_header (host_line host) ≡ true
host_line-header host h l = ground (arith, h)

accept-host :
    (fuel : ℕ) (stack : Stack) (host uri : List ℕ) (rp : Rio)
    → is_reliable rp.input ≡ true
    → is_header (host_line host) ≡ true
    → content rp ≡ head_text (host_line host ∷ []) (13 ∷ 10 ∷ [])
    → length uri < 8189
    → 2 ≤ fuel
    → accept fuel stack (named []) uri rp ≡ ok (named (codes "./" ++ uri), true)
unfolding accept request_parse_uri
accept-host fuel stack host uri rp r h e l f =
    let all : all_headers (host_line host ∷ []) ≡ true = ground (arith, h) in
    let (rp', runs, left, r') =
      request_read_headers-Skips fuel (host_line host ∷ []) stack.header [] rp r all e f in
    ap (λ (o : Result Rio). o >>= λ (rp2 : Rio). ok (named (request_parse_uri uri maxline), true))
      runs
    ∙ ap (λ (name : List ℕ). ok (named name, true))
        (take-all 8191 (codes "./" ++ uri) (omega arith))

-- A request that the client sends for a file, in whatever pieces it comes, is one that the server
-- returns, for "./" and that name, with no content and nothing sent; two rounds are enough for its
-- headers.
pub request_init-client_send :
    (fuel : ℕ) (stack : Stack) (host : List ℕ) (c : ℕ) (cs text : List ℕ) (input : Input)
    → is_name (c ∷ cs) ≡ true
    → is_clean host ≡ true
    → client_send host (c ∷ cs) ≡ ok text
    → is_reliable input ≡ true
    → flat input ≡ text
    → 2 ≤ fuel
    → request_init fuel stack input ≡ ok (named (codes "./" ++ c ∷ cs), true)
unfolding init_from accept request_parse_uri
request_init-client_send fuel stack host c cs text input n h s r e f =
    let (same, few) = client_send-ok host (c ∷ cs) text s in
    let few' : suc (length cs) + length host + 25 < maxline = few in
    let first : is_header (get_line (c ∷ cs)) ≡ true = get_line-header (c ∷ cs) n (omega arith) in
    let second : is_header (host_line host) ≡ true = host_line-header host h (omega arith) in
    let (rp, runs, left, r') =
      init-line fuel stack input (get_line (c ∷ cs))
        (head_text (host_line host ∷ []) (13 ∷ 10 ∷ [])) r first
        (e ∙ sym same ∙ get_text-lines host (c ∷ cs)) in
    let line-clean = get_line-clean (c ∷ cs) n in
    let scanned =
      ap (scan_request stack) (cut-clean (get_line (c ∷ cs)) line-clean)
      ∙ scan-get_line stack c cs n in
    runs
    ∙ ap
        (λ (p : List ℕ × List ℕ).
          if strcasecmp (p.0) (codes "GET")
          then reject (named []) (p.0)
          else accept fuel stack (named []) (p.1) rp)
        scanned
    ∙ accept-host fuel stack host (c ∷ cs) rp r' second left (omega arith) f
