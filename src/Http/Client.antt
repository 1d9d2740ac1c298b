-- ===== src/Http/Client.antt =====
-- One request of the client of webserver/client.c: what it sends, and its check of the response.
pub mod Body
pub mod Head
pub mod Numbers
use ece344_operating_systems.Base.{
  ℕ, zero, suc, ◌+◌, ◌-◌, ◌*◌, ◌%◌, ◌^◌, Bool, true, false, not, ◌||◌, ◌&&◌, Option, none, some,
  List, [], ◌∷◌, ◌++◌, ◌==◌, leb, if◌then◌else◌, eq_string, codes, is_digit, read_digits,
  skip_space, strip, cut, length,
}
use ece344_operating_systems.Http.Result.{Result, ok, stop, fault, exits, running, ◌>>=◌}
use ece344_operating_systems.Http.Rio.{
  Input, Rio, a_line, end_of_file, overrun, read_error, rio_readlineb, rio_init,
}
use ece344_operating_systems.Http.Request.{maxline, maxbuf, crlf}

abbrev pub get_text : List ℕ → List ℕ → List ℕ
get_text host filename =
    (codes "GET " ++ (filename ++ (codes " HTTP/1.0" ++ crlf)))
    ++ (codes "host: " ++ (host ++ (crlf ++ crlf)))

-- `buf` has room for `maxline` bytes, the 0 of the text included.
unfoldable pub client_send : List ℕ → List ℕ → Result (List ℕ)
client_send host filename =
    if leb maxline (length (get_text host filename))
    then stop fault
    else ok (get_text host filename)

-- The digits of an int of 32 bits, where there are some, and the rest.
abbrev pub scan_digits : List ℕ → Option (ℕ × List ℕ)
scan_digits [] = none
scan_digits (c ∷ cs) =
    let (n, rest) = read_digits 0 (c ∷ cs) in if is_digit c then some (n % 2 ^ 32, rest) else none

abbrev pub scan_sign : List ℕ → Option (ℕ × List ℕ)
scan_sign [] = none
scan_sign (c ∷ cs) =
    if c == 45
    then elim (scan_digits cs) [ none ↦ none | some r ↦ some ((2 ^ 32 - r.0) % 2 ^ 32, r.1) ]
    else if c == 43
    then scan_digits cs
    else scan_digits (c ∷ cs)

-- `%d` and `%u`: the value as a word of 32 bits; what overflows, which is undefined, wraps.
abbrev pub scan_int : List ℕ → Option (ℕ × List ℕ)
scan_int xs = scan_sign (skip_space xs)

-- The variables `length` and `csum`, as words of 32 bits, and those of what is received.
pub record Tags : Type 0 where
  pub length : ℕ
  pub csum : ℕ

-- `sscanf` of a line for a tag and a number: without both the variable keeps its value.
abbrev pub scan_tag : List ℕ → List ℕ → ℕ → ℕ
scan_tag tag buf old = elim (strip tag buf) [
  | none ↦ old
  | some rest ↦ elim (scan_int rest) [ none ↦ old | some n ↦ n.0 ]
]

abbrev pub scan_tags : List ℕ → Tags → Tags
scan_tags buf tags = record {
  length = scan_tag (codes "Content-Length:") (cut buf) tags.length;
  csum = scan_tag (codes "Content-Csum:") (cut buf) tags.csum;
}

abbrev pub print_header : Bool → List ℕ → List ℕ
print_header print buf = if print then codes "Header: " ++ cut buf else []

-- The loop over the header: `more` says that `n` is positive, `out` what has been printed.
unfoldable pub head_loop :
    ℕ → Bool → List ℕ → Bool → Tags → List ℕ → Rio → Result (Tags × List ℕ × Rio)
unfolding rio_readlineb
head_loop zero print buf more tags out rp = stop running
head_loop (suc fuel) print buf more tags out rp = elim (eq_string (cut buf) crlf || not more) [
  | true ↦ ok (tags, out, rp)
  | false ↦ elim (rio_readlineb maxbuf rp) [
    | a_line buf' rp' ↦
        head_loop fuel print buf' true (scan_tags buf' tags) (out ++ print_header print buf) rp'
    | end_of_file rp' ↦
        head_loop fuel print buf false (scan_tags buf tags) (out ++ print_header print buf) rp'
    | overrun ↦ stop fault
    | read_error ↦ stop exits
  ]
]

-- The inner loop of the body: a line's bytes are added to the checksum.
unfoldable pub add_bytes : ℕ → List ℕ → ℕ
add_bytes csum [] = csum
add_bytes csum (b ∷ bytes) = add_bytes ((csum + b) % 2 ^ 32) bytes

-- The loop over the body: what has been received, and what has been printed.
unfoldable pub body_loop : ℕ → Bool → Tags → List ℕ → Rio → Result (Tags × List ℕ)
unfolding rio_readlineb add_bytes
body_loop zero print received out rp = stop running
body_loop (suc fuel) print received out rp = elim (rio_readlineb maxbuf rp) [
  | a_line buf rp' ↦
      body_loop fuel print
        (record {
          length = (received.length + length buf) % 2 ^ 32;
          csum = add_bytes received.csum buf;
        })
        (out ++ (if print then buf else [])) rp'
  | end_of_file rp' ↦ ok (received, out)
  | overrun ↦ stop fault
  | read_error ↦ stop exits
]

-- The four assertions.
abbrev pub agrees : ℕ → ℕ → Tags → Tags → Bool
agrees orig_csum orig_length tags received =
    (orig_csum == tags.csum)
    && (orig_length == tags.length)
    && (tags.length == received.length)
    && (tags.csum == received.csum)

-- The body and the assertions, behind the header.
unfoldable pub print_rest : ℕ → ℕ → ℕ → Bool → Tags × List ℕ × Rio → Result (List ℕ)
unfolding body_loop
print_rest fuel orig_csum orig_length print (tags, out, rp) =
    body_loop fuel print (record { length = 0; csum = 0 }) out rp >>= λ (end : Tags × List ℕ).
    if agrees orig_csum orig_length tags (end.0) then ok (end.1) else stop exits

-- What `client_print` prints; `buf` is what its array held before.
unfoldable pub client_print : ℕ → List ℕ → ℕ → ℕ → Bool → Input → Result (List ℕ)
unfolding head_loop print_rest rio_readlineb rio_init
client_print fuel buf orig_csum orig_length print input =
    let zeros : Tags = record { length = 0; csum = 0 } in
    elim (rio_readlineb maxbuf (rio_init input)) [
      | a_line buf' rp ↦
          head_loop fuel print buf' true zeros [] rp >>= print_rest fuel orig_csum orig_length print
      | end_of_file rp ↦
          head_loop fuel print buf false zeros [] rp >>= print_rest fuel orig_csum orig_length print
      | overrun ↦ stop fault
      | read_error ↦ stop exits
    ]
