-- ===== src/Http/Request/Init.antt =====
-- What `request_init` returns.
use ece344_operating_systems.Base.{
  ℕ, Bool, true, false, List, [], leb, length, ◌++◌, take, if◌then◌else◌, ◌⊎◌, ◌≡◌, refl,
  Bool-cases, inl, inr, codes, cut,
}
use ece344_operating_systems.Http.Result.{Result, Stop, ok, stop, fault, exits, ◌>>=◌}
use ece344_operating_systems.Http.Request.Errors.{paged, page_text, request_error-page}
use ece344_operating_systems.Http.Rio.{
  Input, Rio, GotLine, a_line, end_of_file, overrun, read_error, rio_readlineb, rio_init,
}
use ece344_operating_systems.Http.Request.{
  Request, Stack, maxline, request_init, init_from, reject, accept, request_error, request_destroy,
  request_read_headers, request_parse_uri, scan_request, strcasecmp,
}

-- A request with nothing sent, for a file that has a name.
abbrev pub named : List ℕ → Request
named name = record {
  file = record { file_name = name; file_buf = []; file_size = 0 };
  sent = [];
  is_open = true;
}

-- Nothing returned, for a reason; a request that is closed, with NULL; or a request for a name
-- that begins with "./", with nothing read or sent.
abbrev pub Inits : Result (Request × Bool) → Type 0
Inits o =
    ((s : Stop) × (o ≡ stop s))
    ⊎ ((rq : Request) × (o ≡ ok (rq, false)) × (rq.is_open ≡ false))
    ⊎ ((uri : List ℕ) × (o ≡ ok (named (request_parse_uri uri maxline), true)))

destroyed :
    (o : Result Request) → Inits (o >>= request_destroy >>= λ (rq' : Request). ok (rq', false))
unfolding request_destroy
destroyed (stop s) = inl (s, refl)
destroyed (ok rq) = elim (Bool-cases rq.is_open) [
  | inl live ↦ inr (inl (record rq { is_open = false }, rw live refl, refl))
  | inr shut ↦ inl (exits, rw shut refl)
]

reject-Inits : (rq : Request) (method : List ℕ) → Inits (reject rq method)
unfolding reject
reject-Inits rq method = destroyed (
    request_error rq method (codes "501") (codes "Not Implemented")
      (codes "OS Web Server does not implement this method"))

accept-Inits :
    (fuel : ℕ) (stack : Stack) (uri : List ℕ) (rp : Rio)
    → Inits (accept fuel stack (named []) uri rp)
unfolding accept
accept-Inits fuel stack uri rp = named_by (request_read_headers fuel stack.header rp)
  where
    named_by :
        (o : Result Rio)
        → Inits (o >>= λ (rp' : Rio). ok (named (request_parse_uri uri maxline), true))
    named_by (stop s) = inl (s, refl)
    named_by (ok rp') = inr (inr (uri, refl))

from-Inits :
    (fuel : ℕ) (stack : Stack) (buf : List ℕ) (rp : Rio)
    → Inits (init_from fuel stack (named []) buf rp)
unfolding init_from
from-Inits fuel stack buf rp =
    let p = scan_request stack (cut buf) in
    by_method (strcasecmp (p.0) (codes "GET")) (reject (named []) (p.0))
      (accept fuel stack (named []) (p.1) rp) (reject-Inits (named []) (p.0))
      (accept-Inits fuel stack (p.1) rp)
  where
    by_method :
        (b : Bool) (x y : Result (Request × Bool)) → Inits x → Inits y → Inits (if b then x else y)
    by_method true x y i j = i
    by_method false x y i j = j

pub request_init-Inits :
    (fuel : ℕ) (stack : Stack) (input : Input) → Inits (request_init fuel stack input)
unfolding request_init
request_init-Inits fuel stack input = by_line (rio_readlineb maxline (rio_init input))
  where
    by_line :
        (o : GotLine)
        → Inits (elim o as (λ (g : GotLine). Result (Request × Bool)) [
          | a_line buf rp ↦ init_from fuel stack (named []) buf rp
          | end_of_file rp ↦ init_from fuel stack (named []) stack.line rp
          | overrun ↦ stop fault
          | read_error ↦ stop exits
        ])
    by_line (a_line buf rp) = from-Inits fuel stack buf rp
    by_line (end_of_file rp) = from-Inits fuel stack stack.line rp
    by_line overrun = inl (fault, refl)
    by_line read_error = inl (exits, refl)

-- The line that `request_init` looks at: the first, or what the array held where there is none.
abbrev pub FirstLine : Stack → Input → List ℕ → Rio → Type 0
FirstLine stack input buf rp =
    (rio_readlineb maxline (rio_init input) ≡ a_line buf rp)
    ⊎ ((rio_readlineb maxline (rio_init input) ≡ end_of_file rp) × (buf ≡ stack.line))

-- The connection is closed, and NULL is returned.
abbrev pub closed_null : Request → Result (Request × Bool)
closed_null rq = ok (record rq { is_open = false }, false)

-- A method and a URI: another method than GET, or a request, if the headers can be skipped.
abbrev pub Answers : ℕ → List ℕ → List ℕ → List ℕ → Rio → Result (Request × Bool) → Type 0
Answers fuel header method uri rp o =
    ((strcasecmp method (codes "GET") ≡ true)
      × (o ≡ (
          paged (named []) method (codes "501") (codes "Not Implemented")
            (codes "OS Web Server does not implement this method")
          >>= closed_null)))
    ⊎ ((strcasecmp method (codes "GET") ≡ false)
        × (o ≡ (
            request_read_headers fuel header rp >>= λ rp'.
            ok (named (take 8191 (codes "./" ++ uri)), true))))

destroy_open :
    (o : Result Request) (c e s l : List ℕ)
    → o ≡ paged (named []) c e s l
    → (o >>= request_destroy >>= λ (rq' : Request). ok (rq', false))
      ≡ (paged (named []) c e s l >>= closed_null)
unfolding request_destroy
destroy_open o c e s l same = elim (Bool-cases (leb 8192 (length (page_text c e s l)))) [
  | inl big ↦ rw (same, big) refl
  | inr small ↦ rw (same, small) refl
]

reject-paged :
    (method : List ℕ)
    → reject (named []) method ≡ (
        paged
          (named [])
          method
          (codes "501")
          (codes "Not Implemented")
          (codes "OS Web Server does not implement this method")
        >>= closed_null)
unfolding reject
reject-paged method =
    destroy_open _ method (codes "501") (codes "Not Implemented")
      (codes "OS Web Server does not implement this method")
      (request_error-page (named []) method (codes "501") (codes "Not Implemented")
        (codes "OS Web Server does not implement this method"))

accept-named :
    (fuel : ℕ) (stack : Stack) (uri : List ℕ) (rp : Rio)
    → accept fuel stack (named []) uri rp ≡ (
        request_read_headers fuel stack.header rp >>= λ rp'.
        ok (named (take 8191 (codes "./" ++ uri)), true))
unfolding accept request_parse_uri
accept-named fuel stack uri rp = refl

by_method-Answers :
    (fuel : ℕ) (stack : Stack) (method uri : List ℕ) (rp : Rio)
    → Answers fuel stack.header method uri rp (
        if strcasecmp method (codes "GET")
        then reject (named []) method
        else accept fuel stack (named []) uri rp)
by_method-Answers fuel stack method uri rp = elim (Bool-cases (strcasecmp method (codes "GET"))) [
  | inl other ↦ inl (other, rw other (reject-paged method))
  | inr get ↦ inr (get, rw get (accept-named fuel stack uri rp))
]

init_from-Answers :
    (fuel : ℕ) (stack : Stack) (buf : List ℕ) (rp : Rio)
    → Answers fuel stack.header
        (scan_request stack (cut buf)).0
        (scan_request stack (cut buf)).1
        rp
        (init_from fuel stack (named []) buf rp)
unfolding init_from
init_from-Answers fuel stack buf rp =
    by_method-Answers fuel stack (scan_request stack (cut buf)).0 (scan_request stack (cut buf)).1
      rp

-- With the method and the URI of the first line, up to its first 0, or of what the array held where
-- there is none: for another method than GET, in any case of its letters, `request_init` sends the
-- page "501 Not Implemented" with that method, closes the connection and returns NULL, or faults
-- where the page is too long for the buffer of `request_error`. For GET it skips the headers, and
-- then returns an open request on which nothing has been sent, with no content, for the name that is
-- the first 8191 bytes of "./" and the URI.
pub request_init-Answers :
    (fuel : ℕ) (stack : Stack) (input : Input) (buf : List ℕ) (rp : Rio)
    → FirstLine stack input buf rp
    → Answers fuel stack.header
        (scan_request stack (cut buf)).0
        (scan_request stack (cut buf)).1
        rp
        (request_init fuel stack input)
unfolding request_init
request_init-Answers fuel stack input buf rp (inl e) =
    rw (request_init, e) (init_from-Answers fuel stack buf rp)
request_init-Answers fuel stack input buf rp (inr (e, same)) =
    rw (request_init, e, same) (init_from-Answers fuel stack stack.line rp)
