-- ===== src/Http/Request.antt =====
-- The requests of webserver/request.c. What the arrays on the stack held, what `malloc` leaves and
-- what the disk says are parameters. Each write is taken to go through; the copies that
-- `request_error` prints to the terminal are left out.
pub mod Headers
pub mod Response
pub mod Files
pub mod Init
pub mod Errors
use ece344_operating_systems.Base.{
  ℕ, zero, suc, ◌+◌, ◌-◌, ◌*◌, ◌%◌, ◌^◌, ◌≤◌, ◌<◌, Bool, true, false, not, ◌||◌, ◌&&◌, Option, none,
  some, List, [], ◌∷◌, ◌++◌, map, ◌==◌, ltb, leb, if◌then◌else◌, eq_string, codes, decimal, isspace,
  skip_space, contains, strrchr, cut, length, take,
}
use ece344_operating_systems.Http.Result.{Result, ok, stop, fault, exits, running, ◌>>=◌}
use ece344_operating_systems.Http.Rio.{
  Input, Read, Rio, GotLine, a_line, end_of_file, overrun, read_error, rio_readlineb, rio_init,
  rio_read, done, error,
}
use ece344_operating_systems.Server.Cache.{FileData}

abbrev pub maxline : ℕ
maxline = 8192

abbrev pub maxbuf : ℕ
maxbuf = 8192

-- `struct request`, with what has been written to its descriptor, and whether that is open.
pub record Request : Type 0 where
  pub file : FileData
  pub sent : List ℕ
  pub is_open : Bool

unfoldable pub rio_write_to : Request → List ℕ → Request
rio_write_to rq bytes = record rq { sent = rq.sent ++ bytes }

abbrev pub crlf : List ℕ
crlf = 13 ∷ 10 ∷ []

-- The loop of a checksum over `n` bytes of an array: a read behind its end is a fault.
unfoldable pub csum_loop : ℕ → List ℕ → ℕ → Result ℕ
csum_loop zero bytes csum = ok csum
csum_loop (suc n) [] csum = stop fault
csum_loop (suc n) (b ∷ bytes) csum = csum_loop n bytes ((csum + b) % 2 ^ 32)

abbrev pub error_body : List ℕ → List ℕ → List ℕ → List ℕ → List ℕ
error_body cause errnum shortmsg longmsg =
    codes "<html><title>OS Web Server Error</title>"
    ++ (codes "<body bgcolor=fffff>" ++ crlf)
    ++ (codes "<p>" ++ errnum ++ codes ": " ++ shortmsg ++ codes "</p>" ++ crlf)
    ++ (codes "<p>" ++ longmsg ++ codes ": " ++ cause ++ codes "</p>" ++ crlf)
    ++ (codes "</body></html>" ++ crlf)

abbrev pub error_header : List ℕ → List ℕ → List ℕ → ℕ → List ℕ
error_header errnum shortmsg body csum =
    (codes "HTTP/1.0 " ++ errnum ++ codes " " ++ shortmsg ++ crlf)
    ++ (codes "Content-Type: text/html" ++ crlf)
    ++ (codes "Content-Length: " ++ decimal (length body) ++ crlf)
    ++ (codes "Content-Csum: " ++ decimal csum ++ crlf ++ crlf)

-- `body` has room for `maxbuf` bytes, its 0 included.
unfoldable pub request_error : Request → List ℕ → List ℕ → List ℕ → List ℕ → Result Request
unfolding csum_loop rio_write_to decimal
request_error rq cause errnum shortmsg longmsg =
    let body = error_body cause errnum shortmsg longmsg in
    if leb maxbuf (length body)
    then stop fault
    else csum_loop (length body) body 0 >>= λ csum.
        ok (rio_write_to (rio_write_to rq (error_header errnum shortmsg body csum)) body)

-- The loop of `request_read_headers`, with what the buffer holds; a round for each unit of fuel.
unfoldable pub headers_from : ℕ → List ℕ → Rio → Result Rio
unfolding rio_readlineb
headers_from zero buf rp = stop running
headers_from (suc fuel) buf rp = elim (eq_string (cut buf) crlf) [
  | true ↦ ok rp
  | false ↦ elim (rio_readlineb maxline rp) [
    | a_line buf' rp' ↦ headers_from fuel buf' rp'
    | end_of_file rp' ↦ headers_from fuel buf rp'
    | overrun ↦ stop fault
    | read_error ↦ stop exits
  ]
]

-- `buf` is what the array held before.
unfoldable pub request_read_headers : ℕ → List ℕ → Rio → Result Rio
unfolding rio_readlineb headers_from
request_read_headers fuel buf rp = elim (rio_readlineb maxline rp) [
  | a_line buf' rp' ↦ headers_from fuel buf' rp'
  | end_of_file rp' ↦ headers_from fuel buf rp'
  | overrun ↦ stop fault
  | read_error ↦ stop exits
]

-- `snprintf` stops before the last byte of the array.
unfoldable pub request_parse_uri : List ℕ → ℕ → List ℕ
request_parse_uri uri max = take (max - 1) (codes "./" ++ uri)

unfoldable pub request_get_file_type : List ℕ → List ℕ
request_get_file_type filename =
    if contains (codes ".html") filename
    then codes "text/html"
    else if contains (codes ".gif") filename
    then codes "image/gif"
    else if contains (codes ".jpg") filename
    then codes "image/jpeg"
    else codes "text/plain"

-- What `%s` reads: the bytes before the next white space, and the rest.
abbrev pub word : List ℕ → List ℕ × List ℕ
word [] = ([], [])
word (c ∷ cs) = let (w, rest) = word cs in if isspace c then ([], c ∷ cs) else (c ∷ w, rest)

abbrev pub scan_word : List ℕ → Option (List ℕ × List ℕ)
scan_word xs = elim (skip_space xs) [ [] ↦ none | c ∷ cs ↦ some (word (c ∷ cs)) ]

-- What the arrays of `request_init` and `request_read_headers` held before.
pub record Stack : Type 0 where
  pub line : List ℕ
  pub method : List ℕ
  pub uri : List ℕ
  pub header : List ℕ

-- The method and the URI of a request line; an array that nothing is read into keeps its string.
abbrev pub scan_request : Stack → List ℕ → List ℕ × List ℕ
scan_request stack buf = elim (scan_word buf) [
  | none ↦ (stack.method, stack.uri)
  | some (method, rest) ↦ elim (scan_word rest) [
    | none ↦ (method, stack.uri)
    | some (uri, version) ↦ (method, uri)
  ]
]

abbrev pub tolower : ℕ → ℕ
tolower c = if leb 65 c && leb c 90 then c + 32 else c

abbrev pub strcasecmp : List ℕ → List ℕ → Bool
strcasecmp xs ys = not (eq_string (map tolower xs) (map tolower ys))

-- `close` of a descriptor that is not open fails.
unfoldable pub request_destroy : Request → Result Request
request_destroy rq = if rq.is_open then ok (record rq { is_open = false }) else stop exits

-- Another method than GET.
unfoldable pub reject : Request → List ℕ → Result (Request × Bool)
unfolding request_error request_destroy
reject rq method =
    request_error rq method (codes "501") (codes "Not Implemented")
      (codes "OS Web Server does not implement this method")
    >>= request_destroy
    >>= λ rq'. ok (rq', false)

-- GET: the headers are skipped and the file's name is set.
unfoldable pub accept : ℕ → Stack → Request → List ℕ → Rio → Result (Request × Bool)
unfolding request_read_headers request_parse_uri
accept fuel stack rq uri rp = request_read_headers fuel stack.header rp >>= λ rp'.
    ok (record rq { file = record rq.file { file_name = request_parse_uri uri maxline } }, true)

-- What `request_init` does with a line in its buffer: the request, and whether it returns it.
unfoldable pub init_from : ℕ → Stack → Request → List ℕ → Rio → Result (Request × Bool)
unfolding reject accept
init_from fuel stack rq buf rp =
    let (method, uri) = scan_request stack (cut buf) in
    if strcasecmp method (codes "GET") then reject rq method else accept fuel stack rq uri rp

unfoldable pub request_init : ℕ → Stack → Input → Result (Request × Bool)
unfolding init_from rio_init rio_readlineb
request_init fuel stack input =
    let file : FileData = record { file_name = []; file_buf = []; file_size = 0 } in
    let rq : Request = record { file = file; sent = []; is_open = true } in
    elim (rio_readlineb maxline (rio_init input)) [
      | a_line buf rp ↦ init_from fuel stack rq buf rp
      | end_of_file rp ↦ init_from fuel stack rq stack.line rp
      | overrun ↦ stop fault
      | read_error ↦ stop exits
    ]

-- What `stat` and `open` say of a file; sizes are below 2 ^ 31.
pub record File : Type 0 where
  pub is_regular : Bool
  pub may_read : Bool
  pub st_size : ℕ
  pub opened : Option Input

abbrev pub Disk : Type 0
Disk = List ℕ → Option File

-- An array of `n` bytes from `malloc`, with `xs` read into it; `left` is what it held, by the
-- distance from its end.
abbrev pub fill : (ℕ → ℕ) → ℕ → List ℕ → List ℕ
fill left zero xs = []
fill left (suc n) [] = left n ∷ fill left n []
fill left (suc n) (x ∷ xs) = x ∷ fill left n xs

abbrev pub is_absolute : List ℕ → Bool
is_absolute [] = false
is_absolute (c ∷ cs) = c == 47

abbrev pub is_source : Option (List ℕ) → Bool
is_source none = false
is_source (some ext) = eq_string ext (codes ".c") || eq_string ext (codes ".h")

-- The size and the array that the request's file gets.
abbrev pub with_content : Request → ℕ → List ℕ → Request
with_content rq size buf = record rq { file = record rq.file { file_buf = buf; file_size = size } }

-- What `Rio_read` has read goes into the array.
abbrev pub load_read : (ℕ → ℕ) → ℕ → Request → Read → Result (Request × Bool)
load_read left size rq (done bytes rest) = ok (with_content rq size (fill left size bytes), true)
load_read left size rq (error rest) = stop exits

unfoldable pub load_opened : (ℕ → ℕ) → ℕ → Request → Option Input → Result (Request × Bool)
unfolding rio_read
load_opened left size rq none = stop exits
load_opened left size rq (some input) = load_read left size rq (rio_read size input)

-- The content is read where there is some.
unfoldable pub load : (ℕ → ℕ) → File → Request → Result (Request × Bool)
unfolding load_opened
load left file rq =
    if file.st_size == 0
    then ok (with_content rq file.st_size rq.file.file_buf, true)
    else load_opened left file.st_size rq file.opened

-- An error page for the request's file: the request, and that `request_readfile` returns 0.
abbrev pub refuse : Request → List ℕ → List ℕ → List ℕ → Result (Request × Bool)
refuse rq errnum shortmsg longmsg =
    request_error rq rq.file.file_name errnum shortmsg longmsg >>= λ rq'. ok (rq', false)

-- The part of `request_readfile` behind the tests of the name.
unfoldable pub read_found : (ℕ → ℕ) → Option File → Request → Result (Request × Bool)
unfolding request_error load
read_found left none rq =
    refuse rq (codes "404") (codes "Not found") (codes "OS Web Server could not find this file")
read_found left (some file) rq =
    if not file.is_regular || not file.may_read
    then refuse rq (codes "403") (codes "Forbidden")
        (codes "OS Web Server could not read this file")
    else load left file rq

-- The request, and the value returned, 1 or 0.
unfoldable pub request_readfile : (ℕ → ℕ) → Disk → Request → Result (Request × Bool)
unfolding request_error read_found
request_readfile left disk rq =
    let name = rq.file.file_name in
    if is_absolute name
    then refuse rq (codes "404") (codes "Not found")
        (codes "OS Web Server doesn't serve files with absolute paths")
    else if contains (codes "..") name
    then refuse rq (codes "404") (codes "Not found")
        (codes "OS Web Server doesn't serve files with .. in the path")
    else if is_source (strrchr 46 name)
    then refuse rq (codes "404") (codes "Not found")
        (codes "OS Web Server doesn't serve C or header files ")
    else read_found left (disk name) rq

unfoldable pub request_set_data : Request → FileData → Request
request_set_data rq file = record rq { file = file }

-- `dummy` after rounds over the bytes of the file; an overflow, which C leaves undefined, wraps.
unfoldable pub process_rounds : ℕ → FileData → ℕ → Result ℕ
unfolding csum_loop
process_rounds zero file dummy = ok dummy
process_rounds (suc n) file dummy =
    csum_loop file.file_size file.file_buf dummy >>= process_rounds n file

unfoldable pub request_processfile : Request → Result ℕ
unfolding process_rounds
request_processfile rq = process_rounds 8 rq.file 0

abbrev pub ok_header : FileData → ℕ → List ℕ
ok_header file csum =
    (codes "HTTP/1.0 200 OK" ++ crlf)
    ++ (codes "Server: OS Web Server" ++ crlf)
    ++ (codes "Content-Type: " ++ request_get_file_type file.file_name ++ crlf)
    ++ (codes "Content-Length: " ++ decimal file.file_size ++ crlf)
    ++ (codes "Content-Csum: " ++ decimal csum ++ crlf ++ crlf)

unfoldable pub request_sendfile : Request → Result Request
unfolding csum_loop request_processfile request_get_file_type decimal rio_write_to
request_sendfile rq = csum_loop rq.file.file_size rq.file.file_buf 0 >>= λ csum.
    request_processfile rq >>= λ dummy.
    let rq' = rio_write_to rq (ok_header rq.file csum) in
    ok (
      if ltb 0 rq.file.file_size
      then rio_write_to rq' (take rq.file.file_size rq.file.file_buf)
      else rq')
