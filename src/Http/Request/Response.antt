-- ===== src/Http/Request/Response.antt =====
-- The response of `request_sendfile`.
use mathlib.Core.List.{append-nil, append_assoc}
use ece344_operating_systems.Base.{
  ℕ, zero, suc, ◌+◌, ◌%◌, ◌^◌, ◌≤◌, ◌<◌, List, [], ◌∷◌, ◌++◌, ltb, leb, if◌then◌else◌, length, ◌≡◌,
  refl, ap, ◌∙◌, sym, arith, Bool-cases, inl, inr, take, codes, decimal,
}
use ece344_operating_systems.Http.Result.{Result, ok, stop, fault, ◌>>=◌}
use ece344_operating_systems.Server.Cache.{FileData}
use ece344_operating_systems.Http.Request.{
  Request, csum_loop, process_rounds, request_processfile, request_sendfile, rio_write_to,
  ok_header, request_get_file_type, crlf,
}

abbrev pub total : List ℕ → ℕ
total [] = 0
total (b ∷ bytes) = b + total bytes

pub csum_loop-total :
    (n : ℕ) (bytes : List ℕ) (csum : ℕ)
    → csum < 2 ^ 32
    → n ≤ length bytes
    → csum_loop n bytes csum ≡ ok ((csum + total (take n bytes)) % 2 ^ 32)
unfolding csum_loop
csum_loop-total zero bytes csum c l = ap ok (omega arith)
csum_loop-total (suc n) [] csum c l = absurd (omega arith)
csum_loop-total (suc n) (b ∷ bytes) csum c l =
    csum_loop-total n bytes ((csum + b) % 2 ^ 32) (omega arith) (omega arith) ∙ ap ok (omega arith)

pub csum_loop-fault :
    (n : ℕ) (bytes : List ℕ) (csum : ℕ) → length bytes < n → csum_loop n bytes csum ≡ stop fault
unfolding csum_loop
csum_loop-fault zero bytes csum l = absurd (omega arith)
csum_loop-fault (suc n) [] csum l = refl
csum_loop-fault (suc n) (b ∷ bytes) csum l =
    csum_loop-fault n bytes ((csum + b) % 2 ^ 32) (omega arith)

process_rounds-ok :
    (n : ℕ) (file : FileData) (dummy : ℕ)
    → dummy < 2 ^ 32
    → file.file_size ≤ length file.file_buf
    → (d : ℕ) × (process_rounds n file dummy ≡ ok d)
unfolding process_rounds
process_rounds-ok zero file dummy c l = (dummy, refl)
process_rounds-ok (suc n) file dummy c l =
    let next = (dummy + total (take file.file_size file.file_buf)) % 2 ^ 32 in
    let (d, runs) = process_rounds-ok n file next (omega arith) l in
    (
      d,
      ap (λ (o : Result ℕ). o >>= process_rounds n file)
            (csum_loop-total file.file_size file.file_buf dummy c l)
          ∙ runs,
    )

-- The content that is sent.
abbrev pub body_of : FileData → List ℕ
body_of file = take file.file_size file.file_buf

-- The header with the sum of the content's bytes, and the content.
abbrev pub response_of : FileData → List ℕ
response_of file = ok_header file (total (body_of file) % 2 ^ 32) ++ body_of file

-- Whatever is sent goes behind what has been sent before.
abbrev pub answered : Request → Request
answered rq = record rq { sent = rq.sent ++ response_of rq.file }

sends-body :
    (rq : Request) (header : List ℕ)
    → (if ltb 0 rq.file.file_size
        then rio_write_to (rio_write_to rq header) (body_of rq.file)
        else rio_write_to rq header)
      ≡ record rq { sent = rq.sent ++ (header ++ body_of rq.file) }
unfolding rio_write_to
sends-body rq header = elim (Bool-cases (ltb 0 rq.file.file_size)) [
  | inl some_bytes ↦
      rw some_bytes (
        ap (λ (l : List ℕ). record rq { sent = l }) (append_assoc rq.sent header (body_of rq.file)))
  | inr no_bytes ↦
      let none_size : rq.file.file_size ≡ 0 = ground (arith, no_bytes) in
      let nothing : body_of rq.file ≡ [] = ap (λ (n : ℕ). take n rq.file.file_buf) none_size in
      rw no_bytes (
        ap (λ (l : List ℕ). record rq { sent = rq.sent ++ l }) (sym (append-nil header))
        ∙ ap (λ (l : List ℕ). record rq { sent = rq.sent ++ (header ++ l) }) (sym nothing))
]

-- What `request_sendfile` does with a checksum.
abbrev sends : Request → ℕ → Request
sends rq csum =
    if ltb 0 rq.file.file_size
    then rio_write_to (rio_write_to rq (ok_header rq.file csum)) (body_of rq.file)
    else rio_write_to rq (ok_header rq.file csum)

processfile-ok :
    (rq : Request) (d : ℕ) → process_rounds 8 rq.file 0 ≡ ok d → request_processfile rq ≡ ok d
unfolding request_processfile
processfile-ok rq d e = e

pub sendfile-answered :
    (rq : Request)
    → rq.file.file_size ≤ length rq.file.file_buf
    → request_sendfile rq ≡ ok (answered rq)
unfolding request_sendfile
sendfile-answered rq l =
    let (d, rounds) = process_rounds-ok 8 rq.file 0 (omega arith) l in
    let sum = total (body_of rq.file) % 2 ^ 32 in
    let sums : csum_loop rq.file.file_size rq.file.file_buf 0 ≡ ok sum =
      csum_loop-total rq.file.file_size rq.file.file_buf 0 (omega arith) l ∙ ap ok (omega arith) in
    ap
      (λ (o : Result ℕ).
        o >>= λ (csum : ℕ). request_processfile rq >>= λ (d1 : ℕ). ok (sends rq csum))
      sums
    ∙ ap (λ (o : Result ℕ). o >>= λ (d1 : ℕ). ok (sends rq sum)) (processfile-ok rq d rounds)
    ∙ ap ok (sends-body rq (ok_header rq.file sum))

-- A message of HTTP: its lines, each with its end, an empty line, and the content.
abbrev pub message : List (List ℕ) → List ℕ → List ℕ
message [] bytes = 13 ∷ 10 ∷ bytes
message (l ∷ ls) bytes = l ++ 13 ∷ 10 ∷ message ls bytes

-- The lines that go before a file.
abbrev pub ok_lines : FileData → List (List ℕ)
ok_lines file =
    codes "HTTP/1.0 200 OK"
    ∷ codes "Server: OS Web Server"
    ∷ (codes "Content-Type: " ++ request_get_file_type file.file_name)
    ∷ (codes "Content-Length: " ++ decimal file.file_size)
    ∷ (codes "Content-Csum: " ++ decimal (total (body_of file) % 2 ^ 32))
    ∷ []

five_lines :
    (a b c d e bytes : List ℕ)
    → (a ++ crlf) ++ (b ++ crlf) ++ (c ++ crlf) ++ (d ++ crlf) ++ (e ++ crlf ++ crlf) ++ bytes
      ≡ message (a ∷ b ∷ c ∷ d ∷ e ∷ []) bytes
five_lines a b c d e bytes = simp append_assoc refl

response-message : (file : FileData) → response_of file ≡ message (ok_lines file) (body_of file)
response-message file =
    five_lines (codes "HTTP/1.0 200 OK") (codes "Server: OS Web Server")
      (codes "Content-Type: " ++ request_get_file_type file.file_name)
      (codes "Content-Length: " ++ decimal file.file_size)
      (codes "Content-Csum: " ++ decimal (total (body_of file) % 2 ^ 32)) (body_of file)

-- The request, with the message behind what has been sent before.
abbrev pub responded : Request → Request
responded rq = record rq { sent = rq.sent ++ message (ok_lines rq.file) (body_of rq.file) }

answered-responded : (rq : Request) → answered rq ≡ responded rq
answered-responded rq =
    ap (λ (l : List ℕ). record rq { sent = rq.sent ++ l }) (response-message rq.file)

-- `request_sendfile` sends one message: the status, the server, the type of the file's name, the
-- file's size in decimal, the sum of its bytes modulo 2 ^ 32 in decimal, each on a line that CR LF
-- ends, an empty line, and as many bytes of the content as the size says; where the array is
-- shorter than that, it reads behind its end.
pub request_sendfile-response :
    (rq : Request)
    → request_sendfile rq
      ≡ (if leb rq.file.file_size (length rq.file.file_buf) then ok (responded rq) else stop fault)
unfolding request_sendfile
request_sendfile-response rq = elim (Bool-cases (leb rq.file.file_size (length rq.file.file_buf))) [
  | inl enough ↦
      rw enough (sendfile-answered rq (ground (arith, enough)) ∙ ap ok (answered-responded rq))
  | inr few ↦
      let l : length rq.file.file_buf < rq.file.file_size = ground (arith, few) in
      let stops = csum_loop-fault rq.file.file_size rq.file.file_buf 0 l in
      rw (few, request_sendfile, stops) refl
]
