-- ===== src/Http/Delivery.antt =====
-- A file from the server's `request_sendfile` to the client's `client_print`.
use mathlib.Core.List.{append_assoc}
use ece344_operating_systems.Base.{
  ℕ, zero, suc, ◌+◌, ◌%◌, ◌^◌, ◌<◌, ◌≤◌, Bool, true, false, ◌&&◌, Option, none, some, List, [], ◌∷◌,
  ◌++◌, ◌==◌, if◌then◌else◌, length, ◌≡◌, refl, ap, ◌∙◌, sym, arith, codes, decimal, contains, take,
}
use ece344_operating_systems.Base.Text.Decimal.{all_digits-decimal, length-decimal}
use ece344_operating_systems.Http.Result.{ok}
use ece344_operating_systems.Http.Rio.{Input}
use ece344_operating_systems.Http.Rio.Bytes.{flat, is_reliable}
use ece344_operating_systems.Http.Rio.Gets.{is_clean, short_from}
use ece344_operating_systems.Server.Cache.{FileData}
use ece344_operating_systems.Http.Request.{Request, crlf, request_get_file_type, request_sendfile}
use ece344_operating_systems.Http.Request.Headers.{is_header, all_headers, head_text, cut-clean}
use ece344_operating_systems.Http.Request.Response.{
  total, body_of, response_of, answered, sendfile-answered,
}
use ece344_operating_systems.Http.Client.{Tags, scan_tag, scan_tags, client_print, agrees}
use ece344_operating_systems.Http.Client.Body.{after, shown}
use ece344_operating_systems.Http.Client.Head.{scan_all, print_all, zeros, client_print-verdict}
use ece344_operating_systems.Http.Client.Numbers.{digits-clean, scan_int-decimal}

abbrev pub status : List ℕ
status = codes "HTTP/1.0 200 OK"

abbrev length_line : ℕ → List ℕ
length_line n = codes "Content-Length: " ++ decimal n

abbrev csum_line : ℕ → List ℕ
csum_line n = codes "Content-Csum: " ++ decimal n

abbrev type_line : List ℕ → List ℕ
type_line name = codes "Content-Type: " ++ request_get_file_type name

-- The header lines behind the first.
abbrev pub ok_lines : FileData → List (List ℕ)
ok_lines file =
    codes "Server: OS Web Server"
    ∷ type_line file.file_name
    ∷ length_line file.file_size
    ∷ csum_line (total (body_of file) % 2 ^ 32)
    ∷ []

lines_of :
    (a b c rest : List ℕ)
    → ((status ++ crlf)
          ++ (codes "Server: OS Web Server" ++ crlf)
          ++ (codes "Content-Type: " ++ a ++ crlf)
          ++ (codes "Content-Length: " ++ b ++ crlf)
          ++ (codes "Content-Csum: " ++ c ++ crlf ++ crlf))
        ++ rest
      ≡ head_text
          (status
            ∷ codes "Server: OS Web Server"
            ∷ (codes "Content-Type: " ++ a)
            ∷ (codes "Content-Length: " ++ b)
            ∷ (codes "Content-Csum: " ++ c)
            ∷ [])
          (13 ∷ 10 ∷ rest)
lines_of a b c rest = simp append_assoc refl

response-lines :
    (file : FileData)
    → response_of file ≡ head_text (status ∷ ok_lines file) (13 ∷ 10 ∷ body_of file)
response-lines file =
    lines_of (request_get_file_type file.file_name) (decimal file.file_size)
      (decimal (total (body_of file) % 2 ^ 32)) (body_of file)

either :
    (flag : List ℕ → Bool) (b : Bool) (x y : List ℕ)
    → flag x ≡ true
    → flag y ≡ true
    → flag (if b then x else y) ≡ true
either flag true x y p q = p
either flag false x y p q = q

type-header : (name : List ℕ) → is_header (type_line name) ≡ true
unfolding request_get_file_type
type-header name =
    let flag = λ (o : List ℕ). is_header (codes "Content-Type: " ++ o) in
    let inner = if contains (codes ".jpg") name then codes "image/jpeg" else codes "text/plain" in
    let middle = if contains (codes ".gif") name then codes "image/gif" else inner in
    either flag (contains (codes ".html") name) (codes "text/html") middle refl (
      either flag (contains (codes ".gif") name) (codes "image/gif") inner refl (
        either flag (contains (codes ".jpg") name) (codes "image/jpeg") (codes "text/plain") refl
          refl))

number-header :
    (n : ℕ) → n < 2 ^ 32 → (is_header (length_line n) ≡ true) × (is_header (csum_line n) ≡ true)
number-header n l =
    let clean = digits-clean (decimal n) (all_digits-decimal n) in
    let few = length-decimal n l in (ground (arith, clean, few), ground (arith, clean, few))

and_true : {a b : Bool} → a ≡ true → b ≡ true → a && b ≡ true
and_true p q = rw (p, q) refl

ok_lines-headers :
    (file : FileData) → file.file_size < 2 ^ 31 → all_headers (status ∷ ok_lines file) ≡ true
ok_lines-headers file l =
    let ty = type-header file.file_name in
    let (len, other) = number-header file.file_size (omega arith) in
    let (other2, sum) = number-header (total (body_of file) % 2 ^ 32) (omega arith) in
    and_true ty (and_true len (and_true sum refl))

length_line-tags :
    (n : ℕ) (tags : Tags)
    → n < 2 ^ 32
    → scan_tags (length_line n ++ crlf) tags ≡ record { length = n; csum = tags.csum }
length_line-tags n tags l =
    let clean = digits-clean (decimal n) (all_digits-decimal n) in
    let line-clean : is_clean (length_line n) ≡ true = ground (arith, clean) in
    ap
      (λ (s : List ℕ). record {
        length = scan_tag (codes "Content-Length:") s tags.length;
        csum = scan_tag (codes "Content-Csum:") s tags.csum;
      })
      (cut-clean (length_line n) line-clean)
    ∙ ap
        (λ (o : Option (ℕ × List ℕ)). record {
          length = elim o as (λ (o' : Option (ℕ × List ℕ)). ℕ) [
            | none ↦ tags.length
            | some n' ↦ n'.0
          ];
          csum = tags.csum;
        })
        (scan_int-decimal n crlf refl l)

csum_line-tags :
    (n : ℕ) (tags : Tags)
    → n < 2 ^ 32
    → scan_tags (csum_line n ++ crlf) tags ≡ record { length = tags.length; csum = n }
csum_line-tags n tags l =
    let clean = digits-clean (decimal n) (all_digits-decimal n) in
    let line-clean : is_clean (csum_line n) ≡ true = ground (arith, clean) in
    ap
      (λ (s : List ℕ). record {
        length = scan_tag (codes "Content-Length:") s tags.length;
        csum = scan_tag (codes "Content-Csum:") s tags.csum;
      })
      (cut-clean (csum_line n) line-clean)
    ∙ ap
        (λ (o : Option (ℕ × List ℕ)). record {
          length = tags.length;
          csum = elim o as (λ (o' : Option (ℕ × List ℕ)). ℕ) [ none ↦ tags.csum | some n' ↦ n'.0 ];
        })
        (scan_int-decimal n crlf refl l)

type_line-tags : (name : List ℕ) (tags : Tags) → scan_tags (type_line name ++ crlf) tags ≡ tags
type_line-tags name tags = refl

ok_lines-tags :
    (file : FileData)
    → file.file_size < 2 ^ 31
    → scan_all (ok_lines file) zeros
      ≡ record { length = file.file_size; csum = total (body_of file) % 2 ^ 32 }
ok_lines-tags file l =
    ap
      (λ (t : Tags).
        scan_tags (csum_line (total (body_of file) % 2 ^ 32) ++ crlf)
          (scan_tags (length_line file.file_size ++ crlf) t))
      (type_line-tags file.file_name zeros)
    ∙ ap (scan_tags (csum_line (total (body_of file) % 2 ^ 32) ++ crlf))
        (length_line-tags file.file_size zeros (omega arith))
    ∙ csum_line-tags (total (body_of file) % 2 ^ 32) (record { length = file.file_size; csum = 0 })
        (omega arith)

pub length-body : (n : ℕ) (xs : List ℕ) → n ≤ length xs → length (take n xs) ≡ n
length-body zero xs l = refl
length-body (suc n) [] l = absurd (omega arith)
length-body (suc n) (x ∷ xs) l = ap suc (length-body n xs (omega arith))

agrees-same :
    (sum size length' sum' : ℕ)
    → length' ≡ size
    → sum' ≡ sum
    → agrees sum size
        (record { length = size; csum = sum })
        (record { length = length'; csum = sum' })
      ≡ true
agrees-same sum size length' sum' p q =
    let a : (sum == sum) ≡ true = ground arith in
    let b : (size == size) ≡ true = ground arith in
    let c : (size == length') ≡ true = ground arith in
    let d : (sum == sum') ≡ true = ground arith in rw (a, b, c, d) refl

served-agrees :
    (file : FileData)
    → file.file_size < 2 ^ 31
    → file.file_size ≤ length file.file_buf
    → agrees
        (total (body_of file) % 2 ^ 32)
        file.file_size
        (scan_all (ok_lines file) zeros)
        (after zeros (body_of file))
      ≡ true
served-agrees file l enough =
    let sum = total (body_of file) % 2 ^ 32 in
    let size = length-body file.file_size file.file_buf enough in
    ap (λ (t : Tags). agrees sum file.file_size t (after zeros (body_of file)))
      (ok_lines-tags file l)
    ∙ agrees-same sum file.file_size ((0 + length (body_of file)) % 2 ^ 32)
        ((0 + total (body_of file)) % 2 ^ 32) (omega arith) (omega arith)

pub client_print-response :
    (fuel : ℕ) (buf : List ℕ) (print : Bool) (input : Input) (file : FileData)
    → file.file_size < 2 ^ 31
    → file.file_size ≤ length file.file_buf
    → short_from 8191 (body_of file) ≡ true
    → is_reliable input ≡ true
    → flat input ≡ response_of file
    → file.file_size + 6 ≤ fuel
    → client_print fuel buf (total (body_of file) % 2 ^ 32) file.file_size print input
      ≡ ok (print_all print (status ∷ ok_lines file) [] ++ shown print (body_of file))
client_print-response fuel buf print input file l enough s r e f =
    let size = length-body file.file_size file.file_buf enough in
    let text : flat input ≡ head_text (status ∷ ok_lines file) (13 ∷ 10 ∷ body_of file) =
      e ∙ response-lines file in
    client_print-verdict fuel buf (total (body_of file) % 2 ^ 32) file.file_size print input status
      (ok_lines file) (body_of file) r (ok_lines-headers file l) s text (omega arith)
    ∙ rw (served-agrees file l enough) refl

-- What `request_sendfile` sends of a file that is in its array as a whole passes the four assertions
-- of a client that expects the file's size and the sum of its bytes modulo 2 ^ 32, in whatever
-- pieces it comes, if the file's lines are shorter than the client's buffer: the client returns, and
-- prints the header lines and the content when it is to print.
pub client_print-sendfile :
    (fuel : ℕ) (buf : List ℕ) (print : Bool) (input : Input) (rq rq' : Request)
    → rq.file.file_size < 2 ^ 31
    → rq.file.file_size ≤ length rq.file.file_buf
    → short_from 8191 (body_of rq.file) ≡ true
    → rq.sent ≡ []
    → request_sendfile rq ≡ ok rq'
    → is_reliable input ≡ true
    → flat input ≡ rq'.sent
    → rq.file.file_size + 6 ≤ fuel
    → client_print fuel buf (total (body_of rq.file) % 2 ^ 32) rq.file.file_size print input
      ≡ ok (print_all print (status ∷ ok_lines rq.file) [] ++ shown print (body_of rq.file))
client_print-sendfile fuel buf print input rq rq' l enough s none_sent sends r e f =
    let same : rq' ≡ answered rq = ground (arith, sym (sendfile-answered rq enough) ∙ sends) in
    let text : flat input ≡ response_of rq.file =
      e
      ∙ ap (λ (q : Request). q.sent) same
      ∙ ap (λ (xs : List ℕ). xs ++ response_of rq.file) none_sent in
    client_print-response fuel buf print input rq.file l enough s r text f
