-- ===== src/Http/Request/Errors.antt =====
-- The pages of `request_error`.
use mathlib.Core.List.{append_assoc}
use ece344_operating_systems.Base.{
  ℕ, ◌+◌, ◌%◌, ◌^◌, false, List, [], ◌∷◌, ◌++◌, leb, if◌then◌else◌, length, ◌≡◌, refl, ap, ◌∙◌, sym,
  arith, Bool-cases, inl, inr, take, codes, decimal,
}
use ece344_operating_systems.Http.Result.{Result, ok, stop, fault, ◌>>=◌}
use ece344_operating_systems.Http.Request.{
  Request, crlf, maxbuf, error_body, error_header, request_error, csum_loop, rio_write_to,
}
use ece344_operating_systems.Http.Request.Response.{total, csum_loop-total, message}

-- The header and the body of a page.
abbrev page_of : List ℕ → List ℕ → List ℕ → List ℕ → List ℕ
page_of cause errnum shortmsg longmsg =
    let body = error_body cause errnum shortmsg longmsg in
    error_header errnum shortmsg body (total body % 2 ^ 32) ++ body

csum-whole : (bytes : List ℕ) → csum_loop (length bytes) bytes 0 ≡ ok (total bytes % 2 ^ 32)
csum-whole bytes =
    csum_loop-total (length bytes) bytes 0 (omega arith) (omega arith)
    ∙ ap (λ (xs : List ℕ). ok ((0 + total xs) % 2 ^ 32)) (whole bytes)
    ∙ ap ok (omega arith)
  where
    whole : (xs : List ℕ) → take (length xs) xs ≡ xs
    whole [] = refl
    whole (x ∷ xs) = ap (λ (l : List ℕ). x ∷ l) (whole xs)

short-page :
    (rq : Request) (cause errnum shortmsg longmsg : List ℕ)
    → leb maxbuf (length (error_body cause errnum shortmsg longmsg)) ≡ false
    → request_error rq cause errnum shortmsg longmsg
      ≡ ok (record rq { sent = rq.sent ++ page_of cause errnum shortmsg longmsg })
unfolding request_error rio_write_to
short-page rq cause errnum shortmsg longmsg small =
    let body = error_body cause errnum shortmsg longmsg in
    let run : request_error rq cause errnum shortmsg longmsg ≡ (
        csum_loop (length body) body 0 >>= λ (csum : ℕ).
        ok (rio_write_to (rio_write_to rq (error_header errnum shortmsg body csum)) body)) =
      rw (request_error, small) refl in
    run
    ∙ ap
        (λ (o : Result ℕ). o >>= λ (csum : ℕ).
          ok (rio_write_to (rio_write_to rq (error_header errnum shortmsg body csum)) body))
        (csum-whole body)
    ∙ ap (λ (xs : List ℕ). ok (record rq { sent = xs }))
        (append_assoc rq.sent (error_header errnum shortmsg body (total body % 2 ^ 32)) body)

-- Lines, each with its end.
abbrev pub unlines : List (List ℕ) → List ℕ
unlines [] = []
unlines (l ∷ ls) = l ++ 13 ∷ 10 ∷ unlines ls

-- The page for an error: its number, the short and the long text, and the cause.
abbrev pub page_text : List ℕ → List ℕ → List ℕ → List ℕ → List ℕ
page_text cause errnum shortmsg longmsg = unlines (
    codes "<html><title>OS Web Server Error</title><body bgcolor=fffff>"
    ∷ (codes "<p>" ++ errnum ++ codes ": " ++ shortmsg ++ codes "</p>")
    ∷ (codes "<p>" ++ longmsg ++ codes ": " ++ cause ++ codes "</p>")
    ∷ codes "</body></html>"
    ∷ [])

three_lines :
    (a b c d e : List ℕ)
    → a ++ (b ++ crlf) ++ (c ++ crlf) ++ (d ++ crlf) ++ (e ++ crlf)
      ≡ unlines ((a ++ b) ∷ c ∷ d ∷ e ∷ [])
three_lines a b c d e = simp append_assoc refl

error_body-page_text :
    (cause errnum shortmsg longmsg : List ℕ)
    → error_body cause errnum shortmsg longmsg ≡ page_text cause errnum shortmsg longmsg
error_body-page_text cause errnum shortmsg longmsg =
    three_lines (codes "<html><title>OS Web Server Error</title>") (codes "<body bgcolor=fffff>")
      (codes "<p>" ++ errnum ++ codes ": " ++ shortmsg ++ codes "</p>")
      (codes "<p>" ++ longmsg ++ codes ": " ++ cause ++ codes "</p>") (codes "</body></html>")

-- A page as a message: its status, its type, its length and the sum of its bytes on lines of
-- their own, and the page.
abbrev pub page_message : List ℕ → List ℕ → List ℕ → List ℕ → List ℕ
page_message cause errnum shortmsg longmsg =
    let body = page_text cause errnum shortmsg longmsg in
    message
      ((codes "HTTP/1.0 " ++ errnum ++ codes " " ++ shortmsg)
        ∷ codes "Content-Type: text/html"
        ∷ (codes "Content-Length: " ++ decimal (length body))
        ∷ (codes "Content-Csum: " ++ decimal (total body % 2 ^ 32))
        ∷ [])
      body

four_lines :
    (a b c d bytes : List ℕ)
    → (a ++ crlf) ++ (b ++ crlf) ++ (c ++ crlf) ++ (d ++ crlf ++ crlf) ++ bytes
      ≡ message (a ∷ b ∷ c ∷ d ∷ []) bytes
four_lines a b c d bytes = simp append_assoc refl

-- A page under its header.
abbrev under : List ℕ → List ℕ → List ℕ → List ℕ
under errnum shortmsg body = error_header errnum shortmsg body (total body % 2 ^ 32) ++ body

page_of-message :
    (cause errnum shortmsg longmsg : List ℕ)
    → page_of cause errnum shortmsg longmsg ≡ page_message cause errnum shortmsg longmsg
page_of-message cause errnum shortmsg longmsg =
    let body = page_text cause errnum shortmsg longmsg in
    ap (under errnum shortmsg) (error_body-page_text cause errnum shortmsg longmsg)
    ∙ four_lines (codes "HTTP/1.0 " ++ errnum ++ codes " " ++ shortmsg)
        (codes "Content-Type: text/html") (codes "Content-Length: " ++ decimal (length body))
        (codes "Content-Csum: " ++ decimal (total body % 2 ^ 32)) body

-- The request, with the page behind what has been sent before.
abbrev pub with_page : Request → List ℕ → List ℕ → List ℕ → List ℕ → Request
with_page rq cause errnum shortmsg longmsg = record rq {
  sent = rq.sent ++ page_message cause errnum shortmsg longmsg;
}

-- What `request_error` does: a fault where the page has no room.
abbrev pub paged : Request → List ℕ → List ℕ → List ℕ → List ℕ → Result Request
paged rq cause errnum shortmsg longmsg =
    if leb 8192 (length (page_text cause errnum shortmsg longmsg))
    then stop fault
    else ok (with_page rq cause errnum shortmsg longmsg)

-- If the page and its 0 have room in an array of 8192 bytes, `request_error` sends one message: a
-- status line with the number and the short text, the type, the length of the page in decimal, the
-- sum of its bytes modulo 2 ^ 32 in decimal, each on a line that CR LF ends, an empty line, and the
-- page, which has the number, both texts and the cause. Else it writes behind the array.
pub request_error-page :
    (rq : Request) (cause errnum shortmsg longmsg : List ℕ)
    → request_error rq cause errnum shortmsg longmsg ≡ paged rq cause errnum shortmsg longmsg
unfolding request_error
request_error-page rq cause errnum shortmsg longmsg =
    let body = error_body cause errnum shortmsg longmsg in
    let text = page_text cause errnum shortmsg longmsg in
    let same : leb maxbuf (length text) ≡ leb maxbuf (length body) =
      ap (λ (l : List ℕ). leb maxbuf (length l))
        (sym (error_body-page_text cause errnum shortmsg longmsg)) in
    elim (Bool-cases (leb maxbuf (length body))) [
      | inl big ↦
          let full = same ∙ big in
          let stops : request_error rq cause errnum shortmsg longmsg ≡ stop fault =
            rw (request_error, big) refl in
          stops ∙ sym (rw full refl)
      | inr small ↦
          let room = same ∙ small in
          let sends = short-page rq cause errnum shortmsg longmsg small in
          sends
          ∙ ap (λ (l : List ℕ). ok (record rq { sent = rq.sent ++ l }))
              (page_of-message cause errnum shortmsg longmsg)
          ∙ sym (rw room refl)
    ]
