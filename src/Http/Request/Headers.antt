-- ===== src/Http/Request/Headers.antt =====
-- `request_read_headers` on the text of a request.
use ece344_operating_systems.Base.{
  ℕ, zero, suc, ◌+◌, ◌≤◌, ◌<◌, Bool, true, false, ◌&&◌, List, [], ◌∷◌, ◌++◌, ltb, length, ◌≡◌, refl,
  ap, ◌∙◌, arith, eq_string, cut,
}
use ece344_operating_systems.Http.Result.{Result, ok, stop, running}
use ece344_operating_systems.Http.Rio.{Rio}
use ece344_operating_systems.Http.Rio.Bytes.{content, is_reliable}
use ece344_operating_systems.Http.Rio.Gets.{
  Gets, readlineb-Gets, readlineb-Ends, is_clean, take_line-clean,
}
use ece344_operating_systems.Http.Request.{headers_from, request_read_headers, crlf, maxline}

-- A header line, without its "\r\n".
abbrev pub is_header : List ℕ → Bool
is_header [] = false
is_header (c ∷ cs) = is_clean (c ∷ cs) && ltb (length cs) 8188

abbrev pub all_headers : List (List ℕ) → Bool
all_headers [] = true
all_headers (x ∷ xs) = is_header x && all_headers xs

-- The lines, and what comes behind them.
abbrev pub head_text : List (List ℕ) → List ℕ → List ℕ
head_text [] rest = rest
head_text (x ∷ xs) rest = x ++ 13 ∷ 10 ∷ head_text xs rest

pub cut-clean : (xs : List ℕ) → is_clean xs ≡ true → cut (xs ++ crlf) ≡ xs ++ crlf
cut-clean [] a = refl
cut-clean (zero ∷ xs) a = absurd (ground (arith, a))
cut-clean (suc c ∷ xs) a = ap (λ (l : List ℕ). suc c ∷ l) (cut-clean xs (ground (arith, a)))

not_empty : (xs : List ℕ) → is_header xs ≡ true → eq_string (xs ++ crlf) crlf ≡ false
not_empty [] h = absurd (ground (arith, h))
not_empty (c ∷ []) h = ground arith
not_empty (c ∷ d ∷ xs) h = ground arith

pub header-crlf : (x : List ℕ) → is_header x ≡ true → eq_string (cut (x ++ crlf)) crlf ≡ false
header-crlf [] h = absurd (ground (arith, h))
header-crlf (c ∷ cs) h =
    ap (λ (l : List ℕ). eq_string l crlf) (cut-clean (c ∷ cs) (ground (arith, h)))
    ∙ not_empty (c ∷ cs) h

-- A header line is read as a whole.
pub header-Gets :
    (rp : Rio) (x rest : List ℕ)
    → is_reliable rp.input ≡ true
    → is_header x ≡ true
    → content rp ≡ x ++ 13 ∷ 10 ∷ rest
    → Gets maxline rp (x ++ crlf) rest
header-Gets rp [] rest r h e = absurd (ground (arith, h))
header-Gets rp (c ∷ cs) rest r h e =
    let clean : is_clean (c ∷ cs) ≡ true = ground (arith, h) in
    let few : length cs < 8188 = ground (arith, h) in
    let line = take_line-clean maxline (c ∷ cs) rest clean (omega arith) in
    readlineb-Gets maxline rp c (cs ++ crlf) rest r (rw e line) (rw (length-crlf cs) (omega arith))
  where
    length-crlf : (xs : List ℕ) → length (xs ++ crlf) ≡ length xs + 2
    length-crlf [] = refl
    length-crlf (x ∷ xs) = let ih = length-crlf xs in omega arith

pub crlf-Gets :
    (rp : Rio) (rest : List ℕ)
    → is_reliable rp.input ≡ true
    → content rp ≡ 13 ∷ 10 ∷ rest
    → Gets maxline rp crlf rest
crlf-Gets rp rest r e =
    readlineb-Gets maxline rp 13 (10 ∷ []) rest r
      (rw e (take_line-clean maxline [] rest refl (omega arith))) (omega arith)

-- The headers are read up to the rest.
abbrev pub Skips : Result Rio → List ℕ → Type 0
Skips o rest = (rp' : Rio) × (o ≡ ok rp') × (content rp' ≡ rest) × (is_reliable rp'.input ≡ true)

headers_from-Skips :
    (fuel : ℕ) (ls : List (List ℕ)) (buf rest : List ℕ) (rp : Rio)
    → is_reliable rp.input ≡ true
    → eq_string (cut buf) crlf ≡ false
    → all_headers ls ≡ true
    → content rp ≡ head_text ls (13 ∷ 10 ∷ rest)
    → length ls + 2 ≤ fuel
    → Skips (headers_from fuel buf rp) rest
unfolding headers_from
headers_from-Skips zero ls buf rest rp r b h e f = absurd (omega arith)
headers_from-Skips (suc zero) ls buf rest rp r b h e f = absurd (omega arith)
headers_from-Skips (suc (suc fuel)) [] buf rest rp r b h e f =
    let (rp', runs, left, r') = crlf-Gets rp rest r e in
    (rp', rw (headers_from, b, runs) refl, left, r')
headers_from-Skips (suc (suc fuel)) (x ∷ xs) buf rest rp r b h e f =
    let here : is_header x ≡ true = ground (arith, h) in
    let there : all_headers xs ≡ true = ground (arith, h) in
    let (rp1, runs, left, r1) = header-Gets rp x (head_text xs (13 ∷ 10 ∷ rest)) r here e in
    rw (headers_from, b, runs)
      (headers_from-Skips (suc fuel) xs (x ++ crlf) rest rp1 r1 (header-crlf x here) there left
        (omega arith))

-- From a descriptor without errors that has header lines, each shorter than the buffer, an empty
-- line and a rest, `request_read_headers` reads up to the rest and returns, in as many rounds as
-- there are lines and one more, whatever its buffer held.
pub request_read_headers-Skips :
    (fuel : ℕ) (ls : List (List ℕ)) (buf rest : List ℕ) (rp : Rio)
    → is_reliable rp.input ≡ true
    → all_headers ls ≡ true
    → content rp ≡ head_text ls (13 ∷ 10 ∷ rest)
    → length ls + 1 ≤ fuel
    → Skips (request_read_headers fuel buf rp) rest
unfolding request_read_headers
request_read_headers-Skips zero ls buf rest rp r h e f = absurd (omega arith)
request_read_headers-Skips (suc fuel) [] buf rest rp r h e f =
    let (rp', runs, left, r') = crlf-Gets rp rest r e in
    (rp', rw (request_read_headers, runs, headers_from) refl, left, r')
request_read_headers-Skips (suc fuel) (x ∷ xs) buf rest rp r h e f =
    let here : is_header x ≡ true = ground (arith, h) in
    let there : all_headers xs ≡ true = ground (arith, h) in
    let (rp1, runs, left, r1) = header-Gets rp x (head_text xs (13 ∷ 10 ∷ rest)) r here e in
    rw (request_read_headers, runs)
      (headers_from-Skips (suc fuel) xs (x ++ crlf) rest rp1 r1 (header-crlf x here) there left
        (omega arith))

-- Without an empty line the loop goes on, at the end of the file too.
headers_from-running :
    (fuel : ℕ) (ls : List (List ℕ)) (buf : List ℕ) (rp : Rio)
    → is_reliable rp.input ≡ true
    → eq_string (cut buf) crlf ≡ false
    → all_headers ls ≡ true
    → content rp ≡ head_text ls []
    → headers_from fuel buf rp ≡ stop running
unfolding headers_from
headers_from-running zero ls buf rp r b h e = refl
headers_from-running (suc fuel) [] buf rp r b h e =
    let (rp1, runs, left, r1) = readlineb-Ends 8191 rp r e in
    rw (headers_from, b, runs) (headers_from-running fuel [] buf rp1 r1 b h left)
headers_from-running (suc fuel) (x ∷ xs) buf rp r b h e =
    let here : is_header x ≡ true = ground (arith, h) in
    let there : all_headers xs ≡ true = ground (arith, h) in
    let (rp1, runs, left, r1) = header-Gets rp x (head_text xs []) r here e in
    rw (headers_from, b, runs)
      (headers_from-running fuel xs (x ++ crlf) rp1 r1 (header-crlf x here) there left)

-- A client that sends header lines and then closes its end without the empty line keeps
-- `request_read_headers` in its loop for ever: no number of rounds is enough.
pub request_read_headers-running :
    (fuel : ℕ) (x : List ℕ) (ls : List (List ℕ)) (buf : List ℕ) (rp : Rio)
    → is_reliable rp.input ≡ true
    → all_headers (x ∷ ls) ≡ true
    → content rp ≡ head_text (x ∷ ls) []
    → request_read_headers fuel buf rp ≡ stop running
unfolding request_read_headers
request_read_headers-running fuel x ls buf rp r h e =
    let here : is_header x ≡ true = ground (arith, h) in
    let there : all_headers ls ≡ true = ground (arith, h) in
    let (rp1, runs, left, r1) = header-Gets rp x (head_text ls []) r here e in
    rw (request_read_headers, runs)
      (headers_from-running fuel ls (x ++ crlf) rp1 r1 (header-crlf x here) there left)
