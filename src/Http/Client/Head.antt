-- ===== src/Http/Client/Head.antt =====
-- `client_print` on the text of a response.
use ece344_operating_systems.Base.{
  ℕ, zero, suc, ◌+◌, ◌≤◌, Bool, true, List, [], ◌∷◌, ◌++◌, if◌then◌else◌, length, ◌≡◌, refl, ap,
  ◌∙◌, arith,
}
use ece344_operating_systems.Http.Result.{Result, ok, stop, exits, ◌>>=◌}
use ece344_operating_systems.Http.Rio.{Input, Rio, rio_init}
use ece344_operating_systems.Http.Rio.Bytes.{flat, content, is_reliable}
use ece344_operating_systems.Http.Rio.Gets.{short_from}
use ece344_operating_systems.Http.Request.{crlf}
use ece344_operating_systems.Http.Request.Headers.{
  is_header, all_headers, head_text, header-Gets, crlf-Gets, header-crlf,
}
use ece344_operating_systems.Http.Client.{
  Tags, scan_tags, print_header, head_loop, print_rest, agrees, client_print, body_loop,
}
use ece344_operating_systems.Http.Client.Body.{after, shown, body_loop-received}

-- The tags behind the header lines.
abbrev pub scan_all : List (List ℕ) → Tags → Tags
scan_all [] tags = tags
scan_all (x ∷ xs) tags = scan_all xs (scan_tags (x ++ crlf) tags)

-- What is printed of the header lines.
abbrev pub print_all : Bool → List (List ℕ) → List ℕ → List ℕ
print_all print [] out = out
print_all print (x ∷ xs) out = print_all print xs (out ++ print_header print (x ++ crlf))

-- The loop ends behind the empty line.
abbrev pub Heads : Result (Tags × List ℕ × Rio) → Tags → List ℕ → List ℕ → Type 0
Heads o tags out rest =
    (rp : Rio) × (o ≡ ok (tags, out, rp)) × (content rp ≡ rest) × (is_reliable rp.input ≡ true)

head_loop-Heads :
    (fuel : ℕ) (print : Bool) (x : List ℕ) (ls : List (List ℕ)) (tags : Tags) (out rest : List ℕ)
    (rp : Rio)
    → is_reliable rp.input ≡ true
    → is_header x ≡ true
    → all_headers ls ≡ true
    → content rp ≡ head_text ls (13 ∷ 10 ∷ rest)
    → length ls + 2 ≤ fuel
    → Heads
        (head_loop fuel print (x ++ crlf) true tags out rp)
        (scan_all ls tags)
        (print_all print (x ∷ ls) out)
        rest
unfolding head_loop
head_loop-Heads zero print x ls tags out rest rp r b h e f = absurd (omega arith)
head_loop-Heads (suc zero) print x ls tags out rest rp r b h e f = absurd (omega arith)
head_loop-Heads (suc (suc fuel)) print x [] tags out rest rp r b h e f =
    let goes = header-crlf x b in
    let (rp1, runs, left, r1) = crlf-Gets rp rest r e in
    (rp1, rw (head_loop, goes, runs) refl, left, r1)
head_loop-Heads (suc (suc fuel)) print x (y ∷ ys) tags out rest rp r b h e f =
    let goes = header-crlf x b in
    let here : is_header y ≡ true = ground (arith, h) in
    let there : all_headers ys ≡ true = ground (arith, h) in
    let (rp1, runs, left, r1) = header-Gets rp y (head_text ys (13 ∷ 10 ∷ rest)) r here e in
    let (rp2, runs2, left2, r2) =
      head_loop-Heads (suc fuel) print y ys (scan_tags (y ++ crlf) tags)
        (out ++ print_header print (x ++ crlf)) rest rp1 r1 here there left (omega arith) in
    let run : head_loop (suc (suc fuel)) print (x ++ crlf) true tags out rp
        ≡ head_loop (suc fuel) print (y ++ crlf) true (scan_tags (y ++ crlf) tags)
            (out ++ print_header print (x ++ crlf)) rp1 =
      rw (head_loop, goes, runs) refl in
    (rp2, run ∙ runs2, left2, r2)

abbrev pub zeros : Tags
zeros = record { length = 0; csum = 0 }

-- What the client makes of a response: the assertions, and what it prints.
abbrev pub verdict : ℕ → ℕ → Bool → List ℕ → List (List ℕ) → List ℕ → Result (List ℕ)
verdict orig_csum orig_length print x ls body =
    if agrees orig_csum orig_length (scan_all ls zeros) (after zeros body)
    then ok (print_all print (x ∷ ls) [] ++ shown print body)
    else stop exits

-- A response of header lines, an empty line and a body, all of whose lines are shorter than the
-- client's buffer, is read to its end, in whatever pieces it comes: the assertions compare the
-- expected length and checksum with the last tags behind the first line, and those with the length
-- of the body and the sum of its bytes.
pub client_print-verdict :
    (fuel : ℕ) (buf : List ℕ) (orig_csum orig_length : ℕ) (print : Bool) (input : Input)
    (x : List ℕ) (ls : List (List ℕ)) (body : List ℕ)
    → is_reliable input ≡ true
    → all_headers (x ∷ ls) ≡ true
    → short_from 8191 body ≡ true
    → flat input ≡ head_text (x ∷ ls) (13 ∷ 10 ∷ body)
    → length ls + length body + 2 ≤ fuel
    → client_print fuel buf orig_csum orig_length print input
      ≡ verdict orig_csum orig_length print x ls body
unfolding client_print rio_init
client_print-verdict fuel buf orig_csum orig_length print input x ls body r h s e f =
    let here : is_header x ≡ true = ground (arith, h) in
    let there : all_headers ls ≡ true = ground (arith, h) in
    let (rp1, runs, left, r1) =
      header-Gets (rio_init input) x (head_text ls (13 ∷ 10 ∷ body)) r here e in
    let (rp2, runs2, left2, r2) =
      head_loop-Heads fuel print x ls zeros [] body rp1 r1 here there left (omega arith) in
    let run : client_print fuel buf orig_csum orig_length print input ≡ (
        head_loop fuel print (x ++ crlf) true zeros [] rp1
        >>= print_rest fuel orig_csum orig_length print) =
      rw (client_print, runs) refl in
    run
    ∙ ap (λ (o : Result (Tags × List ℕ × Rio)). o >>= print_rest fuel orig_csum orig_length print)
        runs2
    ∙ rest_verdict (scan_all ls zeros) (print_all print (x ∷ ls) []) rp2 (
        body_loop-received fuel print zeros (print_all print (x ∷ ls) []) body rp2 r2 (omega arith)
          (omega arith) left2 s (omega arith))
  where
    rest_verdict :
        (tags : Tags) (out : List ℕ) (rp : Rio)
        → body_loop fuel print zeros out rp ≡ ok (after zeros body, out ++ shown print body)
        → print_rest fuel orig_csum orig_length print (tags, out, rp) ≡ (
            if agrees orig_csum orig_length tags (after zeros body)
            then ok (out ++ shown print body)
            else stop exits)
    rest_verdict tags out rp b =
        ap
          (λ (o : Result (Tags × List ℕ)). o >>= λ (end : Tags × List ℕ).
            if agrees orig_csum orig_length tags (end.0) then ok (end.1) else stop exits)
          b
