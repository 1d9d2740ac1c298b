-- ===== src/Http/Client/Body.antt =====
-- The loop of `client_print` over the body.
use mathlib.Core.List.{append-nil, append_assoc}
use ece344_operating_systems.Base.{
  ℕ, zero, suc, ◌+◌, ◌%◌, ◌^◌, ◌<◌, Bool, true, false, List, [], ◌∷◌, ◌++◌, if◌then◌else◌, length,
  length-append, ◌≡◌, refl, ap, ◌∙◌, sym, arith,
}
use ece344_operating_systems.Http.Result.{ok}
use ece344_operating_systems.Http.Rio.{Rio, rio_readlineb}
use ece344_operating_systems.Http.Rio.Bytes.{content, is_reliable}
use ece344_operating_systems.Http.Rio.Lines.{take_line}
use ece344_operating_systems.Http.Rio.Gets.{
  readlineb-Gets, readlineb-Ends, short_from, short-Splits,
}
use ece344_operating_systems.Http.Request.Response.{total}
use ece344_operating_systems.Http.Client.{Tags, add_bytes, body_loop, maxbuf, a_line}

pub add_bytes-total :
    (csum : ℕ) (bytes : List ℕ)
    → csum < 2 ^ 32
    → add_bytes csum bytes ≡ (csum + total bytes) % 2 ^ 32
unfolding add_bytes
add_bytes-total csum [] c = omega arith
add_bytes-total csum (b ∷ bytes) c =
    add_bytes-total ((csum + b) % 2 ^ 32) bytes (omega arith) ∙ omega arith

pub total-append : (xs ys : List ℕ) → total (xs ++ ys) ≡ total xs + total ys
total-append [] ys = omega arith
total-append (x ∷ xs) ys = let ih = total-append xs ys in omega arith

-- The tags of what is received behind `received`, and what is printed of it.
abbrev pub after : Tags → List ℕ → Tags
after received bytes = record {
  length = (received.length + length bytes) % 2 ^ 32;
  csum = (received.csum + total bytes) % 2 ^ 32;
}

abbrev pub shown : Bool → List ℕ → List ℕ
shown print bytes = if print then bytes else []

after-append :
    (received : Tags) (xs ys : List ℕ) → after (after received xs) ys ≡ after received (xs ++ ys)
after-append received xs ys =
    let lengths = length-append xs ys in
    let totals = total-append xs ys in
    let l : ((received.length + length xs) % 2 ^ 32 + length ys) % 2 ^ 32
        ≡ (received.length + length (xs ++ ys)) % 2 ^ 32 =
      omega arith in
    let t : ((received.csum + total xs) % 2 ^ 32 + total ys) % 2 ^ 32
        ≡ (received.csum + total (xs ++ ys)) % 2 ^ 32 =
      omega arith in
    ap
      (λ (n : ℕ). record {
        length = n;
        csum = ((received.csum + total xs) % 2 ^ 32 + total ys) % 2 ^ 32;
      })
      l
    ∙ ap (λ (n : ℕ). record { length = (received.length + length (xs ++ ys)) % 2 ^ 32; csum = n }) t

shown-append :
    (print : Bool) (out xs ys : List ℕ)
    → (out ++ shown print xs) ++ shown print ys ≡ out ++ shown print (xs ++ ys)
shown-append true out xs ys = append_assoc out xs ys
shown-append false out xs ys = append_assoc out [] []

shown-nil : (print : Bool) (out : List ℕ) → out ++ shown print [] ≡ out
shown-nil true out = append-nil out
shown-nil false out = append-nil out

-- What the loop ends in.
abbrev pub Received : Bool → Tags → List ℕ → List ℕ → Tags × List ℕ
Received print received out xs = (after received xs, out ++ shown print xs)

body_end :
    (fuel : ℕ) (print : Bool) (received : Tags) (out : List ℕ) (rp : Rio)
    → is_reliable rp.input ≡ true
    → received.length < 2 ^ 32
    → received.csum < 2 ^ 32
    → content rp ≡ []
    → body_loop (suc fuel) print received out rp ≡ ok (after received [], out ++ shown print [])
unfolding body_loop
body_end fuel print received out rp r a b e =
    let (rp', runs, left, r') = readlineb-Ends 8191 rp r e in
    let l : received.length ≡ (received.length + 0) % 2 ^ 32 = omega arith in
    let t : received.csum ≡ (received.csum + 0) % 2 ^ 32 = omega arith in
    let same : received ≡ after received [] =
      ap (λ (n : ℕ). record { length = n; csum = received.csum }) l
      ∙ ap (λ (n : ℕ). record { length = (received.length + 0) % 2 ^ 32; csum = n }) t in
    let run : body_loop (suc fuel) print received out rp ≡ ok (received, out) =
      rw (body_loop, runs) refl in
    run
    ∙ ap (λ (t1 : Tags). ok (t1, out)) same
    ∙ ap (λ (o : List ℕ). ok (after received [], o)) (sym (shown-nil print out))

body_step :
    (fuel : ℕ) (print : Bool) (received : Tags) (out l : List ℕ) (rp rp1 : Rio)
    → received.csum < 2 ^ 32
    → rio_readlineb maxbuf rp ≡ a_line l rp1
    → body_loop (suc fuel) print received out rp
      ≡ body_loop fuel print (after received l) (out ++ shown print l) rp1
unfolding body_loop
body_step fuel print received out l rp rp1 b runs =
    let sums = add_bytes-total received.csum l b in
    let run : body_loop (suc fuel) print received out rp
        ≡ body_loop fuel print
            (record {
              length = (received.length + length l) % 2 ^ 32;
              csum = add_bytes received.csum l;
            })
            (out ++ shown print l) rp1 =
      rw (body_loop, runs) refl in
    run
    ∙ ap
        (λ (n : ℕ).
          body_loop fuel print (record { length = (received.length + length l) % 2 ^ 32; csum = n })
            (out ++ shown print l) rp1)
        sums

-- From a descriptor without errors the whole body is received, as many rounds being enough as it
-- has bytes and one more, if each of its lines is shorter than the buffer.
pub body_loop-received :
    (fuel : ℕ) (print : Bool) (received : Tags) (out xs : List ℕ) (rp : Rio)
    → is_reliable rp.input ≡ true
    → received.length < 2 ^ 32
    → received.csum < 2 ^ 32
    → content rp ≡ xs
    → short_from 8191 xs ≡ true
    → length xs < fuel
    → body_loop fuel print received out rp ≡ ok (after received xs, out ++ shown print xs)
unfolding body_loop
body_loop-received zero print received out xs rp r a b e s f = absurd (omega arith)
body_loop-received (suc fuel) print received out [] rp r a b e s f =
    body_end fuel print received out rp r a b e
body_loop-received (suc fuel) print received out (c ∷ cs) rp r a b e s f =
    let (d, ds, rest, line, back, few, short) = short-Splits 8191 c cs s in
    let here : take_line maxbuf (content rp) ≡ (d ∷ ds, rest) = ap (take_line maxbuf) e ∙ line in
    let (rp1, runs, left, r1) = readlineb-Gets maxbuf rp d ds rest r here (omega arith) in
    let sizes = length-append (d ∷ ds) rest in
    let size : length (d ∷ ds ++ rest) ≡ suc (length cs) = ap (λ (l : List ℕ). length l) back in
    let ih =
      body_loop-received fuel print (after received (d ∷ ds)) (out ++ shown print (d ∷ ds)) rest rp1
        r1 (omega arith) (omega arith) left short (omega arith) in
    body_step fuel print received out (d ∷ ds) rp rp1 b runs
    ∙ ih
    ∙ ap (λ (t : Tags). ok (t, (out ++ shown print (d ∷ ds)) ++ shown print rest))
        (after-append received (d ∷ ds) rest)
    ∙ ap (λ (o : List ℕ). ok (after received (d ∷ ds ++ rest), o))
        (shown-append print out (d ∷ ds) rest)
    ∙ ap (λ (l : List ℕ). ok (after received l, out ++ shown print l)) back
