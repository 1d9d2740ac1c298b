-- ===== src/Base/Text.antt =====
-- Texts as lists of bytes: literals, decimal numbers, and the searches of string.h.
pub mod Decimal
use Prim.Native.Nat.{ℕ, zero, suc, ◌+◌, ◌-◌, ◌*◌, ◌/◌, ◌%◌}
use Prim.Native.Char.{code}
use Prim.Native.String.{String}
use mathlib.Core.Bool.{Bool, true, false, ◌&&◌, ◌||◌, not}
use mathlib.Core.Option.{Option, none, some}
use mathlib.Core.List.{List, [], ◌∷◌, ◌++◌}
use ece344_operating_systems.Base.Tests.{◌==◌, leb, if◌then◌else◌}
use ece344_operating_systems.Base.CString.{eq_string}

-- The bytes of an ASCII literal.
abbrev pub codes : String → List ℕ
codes String.[] = []
codes (String.◌∷◌ c s) = code c ∷ codes s

-- `isspace`, in the C locale.
abbrev pub isspace : ℕ → Bool
isspace c = (c == 32) || (leb 9 c && leb c 13)

abbrev pub is_digit : ℕ → Bool
is_digit c = leb 48 c && leb c 57

-- The bytes of a number's decimal digits, before `out`; a round for each digit.
unfoldable pub digits_from : ℕ → ℕ → List ℕ → List ℕ
digits_from zero n out = out
digits_from (suc fuel) n out =
    let rest = digits_from fuel (n / 10) ((48 + n % 10) ∷ out) in if n == 0 then out else rest

-- What `%d` and `%u` print for a number that is not negative.
unfoldable pub decimal : ℕ → List ℕ
unfolding digits_from
decimal n = if n == 0 then 48 ∷ [] else digits_from n n []

-- The digits that a text begins with, read behind `n`, and the rest.
unfoldable pub read_digits : ℕ → List ℕ → ℕ × List ℕ
read_digits n [] = (n, [])
read_digits n (c ∷ cs) =
    let rest = read_digits (n * 10 + (c - 48)) cs in if is_digit c then rest else (n, c ∷ cs)

abbrev pub skip_space : List ℕ → List ℕ
skip_space [] = []
skip_space (c ∷ cs) = let rest = skip_space cs in if isspace c then rest else c ∷ cs

-- What is behind a prefix.
abbrev pub strip : List ℕ → List ℕ → Option (List ℕ)
strip [] xs = some xs
strip (p ∷ ps) [] = none
strip (p ∷ ps) (x ∷ xs) = let rest = strip ps xs in if p == x then rest else none

abbrev pub is_some {ℓ} : {A : Type ℓ} → Option A → Bool
is_some none = false
is_some (some a) = true

-- Whether `strstr` finds the needle.
abbrev pub contains : List ℕ → List ℕ → Bool
contains needle [] = is_some (strip needle [])
contains needle (x ∷ xs) = let rest = contains needle xs in is_some (strip needle (x ∷ xs)) || rest

-- `strrchr` of a character that is not 0: the last place where it stands.
abbrev pub strrchr : ℕ → List ℕ → Option (List ℕ)
strrchr c [] = none
strrchr c (x ∷ xs) =
    let rest = strrchr c xs in if is_some rest then rest else if x == c then some (x ∷ xs) else none

-- The C string that an array of these bytes and a 0 holds.
abbrev pub cut : List ℕ → List ℕ
cut [] = []
cut (zero ∷ xs) = []
cut (suc c ∷ xs) = suc c ∷ cut xs
