-- ===== src/Http/Result.antt =====
-- How the functions of webserver/ end that may not return.

-- Undefined behaviour; `exit`, from `unix_error`, `SYS` or `assert`; a loop that has used its fuel.
pub data Stop : Type 0 where
  fault exits running : Stop

pub data Result {ℓ} (A : Type ℓ) : Type ℓ where
  ok : A → Result A
  stop : Stop → Result A

infixl 2 ◌>>=◌
abbrev pub ◌>>=◌ {ℓ ℓ'} : {A : Type ℓ} → {B : Type ℓ'} → Result A → (A → Result B) → Result B
ok a >>= f = f a
stop s >>= f = stop s
