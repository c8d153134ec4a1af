-- ===== src/Common/Status.antt =====
-- base/status.h: the result codes, and the ways a function that returns one can end.
use Prim.Native.Nat.{ℕ}
use mathlib.Core.Bool.{Bool, true, false}

-- The codes of `enum Code` that the modelled functions return besides kOk.
pub data Code : Type 0 where
  invalid_param not_init not_found invalid_length not_all_lower_case_letter : Code
  invalid_url_encoding_str malloc_failed internal_error not_all_digits sub_error : Code
  ring_empty : Code

-- `ok a`: the function returned kOk with the output `a`. `err c`: it returned `c`.
-- `undefined`: it left what C++ defines (an index or a shift out of range), or it
-- stopped at an `assert`.
pub data Result {ℓ} (A : Type ℓ) : Type ℓ where
  ok : A → Result A
  err : Code → Result A
  undefined : Result A

infixl 5 ◌>>=◌ ◌>>◌
abbrev pub ◌>>=◌ {ℓ κ} : {A : Type ℓ} {B : Type κ} → Result A → (A → Result B) → Result B
ok a >>= f = f a
err c >>= f = err c
undefined >>= f = undefined

abbrev pub ◌>>◌ {ℓ κ} : {A : Type ℓ} {B : Type κ} → Result A → Result B → Result B
m >> k = m >>= λ _. k

-- `if (test) return code;`
abbrev pub fail_if : Bool → Code → Result (Unit {0})
fail_if true c = err c
fail_if false c = ok tt

-- The output of a call that returned kOk, and 0 for any other.
abbrev pub value : Result ℕ → ℕ
value (ok a) = a
value (err c) = 0
value undefined = 0
