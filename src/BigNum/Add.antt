-- ===== src/BigNum/Add.antt =====
-- BigAddIntelnal of base/int.cc adds.
use csutil.Common.{ℕ, zero, suc, ◌+◌, ◌*◌, ◌%◌, ◌^◌, ◌<◌, ◌≤◌, ◌≡◌, refl, arith}
use csutil.Common.{le→leb, leb-false, List, [], ◌∷◌, length}
use native.Mathlib.Decide.{dec_le}
use csutil.BigNum.{digit, sum_char, sum_carry, add_loop, big_add_internal}
use csutil.BigNum.Digits.{IsDigit, AllDigits, digit<ten, low_value, number, number-reverse}
use csutil.BigNum.Digits.{
  low_value-reverse, reverse-AllDigits, length-reverse, SomeDigits, SomeDigits-AllDigits,
}
use csutil.BigNum.Digits.{nonempty-SomeDigits, SomeDigits-nonempty}
use mathlib.Core.List.{reverse}

-- One round: the character and the carry make up the sum.
round :
    (sum : ℕ)
    → sum < 20
    → IsDigit (sum_char sum)
      × (digit (sum_char sum) + 10 * sum_carry sum ≡ sum)
      × (sum_carry sum ≤ 1)
unfolding digit
round sum h = elim (dec_le 10 sum) [
  | yes over ↦ rw (le→leb 10 sum over) ((omega arith, omega arith), omega arith, omega arith)
  | no under ↦
      rw (leb-false 10 sum (omega arith)) ((omega arith, omega arith), omega arith, omega arith)
]

-- One round in front of the rounds behind it.
round_sum :
    (sum hi : ℕ) (rest : List ℕ)
    → sum < 20
    → AllDigits rest × (low_value rest ≡ hi + sum_carry sum)
    → AllDigits (sum_char sum ∷ rest) × (low_value (sum_char sum ∷ rest) ≡ sum + 10 * hi)
unfolding low_value
round_sum sum hi rest h (hs, e) = let (d, v, c) = round sum h in ((d, hs), omega (arith, v, e))

mod_small : (sum : ℕ) → sum < 20 → sum % 2 ^ 8 ≡ sum
mod_small sum h = omega arith

sum_carry≤one : (sum : ℕ) → sum < 20 → sum_carry sum ≤ 1
sum_carry≤one sum h = let (d, v, c) = round sum h in c

pub add_loop-Sums :
    (carry : ℕ) (xs ys : List ℕ)
    → carry ≤ 1
    → AllDigits xs
    → AllDigits ys
    → AllDigits (add_loop carry xs ys)
      × (low_value (add_loop carry xs ys) ≡ low_value xs + low_value ys + carry)
unfolding add_loop low_value digit
add_loop-Sums zero [] [] c hx hy = (tt, refl)
add_loop-Sums (suc zero) [] [] c hx hy = (((omega arith, omega arith), tt), refl)
add_loop-Sums (suc (suc carry)) [] [] c hx hy = absurd (omega arith)
add_loop-Sums carry (x ∷ xs) [] c (hx, hxs) hy =
    let sum = digit x + carry in
    let small : sum < 20 = omega (arith, digit<ten x hx) in
    let rest = add_loop-Sums (sum_carry sum) xs [] (sum_carry≤one sum small) hxs tt in
    let (ds, v) =
      round_sum sum (low_value xs + low_value []) (add_loop (sum_carry sum) xs []) small rest in
    rw (mod_small sum small) (ds, omega (arith, v))
add_loop-Sums carry [] (y ∷ ys) c hx (hy, hys) =
    let sum = digit y + carry in
    let small : sum < 20 = omega (arith, digit<ten y hy) in
    let rest = add_loop-Sums (sum_carry sum) [] ys (sum_carry≤one sum small) tt hys in
    let (ds, v) =
      round_sum sum (low_value [] + low_value ys) (add_loop (sum_carry sum) [] ys) small rest in
    rw (mod_small sum small) (ds, omega (arith, v))
add_loop-Sums carry (x ∷ xs) (y ∷ ys) c (hx, hxs) (hy, hys) =
    let sum = digit x + digit y + carry in
    let small : sum < 20 = omega (arith, digit<ten x hx, digit<ten y hy) in
    let rest = add_loop-Sums (sum_carry sum) xs ys (sum_carry≤one sum small) hxs hys in
    let (ds, v) =
      round_sum sum (low_value xs + low_value ys) (add_loop (sum_carry sum) xs ys) small rest in
    rw (mod_small sum small) (ds, omega (arith, v))

add_loop-nonempty : (carry : ℕ) (xs ys : List ℕ) → 0 < length xs → 0 < length (add_loop carry xs ys)
unfolding add_loop
add_loop-nonempty carry [] ys p = absurd (omega (arith, p))
add_loop-nonempty carry (x ∷ xs) [] p = omega arith
add_loop-nonempty carry (x ∷ xs) (y ∷ ys) p = omega arith

pub number-big_add_internal :
    (post_ln post_rn : List ℕ)
    → AllDigits post_ln
    → AllDigits post_rn
    → AllDigits (big_add_internal post_ln post_rn)
      × (number (big_add_internal post_ln post_rn) ≡ number post_ln + number post_rn)
unfolding big_add_internal
number-big_add_internal ln rn hl hr =
    let sum = add_loop 0 (reverse ln) (reverse rn) in
    let (ds, v) =
      add_loop-Sums 0 (reverse ln) (reverse rn) (omega arith) (reverse-AllDigits ln hl)
        (reverse-AllDigits rn hr) in
    (
      reverse-AllDigits sum ds,
      omega (arith, number-reverse sum, v, low_value-reverse ln, low_value-reverse rn),
    )

pub big_add_internal-SomeDigits :
    (post_ln post_rn : List ℕ)
    → SomeDigits post_ln
    → SomeDigits post_rn
    → SomeDigits (big_add_internal post_ln post_rn)
      × (number (big_add_internal post_ln post_rn) ≡ number post_ln + number post_rn)
unfolding big_add_internal
big_add_internal-SomeDigits ln rn hl hr =
    let (ds, v) =
      number-big_add_internal ln rn (SomeDigits-AllDigits ln hl) (SomeDigits-AllDigits rn hr) in
    let sum = add_loop 0 (reverse ln) (reverse rn) in
    let some_left : 0 < length (reverse ln) =
      omega (arith, SomeDigits-nonempty ln hl, length-reverse ln) in
    (
      nonempty-SomeDigits (reverse sum) ds (
          omega
            (arith, length-reverse sum, add_loop-nonempty 0 (reverse ln) (reverse rn) some_left)),
      v,
    )
