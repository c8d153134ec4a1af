-- ===== src/BigNum/Signed.antt =====
-- BigAdd, BigSub and BigMultiply of base/int.cc choose the operation by the signs.
use csutil.Common.{ℕ, ◌+◌, ◌*◌, ◌≡◌, refl, sym, ap, ◌∙◌, arith, ◌⊎◌, inl, inr}
use csutil.Common.{unequal, Bool, true, false, List, [], ◌∷◌, Option, none, some}
use csutil.Common.Status.{Result, ok, err, ◌>>=◌, not_all_digits}
use csutil.Common.Int.{ℤ, pos, neg_of, ◌+ℤ◌, ◌-ℤ◌, ◌*ℤ◌, difference}
use csutil.BigNum.{digit, minus, post_num}
use csutil.BigNum.{check_and_get_if_is_all_num, all_num, add_signed, sub_signed, multiply_signed}
use csutil.BigNum.{
  big_add_internal, big_sub_internal, minus_unless_zero, multiply_sign, on_numbers, big_add,
  big_sub, big_multiply,
}
use csutil.BigNum.Digits.{SomeDigits, number, value_from, IsNumber, int_of, Is, plain, signed}
use csutil.BigNum.Digits.{SomeDigits-AllDigits}
use csutil.BigNum.Add.{big_add_internal-SomeDigits}
use csutil.BigNum.Order.{Trimmed}
use csutil.BigNum.Sub.{big_sub_internal-Is}
use csutil.BigNum.Multiply.{big_multiply_internal-Multiplies}
use csutil.Common.Int.{
  neg-neg_of, pos-plus-pos, pos-plus-neg_of, neg_of-plus-pos, neg_of-plus-neg_of,
}
use csutil.Common.Int.{pos-times-pos, pos-times-neg_of, neg_of-times-pos, neg_of-times-neg_of}
use mathlib.Core.Path.{ap₂}
use native.Mathlib.Decide.{ℕ_discrete}
use csutil.BigNum.Parse.{unpadded, sign, Parsed, post_num-Parsed, check-number, check-other}

-- What an operation on signed numbers owes to the integers that they stand for.
abbrev Computes : (Bool × List ℕ → Bool × List ℕ → Result (List ℕ)) → (ℤ → ℤ → ℤ) → Type 0
Computes operation f =
    (ln rn : Bool × List ℕ) (x y : ℤ)
    → Parsed ln x
    → Parsed rn y
    → (r : List ℕ) × (operation ln rn ≡ ok r) × Is r (f x y)

-- The same for the integers as they are read.
abbrev Steps : (Bool × List ℕ → Bool × List ℕ → Result (List ℕ)) → (ℤ → ℤ → ℤ) → Type 0
Steps operation f =
    (p q : Bool) (ln rn : List ℕ)
    → SomeDigits ln
    → SomeDigits rn
    → Trimmed ln
    → Trimmed rn
    → (r : List ℕ) × (operation (p, ln) (q, rn) ≡ ok r)
      × Is r (f (sign p (number ln)) (sign q (number rn)))

Steps-Computes :
    (operation : Bool × List ℕ → Bool × List ℕ → Result (List ℕ)) (f : ℤ → ℤ → ℤ)
    → Steps operation f
    → Computes operation f
Steps-Computes operation f step (p, ln) (q, rn) x y (hl, zl, el) (hr, zr, er) =
    let (r, e, (n, v)) = step p q ln rn hl hr zl zr in (r, e, (n, v ∙ ap₂ f el er))

-- Both strings are numbers: the operation is done on what they stand for.
on_numbers-Computes :
    (operation : Bool × List ℕ → Bool × List ℕ → Result (List ℕ)) (f : ℤ → ℤ → ℤ)
    → Computes operation f
    → (ln rn : List ℕ) → IsNumber (unpadded ln)
    → IsNumber (unpadded rn)
    → (r : List ℕ) × (on_numbers operation ln rn ≡ ok r)
      × Is r (f (int_of (unpadded ln)) (int_of (unpadded rn)))
unfolding on_numbers all_num
on_numbers-Computes operation f c ln rn hl hr =
    rw (check-number ln hl, check-number rn hr)
      (c (post_num (unpadded ln)) (post_num (unpadded rn)) (int_of (unpadded ln))
        (int_of (unpadded rn)) (post_num-Parsed (unpadded ln) hl)
        (post_num-Parsed (unpadded rn) hr))

-- The sum of two strings of digits, with no sign and with a minus sign.
plain_sum :
    (ln rn : List ℕ)
    → SomeDigits ln
    → SomeDigits rn
    → Is (big_add_internal ln rn) (pos (number ln + number rn))
plain_sum ln rn hl hr =
    let (ds, v) = big_add_internal-SomeDigits ln rn hl hr in
    let (n, w) = plain (big_add_internal ln rn) ds in (n, w ∙ ap pos v)

signed_sum :
    (ln rn : List ℕ)
    → SomeDigits ln
    → SomeDigits rn
    → Is (minus ∷ big_add_internal ln rn) (neg_of (number ln + number rn))
signed_sum ln rn hl hr =
    let (ds, v) = big_add_internal-SomeDigits ln rn hl hr in
    let (n, w) = signed (big_add_internal ln rn) ds in (n, w ∙ ap neg_of v)

-- A result for one integer is one for an equal integer.
Is-to :
    {x y : ℤ} (r : Result (List ℕ))
    → x ≡ y
    → (s : List ℕ) × (r ≡ ok s) × Is s x
    → (s : List ℕ) × (r ≡ ok s) × Is s y
Is-to r e (s, o, (n, v)) = (s, o, (n, v ∙ e))

digits_difference :
    (ln rn : List ℕ)
    → SomeDigits ln
    → SomeDigits rn
    → Trimmed ln
    → Trimmed rn
    → (r : List ℕ) × (big_sub_internal ln rn ≡ ok r) × Is r (difference (number ln) (number rn))
digits_difference ln rn hl hr =
    big_sub_internal-Is ln rn (SomeDigits-AllDigits ln hl) (SomeDigits-AllDigits rn hr)

add_signed-Steps : Steps add_signed (λ x y. x +ℤ y)
unfolding add_signed
add_signed-Steps true true ln rn hl hr zl zr =
    Is-to (ok (minus ∷ big_add_internal ln rn)) (sym (neg_of-plus-neg_of (number ln) (number rn)))
      (minus ∷ big_add_internal ln rn, refl, signed_sum ln rn hl hr)
add_signed-Steps false false ln rn hl hr zl zr =
    Is-to (ok (big_add_internal ln rn)) (sym (pos-plus-pos (number ln) (number rn)))
      (big_add_internal ln rn, refl, plain_sum ln rn hl hr)
add_signed-Steps true false ln rn hl hr zl zr =
    Is-to (big_sub_internal rn ln) (sym (neg_of-plus-pos (number ln) (number rn)))
      (digits_difference rn ln hr hl zr zl)
add_signed-Steps false true ln rn hl hr zl zr =
    Is-to (big_sub_internal ln rn) (sym (pos-plus-neg_of (number ln) (number rn)))
      (digits_difference ln rn hl hr zl zr)

sub_signed-Steps : Steps sub_signed (λ x y. x -ℤ y)
unfolding sub_signed
sub_signed-Steps true true ln rn hl hr zl zr =
    Is-to (big_sub_internal rn ln)
      (sym (rw (neg-neg_of (number rn)) (neg_of-plus-pos (number ln) (number rn))))
      (digits_difference rn ln hr hl zr zl)
sub_signed-Steps false false ln rn hl hr zl zr =
    Is-to (big_sub_internal ln rn) (sym (pos-plus-neg_of (number ln) (number rn)))
      (digits_difference ln rn hl hr zl zr)
sub_signed-Steps true false ln rn hl hr zl zr =
    Is-to (ok (minus ∷ big_add_internal ln rn)) (sym (neg_of-plus-neg_of (number ln) (number rn)))
      (minus ∷ big_add_internal ln rn, refl, signed_sum ln rn hl hr)
sub_signed-Steps false true ln rn hl hr zl zr =
    Is-to (ok (big_add_internal ln rn))
      (sym (rw (neg-neg_of (number rn)) (pos-plus-pos (number ln) (number rn))))
      (big_add_internal ln rn, refl, plain_sum ln rn hl hr)

-- Only zero gets no minus sign.
minus_unless_zero-Is :
    (cs : List ℕ) → SomeDigits cs → Is (minus_unless_zero cs) (neg_of (number cs))
unfolding minus_unless_zero number value_from digit
minus_unless_zero-Is [] h = absurd h
minus_unless_zero-Is (c ∷ []) h = elim (ℕ_discrete c 48) [
  | yes zeros ↦ rw zeros (plain (48 ∷ []) ((omega arith, omega arith), tt))
  | no other ↦ rw (unequal c 48 other) (signed (c ∷ []) h)
]
minus_unless_zero-Is (c ∷ d ∷ cs) h = signed (c ∷ d ∷ cs) h

multiply_sign-Is :
    (p q : Bool) (cs : List ℕ) (m n : ℕ)
    → SomeDigits cs
    → number cs ≡ m * n
    → Is (multiply_sign p q cs) (sign p m *ℤ sign q n)
unfolding multiply_sign
multiply_sign-Is true true cs m n h e =
    let (k, v) = plain cs h in (k, v ∙ ap pos e ∙ sym (neg_of-times-neg_of m n))
multiply_sign-Is false false cs m n h e =
    let (k, v) = plain cs h in (k, v ∙ ap pos e ∙ sym (pos-times-pos m n))
multiply_sign-Is true false cs m n h e =
    let (k, v) = minus_unless_zero-Is cs h in (k, v ∙ ap neg_of e ∙ sym (neg_of-times-pos m n))
multiply_sign-Is false true cs m n h e =
    let (k, v) = minus_unless_zero-Is cs h in (k, v ∙ ap neg_of e ∙ sym (pos-times-neg_of m n))

multiply_signed-Steps : Steps multiply_signed (λ x y. x *ℤ y)
unfolding multiply_signed
multiply_signed-Steps p q ln rn hl hr zl zr =
    let (r, e, ds, v) = big_multiply_internal-Multiplies ln rn hl hr in
    (multiply_sign p q r, rw e refl, multiply_sign-Is p q r (number ln) (number rn) ds v)

-- BigAdd of two strings that are numbers, with blanks and plus signs at their ends or without,
-- succeeds with a number: the sum of the two integers.
pub big_add-Is :
    (ln rn : List ℕ)
    → IsNumber (unpadded ln)
    → IsNumber (unpadded rn)
    → (r : List ℕ) × (big_add ln rn ≡ ok r) × Is r (int_of (unpadded ln) +ℤ int_of (unpadded rn))
unfolding big_add
big_add-Is =
    on_numbers-Computes add_signed (λ x y. x +ℤ y)
      (Steps-Computes add_signed (λ x y. x +ℤ y) add_signed-Steps)

-- BigSub of two strings that are numbers, with blanks and plus signs at their ends or without,
-- succeeds with a number: the difference of the two integers.
pub big_sub-Is :
    (ln rn : List ℕ)
    → IsNumber (unpadded ln)
    → IsNumber (unpadded rn)
    → (r : List ℕ) × (big_sub ln rn ≡ ok r) × Is r (int_of (unpadded ln) -ℤ int_of (unpadded rn))
unfolding big_sub
big_sub-Is =
    on_numbers-Computes sub_signed (λ x y. x -ℤ y)
      (Steps-Computes sub_signed (λ x y. x -ℤ y) sub_signed-Steps)

-- BigMultiply of two strings that are numbers, with blanks and plus signs at their ends or
-- without, succeeds with a number: the product of the two integers.
pub big_multiply-Is :
    (ln rn : List ℕ)
    → IsNumber (unpadded ln)
    → IsNumber (unpadded rn)
    → (r : List ℕ) × (big_multiply ln rn ≡ ok r)
      × Is r (int_of (unpadded ln) *ℤ int_of (unpadded rn))
unfolding big_multiply
big_multiply-Is =
    on_numbers-Computes multiply_signed (λ x y. x *ℤ y)
      (Steps-Computes multiply_signed (λ x y. x *ℤ y) multiply_signed-Steps)

-- Where one of the strings is not a number, none of the operations is done.
on_numbers-not_all_digits :
    (operation : Bool × List ℕ → Bool × List ℕ → Result (List ℕ)) (ln rn : List ℕ)
    → (¬ IsNumber (unpadded ln)) ⊎ (¬ IsNumber (unpadded rn))
    → on_numbers operation ln rn ≡ err not_all_digits
unfolding on_numbers all_num
on_numbers-not_all_digits operation ln rn (inl h) = rw (check-other ln h) refl
on_numbers-not_all_digits operation ln rn (inr h) =
    rw (check-other rn h) (either (check_and_get_if_is_all_num ln))
  where
    either :
        (o : Option (Bool × List ℕ))
        → (all_num o >>= λ l. all_num none >>= λ r. operation l r) ≡ err not_all_digits
    either none = refl
    either (some num) = refl

-- BigAdd, BigSub and BigMultiply return kNotAllDigits where one of the two strings is not a
-- number with blanks and plus signs at its ends or without.
pub big_operations-not_all_digits :
    (ln rn : List ℕ)
    → (¬ IsNumber (unpadded ln)) ⊎ (¬ IsNumber (unpadded rn))
    → (big_add ln rn ≡ err not_all_digits)
      × (big_sub ln rn ≡ err not_all_digits)
      × (big_multiply ln rn ≡ err not_all_digits)
unfolding big_add big_sub big_multiply
big_operations-not_all_digits ln rn h = (
  on_numbers-not_all_digits add_signed ln rn h,
  on_numbers-not_all_digits sub_signed ln rn h,
  on_numbers-not_all_digits multiply_signed ln rn h,
)
