-- ===== src/BigNum/Tests.antt =====
-- BigNum on concrete strings.
use csutil.Common.{ℕ, ◌≡◌, refl, List, [], ◌∷◌, inl, inr, arith}
use csutil.Common.Status.{ok, err, not_all_digits}
use csutil.Common.Int.{pos, negsuc, ◌+ℤ◌, ◌*ℤ◌, difference}
use csutil.BigNum.{
  big_add, big_sub, big_multiply, gcd, lcm, on_numbers, all_num, check_and_get_if_is_all_num,
}
use csutil.BigNum.{
  if_has_num, check_num, check_rest, post_num, or_zero, add_signed, big_add_internal, add_loop,
}
use csutil.BigNum.{digit, gcd_loop}
use csutil.Trim.{trim, trim_right, trim_left, is_delim}
use csutil.BigNum.Digits.{IsNumber, Is, int_of, number, value_from}
use csutil.BigNum.Parse.{unpadded}
use csutil.BigNum.Signed.{big_add-Is, big_sub-Is, big_multiply-Is, big_operations-not_all_digits}
use csutil.BigNum.Divisors.{IsGcd, IsLcm, gcd-IsGcd, lcm-IsLcm}

-- " +0995\n"
abbrev padded : List ℕ
padded = b' ' ∷ b'+' ∷ b'0' ∷ b'9' ∷ b'9' ∷ b'5' ∷ 10 ∷ []

-- "-17"
abbrev below_zero : List ℕ
below_zero = b'-' ∷ b'1' ∷ b'7' ∷ []

-- "1-2"
abbrev no_number : List ℕ
no_number = b'1' ∷ b'-' ∷ b'2' ∷ []

padded-IsNumber : IsNumber (unpadded padded)
unfolding trim trim_right trim_left is_delim
padded-IsNumber = inr (
  (omega arith, omega arith),
  ((omega arith, omega arith), ((omega arith, omega arith), ((omega arith, omega arith), tt))),
)

below_zero-IsNumber : IsNumber (unpadded below_zero)
unfolding trim trim_right trim_left is_delim
below_zero-IsNumber = inl (refl, ((omega arith, omega arith), ((omega arith, omega arith), tt)))

no_number_lem : ¬ IsNumber (unpadded no_number)
unfolding trim trim_right trim_left is_delim
no_number_lem (inl (m, ds)) = absurd (omega (arith, m))
no_number_lem (inr (d, ((e, h), ds))) = absurd (omega (arith, e))

big_add-Is_example : (r : List ℕ) × (big_add padded below_zero ≡ ok r) × Is r (pos 978)
unfolding trim trim_right trim_left is_delim int_of number value_from digit ◌+ℤ◌ difference
big_add-Is_example = big_add-Is padded below_zero padded-IsNumber below_zero-IsNumber

big_sub-Is_example : (r : List ℕ) × (big_sub below_zero padded ≡ ok r) × Is r (negsuc 1011)
unfolding trim trim_right trim_left is_delim int_of number value_from digit ◌+ℤ◌ difference
big_sub-Is_example = big_sub-Is below_zero padded below_zero-IsNumber padded-IsNumber

big_multiply-Is_example :
    (r : List ℕ) × (big_multiply below_zero padded ≡ ok r) × Is r (negsuc 16914)
unfolding trim trim_right trim_left is_delim int_of number value_from digit ◌*ℤ◌
big_multiply-Is_example = big_multiply-Is below_zero padded below_zero-IsNumber padded-IsNumber

big_operations-not_all_digits_example :
    (big_add no_number padded ≡ err not_all_digits)
    × (big_sub no_number padded ≡ err not_all_digits)
    × (big_multiply no_number padded ≡ err not_all_digits)
big_operations-not_all_digits_example =
    big_operations-not_all_digits no_number padded (inl no_number_lem)

gcd-IsGcd_example : (g : ℕ) × (gcd 84 36 ≡ ok g) × IsGcd g 84 36
gcd-IsGcd_example = gcd-IsGcd 84 36 (omega arith) (omega arith)

lcm-IsLcm_example : (m : ℕ) × (lcm 84 36 ≡ ok m) × IsLcm m 84 36
lcm-IsLcm_example = lcm-IsLcm 84 36 (omega arith) (omega arith) (omega arith)

divisor_of_zero : gcd 0 6 ≡ ok 1
unfolding gcd
divisor_of_zero = refl

-- A product of 2 ^ 32 wraps to 0.
multiple_wraps : lcm 65536 65536 ≡ ok 0
unfolding lcm gcd gcd_loop
multiple_wraps = refl

-- "-0" + "-0" is "-0".
minus_zero : big_add (b'-' ∷ b'0' ∷ []) (b'-' ∷ b'0' ∷ []) ≡ ok (b'-' ∷ b'0' ∷ [])
unfolding big_add on_numbers all_num check_and_get_if_is_all_num if_has_num check_num check_rest
    trim trim_right trim_left is_delim post_num or_zero add_signed big_add_internal add_loop digit
minus_zero = refl
