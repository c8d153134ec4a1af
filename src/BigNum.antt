-- ===== src/BigNum.antt =====
-- base/int.cc: BigAdd, BigSub and BigMultiply on decimal strings, and GCD and LCM; with
-- CheckAndGetIfIsAllNum and GetBigAndLitteNum of base/util.cc. The source indexes the digits of a
-- string s by s.size() - 1 - i: its loops go over the reversed string here.
pub mod Digits
pub mod Add
pub mod Order
pub mod Sub
pub mod Multiply
pub mod Parse
pub mod Signed
pub mod Divisors
mod Tests
use csutil.Common.{
  ℕ, zero, suc, ◌+◌, ◌-◌, ◌*◌, ◌/◌, ◌%◌, ◌^◌, ltb, leb, ◌==◌, ◌||◌, ◌&&◌, not, if◌then◌else◌,
}
use csutil.Common.{Bool, true, false, List, [], ◌∷◌, ◌++◌, length, replicate, Option, none, some}
use csutil.Common.Status.{
  Result, ok, err, undefined, ◌>>=◌, ◌>>◌, not_all_digits, sub_error, invalid_param,
}
use csutil.Search.{Sign, negative, zero_sign, positive}
use csutil.Trim.{trim_left, trim_right, trim, is_delim}
use mathlib.Core.List.{reverse}

abbrev pub k_zero : ℕ
k_zero = b'0'

abbrev pub minus : ℕ
minus = b'-'

-- `ch - '0'` xs a uint8_t.
pub digit : ℕ → ℕ
digit c = (c + (2 ^ 8 - 48)) % 2 ^ 8

-- What one round appends, and the carry that it leaves.
abbrev pub sum_char : ℕ → ℕ
sum_char sum = if leb 10 sum then sum - 10 + 48 else sum + 48

abbrev pub sum_carry : ℕ → ℕ
sum_carry sum = if leb 10 sum then 1 else 0

-- The three loops of BigAddIntelnal and the last carry.
pub add_loop : ℕ → List ℕ → List ℕ → List ℕ
add_loop carry [] [] = if leb 1 carry then (carry + 48) ∷ [] else []
add_loop carry (x ∷ xs) [] =
    let sum = (digit x + carry) % 2 ^ 8 in sum_char sum ∷ add_loop (sum_carry sum) xs []
add_loop carry [] (y ∷ ys) =
    let sum = (digit y + carry) % 2 ^ 8 in sum_char sum ∷ add_loop (sum_carry sum) [] ys
add_loop carry (x ∷ xs) (y ∷ ys) =
    let sum = (digit x + digit y + carry) % 2 ^ 8 in sum_char sum ∷ add_loop (sum_carry sum) xs ys

pub big_add_internal : List ℕ → List ℕ → List ℕ
big_add_internal post_ln post_rn = reverse (add_loop 0 (reverse post_ln) (reverse post_rn))

-- GetBigAndLitteNum: the first characters that differ, as signed chars, of strings of one length.
pub first_differing : List ℕ → List ℕ → Sign
first_differing [] ys = zero_sign
first_differing (x ∷ xs) [] = zero_sign
first_differing (x ∷ xs) (y ∷ ys) =
    let rest = first_differing xs ys in
    let left = (x + 2 ^ 7) % 2 ^ 8 in
    let right = (y + 2 ^ 7) % 2 ^ 8 in
    if ltb right left then positive else if ltb left right then negative else rest

pub big_and_litte : Sign → List ℕ → List ℕ → Sign × List ℕ × List ℕ
big_and_litte positive post_ln post_rn = (positive, post_ln, post_rn)
big_and_litte negative post_ln post_rn = (negative, post_rn, post_ln)
big_and_litte zero_sign post_ln post_rn = (zero_sign, [], [])

-- The sign, the big number and the small one; no numbers where they are equal.
pub get_big_and_litte_num : List ℕ → List ℕ → Sign × List ℕ × List ℕ
get_big_and_litte_num post_ln post_rn =
    let ln_len = length post_ln in
    let rn_len = length post_rn in
    let sub_flags =
      if ltb rn_len ln_len
      then positive
      else if ltb ln_len rn_len
      then negative
      else first_differing post_ln post_rn in
    big_and_litte sub_flags post_ln post_rn

-- `difference` of a digit and what is taken off it, and the borrow that it leaves, as 0 or 1. Both
-- are those of digits: the strings hold nothing else.
abbrev pub difference_char : ℕ → ℕ → ℕ
difference_char d off = if ltb d off then d + 10 - off + 48 else d - off + 48

abbrev pub difference_borrow : ℕ → ℕ → ℕ
difference_borrow d off = if ltb d off then 1 else 0

-- The two loops of BigSubIntelnal and its test of the last borrow. The index of the bigger number
-- wraps where it is the shorter one.
pub sub_loop : ℕ → List ℕ → List ℕ → Result (List ℕ)
sub_loop borrow [] [] = if borrow == 0 then ok [] else err sub_error
sub_loop borrow [] (y ∷ ys) = undefined
sub_loop borrow (x ∷ xs) [] = sub_loop (difference_borrow (digit x) borrow) xs [] >>= λ rest.
    ok (difference_char (digit x) borrow ∷ rest)
sub_loop borrow (x ∷ xs) (y ∷ ys) =
    let off = digit y + borrow in
    sub_loop (difference_borrow (digit x) off) xs ys >>= λ rest.
    ok (difference_char (digit x) off ∷ rest)

-- The minus sign behind the digits, which Reverse turns round.
pub append_sign : Sign → List ℕ → List ℕ
append_sign negative cs = cs ++ minus ∷ []
append_sign zero_sign cs = cs
append_sign positive cs = cs

pub sub_ordered : Sign × List ℕ × List ℕ → Result (List ℕ)
sub_ordered (zero_sign, post_big, post_litte) = ok (k_zero ∷ [])
sub_ordered (negative, post_big, post_litte) =
    sub_loop 0 (reverse post_big) (reverse post_litte) >>= λ tmp.
    ok (reverse (append_sign negative (trim_right (λ c. c == k_zero) tmp)))
sub_ordered (positive, post_big, post_litte) =
    sub_loop 0 (reverse post_big) (reverse post_litte) >>= λ tmp.
    ok (reverse (append_sign positive (trim_right (λ c. c == k_zero) tmp)))

pub big_sub_internal : List ℕ → List ℕ → Result (List ℕ)
big_sub_internal post_ln post_rn = sub_ordered (get_big_and_litte_num post_ln post_rn)

-- One digit of the left number times the digits of the right one, with the last carry.
pub multiply_row : ℕ → ℕ → List ℕ → List ℕ
multiply_row d carry [] = if ltb 0 carry then (carry + 48) ∷ [] else []
multiply_row d carry (y ∷ ys) =
    let sum = (d * digit y + carry) % 2 ^ 8 in (sum % 10 + 48) ∷ multiply_row d (sum / 10) ys

-- The rows of the digits from the i-th on, each behind i zeros, and turned round.
pub multiply_rows : ℕ → List ℕ → List ℕ → List (List ℕ)
multiply_rows i [] ys = []
multiply_rows i (x ∷ xs) ys =
    reverse (replicate i k_zero ++ multiply_row (digit x) 0 ys) ∷ multiply_rows (suc i) xs ys

pub sum_rows : List ℕ → List (List ℕ) → List ℕ
sum_rows tmp_sum [] = tmp_sum
sum_rows tmp_sum (row ∷ rows) = sum_rows (big_add_internal tmp_sum row) rows

-- `if (result->empty()) result->assign(1, kZero)`
pub or_zero : List ℕ → List ℕ
or_zero [] = k_zero ∷ []
or_zero (c ∷ cs) = c ∷ cs

pub sum_all_rows : List (List ℕ) → Result (List ℕ)
sum_all_rows [] = err invalid_param
sum_all_rows (row ∷ rows) = ok (or_zero (trim_left (λ c. c == k_zero) (sum_rows row rows)))

pub big_multiply_internal : List ℕ → List ℕ → Result (List ℕ)
big_multiply_internal [] post_rn = err invalid_param
big_multiply_internal (x ∷ xs) [] = err invalid_param
big_multiply_internal (x ∷ xs) (y ∷ ys) =
    sum_all_rows (multiply_rows 0 (reverse (x ∷ xs)) (reverse (y ∷ ys)))

-- The characters that CheckAndGetIfIsAllNum trims off.
abbrev pub delims : List ℕ
delims = 32 ∷ 43 ∷ 9 ∷ 13 ∷ 10 ∷ []

-- Its loop from the second character on: none where it returns early, and otherwise has_num.
pub check_rest : Bool → List ℕ → Option Bool
check_rest has_num [] = some has_num
check_rest has_num (c ∷ cs) =
    let rest = check_rest true cs in if leb c 57 && leb 48 c then rest else none

pub check_num : List ℕ → Option Bool
check_num [] = some false
check_num (c ∷ cs) =
    if leb c 57 && leb 48 c
    then check_rest true cs
    else if c == minus
    then check_rest false cs
    else none

-- is_negative and post_num of a string that has digits.
pub post_num : List ℕ → Bool × List ℕ
post_num [] = (false, or_zero [])
post_num (c ∷ cs) =
    if c == minus
    then (true, or_zero (trim_left (λ z. z == k_zero) cs))
    else (false, or_zero (trim_left (λ z. z == k_zero) (c ∷ cs)))

-- `if (has_num)`, behind the loop.
pub if_has_num : Option Bool → Bool × List ℕ → Option (Bool × List ℕ)
if_has_num none num = none
if_has_num (some false) num = none
if_has_num (some true) num = some num

-- none: is_all_num is false.
pub check_and_get_if_is_all_num : List ℕ → Option (Bool × List ℕ)
check_and_get_if_is_all_num num =
    let tmp_num = trim (is_delim delims) num in if_has_num (check_num tmp_num) (post_num tmp_num)

-- `if (!is_ln_num) return kNotAllDigits`
pub all_num : Option (Bool × List ℕ) → Result (Bool × List ℕ)
all_num none = err not_all_digits
all_num (some num) = ok num

pub add_signed : Bool × List ℕ → Bool × List ℕ → Result (List ℕ)
add_signed (true, ln) (true, rn) = ok (minus ∷ big_add_internal ln rn)
add_signed (false, ln) (false, rn) = ok (big_add_internal ln rn)
add_signed (true, ln) (false, rn) = big_sub_internal rn ln
add_signed (false, ln) (true, rn) = big_sub_internal ln rn

pub sub_signed : Bool × List ℕ → Bool × List ℕ → Result (List ℕ)
sub_signed (true, ln) (true, rn) = big_sub_internal rn ln
sub_signed (false, ln) (false, rn) = big_sub_internal ln rn
sub_signed (true, ln) (false, rn) = ok (minus ∷ big_add_internal ln rn)
sub_signed (false, ln) (true, rn) = ok (big_add_internal ln rn)

-- `if (*result != "0") *result = "-" + *result`
pub minus_unless_zero : List ℕ → List ℕ
minus_unless_zero [] = minus ∷ []
minus_unless_zero (c ∷ []) = if c == k_zero then c ∷ [] else minus ∷ c ∷ []
minus_unless_zero (c ∷ d ∷ cs) = minus ∷ c ∷ d ∷ cs

pub multiply_sign : Bool → Bool → List ℕ → List ℕ
multiply_sign true true result = result
multiply_sign false false result = result
multiply_sign true false result = minus_unless_zero result
multiply_sign false true result = minus_unless_zero result

pub multiply_signed : Bool × List ℕ → Bool × List ℕ → Result (List ℕ)
multiply_signed (p, ln) (q, rn) = big_multiply_internal ln rn >>= λ r. ok (multiply_sign p q r)

-- What BigAdd, BigSub and BigMultiply do before they look at the signs.
pub on_numbers :
    (Bool × List ℕ → Bool × List ℕ → Result (List ℕ)) → List ℕ → List ℕ → Result (List ℕ)
on_numbers operation ln rn = all_num (check_and_get_if_is_all_num ln) >>= λ l.
    all_num (check_and_get_if_is_all_num rn) >>= λ r. operation l r

pub big_add : List ℕ → List ℕ → Result (List ℕ)
big_add ln rn = on_numbers add_signed ln rn

pub big_sub : List ℕ → List ℕ → Result (List ℕ)
big_sub ln rn = on_numbers sub_signed ln rn

pub big_multiply : List ℕ → List ℕ → Result (List ℕ)
big_multiply ln rn = on_numbers multiply_signed ln rn

-- The loop of GCD, with the rounds that are left.
pub gcd_loop : ℕ → ℕ → ℕ → Result ℕ
gcd_loop zero tmp_first tmp_second = undefined
gcd_loop (suc rounds) tmp_first tmp_second =
    let divisor = tmp_first % tmp_second in
    let rest = gcd_loop rounds tmp_second divisor in if divisor == 0 then ok tmp_second else rest

-- A round makes the second number smaller.
pub gcd : ℕ → ℕ → Result ℕ
gcd first second =
    let result = gcd_loop second first second in
    if first == 0 || second == 0 || first == 1 || second == 1 then ok 1 else result

-- The product wraps as a uint32_t.
pub lcm : ℕ → ℕ → Result ℕ
lcm first second =
    let result = gcd first second >>= λ divisor. ok (first * second % 2 ^ 32 / divisor) in
    if first == 0 || second == 0 then ok 0 else result
