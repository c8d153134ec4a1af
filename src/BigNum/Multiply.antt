-- ===== src/BigNum/Multiply.antt =====
-- BigMultiplyInternal of base/int.cc multiplies.
use csutil.Common.{ℕ, zero, suc, ◌+◌, ◌*◌, ◌/◌, ◌%◌, ◌^◌, ◌<◌, ◌≤◌, ◌≡◌, refl, ap, ◌∙◌, arith}
use csutil.Common.{lt→ltb, ◌==◌, List, [], ◌∷◌, ◌++◌, replicate, All, length}
use csutil.Common.Status.{ok}
use csutil.Trim.{trim_left}
use csutil.BigNum.{digit, k_zero, big_add_internal, multiply_row, multiply_rows, sum_rows, or_zero}
use csutil.BigNum.{sum_all_rows, big_multiply_internal}
use csutil.BigNum.Digits.{
  AllDigits, SomeDigits, digit<ten, digit-char, low_value, number, value_from, number-reverse,
}
use csutil.BigNum.Digits.{
  low_value-reverse, reverse-AllDigits, number-trim_left, trim_left-AllDigits, length-reverse,
}
use csutil.BigNum.Add.{number-big_add_internal}
use native.Mathlib.Nat.{mul-add, mul_left_comm, mul-le-mul, pow-suc}
use mathlib.Core.List.{reverse}

digits_product : (d e : ℕ) → d < 10 → e < 10 → d * e ≤ 81
digits_product d e h k =
    omega
      (arith, mul-le-mul {n₁ = d} {m₁ = e} {n₂ = 9} {m₂ = 9} (omega (arith, h)) (omega (arith, k)))

multiply_row-Multiplies :
    (d carry : ℕ) (ys : List ℕ)
    → d < 10
    → carry < 10
    → AllDigits ys
    → AllDigits (multiply_row d carry ys)
      × (low_value (multiply_row d carry ys) ≡ d * low_value ys + carry)
unfolding multiply_row low_value
multiply_row-Multiplies d zero [] h c hy = (tt, omega arith)
multiply_row-Multiplies d (suc carry) [] h c hy =
    rw (lt→ltb 0 (suc carry) (omega arith))
      (((omega (arith, c), omega (arith, c)), tt), omega (arith, digit-char (suc carry) c))
multiply_row-Multiplies d carry (y ∷ ys) h c (hy, hys) =
    let sum = d * digit y + carry in
    let small : sum < 100 = omega (arith, c, digits_product d (digit y) h (digit<ten y hy)) in
    let same : sum % 2 ^ 8 ≡ sum = omega (arith, small) in
    let (ds, v) = multiply_row-Multiplies d (sum / 10) ys h (omega (arith, small)) hys in
    rw same (
      ((omega arith, omega arith), ds),
      omega (
        arith,
        v,
        digit-char (sum % 10) (omega arith),
        mul-add d (digit y) (10 * low_value ys),
        mul_left_comm d 10 (low_value ys),
      ),
    )

ten_times : (i n : ℕ) → 10 ^ suc i * n ≡ 10 * (10 ^ i * n)
ten_times i n = ap (λ p. p * n) (pow-suc 10 i) ∙ tens (10 ^ i) n
  where
    tens : (w n : ℕ) → w * 10 * n ≡ 10 * (w * n)
    tens w n = grind arith

rows_product : (w d x y : ℕ) → w * (d * y + 0) + 10 * (w * (x * y)) ≡ w * ((d + 10 * x) * y)
rows_product w d x y = grind arith

zeros_in_front :
    (i : ℕ) (r : List ℕ)
    → AllDigits r
    → AllDigits (replicate i k_zero ++ r)
      × (low_value (replicate i k_zero ++ r) ≡ 10 ^ i * low_value r)
unfolding low_value digit
zeros_in_front zero r h = (h, omega arith)
zeros_in_front (suc i) r h =
    let (ds, v) = zeros_in_front i r h in
    (((omega arith, omega arith), ds), omega (arith, v, ten_times i (low_value r)))

-- The sum of the rows.
total : List (List ℕ) → ℕ
total [] = 0
total (row ∷ rows) = number row + total rows

multiply_rows-Total :
    (i : ℕ) (xs ys : List ℕ)
    → AllDigits xs
    → AllDigits ys
    → All AllDigits (multiply_rows i xs ys)
      × (total (multiply_rows i xs ys) ≡ 10 ^ i * (low_value xs * low_value ys))
unfolding multiply_rows low_value total
multiply_rows-Total i [] ys hx hy = (tt, omega arith)
multiply_rows-Total i (x ∷ xs) ys (hx, hxs) hy =
    let (ds, v) = multiply_row-Multiplies (digit x) 0 ys (digit<ten x hx) (omega arith) hy in
    let row = replicate i k_zero ++ multiply_row (digit x) 0 ys in
    let (es, w) = zeros_in_front i (multiply_row (digit x) 0 ys) ds in
    let (fs, u) = multiply_rows-Total (suc i) xs ys hxs hy in
    (
      (reverse-AllDigits row es, fs),
      omega (
        arith,
        number-reverse row,
        w,
        u,
        ap (λ n. 10 ^ i * n) v,
        ten_times i (low_value xs * low_value ys),
        rows_product (10 ^ i) (digit x) (low_value xs) (low_value ys),
      ),
    )

sum_rows-Total :
    (tmp_sum : List ℕ) (rows : List (List ℕ))
    → AllDigits tmp_sum
    → All AllDigits rows
    → AllDigits (sum_rows tmp_sum rows)
      × (number (sum_rows tmp_sum rows) ≡ number tmp_sum + total rows)
unfolding sum_rows total
sum_rows-Total tmp_sum [] h hs = (h, omega arith)
sum_rows-Total tmp_sum (row ∷ rows) h (k, hs) =
    let (ds, v) = number-big_add_internal tmp_sum row h k in
    let (es, w) = sum_rows-Total (big_add_internal tmp_sum row) rows ds hs in
    (es, omega (arith, v, w))

pub or_zero_lem :
    (cs : List ℕ) → AllDigits cs → SomeDigits (or_zero cs) × (number (or_zero cs) ≡ number cs)
unfolding or_zero number value_from digit
or_zero_lem [] h = (((omega arith, omega arith), tt), refl)
or_zero_lem (c ∷ cs) h = (h, refl)

sum_all_rows_lem :
    (rows : List (List ℕ)) (n : ℕ)
    → All AllDigits rows
    → total rows ≡ n
    → 0 < length rows
    → (r : List ℕ) × (sum_all_rows rows ≡ ok r) × SomeDigits r × (number r ≡ n)
unfolding sum_all_rows total
sum_all_rows_lem [] n hs e p = absurd (omega (arith, p))
sum_all_rows_lem (row ∷ rows) n (h, hs) e p =
    let sum = sum_rows row rows in
    let (ds, v) = sum_rows-Total row rows h hs in
    let (es, w) = or_zero_lem (trim_left (λ c. c == k_zero) sum) (trim_left-AllDigits sum ds) in
    (or_zero (trim_left (λ c. c == k_zero) sum), refl, es, w ∙ number-trim_left sum ∙ v ∙ e)

length-multiply_rows : (i : ℕ) (xs ys : List ℕ) → length (multiply_rows i xs ys) ≡ length xs
unfolding multiply_rows
length-multiply_rows i [] ys = refl
length-multiply_rows i (x ∷ xs) ys = ap suc (length-multiply_rows (suc i) xs ys)

pub big_multiply_internal-Multiplies :
    (ln rn : List ℕ)
    → SomeDigits ln
    → SomeDigits rn
    → (r : List ℕ) × (big_multiply_internal ln rn ≡ ok r)
      × SomeDigits r
      × (number r ≡ number ln * number rn)
unfolding big_multiply_internal
big_multiply_internal-Multiplies [] rn hl hr = absurd hl
big_multiply_internal-Multiplies (x ∷ xs) [] hl hr = absurd hr
big_multiply_internal-Multiplies (x ∷ xs) (y ∷ ys) hl hr =
    let ln = reverse (x ∷ xs) in
    let rn = reverse (y ∷ ys) in
    let rows = multiply_rows 0 ln rn in
    let (ds, v) =
      multiply_rows-Total 0 ln rn (reverse-AllDigits (x ∷ xs) hl) (reverse-AllDigits (y ∷ ys) hr) in
    let w : total rows ≡ number (x ∷ xs) * number (y ∷ ys) =
      v ∙ rw (low_value-reverse (x ∷ xs), low_value-reverse (y ∷ ys)) (omega arith) in
    sum_all_rows_lem rows (number (x ∷ xs) * number (y ∷ ys)) ds w
      (omega (arith, length-multiply_rows 0 ln rn, length-reverse (x ∷ xs)))
