-- ===== src/BigNum/Sub.antt =====
-- BigSubIntelnal of base/int.cc subtracts.
use csutil.Common.{ℕ, ◌+◌, ◌-◌, ◌*◌, ◌<◌, ◌≤◌, ◌≡◌, refl, sym, ap, ◌∙◌, arith}
use csutil.Common.{lt→ltb, ltb-false, ◌==◌, List, [], ◌∷◌, length}
use csutil.Common.Status.{Result, ok, ◌>>=◌}
use csutil.Common.Int.{pos, neg_of, difference, difference_self, difference_over, difference_under}
use csutil.Search.{Sign, negative, zero_sign, positive}
use csutil.Trim.{trim_left, trim_right}
use csutil.BigNum.{digit, k_zero, minus, difference_char, difference_borrow, sub_loop, append_sign}
use csutil.BigNum.{big_and_litte, sub_ordered, big_sub_internal}
use csutil.BigNum.Digits.{
  IsDigit, AllDigits, digit<ten, low_value, value_from, number, number-reverse,
}
use csutil.BigNum.Digits.{
  low_value-reverse, reverse-AllDigits, length-reverse, SomeDigits, Is, plain, signed, some_digits,
}
use csutil.BigNum.Digits.{number-trim_left, trim_left-AllDigits}
use csutil.BigNum.Order.{Orders, Trimmed, longer_lem, get_big_and_litte_num_lem}
use native.Mathlib.Decide.{dec_lt}
use mathlib.Core.List.{reverse, reverse-reverse, reverse-append}

-- One round: what is left and what is taken off make up the digit and what is borrowed.
sub_round :
    (d off : ℕ)
    → d < 10
    → off ≤ 10
    → IsDigit (difference_char d off)
      × (digit (difference_char d off) + off ≡ d + 10 * difference_borrow d off)
      × (difference_borrow d off ≤ 1)
unfolding digit
sub_round d off h k = elim (dec_lt d off) [
  | yes under ↦ rw (lt→ltb d off under) ((omega arith, omega arith), omega arith, omega arith)
  | no over ↦
      rw (ltb-false d off (omega arith)) ((omega arith, omega arith), omega arith, omega arith)
]

-- What the loop returns where nothing is borrowed at last.
abbrev Differs : Result (List ℕ) → ℕ → ℕ → Type 0
Differs r off from = (ds : List ℕ) × (r ≡ ok ds) × AllDigits ds × (low_value ds + off ≡ from)

-- One round in front of the rounds behind it.
round_difference :
    (d off : ℕ) (r : Result (List ℕ)) (hi low : ℕ)
    → d < 10
    → off ≤ 10
    → Differs r (low + difference_borrow d off) hi
    → Differs (r >>= λ rest. ok (difference_char d off ∷ rest)) (off + 10 * low) (d + 10 * hi)
unfolding low_value
round_difference d off r hi low h k (ds, e, hs, v) =
    let (c, w, b) = sub_round d off h k in
    (difference_char d off ∷ ds, rw e refl, (c, hs), omega (arith, v, w))

-- What the rounds behind it take off is not too much.
round_rest :
    (d off hi low : ℕ)
    → d < 10
    → off ≤ 10
    → off + 10 * low ≤ d + 10 * hi
    → low + difference_borrow d off ≤ hi
round_rest d off hi low h k e =
    let (c, w, b) = sub_round d off h k in omega (arith, e, w, digit<ten (difference_char d off) c)

one_borrowed : (d off : ℕ) → d < 10 → off ≤ 10 → difference_borrow d off ≤ 1
one_borrowed d off h k = let (c, w, b) = sub_round d off h k in b

pub sub_loop-Differs :
    (borrow : ℕ) (xs ys : List ℕ)
    → borrow ≤ 1
    → AllDigits xs
    → AllDigits ys
    → length ys ≤ length xs
    → low_value ys + borrow ≤ low_value xs
    → Differs (sub_loop borrow xs ys) (low_value ys + borrow) (low_value xs)
unfolding sub_loop low_value
sub_loop-Differs borrow [] [] c hx hy e h =
    let none_left : borrow ≡ 0 = omega (arith, h) in rw none_left ([], refl, tt, refl)
sub_loop-Differs borrow [] (y ∷ ys) c hx hy e h = absurd (omega (arith, e))
sub_loop-Differs borrow (x ∷ xs) [] c (hx, hxs) hy e h =
    let d = digit<ten x hx in
    let off : borrow ≤ 10 = omega (arith, c) in
    let enough : borrow + 10 * 0 ≤ digit x + 10 * low_value xs = omega (arith, h) in
    let rest =
      sub_loop-Differs (difference_borrow (digit x) borrow) xs []
        (one_borrowed (digit x) borrow d off) hxs tt (omega arith)
        (round_rest (digit x) borrow (low_value xs) 0 d off enough) in
    let (ds, r, hs, v) =
      round_difference (digit x) borrow (sub_loop (difference_borrow (digit x) borrow) xs [])
        (low_value xs) 0 d off rest in
    (ds, r, hs, omega (arith, v))
sub_loop-Differs borrow (x ∷ xs) (y ∷ ys) c (hx, hxs) (hy, hys) e h =
    let d = digit<ten x hx in
    let o = digit y + borrow in
    let off : o ≤ 10 = omega (arith, c, digit<ten y hy) in
    let enough : o + 10 * low_value ys ≤ digit x + 10 * low_value xs = omega (arith, h) in
    let rest =
      sub_loop-Differs (difference_borrow (digit x) o) xs ys (one_borrowed (digit x) o d off) hxs
        hys (omega (arith, e))
        (round_rest (digit x) o (low_value xs) (low_value ys) d off enough) in
    let (ds, r, hs, v) =
      round_difference (digit x) o (sub_loop (difference_borrow (digit x) o) xs ys) (low_value xs)
        (low_value ys) d off rest in
    (ds, r, hs, omega (arith, v))

-- The digits of a difference, and the string that BigSubIntelnal makes of them.
digits_left :
    (big litte : List ℕ)
    → AllDigits big
    → AllDigits litte
    → length litte ≤ length big
    → number litte < number big
    → (ds : List ℕ) × (sub_loop 0 (reverse big) (reverse litte) ≡ ok ds)
      × SomeDigits (trim_left (λ c. c == k_zero) (reverse ds))
      × (number (trim_left (λ c. c == k_zero) (reverse ds)) ≡ number big - number litte)
digits_left big litte hb hl e h =
    let (ds, r, hs, v) =
      sub_loop-Differs 0 (reverse big) (reverse litte) (omega arith) (reverse-AllDigits big hb)
        (reverse-AllDigits litte hl) (omega (arith, e, length-reverse big, length-reverse litte))
        (omega (arith, h, low_value-reverse big, low_value-reverse litte)) in
    let w : number (trim_left (λ c. c == k_zero) (reverse ds)) ≡ number big - number litte =
      number-trim_left (reverse ds)
      ∙ number-reverse ds
      ∙ omega (arith, v, low_value-reverse big, low_value-reverse litte) in
    (
      ds,
      r,
      some_digits (trim_left (λ c. c == k_zero) (reverse ds))
          (trim_left-AllDigits (reverse ds) (reverse-AllDigits ds hs)) (omega (arith, w, h)),
      w,
    )

-- A smaller number has no more digits.
no_longer :
    (xs ys : List ℕ)
    → AllDigits xs
    → AllDigits ys
    → Trimmed xs
    → Trimmed ys
    → number ys < number xs
    → length ys ≤ length xs
no_longer xs ys hx hy tx ty h = elim (dec_lt (length xs) (length ys)) [
  | yes longer ↦ absurd (omega (arith, h, longer_lem ys xs longer hy hx ty tx))
  | no other ↦ omega (arith, other)
]

sub_ordered-Is :
    (sign : Sign) (ln rn : List ℕ)
    → AllDigits ln
    → AllDigits rn
    → Trimmed ln
    → Trimmed rn
    → Orders sign (number ln) (number rn)
    → (r : List ℕ) × (sub_ordered (big_and_litte sign ln rn) ≡ ok r)
      × Is r (difference (number ln) (number rn))
unfolding sub_ordered big_and_litte append_sign trim_right number value_from digit
sub_ordered-Is zero_sign ln rn hl hr zl zr o =
    let (n, v) = plain (k_zero ∷ []) ((omega arith, omega arith), tt) in
    (k_zero ∷ [], refl, (n, v ∙ sym (rw o (difference_self (number rn)))))
sub_ordered-Is negative ln rn hl hr zl zr o =
    let (ds, r, hs, v) = digits_left rn ln hr hl (no_longer rn ln hr hl zr zl o) o in
    let t = trim_left (λ c. c == k_zero) (reverse ds) in
    let (n, w) = signed t hs in
    (
      minus ∷ t,
      rw r (
          ap ok
            (reverse-append (reverse t) (minus ∷ []) ∙ ap (λ z. minus ∷ z) (reverse-reverse t))),
      (n, w ∙ ap neg_of v ∙ sym (difference_under (number ln) (number rn) o)),
    )
sub_ordered-Is positive ln rn hl hr zl zr o =
    let (ds, r, hs, v) = digits_left ln rn hl hr (no_longer ln rn hl hr zl zr o) o in
    let t = trim_left (λ c. c == k_zero) (reverse ds) in
    let (n, w) = plain t hs in
    (
      t,
      rw r (ap ok (reverse-reverse t)),
      (n, w ∙ ap pos v ∙ sym (difference_over (number ln) (number rn) (omega (arith, o)))),
    )

pub big_sub_internal-Is :
    (ln rn : List ℕ)
    → AllDigits ln
    → AllDigits rn
    → Trimmed ln
    → Trimmed rn
    → (r : List ℕ) × (big_sub_internal ln rn ≡ ok r) × Is r (difference (number ln) (number rn))
unfolding big_sub_internal
big_sub_internal-Is ln rn hl hr zl zr =
    let (sign, e, o) = get_big_and_litte_num_lem ln rn hl hr zl zr in
    let (r, s, i) = sub_ordered-Is sign ln rn hl hr zl zr o in (r, ap sub_ordered e ∙ s, i)
