-- ===== src/BigNum/Order.antt =====
-- GetBigAndLitteNum of base/util.cc orders two numbers.
use csutil.Common.{ℕ, suc, ◌+◌, ◌*◌, ◌%◌, ◌^◌, ◌<◌, ◌≤◌, ◌≡◌, ◌≢◌, refl, sym, arith}
use csutil.Common.{lt→ltb, ltb-false, List, [], ◌∷◌, length}
use csutil.Search.{Sign, negative, zero_sign, positive}
use csutil.BigNum.{digit, first_differing, big_and_litte, get_big_and_litte_num}
use csutil.BigNum.Digits.{AllDigits, digit_lem, digit<ten, value_from, number}
use native.Mathlib.Decide.{dec_lt, ℕ_discrete}

-- What the sign of a comparison of two numbers says.
abbrev pub Orders : Sign → ℕ → ℕ → Type 0
Orders negative m n = m < n
Orders zero_sign m n = m ≡ n
Orders positive m n = n < m

-- Behind a smaller number, as many digits make up a smaller one.
value_from_mono :
    (m n : ℕ) (xs ys : List ℕ)
    → m < n
    → length xs ≡ length ys
    → AllDigits xs
    → AllDigits ys
    → value_from m xs < value_from n ys
unfolding value_from
value_from_mono m n [] [] h e hx hy = h
value_from_mono m n [] (y ∷ ys) h e hx hy = absurd (omega (arith, e))
value_from_mono m n (x ∷ xs) [] h e hx hy = absurd (omega (arith, e))
value_from_mono m n (x ∷ xs) (y ∷ ys) h e (hx, hxs) (hy, hys) =
    value_from_mono (10 * m + digit x) (10 * n + digit y) xs ys (omega (arith, h, digit<ten x hx))
      (omega (arith, e)) hxs hys

-- A number with fewer digits is smaller than one that does not begin with zeros.
value_from_longer :
    (m : ℕ) (xs ys : List ℕ)
    → 1 ≤ m
    → length ys ≤ length xs
    → AllDigits xs
    → AllDigits ys
    → value_from 0 ys < value_from m xs
unfolding value_from
value_from_longer m [] [] p h hx hy = p
value_from_longer m [] (y ∷ ys) p h hx hy = absurd (omega (arith, h))
value_from_longer m (x ∷ xs) ys p h (hx, hxs) hy = elim (ℕ_discrete (length ys) (suc (length xs))) [
  | yes same ↦ value_from_mono 0 m ys (x ∷ xs) p same hy (hx, hxs)
  | no other ↦
      value_from_longer (10 * m + digit x) xs ys (omega (arith, p)) (omega (arith, h, other)) hxs hy
]

first_differing-Orders :
    (n : ℕ) (xs ys : List ℕ)
    → length xs ≡ length ys
    → AllDigits xs
    → AllDigits ys
    → Orders (first_differing xs ys) (value_from n xs) (value_from n ys)
unfolding first_differing value_from
first_differing-Orders n [] [] e hx hy = refl
first_differing-Orders n [] (y ∷ ys) e hx hy = absurd (omega (arith, e))
first_differing-Orders n (x ∷ xs) [] e hx hy = absurd (omega (arith, e))
first_differing-Orders n (x ∷ xs) (y ∷ ys) e (hx, hxs) (hy, hys) = elim (dec_lt y x) [
  | yes over ↦ rw (lt→ltb ((y + 2 ^ 7) % 2 ^ 8) ((x + 2 ^ 7) % 2 ^ 8) (omega arith)) (
      value_from_mono (10 * n + digit y) (10 * n + digit x) ys xs
        (omega (arith, digit_lem x hx, digit_lem y hy)) (sym (omega (arith, e))) hys hxs)
  | no above ↦ elim (dec_lt x y) [
    | yes under ↦ rw (ltb-false ((y + 2 ^ 7) % 2 ^ 8) ((x + 2 ^ 7) % 2 ^ 8) (omega arith)) (
        rw (lt→ltb ((x + 2 ^ 7) % 2 ^ 8) ((y + 2 ^ 7) % 2 ^ 8) (omega arith)) (
          value_from_mono (10 * n + digit x) (10 * n + digit y) xs ys
            (omega (arith, digit_lem x hx, digit_lem y hy)) (omega (arith, e)) hxs hys))
    | no below ↦
        let same : x ≡ y = omega arith in
        rw (ltb-false ((y + 2 ^ 7) % 2 ^ 8) ((x + 2 ^ 7) % 2 ^ 8) (omega arith)) (
          rw (ltb-false ((x + 2 ^ 7) % 2 ^ 8) ((y + 2 ^ 7) % 2 ^ 8) (omega arith))
            (rw same (first_differing-Orders (10 * n + digit y) xs ys (omega (arith, e)) hxs hys)))
  ]
]

-- Digits without a zero in front, or a zero alone.
abbrev pub Trimmed : List ℕ → Type 0
Trimmed [] = ⊥
Trimmed (c ∷ []) = Unit {0}
Trimmed (c ∷ d ∷ cs) = c ≢ 48

pub longer_lem :
    (xs ys : List ℕ)
    → length ys < length xs
    → AllDigits xs
    → AllDigits ys
    → Trimmed xs
    → Trimmed ys
    → number ys < number xs
unfolding number value_from
longer_lem [] ys h hx hy tx ty = absurd (omega (arith, h))
longer_lem (x ∷ []) [] h hx hy tx ty = absurd ty
longer_lem (x ∷ []) (y ∷ ys) h hx hy tx ty = absurd (omega (arith, h))
longer_lem (x ∷ z ∷ xs) ys h (hx, hxs) hy tx ty =
    value_from_longer (10 * 0 + digit x) (z ∷ xs) ys (omega (arith, digit_lem x hx, tx))
      (omega (arith, h)) hxs hy

-- The sign, and the bigger and the smaller number where there are two.
pub get_big_and_litte_num_lem :
    (ln rn : List ℕ)
    → AllDigits ln
    → AllDigits rn
    → Trimmed ln
    → Trimmed rn
    → (sign : Sign) × (get_big_and_litte_num ln rn ≡ big_and_litte sign ln rn)
      × Orders sign (number ln) (number rn)
unfolding get_big_and_litte_num number
get_big_and_litte_num_lem ln rn hl hr zl zr = elim (dec_lt (length rn) (length ln)) [
  | yes longer ↦ (
    positive,
    rw (lt→ltb (length rn) (length ln) longer) refl,
    longer_lem ln rn longer hl hr zl zr,
  )
  | no a ↦ elim (dec_lt (length ln) (length rn)) [
    | yes shorter ↦ (
      negative,
      rw
          (
            ltb-false (length rn) (length ln) (omega (arith, a)),
            lt→ltb (length ln) (length rn) shorter,
          )
          refl,
      longer_lem rn ln shorter hr hl zr zl,
    )
    | no b ↦ (
      first_differing ln rn,
      rw
          (
            ltb-false (length rn) (length ln) (omega (arith, a)),
            ltb-false (length ln) (length rn) (omega (arith, b)),
          )
          refl,
      first_differing-Orders 0 ln rn (omega (arith, a, b)) hl hr,
    )
  ]
]
