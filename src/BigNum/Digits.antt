-- ===== src/BigNum/Digits.antt =====
-- The number that decimal digits stand for, from the right and from the left.
use csutil.Common.{ℕ, ◌+◌, ◌-◌, ◌*◌, ◌<◌, ◌≤◌, ◌≡◌, refl, sym, ap, ◌∙◌, arith}
use csutil.Common.{List, [], ◌∷◌, ◌++◌, length, All, All-append, length-append}
use csutil.Common.{◌==◌, unequal, if◌then◌else◌, ◌⊎◌, inl, inr}
use csutil.Common.Int.{ℤ, pos, neg_of}
use csutil.Trim.{trim_left}
use csutil.BigNum.{digit, minus, k_zero}
use native.Mathlib.Decide.{ℕ_discrete}
use mathlib.Core.List.{reverse, reverse-cons, reverse-reverse}

abbrev pub IsDigit : ℕ → Type 0
IsDigit c = (48 ≤ c) × (c ≤ 57)

abbrev pub AllDigits : List ℕ → Type 0
AllDigits cs = All IsDigit cs

pub digit_lem : (c : ℕ) → IsDigit c → digit c ≡ c - 48
unfolding digit
digit_lem c h = omega arith

pub digit<ten : (c : ℕ) → IsDigit c → digit c < 10
unfolding digit
digit<ten c h = omega arith

pub digit-char : (d : ℕ) → d < 10 → digit (d + 48) ≡ d
unfolding digit
digit-char d h = omega arith

-- The lowest digit first.
unfoldable pub low_value : List ℕ → ℕ
low_value [] = 0
low_value (c ∷ cs) = digit c + 10 * low_value cs

-- The highest digit first, behind a number.
unfoldable pub value_from : ℕ → List ℕ → ℕ
value_from n [] = n
value_from n (c ∷ cs) = value_from (10 * n + digit c) cs

-- The number of a string of digits.
unfoldable pub number : List ℕ → ℕ
number cs = value_from 0 cs

value_from-append :
    (n : ℕ) (xs ys : List ℕ) → value_from n (xs ++ ys) ≡ value_from (value_from n xs) ys
unfolding value_from
value_from-append n [] ys = refl
value_from-append n (x ∷ xs) ys = value_from-append (10 * n + digit x) xs ys

pub number-reverse : (cs : List ℕ) → number (reverse cs) ≡ low_value cs
unfolding number value_from low_value
number-reverse [] = refl
number-reverse (c ∷ cs) =
    ap (value_from 0) (reverse-cons c cs)
    ∙ value_from-append 0 (reverse cs) (c ∷ [])
    ∙ omega (arith, number-reverse cs)

pub low_value-reverse : (cs : List ℕ) → low_value (reverse cs) ≡ number cs
low_value-reverse cs = sym (number-reverse (reverse cs)) ∙ ap number (reverse-reverse cs)

pub reverse-AllDigits : (cs : List ℕ) → AllDigits cs → AllDigits (reverse cs)
reverse-AllDigits [] h = tt
reverse-AllDigits (c ∷ cs) (h, hs) =
    rw (reverse-cons c cs)
      (All-append IsDigit (reverse cs) (c ∷ []) (reverse-AllDigits cs hs) (h, tt))

pub length-reverse : (cs : List ℕ) → length (reverse cs) ≡ length cs
length-reverse [] = refl
length-reverse (c ∷ cs) =
    ap length (reverse-cons c cs)
    ∙ length-append (reverse cs) (c ∷ [])
    ∙ omega (arith, length-reverse cs)

abbrev pub SomeDigits : List ℕ → Type 0
SomeDigits [] = ⊥
SomeDigits (c ∷ cs) = AllDigits (c ∷ cs)

-- An optional minus sign and digits.
abbrev pub IsNumber : List ℕ → Type 0
IsNumber [] = ⊥
IsNumber (c ∷ cs) = ((c ≡ minus) × SomeDigits cs) ⊎ AllDigits (c ∷ cs)

-- The integer that such a string stands for.
unfoldable pub int_of : List ℕ → ℤ
int_of [] = pos 0
int_of (c ∷ cs) = if c == minus then neg_of (number cs) else pos (number (c ∷ cs))

-- The string is a number, and the integer is that one.
abbrev pub Is : List ℕ → ℤ → Type 0
Is cs z = IsNumber cs × (int_of cs ≡ z)

pub plain : (cs : List ℕ) → SomeDigits cs → Is cs (pos (number cs))
unfolding int_of
plain [] h = absurd h
plain (c ∷ cs) (h, hs) = (inr (h, hs), rw (unequal c minus (omega (arith, h))) refl)

pub signed : (cs : List ℕ) → SomeDigits cs → Is (minus ∷ cs) (neg_of (number cs))
unfolding int_of
signed cs h = (inl (refl, h), refl)

pub SomeDigits-AllDigits : (cs : List ℕ) → SomeDigits cs → AllDigits cs
SomeDigits-AllDigits [] h = absurd h
SomeDigits-AllDigits (c ∷ cs) h = h

pub some_digits : (cs : List ℕ) → AllDigits cs → 0 < number cs → SomeDigits cs
unfolding number value_from
some_digits [] h p = absurd (omega (arith, p))
some_digits (c ∷ cs) h p = h

-- Zeros in front do not count.
pub number-trim_left : (cs : List ℕ) → number (trim_left (λ c. c == k_zero) cs) ≡ number cs
unfolding number value_from trim_left digit
number-trim_left [] = refl
number-trim_left (c ∷ cs) = elim (ℕ_discrete c 48) [
  | yes zeros ↦ rw zeros (number-trim_left cs)
  | no other ↦ rw (unequal c 48 other) refl
]

pub trim_left-AllDigits : (cs : List ℕ) → AllDigits cs → AllDigits (trim_left (λ c. c == k_zero) cs)
unfolding trim_left
trim_left-AllDigits [] h = tt
trim_left-AllDigits (c ∷ cs) (h, hs) = elim (ℕ_discrete c 48) [
  | yes zeros ↦ rw zeros (trim_left-AllDigits cs hs)
  | no other ↦ rw (unequal c 48 other) (h, hs)
]

pub nonempty-SomeDigits : (cs : List ℕ) → AllDigits cs → 0 < length cs → SomeDigits cs
nonempty-SomeDigits [] h p = absurd (omega (arith, p))
nonempty-SomeDigits (c ∷ cs) h p = h

pub SomeDigits-nonempty : (cs : List ℕ) → SomeDigits cs → 0 < length cs
SomeDigits-nonempty [] h = absurd h
SomeDigits-nonempty (c ∷ cs) h = omega arith
