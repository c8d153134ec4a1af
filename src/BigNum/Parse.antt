-- ===== src/BigNum/Parse.antt =====
-- CheckAndGetIfIsAllNum of base/util.cc reads a number.
use csutil.Common.{ℕ, ◌≡◌, ◌≢◌, refl, ap, ◌∙◌, arith, ◌⊎◌, inl, inr}
use csutil.Common.{
  leb, le→leb, leb-false, ◌&&◌, ◌==◌, unequal, Bool, true, false, List, [], ◌∷◌, Option, none, some,
}
use csutil.Common.Int.{ℤ, pos, neg_of}
use csutil.Trim.{trim_left, trim, is_delim}
use csutil.BigNum.{k_zero, minus, or_zero, delims, check_rest, check_num, post_num, if_has_num}
use csutil.BigNum.{check_and_get_if_is_all_num}
use csutil.BigNum.Digits.{IsDigit, AllDigits, SomeDigits, number, IsNumber, int_of}
use csutil.BigNum.Digits.{number-trim_left, trim_left-AllDigits, SomeDigits-AllDigits}
use csutil.BigNum.Order.{Trimmed}
use csutil.BigNum.Multiply.{or_zero_lem}
use native.Mathlib.Decide.{dec_le, ℕ_discrete}

-- The string without the blanks and plus signs at its ends.
abbrev pub unpadded : List ℕ → List ℕ
unpadded s = trim (is_delim delims) s

IsDigit-test :
    (c : ℕ)
    → (IsDigit c × ((leb c 57 && leb 48 c) ≡ true))
      ⊎ ((¬ IsDigit c) × ((leb c 57 && leb 48 c) ≡ false))
IsDigit-test c = elim (dec_le c 57) [
  | yes low ↦ elim (dec_le 48 c) [
    | yes high ↦ inl ((high, low), rw (le→leb c 57 low, le→leb 48 c high) refl)
    | no under ↦
        inr (λ h. under (h.0), rw (le→leb c 57 low, leb-false 48 c (omega (arith, under))) refl)
  ]
  | no over ↦ inr (λ h. over (h.1), rw (leb-false c 57 (omega (arith, over))) refl)
]

check_rest_lem :
    (cs : List ℕ)
    → (AllDigits cs × (check_rest true cs ≡ some true))
      ⊎ ((¬ AllDigits cs) × (check_rest true cs ≡ none))
unfolding check_rest
check_rest_lem [] = inl (tt, refl)
check_rest_lem (c ∷ cs) = elim (IsDigit-test c) [
  | inl (h, t) ↦ elim (check_rest_lem cs) [
    | inl (hs, e) ↦ inl ((h, hs), rw (t, e) refl)
    | inr (others, e) ↦ inr (λ k. others (k.1), rw (t, e) refl)
  ]
  | inr (other, t) ↦ inr (λ k. other (k.0), rw t refl)
]

-- Behind a minus sign.
check_rest-false :
    (cs : List ℕ)
    → (SomeDigits cs × (check_rest false cs ≡ some true))
      ⊎ ((¬ SomeDigits cs) × (check_rest false cs ≢ some true))
unfolding check_rest
check_rest-false [] = inr (λ h. h, λ e. cc)
check_rest-false (c ∷ cs) = elim (IsDigit-test c) [
  | inl (h, t) ↦ elim (check_rest_lem cs) [
    | inl (hs, e) ↦ inl ((h, hs), rw (t, e) refl)
    | inr (others, e) ↦ inr (λ k. others (k.1), rw (t, e) (λ e. cc))
  ]
  | inr (other, t) ↦ inr (λ k. other (k.0), rw t (λ e. cc))
]

check_num_lem :
    (cs : List ℕ)
    → (IsNumber cs × (check_num cs ≡ some true)) ⊎ ((¬ IsNumber cs) × (check_num cs ≢ some true))
unfolding check_num
check_num_lem [] = inr (λ h. h, λ e. cc)
check_num_lem (c ∷ cs) = elim (IsDigit-test c) [
  | inl (h, t) ↦ elim (check_rest_lem cs) [
    | inl (hs, e) ↦ inl (inr (h, hs), rw (t, e) refl)
    | inr (others, e) ↦ inr (
      λ k. elim k [ inl (m, d) ↦ absurd (omega (arith, h, m)) | inr (d, ds) ↦ others ds ],
      rw (t, e) (λ e. cc),
    )
  ]
  | inr (other, t) ↦ elim (ℕ_discrete c minus) [
    | yes m ↦ elim (check_rest-false cs) [
      | inl (hs, e) ↦ inl (inl (m, hs), rw (t, m, e) refl)
      | inr (others, e) ↦
          inr (λ k. elim k [ inl (n, ds) ↦ others ds | inr (d, ds) ↦ other d ], rw (t, m) e)
    ]
    | no n ↦ inr (
      λ k. elim k [ inl (m, ds) ↦ n m | inr (d, ds) ↦ other d ],
      rw (t, unequal c minus n) (λ e. cc),
    )
  ]
]

-- The integer of a flag for the minus sign and the digits behind it.
abbrev pub sign : Bool → ℕ → ℤ
sign true n = neg_of n
sign false n = pos n

-- What is_negative and post_num hold of a number.
abbrev pub Parsed : Bool × List ℕ → ℤ → Type 0
Parsed (p, post) z = SomeDigits post × Trimmed post × (sign p (number post) ≡ z)

or_zero-Trimmed : (cs : List ℕ) → Trimmed (or_zero (trim_left (λ c. c == k_zero) cs))
unfolding or_zero trim_left
or_zero-Trimmed [] = tt
or_zero-Trimmed (c ∷ cs) = elim (ℕ_discrete c 48) [
  | yes zeros ↦ rw zeros (or_zero-Trimmed cs)
  | no other ↦ rw (unequal c 48 other) (front c cs other)
]
  where
    front : (c : ℕ) (cs : List ℕ) → c ≢ 48 → Trimmed (c ∷ cs)
    front c [] other = tt
    front c (d ∷ cs) other = other

digits-Parsed :
    (p : Bool) (cs : List ℕ)
    → AllDigits cs
    → Parsed (p, or_zero (trim_left (λ c. c == k_zero) cs)) (sign p (number cs))
digits-Parsed p cs h =
    let (ds, v) = or_zero_lem (trim_left (λ c. c == k_zero) cs) (trim_left-AllDigits cs h) in
    (ds, or_zero-Trimmed cs, ap (sign p) (v ∙ number-trim_left cs))

pub post_num-Parsed : (cs : List ℕ) → IsNumber cs → Parsed (post_num cs) (int_of cs)
unfolding post_num int_of
post_num-Parsed [] h = absurd h
post_num-Parsed (c ∷ cs) (inl (m, hs)) = rw m (digits-Parsed true cs (SomeDigits-AllDigits cs hs))
post_num-Parsed (c ∷ cs) (inr (h, hs)) =
    rw (unequal c minus (omega (arith, h))) (digits-Parsed false (c ∷ cs) (h, hs))

not_some : (o : Option Bool) (num : Bool × List ℕ) → o ≢ some true → if_has_num o num ≡ none
unfolding if_has_num
not_some none num e = refl
not_some (some true) num e = absurd (e refl)
not_some (some false) num e = refl

pub check-number :
    (s : List ℕ)
    → IsNumber (unpadded s)
    → check_and_get_if_is_all_num s ≡ some (post_num (unpadded s))
unfolding check_and_get_if_is_all_num if_has_num
check-number s h = elim (check_num_lem (unpadded s)) [
  | inl (k, e) ↦ ap (λ o. if_has_num o (post_num (unpadded s))) e
  | inr (other, e) ↦ absurd (other h)
]

pub check-other : (s : List ℕ) → ¬ IsNumber (unpadded s) → check_and_get_if_is_all_num s ≡ none
unfolding check_and_get_if_is_all_num
check-other s h = elim (check_num_lem (unpadded s)) [
  | inl (k, e) ↦ absurd (h k)
  | inr (other, e) ↦ not_some (check_num (unpadded s)) (post_num (unpadded s)) e
]
