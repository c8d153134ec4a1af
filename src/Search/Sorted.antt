-- ===== src/Search/Sorted.antt =====
-- With CompareNum of base/search.h, a sorted array of numbers is one that the searches expect.
use csutil.Common.{ℕ, ◌<◌, ◌≤◌, ◌≡◌, refl, arith, lt→ltb, ltb-false}
use native.Mathlib.Decide.{dec_lt}
use csutil.Search.{negative, zero_sign, positive, compare_num}
use csutil.Search.Positions.{IsDescending, IsAscending}

positive→lt : (a b : ℕ) → compare_num a b ≡ positive → b < a
unfolding compare_num
positive→lt a b h = elim (dec_lt b a) [
  | yes below ↦ below
  | no over ↦ elim (dec_lt a b) [
    | yes above ↦ let wrong : negative ≡ positive = rw (lt→ltb a b above, compare_num) at h in cc
    | no same ↦
        let wrong : zero_sign ≡ positive =
          rw (ltb-false a b (omega arith), ltb-false b a (omega arith), compare_num) at h in
        cc
  ]
]

lt→positive : (a b : ℕ) → b < a → compare_num a b ≡ positive
unfolding compare_num
lt→positive a b h = rw (ltb-false a b (omega arith), lt→ltb b a h) refl

pub compare_num-IsDescending :
    (arr : ℕ → ℕ) (size number : ℕ)
    → ((i j : ℕ) → i < j → j < size → arr j ≤ arr i)
    → IsDescending compare_num arr size number
compare_num-IsDescending arr size number falls j h greater i from to =
    lt→positive (arr i) number (omega (arith, falls i j to h, positive→lt (arr j) number greater))

pub compare_num-IsAscending :
    (arr : ℕ → ℕ) (size number : ℕ)
    → ((i j : ℕ) → i ≤ j → j < size → arr i ≤ arr j)
    → IsAscending compare_num arr size number
compare_num-IsAscending arr size number rises j h greater i from to =
    lt→positive (arr i) number
      (omega (arith, rises j i from to, positive→lt (arr j) number greater))
