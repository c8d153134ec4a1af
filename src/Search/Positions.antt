-- ===== src/Search/Positions.antt =====
-- The searches of base/search.h end, read inside the array only, and find the position they mean to.
use csutil.Common.{ℕ, zero, suc, ◌+◌, ◌-◌, ◌/◌, ◌<◌, ◌≤◌, ◌≡◌, refl, arith, ◌⊎◌, inl, inr}
use csutil.Common.{lt→ltb, ltb-false, unequal}
use csutil.Common.Status.{Result, ok}
use native.Mathlib.Decide.{dec_lt, ℕ_discrete}
use csutil.Search.{Sign, negative, zero_sign, positive, load, descend_loop, binary_descend_search}
use csutil.Search.{ascend_loop, binary_ascend_search, binary_descend_range, binary_ascend_range}

Sign-cases : (s : Sign) → (s ≡ positive) ⊎ (s ≡ negative) ⊎ (s ≡ zero_sign)
Sign-cases positive = inl refl
Sign-cases negative = inr (inl refl)
Sign-cases zero_sign = inr (inr refl)

module _ {ℓ} {A : Type ℓ} (comp : A → A → Sign) (arr : ℕ → A) (size : ℕ) (data' : A) where
  abbrev pub AllPositive : ℕ → ℕ → Type 0
  AllPositive from to = (i : ℕ) → from ≤ i → i < to → comp (arr i) data' ≡ positive

  -- What is before an element greater than the data is greater too.
  abbrev pub IsDescending : Type 0
  IsDescending = (j : ℕ) → j < size → comp (arr j) data' ≡ positive → AllPositive 0 j

  -- What is after an element greater than the data is greater too.
  abbrev pub IsAscending : Type 0
  IsAscending = (j : ℕ) → j < size → comp (arr j) data' ≡ positive → AllPositive j size

  -- The element is equal, or it is the first that is not greater, or it is the last of all.
  abbrev pub DescendFinds : Result ℕ → Type 0
  DescendFinds r =
      (pos : ℕ) × (r ≡ ok pos)
      × (pos < size)
      × ((comp (arr pos) data' ≡ zero_sign)
          ⊎ (AllPositive 0 pos × ((pos + 1 ≡ size) ⊎ (comp (arr pos) data' ≡ negative))))

  -- The element is equal, or it is the last that is not greater, or it is the first of all.
  abbrev pub AscendFinds : Result ℕ → Type 0
  AscendFinds r =
      (pos : ℕ) × (r ≡ ok pos)
      × (pos < size)
      × ((comp (arr pos) data' ≡ zero_sign)
          ⊎ (AllPositive (pos + 1) size × ((pos ≡ 0) ⊎ (comp (arr pos) data' ≡ negative))))

  load_lem : (i : ℕ) → i < size → load comp arr size data' i ≡ ok (arr i)
  unfolding load
  load_lem i h = rw (lt→ltb i size h) refl

  descend_done :
      (low high : ℕ)
      → high ≤ low
      → low ≤ high
      → high < size
      → AllPositive 0 low
      → (high + 1 ≡ size) ⊎ (comp (arr high) data' ≡ negative)
      → DescendFinds (ok low)
  descend_done low high h h' within before at =
      let same : low ≡ high = omega arith in (low, refl, omega arith, inr (before, rw same at))

  descend_loop-DescendFinds :
      (rounds low high : ℕ)
      → high ≤ low + rounds
      → low ≤ high
      → high < size
      → IsDescending
      → AllPositive 0 low
      → (high + 1 ≡ size) ⊎ (comp (arr high) data' ≡ negative)
      → DescendFinds (descend_loop comp arr size data' rounds low high)
  unfolding descend_loop
  descend_loop-DescendFinds zero low high enough h within falls before at =
      rw (ltb-false low high (omega arith)) (descend_done low high (omega arith) h within before at)
  descend_loop-DescendFinds (suc rounds) low high enough h within falls before at =
      elim (dec_lt low high) [
        | no over ↦
            rw (ltb-false low high (omega arith))
              (descend_done low high (omega arith) h within before at)
        | yes wide ↦
            let mid = low + (high - low) / 2 in
            let less : mid < size = omega arith in
            rw (lt→ltb low high wide, load_lem mid less)
              (elim (Sign-cases (comp (arr mid) data')) [
                | inl greater ↦ rw greater (
                    descend_loop-DescendFinds rounds (mid + 1) high (omega arith) (omega arith)
                      within falls (reaches mid less greater falls) at)
                | inr (inl smaller) ↦ rw smaller (
                    descend_loop-DescendFinds rounds low mid (omega arith) (omega arith) less falls
                      before (inr smaller))
                | inr (inr same) ↦ rw same (mid, refl, less, inl same)
              ])
      ]
    where
      reaches :
          (mid : ℕ)
          → mid < size
          → comp (arr mid) data' ≡ positive
          → IsDescending
          → AllPositive 0 (mid + 1)
      reaches mid less greater falls i h below = elim (dec_lt i mid) [
        | yes earlier ↦ falls mid less greater i h earlier
        | no other ↦ let same : i ≡ mid = omega arith in rw same greater
      ]

  ascend_done :
      (low high : ℕ)
      → high ≤ low
      → low ≤ high
      → high < size
      → AllPositive (high + 1) size
      → (low ≡ 0) ⊎ (comp (arr low) data' ≡ negative)
      → AscendFinds (ok low)
  ascend_done low high h h' within after at =
      let same : high ≡ low = omega arith in (low, refl, omega arith, inr (rw same at after, at))

  ascend_loop-AscendFinds :
      (rounds low high : ℕ)
      → high ≤ low + rounds
      → low ≤ high
      → high < size
      → IsAscending
      → AllPositive (high + 1) size
      → (low ≡ 0) ⊎ (comp (arr low) data' ≡ negative)
      → AscendFinds (ascend_loop comp arr size data' rounds low high)
  unfolding ascend_loop
  ascend_loop-AscendFinds zero low high enough h within rises after at =
      rw (ltb-false low high (omega arith)) (ascend_done low high (omega arith) h within after at)
  ascend_loop-AscendFinds (suc rounds) low high enough h within rises after at =
      elim (dec_lt low high) [
        | no over ↦
            rw (ltb-false low high (omega arith))
              (ascend_done low high (omega arith) h within after at)
        | yes wide ↦
            let mid = low + (high - low + 1) / 2 in
            let less : mid < size = omega arith in
            rw (lt→ltb low high wide, load_lem mid less)
              (elim (Sign-cases (comp (arr mid) data')) [
                | inl greater ↦ rw greater (
                    ascend_loop-AscendFinds rounds low (mid - 1) (omega arith) (omega arith)
                      (omega arith) rises (λ i from to. rises mid less greater i (omega arith) to)
                      at)
                | inr (inl smaller) ↦ rw smaller (
                    ascend_loop-AscendFinds rounds mid high (omega arith) (omega arith) within rises
                      after (inr smaller))
                | inr (inr same) ↦ rw same (mid, refl, less, inl same)
              ])
      ]

  -- On an array that is not empty, where what is before an element greater than the data is
  -- greater too, BinaryDescendSearch ends within as many rounds as there are elements, reads
  -- inside the array only, and gives a position whose element is equal to the data, or the first
  -- that is not greater, or the last of all.
  pub binary_descend_search-DescendFinds :
      0 < size → IsDescending → DescendFinds (binary_descend_search comp arr size data')
  unfolding binary_descend_search
  binary_descend_search-DescendFinds some falls = rw (unequal size 0 (λ e. omega arith)) (
      descend_loop-DescendFinds size 0 (size - 1) (omega arith) (omega arith) (omega arith) falls
        (λ i h below. absurd (omega arith)) (inl (omega arith)))

  -- On an array that is not empty, where what is after an element greater than the data is
  -- greater too, BinaryAscendSearch ends within as many rounds as there are elements, reads
  -- inside the array only, and gives a position whose element is equal to the data, or the last
  -- that is not greater, or the first of all.
  pub binary_ascend_search-AscendFinds :
      0 < size → IsAscending → AscendFinds (binary_ascend_search comp arr size data')
  unfolding binary_ascend_search
  binary_ascend_search-AscendFinds some rises = rw (unequal size 0 (λ e. omega arith)) (
      ascend_loop-AscendFinds size 0 (size - 1) (omega arith) (omega arith) (omega arith) rises
        (λ i from to. absurd (omega arith)) (inl refl))

  -- The searches by iterators are the same, but for an empty range.
  pub range-search :
      ((size ≡ 0)
        × (binary_descend_range comp arr size data' ≡ ok 0)
        × (binary_ascend_range comp arr size data' ≡ ok 0))
      ⊎ ((binary_descend_range comp arr size data' ≡ binary_descend_search comp arr size data')
          × (binary_ascend_range comp arr size data' ≡ binary_ascend_search comp arr size data'))
  unfolding binary_descend_range binary_ascend_range binary_descend_search binary_ascend_search
  range-search = elim (ℕ_discrete size 0) [
    | yes none ↦ inl (none, rw none refl, rw none refl)
    | no some ↦ inr (rw (unequal size 0 some) refl, rw (unequal size 0 some) refl)
  ]
