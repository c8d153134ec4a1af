-- ===== src/Search.antt =====
-- base/search.h: the binary searches for a range of an array, by a pointer or by iterators. An array is
-- a function of the index with a number of elements; reading outside of it is undefined.
pub mod Positions
pub mod Sorted
mod Tests
use csutil.Common.{ℕ, zero, suc, ◌+◌, ◌-◌, ◌/◌, ltb, ◌==◌, if◌then◌else◌, Bool, true, false}
use csutil.Common.Status.{Result, ok, err, undefined, ◌>>=◌, invalid_param}

-- The sign of the int that a comparison returns.
pub data Sign : Type 0 where
  negative zero_sign positive : Sign

-- CompareNum on numbers.
pub compare_num : ℕ → ℕ → Sign
compare_num a b = if ltb a b then negative else if ltb b a then positive else zero_sign

module _ {ℓ} {A : Type ℓ} (comp : A → A → Sign) (arr : ℕ → A) (size : ℕ) (data' : A) where
  pub load : ℕ → Result A
  load i = if ltb i size then ok (arr i) else undefined

  -- The loop of BinaryDescendSearch, with the rounds that are left.
  pub descend_loop : ℕ → ℕ → ℕ → Result ℕ
  descend_loop zero low high = if ltb low high then undefined else ok low
  descend_loop (suc rounds) low high =
      let mid = low + (high - low) / 2 in
      let round = load mid >>= λ x. elim (comp x data') [
        | positive ↦ descend_loop rounds (mid + 1) high
        | negative ↦ descend_loop rounds low mid
        | zero_sign ↦ ok mid
      ] in
      if ltb low high then round else ok low

  pub binary_descend_search : Result ℕ
  binary_descend_search = if size == 0 then err invalid_param else descend_loop size 0 (size - 1)

  -- With iterators, an empty range is allowed.
  pub binary_descend_range : Result ℕ
  binary_descend_range = if size == 0 then ok 0 else descend_loop size 0 (size - 1)

  -- The loop of BinaryAscendSearch.
  pub ascend_loop : ℕ → ℕ → ℕ → Result ℕ
  ascend_loop zero low high = if ltb low high then undefined else ok low
  ascend_loop (suc rounds) low high =
      let mid = low + (high - low + 1) / 2 in
      let round = load mid >>= λ x. elim (comp x data') [
        | positive ↦ ascend_loop rounds low (mid - 1)
        | negative ↦ ascend_loop rounds mid high
        | zero_sign ↦ ok mid
      ] in
      if ltb low high then round else ok low

  pub binary_ascend_search : Result ℕ
  binary_ascend_search = if size == 0 then err invalid_param else ascend_loop size 0 (size - 1)

  pub binary_ascend_range : Result ℕ
  binary_ascend_range = if size == 0 then ok 0 else ascend_loop size 0 (size - 1)
