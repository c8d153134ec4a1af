-- ===== src/Search/Tests.antt =====
-- Tests of the searches in base/search.h.
use csutil.Common.{ℕ, ◌-◌, ◌*◌, ◌≡◌, refl, arith}
use csutil.Common.Status.{ok}
use csutil.Search.{
  compare_num, load, binary_descend_search, binary_ascend_search, descend_loop, ascend_loop,
}
use csutil.Search.Positions.{DescendFinds, binary_descend_search-DescendFinds}
use csutil.Search.Sorted.{compare_num-IsDescending}

-- The arrays {40, 30, 20, 10} and {0, 10, 20, 30}.
abbrev falling : ℕ → ℕ
falling i = 40 - i * 10

abbrev rising : ℕ → ℕ
rising i = i * 10

binary_descend_search-DescendFinds_example :
    DescendFinds compare_num falling 4 25 (binary_descend_search compare_num falling 4 25)
binary_descend_search-DescendFinds_example =
    binary_descend_search-DescendFinds compare_num falling 4 25 (omega arith)
      (compare_num-IsDescending falling 4 25 (λ i j h within. omega arith))

-- 25 is in the range of 20.
found_falling : binary_descend_search compare_num falling 4 25 ≡ ok 2
unfolding compare_num load binary_descend_search descend_loop
found_falling = refl

found_rising : binary_ascend_search compare_num rising 4 25 ≡ ok 2
unfolding compare_num load binary_ascend_search ascend_loop
found_rising = refl
