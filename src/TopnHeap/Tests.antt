-- ===== src/TopnHeap/Tests.antt =====
-- The two largest of four numbers.
use csutil.Common.{ℕ, ◌≡◌, refl, arith, List, [], ◌∷◌, take}
use csutil.Common.Status.{ok, undefined}
use csutil.TopnHeap.{
  TopNHeap, new_topn_heap, greater, push_heap, front, pop_heap, insert, insert_values, pop,
}
use csutil.TopnHeap.Order.{greater-IsOrder, Sorted}
use csutil.TopnHeap.Top.{pop-insert_values}
use mathlib.Core.List.{Perm}

abbrev values : List ℕ
values = 3 ∷ 9 ∷ 1 ∷ 7 ∷ []

pop-insert_values_example :
    (all : List ℕ) × Sorted greater greater-IsOrder all
    × Perm all values
    × (h : TopNHeap) × (insert_values greater (new_topn_heap 2) values ≡ ok h)
    × (pop h [] ≡ (new_topn_heap 2, take 2 all))
pop-insert_values_example = pop-insert_values greater greater-IsOrder 2 values [] (omega arith)

two_largest :
    insert_values greater (new_topn_heap 2) values ≡ ok (record { top_num = 2; buf = 9 ∷ 7 ∷ [] })
unfolding insert_values insert push_heap front pop_heap
two_largest = refl

-- A heap for no number at all reads the front of an empty vector.
no_front : insert_values greater (new_topn_heap 0) values ≡ undefined
unfolding insert_values insert push_heap front pop_heap
no_front = refl
