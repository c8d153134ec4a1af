-- ===== src/TopnHeap.antt =====
-- base/topn_heap.h: class TopNHeap on numbers, for a HeapCompare. buf_ is the list of its values in
-- the order in which std::sort_heap leaves them: what the heap's layout in between is, the code
-- does not see. The front of the heap is the last value of the list.
pub mod Order
pub mod Top
mod Tests
use csutil.Common.{
  ℕ, zero, suc, ◌-◌, ltb, leb, if◌then◌else◌, Bool, List, [], ◌∷◌, ◌++◌, length, take,
}
use csutil.Common.{Option, none, some}
use csutil.Common.Status.{Result, ok, undefined, ◌>>=◌}

pub record TopNHeap : Type 0 where
  top_num : ℕ
  buf : List ℕ

abbrev pub new_topn_heap : ℕ → TopNHeap
new_topn_heap top_num = record { top_num = top_num; buf = [] }

-- std::less and std::greater: the comparisons of MinTopNHeap and of MaxTopNHeap.
abbrev pub less : ℕ → ℕ → Bool
less a b = ltb a b

abbrev pub greater : ℕ → ℕ → Bool
greater a b = ltb b a

pub front : List ℕ → Result ℕ
front [] = undefined
front (x ∷ []) = ok x
front (x ∷ y ∷ xs) = front (y ∷ xs)

-- std::pop_heap and pop_back.
pub pop_heap : List ℕ → List ℕ
pop_heap xs = take (length xs - 1) xs

module _ (comp : ℕ → ℕ → Bool) where
  -- push_back and std::push_heap.
  pub push_heap : ℕ → List ℕ → List ℕ
  push_heap value [] = value ∷ []
  push_heap value (x ∷ xs) =
      let further = push_heap value xs in if comp x value then x ∷ further else value ∷ x ∷ xs

  pub insert : TopNHeap → ℕ → Result TopNHeap
  insert h value =
      let pushed = record h { buf = push_heap value h.buf } in
      let replaced = record h { buf = push_heap value (pop_heap h.buf) } in
      if leb h.top_num (length h.buf)
      then (front h.buf >>= λ top. if comp top value then ok h else ok replaced)
      else ok pushed

  -- Insert of a vector.
  pub insert_values : TopNHeap → List ℕ → Result TopNHeap
  insert_values h [] = ok h
  insert_values h (value ∷ values) = insert h value >>= λ next. insert_values next values

-- The emptied heap, and the result with the values behind it.
pub pop : TopNHeap → List ℕ → TopNHeap × List ℕ
pop h result = (record h { buf = [] }, result ++ h.buf)
