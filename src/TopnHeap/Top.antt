-- ===== src/TopnHeap/Top.antt =====
-- TopNHeap of base/topn_heap.h keeps the first values of all that it was given.
use csutil.Common.{
  ℕ, zero, suc, ◌-◌, ◌<◌, ◌≤◌, ◌≡◌, refl, sym, ap, ◌∙◌, arith, le→leb, leb-false, Bool, true, false,
  Bool-cases,
}
use csutil.Common.{List, [], ◌∷◌, ◌++◌, append-nil, length, take, length-take, All, inl, inr}
use csutil.Common.Status.{ok}
use csutil.TopnHeap.{
  TopNHeap, new_topn_heap, push_heap, front, pop_heap, insert, insert_values, pop,
}
use csutil.TopnHeap.Order.{
  IsOrder, Sorted, push_heap-Sorted, push_heap-Perm, take-push_heap, skipped, replaced,
}
use mathlib.Core.List.{Perm, perm_middle}
use mathlib.Core.List.Perm
use mathlib.Core.Path.{subst}
use native.Mathlib.Decide.{dec_le}

front-ok : (xs : List ℕ) → 0 < length xs → (f : ℕ) × (front xs ≡ ok f)
unfolding front
front-ok [] h = absurd (omega (arith, h))
front-ok (x ∷ []) h = (x, refl)
front-ok (x ∷ y ∷ xs) h = front-ok (y ∷ xs) (omega arith)

take_all : (n : ℕ) (xs : List ℕ) → length xs ≤ n → take n xs ≡ xs
take_all zero [] h = refl
take_all zero (x ∷ xs) h = absurd (omega (arith, h))
take_all (suc n) [] h = refl
take_all (suc n) (x ∷ xs) h = ap (λ t. x ∷ t) (take_all n xs (omega (arith, h)))

take_shorter : (n : ℕ) (xs : List ℕ) → length (take n xs) < n → length xs ≤ n
take_shorter n xs h = omega (arith, h, length-take n xs)

module _ (comp : ℕ → ℕ → Bool) (order : IsOrder comp) where
  length-push_heap : (v : ℕ) (xs : List ℕ) → length (push_heap comp v xs) ≡ suc (length xs)
  unfolding push_heap
  length-push_heap v [] = refl
  length-push_heap v (x ∷ xs) = elim (Bool-cases (comp x v)) [
    | inl before ↦ rw before (ap suc (length-push_heap v xs))
    | inr behind ↦ rw behind refl
  ]

  take-All : (P : ℕ → Type 0) (n : ℕ) (xs : List ℕ) → All P xs → All P (take n xs)
  take-All P zero xs h = tt
  take-All P (suc n) [] h = tt
  take-All P (suc n) (x ∷ xs) (h, hs) = (h, take-All P n xs hs)

  take-Sorted : (n : ℕ) (xs : List ℕ) → Sorted comp order xs → Sorted comp order (take n xs)
  take-Sorted zero xs h = tt
  take-Sorted (suc n) [] h = tt
  take-Sorted (suc n) (x ∷ xs) (h, hs) =
      (take-All (λ y. comp y x ≡ false) n xs h, take-Sorted n xs hs)

  -- The heap of the first n of the values.
  abbrev tops : ℕ → List ℕ → TopNHeap
  tops n all = record { top_num = n; buf = take n all }

  insert-room :
      (n v : ℕ) (all : List ℕ)
      → length (take n all) < n
      → insert comp (tops n all) v ≡ ok (tops n (push_heap comp v all))
  unfolding insert
  insert-room n v all h =
      let shorter = take_shorter n all h in
      let few : length all < n = omega (arith, h, length-take n all) in
      rw (leb-false n (length (take n all)) h) (
        ap (λ xs. ok (record { top_num = n; buf = xs }))
          (ap (push_heap comp v) (take_all n all shorter)
            ∙ sym (take_all n (push_heap comp v all) (omega (arith, few, length-push_heap v all)))))

  insert_skip :
      (h : TopNHeap) (v f : ℕ)
      → h.top_num ≤ length h.buf
      → front h.buf ≡ ok f
      → comp f v ≡ true
      → insert comp h v ≡ ok h
  unfolding insert
  insert_skip h v f full e before = rw (le→leb h.top_num (length h.buf) full, e, before) refl

  insert_replace :
      (h : TopNHeap) (v f : ℕ)
      → h.top_num ≤ length h.buf
      → front h.buf ≡ ok f
      → comp f v ≡ false
      → insert comp h v ≡ ok (record h { buf = push_heap comp v (take (length h.buf - 1) h.buf) })
  unfolding insert pop_heap
  insert_replace h v f full e behind = rw (le→leb h.top_num (length h.buf) full, e, behind) refl

  insert-full :
      (m v f : ℕ) (all : List ℕ)
      → Sorted comp order all
      → length (take (suc m) all) ≡ suc m
      → front (take (suc m) all) ≡ ok f
      → insert comp (tops (suc m) all) v ≡ ok (tops (suc m) (push_heap comp v all))
  insert-full m v f all h n e =
      let kept = take (suc m) all in
      let same = take-push_heap comp order (suc m) v all in
      let full : suc m ≤ length kept = omega (arith, n) in
      elim (Bool-cases (comp f v)) [
        | inl before ↦
            insert_skip (tops (suc m) all) v f full e before
            ∙ ap (λ xs. ok (record { top_num = suc m; buf = xs }))
                (sym (skipped comp order v f kept (take-Sorted (suc m) all h) e before)
                  ∙ ap (λ k. take k (push_heap comp v kept)) n
                  ∙ same)
        | inr behind ↦
            insert_replace (tops (suc m) all) v f full e behind
            ∙ ap (λ xs. ok (record { top_num = suc m; buf = xs }))
                (ap (λ k. push_heap comp v (take (k - 1) kept)) n
                  ∙ ap (λ k. push_heap comp v (take k kept)) (omega arith)
                  ∙ replaced comp order m v f kept n e behind
                  ∙ same)
      ]

  insert-tops :
      (n v : ℕ) (all : List ℕ)
      → 0 < n
      → Sorted comp order all
      → insert comp (tops n all) v ≡ ok (tops n (push_heap comp v all))
  insert-tops zero v all p h = absurd (omega (arith, p))
  insert-tops (suc m) v all p h = elim (dec_le (suc m) (length (take (suc m) all))) [
    | yes full ↦
        let (f, e) = front-ok (take (suc m) all) (omega (arith, full)) in
        insert-full m v f all h (omega (arith, full, length-take (suc m) all)) e
    | no room ↦ insert-room (suc m) v all (omega (arith, room))
  ]

  -- All the values, each put in its place.
  push_all : List ℕ → List ℕ → List ℕ
  push_all all [] = all
  push_all all (v ∷ values) = push_all (push_heap comp v all) values

  push_all-Sorted :
      (all values : List ℕ) → Sorted comp order all → Sorted comp order (push_all all values)
  unfolding push_all
  push_all-Sorted all [] h = h
  push_all-Sorted all (v ∷ values) h =
      push_all-Sorted (push_heap comp v all) values (push_heap-Sorted comp order v all h)

  push_all-Perm :
      (all others values : List ℕ) → Perm all others → Perm (push_all all values) (values ++ others)
  unfolding push_all
  push_all-Perm all others [] p = p
  push_all-Perm all others (v ∷ values) p =
      Perm.trans
        (push_all-Perm (push_heap comp v all) (v ∷ others) values
          (Perm.trans (push_heap-Perm comp order v all) (Perm.cons v p)))
        (perm_middle values others)

  insert_values-tops :
      (n : ℕ) (all values : List ℕ)
      → 0 < n
      → Sorted comp order all
      → insert_values comp (tops n all) values ≡ ok (tops n (push_all all values))
  unfolding insert_values push_all
  insert_values-tops n all [] p h = refl
  insert_values-tops n all (v ∷ values) p h =
      rw (insert-tops n v all p h)
        (insert_values-tops n (push_heap comp v all) values p (push_heap-Sorted comp order v all h))

  -- If the heap is for at least one number, Pop after the insertion of any values appends the first
  -- of all the values in the order of HeapCompare, as many as the heap is for, and leaves the heap
  -- empty; no insertion is undefined.
  pub pop-insert_values :
      (n : ℕ) (values result : List ℕ)
      → 0 < n
      → (all : List ℕ) × Sorted comp order all
        × Perm all values
        × (h : TopNHeap) × (insert_values comp (new_topn_heap n) values ≡ ok h)
        × (pop h result ≡ (new_topn_heap n, result ++ take n all))
  unfolding pop
  pop-insert_values n values result p =
      let all = push_all [] values in
      (
        all,
        push_all-Sorted [] values tt,
        subst (Perm all) (append-nil values) (push_all-Perm [] [] values (Perm.refl [])),
        tops n all,
        ap (λ xs. insert_values comp (record { top_num = n; buf = xs }) values)
              (sym (take_all n [] (omega arith)))
            ∙ insert_values-tops n [] values p tt,
        refl,
      )
