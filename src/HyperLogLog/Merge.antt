-- ===== src/HyperLogLog/Merge.antt =====
-- MergeSortedVectors of base/algo.h gives the greater value of each register.
use csutil.Common.{ℕ, ◌+◌, ◌<◌, ◌≤◌, ◌≡◌, refl, sym, arith}
use csutil.Common.{equal, unequal, lt→ltb, ltb-false, List, [], ◌∷◌, length, All}
use native.Mathlib.Decide.{dec_lt, ℕ_discrete}
use csutil.HyperLogLog.Sparse.{
  max_of, merge_sorted, value_of, IsAscending, value_of-absent, above_trans,
}
use csutil.HyperLogLog.Sparse.{max-zero, zero-max}

pub All-merge_sorted :
    (P : ℕ → Type 0) (xs ys : List (ℕ × ℕ))
    → All (λ (x : ℕ × ℕ). P x.0) xs
    → All (λ (x : ℕ × ℕ). P x.0) ys
    → All (λ (x : ℕ × ℕ). P x.0) (merge_sorted xs ys)
unfolding merge_sorted
All-merge_sorted P [] ys ax ay = ay
All-merge_sorted P (x ∷ xs) [] ax ay = ax
All-merge_sorted P ((k, v) ∷ xs) ((l, u) ∷ ys) (hx, ax) (hy, ay) = elim (dec_lt k l) [
  | yes left ↦ rw (lt→ltb k l left) (hx, All-merge_sorted P xs ((l, u) ∷ ys) ax (hy, ay))
  | no not_left ↦ rw (ltb-false k l (omega arith)) (elim (dec_lt l k) [
    | yes right ↦ rw (lt→ltb l k right) (hy, All-merge_sorted P ((k, v) ∷ xs) ys (hx, ax) ay)
    | no not_right ↦ rw (ltb-false l k (omega arith)) (hx, All-merge_sorted P xs ys ax ay)
  ])
]

pub merge_sorted-IsAscending :
    (xs ys : List (ℕ × ℕ)) → IsAscending xs → IsAscending ys → IsAscending (merge_sorted xs ys)
unfolding merge_sorted IsAscending
merge_sorted-IsAscending [] ys rx ry = ry
merge_sorted-IsAscending (x ∷ xs) [] rx ry = rx
merge_sorted-IsAscending ((k, v) ∷ xs) ((l, u) ∷ ys) (ax, rx) (ay, ry) = elim (dec_lt k l) [
  | yes left ↦ rw (lt→ltb k l left) (
    All-merge_sorted (λ i. k < i) xs ((l, u) ∷ ys) ax (left, above_trans k l ys left ay),
    merge_sorted-IsAscending xs ((l, u) ∷ ys) rx (ay, ry),
  )
  | no not_left ↦ rw (ltb-false k l (omega arith)) (elim (dec_lt l k) [
    | yes right ↦ rw (lt→ltb l k right) (
      All-merge_sorted (λ i. l < i) ((k, v) ∷ xs) ys (right, above_trans l k xs right ax) ay,
      merge_sorted-IsAscending ((k, v) ∷ xs) ys (ax, rx) ry,
    )
    | no not_right ↦
        let same : l ≡ k = omega arith in
        rw (ltb-false l k (omega arith)) (
          All-merge_sorted (λ i. k < i) xs ys ax (rw same at ay),
          merge_sorted-IsAscending xs ys rx ry,
        )
  ])
]

pub value_of-merge_sorted :
    (j : ℕ) (xs ys : List (ℕ × ℕ))
    → IsAscending xs
    → IsAscending ys
    → value_of j (merge_sorted xs ys) ≡ max_of (value_of j xs) (value_of j ys)
unfolding merge_sorted value_of IsAscending
value_of-merge_sorted j [] ys rx ry = sym (zero-max (value_of j ys))
value_of-merge_sorted j ((k, v) ∷ xs) [] rx ry = sym (max-zero (value_of j ((k, v) ∷ xs)))
value_of-merge_sorted j ((k, v) ∷ xs) ((l, u) ∷ ys) (ax, rx) (ay, ry) = elim (dec_lt k l) [
  | yes left ↦ rw (lt→ltb k l left) (elim (ℕ_discrete k j) [
    | yes here ↦
        let less : j < l = omega (arith, here) in
        rw (value_of-absent j ((l, u) ∷ ys) (less, above_trans j l ys less ay), here, equal j)
          (sym (max-zero v))
    | no other ↦ rw (unequal k j other) (value_of-merge_sorted j xs ((l, u) ∷ ys) rx (ay, ry))
  ])
  | no not_left ↦ rw (ltb-false k l (omega arith)) (elim (dec_lt l k) [
    | yes right ↦ rw (lt→ltb l k right) (elim (ℕ_discrete l j) [
      | yes here ↦
          let less : j < k = omega (arith, here) in
          rw (value_of-absent j ((k, v) ∷ xs) (less, above_trans j k xs less ax), here, equal j)
            (sym (zero-max u))
      | no other ↦ rw (unequal l j other) (value_of-merge_sorted j ((k, v) ∷ xs) ys (ax, rx) ry)
    ])
    | no not_right ↦
        let same : l ≡ k = omega arith in
        rw (ltb-false l k (omega arith), same)
          (elim (ℕ_discrete k j) [
            | yes here ↦ rw (here, equal j) refl
            | no other ↦ rw (unequal k j other) (value_of-merge_sorted j xs ys rx ry)
          ])
  ])
]

pub length-merge_sorted :
    (xs ys : List (ℕ × ℕ)) → length (merge_sorted xs ys) ≤ length xs + length ys
unfolding merge_sorted
length-merge_sorted [] ys = omega arith
length-merge_sorted (x ∷ xs) [] = omega arith
length-merge_sorted ((k, v) ∷ xs) ((l, u) ∷ ys) = elim (dec_lt k l) [
  | yes left ↦ rw (lt→ltb k l left) (omega (arith, length-merge_sorted xs ((l, u) ∷ ys)))
  | no not_left ↦ rw (ltb-false k l (omega arith)) (elim (dec_lt l k) [
    | yes right ↦ rw (lt→ltb l k right) (omega (arith, length-merge_sorted ((k, v) ∷ xs) ys))
    | no not_right ↦ rw (ltb-false l k (omega arith)) (omega (arith, length-merge_sorted xs ys))
  ])
]
