-- ===== src/HyperLogLog/Sparse.antt =====
-- The sorted vector of a sketch in base/algo.h: pairs of a register's index and its value.
use csutil.Common.{ℕ, zero, suc, ◌+◌, ◌<◌, ◌≡◌, refl, sym, ap, arith, ltb, ◌==◌, if◌then◌else◌}
use csutil.Common.{Bool, false, Bool-cases, inl, inr, equal, unequal, lt→ltb, ltb-false}
use csutil.Common.{List, [], ◌∷◌, length, All, All-map}
use native.Mathlib.Decide.{dec_lt, ℕ_discrete}

abbrev pub max_of : ℕ → ℕ → ℕ
max_of a b = if ltb a b then b else a

-- std::lower_bound finds the place; a register that is there is raised, a new one inserted.
unfoldable pub add_register : ℕ → ℕ → List (ℕ × ℕ) → List (ℕ × ℕ)
add_register idx r [] = (idx, r) ∷ []
add_register idx r ((k, v) ∷ xs) =
    let further = add_register idx r xs in
    if ltb k idx
    then (k, v) ∷ further
    else if k == idx
    then (k, max_of v r) ∷ xs
    else (idx, r) ∷ (k, v) ∷ xs

unfoldable pub has_register : ℕ → List (ℕ × ℕ) → Bool
has_register idx [] = false
has_register idx ((k, v) ∷ xs) =
    let further = has_register idx xs in if ltb k idx then further else k == idx

-- MergeSortedVectors.
unfoldable pub merge_sorted : List (ℕ × ℕ) → List (ℕ × ℕ) → List (ℕ × ℕ)
merge_sorted [] ys = ys
merge_sorted (x ∷ xs) [] = x ∷ xs
merge_sorted ((k, v) ∷ xs) ((l, u) ∷ ys) =
    let left = merge_sorted xs ((l, u) ∷ ys) in
    let right = merge_sorted ((k, v) ∷ xs) ys in
    let both = merge_sorted xs ys in
    if ltb k l then (k, v) ∷ left else if ltb l k then (l, u) ∷ right else (k, max_of v u) ∷ both

-- The value of a register, which is 0 where the vector has none.
unfoldable pub value_of : ℕ → List (ℕ × ℕ) → ℕ
value_of j [] = 0
value_of j ((k, v) ∷ xs) = if k == j then v else value_of j xs

abbrev pub AllAbove : ℕ → List (ℕ × ℕ) → Type 0
AllAbove k xs = All (λ (x : ℕ × ℕ). k < x.0) xs

unfoldable pub IsAscending : List (ℕ × ℕ) → Type 0
IsAscending [] = Unit
IsAscending ((k, v) ∷ xs) = AllAbove k xs × IsAscending xs

pub value_of-absent : (j : ℕ) (xs : List (ℕ × ℕ)) → AllAbove j xs → value_of j xs ≡ 0
unfolding value_of
value_of-absent j [] above = refl
value_of-absent j ((k, v) ∷ xs) (h, above) =
    rw (unequal k j (λ e. omega (arith, h, e))) (value_of-absent j xs above)

pub above_trans : (j k : ℕ) (xs : List (ℕ × ℕ)) → j < k → AllAbove k xs → AllAbove j xs
above_trans j k xs h = All-map _ _ xs (λ x below. omega (arith, h, below))

-- What a pair adds to a register.
abbrev pub rank_at : ℕ → ℕ → ℕ → ℕ
rank_at idx r j = if idx == j then r else 0

pub max-zero : (a : ℕ) → max_of a 0 ≡ a
max-zero a = rw (ltb-false a 0 (omega arith)) refl

pub zero-max : (a : ℕ) → max_of 0 a ≡ a
zero-max zero = refl
zero-max (suc a) = rw (lt→ltb 0 (suc a) (omega arith)) refl

pub value_of-add_register :
    (idx r j : ℕ) (xs : List (ℕ × ℕ))
    → IsAscending xs
    → value_of j (add_register idx r xs) ≡ max_of (value_of j xs) (rank_at idx r j)
unfolding value_of add_register IsAscending
value_of-add_register idx r j [] rises = sym (zero-max (rank_at idx r j))
value_of-add_register idx r j ((k, v) ∷ xs) (above, rises) = elim (dec_lt k idx) [
  | yes before ↦ rw (lt→ltb k idx before) (elim (ℕ_discrete k j) [
    | yes here ↦
        rw (here, equal j, unequal idx j (λ e. omega (arith, before, here, e))) (sym (max-zero v))
    | no other ↦ rw (unequal k j other) (value_of-add_register idx r j xs rises)
  ])
  | no not_before ↦ rw (ltb-false k idx (omega arith)) (elim (ℕ_discrete k idx) [
    | yes same ↦
        rw (same, equal idx)
          (elim (ℕ_discrete idx j) [
            | yes here ↦ rw (here, equal j) refl
            | no other ↦ rw (unequal idx j other) (sym (max-zero (value_of j xs)))
          ])
    | no differ ↦ rw (unequal k idx differ) (elim (ℕ_discrete idx j) [
      | yes here ↦
          let less : j < k = omega (arith, here) in
          rw (value_of-absent j ((k, v) ∷ xs) (less, above_trans j k xs less above), here, equal j)
            (sym (zero-max r))
      | no other ↦ rw (unequal idx j other) (sym (max-zero (value_of j ((k, v) ∷ xs))))
    ])
  ])
]

pub All-add_register :
    (P : ℕ → Type 0) (idx r : ℕ) (xs : List (ℕ × ℕ))
    → P idx
    → All (λ (x : ℕ × ℕ). P x.0) xs
    → All (λ (x : ℕ × ℕ). P x.0) (add_register idx r xs)
unfolding add_register
All-add_register P idx r [] h above = (h, tt)
All-add_register P idx r ((k, v) ∷ xs) h (here, above) = elim (dec_lt k idx) [
  | yes before ↦ rw (lt→ltb k idx before) (here, All-add_register P idx r xs h above)
  | no not_before ↦ rw (ltb-false k idx (omega arith)) (elim (ℕ_discrete k idx) [
    | yes same ↦ rw (same, equal idx) (h, above)
    | no differ ↦ rw (unequal k idx differ) (h, (here, above))
  ])
]

pub add_register-IsAscending :
    (idx r : ℕ) (xs : List (ℕ × ℕ)) → IsAscending xs → IsAscending (add_register idx r xs)
unfolding add_register IsAscending
add_register-IsAscending idx r [] rises = (tt, tt)
add_register-IsAscending idx r ((k, v) ∷ xs) (above, rises) = elim (dec_lt k idx) [
  | yes before ↦
      rw (lt→ltb k idx before) (
        All-add_register (λ i. k < i) idx r xs before above,
        add_register-IsAscending idx r xs rises,
      )
  | no not_before ↦ rw (ltb-false k idx (omega arith)) (elim (ℕ_discrete k idx) [
    | yes same ↦ rw (same, equal idx) (rw same at above, rises)
    | no differ ↦
        let less : idx < k = omega arith in
        rw (unequal k idx differ) ((less, above_trans idx k xs less above), (above, rises))
  ])
]

pub length-add_register :
    (idx r : ℕ) (xs : List (ℕ × ℕ))
    → length (add_register idx r xs) ≡ (if has_register idx xs then length xs else length xs + 1)
unfolding add_register has_register
length-add_register idx r [] = refl
length-add_register idx r ((k, v) ∷ xs) = elim (dec_lt k idx) [
  | yes before ↦ rw (lt→ltb k idx before) (elim (Bool-cases (has_register idx xs)) [
    | inl found ↦ rw found (ap suc (rw found at (length-add_register idx r xs)))
    | inr missing ↦ rw missing (omega (arith, rw missing at (length-add_register idx r xs)))
  ])
  | no not_before ↦ rw (ltb-false k idx (omega arith)) (elim (ℕ_discrete k idx) [
    | yes same ↦ rw (same, equal idx) refl
    | no differ ↦ rw (unequal k idx differ) (omega arith)
  ])
]
