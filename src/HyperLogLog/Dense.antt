-- ===== src/HyperLogLog/Dense.antt =====
-- The array of a sketch in base/algo.h.
use csutil.Common.{ℕ, zero, suc, ◌<◌, ◌≡◌, refl, sym, ap, ◌∙◌, arith, ltb, if◌then◌else◌}
use csutil.Common.{List, [], ◌∷◌, length, get_or, set, replicate}
use csutil.Common.{
  All, length-set, get_or-set_self, get_or-set_ne, equal, unequal, lt→ltb, ltb-false,
}
use native.Mathlib.Decide.{dec_lt, ℕ_discrete}
use csutil.HyperLogLog.Sparse.{max_of, value_of, IsAscending, value_of-absent, rank_at, max-zero}

-- `if (r > regs[idx]) regs[idx] = r`.
unfoldable pub raise : ℕ → ℕ → List ℕ → List ℕ
raise idx r regs = set regs idx (max_of (get_or regs idx 0) r)

-- The loop of Densify.
unfoldable pub densify : List (ℕ × ℕ) → List ℕ → List ℕ
densify [] regs = regs
densify ((k, v) ∷ xs) regs = densify xs (if ltb k (length regs) then raise k v regs else regs)

-- The loop of MergeDenseDense, on arrays of one length.
unfoldable pub merge_dense : List ℕ → List ℕ → List ℕ
merge_dense [] other = []
merge_dense (x ∷ xs) [] = x ∷ xs
merge_dense (x ∷ xs) (y ∷ ys) = max_of x y ∷ merge_dense xs ys

pub get_or-raise :
    (idx r j : ℕ) (regs : List ℕ)
    → idx < length regs
    → get_or (raise idx r regs) j 0 ≡ max_of (get_or regs j 0) (rank_at idx r j)
unfolding raise
get_or-raise idx r j regs h = elim (ℕ_discrete idx j) [
  | yes here ↦ rw (← here, equal idx) (get_or-set_self regs idx (max_of (get_or regs idx 0) r) 0 h)
  | no other ↦ rw (unequal idx j other) (
      get_or-set_ne regs idx j (max_of (get_or regs idx 0) r) 0 other
      ∙ sym (max-zero (get_or regs j 0)))
]

pub length-raise : (idx r : ℕ) (regs : List ℕ) → length (raise idx r regs) ≡ length regs
unfolding raise
length-raise idx r regs = length-set regs idx (max_of (get_or regs idx 0) r)

-- Every index is one of the array.
abbrev pub AllWithin : ℕ → List (ℕ × ℕ) → Type 0
AllWithin n xs = All (λ (x : ℕ × ℕ). x.0 < n) xs

pub length-densify : (xs : List (ℕ × ℕ)) (regs : List ℕ) → length (densify xs regs) ≡ length regs
unfolding densify
length-densify [] regs = refl
length-densify ((k, v) ∷ xs) regs = elim (dec_lt k (length regs)) [
  | yes within ↦
      rw (lt→ltb k (length regs) within)
        (length-densify xs (raise k v regs) ∙ length-raise k v regs)
  | no outside ↦ rw (ltb-false k (length regs) (omega arith)) (length-densify xs regs)
]

pub get_or-densify :
    (j : ℕ) (xs : List (ℕ × ℕ)) (regs : List ℕ)
    → IsAscending xs
    → AllWithin (length regs) xs
    → get_or (densify xs regs) j 0 ≡ max_of (get_or regs j 0) (value_of j xs)
unfolding densify value_of IsAscending
get_or-densify j [] regs rises within = sym (max-zero (get_or regs j 0))
get_or-densify j ((k, v) ∷ xs) regs (above, rises) (h, within) =
    let rest = get_or-densify j xs (raise k v regs) rises (rw (length-raise k v regs) within) in
    rw (lt→ltb k (length regs) h, rest, get_or-raise k v j regs h)
      (elim (ℕ_discrete k j) [
        | yes here ↦ rw (here, equal j, value_of-absent j xs (rw here at above)) (max-zero _)
        | no other ↦ rw (unequal k j other, max-zero (get_or regs j 0)) refl
      ])

pub get_or-merge_dense :
    (j : ℕ) (xs ys : List ℕ)
    → length ys ≡ length xs
    → get_or (merge_dense xs ys) j 0 ≡ max_of (get_or xs j 0) (get_or ys j 0)
unfolding merge_dense
get_or-merge_dense j [] [] h = sym (max-zero 0)
get_or-merge_dense j [] (y ∷ ys) h = absurd (omega (arith, h))
get_or-merge_dense j (x ∷ xs) [] h = absurd (omega (arith, h))
get_or-merge_dense zero (x ∷ xs) (y ∷ ys) h = refl
get_or-merge_dense (suc j) (x ∷ xs) (y ∷ ys) h = get_or-merge_dense j xs ys (omega (arith, h))

pub length-merge_dense :
    (xs ys : List ℕ) → length ys ≡ length xs → length (merge_dense xs ys) ≡ length xs
unfolding merge_dense
length-merge_dense [] ys h = refl
length-merge_dense (x ∷ xs) [] h = refl
length-merge_dense (x ∷ xs) (y ∷ ys) h = ap suc (length-merge_dense xs ys (omega (arith, h)))

pub get_or-zeros : (n j : ℕ) → get_or {A = ℕ} (replicate n 0) j 0 ≡ 0
get_or-zeros zero zero = refl
get_or-zeros zero (suc j) = refl
get_or-zeros (suc n) zero = refl
get_or-zeros (suc n) (suc j) = get_or-zeros n j
