-- ===== src/TopnHeap/Order.antt =====
-- Values in the order of a HeapCompare of base/topn_heap.h.
use csutil.Common.{ℕ, zero, suc, ◌≡◌, refl, sym, ap, arith, Bool, true, false, Bool-cases}
use csutil.Common.{List, [], ◌∷◌, length, take, All, inl, inr}
use csutil.Common.Status.{ok, value}
use csutil.TopnHeap.{push_heap, front, less, greater}
use mathlib.Core.List.{Perm}
use mathlib.Core.List.Perm
use mathlib.Core.Path.{subst}

ok_injective : (a b : ℕ) → ok a ≡ ok b → a ≡ b
ok_injective a b e = ap value e

-- What the code relies on of a HeapCompare: it is a strict order.
pub record IsOrder (comp : ℕ → ℕ → Bool) : Type 0 where
  asymm : (a b : ℕ) → comp a b ≡ true → comp b a ≡ false
  cotrans : (a b c : ℕ) → comp a b ≡ false → comp b c ≡ false → comp a c ≡ false
  above : (a b c : ℕ) → comp a b ≡ false → comp a c ≡ true → comp b c ≡ true

less-IsOrder : IsOrder less
less-IsOrder = record {
  asymm = λ a b h. ground arith;
  cotrans = λ a b c h k. ground arith;
  above = λ a b c h k. ground arith;
}

pub greater-IsOrder : IsOrder greater
greater-IsOrder = record {
  asymm = λ a b h. ground arith;
  cotrans = λ a b c h k. ground arith;
  above = λ a b c h k. ground arith;
}

module _ (comp : ℕ → ℕ → Bool) (order : IsOrder comp) where
  -- No value comes before one in front of it.
  abbrev pub Sorted : List ℕ → Type 0
  Sorted [] = Unit {0}
  Sorted (x ∷ xs) = All (λ y. comp y x ≡ false) xs × Sorted xs

  All-push_heap :
      (a value : ℕ) (xs : List ℕ)
      → comp value a ≡ false
      → All (λ y. comp y a ≡ false) xs
      → All (λ y. comp y a ≡ false) (push_heap comp value xs)
  unfolding push_heap
  All-push_heap a value [] h hs = (h, tt)
  All-push_heap a value (x ∷ xs) h (k, hs) = elim (Bool-cases (comp x value)) [
    | inl before ↦ rw before (k, All-push_heap a value xs h hs)
    | inr behind ↦ rw behind (h, (k, hs))
  ]

  All-behind :
      (x value : ℕ) (xs : List ℕ)
      → comp x value ≡ false
      → All (λ y. comp y x ≡ false) xs
      → All (λ y. comp y value ≡ false) xs
  All-behind x value [] h hs = tt
  All-behind x value (y ∷ xs) h (k, hs) = (order.cotrans y x value k h, All-behind x value xs h hs)

  pub push_heap-Sorted : (value : ℕ) (xs : List ℕ) → Sorted xs → Sorted (push_heap comp value xs)
  unfolding push_heap
  push_heap-Sorted value [] h = (tt, tt)
  push_heap-Sorted value (x ∷ xs) (h, hs) = elim (Bool-cases (comp x value)) [
    | inl before ↦
        rw before
          (All-push_heap x value xs (order.asymm x value before) h, push_heap-Sorted value xs hs)
    | inr behind ↦ rw behind ((behind, All-behind x value xs behind h), (h, hs))
  ]

  pub push_heap-Perm : (value : ℕ) (xs : List ℕ) → Perm (push_heap comp value xs) (value ∷ xs)
  unfolding push_heap
  push_heap-Perm value [] = Perm.refl (value ∷ [])
  push_heap-Perm value (x ∷ xs) = elim (Bool-cases (comp x value)) [
    | inl before ↦
        rw before (Perm.trans (Perm.cons x (push_heap-Perm value xs)) (Perm.swap value x xs))
    | inr behind ↦ rw behind (Perm.refl (value ∷ x ∷ xs))
  ]

  take-take : (n : ℕ) (xs : List ℕ) → take n (take (suc n) xs) ≡ take n xs
  take-take zero xs = refl
  take-take (suc n) [] = refl
  take-take (suc n) (x ∷ xs) = ap (λ t. x ∷ t) (take-take n xs)

  take_behind : (n x : ℕ) (xs : List ℕ) → take n (x ∷ take n xs) ≡ take n (x ∷ xs)
  take_behind zero x xs = refl
  take_behind (suc n) x xs = ap (λ t. x ∷ t) (take-take n xs)

  -- The first values do not change where those behind them are left out.
  pub take-push_heap :
      (n value : ℕ) (xs : List ℕ)
      → take n (push_heap comp value (take n xs)) ≡ take n (push_heap comp value xs)
  unfolding push_heap
  take-push_heap zero value xs = refl
  take-push_heap (suc n) value [] = refl
  take-push_heap (suc n) value (x ∷ xs) = elim (Bool-cases (comp x value)) [
    | inl before ↦ rw before (ap (λ t. x ∷ t) (take-push_heap n value xs))
    | inr behind ↦ rw behind (ap (λ t. value ∷ t) (take_behind n x xs))
  ]

  front-All :
      (x f : ℕ) (xs : List ℕ) → All (λ y. comp y x ≡ false) xs → front xs ≡ ok f → comp f x ≡ false
  unfolding front
  front-All x f [] h e = absurd cc
  front-All x f (y ∷ []) (h, hs) e = subst (λ z. comp z x ≡ false) (ok_injective y f e) h
  front-All x f (y ∷ z ∷ xs) (h, hs) e = front-All x f (z ∷ xs) hs e

  -- A full heap whose front comes before the value keeps what it has.
  pub skipped :
      (value f : ℕ) (xs : List ℕ)
      → Sorted xs
      → front xs ≡ ok f
      → comp f value ≡ true
      → take (length xs) (push_heap comp value xs) ≡ xs
  unfolding push_heap front
  skipped value f [] h e before = refl
  skipped value f (x ∷ []) h e before =
      let here : comp x value ≡ true =
        subst (λ z. comp z value ≡ true) (sym (ok_injective x f e)) before in
      rw here refl
  skipped value f (x ∷ y ∷ xs) (h, hs) e before =
      let here : comp x value ≡ true = order.above f x value (front-All x f (y ∷ xs) h e) before in
      rw here (ap (λ t. x ∷ t) (skipped value f (y ∷ xs) hs e before))

  -- In any other full heap the value takes the front's place.
  pub replaced :
      (m value f : ℕ) (xs : List ℕ)
      → length xs ≡ suc m
      → front xs ≡ ok f
      → comp f value ≡ false
      → push_heap comp value (take m xs) ≡ take (suc m) (push_heap comp value xs)
  unfolding push_heap front
  replaced m value f [] n e behind = absurd (omega (arith, n))
  replaced zero value f (x ∷ []) n e behind =
      let here : comp x value ≡ false =
        subst (λ z. comp z value ≡ false) (sym (ok_injective x f e)) behind in
      rw here refl
  replaced (suc m) value f (x ∷ []) n e behind = absurd (omega (arith, n))
  replaced zero value f (x ∷ y ∷ xs) n e behind = absurd (omega (arith, n))
  replaced (suc m) value f (x ∷ y ∷ xs) n e behind = elim (Bool-cases (comp x value)) [
    | inl before ↦
        rw before (ap (λ t. x ∷ t) (replaced m value f (y ∷ xs) (omega (arith, n)) e behind))
    | inr after ↦ rw after refl
  ]
