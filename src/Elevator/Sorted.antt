-- ===== src/Elevator/Sorted.antt =====
-- The two parts of the sorted requests of base/elevator.cc are sorted and lie on their side of the
-- current floor.
use csutil.Common.{ℕ, ◌<◌, ◌≤◌, arith, ltb, leb, Bool-cases, inl, inr}
use csutil.Common.{List, [], ◌∷◌, ◌++◌, All, All-append, All-map}
use csutil.Elevator.Rides.{insert, sort, lower, upper}
use mathlib.Core.List.{reverse, reverse-cons}

-- No floor is above a later one, and none below a later one.
unfoldable pub Ascends : List ℕ → Type 0
Ascends [] = Unit {0}
Ascends (x ∷ xs) = All (λ y. x ≤ y) xs × Ascends xs

unfoldable pub Descends : List ℕ → Type 0
Descends [] = Unit {0}
Descends (x ∷ xs) = All (λ y. y ≤ x) xs × Descends xs

insert-All : (P : ℕ → Type 0) (x : ℕ) (xs : List ℕ) → P x → All P xs → All P (insert x xs)
unfolding insert
insert-All P x [] p h = (p, tt)
insert-All P x (y ∷ ys) p (q, h) = elim (Bool-cases (leb x y)) [
  | inl here ↦ rw here (p, (q, h))
  | inr further ↦ rw further (q, insert-All P x ys p h)
]

insert-Ascends : (x : ℕ) (xs : List ℕ) → Ascends xs → Ascends (insert x xs)
unfolding insert Ascends
insert-Ascends x [] h = (tt, tt)
insert-Ascends x (y ∷ ys) (h, hs) = elim (Bool-cases (leb x y)) [
  | inl here ↦
      let below : x ≤ y = ground arith in
      rw here ((below, All-map _ _ ys (λ z k. omega (arith, below, k)) h), (h, hs))
  | inr further ↦
      let above : y ≤ x = ground arith in
      rw further (insert-All (λ z. y ≤ z) x ys above h, insert-Ascends x ys hs)
]

pub sort-Ascends : (xs : List ℕ) → Ascends (sort xs)
unfolding sort Ascends
sort-Ascends [] = tt
sort-Ascends (x ∷ xs) = insert-Ascends x (sort xs) (sort-Ascends xs)

module _ (floor : ℕ) where
  lower-All : (P : ℕ → Type 0) (xs : List ℕ) → All P xs → All P (lower floor xs)
  unfolding lower
  lower-All P [] h = tt
  lower-All P (x ∷ xs) (p, h) = elim (Bool-cases (ltb x floor)) [
    | inl below ↦ rw below (p, lower-All P xs h)
    | inr above ↦ rw above (lower-All P xs h)
  ]

  upper-All : (P : ℕ → Type 0) (xs : List ℕ) → All P xs → All P (upper floor xs)
  unfolding upper
  upper-All P [] h = tt
  upper-All P (x ∷ xs) (p, h) = elim (Bool-cases (ltb x floor)) [
    | inl below ↦ rw below (upper-All P xs h)
    | inr above ↦ rw above (p, upper-All P xs h)
  ]

  pub lower-Ascends : (xs : List ℕ) → Ascends xs → Ascends (lower floor xs)
  unfolding lower Ascends
  lower-Ascends [] h = tt
  lower-Ascends (x ∷ xs) (p, h) = elim (Bool-cases (ltb x floor)) [
    | inl below ↦ rw below (lower-All _ xs p, lower-Ascends xs h)
    | inr above ↦ rw above (lower-Ascends xs h)
  ]

  pub upper-Ascends : (xs : List ℕ) → Ascends xs → Ascends (upper floor xs)
  unfolding upper Ascends
  upper-Ascends [] h = tt
  upper-Ascends (x ∷ xs) (p, h) = elim (Bool-cases (ltb x floor)) [
    | inl below ↦ rw below (upper-Ascends xs h)
    | inr above ↦ rw above (upper-All _ xs p, upper-Ascends xs h)
  ]

  pub lower-below : (xs : List ℕ) → All (λ x. x < floor) (lower floor xs)
  unfolding lower
  lower-below [] = tt
  lower-below (x ∷ xs) = elim (Bool-cases (ltb x floor)) [
    | inl below ↦ rw below (ground arith, lower-below xs)
    | inr above ↦ rw above (lower-below xs)
  ]

  pub upper-above : (xs : List ℕ) → All (λ x. floor ≤ x) (upper floor xs)
  unfolding upper
  upper-above [] = tt
  upper-above (x ∷ xs) = elim (Bool-cases (ltb x floor)) [
    | inl below ↦ rw below (upper-above xs)
    | inr above ↦ rw above (ground arith, upper-above xs)
  ]

pub reverse-All : (P : ℕ → Type 0) (xs : List ℕ) → All P xs → All P (reverse xs)
reverse-All P [] h = tt
reverse-All P (x ∷ xs) (p, h) =
    rw (reverse-cons x xs) (All-append P (reverse xs) (x ∷ []) (reverse-All P xs h) (p, tt))

Descends-snoc :
    (x : ℕ) (xs : List ℕ) → All (λ y. x ≤ y) xs → Descends xs → Descends (xs ++ (x ∷ []))
unfolding Descends
Descends-snoc x [] h d = (tt, tt)
Descends-snoc x (y ∷ ys) (h, hs) (d, ds) =
    (All-append (λ z. z ≤ y) ys (x ∷ []) d (h, tt), Descends-snoc x ys hs ds)

pub reverse-Descends : (xs : List ℕ) → Ascends xs → Descends (reverse xs)
unfolding Ascends Descends
reverse-Descends [] h = tt
reverse-Descends (x ∷ xs) (p, h) =
    rw (reverse-cons x xs)
      (Descends-snoc x (reverse xs) (reverse-All (λ y. x ≤ y) xs p) (reverse-Descends xs h))
