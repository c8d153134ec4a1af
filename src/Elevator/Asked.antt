-- ===== src/Elevator/Asked.antt =====
-- The floors of the sweep of base/elevator.cc and those that were asked for.
use csutil.Common.{ℕ, ◌≡◌, refl, arith, inl, inr, ltb, leb}
use csutil.Common.{true, Bool-cases, List, [], ◌∷◌, ◌++◌, All, All-append}
use csutil.Common.{append_assoc}
use csutil.Elevator.Rides.{insert, sort, lower, upper}
use csutil.Elevator.Sweep.{contains, real_requests}
use mathlib.Core.List.{reverse, reverse-cons}

-- Every floor of a list was asked for.
abbrev pub Asked : List ℕ → List ℕ → Type 0
Asked requests xs = All (λ y. contains requests y ≡ true) xs

insert-Asked :
    (requests : List ℕ) (x : ℕ) (xs : List ℕ)
    → contains requests x ≡ true
    → Asked requests xs
    → Asked requests (insert x xs)
unfolding insert
insert-Asked requests x [] h all = (h, tt)
insert-Asked requests x (y ∷ ys) h (hy, all) = elim (Bool-cases (leb x y)) [
  | inl here ↦ rw here (h, (hy, all))
  | inr further ↦ rw further (hy, insert-Asked requests x ys h all)
]

pub sort-Asked : (requests xs : List ℕ) → Asked requests xs → Asked requests (sort xs)
unfolding sort
sort-Asked requests [] all = tt
sort-Asked requests (x ∷ xs) (h, all) =
    insert-Asked requests x (sort xs) h (sort-Asked requests xs all)

contains_middle : (front : List ℕ) (x : ℕ) (xs : List ℕ) → contains (front ++ (x ∷ xs)) x ≡ true
unfolding contains
contains_middle [] x xs = ground arith
contains_middle (y ∷ front) x xs = ground (arith, contains_middle front x xs)

pub all_Asked : (front xs : List ℕ) → Asked (front ++ xs) xs
all_Asked front [] = tt
all_Asked front (x ∷ xs) =
    (contains_middle front x xs, rw append_assoc at (all_Asked (front ++ (x ∷ [])) xs))

pub lower-Asked :
    (requests : List ℕ) (floor : ℕ) (xs : List ℕ)
    → Asked requests xs
    → Asked requests (lower floor xs)
unfolding lower
lower-Asked requests floor [] all = tt
lower-Asked requests floor (x ∷ xs) (h, all) = elim (Bool-cases (ltb x floor)) [
  | inl below ↦ rw below (h, lower-Asked requests floor xs all)
  | inr above ↦ rw above (lower-Asked requests floor xs all)
]

pub upper-Asked :
    (requests : List ℕ) (floor : ℕ) (xs : List ℕ)
    → Asked requests xs
    → Asked requests (upper floor xs)
unfolding upper
upper-Asked requests floor [] all = tt
upper-Asked requests floor (x ∷ xs) (h, all) = elim (Bool-cases (ltb x floor)) [
  | inl below ↦ rw below (upper-Asked requests floor xs all)
  | inr above ↦ rw above (h, upper-Asked requests floor xs all)
]

pub reverse-Asked : (requests xs : List ℕ) → Asked requests xs → Asked requests (reverse xs)
reverse-Asked requests [] all = tt
reverse-Asked requests (x ∷ xs) (h, all) =
    rw (reverse-cons x xs)
      (All-append _ (reverse xs) (x ∷ []) (reverse-Asked requests xs all) (h, tt))

-- The filter keeps what was asked for.
pub real_requests-Asked :
    (requests xs ys : List ℕ)
    → Asked requests xs
    → real_requests requests (xs ++ ys) ≡ xs ++ real_requests requests ys
unfolding real_requests
real_requests-Asked requests [] ys all = refl
real_requests-Asked requests (x ∷ xs) ys (h, all) = rw (h, real_requests-Asked requests xs ys all)

pub real_requests-all : (requests xs : List ℕ) → Asked requests xs → real_requests requests xs ≡ xs
unfolding real_requests
real_requests-all requests [] all = refl
real_requests-all requests (x ∷ xs) (h, all) = rw (h, real_requests-all requests xs all)
