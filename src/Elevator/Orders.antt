-- ===== src/Elevator/Orders.antt =====
-- The orders in which base/elevator.cc serves the floors that were asked for.
use csutil.Common.{
  ℕ, suc, ◌%◌, ◌^◌, ◌<◌, length, take, ap, lt→ltb, ◌≤◌, ◌≡◌, refl, sym, arith, ◌∙◌, inl, inr, ltb,
  leb,
}
use csutil.Common.{false, Bool-cases, List, [], ◌∷◌, ◌++◌}
use csutil.Common.{append-nil, append_assoc}
use csutil.Common.Status.{Result, ok}
use csutil.Elevator.Rides.{ElevatorResult, Ride, move, serve}
use csutil.Elevator.Rides.{from_back, insert, sort, lower, upper, elevator_fcfs, unless_empty}
use mathlib.Core.List.{reverse, Perm, perm_middle, perm_append_comm}
use mathlib.Core.List.Perm

-- What a run of the loop adds to the order.
pub serve-order : (r : Ride) (floors : List ℕ) → (serve r floors).order ≡ r.order ++ floors
unfolding serve
serve-order r [] = sym (append-nil r.order)
serve-order r (x ∷ xs) =
    serve-order (record (move r x) { order = r.order ++ (x ∷ []) }) xs
    ∙ append_assoc r.order (x ∷ []) xs

insert-perm : (x : ℕ) (xs : List ℕ) → Perm (insert x xs) (x ∷ xs)
unfolding insert
insert-perm x [] = Perm.refl _
insert-perm x (y ∷ ys) = elim (Bool-cases (leb x y)) [
  | inl here ↦ rw here (Perm.refl _)
  | inr further ↦ rw further (Perm.trans (Perm.cons y (insert-perm x ys)) (Perm.swap x y ys))
]

sort-perm : (xs : List ℕ) → Perm (sort xs) xs
unfolding sort
sort-perm [] = Perm.refl _
sort-perm (x ∷ xs) = Perm.trans (insert-perm x (sort xs)) (Perm.cons x (sort-perm xs))

upper-lower-perm : (floor : ℕ) (xs : List ℕ) → Perm (upper floor xs ++ lower floor xs) xs
unfolding upper lower
upper-lower-perm floor [] = Perm.refl _
upper-lower-perm floor (x ∷ xs) = elim (Bool-cases (ltb x floor)) [
  | inl below ↦ rw below (
      Perm.trans (perm_middle (upper floor xs) (lower floor xs))
        (Perm.cons x (upper-lower-perm floor xs)))
  | inr above ↦ rw above (Perm.cons x (upper-lower-perm floor xs))
]

-- The sorted requests, cut at the current floor and put together with either part turned round.
module _ (floor : ℕ) (requests : List ℕ) where
  pub parts-perm :
      (us ls : List ℕ)
      → Perm us (upper floor (sort requests))
      → Perm ls (lower floor (sort requests))
      → Perm (us ++ ls) requests
  parts-perm us ls p q =
      Perm.trans (Perm.append p q)
        (Perm.trans (upper-lower-perm floor (sort requests)) (sort-perm requests))

  pub parts-perm_turned :
      (us ls : List ℕ)
      → Perm us (upper floor (sort requests))
      → Perm ls (lower floor (sort requests))
      → Perm (ls ++ us) requests
  parts-perm_turned us ls p q = Perm.trans (perm_append_comm ls us) (parts-perm us ls p q)

length-insert : (x : ℕ) (xs : List ℕ) → length (insert x xs) ≡ suc (length xs)
unfolding insert
length-insert x [] = refl
length-insert x (y ∷ ys) = elim (Bool-cases (leb x y)) [
  | inl here ↦ rw here refl
  | inr further ↦ rw further (ap suc (length-insert x ys))
]

length-sort : (xs : List ℕ) → length (sort xs) ≡ length xs
unfolding sort
length-sort [] = refl
length-sort (x ∷ xs) = length-insert x (sort xs) ∙ ap suc (length-sort xs)

length-parts :
    (floor : ℕ) (xs : List ℕ)
    → (length (lower floor xs) ≤ length xs) × (length (upper floor xs) ≤ length xs)
unfolding lower upper
length-parts floor [] = (omega arith, omega arith)
length-parts floor (x ∷ xs) =
    let (l, u) = length-parts floor xs in
    elim (Bool-cases (ltb x floor)) [
      | inl below ↦ rw below (omega arith, omega arith)
      | inr above ↦ rw above (omega arith, omega arith)
    ]

-- A vector with a size that is an int is read from its back as a whole.
from_back_lem : (xs : List ℕ) → length xs < 2 ^ 31 → from_back xs ≡ reverse xs
unfolding from_back
from_back_lem xs short =
    let size : length xs % 2 ^ 32 ≡ length xs = omega (arith, short) in
    rw (size, lt→ltb (length xs) (2 ^ 31) short) (ap reverse (take_all xs))
  where
    take_all : (xs : List ℕ) → take (length xs) xs ≡ xs
    take_all [] = refl
    take_all (x ∷ xs) = ap (λ (t : List ℕ). x ∷ t) (take_all xs)

module _ (floor : ℕ) (requests : List ℕ) (short : length requests < 2 ^ 31) where
  pub from_back-lower :
      from_back (lower floor (sort requests)) ≡ reverse (lower floor (sort requests))
  from_back-lower =
      from_back_lem _
        (omega (arith, length-parts floor (sort requests), length-sort requests, short))

  pub from_back-upper :
      from_back (upper floor (sort requests)) ≡ reverse (upper floor (sort requests))
  from_back-upper =
      from_back_lem _
        (omega (arith, length-parts floor (sort requests), length-sort requests, short))

-- The call succeeds and serves every request as often as it was made.
abbrev pub ServesAll : List ℕ → Result ElevatorResult → Type 0
ServesAll requests r = (e : ElevatorResult) × (r ≡ ok e) × Perm e.serve_order requests

pub unless_empty-ServesAll :
    (requests : List ℕ) (e : ElevatorResult)
    → Perm e.serve_order requests
    → ServesAll requests (unless_empty requests e)
unless_empty-ServesAll [] e p =
    (record { serve_order = []; total_distance = 0 }, refl, Perm.refl [])
unless_empty-ServesAll (r ∷ requests) e p = (e, refl, p)

pub outside_no : (floor max_floor : ℕ) → floor ≤ max_floor → ltb max_floor floor ≡ false
outside_no floor max_floor h = ground arith

-- FCFS serves the requests in the order in which they came.
pub elevator_fcfs-order :
    (current_floor : ℕ) (requests : List ℕ)
    → (e : ElevatorResult) × (elevator_fcfs current_floor requests ≡ ok e)
      × (e.serve_order ≡ requests)
unfolding elevator_fcfs
elevator_fcfs-order current_floor [] = (record { serve_order = []; total_distance = 0 }, refl, refl)
elevator_fcfs-order current_floor (r ∷ requests) = (_, refl, serve-order _ (r ∷ requests))
