-- ===== src/Elevator/Scan.antt =====
-- ElevatorSCAN of base/elevator.cc puts an end of the shaft into the order and takes it out again
-- by asking whether it is a request.
use csutil.Common.{ℕ, ◌^◌, ◌<◌, ◌≤◌, ◌≡◌, ◌≢◌, refl, ap, length}
use csutil.Common.{true, false, List, [], ◌∷◌, ◌++◌}
use csutil.Common.Status.{ok}
use csutil.Elevator.Rides.{Direction, up, down, ElevatorResult, from_back, sort, lower, upper}
use csutil.Elevator.Rides.{unless_empty}
use csutil.Elevator.Sweep.{
  from_top, from_bottom, scan_order, contains, real_requests, elevator_scan,
}
use csutil.Elevator.Orders.{parts-perm, parts-perm_turned, ServesAll, unless_empty-ServesAll}
use csutil.Elevator.Orders.{outside_no, from_back-lower}
use mathlib.Core.List.{reverse, reverse-cons, Perm, perm_middle, reverse_perm}
use mathlib.Core.List.Perm
use csutil.Elevator.Asked.{
  Asked, sort-Asked, all_Asked, lower-Asked, upper-Asked, reverse-Asked, real_requests-Asked,
  real_requests-all,
}

-- The two parts of the sweep in a direction, and the end of the shaft between them.
abbrev first_part : ℕ → Direction → List ℕ → List ℕ
first_part floor up requests = upper floor (sort requests)
first_part floor down requests = reverse (lower floor (sort requests))

abbrev second_part : ℕ → Direction → List ℕ → List ℕ
second_part floor up requests = reverse (lower floor (sort requests))
second_part floor down requests = upper floor (sort requests)

abbrev end_of_shaft : Direction → ℕ → ℕ
end_of_shaft up max_floor = max_floor
end_of_shaft down max_floor = 0

with_end : ℕ → List ℕ → List ℕ
with_end end [] = []
with_end end (x ∷ xs) = end ∷ x ∷ xs

with_end-snoc : (end x : ℕ) (ys : List ℕ) → with_end end (ys ++ (x ∷ [])) ≡ end ∷ (ys ++ (x ∷ []))
unfolding with_end
with_end-snoc end x [] = refl
with_end-snoc end x (y ∷ ys) = refl

from_top-with_end :
    (end : ℕ) (xs : List ℕ)
    → from_back xs ≡ reverse xs
    → from_top end xs ≡ with_end end (reverse xs)
unfolding from_top
from_top-with_end end [] h = unfold with_end in refl
from_top-with_end end (x ∷ xs) h = rw (h, reverse-cons x xs, with_end-snoc)

from_bottom-with_end : (xs : List ℕ) → from_bottom xs ≡ with_end 0 xs
unfolding from_bottom with_end
from_bottom-with_end [] = refl
from_bottom-with_end (x ∷ xs) = refl

module _ (floor : ℕ) (direction : Direction) (requests : List ℕ) (max_floor : ℕ)
    (short : length requests < 2 ^ 31) where
  scan_order-parts :
      scan_order floor direction (sort requests) max_floor
      ≡ first_part floor direction requests
        ++ with_end (end_of_shaft direction max_floor) (second_part floor direction requests)
  scan_order-parts = by_direction direction
    where
      by_direction :
          (d : Direction)
          → scan_order floor d (sort requests) max_floor
            ≡ first_part floor d requests
              ++ with_end (end_of_shaft d max_floor) (second_part floor d requests)
      by_direction up =
          unfold scan_order in
          ap (λ t. upper floor (sort requests) ++ t)
            (from_top-with_end max_floor _ (from_back-lower floor requests short))
      by_direction down =
          unfold scan_order in rw (from_back-lower floor requests short, from_bottom-with_end)

  asked : Asked requests (sort requests)
  asked = sort-Asked requests requests (all_Asked [] requests)

  first-Asked : Asked requests (first_part floor direction requests)
  first-Asked = by_direction direction
    where
      by_direction : (d : Direction) → Asked requests (first_part floor d requests)
      by_direction up = upper-Asked requests floor (sort requests) asked
      by_direction down =
          reverse-Asked requests _ (lower-Asked requests floor (sort requests) asked)

  second-Asked : Asked requests (second_part floor direction requests)
  second-Asked = by_direction direction
    where
      by_direction : (d : Direction) → Asked requests (second_part floor d requests)
      by_direction up = reverse-Asked requests _ (lower-Asked requests floor (sort requests) asked)
      by_direction down = upper-Asked requests floor (sort requests) asked

  parts-perm_either :
      Perm (first_part floor direction requests ++ second_part floor direction requests) requests
  parts-perm_either = by_direction direction
    where
      by_direction :
          (d : Direction)
          → Perm (first_part floor d requests ++ second_part floor d requests) requests
      by_direction up = parts-perm floor requests _ _ (Perm.refl _) (reverse_perm _)
      by_direction down = parts-perm_turned floor requests _ _ (Perm.refl _) (reverse_perm _)

-- The end of the shaft passes the filter exactly if it was asked for.
filter_end :
    (requests ys : List ℕ) (end : ℕ)
    → Asked requests ys
    → contains requests end ≡ false
    → real_requests requests (with_end end ys) ≡ ys
unfolding with_end real_requests
filter_end requests [] end all no_end = refl
filter_end requests (y ∷ ys) end (h, all) no_end = rw (no_end, h, real_requests-all requests ys all)

keep_end :
    (requests ys : List ℕ) (end : ℕ)
    → Asked requests ys
    → contains requests end ≡ true
    → ys ≢ []
    → real_requests requests (with_end end ys) ≡ end ∷ ys
unfolding with_end real_requests
keep_end requests [] end all asks some_left = absurd (some_left refl)
keep_end requests (y ∷ ys) end (h, all) asks some_left =
    rw (asks, h, real_requests-all requests ys all)

some_request :
    (requests : List ℕ) (floor : ℕ) (e : ElevatorResult) (served : List ℕ)
    → contains requests floor ≡ true
    → Perm e.serve_order served
    → (e' : ElevatorResult) × (unless_empty requests e ≡ ok e') × Perm e'.serve_order served
unfolding contains
some_request [] floor e served asks p = cc
some_request (r ∷ requests) floor e served asks p = (e, refl, p)

module _ (current_floor : ℕ) (direction : Direction) (requests : List ℕ) (max_floor : ℕ)
    (inside : current_floor ≤ max_floor) (short : length requests < 2 ^ 31) where
  -- From a floor of the building SCAN serves every request as often as it was made, if nobody asked
  -- for the end of the shaft in its direction: the top going up, floor 0 going down.
  pub elevator_scan-ServesAll :
      contains requests (end_of_shaft direction max_floor) ≡ false
      → ServesAll requests (elevator_scan current_floor direction requests max_floor)
  unfolding elevator_scan
  elevator_scan-ServesAll no_end = rw (outside_no current_floor max_floor inside) (
      unless_empty-ServesAll requests _ (
        rw
          (
            scan_order-parts current_floor direction requests max_floor short,
            real_requests-Asked requests _
                (with_end (end_of_shaft direction max_floor)
                  (second_part current_floor direction requests))
                (first-Asked current_floor direction requests max_floor short),
            filter_end requests _ _ (second-Asked current_floor direction requests max_floor short)
                no_end,
          )
          (parts-perm_either current_floor direction requests max_floor short)))

  -- From a floor of the building, if somebody asked for the end of the shaft in SCAN's direction and
  -- requests are left on the other side of the current floor, then the order of SCAN has that end
  -- once more than it was asked for.
  pub elevator_scan_twice :
      contains requests (end_of_shaft direction max_floor) ≡ true
      → second_part current_floor direction requests ≢ []
      → (e : ElevatorResult) × (elevator_scan current_floor direction requests max_floor ≡ ok e)
        × Perm e.serve_order (end_of_shaft direction max_floor ∷ requests)
  unfolding elevator_scan
  elevator_scan_twice asks left = rw (outside_no current_floor max_floor inside) (
      some_request requests (end_of_shaft direction max_floor) _ _ asks (
        rw
          (
            scan_order-parts current_floor direction requests max_floor short,
            real_requests-Asked requests _
                (with_end (end_of_shaft direction max_floor)
                  (second_part current_floor direction requests))
                (first-Asked current_floor direction requests max_floor short),
            keep_end requests _ _ (second-Asked current_floor direction requests max_floor short)
                asks left,
          )
          (Perm.trans (perm_middle _ _)
            (Perm.cons _ (parts-perm_either current_floor direction requests max_floor short)))))
