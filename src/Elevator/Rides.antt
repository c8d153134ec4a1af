-- ===== src/Elevator/Rides.antt =====
-- AbsDiff, ElevatorFCFS and what the other algorithms of base/elevator.cc share: the result, the
-- loop that serves a list of floors, and the split of the sorted requests at the current floor.
use csutil.Common.{
  ℕ, ◌+◌, ◌-◌, ◌%◌, ◌^◌, ltb, leb, if◌then◌else◌, List, [], ◌∷◌, ◌++◌, length, take,
}
use mathlib.Core.List.{reverse}
use csutil.Common.Status.{Result, ok}

pub data Direction : Type 0 where
  up down : Direction

pub record ElevatorResult : Type 0 where
  pub serve_order : List ℕ
  pub total_distance : ℕ

unfoldable pub abs_diff : ℕ → ℕ → ℕ
abs_diff a b = if ltb b a then a - b else b - a

-- The floor that the lift is at, with the two parts of the result so far.
pub record Ride : Type 0 where
  pub pos : ℕ
  pub total : ℕ
  pub order : List ℕ

abbrev pub board : ℕ → Ride
board current_floor = record { pos = current_floor; total = 0; order = [] }

abbrev pub finish : Ride → ElevatorResult
finish r = record { serve_order = r.order; total_distance = r.total }

-- `total_distance += AbsDiff(pos, floor); pos = floor;`
abbrev pub move : Ride → ℕ → Ride
move r floor = record r { pos = floor; total = (r.total + abs_diff r.pos floor) % 2 ^ 32 }

-- The loop that goes to each floor of a list and puts it into the order.
unfoldable pub serve : Ride → List ℕ → Ride
serve r [] = r
serve r (floor ∷ floors) = serve (record (move r floor) { order = r.order ++ (floor ∷ []) }) floors

-- `if (requests.empty()) return kOk;` leaves the result cleared.
abbrev pub unless_empty : List ℕ → ElevatorResult → Result ElevatorResult
unless_empty [] result = ok (record { serve_order = []; total_distance = 0 })
unless_empty (r ∷ requests) result = ok result

unfoldable pub elevator_fcfs : ℕ → List ℕ → Result ElevatorResult
elevator_fcfs current_floor requests =
    unless_empty requests (finish (serve (board current_floor) requests))

-- The loops over a vector from its back, by an int32_t from `static_cast<int32_t>(size) - 1` on: the
-- size is cut at 32 bits, and negative from 2 ^ 31 on.
unfoldable pub from_back : List ℕ → List ℕ
from_back floors =
    let size = length floors % 2 ^ 32 in
    if ltb size (2 ^ 31) then reverse (take size floors) else []

-- std::sort on numbers, where equal values cannot be told apart.
unfoldable pub insert : ℕ → List ℕ → List ℕ
insert x [] = x ∷ []
insert x (y ∷ ys) = if leb x y then x ∷ y ∷ ys else y ∷ insert x ys

unfoldable pub sort : List ℕ → List ℕ
sort [] = []
sort (x ∷ xs) = insert x (sort xs)

-- The loop that splits the sorted requests.
unfoldable pub lower : ℕ → List ℕ → List ℕ
lower current_floor [] = []
lower current_floor (x ∷ xs) =
    let rest = lower current_floor xs in if ltb x current_floor then x ∷ rest else rest

unfoldable pub upper : ℕ → List ℕ → List ℕ
upper current_floor [] = []
upper current_floor (x ∷ xs) =
    let rest = upper current_floor xs in if ltb x current_floor then rest else x ∷ rest
