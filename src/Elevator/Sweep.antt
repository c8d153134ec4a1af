-- ===== src/Elevator/Sweep.antt =====
-- ElevatorSCAN and ElevatorLOOK of base/elevator.cc.
use csutil.Common.{ℕ, ltb, ◌==◌, ◌||◌, if◌then◌else◌, Bool, false, List, [], ◌∷◌, ◌++◌}
use csutil.Common.Status.{Result, err, invalid_param}
use csutil.Elevator.Rides.{Direction, up, down, ElevatorResult, board, finish, serve, unless_empty}
use csutil.Elevator.Rides.{from_back, sort, lower, upper}

-- The second part of the sweep, if there is one, with the end of the shaft in front of it.
unfoldable pub from_top : ℕ → List ℕ → List ℕ
from_top max_floor [] = []
from_top max_floor (x ∷ xs) = max_floor ∷ from_back (x ∷ xs)

unfoldable pub from_bottom : List ℕ → List ℕ
from_bottom [] = []
from_bottom (x ∷ xs) = 0 ∷ x ∷ xs

unfoldable pub scan_order : ℕ → Direction → List ℕ → ℕ → List ℕ
scan_order current_floor up sorted max_floor =
    upper current_floor sorted ++ from_top max_floor (lower current_floor sorted)
scan_order current_floor down sorted max_floor =
    from_back (lower current_floor sorted) ++ from_bottom (upper current_floor sorted)

unfoldable pub contains : List ℕ → ℕ → Bool
contains [] a = false
contains (x ∷ xs) a = a == x || contains xs a

-- The loop that takes the end of the shaft out again: it keeps the floors that were asked for.
unfoldable pub real_requests : List ℕ → List ℕ → List ℕ
real_requests requests [] = []
real_requests requests (x ∷ xs) =
    let rest = real_requests requests xs in if contains requests x then x ∷ rest else rest

unfoldable pub elevator_scan : ℕ → Direction → List ℕ → ℕ → Result ElevatorResult
elevator_scan current_floor direction requests max_floor =
    let order : List ℕ = scan_order current_floor direction (sort requests) max_floor in
    if ltb max_floor current_floor
    then err invalid_param
    else unless_empty requests (record {
      serve_order = real_requests requests order;
      total_distance = (serve (board current_floor) order).total;
    })

unfoldable pub look_order : ℕ → Direction → List ℕ → List ℕ
look_order current_floor up sorted =
    upper current_floor sorted ++ from_back (lower current_floor sorted)
look_order current_floor down sorted =
    from_back (lower current_floor sorted) ++ upper current_floor sorted

unfoldable pub elevator_look : ℕ → Direction → List ℕ → Result ElevatorResult
elevator_look current_floor direction requests =
    unless_empty requests
      (finish (serve (board current_floor) (look_order current_floor direction (sort requests))))
