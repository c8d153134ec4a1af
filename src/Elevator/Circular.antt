-- ===== src/Elevator/Circular.antt =====
-- ElevatorCSCAN and ElevatorCLOOK of base/elevator.cc.
use csutil.Common.{ℕ, ltb, if◌then◌else◌, List, [], ◌∷◌}
use csutil.Common.Status.{Result, err, invalid_param}
use csutil.Elevator.Rides.{
  Direction, up, down, ElevatorResult, Ride, board, finish, move, serve, unless_empty,
}
use csutil.Elevator.Rides.{from_back, sort, lower, upper}

-- Past the end of the shaft, if floors are left, and over them in the order of the last list: the way
-- to the end counts, the jump does not.
unfoldable pub jump_end : ℕ → ℕ → Ride → List ℕ → List ℕ → Ride
jump_end end other_end ride [] floors = ride
jump_end end other_end ride (x ∷ xs) floors =
    serve (record (move ride end) { pos = other_end }) floors

unfoldable pub cscan : ℕ → Direction → List ℕ → ℕ → Ride
cscan current_floor up sorted max_floor =
    jump_end max_floor 0 (serve (board current_floor) (upper current_floor sorted))
      (lower current_floor sorted) (lower current_floor sorted)
cscan current_floor down sorted max_floor =
    jump_end 0 max_floor (serve (board current_floor) (from_back (lower current_floor sorted)))
      (upper current_floor sorted) (from_back (upper current_floor sorted))

unfoldable pub elevator_cscan : ℕ → Direction → List ℕ → ℕ → Result ElevatorResult
elevator_cscan current_floor direction requests max_floor =
    if ltb max_floor current_floor
    then err invalid_param
    else unless_empty requests (finish (cscan current_floor direction (sort requests) max_floor))

-- Straight to the first floor that is left; the jump does not count.
unfoldable pub jump_first : Ride → List ℕ → Ride
jump_first ride [] = ride
jump_first ride (x ∷ xs) = serve (record ride { pos = x }) (x ∷ xs)

unfoldable pub clook : ℕ → Direction → List ℕ → Ride
clook current_floor up sorted =
    jump_first (serve (board current_floor) (upper current_floor sorted))
      (lower current_floor sorted)
clook current_floor down sorted =
    jump_first (serve (board current_floor) (from_back (lower current_floor sorted)))
      (from_back (upper current_floor sorted))

unfoldable pub elevator_clook : ℕ → Direction → List ℕ → Result ElevatorResult
elevator_clook current_floor direction requests =
    unless_empty requests (finish (clook current_floor direction (sort requests)))
