-- ===== src/Elevator/Seek.antt =====
-- ElevatorSSTF of base/elevator.cc.
use csutil.Common.{ℕ, zero, suc, ◌+◌, ◌-◌, ◌%◌, ◌^◌, ltb, if◌then◌else◌, Bool, true, false}
use csutil.Common.{List, [], ◌∷◌, ◌++◌, length, get_or, set, replicate, not, ◌&&◌}
use csutil.Common.Status.{Result}
use csutil.Elevator.Rides.{ElevatorResult, Ride, abs_diff, board, finish, unless_empty}

-- The loop over i: the requests and marks from i on, with the least distance so far and its index.
nearest : ℕ → ℕ → List ℕ → List Bool → ℕ → ℕ → ℕ × ℕ
nearest pos i [] visited min_dist nearest_idx = (min_dist, nearest_idx)
nearest pos i (r ∷ rs) [] min_dist nearest_idx = (min_dist, nearest_idx)
nearest pos i (r ∷ rs) (seen ∷ visited) min_dist nearest_idx =
    let closer : Bool = not seen && ltb (abs_diff pos r) min_dist in
    nearest pos (i + 1) rs visited (if closer then abs_diff pos r else min_dist)
      (if closer then i else nearest_idx)

-- The loop over `served`, with the rounds that are left.
seek : ℕ → List ℕ → List Bool → Ride → Ride
seek zero requests visited ride = ride
seek (suc rounds) requests visited ride =
    let (min_dist, nearest_idx) = nearest ride.pos 0 requests visited (2 ^ 32 - 1) 0 in
    let floor : ℕ = get_or requests nearest_idx 0 in
    seek rounds requests (set visited nearest_idx true) (record {
      pos = floor;
      total = (ride.total + min_dist) % 2 ^ 32;
      order = ride.order ++ (floor ∷ []);
    })

elevator_sstf : ℕ → List ℕ → Result ElevatorResult
elevator_sstf current_floor requests = unless_empty requests (
    finish
      (seek (length requests) requests (replicate (length requests) false) (board current_floor)))
