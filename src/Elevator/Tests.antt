-- ===== src/Elevator/Tests.antt =====
-- The algorithms of base/elevator.cc on a few requests.
use csutil.Common.{ℕ, arith, List, [], ◌∷◌}
use csutil.Elevator.Rides.{up, down}
use csutil.Elevator.Sweep.{elevator_look}
use csutil.Elevator.Circular.{elevator_cscan, elevator_clook}
use csutil.Elevator.Ways.{look_way, clook_way, cscan_way}
use csutil.Elevator.Tours.{Tours, elevator-Tours}

abbrev calls : List ℕ
calls = 7 ∷ 2 ∷ 9 ∷ 2 ∷ []

elevator-Tours_example :
    Tours 5 up down calls (look_way 5) (elevator_look 5 up calls)
    × Tours 5 up up calls (clook_way 5) (elevator_clook 5 up calls)
    × Tours 5 up up calls (cscan_way 10 0 5) (elevator_cscan 5 up calls 10)
elevator-Tours_example = elevator-Tours 5 up calls 10 (omega arith) (omega arith)
