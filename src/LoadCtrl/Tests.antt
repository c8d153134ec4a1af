-- ===== src/LoadCtrl/Tests.antt =====
-- Tests of the code in base/load_ctrl.cc.
use csutil.Common.{ℕ, ◌+◌, ◌≤◌, ◌≡◌, refl, arith, List, [], ◌∷◌, Bool, true, false, replicate}
use csutil.Common.Status.{Result, ok, ◌>>=◌}
use csutil.LoadCtrl.{LoadCtrl, Timeval, new_load_ctrl, init, check_flow, grids_num_of}
use csutil.LoadCtrl.{
  update_grids, elapsed, update_within, move_grids, move_grid, load_grid, count_request, later,
}
use csutil.LoadCtrl.Window.{sum}
use csutil.LoadCtrl.Slide.{IsLoadCtrl, IsSettings, micros, Slides, Keeps-IsSettings, init-Slides}
use csutil.LoadCtrl.Flow.{check_flow_bound}

-- Four grids of 250 ms, and 2 requests in a second.
abbrev start : Timeval
start = record { tv_sec = 100; tv_usec = 0 }

abbrev soon : Timeval
soon = record { tv_sec = 100; tv_usec = 600000 }

abbrev four : LoadCtrl
four = new_load_ctrl 1000 250 2 start

abbrev four-IsSettings : IsSettings four
unfolding new_load_ctrl
four-IsSettings = record {
  total = (omega arith, omega arith);
  unit = (omega arith, omega arith);
  max_num = (omega arith, omega arith);
}

abbrev initial : Slides four (replicate (grids_num_of 1000 250) 0) (micros start) (init four)
initial = init-Slides 1000 250 2 start four-IsSettings

abbrev grids : List ℕ
grids = replicate (grids_num_of 1000 250) 0

abbrev initial-IsSettings : IsSettings initial.0
initial-IsSettings = Keeps-IsSettings four initial.0 initial.3 four-IsSettings

abbrev empty : sum grids ≤ initial.0.max_num_of_all_spin + 1
unfolding sum grids_num_of
empty = omega arith

check_flow_bound_example :
    (c' : LoadCtrl) × (full : Bool) × (w' : List ℕ) × (check_flow initial.0 soon start
      ≡ ok (c', full))
    × IsLoadCtrl c' w'
    × (sum w' ≤ c'.max_num_of_all_spin + 1)
check_flow_bound_example =
    check_flow_bound initial.0 grids soon start initial.2 initial-IsSettings empty

-- A third request is let through, and a fourth is not.
abbrev replies : Result (List Bool)
replies = do
  c0 ← init four
  (c1, r1) ← check_flow c0 soon start
  (c2, r2) ← check_flow c1 soon start
  (c3, r3) ← check_flow c2 soon start
  (c4, r4) ← check_flow c3 soon start
  ok (r1 ∷ r2 ∷ r3 ∷ r4 ∷ [])

three_pass : replies ≡ ok (false ∷ false ∷ false ∷ true ∷ [])
unfolding init new_load_ctrl check_flow update_grids elapsed update_within move_grids move_grid
    load_grid grids_num_of count_request later
three_pass = refl
