-- ===== src/TimerWheel/Tests.antt =====
-- Tests of the wheel in base/algo.cc.
use csutil.Common.{ℕ, ◌+◌, ◌%◌, ◌^◌, ◌<◌, ◌≡◌, arith, [], ◌∷◌, ◌++◌}
use csutil.TimerWheel.{TimerWheel, new_timer_wheel, add_timer, tick, ticks}
use csutil.TimerWheel.Due.{due, add_timer-fires, new_timer_wheel-IsWheel, add_timer-IsWheel}

-- A wheel of 1000 slots with a task that is due in the sixth tick.
abbrev one_task : TimerWheel ℕ
one_task = add_timer (new_timer_wheel 10) 5 1

abbrev small : (new_timer_wheel {A = ℕ} 10).current_slot + 5 < 2 ^ 32
unfolding new_timer_wheel
small = omega arith

abbrev small_one : one_task.current_slot + 1005 < 2 ^ 32
unfolding new_timer_wheel add_timer
small_one = omega arith

add_timer-fires_example :
    (tick (ticks (1005 % one_task.size) (add_timer one_task 1005 2))).0
    ≡ due one_task (1005 % one_task.size) ++ (2 ∷ [])
add_timer-fires_example =
    add_timer-fires one_task 1005 2
      (add_timer-IsWheel (new_timer_wheel 10) (new_timer_wheel-IsWheel 10) 5 1 small) small_one
