-- ===== src/TimerWheel.antt =====
-- base/algo.cc: TimerWheel, a ring of slots with the tasks that fall due there. A task is a value of any
-- type, which Tick gives out in the order in which it runs them; no task adds a timer while it runs.
pub mod Due
mod Tests
use csutil.Common.{
  ℕ, zero, suc, ◌+◌, ◌%◌, ◌^◌, ◌≡◌, ltb, if◌then◌else◌, List, [], ◌∷◌, ◌++◌, length, get_or, set,
  replicate,
}

pub record TimerWheel {ℓ} (A : Type ℓ) : Type ℓ where
  pub size : ℕ
  pub current_slot : ℕ
  pub wheel : List (List A)

abbrev pub k_min_size : ℕ
k_min_size = 1000

pub new_timer_wheel {ℓ} : {A : Type ℓ} → ℕ → TimerWheel A
new_timer_wheel size =
    let n = if ltb k_min_size size then size else k_min_size in
    record { size = n; current_slot = 0; wheel = replicate n [] }

pub add_timer {ℓ} : {A : Type ℓ} → TimerWheel A → ℕ → A → TimerWheel A
add_timer w timeout task =
    let slot = ((w.current_slot + timeout) % 2 ^ 32) % w.size in
    record w { wheel = set w.wheel slot (get_or w.wheel slot [] ++ (task ∷ [])) }

-- The tasks that run, and the wheel afterwards.
pub tick {ℓ} : {A : Type ℓ} → TimerWheel A → List A × TimerWheel A
tick w = (
  get_or w.wheel w.current_slot [],
  record w { wheel = set w.wheel w.current_slot []; current_slot = (w.current_slot + 1) % w.size },
)

-- The wheel after as many ticks.
pub ticks {ℓ} : {A : Type ℓ} → ℕ → TimerWheel A → TimerWheel A
ticks zero w = w
ticks (suc n) w = ticks n ((tick w).1)
