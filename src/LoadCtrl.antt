-- ===== src/LoadCtrl.antt =====
-- base/load_ctrl.{h,cc}: LoadCtrl counts the requests of the last `total_time_spin_ms` in a ring of
-- grids, one for each `unit_time_spin_ms`. The settings are ints of which a negative one is treated as
-- 0 is; a count is the 32-bit word of the int. CheckFlow updates under its mutex, so that its calls do
-- not interleave; `clock` is what gettimeofday gives in the call.
pub mod Window
pub mod Slide
pub mod Flow
mod Tests
use csutil.Common.{
  ℕ, zero, suc, ◌+◌, ◌-◌, ◌*◌, ◌/◌, ◌%◌, ◌^◌, ltb, leb, ◌==◌, ◌||◌, ◌&&◌, if◌then◌else◌,
}
use csutil.Common.{Bool, true, false, List, [], ◌∷◌, length, get_or, set, replicate}
use csutil.Common.Status.{Result, ok, err, undefined, ◌>>=◌, ◌>>◌, invalid_param}

pub record Timeval : Type 0 where
  pub tv_sec : ℕ
  pub tv_usec : ℕ

-- `grids` is empty where the pointer is NULL.
pub record LoadCtrl : Type 0 where
  pub total_time_spin_ms : ℕ
  pub unit_time_spin_ms : ℕ
  pub max_num_of_all_spin : ℕ
  pub grids_num : ℕ
  pub grids : List ℕ
  pub cur_grid_idx : ℕ
  pub cur_num_of_all_spin : ℕ
  pub start_time : Timeval

abbrev pub k_million : ℕ
k_million = 1000000

abbrev pub k_thousand : ℕ
k_thousand = 1000

pub new_load_ctrl : ℕ → ℕ → ℕ → Timeval → LoadCtrl
new_load_ctrl total unit max_num clock = record {
  total_time_spin_ms = total;
  unit_time_spin_ms = unit;
  max_num_of_all_spin = max_num;
  grids_num = 0;
  grids = [];
  cur_grid_idx = 0;
  cur_num_of_all_spin = 0;
  start_time = clock;
}

-- A setting that is not positive.
abbrev pub unset : LoadCtrl → Bool
unset c = c.total_time_spin_ms == 0 || c.unit_time_spin_ms == 0 || c.max_num_of_all_spin == 0

pub grids_num_of : ℕ → ℕ → ℕ
grids_num_of total unit = total / unit + (if total % unit == 0 then 0 else 1)

pub init : LoadCtrl → Result LoadCtrl
init c =
    let n = grids_num_of c.total_time_spin_ms c.unit_time_spin_ms in
    if unset c then err invalid_param else ok (record c { grids_num = n; grids = replicate n 0 })

-- `delete grids_` of what `new int[]` gave is undefined.
pub modify : LoadCtrl → ℕ → ℕ → ℕ → Timeval → Result LoadCtrl
modify c total unit max_num clock =
    if length c.grids == 0 then init (new_load_ctrl total unit max_num clock) else undefined

pub set_max_flow : LoadCtrl → ℕ → LoadCtrl
set_max_flow c max_flow = record c { max_num_of_all_spin = max_flow }

pub load_grid : LoadCtrl → ℕ → Result ℕ
load_grid c i = if ltb i (length c.grids) then ok (get_or c.grids i 0) else undefined

-- A product that is an int.
abbrev pub product : ℕ → ℕ → Result ℕ
product a b = if ltb (a * b) (2 ^ 31) then ok (a * b) else undefined

-- The difference of two times in microseconds, as the 32-bit word of the int.
pub elapsed : Timeval → Timeval → ℕ
elapsed now start =
    ((now.tv_sec * k_million + now.tv_usec) % 2 ^ 32
      + (2 ^ 32 - (start.tv_sec * k_million + start.tv_usec) % 2 ^ 32))
    % 2 ^ 32

-- The body of the loop in UpdateGrids: the oldest grid becomes the current one.
pub move_grid : LoadCtrl → Result LoadCtrl
move_grid c = do
  let i = (c.cur_grid_idx + 1) % c.grids_num
  g ← load_grid c i
  ok (record c {
    cur_grid_idx = i;
    cur_num_of_all_spin = (c.cur_num_of_all_spin + (2 ^ 32 - g)) % 2 ^ 32;
    grids = set c.grids i 0;
  })

pub move_grids : ℕ → LoadCtrl → Result LoadCtrl
move_grids zero c = ok c
move_grids (suc move_num) c = move_grid c >>= λ c'. move_grids move_num c'

pub later : Timeval → ℕ → Timeval
later start us =
    let usec = start.tv_usec + us in
    if leb k_million usec
    then record { tv_sec = start.tv_sec + usec / k_million; tv_usec = usec % k_million }
    else record { tv_sec = start.tv_sec; tv_usec = usec }

pub reset : LoadCtrl → Timeval → LoadCtrl
reset c clock = record c {
  grids = replicate c.grids_num 0;
  cur_grid_idx = 0;
  cur_num_of_all_spin = 0;
  start_time = clock;
}

-- UpdateGrids once the elapsed time is not negative.
pub update_within : LoadCtrl → ℕ → Timeval → Result LoadCtrl
update_within c move_us clock = do
  total_us ← product c.total_time_spin_ms k_thousand
  if leb total_us move_us then ok (reset c clock) else (do
    unit_time_spin_us ← product c.unit_time_spin_ms k_thousand
    if ltb unit_time_spin_us move_us
        then (do
          let move_num = move_us / unit_time_spin_us
          c' ← move_grids move_num c
          ok (record c' { start_time = later c'.start_time (move_num * unit_time_spin_us) }))
        else ok c)

pub update_grids : LoadCtrl → Timeval → Timeval → Result LoadCtrl
update_grids c now clock =
    let move_us = elapsed now c.start_time in
    if leb (2 ^ 31) move_us then ok (reset c clock) else update_within c move_us clock

-- Counting a request, where `++` of the greatest int is undefined.
pub count_request : LoadCtrl → Result LoadCtrl
count_request c = do
  g ← load_grid c c.cur_grid_idx
  if (g == 2 ^ 31 - 1) || (c.cur_num_of_all_spin == 2 ^ 31 - 1)
      then undefined
      else ok (record c {
        grids = set c.grids c.cur_grid_idx ((g + 1) % 2 ^ 32);
        cur_num_of_all_spin = (c.cur_num_of_all_spin + 1) % 2 ^ 32;
      })

-- The result is whether the request is restricted.
pub check_flow : LoadCtrl → Timeval → Timeval → Result (LoadCtrl × Bool)
check_flow c now clock =
    let check = (do
      c' ← update_grids c now clock
      if ltb c'.cur_num_of_all_spin (2 ^ 31) && ltb c'.max_num_of_all_spin c'.cur_num_of_all_spin
          then ok (c', true)
          else (do c'' ← count_request c'; ok (c'', false))) in
    if unset c then ok (c, false) else check
