-- ===== src/LoadCtrl/Slide.antt =====
-- Init and UpdateGrids of base/load_ctrl.cc on the window of grids.
use csutil.Common.{
  ℕ, zero, suc, ◌+◌, ◌-◌, ◌*◌, ◌/◌, ◌%◌, ◌^◌, ◌<◌, ◌≤◌, ◌≡◌, ◌≢◌, refl, sym, ap, ◌∙◌, arith,
}
use csutil.Common.{ltb, leb, ◌||◌, if◌then◌else◌, Bool-cases, inl, inr}
use csutil.Common.{lt→ltb, unequal, length-replicate, length-append}
use csutil.Common.{List, [], ◌∷◌, ◌++◌, length, replicate}
use native.Mathlib.Decide.{ℕ_discrete}
use native.Mathlib.Nat.{div-add-mod}
use csutil.Common.Status.{Result, ok, undefined, ◌>>=◌}
use csutil.LoadCtrl.{LoadCtrl, Timeval, new_load_ctrl, init, modify, grids_num_of, load_grid}
use csutil.LoadCtrl.{elapsed, move_grid, move_grids, reset, update_within, update_grids, later}
use csutil.LoadCtrl.{k_thousand}
use csutil.LoadCtrl.Window.{sum, front, advance, Window, Window-Next, Window-replicate}
use csutil.LoadCtrl.Window.{
  length-Window, Window-cons, front-snoc, sum-append, sum-replicate, advance-sum,
}

-- The grids are a ring whose window, the current grid first, is `w`; the number of requests is its sum.
pub record IsLoadCtrl (c : LoadCtrl) (w : List ℕ) : Type 0 where
  pub window : Window c.grids c.cur_grid_idx w
  pub num : c.grids_num ≡ length w
  pub spins : c.cur_num_of_all_spin ≡ sum w
  pub few : sum w < 2 ^ 31

-- Settings that are positive, with products and a bound that are ints.
pub record IsSettings (c : LoadCtrl) : Type 0 where
  pub total : (0 < c.total_time_spin_ms) × (c.total_time_spin_ms * k_thousand < 2 ^ 31)
  pub unit : (0 < c.unit_time_spin_ms) × (c.unit_time_spin_ms * k_thousand < 2 ^ 31)
  pub max_num : (0 < c.max_num_of_all_spin) × (c.max_num_of_all_spin + 1 < 2 ^ 31)

abbrev pub Keeps : LoadCtrl → LoadCtrl → Type 0
Keeps c c' =
    (c'.total_time_spin_ms ≡ c.total_time_spin_ms)
    × (c'.unit_time_spin_ms ≡ c.unit_time_spin_ms)
    × (c'.max_num_of_all_spin ≡ c.max_num_of_all_spin)

pub Keeps-IsSettings : (c c' : LoadCtrl) → Keeps c c' → IsSettings c → IsSettings c'
Keeps-IsSettings c c' (t, u, m) settings = record {
  total = rw t settings.total;
  unit = rw u settings.unit;
  max_num = rw m settings.max_num;
}

-- A time in microseconds.
abbrev pub micros : Timeval → ℕ
micros t = t.tv_sec * 1000000 + t.tv_usec

-- The call succeeds, with this window, which starts at this time, and the same settings.
abbrev pub Slides : LoadCtrl → List ℕ → ℕ → Result LoadCtrl → Type 0
Slides c w us r =
    (c' : LoadCtrl) × (r ≡ ok c') × IsLoadCtrl c' w × Keeps c c' × (micros c'.start_time ≡ us)

length-grids : (c : LoadCtrl) (w : List ℕ) → IsLoadCtrl c w → c.grids_num ≡ length c.grids
length-grids c w valid = valid.num ∙ length-Window c.grids c.cur_grid_idx w valid.window

move_grid-Slides :
    (c : LoadCtrl) (w : List ℕ)
    → IsLoadCtrl c w
    → Slides c (0 ∷ front w) (micros c.start_time) (move_grid c)
unfolding move_grid load_grid sum
move_grid-Slides c w valid =
    let (v, y, eq, within, here, win) = Window-Next c.grids c.cur_grid_idx w valid.window in
    let total : sum (v ++ (y ∷ [])) ≡ sum v + y = omega (arith, sum-append v (y ∷ [])) in
    let small : sum (v ++ (y ∷ [])) < 2 ^ 31 = rw eq at valid.few in
    rw (eq, length-grids c w valid, lt→ltb _ (length c.grids) within, front-snoc v y)
      (
        _,
        refl,
        record {
          window = win;
          num = omega (
            arith,
            length-Window c.grids c.cur_grid_idx w valid.window,
            ap length eq,
            length-append v (y ∷ []),
          );
          spins = omega (arith, here, valid.spins, ap sum eq, total, small);
          few = omega (arith, total, small);
        },
        (refl, refl, refl),
        refl,
      )

move_grids-Slides :
    (n : ℕ) (c : LoadCtrl) (w : List ℕ)
    → IsLoadCtrl c w
    → Slides c (advance n w) (micros c.start_time) (move_grids n c)
unfolding move_grids advance
move_grids-Slides zero c w valid = (c, refl, valid, (refl, refl, refl), refl)
move_grids-Slides (suc n) c w valid =
    let (c1, runs1, valid1, (t1, u1, m1), s1) = move_grid-Slides c w valid in
    let (c2, runs2, valid2, (t2, u2, m2), s2) = move_grids-Slides n c1 (0 ∷ front w) valid1 in
    (c2, rw runs1 runs2, valid2, (t2 ∙ t1, u2 ∙ u1, m2 ∙ m1), s2 ∙ s1)

reset-IsLoadCtrl :
    (c : LoadCtrl) (w : List ℕ) (clock : Timeval)
    → IsLoadCtrl c w
    → IsLoadCtrl (reset c clock) (replicate (length w) 0)
unfolding reset
reset-IsLoadCtrl c [] clock valid =
    let (g, v, eq) = Window-cons c.grids c.cur_grid_idx [] valid.window in cc
reset-IsLoadCtrl c (g ∷ w) clock valid = record {
  window = rw (valid.num) (Window-replicate (length w));
  num = valid.num ∙ sym (length-replicate (suc (length w)) 0);
  spins = sym (sum-replicate (suc (length w)));
  few = omega (arith, sum-replicate (suc (length w)));
}

-- The microseconds from one time to another, as the 32-bit word of an int: one from 2 ^ 31 on
-- stands for a negative difference.
abbrev pub passed : Timeval → Timeval → ℕ
passed start now = (micros now + (2 ^ 32 - micros start % 2 ^ 32)) % 2 ^ 32

elapsed_lem : (now start : Timeval) → elapsed now start ≡ passed start now
unfolding elapsed
elapsed_lem now start = omega arith

later-micros : (start : Timeval) (us : ℕ) → micros (later start us) ≡ micros start + us
unfolding later
later-micros start us = elim (Bool-cases (leb 1000000 (start.tv_usec + us))) [
  | inl over ↦ rw over (omega arith)
  | inr within ↦ rw within (omega arith)
]

-- The start of the window after UpdateGrids, in microseconds: `clock` after a reset, or as many units on
-- as have passed.
unfoldable pub slide_start : LoadCtrl → Timeval → Timeval → ℕ
slide_start c now clock =
    let move_us = passed c.start_time now in
    let unit_us = c.unit_time_spin_ms * k_thousand in
    if leb (2 ^ 31) move_us || leb (c.total_time_spin_ms * k_thousand) move_us
    then micros clock
    else if ltb unit_us move_us
    then micros c.start_time + move_us / unit_us * unit_us
    else micros c.start_time

-- The window after UpdateGrids.
unfoldable pub slide : LoadCtrl → Timeval → List ℕ → List ℕ
slide c now w =
    let move_us = passed c.start_time now in
    let unit_us = c.unit_time_spin_ms * k_thousand in
    if leb (2 ^ 31) move_us || leb (c.total_time_spin_ms * k_thousand) move_us
    then replicate (length w) 0
    else if ltb unit_us move_us
    then advance (move_us / unit_us) w
    else w

pub update_grids-Slides :
    (c : LoadCtrl) (w : List ℕ) (now clock : Timeval)
    → IsLoadCtrl c w
    → IsSettings c
    → Slides c (slide c now w) (slide_start c now clock) (update_grids c now clock)
unfolding update_grids update_within slide slide_start reset
update_grids-Slides c w now clock valid settings =
    rw (elapsed_lem now c.start_time) (elim (Bool-cases (leb (2 ^ 31) (passed c.start_time now))) [
      | inl negative ↦
          rw negative
            (reset c clock, refl, reset-IsLoadCtrl c w clock valid, (refl, refl, refl), refl)
      | inr positive ↦
          rw
            (
              positive,
              lt→ltb (c.total_time_spin_ms * k_thousand) (2 ^ 31) settings.total.1,
              lt→ltb (c.unit_time_spin_ms * k_thousand) (2 ^ 31) settings.unit.1,
            )
            (elim (Bool-cases (leb (c.total_time_spin_ms * k_thousand) (passed c.start_time now))) [
              | inl over ↦
                  rw over (
                    reset c clock,
                    refl,
                    reset-IsLoadCtrl c w clock valid,
                    (refl, refl, refl),
                    refl,
                  )
              | inr within ↦
                  rw within
                    (elim (Bool-cases
                      (ltb (c.unit_time_spin_ms * k_thousand) (passed c.start_time now))) [
                        | inl moved ↦ rw moved (later_start _ _ (move_grids-Slides _ c w valid))
                        | inr kept ↦ rw kept (c, refl, valid, (refl, refl, refl), refl)
                      ])
            ])
    ])
  where
    later_start :
        (n us : ℕ)
        → Slides c (advance n w) (micros c.start_time) (move_grids n c)
        → Slides c
            (advance n w)
            (micros c.start_time + us)
            (move_grids n c >>= λ c'. ok (record c' { start_time = later c'.start_time us }))
    later_start n us (c', runs, valid', keeps, s) = rw runs (
      record c' { start_time = later c'.start_time us },
      refl,
      record { window = valid'.window; num = valid'.num; spins = valid'.spins; few = valid'.few },
      keeps,
      rw (later-micros c'.start_time us) (rw s refl),
    )

pub slide-sum : (c : LoadCtrl) (now : Timeval) (w : List ℕ) → sum (slide c now w) ≤ sum w
unfolding slide
slide-sum c now w =
    let unit_us = c.unit_time_spin_ms * k_thousand in
    elim (Bool-cases (
      leb (2 ^ 31) (passed c.start_time now)
      || leb (c.total_time_spin_ms * k_thousand) (passed c.start_time now))) [
        | inl over ↦ rw over (omega (arith, sum-replicate (length w)))
        | inr within ↦ rw within (elim (Bool-cases (ltb unit_us (passed c.start_time now))) [
          | inl moved ↦ rw moved (advance-sum (passed c.start_time now / unit_us) w)
          | inr kept ↦ rw kept (omega arith)
        ])
      ]

grids_num_of-positive : (total unit : ℕ) → 0 < total → 0 < grids_num_of total unit
unfolding grids_num_of
grids_num_of-positive total unit h = elim (ℕ_discrete (total / unit) 0) [
  | yes none ↦
      let all : total % unit ≡ total = omega (arith, rw none at (div-add-mod total unit)) in
      rw (unequal (total % unit) 0 (λ e. omega (arith, all, h))) (omega arith)
  | no some ↦ omega arith
]

replicate-IsLoadCtrl :
    (c : LoadCtrl) (n : ℕ)
    → 0 < n
    → c.grids_num ≡ n
    → c.grids ≡ replicate n 0
    → c.cur_grid_idx ≡ 0
    → c.cur_num_of_all_spin ≡ 0
    → IsLoadCtrl c (replicate n 0)
replicate-IsLoadCtrl c zero h num grids idx spins = absurd (omega arith)
replicate-IsLoadCtrl c (suc n) h num grids idx spins = record {
  window = rw (grids, idx) (Window-replicate n);
  num = num ∙ sym (length-replicate (suc n) 0);
  spins = omega (arith, spins, sum-replicate (suc n));
  few = omega (arith, sum-replicate (suc n));
}

-- A new object has a window of empty grids after Init.
pub init-Slides :
    (total unit max_num : ℕ) (clock : Timeval)
    → IsSettings (new_load_ctrl total unit max_num clock)
    → Slides
        (new_load_ctrl total unit max_num clock)
        (replicate (grids_num_of total unit) 0)
        (micros clock)
        (init (new_load_ctrl total unit max_num clock))
unfolding init new_load_ctrl
init-Slides total unit max_num clock settings =
    rw
      (
        unequal total 0 (λ e. omega (arith, settings.total.0)),
        unequal unit 0 (λ e. omega (arith, settings.unit.0)),
        unequal max_num 0 (λ e. omega (arith, settings.max_num.0)),
      )
      (
        _,
        refl,
        replicate-IsLoadCtrl _ (grids_num_of total unit)
            (grids_num_of-positive total unit settings.total.0) refl refl refl refl,
        (refl, refl, refl),
        refl,
      )

-- Modify of an object with a ring of grids leaves what C++ defines, since it frees with `delete`
-- what `new[]` gave.
pub modify-undefined :
    (c : LoadCtrl) (w : List ℕ) (total unit max_num : ℕ) (clock : Timeval)
    → IsLoadCtrl c w
    → modify c total unit max_num clock ≡ undefined
unfolding modify
modify-undefined c w total unit max_num clock valid =
    let (g, v, eq) = Window-cons c.grids c.cur_grid_idx w valid.window in
    let some : length c.grids ≢ 0 = λ none.
      omega (arith, none, length-Window c.grids c.cur_grid_idx w valid.window, ap length eq) in
    rw (unequal (length c.grids) 0 some) refl
