-- ===== src/LoadCtrl/Flow.antt =====
-- CheckFlow of base/load_ctrl.cc counts the requests of a sliding window.
use csutil.Common.{ℕ, ◌+◌, ◌-◌, ◌%◌, ◌^◌, ◌<◌, ◌≤◌, ◌≡◌, refl, ◌∙◌, arith}
use csutil.Common.{ltb, if◌then◌else◌, Bool, false}
use csutil.Common.{lt→ltb, ltb-false, unequal}
use csutil.Common.{List, [], ◌∷◌, length}
use native.Mathlib.Decide.{dec_lt}
use csutil.Common.Status.{Result, ok, ◌>>=◌}
use csutil.LoadCtrl.{LoadCtrl, Timeval, load_grid}
use csutil.LoadCtrl.{count_request, check_flow}
use csutil.LoadCtrl.Window.{sum, Window-current}
use csutil.LoadCtrl.Window.{Window-cons}
use csutil.LoadCtrl.Slide.{
  IsLoadCtrl, IsSettings, Keeps, Slides, micros, slide, slide_start, update_grids-Slides, slide-sum,
}

unfoldable pub count : List ℕ → List ℕ
count [] = []
count (g ∷ w) = (g + 1) ∷ w

count_request-Slides :
    (c : LoadCtrl) (w : List ℕ)
    → IsLoadCtrl c w
    → sum w + 1 < 2 ^ 31
    → Slides c (count w) (micros c.start_time) (count_request c)
unfolding count_request load_grid count sum
count_request-Slides c [] valid small =
    let (g, v, eq) = Window-cons c.grids c.cur_grid_idx [] valid.window in cc
count_request-Slides c (g ∷ w) valid small =
    let (within, here, change) = Window-current c.grids c.cur_grid_idx g w valid.window in
    let next : (g + 1) % 2 ^ 32 ≡ g + 1 = omega (arith, small) in
    rw
      (
        lt→ltb c.cur_grid_idx (length c.grids) within,
        here,
        unequal g (2 ^ 31 - 1) (λ e. omega (arith, small)),
        unequal c.cur_num_of_all_spin (2 ^ 31 - 1) (λ e. omega (arith, small, valid.spins)),
        next,
      )
      (
        _,
        refl,
        record {
          window = change (g + 1);
          num = valid.num;
          spins = omega (arith, valid.spins, small);
          few = omega (arith, small);
        },
        (refl, refl, refl),
        refl,
      )

-- The reply, the window and its start after CheckFlow.
abbrev pub Checks : LoadCtrl → List ℕ → ℕ → Result (LoadCtrl × Bool) → Type 0
Checks c w us r =
    let full = ltb c.max_num_of_all_spin (sum w) in
    (c' : LoadCtrl) × (r ≡ ok (c', full))
    × IsLoadCtrl c' (if full then w else count w)
    × Keeps c c'
    × (micros c'.start_time ≡ us)

pub check_flow-Checks :
    (c : LoadCtrl) (w : List ℕ) (now clock : Timeval)
    → IsLoadCtrl c w
    → IsSettings c
    → Checks c (slide c now w) (slide_start c now clock) (check_flow c now clock)
unfolding check_flow
check_flow-Checks c w now clock valid settings =
    let (c', runs, valid', (t, u, m), s) = update_grids-Slides c w now clock valid settings in
    rw
      (
        unequal c.total_time_spin_ms 0 (λ e. omega (arith, settings.total.0)),
        unequal c.unit_time_spin_ms 0 (λ e. omega (arith, settings.unit.0)),
        unequal c.max_num_of_all_spin 0 (λ e. omega (arith, settings.max_num.0)),
        runs,
        valid'.spins,
        m,
        lt→ltb (sum (slide c now w)) (2 ^ 31) valid'.few,
      )
      (elim (dec_lt c.max_num_of_all_spin (sum (slide c now w))) [
        | yes full ↦
            rw (lt→ltb c.max_num_of_all_spin (sum (slide c now w)) full)
              (c', refl, valid', (t, u, m), s)
        | no room ↦
            let small : sum (slide c now w) + 1 < 2 ^ 31 = omega (arith, settings.max_num.1) in
            rw (ltb-false c.max_num_of_all_spin (sum (slide c now w)) (omega arith)) (
              counted c' (slide c now w) (count_request-Slides c' (slide c now w) valid' small)
                (t, u, m) s)
      ])
  where
    counted :
        (c' : LoadCtrl) (w : List ℕ)
        → Slides c' (count w) (micros c'.start_time) (count_request c')
        → Keeps c c'
        → micros c'.start_time ≡ slide_start c now clock
        → (c'' : LoadCtrl) × (◌>>=◌ {B = LoadCtrl × Bool}
              (count_request c')
              (λ c''. ok (c'', false))
            ≡ ok (c'', false))
          × IsLoadCtrl c'' (count w)
          × Keeps c c''
          × (micros c''.start_time ≡ slide_start c now clock)
    counted c' w (c'', runs, valid'', (t', u', m'), s') (t, u, m) s =
        (c'', rw runs refl, valid'', (t' ∙ t, u' ∙ u, m' ∙ m), s' ∙ s)

sum-count : (w : List ℕ) → sum (count w) ≤ sum w + 1
unfolding count sum
sum-count [] = omega arith
sum-count (g ∷ w) = omega arith

check_sum :
    (max_num : ℕ) (w : List ℕ)
    → sum w ≤ max_num + 1
    → sum (if ltb max_num (sum w) then w else count w) ≤ max_num + 1
check_sum max_num w few = elim (dec_lt max_num (sum w)) [
  | yes full ↦ rw (lt→ltb max_num (sum w) full) few
  | no room ↦ rw (ltb-false max_num (sum w) (omega arith)) (omega (arith, sum-count w))
]

-- With legal settings, CheckFlow never leaves more than the maximum and one requests in the
-- window, if there were no more before.
pub check_flow_bound :
    (c : LoadCtrl) (w : List ℕ) (now clock : Timeval)
    → IsLoadCtrl c w
    → IsSettings c
    → sum w ≤ c.max_num_of_all_spin + 1
    → (c' : LoadCtrl) × (full : Bool) × (w' : List ℕ) × (check_flow c now clock ≡ ok (c', full))
      × IsLoadCtrl c' w'
      × (sum w' ≤ c'.max_num_of_all_spin + 1)
check_flow_bound c w now clock valid settings few =
    let (c', runs, valid', (t, u, m), s) = check_flow-Checks c w now clock valid settings in
    let less = slide-sum c now w in
    (
      c',
      _,
      _,
      runs,
      valid',
      rw m (check_sum c.max_num_of_all_spin (slide c now w) (omega (arith, less, few))),
    )
