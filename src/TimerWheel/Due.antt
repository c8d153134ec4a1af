-- ===== src/TimerWheel/Due.antt =====
-- The wheel of base/algo.cc as a function from the number of ticks to go to the tasks that are due.
use csutil.Common.{ℕ, zero, suc, ◌+◌, ◌-◌, ◌%◌, ◌^◌, ◌<◌, ◌≤◌, ◌≡◌, refl, sym, ap, ◌∙◌, arith}
use csutil.Common.{if◌then◌else◌, List, [], ◌∷◌, ◌++◌, length, get_or}
use csutil.Common.{◌⊎◌, inl, inr, length-set, get_or-set_self, get_or-set_ne}
use native.Mathlib.Decide.{dec_lt}
use native.Mathlib.Nat.{mod-lt, mod-eq_of_lt, mod-eq-sub-mod, mod-add-mod, add-mod-mod}
use csutil.Common.{ltb, lt→ltb, ltb-false, length-replicate}
use csutil.TimerWheel.{TimerWheel, k_min_size, new_timer_wheel, add_timer, tick, ticks}

module _ {ℓ} {A : Type ℓ} where
  pub record IsWheel (w : TimerWheel A) : Type ℓ where
    pub slots : length w.wheel ≡ w.size
    pub current : w.current_slot < w.size

  -- The tasks that run in the tick after `k` others.
  abbrev pub due : TimerWheel A → ℕ → List A
  due w k = get_or w.wheel ((w.current_slot + k) % w.size) []

round_cases :
    (n c k : ℕ)
    → c < n
    → k < n
    → ((c + k < n) × ((c + k) % n ≡ c + k)) ⊎ ((n ≤ c + k) × ((c + k) % n ≡ c + k - n))
round_cases n c k hc hk = elim (dec_lt (c + k) n) [
  | yes below ↦ inl (below, mod-eq_of_lt below)
  | no above ↦ inr (omega arith, mod-eq-sub-mod (omega arith) ∙ mod-eq_of_lt (omega arith))
]

-- Two ticks less than a round apart use different slots.
slot_inj : (n c j k : ℕ) → c < n → j < n → k < n → (c + j) % n ≡ (c + k) % n → j ≡ k
slot_inj n c j k hc hj hk e = elim (round_cases n c j hc hj) [
  | inl (a, ea) ↦ elim (round_cases n c k hc hk) [
    | inl (b, eb) ↦ omega (arith, e, ea, eb)
    | inr (b, eb) ↦ omega (arith, e, ea, eb, a, b)
  ]
  | inr (a, ea) ↦ elim (round_cases n c k hc hk) [
    | inl (b, eb) ↦ omega (arith, e, ea, eb, a, b)
    | inr (b, eb) ↦ omega (arith, e, ea, eb, a, b)
  ]
]

slot_zero : (n c : ℕ) → c < n → (c + 0) % n ≡ c
slot_zero n c h = ap (λ a. a % n) (omega arith) ∙ mod-eq_of_lt h

module _ {ℓ} {A : Type ℓ} (w : TimerWheel A) (valid : IsWheel w) where
  pub tick-IsWheel : IsWheel ((tick w).1)
  unfolding tick
  tick-IsWheel = record {
    slots = length-set w.wheel w.current_slot [] ∙ valid.slots;
    current = mod-lt (w.current_slot + 1) (omega (arith, valid.current));
  }

  pub tick-now : (tick w).0 ≡ due w 0
  unfolding tick
  tick-now = ap (λ i. get_or w.wheel i []) (sym (slot_zero w.size w.current_slot valid.current))

  pub due-tick : (k : ℕ) → k + 1 < w.size → due ((tick w).1) k ≡ due w (k + 1)
  unfolding tick
  due-tick k h =
      let moved : ((w.current_slot + 1) % w.size + k) % w.size
          ≡ (w.current_slot + (k + 1)) % w.size =
        mod-add-mod (w.current_slot + 1) w.size k ∙ ap (λ a. a % w.size) (omega arith) in
      rw moved (
        get_or-set_ne w.wheel w.current_slot ((w.current_slot + (k + 1)) % w.size) [] [] (λ e.
          let again : k + 1 ≡ 0 =
            slot_inj w.size w.current_slot (k + 1) 0 valid.current h (omega arith)
              (sym e ∙ sym (slot_zero w.size w.current_slot valid.current)) in
          omega (arith, again)))

  module _ (timeout : ℕ) (task : A) (fits : w.current_slot + timeout < 2 ^ 32) where
    slot_at :
        ((w.current_slot + timeout) % 2 ^ 32) % w.size
        ≡ (w.current_slot + timeout % w.size) % w.size
    slot_at =
        ap (λ a. a % w.size) (mod-eq_of_lt fits) ∙ sym (add-mod-mod w.current_slot timeout w.size)

    pub add_timer-IsWheel : IsWheel (add_timer w timeout task)
    unfolding add_timer
    add_timer-IsWheel = record {
      slots = length-set w.wheel _ _ ∙ valid.slots;
      current = valid.current;
    }

    pub due-add_timer :
        due (add_timer w timeout task) (timeout % w.size) ≡ due w (timeout % w.size) ++ (task ∷ [])
    unfolding add_timer
    due-add_timer =
        let slot = (w.current_slot + timeout % w.size) % w.size in
        let less : slot < length w.wheel =
          rw valid.slots
            (mod-lt (w.current_slot + timeout % w.size) (omega (arith, valid.current))) in
        rw slot_at (get_or-set_self w.wheel slot (get_or w.wheel slot [] ++ (task ∷ [])) [] less)

tick_size {ℓ} : {A : Type ℓ} (w : TimerWheel A) → (tick w).1.size ≡ w.size
unfolding tick
tick_size w = refl

due-ticks {ℓ} :
    {A : Type ℓ} (n : ℕ) (w : TimerWheel A)
    → IsWheel w
    → n < w.size
    → IsWheel (ticks n w) × ((tick (ticks n w)).0 ≡ due w n)
unfolding ticks
due-ticks zero w valid h = (valid, tick-now w valid)
due-ticks (suc n) w valid h =
    let (valid', now) =
      due-ticks n ((tick w).1) (tick-IsWheel w valid) (omega (arith, h, tick_size w)) in
    (valid', now ∙ due-tick w valid n (omega arith) ∙ ap (due w) (omega arith))

-- A wheel is well formed after its constructor.
pub new_timer_wheel-IsWheel {ℓ} : {A : Type ℓ} (size : ℕ) → IsWheel (new_timer_wheel {A = A} size)
unfolding new_timer_wheel
new_timer_wheel-IsWheel size = record {
  slots = length-replicate (if ltb k_min_size size then size else k_min_size) [];
  current = elim (dec_lt k_min_size size) [
    | yes more ↦ rw (lt→ltb k_min_size size more) (omega (arith, more))
    | no fewer ↦ rw (ltb-false k_min_size size (omega arith)) (omega arith)
  ];
}

-- On a well-formed wheel, a timer whose timeout does not make the 32-bit sum with the slot overflow runs
-- its task, behind those that are due then, in the tick that comes after as many others as the timeout
-- has above a multiple of the wheel's size: a timeout of the size or more fires early.
pub add_timer-fires {ℓ} :
    {A : Type ℓ} (w : TimerWheel A) (timeout : ℕ) (task : A)
    → IsWheel w
    → w.current_slot + timeout < 2 ^ 32
    → (tick (ticks (timeout % w.size) (add_timer w timeout task))).0
      ≡ due w (timeout % w.size) ++ (task ∷ [])
unfolding add_timer
add_timer-fires w timeout task valid fits =
    (due-ticks (timeout % w.size) (add_timer w timeout task)
      (add_timer-IsWheel w valid timeout task fits)
      (mod-lt timeout (omega (arith, valid.current)))).1
    ∙ due-add_timer w valid timeout task fits
