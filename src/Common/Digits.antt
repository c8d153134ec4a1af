-- ===== src/Common/Digits.antt =====
-- Masks that take, set and clear one binary digit of a number.
use Prim.Native.Nat.{ℕ, zero, suc, ◌+◌, ◌-◌, ◌*◌, ◌/◌, ◌%◌, ◌^◌, ◌≤◌, ◌<◌, bit_and, bit_or}
use mathlib.Core.Path.{◌≡◌, refl, ap}
use mathlib.Core.Logic.{◌≢◌}
use native.Mathlib.Omega.{arith}
use csutil.Common.Bits.{bit_and-halves, bit_or-halves, bit_or-zero, bit_and-one}
use native.Mathlib.Nat.{two-pow-succ}

-- The k-th binary digit.
unfoldable pub digit : ℕ → ℕ → ℕ
digit x zero = x % 2
digit x (suc k) = digit (x / 2) k

pub digit<two : (x k : ℕ) → digit x k < 2
unfolding digit
digit<two x zero = omega arith
digit<two x (suc k) = digit<two (x / 2) k

double_half : (k : ℕ) → 2 ^ suc k / 2 ≡ 2 ^ k
double_half k = omega (arith, two-pow-succ k)

-- `byte & (1 << k)`.
pub bit_and-power : (k x : ℕ) → bit_and x (2 ^ k) ≡ digit x k * 2 ^ k
unfolding digit
bit_and-power zero x = omega (arith, bit_and-one x)
bit_and-power (suc k) x = omega (
  arith,
  bit_and-halves x (2 ^ suc k),
  ap (λ (t : ℕ). bit_and (x / 2) t) (double_half k),
  bit_and-power k (x / 2),
  two-pow-succ k,
  ap (λ (t : ℕ). digit (x / 2) k * t) (two-pow-succ k),
)

or_half : (x k : ℕ) → bit_or x (2 ^ suc k) / 2 ≡ bit_or (x / 2) (2 ^ k)
or_half x k = omega (
  arith,
  bit_or-halves x (2 ^ suc k),
  ap (λ (t : ℕ). bit_or (x / 2) t) (double_half k),
  two-pow-succ k,
)

or_low : (x k : ℕ) → bit_or x (2 ^ suc k) % 2 ≡ x % 2
or_low x k = omega (arith, bit_or-halves x (2 ^ suc k), two-pow-succ k)

-- `byte | (1 << k)`.
pub digit-set_self : (k x : ℕ) → digit (bit_or x (2 ^ k)) k ≡ 1
unfolding digit
digit-set_self zero x = omega (arith, bit_or-halves x 1)
digit-set_self (suc k) x = rw (or_half x k) (digit-set_self k (x / 2))

pub digit-set_ne : (k m x : ℕ) → k ≢ m → digit (bit_or x (2 ^ k)) m ≡ digit x m
unfolding digit
digit-set_ne zero zero x ne = absurd (ne refl)
digit-set_ne zero (suc m) x ne =
    ap (λ (t : ℕ). digit t m) (omega (arith, bit_or-halves x 1, bit_or-zero (x / 2)))
digit-set_ne (suc k) zero x ne = or_low x k
digit-set_ne (suc k) (suc m) x ne = rw (or_half x k) (digit-set_ne k m (x / 2) (λ e. ne (ap suc e)))

-- All the digits but the k-th, in w digits.
abbrev all_but : ℕ → ℕ → ℕ
all_but w k = 2 ^ w - 1 - 2 ^ k

and_half :
    (x w k : ℕ) → k < w → bit_and x (all_but (suc w) (suc k)) / 2 ≡ bit_and (x / 2) (all_but w k)
and_half x w k h =
    let half : all_but (suc w) (suc k) / 2 ≡ all_but w k =
      omega (arith, two-pow-succ k, two-pow-succ w) in
    omega
      (arith, bit_and-halves x (all_but (suc w) (suc k)), ap (λ (t : ℕ). bit_and (x / 2) t) half)

pub power_le : (k w : ℕ) → k < w → 2 ^ k + 1 ≤ 2 ^ w
power_le zero zero h = absurd (omega arith)
power_le zero (suc zero) h = omega arith
power_le zero (suc (suc w)) h =
    omega (arith, power_le zero (suc w) (omega arith), two-pow-succ (suc w))
power_le (suc k) zero h = absurd (omega arith)
power_le (suc k) (suc w) h =
    omega (arith, power_le k w (omega arith), two-pow-succ k, two-pow-succ w)

and_low : (x w k : ℕ) → k < w → bit_and x (all_but (suc w) (suc k)) % 2 ≡ x % 2
and_low x w k h = omega (
  arith,
  bit_and-halves x (all_but (suc w) (suc k)),
  two-pow-succ k,
  two-pow-succ w,
  power_le k w h,
)

-- `byte & ~(1 << k)`.
pub digit-clear_self : (k w x : ℕ) → k < w → digit (bit_and x (all_but w k)) k ≡ 0
unfolding digit
digit-clear_self zero zero x h = absurd (omega arith)
digit-clear_self zero (suc w) x h =
    omega (arith, bit_and-halves x (all_but (suc w) 0), two-pow-succ w, power_le 0 (suc w) h)
digit-clear_self (suc k) zero x h = absurd (omega arith)
digit-clear_self (suc k) (suc w) x h =
    rw (and_half x w k (omega arith)) (digit-clear_self k w (x / 2) (omega arith))

ones_half : (w x : ℕ) → bit_and x (2 ^ suc w - 1) / 2 ≡ bit_and (x / 2) (2 ^ w - 1)
ones_half w x =
    let half : (2 ^ suc w - 1) / 2 ≡ 2 ^ w - 1 = omega (arith, two-pow-succ w) in
    omega (arith, bit_and-halves x (2 ^ suc w - 1), ap (λ (t : ℕ). bit_and (x / 2) t) half)

digit-ones : (w m x : ℕ) → m < w → digit (bit_and x (2 ^ w - 1)) m ≡ digit x m
unfolding digit
digit-ones zero m x h = absurd (omega arith)
digit-ones (suc w) zero x h =
    omega
      (arith, bit_and-halves x (2 ^ suc w - 1), two-pow-succ w, power_le 0 (suc w) (omega arith))
digit-ones (suc w) (suc m) x h = rw (ones_half w x) (digit-ones w m (x / 2) (omega arith))

clear_lowest : (w x : ℕ) → bit_and x (all_but (suc w) 0) / 2 ≡ bit_and (x / 2) (2 ^ w - 1)
clear_lowest w x =
    let half : all_but (suc w) 0 / 2 ≡ 2 ^ w - 1 = omega (arith, two-pow-succ w) in
    omega (arith, bit_and-halves x (all_but (suc w) 0), ap (λ (t : ℕ). bit_and (x / 2) t) half)

pub digit-clear_ne :
    (k m w x : ℕ) → k < w → m < w → k ≢ m → digit (bit_and x (all_but w k)) m ≡ digit x m
unfolding digit
digit-clear_ne zero zero w x h b ne = absurd (ne refl)
digit-clear_ne k m zero x h b ne = absurd (omega arith)
digit-clear_ne zero (suc m) (suc w) x h b ne =
    rw (clear_lowest w x) (digit-ones w m (x / 2) (omega arith))
digit-clear_ne (suc k) zero (suc w) x h b ne = and_low x w k (omega arith)
digit-clear_ne (suc k) (suc m) (suc w) x h b ne =
    rw (and_half x w k (omega arith))
      (digit-clear_ne k m w (x / 2) (omega arith) (omega arith) (λ e. ne (ap suc e)))
