-- ===== src/Common/Bits.antt =====
-- Masks, shifts and exclusive or of the source as arithmetic.
use Prim.Native.Nat.{ℕ, zero, suc, ◌+◌, ◌-◌, ◌*◌, ◌/◌, ◌%◌, ◌^◌, ◌≤◌, ◌<◌, min, max}
use Prim.Native.Nat.{
  bit_and, bit_or, bit_xor, digits, differ, bit_and-bitwise, bit_or-bitwise, bit_xor-bitwise,
}
use mathlib.Core.Path.{◌≡◌, refl, ap, sym, ◌∙◌}
use native.Mathlib.Nat.{pow-le-pow_right, two-pow-succ, add-mul-mod_self_right, mod-eq_of_lt}
use mathlib.Core.Bool.{Bool, true, false}
use mathlib.Core.Logic.{ite}
use native.Mathlib.Decide.{ℕ_discrete}
use native.Mathlib.Omega.{arith}

-- Two functions agree on a range if a run over it says so.
module _ (f g : ℕ → ℕ) where
  unfoldable pub agree_below : ℕ → Bool
  unfolding ℕ_discrete
  agree_below zero = true
  agree_below (suc n) = ite (ℕ_discrete (f n) (g n)) (agree_below n) false

  pub agree_below→eq : (n : ℕ) → agree_below n ≡ true → (i : ℕ) → i < n → f i ≡ g i
  unfolding agree_below
  agree_below→eq zero e i h = absurd (omega arith)
  agree_below→eq (suc n) e i h = ground (arith, agree_below→eq n (ground arith) i)

-- The count of digits to go may be any number that is large enough.
digits_fuel :
    (z : ℕ → ℕ) (f : ℕ → ℕ → ℕ) (n m a b : ℕ) → a ≤ n → a ≤ m → digits z f n a b ≡ digits z f m a b
digits_fuel z f zero zero a b p q = refl
digits_fuel z f zero (suc m) zero b p q = refl
digits_fuel z f zero (suc m) (suc a) b p q = absurd (omega arith)
digits_fuel z f (suc n) zero zero b p q = refl
digits_fuel z f (suc n) zero (suc a) b p q = absurd (omega arith)
digits_fuel z f (suc n) (suc m) zero b p q = refl
digits_fuel z f (suc n) (suc m) (suc a) b p q =
    omega (arith, digits_fuel z f n m (suc a / 2) (b / 2) (omega arith) (omega arith))

-- The lowest digit of each operation, split off.
pub bit_and-halves : (a b : ℕ) → bit_and a b ≡ bit_and (a / 2) (b / 2) * 2 + min (a % 2) (b % 2)
bit_and-halves zero b = omega (arith, bit_and-bitwise 0 b, bit_and-bitwise 0 (b / 2))
bit_and-halves (suc a) b = omega (
  arith,
  bit_and-bitwise (suc a) b,
  bit_and-bitwise (suc a / 2) (b / 2),
  digits_fuel (λ b. zero) min a (suc a / 2) (suc a / 2) (b / 2) (omega arith) (omega arith),
)

pub bit_or-halves : (a b : ℕ) → bit_or a b ≡ bit_or (a / 2) (b / 2) * 2 + max (a % 2) (b % 2)
bit_or-halves zero b = omega (arith, bit_or-bitwise 0 b, bit_or-bitwise 0 (b / 2))
bit_or-halves (suc a) b = omega (
  arith,
  bit_or-bitwise (suc a) b,
  bit_or-bitwise (suc a / 2) (b / 2),
  digits_fuel (λ b. b) max a (suc a / 2) (suc a / 2) (b / 2) (omega arith) (omega arith),
)

bit_xor-halves : (a b : ℕ) → bit_xor a b ≡ bit_xor (a / 2) (b / 2) * 2 + differ (a % 2) (b % 2)
bit_xor-halves zero b = omega (arith, bit_xor-bitwise 0 b, bit_xor-bitwise 0 (b / 2))
bit_xor-halves (suc a) b = omega (
  arith,
  bit_xor-bitwise (suc a) b,
  bit_xor-bitwise (suc a / 2) (b / 2),
  digits_fuel (λ b. b) differ a (suc a / 2) (suc a / 2) (b / 2) (omega arith) (omega arith),
)

bit_or-zero_bounded : (n a : ℕ) → a ≤ n → bit_or a 0 ≡ a
bit_or-zero_bounded n zero h = refl
bit_or-zero_bounded zero (suc a) h = absurd (omega arith)
bit_or-zero_bounded (suc n) (suc a) h =
    omega (arith, bit_or-halves (suc a) 0, bit_or-zero_bounded n (suc a / 2) (omega arith))

pub bit_or-zero : (a : ℕ) → bit_or a 0 ≡ a
bit_or-zero a = bit_or-zero_bounded a a (omega arith)

differ_bits : (x y : ℕ) → x < 2 → y < 2 → differ x y ≡ (x + y) % 2
differ_bits zero zero h k = refl
differ_bits zero (suc zero) h k = refl
differ_bits (suc zero) zero h k = refl
differ_bits (suc zero) (suc zero) h k = refl
differ_bits zero (suc (suc y)) h k = absurd (omega arith)
differ_bits (suc zero) (suc (suc y)) h k = absurd (omega arith)
differ_bits (suc (suc x)) y h k = absurd (omega arith)

-- `x << k | y`, where `y` fits under the shift, is a sum.
pub bit_or-disjoint : (k a r : ℕ) → r < 2 ^ k → bit_or (a * 2 ^ k) r ≡ a * 2 ^ k + r
bit_or-disjoint zero a r h =
    let none_below : r ≡ 0 = omega arith in rw none_below (omega (arith, bit_or-zero (a * 1)))
bit_or-disjoint (suc k) a r h =
    let doubled : a * 2 ^ suc k ≡ a * 2 ^ k * 2 =
      omega (arith, ap (λ (t : ℕ). a * t) (two-pow-succ k)) in
    let halved : bit_or (a * 2 ^ k * 2 / 2) (r / 2) ≡ bit_or (a * 2 ^ k) (r / 2) =
      ap (λ (t : ℕ). bit_or t (r / 2)) (omega arith) in
    rw doubled (
      omega (
        arith,
        bit_or-halves (a * 2 ^ k * 2) r,
        halved,
        bit_or-disjoint k a (r / 2) (omega (arith, two-pow-succ k)),
      ))

bit_and-zero_bounded : (n a : ℕ) → a ≤ n → bit_and a 0 ≡ 0
bit_and-zero_bounded n zero h = refl
bit_and-zero_bounded zero (suc a) h = absurd (omega arith)
bit_and-zero_bounded (suc n) (suc a) h =
    omega (arith, bit_and-halves (suc a) 0, bit_and-zero_bounded n (suc a / 2) (omega arith))

bit_and-zero : (a : ℕ) → bit_and a 0 ≡ 0
bit_and-zero a = bit_and-zero_bounded a a (omega arith)

pub bit_and_ones<power : (k x : ℕ) → bit_and x (2 ^ k - 1) < 2 ^ k
bit_and_ones<power zero x = omega (arith, bit_and-zero x)
bit_and_ones<power (suc k) x =
    let half : (2 ^ suc k - 1) / 2 ≡ 2 ^ k - 1 = omega (arith, two-pow-succ k) in
    let halved : bit_and (x / 2) ((2 ^ suc k - 1) / 2) ≡ bit_and (x / 2) (2 ^ k - 1) =
      ap (λ (t : ℕ). bit_and (x / 2) t) half in
    omega (
      arith,
      two-pow-succ k,
      bit_and-halves x (2 ^ suc k - 1),
      halved,
      bit_and_ones<power k (x / 2),
    )

bit_and_ones-parts : (k x : ℕ) → (q : ℕ) × (x ≡ bit_and x (2 ^ k - 1) + q * 2 ^ k)
bit_and_ones-parts zero x = (x, omega (arith, bit_and-zero x))
bit_and_ones-parts (suc k) x =
    let (q, e) = bit_and_ones-parts k (x / 2) in
    let half : (2 ^ suc k - 1) / 2 ≡ 2 ^ k - 1 = omega (arith, two-pow-succ k) in
    let halved : bit_and (x / 2) ((2 ^ suc k - 1) / 2) ≡ bit_and (x / 2) (2 ^ k - 1) =
      ap (λ (t : ℕ). bit_and (x / 2) t) half in
    let twice : q * 2 ^ suc k ≡ 2 * (q * 2 ^ k) =
      ap (λ (t : ℕ). q * t) (two-pow-succ k) ∙ omega arith in
    (
      q,
      omega (
        arith,
        two-pow-succ k,
        bit_and-halves x (2 ^ suc k - 1),
        halved,
        twice,
        e,
        pow-le-pow_right {n = 2} (omega arith) {i = 0} {j = k} (omega arith),
      ),
    )

-- A mask of ones keeps the low bits.
pub bit_and_ones_lem : (k x : ℕ) → bit_and x (2 ^ k - 1) ≡ x % 2 ^ k
bit_and_ones_lem k x =
    let (q, e) = bit_and_ones-parts k x in
    let low = bit_and x (2 ^ k - 1) in
    sym (
      ap (λ (t : ℕ). t % 2 ^ k) e
      ∙ add-mul-mod_self_right low q (2 ^ k)
      ∙ mod-eq_of_lt (bit_and_ones<power k x))

-- `a & 1` and `a & 0x7f`.
pub bit_and-one : (a : ℕ) → bit_and a 1 ≡ a % 2
bit_and-one a = omega (arith, bit_and-halves a 1, bit_and-zero (a / 2))

low_three_bits : (a : ℕ) → bit_and a 7 ≡ a % 8
low_three_bits a =
    omega (arith, bit_and-halves a 7, bit_and-halves (a / 2) 3, bit_and-one (a / 2 / 2))

pub low_seven_bits : (a : ℕ) → bit_and a 0x7f ≡ a % 128
low_seven_bits a = omega (
  arith,
  bit_and-halves a 127,
  bit_and-halves (a / 2) 63,
  bit_and-halves (a / 2 / 2) 31,
  bit_and-halves (a / 2 / 2 / 2) 15,
  low_three_bits (a / 2 / 2 / 2 / 2),
)

-- `x ^ ~0` in k bits takes x from the largest number.
pub bit_xor-ones : (k x : ℕ) → x < 2 ^ k → bit_xor x (2 ^ k - 1) + x + 1 ≡ 2 ^ k
bit_xor-ones zero x h = let none_below : x ≡ 0 = omega arith in rw none_below refl
bit_xor-ones (suc k) x h =
    let half : (2 ^ suc k - 1) / 2 ≡ 2 ^ k - 1 = omega (arith, two-pow-succ k) in
    omega (
      arith,
      two-pow-succ k,
      bit_xor-halves x (2 ^ suc k - 1),
      ap (λ (t : ℕ). bit_xor (x / 2) t) half,
      differ_bits (x % 2) ((2 ^ suc k - 1) % 2),
      bit_xor-ones k (x / 2) (omega (arith, two-pow-succ k)),
    )

bit_xor-zero_bounded : (n x : ℕ) → x ≤ n → bit_xor x 0 ≡ x
bit_xor-zero_bounded n zero h = refl
bit_xor-zero_bounded zero (suc x) h = absurd (omega arith)
bit_xor-zero_bounded (suc n) (suc x) h = omega (
  arith,
  bit_xor-halves (suc x) 0,
  differ_bits (suc x % 2) 0,
  bit_xor-zero_bounded n (suc x / 2) (omega arith),
)

pub bit_xor-zero : (x : ℕ) → bit_xor x 0 ≡ x
bit_xor-zero x = bit_xor-zero_bounded x x (omega arith)
