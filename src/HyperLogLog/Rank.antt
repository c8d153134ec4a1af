-- ===== src/HyperLogLog/Rank.antt =====
-- RHO of base/algo.h.
use csutil.Common.{ℕ, zero, suc, ◌+◌, ◌-◌, ◌*◌, ◌/◌, ◌^◌, ◌<◌, ◌≤◌, ◌≡◌, ◌≢◌, refl, arith}
use csutil.Common.{unequal, ltb-false}
use native.Mathlib.Decide.{ℕ_discrete, dec_lt}
use native.Mathlib.Nat.{pow-le-pow_right, two-pow-succ}
use csutil.HyperLogLog.{bit_length, rho}

-- The place of the first 1 in a word of `n` bits, counted from 1, or `n + 1` if there is none.
pub record IsRank (w n r : ℕ) : Type 0 where
  pub place : (1 ≤ r) × (r ≤ n + 1)
  pub zeros_before : w < 2 ^ (n + 1 - r)
  pub first_one : 2 ^ (n + 1 - r) ≤ 2 * w + 1

bit_length-zero : (fuel : ℕ) → bit_length fuel 0 ≡ 0
unfolding bit_length
bit_length-zero zero = refl
bit_length-zero (suc fuel) = refl

bit_length_lem :
    (fuel w : ℕ)
    → w ≢ 0
    → w < 2 ^ fuel
    → (w < 2 ^ bit_length fuel w) × (2 ^ bit_length fuel w ≤ 2 * w)
unfolding bit_length
bit_length_lem zero w h k = absurd (h (omega (arith, k)))
bit_length_lem (suc fuel) w h k = elim (ℕ_discrete (w / 2) 0) [
  | yes last ↦
      let half : 1 / 2 ≡ 0 = refl in
      let one : w ≡ 1 = omega (arith, last, h) in
      rw (one, bit_length-zero fuel) (omega arith, omega arith)
  | no more ↦
      let bound : w / 2 < 2 ^ fuel = omega (arith, two-pow-succ fuel, k) in
      let (below, above) = bit_length_lem fuel (w / 2) more bound in
      let n = bit_length fuel (w / 2) in
      let next : n + 1 ≡ suc n = omega arith in
      rw (unequal w 0 h, next, two-pow-succ n) (omega (arith, below), omega (arith, above))
]

pub rho-IsRank : (w n : ℕ) → 0 < n → n ≤ 64 → w < 2 ^ n → IsRank w n (rho w n)
unfolding rho
rho-IsRank w n h k small = elim (ℕ_discrete w 0) [
  | yes none ↦
      let nothing : n + 1 - (n + 1) ≡ 0 = omega arith in
      rw (none, unequal n 0 (λ e. omega (arith, e, h)), ltb-false 64 n k)
        (record {
          place = (omega arith, omega arith);
          zeros_before = rw nothing (omega arith);
          first_one = rw nothing (omega arith);
        })
  | no some ↦
      let wide : w < 2 ^ 64 = omega (arith, small, pow-le-pow_right {n = 2} (omega arith) k) in
      let (below, above) = bit_length_lem 64 w some wide in
      let len = bit_length 64 w in
      let short : len ≤ n = elim (dec_lt n len) [
        | yes long ↦ absurd (
            omega (
              arith,
              above,
              small,
              two-pow-succ n,
              pow-le-pow_right {n = 2} (omega arith) {i = suc n} {j = len} (omega (arith, long)),
            ))
        | no fits ↦ omega (arith, fits)
      ] in
      let above_lem : 64 - len + n + 1 - 64 ≡ n + 1 - len = omega (arith, short, k) in
      let back : n + 1 - (n + 1 - len) ≡ len = omega (arith, short) in
      rw
        (
          unequal n 0 (λ e. omega (arith, e, h)),
          ltb-false 64 n k,
          unequal w 0 some,
          ltb-false (64 - len + n + 1) 65 (omega (arith, short, k)),
          above_lem,
          ltb-false (n + 1) (n + 1 - len) (omega arith),
        )
        (record {
          place = (omega (arith, short), omega arith);
          zeros_before = rw back below;
          first_one = rw back (omega (arith, above));
        })
]
