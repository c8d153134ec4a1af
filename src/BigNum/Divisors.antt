-- ===== src/BigNum/Divisors.antt =====
-- GCD and LCM of base/int.cc.
use csutil.Common.{ℕ, zero, suc, ◌+◌, ◌*◌, ◌/◌, ◌%◌, ◌^◌, ◌<◌, ◌≤◌, ◌≡◌, refl, sym, ap, ◌∙◌, arith}
use csutil.Common.{unequal}
use csutil.Common.Status.{ok}
use csutil.BigNum.{gcd_loop, gcd, lcm}
use Prim.Native.Nat.{◌∣◌}
use mathlib.Core.Path.{subst}
use native.Mathlib.Decide.{ℕ_discrete}
use native.Mathlib.Nat

abbrev pub IsGcd : ℕ → ℕ → ℕ → Type 0
IsGcd g a b = (g ∣ a) × (g ∣ b) × ((d : ℕ) → d ∣ a → d ∣ b → d ∣ g)

abbrev pub IsLcm : ℕ → ℕ → ℕ → Type 0
IsLcm m a b = (a ∣ m) × (b ∣ m) × ((c : ℕ) → a ∣ c → b ∣ c → m ∣ c)

-- A common divisor, of which every common divisor of the multiples by c divides the multiple.
abbrev Divides : ℕ → ℕ → ℕ → Type 0
Divides g a b = (0 < g) × (g ∣ a) × (g ∣ b) × ((c k : ℕ) → k ∣ a * c → k ∣ b * c → k ∣ g * c)

multiple_of_rest : (k a b c : ℕ) → k ∣ a * c → k ∣ b * c → k ∣ a % b * c
multiple_of_rest k a b c ha hb =
    (Nat.dvd-add_iff_right k (Nat.dvd-mul_left_of_dvd k hb (a / b))).1 (subst (λ n. k ∣ n) parts ha)
  where
    parts : a * c ≡ a / b * (b * c) + a % b * c
    parts = grind (arith, Nat.div-add-mod a b)

gcd_loop-Divides :
    (rounds a b : ℕ) → 0 < b → b ≤ rounds → (g : ℕ) × (gcd_loop rounds a b ≡ ok g) × Divides g a b
unfolding gcd_loop
gcd_loop-Divides zero a b p h = absurd (omega (arith, p, h))
gcd_loop-Divides (suc rounds) a b p h = elim (ℕ_discrete (a % b) 0) [
  | yes done ↦
      (b, rw done refl, (p, Nat.dvd_of_mod-eq-zero b done, Nat.dvd_refl b, λ c k ha hb. hb))
  | no more ↦
      let (g, e, (q, gb, gr, most)) =
        gcd_loop-Divides rounds b (a % b) (omega (arith, more))
          (omega (arith, h, Nat.mod-lt a p)) in
      (
        g,
        rw (unequal (a % b) 0 more) e,
        (
          q,
          (Nat.dvd-mod_iff g gb).0 gr,
          gb,
          λ c k ha hb. most c k hb (multiple_of_rest k a b c ha hb),
        ),
      )
]

one_or_more : (a b : ℕ) → 0 < a → 0 < b → (g : ℕ) × (gcd a b ≡ ok g) × Divides g a b
unfolding gcd
one_or_more a b p q = elim (ℕ_discrete a 1) [
  | yes one ↦ (
    1,
    rw (one, unequal b 0 (omega (arith, q))) refl,
    (omega arith, Nat.one-dvd a, Nat.one-dvd b, λ c k ha hb. subst (λ n. k ∣ n * c) one ha),
  )
  | no more ↦ elim (ℕ_discrete b 1) [
    | yes one ↦ (
      1,
      rw (unequal a 0 (omega (arith, p)), unequal a 1 more, one) refl,
      (omega arith, Nat.one-dvd a, Nat.one-dvd b, λ c k ha hb. subst (λ n. k ∣ n * c) one hb),
    )
    | no other ↦
        rw
          (
            unequal a 0 (omega (arith, p)),
            unequal b 0 (omega (arith, q)),
            unequal a 1 more,
            unequal b 1 other,
          )
          (gcd_loop-Divides b a b q (omega arith))
  ]
]

times_one : (k n : ℕ) → k ∣ n → k ∣ n * 1
times_one k n h = Nat.dvd-mul_right_of_dvd k h 1

-- GCD of two positive numbers ends, with a common divisor that every common divisor divides.
pub gcd-IsGcd : (a b : ℕ) → 0 < a → 0 < b → (g : ℕ) × (gcd a b ≡ ok g) × IsGcd g a b
gcd-IsGcd a b p q =
    let (g, e, (r, ga, gb, most)) = one_or_more a b p q in
    (
      g,
      e,
      (
        ga,
        gb,
        λ d da db.
            subst (λ n. d ∣ n) (Nat.mul-one g) (most 1 d (times_one d a da) (times_one d b db)),
      ),
    )

-- The product over a common divisor that is as big as Divides says.
quotient-IsLcm : (g a b : ℕ) → Divides g a b → IsLcm (a * b / g) a b
quotient-IsLcm g a b (p, ga, gb, most) =
    let product : g * (a * b / g) ≡ a * b =
      Nat.mul-div_cancel' g (Nat.dvd-mul_right_of_dvd g ga b) in
    (
      subst (λ n. a ∣ n) (sym (Nat.mul-div_assoc g a gb)) (Nat.dvd-mul_right a (b / g)),
      subst (λ n. b ∣ n) (sym (ap (λ n. n / g) (Nat.mul_comm a b) ∙ Nat.mul-div_assoc g b ga))
          (Nat.dvd-mul_right b (a / g)),
      λ c ca cb. Nat.dvd_of_mul-dvd-mul_left (a * b / g) p (
          subst (λ n. n ∣ g * c) (sym product)
            (most c (a * b) (Nat.mul-dvd-mul_left b a cb)
              (subst (λ n. n ∣ b * c) (Nat.mul_comm b a) (Nat.mul-dvd-mul_left a b ca)))),
    )

-- LCM of two positive numbers with a product below 2 ^ 32 succeeds, with a common multiple that
-- divides every common multiple.
pub lcm-IsLcm :
    (a b : ℕ) → 0 < a → 0 < b → a * b < 2 ^ 32 → (m : ℕ) × (lcm a b ≡ ok m) × IsLcm m a b
unfolding lcm
lcm-IsLcm a b p q h =
    let (g, e, d) = one_or_more a b p q in
    (
      a * b / g,
      rw (unequal a 0 (omega (arith, p)), unequal b 0 (omega (arith, q)), e, Nat.mod-eq_of_lt h)
          refl,
      quotient-IsLcm g a b d,
    )
