-- ===== src/Common/Int.antt =====
-- Integers over the native numbers.
use Prim.Native.Nat.{ℕ, zero, suc, ◌+◌, ◌-◌, ◌*◌, ◌<◌, ◌≤◌}
use mathlib.Core.Path.{◌≡◌, refl, sym, ap, ◌∙◌}
use csutil.Common.Tests.{if◌then◌else◌, ltb, lt→ltb, ltb-false}
use native.Mathlib.Omega.{arith}
use native.Mathlib.Nat.{mul-zero, zero-mul}

pub data ℤ : Type 0 where
  pos negsuc : ℕ → ℤ

-- The number n with a minus sign.
abbrev pub neg_of : ℕ → ℤ
neg_of zero = pos zero
neg_of (suc n) = negsuc n

-- m - n
unfoldable pub difference : ℕ → ℕ → ℤ
difference m n = if ltb m n then neg_of (n - m) else pos (m - n)

abbrev pub neg : ℤ → ℤ
neg (pos n) = neg_of n
neg (negsuc n) = pos (suc n)

infixl 6 ◌+ℤ◌ ◌-ℤ◌
unfoldable pub ◌+ℤ◌ : ℤ → ℤ → ℤ
pos m +ℤ pos n = pos (m + n)
pos m +ℤ negsuc n = difference m (suc n)
negsuc m +ℤ pos n = difference n (suc m)
negsuc m +ℤ negsuc n = negsuc (suc (m + n))

abbrev pub ◌-ℤ◌ : ℤ → ℤ → ℤ
x -ℤ y = x +ℤ neg y

infixl 7 ◌*ℤ◌
unfoldable pub ◌*ℤ◌ : ℤ → ℤ → ℤ
pos m *ℤ pos n = pos (m * n)
pos m *ℤ negsuc n = neg_of (m * suc n)
negsuc m *ℤ pos n = neg_of (suc m * n)
negsuc m *ℤ negsuc n = pos (suc m * suc n)

difference-zero : (m : ℕ) → difference m zero ≡ pos m
unfolding difference
difference-zero m = rw (ltb-false m zero (omega arith)) (ap pos (omega arith))

pub difference_self : (m : ℕ) → difference m m ≡ pos zero
unfolding difference
difference_self m = rw (ltb-false m m (omega arith)) (ap pos (omega arith))

pub difference_over : (m n : ℕ) → n ≤ m → difference m n ≡ pos (m - n)
unfolding difference
difference_over m n h = rw (ltb-false m n h) refl

pub difference_under : (m n : ℕ) → m < n → difference m n ≡ neg_of (n - m)
unfolding difference
difference_under m n h = rw (lt→ltb m n h) refl

pub neg-neg_of : (n : ℕ) → neg (neg_of n) ≡ pos n
neg-neg_of zero = refl
neg-neg_of (suc n) = refl

pub pos-plus-pos : (m n : ℕ) → pos m +ℤ pos n ≡ pos (m + n)
unfolding ◌+ℤ◌
pos-plus-pos m n = refl

pub pos-plus-neg_of : (m n : ℕ) → pos m +ℤ neg_of n ≡ difference m n
unfolding ◌+ℤ◌
pos-plus-neg_of m zero = ap pos (omega arith) ∙ sym (difference-zero m)
pos-plus-neg_of m (suc n) = refl

pub neg_of-plus-pos : (m n : ℕ) → neg_of m +ℤ pos n ≡ difference n m
unfolding ◌+ℤ◌
neg_of-plus-pos zero n = ap pos (omega arith) ∙ sym (difference-zero n)
neg_of-plus-pos (suc m) n = refl

pub neg_of-plus-neg_of : (m n : ℕ) → neg_of m +ℤ neg_of n ≡ neg_of (m + n)
unfolding ◌+ℤ◌
neg_of-plus-neg_of zero zero = refl
neg_of-plus-neg_of zero (suc n) =
    difference_under zero (suc n) (omega arith) ∙ ap neg_of (omega arith)
neg_of-plus-neg_of (suc m) zero =
    difference_under zero (suc m) (omega arith) ∙ ap neg_of (omega arith)
neg_of-plus-neg_of (suc m) (suc n) =
    let same : suc (suc (m + n)) ≡ suc m + suc n = omega arith in ap neg_of same

pub pos-times-pos : (m n : ℕ) → pos m *ℤ pos n ≡ pos (m * n)
unfolding ◌*ℤ◌
pos-times-pos m n = refl

pub pos-times-neg_of : (m n : ℕ) → pos m *ℤ neg_of n ≡ neg_of (m * n)
unfolding ◌*ℤ◌
pos-times-neg_of m zero = rw (mul-zero m) refl
pos-times-neg_of m (suc n) = refl

pub neg_of-times-pos : (m n : ℕ) → neg_of m *ℤ pos n ≡ neg_of (m * n)
unfolding ◌*ℤ◌
neg_of-times-pos zero n = rw (zero-mul n) refl
neg_of-times-pos (suc m) n = refl

pub neg_of-times-neg_of : (m n : ℕ) → neg_of m *ℤ neg_of n ≡ pos (m * n)
unfolding ◌*ℤ◌
neg_of-times-neg_of zero zero = refl
neg_of-times-neg_of zero (suc n) = rw (zero-mul (suc n)) refl
neg_of-times-neg_of (suc m) zero = rw (mul-zero (suc m)) refl
neg_of-times-neg_of (suc m) (suc n) = refl
