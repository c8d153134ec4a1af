-- ===== src/Coding/Base32/Units/Numbers.antt =====
-- The eight five-bit numbers of a unit of bytes and the five bytes of a unit of numbers, as
-- base/coding.cc cuts them out of one another, and the same as arithmetic.
use csutil.Common.{ℕ, ◌+◌, ◌*◌, ◌/◌, ◌%◌, ◌^◌, ◌<◌, ◌≡◌, arith, bit_and, bit_or}
use csutil.Common.Bits.{bit_or-disjoint}
use csutil.Coding.Masks.{mask_f8, mask_07, mask_c0, mask_3e, mask_01, mask_f0, mask_0f, mask_80}
use csutil.Coding.Masks.{mask_7c, mask_03, mask_e0, mask_1f}

pub num1_of : ℕ → ℕ
num1_of a = bit_and a 0xf8 / 2 ^ 3

pub num2_of : ℕ → ℕ → ℕ
num2_of a b = bit_or (bit_and a 0x07 * 2 ^ 2) (bit_and b 0xc0 / 2 ^ 6)

pub num3_of : ℕ → ℕ
num3_of b = bit_and b 0x3e / 2 ^ 1

pub num4_of : ℕ → ℕ → ℕ
num4_of b c = bit_or (bit_and b 0x01 * 2 ^ 4) (bit_and c 0xf0 / 2 ^ 4)

pub num5_of : ℕ → ℕ → ℕ
num5_of c d = bit_or (bit_and c 0x0f * 2 ^ 1) (bit_and d 0x80 / 2 ^ 7)

pub num6_of : ℕ → ℕ
num6_of d = bit_and d 0x7c / 2 ^ 2

pub num7_of : ℕ → ℕ → ℕ
num7_of d e = bit_or (bit_and d 0x03 * 2 ^ 3) (bit_and e 0xe0 / 2 ^ 5)

pub num8_of : ℕ → ℕ
num8_of e = bit_and e 0x1f

pub byte1_of : ℕ → ℕ → ℕ
byte1_of t1 t2 = bit_or (bit_and t1 0x1f * 2 ^ 3) (bit_and t2 0x1f / 2 ^ 2) % 256

pub byte2_of : ℕ → ℕ → ℕ → ℕ
byte2_of t2 t3 t4 =
    bit_or (bit_or (bit_and t2 0x1f * 2 ^ 6) (bit_and t3 0x1f * 2 ^ 1)) (bit_and t4 0x1f / 2 ^ 4)
    % 256

pub byte3_of : ℕ → ℕ → ℕ
byte3_of t4 t5 = bit_or (bit_and t4 0x1f * 2 ^ 4) (bit_and t5 0x1f / 2 ^ 1) % 256

pub byte4_of : ℕ → ℕ → ℕ → ℕ
byte4_of t5 t6 t7 =
    bit_or (bit_or (bit_and t5 0x1f * 2 ^ 7) (bit_and t6 0x1f * 2 ^ 2)) (bit_and t7 0x1f / 2 ^ 3)
    % 256

pub byte5_of : ℕ → ℕ → ℕ
byte5_of t7 t8 = bit_or (bit_and t7 0x1f * 2 ^ 5) (bit_and t8 0x1f) % 256

pub num1_of_lem : (a : ℕ) → a < 256 → num1_of a ≡ a / 8
unfolding num1_of
num1_of_lem a h = mask_f8 a h

pub num2_of_lem : (a b : ℕ) → a < 256 → b < 256 → num2_of a b ≡ a % 8 * 4 + b / 64
unfolding num2_of
num2_of_lem a b h k =
    rw (mask_07 a h, mask_c0 b k) (bit_or-disjoint 2 (a % 8) (b / 64) (omega arith))

pub num3_of_lem : (b : ℕ) → b < 256 → num3_of b ≡ b / 2 % 32
unfolding num3_of
num3_of_lem b h = mask_3e b h

pub num4_of_lem : (b c : ℕ) → b < 256 → c < 256 → num4_of b c ≡ b % 2 * 16 + c / 16
unfolding num4_of
num4_of_lem b c h k =
    rw (mask_01 b h, mask_f0 c k) (bit_or-disjoint 4 (b % 2) (c / 16) (omega arith))

pub num5_of_lem : (c d : ℕ) → c < 256 → d < 256 → num5_of c d ≡ c % 16 * 2 + d / 128
unfolding num5_of
num5_of_lem c d h k =
    rw (mask_0f c h, mask_80 d k) (bit_or-disjoint 1 (c % 16) (d / 128) (omega arith))

pub num6_of_lem : (d : ℕ) → d < 256 → num6_of d ≡ d / 4 % 32
unfolding num6_of
num6_of_lem d h = mask_7c d h

pub num7_of_lem : (d e : ℕ) → d < 256 → e < 256 → num7_of d e ≡ d % 4 * 8 + e / 32
unfolding num7_of
num7_of_lem d e h k =
    rw (mask_03 d h, mask_e0 e k) (bit_or-disjoint 3 (d % 4) (e / 32) (omega arith))

pub num8_of_lem : (e : ℕ) → e < 256 → num8_of e ≡ e % 32
unfolding num8_of
num8_of_lem e h = mask_1f e h

low_five : (t : ℕ) → t < 32 → bit_and t 0x1f ≡ t
low_five t h = omega (arith, mask_1f t (omega arith))

pub byte1_of_lem : (t u : ℕ) → t < 32 → u < 32 → byte1_of t u ≡ t * 8 + u / 4
unfolding byte1_of
byte1_of_lem t u h k =
    rw (low_five t h, low_five u k) (omega (arith, bit_or-disjoint 3 t (u / 4) (omega arith)))

pub byte2_of_lem :
    (t u v : ℕ) → t < 32 → u < 32 → v < 32 → byte2_of t u v ≡ t % 4 * 64 + u * 2 + v / 16
unfolding byte2_of
byte2_of_lem t u v h k l =
    rw
      (
        low_five t h,
        low_five u k,
        low_five v l,
        bit_or-disjoint 6 t (u * 2) (omega arith),
        or_low 1 (t * 32 + u) (v / 16) (t * 64 + u * 2) (omega arith) (omega arith),
      )
      (omega arith)
  where
    or_low : (k a r s : ℕ) → s ≡ a * 2 ^ k → r < 2 ^ k → bit_or s r ≡ s + r
    or_low k a r s e h = rw e (bit_or-disjoint k a r h)

pub byte3_of_lem : (t u : ℕ) → t < 32 → u < 32 → byte3_of t u ≡ t % 16 * 16 + u / 2
unfolding byte3_of
byte3_of_lem t u h k =
    rw (low_five t h, low_five u k) (omega (arith, bit_or-disjoint 4 t (u / 2) (omega arith)))

pub byte4_of_lem :
    (t u v : ℕ) → t < 32 → u < 32 → v < 32 → byte4_of t u v ≡ t % 2 * 128 + u * 4 + v / 8
unfolding byte4_of
byte4_of_lem t u v h k l =
    rw
      (
        low_five t h,
        low_five u k,
        low_five v l,
        bit_or-disjoint 7 t (u * 4) (omega arith),
        or_low 2 (t * 32 + u) (v / 8) (t * 128 + u * 4) (omega arith) (omega arith),
      )
      (omega arith)
  where
    or_low : (k a r s : ℕ) → s ≡ a * 2 ^ k → r < 2 ^ k → bit_or s r ≡ s + r
    or_low k a r s e h = rw e (bit_or-disjoint k a r h)

pub byte5_of_lem : (t u : ℕ) → t < 32 → u < 32 → byte5_of t u ≡ t % 8 * 32 + u
unfolding byte5_of
byte5_of_lem t u h k =
    rw (low_five t h, low_five u k) (omega (arith, bit_or-disjoint 5 t u (omega arith)))
