-- ===== src/Coding/Masks.antt =====
-- The masks and shifts on one byte that the base 64 and base 32 encoders of base/coding.cc use.
use csutil.Common.{ℕ, ◌/◌, ◌%◌, ◌<◌, ◌≡◌, refl, bit_and}
use csutil.Common.Bits.{agree_below, agree_below→eq}

pub mask_fc : (b : ℕ) → b < 256 → bit_and b 0xfc / 4 ≡ b / 4
unfolding agree_below
mask_fc = agree_below→eq _ _ 256 refl

pub mask_f8 : (b : ℕ) → b < 256 → bit_and b 0xf8 / 8 ≡ b / 8
unfolding agree_below
mask_f8 = agree_below→eq _ _ 256 refl

pub mask_f0 : (b : ℕ) → b < 256 → bit_and b 0xf0 / 16 ≡ b / 16
unfolding agree_below
mask_f0 = agree_below→eq _ _ 256 refl

pub mask_e0 : (b : ℕ) → b < 256 → bit_and b 0xe0 / 32 ≡ b / 32
unfolding agree_below
mask_e0 = agree_below→eq _ _ 256 refl

pub mask_c0 : (b : ℕ) → b < 256 → bit_and b 0xc0 / 64 ≡ b / 64
unfolding agree_below
mask_c0 = agree_below→eq _ _ 256 refl

pub mask_80 : (b : ℕ) → b < 256 → bit_and b 0x80 / 128 ≡ b / 128
unfolding agree_below
mask_80 = agree_below→eq _ _ 256 refl

pub mask_7c : (b : ℕ) → b < 256 → bit_and b 0x7c / 4 ≡ b / 4 % 32
unfolding agree_below
mask_7c = agree_below→eq _ _ 256 refl

pub mask_3e : (b : ℕ) → b < 256 → bit_and b 0x3e / 2 ≡ b / 2 % 32
unfolding agree_below
mask_3e = agree_below→eq _ _ 256 refl

pub mask_01 : (b : ℕ) → b < 256 → bit_and b 0x01 ≡ b % 2
unfolding agree_below
mask_01 = agree_below→eq _ _ 256 refl

pub mask_03 : (b : ℕ) → b < 256 → bit_and b 0x03 ≡ b % 4
unfolding agree_below
mask_03 = agree_below→eq _ _ 256 refl

pub mask_07 : (b : ℕ) → b < 256 → bit_and b 0x07 ≡ b % 8
unfolding agree_below
mask_07 = agree_below→eq _ _ 256 refl

pub mask_0f : (b : ℕ) → b < 256 → bit_and b 0x0f ≡ b % 16
unfolding agree_below
mask_0f = agree_below→eq _ _ 256 refl

pub mask_1f : (b : ℕ) → b < 256 → bit_and b 0x1f ≡ b % 32
unfolding agree_below
mask_1f = agree_below→eq _ _ 256 refl

pub mask_3f : (b : ℕ) → b < 256 → bit_and b 0x3f ≡ b % 64
unfolding agree_below
mask_3f = agree_below→eq _ _ 256 refl
