-- ===== src/Utf8/Masks.antt =====
-- The masks of base/utf8.cc on one byte.
use csutil.Common.{ℕ, ◌+◌, ◌-◌, ◌*◌, ◌/◌, ◌%◌, ◌^◌, ◌<◌, ◌≤◌, ◌≡◌, refl, arith}
use csutil.Common.{true, false, none, some, ◌⊎◌, inl, inr, bit_and}
use csutil.Common.Bits.{agree_below, agree_below→eq, bit_or-disjoint}
use csutil.Coding.Masks.{mask_07, mask_0f, mask_1f, mask_3f}
use csutil.Utf8.{is_valid_continuation_byte, lead, join}
use native.Mathlib.Decide.{ℕ_discrete}

high_c0 : (b : ℕ) → b < 256 → bit_and b 0xc0 ≡ b / 64 * 64
unfolding agree_below
high_c0 = agree_below→eq _ _ 256 refl

high_e0 : (b : ℕ) → b < 256 → bit_and b 0xe0 ≡ b / 32 * 32
unfolding agree_below
high_e0 = agree_below→eq _ _ 256 refl

high_f0 : (b : ℕ) → b < 256 → bit_and b 0xf0 ≡ b / 16 * 16
unfolding agree_below
high_f0 = agree_below→eq _ _ 256 refl

high_f8 : (b : ℕ) → b < 256 → bit_and b 0xf8 ≡ b / 8 * 8
unfolding agree_below
high_f8 = agree_below→eq _ _ 256 refl

pub lead_two : (b : ℕ) → 192 ≤ b → b < 224 → lead b ≡ some (2, b - 192)
unfolding lead
lead_two b h k = ground (arith, high_e0 b (omega (arith, k)), mask_1f b (omega (arith, k)))

pub lead_three : (b : ℕ) → 224 ≤ b → b < 240 → lead b ≡ some (3, b - 224)
unfolding lead
lead_three b h k =
    let byte : b < 256 = omega (arith, k) in
    ground (arith, high_e0 b byte, high_f0 b byte, mask_0f b byte)

pub lead_four : (b : ℕ) → 240 ≤ b → b < 248 → lead b ≡ some (4, b - 240)
unfolding lead
lead_four b h k =
    let byte : b < 256 = omega (arith, k) in
    ground (arith, high_e0 b byte, high_f0 b byte, high_f8 b byte, mask_07 b byte)

pub lead-none : (b : ℕ) → b < 256 → (b < 192) ⊎ (248 ≤ b) → lead b ≡ none
unfolding lead
lead-none b byte h = ground (arith, high_e0 b byte, high_f0 b byte, high_f8 b byte)

abbrev pub IsContinuation : ℕ → Type 0
IsContinuation c = (128 ≤ c) × (c < 192)

pub IsContinuation-cases :
    (c : ℕ)
    → c < 256
    → (IsContinuation c × (is_valid_continuation_byte c ≡ true))
      ⊎ (is_valid_continuation_byte c ≡ false)
unfolding is_valid_continuation_byte
IsContinuation-cases c h = elim (ℕ_discrete (c / 64) 2) [
  | yes two ↦ inl ((omega (arith, two), omega (arith, two)), ground (arith, high_c0 c h))
  | no other ↦ inr (ground (arith, high_c0 c h))
]

pub continuation-true : (c : ℕ) → IsContinuation c → is_valid_continuation_byte c ≡ true
unfolding is_valid_continuation_byte
continuation-true c h = ground (arith, high_c0 c (omega (arith, h)))

pub join_lem :
    (codepoint c : ℕ)
    → codepoint < 2 ^ 20
    → IsContinuation c
    → join codepoint c ≡ codepoint * 64 + (c - 128)
unfolding join
join_lem codepoint c h k =
    let small : codepoint * 2 ^ 6 % 2 ^ 32 ≡ codepoint * 2 ^ 6 = omega (arith, h) in
    let low : bit_and c 0x3f ≡ c - 128 = omega (arith, mask_3f c (omega (arith, k)), k) in
    rw (small, low) (omega (arith, bit_or-disjoint 6 codepoint (c - 128) (omega (arith, k))))
