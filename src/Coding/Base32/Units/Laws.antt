-- ===== src/Coding/Base32/Units/Laws.antt =====
-- Base32GetUnitInvisibleChar after Base32GetUnitVisibleChar of base/coding.cc, for any alphabet.
use csutil.Common.{ℕ, ◌+◌, ◌*◌, ◌/◌, ◌%◌, ◌<◌, ◌≡◌, ◌≢◌, arith, ◌∙◌, List, [], ◌∷◌}
use csutil.Common.Status.{Result, ok, value}
use csutil.Coding.Masks.{mask_07, mask_01, mask_0f, mask_03}
use csutil.Coding.Base32.Alphabets.{IsAlphabet}
use csutil.Coding.Base32.Units.{equal_char, get_unit_visible_char, get_unit_invisible_char}
use csutil.Coding.Base32.Units.Numbers.{num1_of_lem, num2_of_lem, num3_of_lem, num4_of_lem}
use csutil.Coding.Base32.Units.Numbers.{num5_of_lem, num6_of_lem, num7_of_lem, num8_of_lem}
use csutil.Coding.Base32.Units.Numbers.{byte1_of_lem, byte2_of_lem, byte3_of_lem, byte4_of_lem}
use csutil.Coding.Base32.Units.Numbers.{byte5_of_lem}
use csutil.Coding.Base32.Units.Branches.{one_bytes, two_bytes, three_bytes, four_bytes, five_bytes}

-- The unit is written as eight characters, which read back as the unit.
abbrev pub Reads : List ℕ → (ℕ → Result ℕ) → (ℕ → Result ℕ) → Type 0
Reads bytes to_visible to_invisible =
    (v1 v2 v3 v4 v5 v6 v7 v8 : ℕ) × (get_unit_visible_char bytes to_visible
      ≡ ok (v1 ∷ v2 ∷ v3 ∷ v4 ∷ v5 ∷ v6 ∷ v7 ∷ v8 ∷ []))
    × (get_unit_invisible_char v1 v2 v3 v4 v5 v6 v7 v8 to_invisible ≡ ok bytes)

module _ {to_visible to_invisible : ℕ → Result ℕ}
    (alphabet : IsAlphabet to_visible to_invisible) where
  open alphabet use {visible, reads, unpadded}

  char : ℕ → ℕ
  char n = value (to_visible n)

  char_lem :
      (n : ℕ)
      → n < 32
      → (to_visible n ≡ ok (char n)) × (to_invisible (char n) ≡ ok n) × (char n ≢ equal_char)
  unfolding char
  char_lem n h = (visible n h, reads n h, unpadded n h)

  pub one_Reads : (a : ℕ) → a < 256 → Reads (a ∷ []) to_visible to_invisible
  unfolding get_unit_visible_char
  one_Reads a ha =
      let t1 : ℕ = a / 8 in
      let t2 : ℕ = a % 8 * 4 in
      let (w1, r1, _) = char_lem t1 (omega arith) in
      let (w2, r2, _) = char_lem t2 (omega arith) in
      (
        char t1,
        char t2,
        equal_char,
        equal_char,
        equal_char,
        equal_char,
        equal_char,
        equal_char,
        rw (num1_of_lem a ha, mask_07 a ha, w1, w2),
        one_bytes to_invisible (char t1) (char t2) r1 r2
            ∙ rw (byte1_of_lem t1 t2 (omega arith) (omega arith)) (ground arith),
      )

  pub two_Reads : (a b : ℕ) → a < 256 → b < 256 → Reads (a ∷ b ∷ []) to_visible to_invisible
  unfolding get_unit_visible_char
  two_Reads a b ha hb =
      let t1 : ℕ = a / 8 in
      let t2 : ℕ = a % 8 * 4 + b / 64 in
      let t3 : ℕ = b / 2 % 32 in
      let t4 : ℕ = b % 2 * 16 in
      let (w1, r1, _) = char_lem t1 (omega arith) in
      let (w2, r2, _) = char_lem t2 (omega arith) in
      let (w3, r3, _) = char_lem t3 (omega arith) in
      let (w4, r4, last) = char_lem t4 (omega arith) in
      (
        char t1,
        char t2,
        char t3,
        char t4,
        equal_char,
        equal_char,
        equal_char,
        equal_char,
        rw (
          num1_of_lem a ha,
          num2_of_lem a b ha hb,
          num3_of_lem b hb,
          mask_01 b hb,
          w1,
          w2,
          w3,
          w4,
        ),
        two_bytes to_invisible (char t1) (char t2) (char t3) (char t4) r1 r2 r3 r4 last
            ∙ rw
                (
                  byte1_of_lem t1 t2 (omega arith) (omega arith),
                  byte2_of_lem t2 t3 t4 (omega arith) (omega arith) (omega arith),
                )
                (ground arith),
      )

  pub three_Reads :
      (a b c : ℕ) → a < 256 → b < 256 → c < 256 → Reads (a ∷ b ∷ c ∷ []) to_visible to_invisible
  unfolding get_unit_visible_char
  three_Reads a b c ha hb hc =
      let t1 : ℕ = a / 8 in
      let t2 : ℕ = a % 8 * 4 + b / 64 in
      let t3 : ℕ = b / 2 % 32 in
      let t4 : ℕ = b % 2 * 16 + c / 16 in
      let t5 : ℕ = c % 16 * 2 in
      let (w1, r1, _) = char_lem t1 (omega arith) in
      let (w2, r2, _) = char_lem t2 (omega arith) in
      let (w3, r3, _) = char_lem t3 (omega arith) in
      let (w4, r4, _) = char_lem t4 (omega arith) in
      let (w5, r5, last) = char_lem t5 (omega arith) in
      (
        char t1,
        char t2,
        char t3,
        char t4,
        char t5,
        equal_char,
        equal_char,
        equal_char,
        rw (
          num1_of_lem a ha,
          num2_of_lem a b ha hb,
          num3_of_lem b hb,
          num4_of_lem b c hb hc,
          mask_0f c hc,
          w1,
          w2,
          w3,
          w4,
          w5,
        ),
        three_bytes to_invisible (char t1) (char t2) (char t3) (char t4) (char t5) r1 r2 r3 r4 r5
              last
            ∙ rw
                (
                  byte1_of_lem t1 t2 (omega arith) (omega arith),
                  byte2_of_lem t2 t3 t4 (omega arith) (omega arith) (omega arith),
                  byte3_of_lem t4 t5 (omega arith) (omega arith),
                )
                (ground arith),
      )

  pub four_Reads :
      (a b c d : ℕ)
      → a < 256
      → b < 256
      → c < 256
      → d < 256
      → Reads (a ∷ b ∷ c ∷ d ∷ []) to_visible to_invisible
  unfolding get_unit_visible_char
  four_Reads a b c d ha hb hc hd =
      let t1 : ℕ = a / 8 in
      let t2 : ℕ = a % 8 * 4 + b / 64 in
      let t3 : ℕ = b / 2 % 32 in
      let t4 : ℕ = b % 2 * 16 + c / 16 in
      let t5 : ℕ = c % 16 * 2 + d / 128 in
      let t6 : ℕ = d / 4 % 32 in
      let t7 : ℕ = d % 4 * 8 in
      let (w1, r1, _) = char_lem t1 (omega arith) in
      let (w2, r2, _) = char_lem t2 (omega arith) in
      let (w3, r3, _) = char_lem t3 (omega arith) in
      let (w4, r4, _) = char_lem t4 (omega arith) in
      let (w5, r5, _) = char_lem t5 (omega arith) in
      let (w6, r6, _) = char_lem t6 (omega arith) in
      let (w7, r7, last) = char_lem t7 (omega arith) in
      (
        char t1,
        char t2,
        char t3,
        char t4,
        char t5,
        char t6,
        char t7,
        equal_char,
        rw (
          num1_of_lem a ha,
          num2_of_lem a b ha hb,
          num3_of_lem b hb,
          num4_of_lem b c hb hc,
          num5_of_lem c d hc hd,
          num6_of_lem d hd,
          mask_03 d hd,
          w1,
          w2,
          w3,
          w4,
          w5,
          w6,
          w7,
        ),
        four_bytes to_invisible (char t1) (char t2) (char t3) (char t4) (char t5) (char t6)
              (char t7) r1 r2 r3 r4 r5 r6 r7 last
            ∙ rw
                (
                  byte1_of_lem t1 t2 (omega arith) (omega arith),
                  byte2_of_lem t2 t3 t4 (omega arith) (omega arith) (omega arith),
                  byte3_of_lem t4 t5 (omega arith) (omega arith),
                  byte4_of_lem t5 t6 t7 (omega arith) (omega arith) (omega arith),
                )
                (ground arith),
      )

  pub five_Reads :
      (a b c d e : ℕ)
      → a < 256
      → b < 256
      → c < 256
      → d < 256
      → e < 256
      → Reads (a ∷ b ∷ c ∷ d ∷ e ∷ []) to_visible to_invisible
  unfolding get_unit_visible_char
  five_Reads a b c d e ha hb hc hd he =
      let t1 : ℕ = a / 8 in
      let t2 : ℕ = a % 8 * 4 + b / 64 in
      let t3 : ℕ = b / 2 % 32 in
      let t4 : ℕ = b % 2 * 16 + c / 16 in
      let t5 : ℕ = c % 16 * 2 + d / 128 in
      let t6 : ℕ = d / 4 % 32 in
      let t7 : ℕ = d % 4 * 8 + e / 32 in
      let t8 : ℕ = e % 32 in
      let (w1, r1, _) = char_lem t1 (omega arith) in
      let (w2, r2, _) = char_lem t2 (omega arith) in
      let (w3, r3, _) = char_lem t3 (omega arith) in
      let (w4, r4, _) = char_lem t4 (omega arith) in
      let (w5, r5, _) = char_lem t5 (omega arith) in
      let (w6, r6, _) = char_lem t6 (omega arith) in
      let (w7, r7, _) = char_lem t7 (omega arith) in
      let (w8, r8, last) = char_lem t8 (omega arith) in
      (
        char t1,
        char t2,
        char t3,
        char t4,
        char t5,
        char t6,
        char t7,
        char t8,
        rw (
          num1_of_lem a ha,
          num2_of_lem a b ha hb,
          num3_of_lem b hb,
          num4_of_lem b c hb hc,
          num5_of_lem c d hc hd,
          num6_of_lem d hd,
          num7_of_lem d e hd he,
          num8_of_lem e he,
          w1,
          w2,
          w3,
          w4,
          w5,
          w6,
          w7,
          w8,
        ),
        five_bytes to_invisible (char t1) (char t2) (char t3) (char t4) (char t5) (char t6)
              (char t7) (char t8) r1 r2 r3 r4 r5 r6 r7 r8 last
            ∙ rw
                (
                  byte1_of_lem t1 t2 (omega arith) (omega arith),
                  byte2_of_lem t2 t3 t4 (omega arith) (omega arith) (omega arith),
                  byte3_of_lem t4 t5 (omega arith) (omega arith),
                  byte4_of_lem t5 t6 t7 (omega arith) (omega arith) (omega arith),
                  byte5_of_lem t7 t8 (omega arith) (omega arith),
                )
                (ground arith),
      )
