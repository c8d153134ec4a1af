-- ===== src/Coding/Base32/Units/Branches.antt =====
-- The branches of Base32GetUnitInvisibleChar of base/coding.cc.
use csutil.Common.{ℕ, ◌≡◌, ◌≢◌, arith, [], ◌∷◌}
use csutil.Common.Status.{Result, ok}
use csutil.Coding.Base32.Units.{equal_char, get_unit_invisible_char}
use csutil.Coding.Base32.Units.Numbers.{byte1_of, byte2_of, byte3_of, byte4_of, byte5_of}

-- The branches of the decoder, by the number of characters in front of the '=' run.
module _ (to_invisible : ℕ → Result ℕ) where
  pub one_bytes :
      (v1 v2 : ℕ) {t1 t2 : ℕ}
      → to_invisible v1 ≡ ok t1
      → to_invisible v2 ≡ ok t2
      → get_unit_invisible_char v1 v2 equal_char equal_char equal_char equal_char equal_char
          equal_char to_invisible
        ≡ ok (byte1_of t1 t2 ∷ [])
  unfolding get_unit_invisible_char
  one_bytes v1 v2 r1 r2 = ground arith

  pub two_bytes :
      (v1 v2 v3 v4 : ℕ) {t1 t2 t3 t4 : ℕ}
      → to_invisible v1 ≡ ok t1
      → to_invisible v2 ≡ ok t2
      → to_invisible v3 ≡ ok t3
      → to_invisible v4 ≡ ok t4
      → v4 ≢ equal_char
      → get_unit_invisible_char v1 v2 v3 v4 equal_char equal_char equal_char equal_char to_invisible
        ≡ ok (byte1_of t1 t2 ∷ byte2_of t2 t3 t4 ∷ [])
  unfolding get_unit_invisible_char
  two_bytes v1 v2 v3 v4 r1 r2 r3 r4 last = ground arith

  pub three_bytes :
      (v1 v2 v3 v4 v5 : ℕ) {t1 t2 t3 t4 t5 : ℕ}
      → to_invisible v1 ≡ ok t1
      → to_invisible v2 ≡ ok t2
      → to_invisible v3 ≡ ok t3
      → to_invisible v4 ≡ ok t4
      → to_invisible v5 ≡ ok t5
      → v5 ≢ equal_char
      → get_unit_invisible_char v1 v2 v3 v4 v5 equal_char equal_char equal_char to_invisible
        ≡ ok (byte1_of t1 t2 ∷ byte2_of t2 t3 t4 ∷ byte3_of t4 t5 ∷ [])
  unfolding get_unit_invisible_char
  three_bytes v1 v2 v3 v4 v5 r1 r2 r3 r4 r5 last = ground arith

  pub four_bytes :
      (v1 v2 v3 v4 v5 v6 v7 : ℕ) {t1 t2 t3 t4 t5 t6 t7 : ℕ}
      → to_invisible v1 ≡ ok t1
      → to_invisible v2 ≡ ok t2
      → to_invisible v3 ≡ ok t3
      → to_invisible v4 ≡ ok t4
      → to_invisible v5 ≡ ok t5
      → to_invisible v6 ≡ ok t6
      → to_invisible v7 ≡ ok t7
      → v7 ≢ equal_char
      → get_unit_invisible_char v1 v2 v3 v4 v5 v6 v7 equal_char to_invisible
        ≡ ok (byte1_of t1 t2 ∷ byte2_of t2 t3 t4 ∷ byte3_of t4 t5 ∷ byte4_of t5 t6 t7 ∷ [])
  unfolding get_unit_invisible_char
  four_bytes v1 v2 v3 v4 v5 v6 v7 r1 r2 r3 r4 r5 r6 r7 last = ground arith

  pub five_bytes :
      (v1 v2 v3 v4 v5 v6 v7 v8 : ℕ) {t1 t2 t3 t4 t5 t6 t7 t8 : ℕ}
      → to_invisible v1 ≡ ok t1
      → to_invisible v2 ≡ ok t2
      → to_invisible v3 ≡ ok t3
      → to_invisible v4 ≡ ok t4
      → to_invisible v5 ≡ ok t5
      → to_invisible v6 ≡ ok t6
      → to_invisible v7 ≡ ok t7
      → to_invisible v8 ≡ ok t8
      → v8 ≢ equal_char
      → get_unit_invisible_char v1 v2 v3 v4 v5 v6 v7 v8 to_invisible
        ≡ ok (
            byte1_of t1 t2
            ∷ byte2_of t2 t3 t4
            ∷ byte3_of t4 t5
            ∷ byte4_of t5 t6 t7
            ∷ byte5_of t7 t8
            ∷ [])
  unfolding get_unit_invisible_char
  five_bytes v1 v2 v3 v4 v5 v6 v7 v8 r1 r2 r3 r4 r5 r6 r7 r8 last = ground arith
