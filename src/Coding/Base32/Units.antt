-- ===== src/Coding/Base32/Units.antt =====
-- Base32GetUnitVisibleChar and Base32GetUnitInvisibleChar of base/coding.cc.
pub mod Numbers
mod Branches
pub mod Laws
use csutil.Common.{ℕ, ◌*◌, ◌^◌, bit_and, ◌==◌, if◌then◌else◌, Bool, ◌&&◌, List, [], ◌∷◌}
use csutil.Common.Status.{Result, ok, err, undefined, ◌>>=◌, invalid_param}
use Numbers.{num1_of, num2_of, num3_of, num4_of, num5_of, num6_of, num7_of, num8_of}
use Numbers.{byte1_of, byte2_of, byte3_of, byte4_of, byte5_of}

abbrev pub equal_char : ℕ
equal_char = b'='

-- The unit holds `size` bytes, from one to five.
pub get_unit_visible_char : List ℕ → (ℕ → Result ℕ) → Result (List ℕ)
get_unit_visible_char (a ∷ []) to_visible_char = do
  num1 ← to_visible_char (num1_of a)
  num2 ← to_visible_char (bit_and a 0x07 * 2 ^ 2)
  ok (
      num1 ∷ num2 ∷ equal_char ∷ equal_char ∷ equal_char ∷ equal_char ∷ equal_char ∷ equal_char
      ∷ [])
get_unit_visible_char (a ∷ b ∷ []) to_visible_char = do
  num1 ← to_visible_char (num1_of a)
  num2 ← to_visible_char (num2_of a b)
  num3 ← to_visible_char (num3_of b)
  num4 ← to_visible_char (bit_and b 0x01 * 2 ^ 4)
  ok (num1 ∷ num2 ∷ num3 ∷ num4 ∷ equal_char ∷ equal_char ∷ equal_char ∷ equal_char ∷ [])
get_unit_visible_char (a ∷ b ∷ c ∷ []) to_visible_char = do
  num1 ← to_visible_char (num1_of a)
  num2 ← to_visible_char (num2_of a b)
  num3 ← to_visible_char (num3_of b)
  num4 ← to_visible_char (num4_of b c)
  num5 ← to_visible_char (bit_and c 0x0f * 2 ^ 1)
  ok (num1 ∷ num2 ∷ num3 ∷ num4 ∷ num5 ∷ equal_char ∷ equal_char ∷ equal_char ∷ [])
get_unit_visible_char (a ∷ b ∷ c ∷ d ∷ []) to_visible_char = do
  num1 ← to_visible_char (num1_of a)
  num2 ← to_visible_char (num2_of a b)
  num3 ← to_visible_char (num3_of b)
  num4 ← to_visible_char (num4_of b c)
  num5 ← to_visible_char (num5_of c d)
  num6 ← to_visible_char (num6_of d)
  num7 ← to_visible_char (bit_and d 0x03 * 2 ^ 3)
  ok (num1 ∷ num2 ∷ num3 ∷ num4 ∷ num5 ∷ num6 ∷ num7 ∷ equal_char ∷ [])
get_unit_visible_char (a ∷ b ∷ c ∷ d ∷ e ∷ []) to_visible_char = do
  num1 ← to_visible_char (num1_of a)
  num2 ← to_visible_char (num2_of a b)
  num3 ← to_visible_char (num3_of b)
  num4 ← to_visible_char (num4_of b c)
  num5 ← to_visible_char (num5_of c d)
  num6 ← to_visible_char (num6_of d)
  num7 ← to_visible_char (num7_of d e)
  num8 ← to_visible_char (num8_of e)
  ok (num1 ∷ num2 ∷ num3 ∷ num4 ∷ num5 ∷ num6 ∷ num7 ∷ num8 ∷ [])
get_unit_visible_char _ to_visible_char = err invalid_param

-- The unit is the eight characters v1 to v8; its size is found from the run of '=' at its end.
pub get_unit_invisible_char : ℕ → ℕ → ℕ → ℕ → ℕ → ℕ → ℕ → ℕ → (ℕ → Result ℕ) → Result (List ℕ)
get_unit_invisible_char v1 v2 v3 v4 v5 v6 v7 v8 to_invisible_char =
    let ends_8 : Bool = v8 == equal_char in
    let ends_6 : Bool = v6 == equal_char && v7 == equal_char && ends_8 in
    let ends_5 : Bool = v5 == equal_char && ends_6 in
    let ends_3 : Bool = v3 == equal_char && v4 == equal_char && ends_5 in
    if ends_3
    then (do t1 ← to_invisible_char v1; t2 ← to_invisible_char v2; ok (byte1_of t1 t2 ∷ []))
    else if ends_5
    then (do
      t1 ← to_invisible_char v1
      t2 ← to_invisible_char v2
      t3 ← to_invisible_char v3
      t4 ← to_invisible_char v4
      ok (byte1_of t1 t2 ∷ byte2_of t2 t3 t4 ∷ []))
    else if ends_6
    then (do
      t1 ← to_invisible_char v1
      t2 ← to_invisible_char v2
      t3 ← to_invisible_char v3
      t4 ← to_invisible_char v4
      t5 ← to_invisible_char v5
      ok (byte1_of t1 t2 ∷ byte2_of t2 t3 t4 ∷ byte3_of t4 t5 ∷ []))
    else if ends_8
    then (do
      t1 ← to_invisible_char v1
      t2 ← to_invisible_char v2
      t3 ← to_invisible_char v3
      t4 ← to_invisible_char v4
      t5 ← to_invisible_char v5
      t6 ← to_invisible_char v6
      t7 ← to_invisible_char v7
      ok (byte1_of t1 t2 ∷ byte2_of t2 t3 t4 ∷ byte3_of t4 t5 ∷ byte4_of t5 t6 t7 ∷ []))
    else (do
      t1 ← to_invisible_char v1
      t2 ← to_invisible_char v2
      t3 ← to_invisible_char v3
      t4 ← to_invisible_char v4
      t5 ← to_invisible_char v5
      t6 ← to_invisible_char v6
      t7 ← to_invisible_char v7
      t8 ← to_invisible_char v8
      ok (
          byte1_of t1 t2
          ∷ byte2_of t2 t3 t4
          ∷ byte3_of t4 t5
          ∷ byte4_of t5 t6 t7
          ∷ byte5_of t7 t8
          ∷ []))
