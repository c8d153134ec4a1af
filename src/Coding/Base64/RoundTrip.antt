-- ===== src/Coding/Base64/RoundTrip.antt =====
-- Base64 decoding after encoding, as in base/coding.cc.
use csutil.Common.{ℕ, suc, ◌+◌, ◌-◌, ◌*◌, ◌/◌, ◌%◌, ◌^◌, ◌<◌, ◌≤◌, ◌≡◌, ◌≢◌, refl, ap, arith, ◌∙◌}
use csutil.Common.{List, [], ◌∷◌, ◌++◌, All, length, append-nil}
use csutil.Common.Bits.{bit_or-disjoint}
use csutil.Coding.Masks.{mask_fc, mask_03, mask_f0, mask_0f, mask_c0, mask_3f}
use csutil.Common.Status.{ok, value}
use csutil.Coding.Base64.{equal_char, get_visible_char, get_invisible_char}
use csutil.Coding.Base64.{first_six, second_six, third_six, fourth_six}
use csutil.Coding.Base64.{first_byte, second_byte, third_byte}
use csutil.Coding.Base64.{get_unit_visible_char, get_unit_invisible_char}
use csutil.Coding.Base64.{base64_encode, base64_decode, invisible_unit, last_visible_unit}
use csutil.Coding.Chunks.{in_turn, unit_loop_lem}

-- The six-bit numbers and the bytes as arithmetic.
first_six_lem : (a : ℕ) → a < 256 → first_six a ≡ a / 4
unfolding first_six
first_six_lem a h = omega (arith, mask_fc a h)

second_six_lem : (a b : ℕ) → a < 256 → b < 256 → second_six a b ≡ a % 4 * 16 + b / 16
unfolding second_six
second_six_lem a b h k =
    rw (mask_03 a h, mask_f0 b k) (bit_or-disjoint 4 (a % 4) (b / 16) (omega arith))

third_six_lem : (b c : ℕ) → b < 256 → c < 256 → third_six b c ≡ b % 16 * 4 + c / 64
unfolding third_six
third_six_lem b c h k =
    rw (mask_0f b h, mask_c0 c k) (bit_or-disjoint 2 (b % 16) (c / 64) (omega arith))

first_byte_lem : (t u : ℕ) → t < 64 → u < 64 → first_byte t u ≡ t * 4 + u / 16
unfolding first_byte
first_byte_lem t u h k =
    rw (mask_3f t (omega arith), mask_3f u (omega arith))
      (omega (arith, bit_or-disjoint 2 (t % 64) (u % 64 / 16) (omega arith)))

second_byte_lem : (t u : ℕ) → t < 64 → u < 64 → second_byte t u ≡ t % 16 * 16 + u / 4
unfolding second_byte
second_byte_lem t u h k =
    rw (mask_3f t (omega arith), mask_3f u (omega arith))
      (omega (arith, bit_or-disjoint 4 (t % 64) (u % 64 / 4) (omega arith)))

third_byte_lem : (t u : ℕ) → t < 64 → u < 64 → third_byte t u ≡ t % 4 * 64 + u
unfolding third_byte
third_byte_lem t u h k =
    rw (mask_3f t (omega arith), mask_3f u (omega arith))
      (omega (arith, bit_or-disjoint 6 (t % 64) (u % 64) (omega arith)))

-- The character of a six-bit number is not '=' and reads back as the number.
char : ℕ → ℕ
char n = value (get_visible_char n)

char_lem :
    (n : ℕ)
    → n < 64
    → (get_visible_char n ≡ ok (char n))
      × (get_invisible_char (char n) ≡ ok n)
      × (char n ≢ equal_char)
unfolding get_visible_char get_invisible_char char
char_lem n h = (ground arith, ground arith, ground arith)

-- A unit of one, two or three bytes is four characters, which read back as the unit.
abbrev Reads : List ℕ → Type 0
Reads bytes =
    (v1 v2 v3 v4 : ℕ) × (get_unit_visible_char bytes ≡ ok (v1 ∷ v2 ∷ v3 ∷ v4 ∷ []))
    × (get_unit_invisible_char v1 v2 v3 v4 ≡ ok bytes)

one_Reads : (a : ℕ) → a < 256 → Reads (a ∷ [])
unfolding get_unit_visible_char get_unit_invisible_char
one_Reads a ha =
    let t1 : ℕ = a / 4 in
    let t2 : ℕ = a % 4 * 16 in
    let (w1, r1, _) = char_lem t1 (omega arith) in
    let (w2, r2, _) = char_lem t2 (omega arith) in
    (
      char t1,
      char t2,
      equal_char,
      equal_char,
      rw (first_six_lem a ha, mask_03 a ha, w1, w2),
      rw (r1, r2, first_byte_lem t1 t2 (omega arith) (omega arith)) (ground arith),
    )

-- The decoder's second and third branch, where the fourth character alone or none is '='.
two_bytes :
    (v1 v2 v3 : ℕ) {t1 t2 t3 : ℕ}
    → get_invisible_char v1 ≡ ok t1
    → get_invisible_char v2 ≡ ok t2
    → get_invisible_char v3 ≡ ok t3
    → v3 ≢ equal_char
    → get_unit_invisible_char v1 v2 v3 equal_char ≡ ok (first_byte t1 t2 ∷ second_byte t2 t3 ∷ [])
unfolding get_unit_invisible_char
two_bytes v1 v2 v3 r1 r2 r3 n3 = ground arith

three_bytes :
    (v1 v2 v3 v4 : ℕ) {t1 t2 t3 t4 : ℕ}
    → get_invisible_char v1 ≡ ok t1
    → get_invisible_char v2 ≡ ok t2
    → get_invisible_char v3 ≡ ok t3
    → get_invisible_char v4 ≡ ok t4
    → v4 ≢ equal_char
    → get_unit_invisible_char v1 v2 v3 v4
      ≡ ok (first_byte t1 t2 ∷ second_byte t2 t3 ∷ third_byte t3 t4 ∷ [])
unfolding get_unit_invisible_char
three_bytes v1 v2 v3 v4 r1 r2 r3 r4 n4 = ground arith

two_Reads : (a b : ℕ) → a < 256 → b < 256 → Reads (a ∷ b ∷ [])
unfolding get_unit_visible_char
two_Reads a b ha hb =
    let t1 : ℕ = a / 4 in
    let t2 : ℕ = a % 4 * 16 + b / 16 in
    let t3 : ℕ = b % 16 * 4 in
    let (w1, r1, _) = char_lem t1 (omega arith) in
    let (w2, r2, _) = char_lem t2 (omega arith) in
    let (w3, r3, n3) = char_lem t3 (omega arith) in
    (
      char t1,
      char t2,
      char t3,
      equal_char,
      rw (first_six_lem a ha, second_six_lem a b ha hb, mask_0f b hb, w1, w2, w3),
      two_bytes (char t1) (char t2) (char t3) r1 r2 r3 n3
          ∙ rw
              (
                first_byte_lem t1 t2 (omega arith) (omega arith),
                second_byte_lem t2 t3 (omega arith) (omega arith),
              )
              (ground arith),
    )

three_Reads : (a b c : ℕ) → a < 256 → b < 256 → c < 256 → Reads (a ∷ b ∷ c ∷ [])
unfolding get_unit_visible_char fourth_six
three_Reads a b c ha hb hc =
    let t1 : ℕ = a / 4 in
    let t2 : ℕ = a % 4 * 16 + b / 16 in
    let t3 : ℕ = b % 16 * 4 + c / 64 in
    let t4 : ℕ = c % 64 in
    let (w1, r1, _) = char_lem t1 (omega arith) in
    let (w2, r2, _) = char_lem t2 (omega arith) in
    let (w3, r3, _) = char_lem t3 (omega arith) in
    let (w4, r4, n4) = char_lem t4 (omega arith) in
    (
      char t1,
      char t2,
      char t3,
      char t4,
      rw (
        first_six_lem a ha,
        second_six_lem a b ha hb,
        third_six_lem b c hb hc,
        mask_3f c hc,
        w1,
        w2,
        w3,
        w4,
      ),
      three_bytes (char t1) (char t2) (char t3) (char t4) r1 r2 r3 r4 n4
          ∙ rw
              (
                first_byte_lem t1 t2 (omega arith) (omega arith),
                second_byte_lem t2 t3 (omega arith) (omega arith),
                third_byte_lem t3 t4 (omega arith) (omega arith),
              )
              (ground arith),
    )

-- A whole message: the units and the last unit of its encoding are whole units of four characters,
-- a third more than its bytes, and decode to it.
Encoded : List ℕ → Type 0
Encoded src =
    (units left : List ℕ) × (in_turn 3 get_unit_visible_char (length src / 3) src ≡ ok units)
    × (last_visible_unit src ≡ ok left)
    × (length (units ++ left) ≡ (length src + 2) / 3 * 4)
    × (in_turn 4 invisible_unit ((length src + 2) / 3) (units ++ left) ≡ ok src)

last_unit :
    (src : List ℕ)
    → length src / 3 ≡ 0
    → (length src + 2) / 3 ≡ 1
    → last_visible_unit src ≡ get_unit_visible_char src
    → Reads src
    → Encoded src
unfolding Encoded in_turn invisible_unit
last_unit src few one only (v1, v2, v3, v4, wrote, read) = (
  [],
  v1 ∷ v2 ∷ v3 ∷ v4 ∷ [],
  rw few refl,
  only ∙ wrote,
  rw one refl,
  rw (one, read) (ap ok (append-nil src)),
)

-- A unit in front of a message leaves the bytes behind the units as they were.
last_visible_unit-cons :
    (a b c : ℕ) (rest : List ℕ) → last_visible_unit (a ∷ b ∷ c ∷ rest) ≡ last_visible_unit rest
unfolding last_visible_unit
last_visible_unit-cons a b c rest =
    let n = length rest in
    let same : suc (suc (suc n)) % 3 ≡ n % 3 = omega arith in
    let skips : suc (suc (suc n)) - n % 3 ≡ suc (suc (suc (n - n % 3))) = omega arith in
    rw (same, skips) refl

encode_all : (src : List ℕ) → All (λ c. c < 256) src → Encoded src
unfolding Encoded in_turn invisible_unit last_visible_unit
encode_all [] h = ([], [], refl, refl, refl, refl)
encode_all (a ∷ []) (ha, h) = last_unit (a ∷ []) refl refl refl (one_Reads a ha)
encode_all (a ∷ b ∷ []) (ha, (hb, h)) = last_unit (a ∷ b ∷ []) refl refl refl (two_Reads a b ha hb)
encode_all (a ∷ b ∷ c ∷ rest) (ha, (hb, (hc, h))) =
    let (v1, v2, v3, v4, wrote, read) = three_Reads a b c ha hb hc in
    let (units, left, wrote', last, size, read') = encode_all rest h in
    let n = length rest in
    let more : suc (suc (suc n)) / 3 ≡ suc (n / 3) = omega arith in
    let more' : (suc (suc (suc n)) + 2) / 3 ≡ suc ((n + 2) / 3) = omega arith in
    (
      v1 ∷ v2 ∷ v3 ∷ v4 ∷ units,
      left,
      rw (more, in_turn, wrote, wrote') refl,
      last_visible_unit-cons a b c rest ∙ last,
      rw more' (omega (arith, size)),
      rw (more', in_turn, read, read') refl,
    )

-- Base64Encode succeeds on every byte string of at most 3 * 2 ^ 30 bytes, and Base64Decode gives the
-- string back.
pub base64_decode-base64_encode :
    (src : List ℕ)
    → All (λ c. c < 256) src
    → length src ≤ 3 * 2 ^ 30
    → (text : List ℕ) × (base64_encode src ≡ ok text) × (base64_decode text ≡ ok src)
unfolding Encoded base64_encode base64_decode
base64_decode-base64_encode src h short =
    let (units, left, wrote, last, size, read) = encode_all src h in
    let n = length src in
    let few : n / 3 % 2 ^ 32 ≡ n / 3 = omega (arith, short) in
    let few' : (n + 2) / 3 * 4 / 4 % 2 ^ 32 ≡ (n + 2) / 3 = omega (arith, short) in
    let whole : (n + 2) / 3 * 4 % 4 ≡ 0 = omega arith in
    (
      units ++ left,
      rw
          (
            few,
            unit_loop_lem 3 get_unit_visible_char (n / 3) 0 src (omega arith)
                (omega (arith, short)),
            wrote,
            last,
          )
          refl,
      rw
          (
            size,
            few',
            whole,
            unit_loop_lem 4 invisible_unit ((n + 2) / 3) 0 (units ++ left) (omega arith)
                (omega (arith, short)),
          )
          read,
    )
