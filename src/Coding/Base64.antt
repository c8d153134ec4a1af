-- ===== src/Coding/Base64.antt =====
-- Base64Encode and Base64Decode of base/coding.cc with GetUnitVisibleChar, GetUnitInvisibleChar,
-- GetVisibleChar and GetInvisibleChar.
pub mod RoundTrip
use csutil.Common.{ℕ, ◌+◌, ◌-◌, ◌*◌, ◌/◌, ◌%◌, ◌^◌, ltb, leb, ◌==◌, if◌then◌else◌}
use csutil.Common.{bit_and, bit_or, Bool, ◌&&◌, List, [], ◌∷◌, ◌++◌, length}
use csutil.Common.{drop}
use csutil.Common.Status.{Result, ok, err, undefined, ◌>>=◌, invalid_param}
use csutil.Coding.Chunks.{unit_loop}

abbrev pub equal_char : ℕ
equal_char = b'='

pub get_visible_char : ℕ → Result ℕ
get_visible_char invisible_src =
    if leb 64 invisible_src
    then err invalid_param
    else if leb invisible_src 25
    then ok (invisible_src + b'A')
    else if leb 26 invisible_src && leb invisible_src 51
    then ok (invisible_src - 26 + b'a')
    else if leb 52 invisible_src && leb invisible_src 61
    then ok (invisible_src - 52 + b'0')
    else if invisible_src == 62
    then ok b'+'
    else ok b'/'

pub get_invisible_char : ℕ → Result ℕ
get_invisible_char visible_src =
    if leb b'A' visible_src && leb visible_src b'Z'
    then ok (visible_src - b'A')
    else if leb b'a' visible_src && leb visible_src b'z'
    then ok (visible_src - b'a' + 26)
    else if leb b'0' visible_src && leb visible_src b'9'
    then ok (visible_src - b'0' + 52)
    else if visible_src == b'+'
    then ok 62
    else if visible_src == b'/'
    then ok 63
    else err invalid_param

-- The four six-bit numbers of a unit; the second and third also take bits of the next byte.
first_six : ℕ → ℕ
first_six a = bit_and a 0xfc / 2 ^ 2

second_six : ℕ → ℕ → ℕ
second_six a b = bit_or (bit_and a 0x03 * 2 ^ 4) (bit_and b 0xf0 / 2 ^ 4)

third_six : ℕ → ℕ → ℕ
third_six b c = bit_or (bit_and b 0x0f * 2 ^ 2) (bit_and c 0xc0 / 2 ^ 6)

fourth_six : ℕ → ℕ
fourth_six c = bit_and c 0x3f

-- The unit holds `size` bytes, from one to three.
pub get_unit_visible_char : List ℕ → Result (List ℕ)
get_unit_visible_char (a ∷ []) = do
  num1 ← get_visible_char (first_six a)
  num2 ← get_visible_char (bit_and a 0x03 * 2 ^ 4)
  ok (num1 ∷ num2 ∷ equal_char ∷ equal_char ∷ [])
get_unit_visible_char (a ∷ b ∷ []) = do
  num1 ← get_visible_char (first_six a)
  num2 ← get_visible_char (second_six a b)
  num3 ← get_visible_char (bit_and b 0x0f * 2 ^ 2)
  ok (num1 ∷ num2 ∷ num3 ∷ equal_char ∷ [])
get_unit_visible_char (a ∷ b ∷ c ∷ []) = do
  num1 ← get_visible_char (first_six a)
  num2 ← get_visible_char (second_six a b)
  num3 ← get_visible_char (third_six b c)
  num4 ← get_visible_char (fourth_six c)
  ok (num1 ∷ num2 ∷ num3 ∷ num4 ∷ [])
get_unit_visible_char _ = err invalid_param

-- The three bytes of four six-bit numbers, each cut off at eight bits.
first_byte : ℕ → ℕ → ℕ
first_byte t1 t2 = bit_or (bit_and t1 0x3f * 2 ^ 2) (bit_and t2 0x3f / 2 ^ 4) % 256

second_byte : ℕ → ℕ → ℕ
second_byte t2 t3 = bit_or (bit_and t2 0x3f * 2 ^ 4) (bit_and t3 0x3f / 2 ^ 2) % 256

third_byte : ℕ → ℕ → ℕ
third_byte t3 t4 = bit_or (bit_and t3 0x3f * 2 ^ 6) (bit_and t4 0x3f) % 256

-- The unit is the four characters v1 to v4.
pub get_unit_invisible_char : ℕ → ℕ → ℕ → ℕ → Result (List ℕ)
get_unit_invisible_char v1 v2 v3 v4 =
    if v3 == equal_char && v4 == equal_char
    then (do t1 ← get_invisible_char v1; t2 ← get_invisible_char v2; ok (first_byte t1 t2 ∷ []))
    else if v4 == equal_char
    then (do
      t1 ← get_invisible_char v1
      t2 ← get_invisible_char v2
      t3 ← get_invisible_char v3
      ok (first_byte t1 t2 ∷ second_byte t2 t3 ∷ []))
    else (do
      t1 ← get_invisible_char v1
      t2 ← get_invisible_char v2
      t3 ← get_invisible_char v3
      t4 ← get_invisible_char v4
      ok (first_byte t1 t2 ∷ second_byte t2 t3 ∷ third_byte t3 t4 ∷ []))

-- The three bytes, or fewer, of a unit of four characters.
invisible_unit : List ℕ → Result (List ℕ)
invisible_unit (v1 ∷ v2 ∷ v3 ∷ v4 ∷ []) = get_unit_invisible_char v1 v2 v3 v4
invisible_unit _ = undefined

-- The unit of the bytes left, if there are any.
last_visible_unit : List ℕ → Result (List ℕ)
last_visible_unit src =
    let bytes_left = length src % 3 in
    if bytes_left == 0 then ok [] else get_unit_visible_char (drop (length src - bytes_left) src)

-- Whole units of three bytes, then what is left.
pub base64_encode : List ℕ → Result (List ℕ)
base64_encode src = do
  units ← unit_loop 3 get_unit_visible_char (length src / 3 % 2 ^ 32) 0 src
  left ← last_visible_unit src
  ok (units ++ left)

-- Units of four characters; a length that is no multiple of four is refused before the loop.
pub base64_decode : List ℕ → Result (List ℕ)
base64_decode src =
    let units = unit_loop 4 invisible_unit (length src / 4 % 2 ^ 32) 0 src in
    if length src % 4 == 0 then units else err invalid_param
