-- ===== src/Coding/Base32/Alphabets.antt =====
-- Base32GetVisibleChar, Base32GetInvisibleChar and the pair for geo hashes of base/coding.cc, and
-- the law of an alphabet that the round trip rests on.
use csutil.Common.{ℕ, ◌+◌, ◌-◌, ◌<◌, ◌≡◌, ◌≢◌, arith, leb, if◌then◌else◌, ◌&&◌}
use csutil.Common.Status.{Result, ok, err, value, invalid_param}

pub base32_get_visible_char : ℕ → Result ℕ
base32_get_visible_char invisible_src =
    if leb 32 invisible_src
    then err invalid_param
    else if leb invisible_src 25
    then ok (invisible_src + b'A')
    else ok (invisible_src - 26 + b'2')

pub base32_get_invisible_char : ℕ → Result ℕ
base32_get_invisible_char visible_src =
    if leb b'A' visible_src && leb visible_src b'Z'
    then ok (visible_src - b'A')
    else if leb b'2' visible_src && leb visible_src b'7'
    then ok (visible_src - b'2' + 26)
    else err invalid_param

pub geo_hash_get_visible_char : ℕ → Result ℕ
geo_hash_get_visible_char invisible_src =
    if leb 32 invisible_src
    then err invalid_param
    else if leb invisible_src 9
    then ok (invisible_src + b'0')
    else if leb 10 invisible_src && leb invisible_src 16
    then ok (invisible_src - 10 + b'b')
    else if leb 17 invisible_src && leb invisible_src 18
    then ok (invisible_src - 17 + b'j')
    else if leb 19 invisible_src && leb invisible_src 20
    then ok (invisible_src - 19 + b'm')
    else ok (invisible_src - 21 + b'p')

pub geo_hash_get_invisible_char : ℕ → Result ℕ
geo_hash_get_invisible_char visible_src =
    if leb b'0' visible_src && leb visible_src b'9'
    then ok (visible_src - b'0')
    else if leb b'b' visible_src && leb visible_src b'h'
    then ok (visible_src - b'b' + 10)
    else if leb b'j' visible_src && leb visible_src b'k'
    then ok (visible_src - b'j' + 17)
    else if leb b'm' visible_src && leb visible_src b'n'
    then ok (visible_src - b'm' + 19)
    else if leb b'p' visible_src && leb visible_src b'z'
    then ok (visible_src - b'p' + 21)
    else err invalid_param

-- Each number below 32 has a character, which is not '=' and reads back as the number.
pub record IsAlphabet (to_visible to_invisible : ℕ → Result ℕ) : Type 0 where
  pub visible : (n : ℕ) → n < 32 → to_visible n ≡ ok (value (to_visible n))
  pub reads : (n : ℕ) → n < 32 → to_invisible (value (to_visible n)) ≡ ok n
  pub unpadded : (n : ℕ) → n < 32 → value (to_visible n) ≢ b'='

pub base32-IsAlphabet : IsAlphabet base32_get_visible_char base32_get_invisible_char
unfolding base32_get_visible_char base32_get_invisible_char
base32-IsAlphabet = record {
  visible = λ n h. ground arith;
  reads = λ n h. ground arith;
  unpadded = λ n h. ground arith;
}

pub geo_hash-IsAlphabet : IsAlphabet geo_hash_get_visible_char geo_hash_get_invisible_char
unfolding geo_hash_get_visible_char geo_hash_get_invisible_char
geo_hash-IsAlphabet = record {
  visible = λ n h. ground arith;
  reads = λ n h. ground arith;
  unpadded = λ n h. ground arith;
}
