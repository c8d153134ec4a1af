-- ===== src/Coding/Base32.antt =====
-- Base32Encode, Base32Decode and their variants for geo hashes in base/coding.cc. The unit
-- functions take the alphabet as a pair of functions, as the source does.
mod Units
pub mod Alphabets
pub mod RoundTrip
use csutil.Common.{ℕ, ◌-◌, ◌/◌, ◌%◌, ◌^◌, drop, ◌==◌, if◌then◌else◌, List, [], ◌∷◌, ◌++◌, length}
use csutil.Common.Status.{Result, ok, err, undefined, ◌>>=◌, invalid_param}
use csutil.Coding.Chunks.{unit_loop}
use Units.{get_unit_visible_char, get_unit_invisible_char}
use Alphabets.{base32_get_visible_char, base32_get_invisible_char}
use Alphabets.{geo_hash_get_visible_char, geo_hash_get_invisible_char}

-- The five bytes, or fewer, of a unit of eight characters.
invisible_unit : (ℕ → Result ℕ) → List ℕ → Result (List ℕ)
invisible_unit to_invisible_char (v1 ∷ v2 ∷ v3 ∷ v4 ∷ v5 ∷ v6 ∷ v7 ∷ v8 ∷ []) =
    get_unit_invisible_char v1 v2 v3 v4 v5 v6 v7 v8 to_invisible_char
invisible_unit to_invisible_char _ = undefined

abbrev visible_unit : (ℕ → Result ℕ) → List ℕ → Result (List ℕ)
visible_unit to_visible_char src = get_unit_visible_char src to_visible_char

-- The unit of the bytes left, if there are any.
last_visible_unit : (ℕ → Result ℕ) → List ℕ → Result (List ℕ)
last_visible_unit to_visible_char src =
    let bytes_left = length src % 5 in
    if bytes_left == 0
    then ok []
    else visible_unit to_visible_char (drop (length src - bytes_left) src)

-- Whole units of five bytes, then what is left.
base32_encode_internal : List ℕ → (ℕ → Result ℕ) → Result (List ℕ)
base32_encode_internal src to_visible_char = do
  units ← unit_loop 5 (visible_unit to_visible_char) (length src / 5 % 2 ^ 32) 0 src
  left ← last_visible_unit to_visible_char src
  ok (units ++ left)

-- Units of eight characters; a length that is no multiple of eight is refused before the loop.
base32_decode_internal : List ℕ → (ℕ → Result ℕ) → Result (List ℕ)
base32_decode_internal src to_invisible_char =
    let units = unit_loop 8 (invisible_unit to_invisible_char) (length src / 8 % 2 ^ 32) 0 src in
    if length src % 8 == 0 then units else err invalid_param

pub base32_encode : List ℕ → Result (List ℕ)
base32_encode src = base32_encode_internal src base32_get_visible_char

pub base32_decode : List ℕ → Result (List ℕ)
base32_decode src = base32_decode_internal src base32_get_invisible_char

pub base32_encode_for_geo_hash : List ℕ → Result (List ℕ)
base32_encode_for_geo_hash src = base32_encode_internal src geo_hash_get_visible_char

pub base32_decode_for_geo_hash : List ℕ → Result (List ℕ)
base32_decode_for_geo_hash src = base32_decode_internal src geo_hash_get_invisible_char
