-- ===== src/BitArr.antt =====
-- base/bit_arr.cc: BitArr over its array of bytes; a value of the type stands after the constructor,
-- and `Init` gives it its bytes. The calls give an output of their own, so none of them is a null
-- pointer.
pub mod Laws
mod Tests
use csutil.Common.{ℕ, zero, suc, ◌+◌, ◌-◌, ◌*◌, ◌/◌, ◌%◌, ◌^◌, bit_and, bit_or}
use csutil.Common.{Bool, true, false, not, leb, ◌==◌, if◌then◌else◌}
use csutil.Common.{List, [], ◌∷◌, ◌++◌, get_or, set, replicate, length}
use csutil.Common.Status.{Result, ok, err, undefined, ◌>>=◌, ◌>>◌, fail_if, invalid_param, not_init}

pub record BitArr : Type 0 where
  pub bits_num : ℕ
  pub bits : List ℕ
  pub is_init : Bool

pub new_bit_arr : ℕ → BitArr
new_bit_arr bits_num = record { bits_num = bits_num; bits = []; is_init = false }

-- The sum is one of uint32_t.
bytes_num : ℕ → ℕ
bytes_num bits_num = (bits_num + 8 - 1) % 2 ^ 32 / 8

pub init : BitArr → Result BitArr
init arr = do
  fail_if (arr.bits_num == 0) invalid_param
  ok (record arr { bits = replicate (bytes_num arr.bits_num) 0; is_init = true })

-- `1 << (kBitsPerByte - bits_index - 1)`, as a uint8_t.
bits_value : ℕ → ℕ
bits_value index = 2 ^ (8 - index % 8 - 1) % 256

-- A byte with the bit set or cleared: `byte |= v`, or `byte &= ~v`.
put_bit : Bool → ℕ → ℕ → ℕ
put_bit true v byte = bit_or byte v
put_bit false v byte = bit_and byte (255 - v)

-- An access outside the bytes is undefined.
byte_at : BitArr → ℕ → Result ℕ
byte_at arr bytes_index =
    if leb (length arr.bits) bytes_index then undefined else ok (get_or arr.bits bytes_index 0)

pub put : BitArr → ℕ → Bool → Result BitArr
put arr index value = do
  fail_if (leb arr.bits_num index) invalid_param
  fail_if (not arr.is_init) not_init
  byte ← byte_at arr (index / 8)
  ok (record arr { bits = set arr.bits (index / 8) (put_bit value (bits_value index) byte) })

pub get : BitArr → ℕ → Result Bool
get arr index = do
  fail_if (leb arr.bits_num index) invalid_param
  fail_if (not arr.is_init) not_init
  byte ← byte_at arr (index / 8)
  ok (not (bit_and byte (bits_value index) == 0))

pub clear : BitArr → Result BitArr
clear arr = do
  fail_if (not arr.is_init) not_init
  ok (record arr { bits = replicate (bytes_num arr.bits_num) 0 })

pub size : BitArr → Result ℕ
size arr = do fail_if (not arr.is_init) not_init; ok arr.bits_num

-- The bits below `index`, the highest first.
to_string_loop : BitArr → ℕ → List ℕ → Result (List ℕ)
to_string_loop arr zero str = ok str
to_string_loop arr (suc index) str = do
  value ← get arr index
  to_string_loop arr index (str ++ (if value then 0x31 else 0x30) ∷ [])

-- The index is an int32_t: from 2 ^ 31 bits on it starts below 0, and at 2 ^ 31 it overflows.
to_string : BitArr → List ℕ → Result (List ℕ)
to_string arr str = do
  fail_if (not arr.is_init) not_init
  if leb arr.bits_num (2 ^ 31 - 1)
      then to_string_loop arr arr.bits_num str
      else if arr.bits_num == 2 ^ 31
      then undefined
      else ok str
