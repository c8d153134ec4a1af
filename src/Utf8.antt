-- ===== src/Utf8.antt =====
-- base/utf8.cc: IsUtf8. The loop reads the bytes from the first on.
pub mod Masks
pub mod Sequences
pub mod Text
mod Tests
use csutil.Common.{
  ℕ, zero, suc, ◌+◌, ◌-◌, ◌*◌, ◌%◌, ◌^◌, ltb, leb, ◌==◌, ◌&&◌, ◌||◌, if◌then◌else◌, Bool, true,
  false,
}
use csutil.Common.{List, [], ◌∷◌, length, drop, Option, none, some, bit_and, bit_or}

pub is_valid_continuation_byte : ℕ → Bool
is_valid_continuation_byte byte = bit_and byte 0xc0 == 0x80

pub is_valid_codepoint : ℕ → ℕ → Bool
is_valid_codepoint codepoint num_bytes =
    if num_bytes == 2
    then leb 0x80 codepoint && leb codepoint 0x7ff
    else if num_bytes == 3
    then leb 0x800 codepoint
      && leb codepoint 0xffff
      && (ltb codepoint 0xd800 || ltb 0xdfff codepoint)
    else if num_bytes == 4
    then leb 0x10000 codepoint && leb codepoint 0x10ffff
    else false

-- num_bytes and the first bits of the codepoint.
pub lead : ℕ → Option (ℕ × ℕ)
lead byte =
    if bit_and byte 0xe0 == 0xc0
    then some (2, bit_and byte 0x1f)
    else if bit_and byte 0xf0 == 0xe0
    then some (3, bit_and byte 0x0f)
    else if bit_and byte 0xf8 == 0xf0
    then some (4, bit_and byte 0x07)
    else none

pub join : ℕ → ℕ → ℕ
join codepoint continuation_byte =
    bit_or (codepoint * 2 ^ 6 % 2 ^ 32) (bit_and continuation_byte 0x3f)

-- The loop over the continuation bytes, with the number that is left. There are enough bytes.
pub continuation : ℕ → ℕ → List ℕ → Option ℕ
continuation zero codepoint bytes = some codepoint
continuation (suc left) codepoint [] = none
continuation (suc left) codepoint (byte ∷ bytes) =
    let rest = continuation left (join codepoint byte) bytes in
    if is_valid_continuation_byte byte then rest else none

-- The bytes behind a sequence, where its codepoint is valid.
pub if_valid : ℕ → Option ℕ → List ℕ → Option (List ℕ)
if_valid num_bytes none rest = none
if_valid num_bytes (some codepoint) rest =
    if is_valid_codepoint codepoint num_bytes then some rest else none

pub multi_byte : Option (ℕ × ℕ) → List ℕ → Option (List ℕ)
multi_byte none bytes = none
multi_byte (some (num_bytes, codepoint)) bytes =
    if ltb (suc (length bytes)) num_bytes
    then none
    else if_valid num_bytes (continuation (num_bytes - 1) codepoint bytes)
        (drop (num_bytes - 1) bytes)

-- One round: the bytes that are left, or none where it returns false.
pub sequence : ℕ → List ℕ → Option (List ℕ)
sequence byte bytes = if leb byte 0x7f then some bytes else multi_byte (lead byte) bytes

-- The loop, with the rounds that are left.
pub utf8_loop : ℕ → List ℕ → Bool
utf8_loop rounds [] = true
utf8_loop zero (byte ∷ bytes) = false
utf8_loop (suc rounds) (byte ∷ bytes) = elim (sequence byte bytes) [
  | none ↦ false
  | some rest ↦ utf8_loop rounds rest
]

-- A round takes a byte at least.
pub is_utf8 : List ℕ → Bool
is_utf8 str = utf8_loop (length str) str
