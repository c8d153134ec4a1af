-- ===== src/Coding/Var.antt =====
-- EncodeVar32, DecodeVar32, EncodeVar64 and DecodeVar64 of base/coding.cc.
pub mod RoundTrip
use csutil.Common.{ℕ, zero, suc, ◌+◌, ◌*◌, ◌/◌, ◌%◌, ◌^◌, ◌<◌, ◌≤◌, ◌≡◌, refl, ap, arith}
use csutil.Common.{List, [], ◌∷◌, ◌++◌, length, ltb, leb, ◌==◌, if◌then◌else◌, bit_and, bit_or}
use csutil.Common.Status.{Result, ok, err, undefined, ◌>>=◌, invalid_length}

-- The loop over `num` with the slots that are left in `buf`; a write past the buffer is undefined.
var_loop : ℕ → ℕ → Result (List ℕ)
var_loop zero num = undefined
var_loop (suc slots) num =
    let more = var_loop slots (num / 2 ^ 7) in
    if ltb 0x7f num
    then (more >>= λ bytes. ok (bit_or (bit_and num 0x7f) 0x80 ∷ bytes))
    else ok ((num % 256) ∷ [])

pub encode_var32 : ℕ → List ℕ → Result (List ℕ)
unfolding var_loop
encode_var32 num out = do bytes ← var_loop 5 num; ok (out ++ bytes)

pub encode_var64 : ℕ → List ℕ → Result (List ℕ)
unfolding var_loop
encode_var64 num out = do bytes ← var_loop 10 num; ok (out ++ bytes)

-- The loop over the bytes from index i on, over words of `width` bits. A shift by the width or
-- more is undefined; bits that a shift moves out at the top are lost, and the sum wraps. Where no byte ends the number, DecodeVar returns kInvalidLength.
get_var_loop : ℕ → ℕ → ℕ → List ℕ → Result ℕ
get_var_loop width i value [] = err invalid_length
get_var_loop width i value (ch ∷ rest) =
    let more =
      get_var_loop width (i + 1) ((value + bit_and ch 0x7f * 2 ^ (7 * i)) % 2 ^ width) rest in
    if leb width (7 * i)
    then undefined
    else if bit_and ch 0x80 == 0
    then ok ((value + ch * 2 ^ (7 * i)) % 2 ^ width)
    else more

pub decode_var32 : List ℕ → Result ℕ
unfolding get_var_loop
decode_var32 src = get_var_loop 32 0 0 src

pub decode_var64 : List ℕ → Result ℕ
unfolding get_var_loop
decode_var64 src = get_var_loop 64 0 0 src
