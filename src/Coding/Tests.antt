-- ===== src/Coding/Tests.antt =====
-- The encoders and decoders of base/coding.cc and base/msg.cc on concrete bytes.
mod Text
use csutil.Common.{
  ℕ, zero, suc, ◌+◌, ◌*◌, ◌^◌, ◌<◌, ◌≤◌, ◌≡◌, refl, arith, ltb, if◌then◌else◌, true,
}
use csutil.Common.{List, [], ◌∷◌, ◌++◌, All, length}
use csutil.Common.Status.{Result, ok, err, undefined, invalid_length}
use csutil.Coding.Fixed.{encode_fixed32, decode_fixed32, encode_fixed64, decode_fixed64}
use csutil.Coding.Fixed.{decode_fixed32-encode_fixed32, decode_fixed64-encode_fixed64}
use csutil.Coding.Fixed.{encode_to_msg, decode_from_msg, decode_from_msg-encode_to_msg}
use csutil.Coding.Var.{encode_var32, decode_var32, encode_var64, decode_var64}
use csutil.Coding.Var.RoundTrip.{decode_var32-encode_var32, decode_var64-encode_var64}
use csutil.Coding.Var.RoundTrip.{decode_var32_overlong, decode_var_unfinished}
use csutil.Coding.ZigZag.{encode_zig_zag32, decode_zig_zag32, encode_zig_zag64, decode_zig_zag64}
use csutil.Coding.ZigZag.{
  word_of_pos, word_of_negsuc, encode_zig_zag32-order, encode_zig_zag64-order,
}
use csutil.Coding.ZigZag.{decode_zig_zag32-encode_zig_zag32, decode_zig_zag64-encode_zig_zag64}

abbrev hello : List ℕ
hello = b'h' ∷ b'e' ∷ b'l' ∷ b'l' ∷ b'o' ∷ []

decode_var32-encode_var32_example :
    (bytes : List ℕ) × (encode_var32 300 [] ≡ ok bytes)
    × (length bytes ≤ 5)
    × ((rest : List ℕ) → decode_var32 (bytes ++ rest) ≡ ok 300)
decode_var32-encode_var32_example = decode_var32-encode_var32 300 (omega arith)

abbrev all_continue : List ℕ
all_continue = 0x80 ∷ 0xff ∷ 0x81 ∷ 0x80 ∷ 0xfe ∷ []
