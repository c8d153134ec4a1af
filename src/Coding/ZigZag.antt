-- ===== src/Coding/ZigZag.antt =====
-- EncodeZigZag32, DecodeZigZag32, EncodeZigZag64 and DecodeZigZag64 of base/coding.cc. A signed
-- word of w bits is its bit pattern, a number below 2 ^ w.
use csutil.Common.{ℕ, ◌+◌, ◌-◌, ◌*◌, ◌/◌, ◌%◌, ◌^◌, ◌<◌, ◌≡◌, refl, ◌⊎◌, inl, inr, arith}
use csutil.Common.{bit_and, bit_xor, leb, if◌then◌else◌}
use native.Mathlib.Decide.{dec_lt}
use csutil.Common.Bits.{bit_xor-ones, bit_xor-zero, bit_and-one}

-- `(num << 1) ^ (num >> (w - 1))`, the second shift filling in the sign.
encode_zig_zag : ℕ → ℕ → ℕ
encode_zig_zag w num = bit_xor (num * 2 % 2 ^ w) (if leb (2 ^ (w - 1)) num then 2 ^ w - 1 else 0)

-- `(in >> 1) ^ (-(in & 1))`
decode_zig_zag : ℕ → ℕ → ℕ
decode_zig_zag w src = bit_xor (src / 2) ((2 ^ w - bit_and src 1) % 2 ^ w)

pub encode_zig_zag32 : ℕ → ℕ
unfolding encode_zig_zag
encode_zig_zag32 num = encode_zig_zag 32 num

pub decode_zig_zag32 : ℕ → ℕ
unfolding decode_zig_zag
decode_zig_zag32 src = decode_zig_zag 32 src

pub encode_zig_zag64 : ℕ → ℕ
unfolding encode_zig_zag
encode_zig_zag64 num = encode_zig_zag 64 num

pub decode_zig_zag64 : ℕ → ℕ
unfolding decode_zig_zag
decode_zig_zag64 src = decode_zig_zag 64 src

-- The bit pattern of the integers n and -(n + 1) in w bits.
abbrev pub word_of_pos : ℕ → ℕ → ℕ
word_of_pos w n = n

abbrev pub word_of_negsuc : ℕ → ℕ → ℕ
word_of_negsuc w n = 2 ^ w - 1 - n

-- The 32-bit encoding counts 0, -1, 1, -2, ... up from 0: an integer n >= 0 gives 2 * n, and
-- -(n + 1) gives 2 * n + 1.
pub encode_zig_zag32-order :
    (n : ℕ)
    → n < 2 ^ 31
    → (encode_zig_zag32 (word_of_pos 32 n) ≡ 2 * n)
      × (encode_zig_zag32 (word_of_negsuc 32 n) ≡ 2 * n + 1)
unfolding encode_zig_zag32
encode_zig_zag32-order n h = (
  ground (arith, bit_xor-zero (n * 2 % 2 ^ 32)),
  ground (arith, bit_xor-ones 32 ((2 ^ 32 - 1 - n) * 2 % 2 ^ 32)),
)

-- The 64-bit encoding counts 0, -1, 1, -2, ... up from 0: an integer n >= 0 gives 2 * n, and
-- -(n + 1) gives 2 * n + 1.
pub encode_zig_zag64-order :
    (n : ℕ)
    → n < 2 ^ 63
    → (encode_zig_zag64 (word_of_pos 64 n) ≡ 2 * n)
      × (encode_zig_zag64 (word_of_negsuc 64 n) ≡ 2 * n + 1)
unfolding encode_zig_zag64
encode_zig_zag64-order n h = (
  ground (arith, bit_xor-zero (n * 2 % 2 ^ 64)),
  ground (arith, bit_xor-ones 64 ((2 ^ 64 - 1 - n) * 2 % 2 ^ 64)),
)

decode_zig_zag32-order :
    (n : ℕ)
    → n < 2 ^ 31
    → (decode_zig_zag32 (2 * n) ≡ word_of_pos 32 n)
      × (decode_zig_zag32 (2 * n + 1) ≡ word_of_negsuc 32 n)
unfolding decode_zig_zag32
decode_zig_zag32-order n h = (
  ground (arith, bit_xor-zero (2 * n / 2), bit_and-one (2 * n)),
  ground (arith, bit_xor-ones 32 ((2 * n + 1) / 2), bit_and-one (2 * n + 1)),
)

decode-encode32 :
    (num n : ℕ)
    → n < 2 ^ 31
    → (num ≡ word_of_pos 32 n) ⊎ (num ≡ word_of_negsuc 32 n)
    → decode_zig_zag32 (encode_zig_zag32 num) ≡ num
decode-encode32 num n h (inl e) =
    rw (e, (encode_zig_zag32-order n h).0) (decode_zig_zag32-order n h).0
decode-encode32 num n h (inr e) =
    rw (e, (encode_zig_zag32-order n h).1) (decode_zig_zag32-order n h).1

encode-decode32 :
    (src n : ℕ)
    → n < 2 ^ 31
    → (src ≡ 2 * n) ⊎ (src ≡ 2 * n + 1)
    → encode_zig_zag32 (decode_zig_zag32 src) ≡ src
encode-decode32 src n h (inl e) =
    rw (e, (decode_zig_zag32-order n h).0) (encode_zig_zag32-order n h).0
encode-decode32 src n h (inr e) =
    rw (e, (decode_zig_zag32-order n h).1) (encode_zig_zag32-order n h).1

-- DecodeZigZag32 undoes EncodeZigZag32 on every 32-bit word, and EncodeZigZag32 undoes DecodeZigZag32.
pub decode_zig_zag32-encode_zig_zag32 :
    (word : ℕ)
    → word < 2 ^ 32
    → (decode_zig_zag32 (encode_zig_zag32 word) ≡ word)
      × (encode_zig_zag32 (decode_zig_zag32 word) ≡ word)
decode_zig_zag32-encode_zig_zag32 word h = (by_sign (dec_lt word (2 ^ 31)), by_parity)
  where
    by_sign : Dec (word < 2 ^ 31) → decode_zig_zag32 (encode_zig_zag32 word) ≡ word
    by_sign (yes small) = decode-encode32 word word small (inl refl)
    by_sign (no large) = decode-encode32 word (2 ^ 32 - 1 - word) (omega arith) (inr (omega arith))

    by_parity : encode_zig_zag32 (decode_zig_zag32 word) ≡ word
    by_parity = encode-decode32 word (word / 2) (omega arith) (omega arith)

decode_zig_zag64-order :
    (n : ℕ)
    → n < 2 ^ 63
    → (decode_zig_zag64 (2 * n) ≡ word_of_pos 64 n)
      × (decode_zig_zag64 (2 * n + 1) ≡ word_of_negsuc 64 n)
unfolding decode_zig_zag64
decode_zig_zag64-order n h = (
  ground (arith, bit_xor-zero (2 * n / 2), bit_and-one (2 * n)),
  ground (arith, bit_xor-ones 64 ((2 * n + 1) / 2), bit_and-one (2 * n + 1)),
)

decode-encode64 :
    (num n : ℕ)
    → n < 2 ^ 63
    → (num ≡ word_of_pos 64 n) ⊎ (num ≡ word_of_negsuc 64 n)
    → decode_zig_zag64 (encode_zig_zag64 num) ≡ num
decode-encode64 num n h (inl e) =
    rw (e, (encode_zig_zag64-order n h).0) (decode_zig_zag64-order n h).0
decode-encode64 num n h (inr e) =
    rw (e, (encode_zig_zag64-order n h).1) (decode_zig_zag64-order n h).1

encode-decode64 :
    (src n : ℕ)
    → n < 2 ^ 63
    → (src ≡ 2 * n) ⊎ (src ≡ 2 * n + 1)
    → encode_zig_zag64 (decode_zig_zag64 src) ≡ src
encode-decode64 src n h (inl e) =
    rw (e, (decode_zig_zag64-order n h).0) (encode_zig_zag64-order n h).0
encode-decode64 src n h (inr e) =
    rw (e, (decode_zig_zag64-order n h).1) (encode_zig_zag64-order n h).1

-- DecodeZigZag64 undoes EncodeZigZag64 on every 64-bit word, and EncodeZigZag64 undoes DecodeZigZag64.
pub decode_zig_zag64-encode_zig_zag64 :
    (word : ℕ)
    → word < 2 ^ 64
    → (decode_zig_zag64 (encode_zig_zag64 word) ≡ word)
      × (encode_zig_zag64 (decode_zig_zag64 word) ≡ word)
decode_zig_zag64-encode_zig_zag64 word h = (by_sign (dec_lt word (2 ^ 63)), by_parity)
  where
    by_sign : Dec (word < 2 ^ 63) → decode_zig_zag64 (encode_zig_zag64 word) ≡ word
    by_sign (yes small) = decode-encode64 word word small (inl refl)
    by_sign (no large) = decode-encode64 word (2 ^ 64 - 1 - word) (omega arith) (inr (omega arith))

    by_parity : encode_zig_zag64 (decode_zig_zag64 word) ≡ word
    by_parity = encode-decode64 word (word / 2) (omega arith) (omega arith)
