-- ===== src/Coding/Fixed.antt =====
-- EncodeFixed32, DecodeFixed32, EncodeFixed64 and DecodeFixed64 of base/coding.cc on a
-- little-endian machine, and the framing of base/msg.cc on top of them.
use csutil.Common.{ℕ, zero, suc, ◌+◌, ◌-◌, ◌*◌, ◌/◌, ◌%◌, ◌^◌, ◌<◌, ◌≤◌, ◌≡◌, refl, ap, arith}
use csutil.Common.{List, [], ◌∷◌, ◌++◌, length, drop, take, ltb, leb, ◌==◌, ◌||◌, if◌then◌else◌}
use csutil.Common.Status.{Result, ok, err, undefined, ◌>>=◌, ◌>>◌, fail_if}
use csutil.Common.Status.{invalid_param, invalid_length}
use native.Mathlib.Nat.{pow-suc}

-- `memcpy(buf, &num, k)`: the k bytes of a number, lowest first.
store_bytes : ℕ → ℕ → List ℕ
store_bytes zero num = []
store_bytes (suc k) num = (num % 256) ∷ store_bytes k (num / 256)

-- `memcpy(value, in.data(), k)`; a read past the end gives nothing.
load_bytes : ℕ → List ℕ → ℕ
load_bytes zero bytes = 0
load_bytes (suc k) [] = 0
load_bytes (suc k) (b ∷ bytes) = b + 256 * load_bytes k bytes

pub encode_fixed32 : ℕ → List ℕ → List ℕ
unfolding store_bytes
encode_fixed32 num out = out ++ store_bytes 4 num

unfoldable pub decode_fixed32 : List ℕ → Result ℕ
unfolding load_bytes
decode_fixed32 src = if ltb (length src) 4 then err invalid_length else ok (load_bytes 4 src)

pub encode_fixed64 : ℕ → List ℕ → List ℕ
unfolding store_bytes
encode_fixed64 num out = out ++ store_bytes 8 num

pub decode_fixed64 : List ℕ → Result ℕ
unfolding load_bytes
decode_fixed64 src = if ltb (length src) 8 then err invalid_length else ok (load_bytes 8 src)

length-store_bytes : (k num : ℕ) → length (store_bytes k num) ≡ k
unfolding store_bytes
length-store_bytes zero num = refl
length-store_bytes (suc k) num = ap suc (length-store_bytes k (num / 256))

load_bytes-store_bytes :
    (k num : ℕ) (rest : List ℕ) → num < 256 ^ k → load_bytes k (store_bytes k num ++ rest) ≡ num
unfolding store_bytes load_bytes
load_bytes-store_bytes zero num rest h = omega arith
load_bytes-store_bytes (suc k) num rest h =
    omega (arith, load_bytes-store_bytes k (num / 256) rest (omega (arith, pow-suc 256 k)))

-- A 32-bit number, written by EncodeFixed32, is read back by DecodeFixed32 whatever follows it.
pub decode_fixed32-encode_fixed32 :
    (num : ℕ) (rest : List ℕ)
    → num < 2 ^ 32
    → decode_fixed32 (encode_fixed32 num [] ++ rest) ≡ ok num
unfolding decode_fixed32 encode_fixed32
decode_fixed32-encode_fixed32 num rest h = ground (arith, load_bytes-store_bytes 4 num rest h)

-- A 64-bit number, written by EncodeFixed64, is read back by DecodeFixed64 whatever follows it.
pub decode_fixed64-encode_fixed64 :
    (num : ℕ) (rest : List ℕ)
    → num < 2 ^ 64
    → decode_fixed64 (encode_fixed64 num [] ++ rest) ≡ ok num
unfolding decode_fixed64 encode_fixed64
decode_fixed64-encode_fixed64 num rest h = ground (arith, load_bytes-store_bytes 8 num rest h)

-- EncodeToMsg: the length of the data in front of it.
pub encode_to_msg : List ℕ → List ℕ
unfolding encode_fixed32
encode_to_msg data' = encode_fixed32 (length data' % 2 ^ 32) [] ++ data'

-- DecodeFromMsg, whose first test is on the size as a 32-bit int; a length that is not that of the rest stops the program at an `assert`.
pub decode_from_msg : List ℕ → Result (List ℕ)
decode_from_msg msg = do
  fail_if (leb (2 ^ 31) (length msg % 2 ^ 32) || ltb (length msg % 2 ^ 32) 4) invalid_param
  len ← decode_fixed32 msg
  if len == length msg - 4 then ok (take len (drop 4 msg)) else undefined

take_all : (xs : List ℕ) (n : ℕ) → length xs ≤ n → take n xs ≡ xs
take_all [] zero h = refl
take_all [] (suc n) h = refl
take_all (x ∷ xs) zero h = absurd (omega arith)
take_all (x ∷ xs) (suc n) h = ap (◌∷◌ x) (take_all xs n (omega arith))

drop-encode_to_msg : (data' : List ℕ) → drop 4 (encode_to_msg data') ≡ data'
unfolding encode_to_msg encode_fixed32 store_bytes
drop-encode_to_msg data' = refl

length-encode_to_msg : (data' : List ℕ) → length (encode_to_msg data') ≡ 4 + length data'
unfolding encode_to_msg encode_fixed32 store_bytes
length-encode_to_msg data' = omega arith

decode_fixed32-encode_to_msg :
    (data' : List ℕ)
    → length data' < 2 ^ 32
    → decode_fixed32 (encode_to_msg data') ≡ ok (length data')
unfolding encode_to_msg
decode_fixed32-encode_to_msg data' h =
    ground (arith, decode_fixed32-encode_fixed32 (length data' % 2 ^ 32) data' (omega arith))

-- DecodeFromMsg gives back the data of EncodeToMsg, if the message is shorter than 2 ^ 31.
pub decode_from_msg-encode_to_msg :
    (data' : List ℕ) → 4 + length data' < 2 ^ 31 → decode_from_msg (encode_to_msg data') ≡ ok data'
unfolding decode_from_msg
decode_from_msg-encode_to_msg data' h =
    let l : length (encode_to_msg data') ≡ 4 + length data' = length-encode_to_msg data' in
    rw
      (
        decode_fixed32-encode_to_msg data' (omega arith),
        drop-encode_to_msg data',
        take_all data' (length data') (omega arith),
        l,
      )
      (ground arith)
