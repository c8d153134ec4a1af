-- ===== src/BloomFilter.antt =====
-- base/bloom_filter.cc: BloomFilter over its array of bytes. The calls give an output of their own,
-- so none of them is a null pointer.
mod Rounds
pub mod Laws
mod Tests
use csutil.Common.{
  [], ℕ, zero, suc, ◌+◌, ◌-◌, ◌*◌, ◌/◌, ◌%◌, ◌^◌, bit_and, bit_or, leb, ltb, ◌==◌, ◌||◌,
}
use csutil.Common.{if◌then◌else◌, Bool, true, false, not, List, get_or, set, replicate, length}
use csutil.Common.Status.{
  Result, ok, err, undefined, ◌>>=◌, ◌>>◌, fail_if, not_init, invalid_length,
}
use csutil.Hash.{murmur32, rotate_left}

pub record BloomFilter : Type 0 where
  pub bits_per_key : ℕ
  pub keys_num : ℕ
  pub hash_num : ℕ
  pub bytes : List ℕ
  pub bytes_size : ℕ
  pub is_init : Bool

pub new_bloom_filter : ℕ → ℕ → ℕ → BloomFilter
new_bloom_filter bits_per_key keys_num hash_num = record {
  bits_per_key = bits_per_key;
  keys_num = keys_num;
  hash_num = hash_num;
  bytes = [];
  bytes_size = 0;
  is_init = false;
}

-- The product is one of uint32_t.
pub init : BloomFilter → Result BloomFilter
init f =
    let bits_size : ℕ = f.keys_num * f.bits_per_key % 2 ^ 32 in
    let bytes_size : ℕ = (bits_size + 7) / 8 in
    do
      fail_if (ltb (2 ^ 32 - 1) bits_size) invalid_length
      ok (record f { bytes = replicate bytes_size 0; bytes_size = bytes_size; is_init = true })

-- The position for a hash; a size of 0, or an access outside the bytes, is undefined.
bits_pos : List ℕ → ℕ → ℕ → Result ℕ
bits_pos bytes bytes_size hash_value =
    let size : ℕ = bytes_size * 8 % 2 ^ 32 in
    if size == 0 || leb (length bytes) (hash_value % size / 8)
    then undefined
    else ok (hash_value % size)

next_hash : ℕ → ℕ
next_hash hash_value = (hash_value + rotate_left 15 hash_value) % 2 ^ 32

set_bit : List ℕ → ℕ → List ℕ
set_bit bytes pos = set bytes (pos / 8) (bit_or (get_or bytes (pos / 8) 0) (2 ^ (pos % 8)))

-- The loop of Put, with the rounds that are left.
pub set_bits : ℕ → ℕ → ℕ → List ℕ → Result (List ℕ)
set_bits zero bytes_size hash_value bytes = ok bytes
set_bits (suc rounds) bytes_size hash_value bytes = do
  pos ← bits_pos bytes bytes_size hash_value
  set_bits rounds bytes_size (next_hash hash_value) (set_bit bytes pos)

pub put : BloomFilter → List ℕ → Result BloomFilter
put f key = do
  fail_if (not f.is_init) not_init
  bytes ← set_bits f.hash_num f.bytes_size (murmur32 key 0xefac1970) f.bytes
  ok (record f { bytes = bytes })

-- The loop of CheckExist.
pub check_bits : ℕ → ℕ → ℕ → List ℕ → Result Bool
check_bits zero bytes_size hash_value bytes = ok true
check_bits (suc rounds) bytes_size hash_value bytes = do
  pos ← bits_pos bytes bytes_size hash_value
  if bit_and (get_or bytes (pos / 8) 0) (2 ^ (pos % 8)) == 0
      then ok false
      else check_bits rounds bytes_size (next_hash hash_value) bytes

pub check_exist : BloomFilter → List ℕ → Result Bool
check_exist f key = do
  fail_if (not f.is_init) not_init
  check_bits f.hash_num f.bytes_size (murmur32 key 0xefac1970) f.bytes

get_bytes_str : BloomFilter → Result (List ℕ)
get_bytes_str f = do fail_if (not f.is_init) not_init; ok f.bytes
