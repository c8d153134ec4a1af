-- ===== src/Hash.antt =====
-- Murmur32 of base/hash.cc. `kFour` is 4 and `kSixteen` is 16.
use csutil.Common.{ℕ, ◌+◌, ◌-◌, ◌*◌, ◌/◌, ◌%◌, ◌^◌, ◌≡◌, refl, bit_or, bit_xor, ◌==◌}
use csutil.Common.{
  if◌then◌else◌, List, [], ◌∷◌, ◌++◌, length, take, replicate, Bool, true, ◌||◌, arith,
}
use csutil.Common.Status.{value}
use csutil.Coding.Fixed.{decode_fixed32}

-- `(x << r) | (x >> (32 - r))`.
pub rotate_left : ℕ → ℕ → ℕ
rotate_left r x = bit_or (x * 2 ^ r % 2 ^ 32) (x / 2 ^ (32 - r))

-- The bytes up to the first that is 0: `ch` is a `const char *`, from which the call of
-- DecodeFixed32 makes its std::string.
c_str : List ℕ → List ℕ
c_str [] = []
c_str (b ∷ bytes) = let rest = c_str bytes in if b == 0 then [] else b ∷ rest

-- `k` stays 0 where DecodeFixed32 fails.
block_num : List ℕ → ℕ
block_num bytes = value (decode_fixed32 (c_str bytes))

scramble : ℕ → ℕ
scramble k = rotate_left 15 (k * 0xcc9e2d51 % 2 ^ 32) * 0x1b873593 % 2 ^ 32

mix : ℕ → ℕ → ℕ
mix hash k = (rotate_left 13 (bit_xor hash (scramble k)) * 5 + 0xe6546b64) % 2 ^ 32

-- The bytes that are left, filled up with 0.
mix_tail : ℕ → List ℕ → ℕ
mix_tail hash left =
    bit_xor hash (scramble (value (decode_fixed32 (take 4 (left ++ replicate 4 0)))))

mix_blocks : ℕ → List ℕ → ℕ
mix_blocks hash [] = hash
mix_blocks hash (a ∷ []) = mix_tail hash (a ∷ [])
mix_blocks hash (a ∷ b ∷ []) = mix_tail hash (a ∷ b ∷ [])
mix_blocks hash (a ∷ b ∷ c ∷ []) = mix_tail hash (a ∷ b ∷ c ∷ [])
mix_blocks hash (a ∷ b ∷ c ∷ d ∷ rest) =
    mix_blocks (mix hash (block_num (a ∷ b ∷ c ∷ d ∷ rest))) rest

shift_xor : ℕ → ℕ → ℕ
shift_xor r hash = bit_xor hash (hash / 2 ^ r)

pub murmur32 : List ℕ → ℕ → ℕ
murmur32 key seed =
    let h1 : ℕ = bit_xor (mix_blocks seed key) (length key) % 2 ^ 32 in
    let h2 : ℕ = shift_xor 16 h1 * 0x85ebca6b % 2 ^ 32 in
    let h3 : ℕ = shift_xor 13 h2 * 0xc2b2ae35 % 2 ^ 32 in shift_xor 16 h3

-- A block in which one of four bytes is 0.
abbrev has_nul : ℕ → ℕ → ℕ → ℕ → Bool
has_nul a b c d = a == 0 || (b == 0 || (c == 0 || d == 0))

block_num-nul :
    (a b c d : ℕ) (rest : List ℕ) → has_nul a b c d ≡ true → block_num (a ∷ b ∷ c ∷ d ∷ rest) ≡ 0
unfolding block_num c_str decode_fixed32
block_num-nul a b c d rest h = ground arith

-- Murmur32 reads a block of four bytes, one of which is 0, as the number 0: two keys that differ
-- in such blocks only at their front have the same hash.
pub murmur32-nul :
    (a b c d a' b' c' d' seed : ℕ) (rest : List ℕ)
    → has_nul a b c d ≡ true
    → has_nul a' b' c' d' ≡ true
    → murmur32 (a ∷ b ∷ c ∷ d ∷ rest) seed ≡ murmur32 (a' ∷ b' ∷ c' ∷ d' ∷ rest) seed
unfolding murmur32 mix_blocks
murmur32-nul a b c d a' b' c' d' seed rest h k =
    rw (block_num-nul a b c d rest h, block_num-nul a' b' c' d' rest k) refl
