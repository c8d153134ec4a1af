-- ===== src/Coding/Var/RoundTrip.antt =====
-- What DecodeVar32 and DecodeVar64 of base/coding.cc make of the bytes that the encoders write,
-- and of runs of bytes that no encoder writes.
use csutil.Common.{ℕ, zero, suc, ◌+◌, ◌*◌, ◌/◌, ◌%◌, ◌^◌, ◌<◌, ◌≤◌, ◌≡◌, refl, ap, arith, inl, inr}
use csutil.Common.{
  List, [], ◌∷◌, ◌++◌, length, ltb, bit_and, bit_or, Bool-cases, All, ◌∙◌, ltb→lt, append-nil,
}
use csutil.Common.Bits.{low_seven_bits, agree_below, agree_below→eq}
use csutil.Common.Status.{ok, err, undefined, invalid_length}
use csutil.Coding.Var.{
  var_loop, get_var_loop, encode_var32, encode_var64, decode_var32, decode_var64,
}
use native.Mathlib.Nat.{div-add-mod, mod-eq_of_lt, pow-suc}
use native.Mathlib.Numerals.{towards_suc}

-- The masks on one byte.
low_bits : (b : ℕ) → b < 256 → bit_and b 0x7f ≡ b % 128
unfolding agree_below
low_bits = agree_below→eq _ _ 256 refl

top_bit : (b : ℕ) → b < 256 → bit_and b 0x80 ≡ b / 128 * 128
unfolding agree_below
top_bit = agree_below→eq _ _ 256 refl

set_top_bit : (b : ℕ) → b < 128 → bit_or b 0x80 ≡ b + 128
unfolding agree_below
set_top_bit = agree_below→eq _ _ 128 refl

shift_seven : (s : ℕ) → 2 ^ (7 * (s + 1)) ≡ 128 * 2 ^ (7 * s)
shift_seven s =
    let expand : 7 * (s + 1) ≡ 7 * s + 7 = omega arith in rw expand (simp towards_suc (omega arith))

-- The lowest group of a number and the rest, both shifted by seven for each byte before.
split_group : (n i : ℕ) → n * 2 ^ (7 * i) ≡ n % 128 * 2 ^ (7 * i) + n / 128 * 2 ^ (7 * (i + 1))
split_group n i = omega (
  arith,
  ap (λ (t : ℕ). t * 2 ^ (7 * i)) (div-add-mod n 128),
  ap (λ (t : ℕ). n / 128 * t) (shift_seven i),
)

-- One round of the encoder, in the loop and at its end.
var_loop_more :
    (slots num : ℕ) (bytes : List ℕ)
    → 127 < num
    → var_loop slots (num / 128) ≡ ok bytes
    → var_loop (suc slots) num ≡ ok ((num % 128 + 128) ∷ bytes)
unfolding var_loop
var_loop_more slots num bytes more wrote =
    ground (arith, low_seven_bits num, set_top_bit (num % 128))

var_loop_last : (slots num : ℕ) → num ≤ 127 → var_loop (suc slots) num ≡ ok (num ∷ [])
unfolding var_loop
var_loop_last slots num last = ground arith

module _ (width : ℕ) where
  -- One round of the decoder on the last byte of a number, and on a byte before it.
  last_round :
      (i value num : ℕ) (rest : List ℕ)
      → num < 128
      → 7 * i < width
      → value + num * 2 ^ (7 * i) < 2 ^ width
      → get_var_loop width i value (num ∷ rest) ≡ ok (value + num * 2 ^ (7 * i))
  unfolding get_var_loop
  last_round i value num rest small room fits = ground (arith, top_bit num, mod-eq_of_lt fits)

  inner_round :
      (i value group : ℕ) (rest : List ℕ)
      → group < 128
      → 7 * i < width
      → value + group * 2 ^ (7 * i) < 2 ^ width
      → get_var_loop width i value ((group + 128) ∷ rest)
        ≡ get_var_loop width (i + 1) (value + group * 2 ^ (7 * i)) rest
  unfolding get_var_loop
  inner_round i value group rest small room fits =
      ground (arith, low_bits (group + 128), top_bit (group + 128), mod-eq_of_lt fits)

  -- The encoder with k + 1 slots, and the decoder on what it wrote.
  Trip : ℕ → ℕ → ℕ → ℕ → Type 0
  Trip k i value num =
      (bytes : List ℕ) × (var_loop (suc k) num ≡ ok bytes)
      × (length bytes ≤ suc k)
      × ((rest : List ℕ)
          → get_var_loop width i value (bytes ++ rest) ≡ ok (value + num * 2 ^ (7 * i)))

  trip :
      (k i value num : ℕ)
      → num < 128 ^ suc k
      → 7 * (i + k) < width
      → value + num * 2 ^ (7 * i) < 2 ^ width
      → Trip k i value num
  unfolding Trip
  trip zero i value num small room fits = (
    num ∷ [],
    var_loop_last 0 num (omega arith),
    omega arith,
    λ rest. last_round i value num rest (omega arith) (omega arith) fits,
  )
  trip (suc k) i value num small room fits = elim (Bool-cases (ltb 0x7f num)) [
    | inl more ↦
        let (bytes, wrote, short, read) =
          trip k (i + 1) (value + num % 128 * 2 ^ (7 * i)) (num / 128)
            (omega (arith, pow-suc 128 (suc k))) (omega arith) (omega (arith, split_group num i)) in
        (
          (num % 128 + 128) ∷ bytes,
          var_loop_more (suc k) num bytes (ltb→lt _ _ more) wrote,
          omega arith,
          λ rest.
              inner_round i value (num % 128) (bytes ++ rest) (omega arith) (omega arith)
                (omega (arith, split_group num i))
              ∙ read rest
              ∙ ap ok (omega (arith, split_group num i)),
        )
    | inr last ↦ (
      num ∷ [],
      var_loop_last (suc k) num (ground arith),
      omega arith,
      λ rest. last_round i value num rest (ground arith) (omega arith) fits,
    )
  ]

-- Every 32-bit number is written by EncodeVar32 within its five-byte buffer, and DecodeVar32 reads
-- it back whatever follows it.
pub decode_var32-encode_var32 :
    (num : ℕ)
    → num < 2 ^ 32
    → (bytes : List ℕ) × (encode_var32 num [] ≡ ok bytes)
      × (length bytes ≤ 5)
      × ((rest : List ℕ) → decode_var32 (bytes ++ rest) ≡ ok num)
unfolding encode_var32 decode_var32 Trip
decode_var32-encode_var32 num h =
    let (bytes, wrote, short, read) = trip 32 4 0 0 num (omega arith) (omega arith) (omega arith) in
    (bytes, rw wrote, short, λ rest. read rest ∙ ap ok (omega arith))

-- Every 64-bit number is written by EncodeVar64 within its ten-byte buffer, and DecodeVar64 reads
-- it back whatever follows it.
pub decode_var64-encode_var64 :
    (num : ℕ)
    → num < 2 ^ 64
    → (bytes : List ℕ) × (encode_var64 num [] ≡ ok bytes)
      × (length bytes ≤ 10)
      × ((rest : List ℕ) → decode_var64 (bytes ++ rest) ≡ ok num)
unfolding encode_var64 decode_var64 Trip
decode_var64-encode_var64 num h =
    let (bytes, wrote, short, read) = trip 64 9 0 0 num (omega arith) (omega arith) (omega arith) in
    (bytes, rw wrote, short, λ rest. read rest ∙ ap ok (omega arith))

-- A byte with the top bit set says that more bytes follow.
abbrev Continues : ℕ → Type 0
Continues b = (128 ≤ b) × (b < 256)

module _ (width : ℕ) where
  round :
      (b i value : ℕ) (rest : List ℕ)
      → Continues b
      → 7 * i < width
      → get_var_loop width i value (b ∷ rest)
        ≡ get_var_loop width (i + 1) ((value + bit_and b 0x7f * 2 ^ (7 * i)) % 2 ^ width) rest
  unfolding get_var_loop
  round b i value rest (high, byte) room = ground (arith, top_bit b)

  -- Only such bytes: the decoder runs through all of them, as long as the shifts stay in the word.
  run_through :
      (bytes rest : List ℕ) (i value : ℕ)
      → All Continues bytes
      → 7 * (i + length bytes) < width + 7
      → (value' : ℕ) × (get_var_loop width i value (bytes ++ rest)
          ≡ get_var_loop width (i + length bytes) value' rest)
  run_through [] rest i value more room =
      (value, ap (λ (j : ℕ). get_var_loop width j value rest) (omega arith))
  run_through (b ∷ bytes) rest i value (high, more) room =
      let value₁ : ℕ = (value + bit_and b 0x7f * 2 ^ (7 * i)) % 2 ^ width in
      let (value₂, later) = run_through bytes rest (i + 1) value₁ more (omega arith) in
      (
        value₂,
        round b i value (bytes ++ rest) high (omega arith)
            ∙ later
            ∙ ap (λ (j : ℕ). get_var_loop width j value₂ rest) (omega arith),
      )

-- Five bytes that all say that more follow: DecodeVar32 shifts by 35 for the sixth, which C++ does
-- not define.
pub decode_var32_overlong :
    (bytes rest : List ℕ) (ch : ℕ)
    → All Continues bytes
    → length bytes ≡ 5
    → decode_var32 (bytes ++ (ch ∷ rest)) ≡ undefined
unfolding decode_var32
decode_var32_overlong bytes rest ch more five =
    let (value, reached) = run_through 32 bytes (ch ∷ rest) 0 0 more (omega arith) in
    reached ∙ stops value
  where
    stops : (value : ℕ) → get_var_loop 32 (0 + length bytes) value (ch ∷ rest) ≡ undefined
    stops value = rw five (unfold get_var_loop in refl)

-- Of at most five bytes that all say that more follow, both decoders return kInvalidLength.
pub decode_var_unfinished :
    (bytes : List ℕ)
    → All Continues bytes
    → length bytes ≤ 5
    → (decode_var32 bytes ≡ err invalid_length) × (decode_var64 bytes ≡ err invalid_length)
unfolding decode_var32 decode_var64
decode_var_unfinished bytes more short = (at_end 32 (omega arith), at_end 64 (omega arith))
  where
    at_end :
        (width : ℕ)
        → 7 * (0 + length bytes) < width + 7
        → get_var_loop width 0 0 bytes ≡ err invalid_length
    at_end width room =
        let (value, reached) = run_through width bytes [] 0 0 more room in
        rw append-nil at reached ∙ unfold get_var_loop in refl
