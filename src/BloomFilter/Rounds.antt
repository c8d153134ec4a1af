-- ===== src/BloomFilter/Rounds.antt =====
-- The loops of Put and CheckExist of base/bloom_filter.cc, and the bits that they set and read.
use csutil.Common.{ℕ, zero, suc, ◌*◌, ◌/◌, ◌%◌, ◌^◌, ◌<◌, ◌≡◌, ◌≢◌, refl, sym, ◌∙◌, arith}
use csutil.Common.{Bool, true, false, ◌==◌, if◌then◌else◌, bit_and, bit_or}
use csutil.Common.{List, get_or, length, length-set}
use csutil.Common.{get_or-set_self, get_or-set_ne, leb-false, unequal}
use csutil.Common.Status.{Result, ok}
use csutil.Common.Digits.{digit, digit<two, bit_and-power, digit-set_self, digit-set_ne, power_le}
use csutil.BloomFilter.{bits_pos, next_hash, set_bit, set_bits, check_bits}
use native.Mathlib.Decide.{ℕ_discrete}
use native.Mathlib.Nat.{mod-lt}

abbrev pub IsSized : List ℕ → ℕ → Type 0
IsSized bytes bytes_size =
    (length bytes ≡ bytes_size) × (0 < bytes_size) × (bytes_size * 8 < 2 ^ 32)

pub has_bit : List ℕ → ℕ → ℕ
has_bit bytes pos = digit (get_or bytes (pos / 8) 0) (pos % 8)

-- The bits of one array are set in the other.
abbrev pub Includes : List ℕ → List ℕ → Type 0
Includes bytes bytes' =
    (length bytes' ≡ length bytes) × ((pos : ℕ) → has_bit bytes pos ≡ 1 → has_bit bytes' pos ≡ 1)

has_bit-set_bit_self :
    (bytes : List ℕ) (pos : ℕ) → pos / 8 < length bytes → has_bit (set_bit bytes pos) pos ≡ 1
unfolding has_bit set_bit
has_bit-set_bit_self bytes pos h =
    rw (get_or-set_self bytes (pos / 8) (bit_or (get_or bytes (pos / 8) 0) (2 ^ (pos % 8))) 0 h)
      (digit-set_self (pos % 8) (get_or bytes (pos / 8) 0))

has_bit-set_bit_other :
    (bytes : List ℕ) (pos other : ℕ)
    → pos / 8 < length bytes
    → other ≢ pos
    → has_bit (set_bit bytes pos) other ≡ has_bit bytes other
unfolding has_bit set_bit
has_bit-set_bit_other bytes pos other h ne = elim (ℕ_discrete (pos / 8) (other / 8)) [
  | yes near ↦
      let old : ℕ = get_or bytes (pos / 8) 0 in
      rw (← near, get_or-set_self bytes (pos / 8) (bit_or old (2 ^ (pos % 8))) 0 h)
        (digit-set_ne (pos % 8) (other % 8) old (λ e. ne (omega arith)))
  | no far ↦
      rw
        (get_or-set_ne bytes (pos / 8) (other / 8)
          (bit_or (get_or bytes (pos / 8) 0) (2 ^ (pos % 8))) 0 far)
        refl
]

length-set_bit : (bytes : List ℕ) (pos : ℕ) → length (set_bit bytes pos) ≡ length bytes
unfolding set_bit
length-set_bit bytes pos =
    length-set bytes (pos / 8) (bit_or (get_or bytes (pos / 8) 0) (2 ^ (pos % 8)))

set_bit-Includes :
    (bytes : List ℕ) (pos : ℕ) → pos / 8 < length bytes → Includes bytes (set_bit bytes pos)
set_bit-Includes bytes pos h = (
  length-set_bit bytes pos,
  λ other e. elim (ℕ_discrete other pos) [
    | yes same ↦ rw same (has_bit-set_bit_self bytes pos h)
    | no differ ↦ rw (has_bit-set_bit_other bytes pos other h differ) e
  ],
)

-- The position is within the bytes.
bits_pos_lem :
    (bytes : List ℕ) (bytes_size hash_value : ℕ)
    → IsSized bytes bytes_size
    → (bits_pos bytes bytes_size hash_value ≡ ok (hash_value % (bytes_size * 8)))
      × (hash_value % (bytes_size * 8) / 8 < length bytes)
unfolding bits_pos
bits_pos_lem bytes bytes_size hash_value (l, some_bytes, s) =
    let below : hash_value % (bytes_size * 8) < bytes_size * 8 =
      mod-lt hash_value {m = bytes_size * 8} (omega arith) in
    let inside : hash_value % (bytes_size * 8) / 8 < length bytes =
      rw l (eighth (hash_value % (bytes_size * 8)) bytes_size below) in
    let small : bytes_size * 8 % 2 ^ 32 ≡ bytes_size * 8 = omega arith in
    (
      rw
          (
            small,
            unequal (bytes_size * 8) 0 (λ e. omega arith),
            leb-false (length bytes) (hash_value % (bytes_size * 8) / 8) inside,
          )
          refl,
      inside,
    )
  where
    eighth : (p size : ℕ) → p < size * 8 → p / 8 < size
    eighth p size h = omega arith

mask_test : (k x : ℕ) → (bit_and x (2 ^ k) == 0) ≡ (digit x k == 0)
mask_test k x =
    rw (bit_and-power k x)
      (test (digit x k) (2 ^ k) (omega (arith, power_le k (suc k) (omega arith))))
  where
    test : (d p : ℕ) → 0 < p → (d * p == 0) ≡ (d == 0)
    test zero p h = ground arith
    test (suc d) zero h = absurd (omega arith)
    test (suc d) (suc p) h = ground arith

has_bit<two : (bytes : List ℕ) (pos : ℕ) → has_bit bytes pos < 2
unfolding has_bit
has_bit<two bytes pos = digit<two (get_or bytes (pos / 8) 0) (pos % 8)

check_none :
    (bytes_size hash_value : ℕ) (bytes : List ℕ)
    → check_bits 0 bytes_size hash_value bytes ≡ ok true
unfolding check_bits
check_none bytes_size hash_value bytes = refl

-- One round of CheckExist, at any bit, at one that is set, and at one that is not.
check_step :
    (rounds bytes_size hash_value : ℕ) (bytes : List ℕ)
    → IsSized bytes bytes_size
    → check_bits (suc rounds) bytes_size hash_value bytes ≡ (
        if has_bit bytes (hash_value % (bytes_size * 8)) == 0
        then ok false
        else check_bits rounds bytes_size (next_hash hash_value) bytes)
unfolding check_bits has_bit
check_step rounds bytes_size hash_value bytes sized =
    rw
      (
        (bits_pos_lem bytes bytes_size hash_value sized).0,
        mask_test (hash_value % (bytes_size * 8) % 8)
            (get_or bytes (hash_value % (bytes_size * 8) / 8) 0),
      )
      refl

check_set :
    (rounds bytes_size hash_value : ℕ) (bytes : List ℕ)
    → IsSized bytes bytes_size
    → has_bit bytes (hash_value % (bytes_size * 8)) ≡ 1
    → check_bits (suc rounds) bytes_size hash_value bytes
      ≡ check_bits rounds bytes_size (next_hash hash_value) bytes
check_set rounds bytes_size hash_value bytes sized e =
    rw (check_step rounds bytes_size hash_value bytes sized, e) refl

check_some :
    (rounds bytes_size hash_value : ℕ) (bytes : List ℕ)
    → IsSized bytes bytes_size
    → check_bits (suc rounds) bytes_size hash_value bytes ≡ ok true
    → has_bit bytes (hash_value % (bytes_size * 8)) ≡ 1
check_some rounds bytes_size hash_value bytes sized e =
    found (has_bit bytes (hash_value % (bytes_size * 8))) _ (has_bit<two bytes _)
      (sym (check_step rounds bytes_size hash_value bytes sized) ∙ e)
  where
    found :
        (d : ℕ) (rest : Result Bool) → d < 2 → (if d == 0 then ok false else rest) ≡ ok true → d ≡ 1
    found zero rest h e = ground (arith, e)
    found (suc zero) rest h e = refl
    found (suc (suc d)) rest h e = absurd (omega arith)

-- A key that is found is found in any array with the same bits and more.
pub check_bits-Includes :
    (rounds bytes_size hash_value : ℕ) (bytes bytes' : List ℕ)
    → IsSized bytes bytes_size
    → Includes bytes bytes'
    → check_bits rounds bytes_size hash_value bytes ≡ ok true
    → check_bits rounds bytes_size hash_value bytes' ≡ ok true
check_bits-Includes zero bytes_size hash_value bytes bytes' sized inc e =
    check_none bytes_size hash_value bytes'
check_bits-Includes (suc rounds) bytes_size hash_value bytes bytes' sized inc e =
    let here : has_bit bytes (hash_value % (bytes_size * 8)) ≡ 1 =
      check_some rounds bytes_size hash_value bytes sized e in
    check_set rounds bytes_size hash_value bytes' (inc.0 ∙ sized.0, sized.1, sized.2) (inc.1 _ here)
    ∙ check_bits-Includes rounds bytes_size (next_hash hash_value) bytes bytes' sized inc
        (sym (check_set rounds bytes_size hash_value bytes sized here) ∙ e)

-- What the loop of Put leaves: more bits, and all that the loop of CheckExist looks at.
abbrev pub Leaves : ℕ → ℕ → ℕ → List ℕ → Type 0
Leaves rounds bytes_size hash_value bytes =
    (bytes' : List ℕ) × (set_bits rounds bytes_size hash_value bytes ≡ ok bytes')
    × Includes bytes bytes'
    × (check_bits rounds bytes_size hash_value bytes' ≡ ok true)

set_bits_step :
    (rounds bytes_size hash_value : ℕ) (bytes : List ℕ)
    → IsSized bytes bytes_size
    → Leaves rounds bytes_size
        (next_hash hash_value)
        (set_bit bytes (hash_value % (bytes_size * 8)))
    → Leaves (suc rounds) bytes_size hash_value bytes
unfolding set_bits
set_bits_step rounds bytes_size hash_value bytes sized (bytes', e, (l, inc), found) =
    let (at, inside) = bits_pos_lem bytes bytes_size hash_value sized in
    let pos : ℕ = hash_value % (bytes_size * 8) in
    let (l', inc') = set_bit-Includes bytes pos inside in
    (
      bytes',
      rw at e,
      (l ∙ l', λ other h. inc other (inc' other h)),
      check_set rounds bytes_size hash_value bytes' (l ∙ l' ∙ sized.0, sized.1, sized.2)
            (inc pos (has_bit-set_bit_self bytes pos inside))
          ∙ found,
    )

pub set_bits-Includes :
    (rounds bytes_size hash_value : ℕ) (bytes : List ℕ)
    → IsSized bytes bytes_size
    → Leaves rounds bytes_size hash_value bytes
unfolding set_bits
set_bits-Includes zero bytes_size hash_value bytes sized =
    (bytes, refl, (refl, λ pos e. e), check_none bytes_size hash_value bytes)
set_bits-Includes (suc rounds) bytes_size hash_value bytes sized =
    set_bits_step rounds bytes_size hash_value bytes sized (
      set_bits-Includes rounds bytes_size (next_hash hash_value) (set_bit bytes _)
        (length-set_bit bytes _ ∙ sized.0, sized.1, sized.2))
