-- ===== src/BitArr/Laws.antt =====
-- Put, Get, Init and Clear of base/bit_arr.cc, bit by bit.
use csutil.Common.{ℕ, zero, suc, ◌+◌, ◌-◌, ◌*◌, ◌/◌, ◌%◌, ◌^◌, ◌<◌, ◌≡◌, ◌≢◌, refl, sym, ap, arith}
use csutil.Common.{leb-false, equal, unequal, Bool, true, false, not, ◌==◌, if◌then◌else◌}
use csutil.Common.{List, get_or, set, replicate, length, length-set, length-replicate}
use csutil.Common.{get_or-set_self, get_or-set_ne}
use csutil.Common.Status.{ok}
use csutil.BitArr.{BitArr, bytes_num, init, bits_value, put_bit, byte_at, put, get, clear}
use csutil.Common.Digits.{digit, digit<two, bit_and-power, digit-set_self, digit-set_ne}
use csutil.Common.Digits.{digit-clear_self, digit-clear_ne, power_le}
use native.Mathlib.Decide.{ℕ_discrete}

-- An initialised array with the bytes for its bits.
abbrev pub IsValid : BitArr → Type 0
IsValid arr =
    (arr.is_init ≡ true) × (length arr.bits ≡ (arr.bits_num + 7) / 8) × (arr.bits_num + 7 < 2 ^ 32)

abbrev place : ℕ → ℕ
place index = 8 - index % 8 - 1

bits_value-place : (index : ℕ) → bits_value index ≡ 2 ^ place index
unfolding bits_value
bits_value-place index = omega (arith, power_le (place index) 8 (omega arith))

byte_at_lem :
    (arr : BitArr) (index : ℕ)
    → IsValid arr
    → index < arr.bits_num
    → byte_at arr (index / 8) ≡ ok (get_or arr.bits (index / 8) 0)
unfolding byte_at
byte_at_lem arr index (i, l, s) h = ground arith

read_test : (d p : ℕ) → d < 2 → 0 < p → not (d * p == 0) ≡ (d == 1)
read_test zero p h k = ground arith
read_test (suc zero) zero h k = absurd (omega arith)
read_test (suc zero) (suc p) h k = ground arith
read_test (suc (suc d)) p h k = absurd (omega arith)

power_pos : (k : ℕ) → 0 < 2 ^ k
power_pos k = omega (arith, power_le k (suc k) (omega arith))

bit_in : List ℕ → ℕ → ℕ
bit_in bits index = digit (get_or bits (index / 8) 0) (place index)

-- Get reads a binary digit.
get-digit :
    (arr : BitArr) (index : ℕ)
    → IsValid arr
    → index < arr.bits_num
    → get arr index ≡ ok (bit_in arr.bits index == 1)
unfolding get bit_in
get-digit arr index valid h =
    rw
      (
        leb-false arr.bits_num index h,
        byte_at_lem arr index valid h,
        valid.0,
        bits_value-place index,
        bit_and-power (place index) (get_or arr.bits (index / 8) 0),
      )
      (ap ok (
        read_test (digit (get_or arr.bits (index / 8) 0) (place index)) (2 ^ place index)
          (digit<two (get_or arr.bits (index / 8) 0) (place index)) (power_pos (place index))))

put_bit_self : (v : Bool) (x k : ℕ) → k < 8 → (digit (put_bit v (2 ^ k) x) k == 1) ≡ v
unfolding put_bit
put_bit_self true x k h = rw (digit-set_self k x) refl
put_bit_self false x k h = rw (digit-clear_self k 8 x h) refl

put_bit_ne :
    (v : Bool) (x k m : ℕ) → k < 8 → m < 8 → k ≢ m → digit (put_bit v (2 ^ k) x) m ≡ digit x m
unfolding put_bit
put_bit_ne true x k m h b ne = digit-set_ne k m x ne
put_bit_ne false x k m h b ne = digit-clear_ne k m 8 x h b ne

put-set :
    (arr : BitArr) (index : ℕ) (v : Bool)
    → IsValid arr
    → index < arr.bits_num
    → put arr index v
      ≡ ok (record arr {
        bits =
            set arr.bits (index / 8) (put_bit v (2 ^ place index) (get_or arr.bits (index / 8) 0));
      })
unfolding put
put-set arr index v valid h =
    rw
      (
        leb-false arr.bits_num index h,
        byte_at_lem arr index valid h,
        valid.0,
        bits_value-place index,
      )
      refl

set-IsValid :
    (arr : BitArr) (i byte : ℕ) → IsValid arr → IsValid (record arr { bits = set arr.bits i byte })
set-IsValid arr i byte (init, l, s) = (init, rw (length-set arr.bits i byte) l, s)

-- The bytes after Put of a bit at an index.
abbrev after : List ℕ → ℕ → Bool → List ℕ
after bits index v = set bits (index / 8) (put_bit v (2 ^ place index) (get_or bits (index / 8) 0))

bit_in_self :
    (bits : List ℕ) (index : ℕ) (v : Bool)
    → index / 8 < length bits
    → (bit_in (after bits index v) index == 1) ≡ v
unfolding bit_in
bit_in_self bits index v h =
    rw
      (get_or-set_self bits (index / 8) (put_bit v (2 ^ place index) (get_or bits (index / 8) 0)) 0
        h)
      (put_bit_self v (get_or bits (index / 8) 0) (place index) (omega arith))

bit_in_ne :
    (bits : List ℕ) (index other : ℕ) (v : Bool)
    → index / 8 < length bits
    → other ≢ index
    → bit_in (after bits index v) other ≡ bit_in bits other
unfolding bit_in
bit_in_ne bits index other v h ne = elim (ℕ_discrete (index / 8) (other / 8)) [
  | yes near ↦
      let old : ℕ = get_or bits (index / 8) 0 in
      let apart : place index ≢ place other = λ e. ne (omega arith) in
      rw (← near, get_or-set_self bits (index / 8) (put_bit v (2 ^ place index) old) 0 h)
        (put_bit_ne v old (place index) (place other) (omega arith) (omega arith) apart)
  | no far ↦
      rw
        (get_or-set_ne bits (index / 8) (other / 8)
          (put_bit v (2 ^ place index) (get_or bits (index / 8) 0)) 0 far)
        refl
]

-- Put on a valid array, at an index in range, sets the bit it is told to, leaves every other as it
-- was, and keeps the array valid.
pub get-put :
    (arr : BitArr) (index other : ℕ) (v : Bool)
    → IsValid arr
    → index < arr.bits_num
    → other < arr.bits_num
    → (arr' : BitArr) × (put arr index v ≡ ok arr')
      × IsValid arr'
      × (arr'.bits_num ≡ arr.bits_num)
      × (get arr' other ≡ (if other == index then ok v else get arr other))
get-put arr index other v valid h k = (
  put_at,
  put-set arr index v valid h,
  put_at-IsValid,
  refl,
  elim (ℕ_discrete other index) [
    | yes same ↦
        rw (get-digit put_at other put_at-IsValid k, same, equal index)
          (ap ok (bit_in_self arr.bits index v inside))
    | no differ ↦
        rw
          (
            get-digit put_at other put_at-IsValid k,
            unequal other index differ,
            bit_in_ne arr.bits index other v inside differ,
          )
          (sym (get-digit arr other valid k))
  ],
)
  where
    put_at : BitArr
    put_at = record arr { bits = after arr.bits index v }

    put_at-IsValid : IsValid put_at
    put_at-IsValid = set-IsValid arr (index / 8) _ valid

    inside : index / 8 < length arr.bits
    inside = omega (arith, valid.1)

abbrev cleared : BitArr → BitArr
cleared arr = record arr { bits = replicate (bytes_num arr.bits_num) 0; is_init = true }

init-cleared : (arr : BitArr) → 0 < arr.bits_num → init arr ≡ ok (cleared arr)
unfolding init
init-cleared arr h = rw (unequal arr.bits_num 0 (λ e. omega arith)) refl

clear-cleared : (arr : BitArr) → clear (cleared arr) ≡ ok (cleared arr)
unfolding clear
clear-cleared arr = refl

cleared-IsValid : (arr : BitArr) → arr.bits_num + 7 < 2 ^ 32 → IsValid (cleared arr)
unfolding bytes_num
cleared-IsValid arr s =
    (refl, omega (arith, length-replicate {A = ℕ} ((arr.bits_num + 8 - 1) % 2 ^ 32 / 8) 0), s)

get_or-replicate : (n i : ℕ) → ◌≡◌ {A = ℕ} (get_or (replicate n 0) i 0) 0
get_or-replicate zero i = refl
get_or-replicate (suc n) zero = refl
get_or-replicate (suc n) (suc i) = get_or-replicate n i

digit-zero : (k : ℕ) → digit 0 k ≡ 0
unfolding digit
digit-zero zero = refl
digit-zero (suc k) = digit-zero k

bit_in-replicate : (n index : ℕ) → bit_in (replicate n 0) index ≡ 0
unfolding bit_in
bit_in-replicate n index = rw (get_or-replicate n (index / 8)) (digit-zero (place index))

-- Init and Clear leave a valid array in which every bit is 0, if its number of bits is positive and
-- fits a uint32_t together with those of the last byte.
pub get-clear :
    (arr : BitArr) (index : ℕ)
    → 0 < arr.bits_num
    → arr.bits_num + 7 < 2 ^ 32
    → index < arr.bits_num
    → (arr' : BitArr) × (init arr ≡ ok arr')
      × (clear arr' ≡ ok arr')
      × IsValid arr'
      × (get arr' index ≡ ok false)
get-clear arr index some_bits s h = (
  cleared arr,
  init-cleared arr some_bits,
  clear-cleared arr,
  valid,
  rw (get-digit (cleared arr) index valid h, bit_in-replicate (bytes_num arr.bits_num) index) refl,
)
  where
    valid : IsValid (cleared arr)
    valid = cleared-IsValid arr s
