-- ===== src/BloomFilter/Laws.antt =====
-- Init, Put and CheckExist of base/bloom_filter.cc.
use csutil.Common.{ℕ, ◌+◌, ◌-◌, ◌*◌, ◌/◌, ◌%◌, ◌^◌, ◌<◌, ◌≡◌, refl, sym, ◌∙◌, arith}
use csutil.Common.{true, ◌⊎◌, inl, inr}
use csutil.Common.{List, replicate, length-replicate}
use csutil.Common.{ltb-false}
use csutil.Common.Status.{ok}
use csutil.Hash.{murmur32}
use csutil.BloomFilter.{BloomFilter, init, set_bits, put, check_bits, check_exist}
use csutil.BloomFilter.Rounds.{IsSized, Leaves, check_bits-Includes, set_bits-Includes}

-- An initialised filter of at least one byte, whose bits a uint32_t counts.
abbrev pub IsValid : BloomFilter → Type 0
IsValid f = (f.is_init ≡ true) × IsSized f.bytes f.bytes_size

-- The calls on an initialised filter are the loops.
put_lem :
    (f : BloomFilter) (key bytes' : List ℕ)
    → f.is_init ≡ true
    → set_bits f.hash_num f.bytes_size (murmur32 key 0xefac1970) f.bytes ≡ ok bytes'
    → put f key ≡ ok (record f { bytes = bytes' })
unfolding put
put_lem f key bytes' i e = rw (e, i) refl

check_exist_lem :
    (f : BloomFilter) (key : List ℕ)
    → f.is_init ≡ true
    → check_exist f key ≡ check_bits f.hash_num f.bytes_size (murmur32 key 0xefac1970) f.bytes
unfolding check_exist
check_exist_lem f key i = rw i refl

-- Put succeeds on a valid filter and keeps it valid; CheckExist finds the key that was put, and
-- every key that it found before.
pub check_exist-put :
    (f : BloomFilter) (key other : List ℕ)
    → IsValid f
    → (other ≡ key) ⊎ (check_exist f other ≡ ok true)
    → (f' : BloomFilter) × (put f key ≡ ok f') × IsValid f' × (check_exist f' other ≡ ok true)
check_exist-put f key other (i, sized) before =
    go (set_bits-Includes f.hash_num f.bytes_size (murmur32 key 0xefac1970) f.bytes sized) before
  where
    go :
        Leaves f.hash_num f.bytes_size (murmur32 key 0xefac1970) f.bytes
        → (other ≡ key) ⊎ (check_exist f other ≡ ok true)
        → (f' : BloomFilter) × (put f key ≡ ok f') × IsValid f' × (check_exist f' other ≡ ok true)
    go (bytes', e, inc, found) before = (
      record f { bytes = bytes' },
      put_lem f key bytes' i e,
      (i, (inc.0 ∙ sized.0, sized.1, sized.2)),
      check_exist_lem (record f { bytes = bytes' }) other i ∙ elim before [
        | inl same ↦ rw same found
        | inr old ↦
            check_bits-Includes f.hash_num f.bytes_size (murmur32 other 0xefac1970) f.bytes bytes'
              sized inc (sym (check_exist_lem f other i) ∙ old)
      ],
    )

-- Init gives a valid filter, if the bits asked for are at least one and a uint32_t counts them
-- with those of the last byte.
pub init-IsValid :
    (f : BloomFilter)
    → 0 < f.keys_num * f.bits_per_key
    → f.keys_num * f.bits_per_key + 7 < 2 ^ 32
    → (f' : BloomFilter) × (init f ≡ ok f') × IsValid f'
unfolding init
init-IsValid f some_bits s =
    let size : ℕ = (f.keys_num * f.bits_per_key % 2 ^ 32 + 7) / 8 in
    (
      record f { bytes = replicate size 0; bytes_size = size; is_init = true },
      rw (ltb-false (2 ^ 32 - 1) (f.keys_num * f.bits_per_key % 2 ^ 32) (omega arith)) refl,
      (refl, (length-replicate {A = ℕ} size 0, omega arith, omega arith)),
    )
