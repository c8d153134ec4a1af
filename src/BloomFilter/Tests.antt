-- ===== src/BloomFilter/Tests.antt =====
-- The filter of base/bloom_filter.cc for two keys, and Murmur32 of base/hash.cc on keys with a 0.
use csutil.Common.{◌≡◌, refl, arith, [], ◌∷◌, true, inl}
use csutil.Common.Status.{ok}
use csutil.BloomFilter.{BloomFilter, put, check_exist}
use csutil.BloomFilter.Laws.{IsValid, check_exist-put}

abbrev filter : BloomFilter
filter = record {
  bits_per_key = 8;
  keys_num = 2;
  hash_num = 3;
  bytes = 0 ∷ 0 ∷ [];
  bytes_size = 2;
  is_init = true;
}

check_exist-put_example :
    (f : BloomFilter) × (put filter (1 ∷ 2 ∷ []) ≡ ok f)
    × IsValid f
    × (check_exist f (1 ∷ 2 ∷ []) ≡ ok true)
check_exist-put_example =
    check_exist-put filter (1 ∷ 2 ∷ []) (1 ∷ 2 ∷ []) (refl, (refl, omega arith, omega arith))
      (inl refl)
