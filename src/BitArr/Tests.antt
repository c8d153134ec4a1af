-- ===== src/BitArr/Tests.antt =====
-- The bit array of base/bit_arr.cc with ten bits.
use csutil.Common.{◌≡◌, refl, arith, [], ◌∷◌, true}
use csutil.Common.Status.{ok}
use csutil.BitArr.{BitArr, put, get}
use csutil.BitArr.Laws.{IsValid, get-put}

abbrev ten_bits : BitArr
ten_bits = record { bits_num = 10; bits = 0x81 ∷ 0x40 ∷ []; is_init = true }

get-put_example :
    (arr' : BitArr) × (put ten_bits 8 true ≡ ok arr')
    × IsValid arr'
    × (arr'.bits_num ≡ 10)
    × (get arr' 9 ≡ get ten_bits 9)
get-put_example = get-put ten_bits 8 9 true (refl, refl, omega arith) (omega arith) (omega arith)
