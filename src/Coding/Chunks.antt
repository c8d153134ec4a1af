-- ===== src/Coding/Chunks.antt =====
-- The loop that Base64Encode, Base64Decode and their Base32 counterparts of base/coding.cc share: a
-- uint32_t counts the units, and the offset of a unit is a product of uint32_t that wraps.
use csutil.Common.{ℕ, zero, suc, ◌+◌, ◌*◌, ◌%◌, ◌^◌, ◌<◌, ◌≤◌, ◌≡◌, refl, arith}
use csutil.Common.{List, [], ◌∷◌, ◌++◌, take, drop}
use csutil.Common.Status.{Result, ok, ◌>>=◌}

-- `f` is what the body makes of a unit of `size` bytes; `i` the units that were read.
pub unit_loop : ℕ → (List ℕ → Result (List ℕ)) → ℕ → ℕ → List ℕ → Result (List ℕ)
unit_loop size f zero i src = ok []
unit_loop size f (suc rounds) i src =
    let after = unit_loop size f rounds (suc i) src in
    do unit ← f (take size (drop (i * size % 2 ^ 32) src)); out ← after; ok (unit ++ out)

-- The units one after the other.
unfoldable pub in_turn : ℕ → (List ℕ → Result (List ℕ)) → ℕ → List ℕ → Result (List ℕ)
in_turn size f zero src = ok []
in_turn size f (suc rounds) src =
    let after = in_turn size f rounds (drop size src) in
    do unit ← f (take size src); out ← after; ok (unit ++ out)

drop-drop : (m n : ℕ) (xs : List ℕ) → drop m (drop n xs) ≡ drop (n + m) xs
drop-drop m zero xs = let same : 0 + m ≡ m = omega arith in rw same refl
drop-drop zero (suc n) [] = let same : suc n + 0 ≡ suc n = omega arith in rw same refl
drop-drop (suc m) (suc n) [] =
    let same : suc n + suc m ≡ suc (n + suc m) = omega arith in rw same refl
drop-drop m (suc n) (x ∷ xs) =
    let more : suc n + m ≡ suc (n + m) = omega arith in rw more (drop-drop m n xs)

-- Below 2 ^ 32 the offsets do not wrap.
pub unit_loop_lem :
    (size : ℕ) (f : List ℕ → Result (List ℕ)) (rounds i : ℕ) (src : List ℕ)
    → 0 < size
    → i * size + rounds * size ≤ 2 ^ 32
    → unit_loop size f rounds i src ≡ in_turn size f rounds (drop (i * size) src)
unfolding unit_loop in_turn
unit_loop_lem size f zero i src h k = refl
unit_loop_lem size f (suc rounds) i src h k =
    let more : suc i * size ≡ i * size + size = omega arith in
    let all : suc rounds * size ≡ size + rounds * size = omega arith in
    let same : i * size % 2 ^ 32 ≡ i * size = omega (arith, h, k, all) in
    let after = unit_loop_lem size f rounds (suc i) src h (omega (arith, k, more, all)) in
    rw (same, after, drop-drop size (i * size) src, more) refl
