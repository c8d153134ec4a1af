-- ===== src/Coding/Memcomparable/Laws.antt =====
-- MemcomparableEncode and MemcomparableDecode of base/coding.cc: order and decoding.
use Prim.Native.Nat.{compare, Ordering}
use csutil.Common.{ℕ, zero, suc, ◌+◌, ◌-◌, ◌%◌, ◌<◌, ◌≤◌, ◌≡◌, refl, ap, arith}
use csutil.Common.{List, [], ◌∷◌, ◌++◌, length, replicate}
use csutil.Common.Status.{ok}
use csutil.Coding.Memcomparable.{encode_chunks, decode_chunks}
use csutil.Coding.Memcomparable.{memcomparable_encode, memcomparable_decode}

-- memcmp, with a proper prefix before its extensions.
pub compare_bytes : List ℕ → List ℕ → Ordering
compare_bytes [] [] = Ordering.eq
compare_bytes [] (y ∷ ys) = Ordering.lt
compare_bytes (x ∷ xs) [] = Ordering.gt
compare_bytes (x ∷ xs) (y ∷ ys) = elim (compare x y) [
  | Ordering.lt ↦ Ordering.lt
  | Ordering.eq ↦ compare_bytes xs ys
  | Ordering.gt ↦ Ordering.gt
]

compare_refl : (xs : List ℕ) → compare_bytes xs xs ≡ Ordering.eq
unfolding compare_bytes
compare_refl [] = refl
compare_refl (x ∷ xs) = ground (arith, compare_refl xs)

-- The encoding byte by byte, with the slots that are left in the chunk.
fill : ℕ → List ℕ → List ℕ
fill slots [] = replicate slots 0 ++ ((8 - slots) ∷ [])
fill zero (x ∷ xs) = 9 ∷ x ∷ fill 7 xs
fill (suc slots) (x ∷ xs) = x ∷ fill slots xs

encode_chunks-fill : (x : ℕ) (xs : List ℕ) → encode_chunks (x ∷ xs) ≡ fill 8 (x ∷ xs)
unfolding encode_chunks fill
encode_chunks-fill a [] = refl
encode_chunks-fill a (b ∷ []) = refl
encode_chunks-fill a (b ∷ c ∷ []) = refl
encode_chunks-fill a (b ∷ c ∷ d ∷ []) = refl
encode_chunks-fill a (b ∷ c ∷ d ∷ e ∷ []) = refl
encode_chunks-fill a (b ∷ c ∷ d ∷ e ∷ f ∷ []) = refl
encode_chunks-fill a (b ∷ c ∷ d ∷ e ∷ f ∷ g ∷ []) = refl
encode_chunks-fill a (b ∷ c ∷ d ∷ e ∷ f ∷ g ∷ h ∷ []) = refl
encode_chunks-fill a (b ∷ c ∷ d ∷ e ∷ f ∷ g ∷ h ∷ i ∷ rest) =
    ap (λ t. a ∷ b ∷ c ∷ d ∷ e ∷ f ∷ g ∷ h ∷ 9 ∷ t) (encode_chunks-fill i rest)

-- After the same padding the smaller marker decides.
padded-lt :
    (slots m n : ℕ)
    → m < n
    → (compare_bytes (replicate slots 0 ++ (m ∷ [])) (replicate slots 0 ++ (n ∷ [])) ≡ Ordering.lt)
      × (compare_bytes (replicate slots 0 ++ (n ∷ [])) (replicate slots 0 ++ (m ∷ []))
          ≡ Ordering.gt)
unfolding compare_bytes
padded-lt zero m n h = (ground arith, ground arith)
padded-lt (suc slots) m n h = padded-lt slots m n h

-- A string that ended earlier in the chunk has the smaller marker.
abbrev EndsBefore : ℕ → ℕ → List ℕ → Type 0
EndsBefore slots marker ys =
    (compare_bytes (replicate slots 0 ++ (marker ∷ [])) (fill slots ys) ≡ Ordering.lt)
    × (compare_bytes (fill slots ys) (replicate slots 0 ++ (marker ∷ [])) ≡ Ordering.gt)

ends_before : (slots marker : ℕ) (ys : List ℕ) → marker + slots < 8 → EndsBefore slots marker ys
unfolding compare_bytes fill
ends_before zero marker [] h = (ground arith, ground arith)
ends_before zero marker (y ∷ ys) h = (ground arith, ground arith)
ends_before (suc slots) marker [] h = padded-lt slots marker (8 - suc slots) (omega arith)
ends_before (suc slots) marker (y ∷ ys) h =
    let later = ends_before slots marker ys (omega arith) in (ground arith, ground arith)

-- The filled chunks compare as the strings do.
compare-fill :
    (slots : ℕ) (xs ys : List ℕ)
    → slots ≤ 8
    → compare_bytes (fill slots xs) (fill slots ys) ≡ compare_bytes xs ys
unfolding compare_bytes fill
compare-fill slots [] [] h = compare_refl (replicate slots 0 ++ ((8 - slots) ∷ []))
compare-fill zero [] (y ∷ ys) h = refl
compare-fill zero (x ∷ xs) [] h = refl
compare-fill zero (x ∷ xs) (y ∷ ys) h = ground (arith, compare-fill 7 xs ys)
compare-fill (suc slots) [] (y ∷ ys) h = ground (arith, ends_before slots (8 - suc slots) ys)
compare-fill (suc slots) (x ∷ xs) [] h = ground (arith, ends_before slots (8 - suc slots) xs)
compare-fill (suc slots) (x ∷ xs) (y ∷ ys) h = ground (arith, compare-fill slots xs ys)

-- Two encodings compare byte by byte as the strings that they stand for, also where one is a prefix
-- of the other.
pub compare-memcomparable_encode :
    (xs ys : List ℕ)
    → compare_bytes (memcomparable_encode xs) (memcomparable_encode ys) ≡ compare_bytes xs ys
unfolding memcomparable_encode
compare-memcomparable_encode [] [] = unfold encode_chunks in refl
compare-memcomparable_encode [] (y ∷ ys) =
    rw (encode_chunks-fill y ys) (unfold encode_chunks fill compare_bytes in refl)
compare-memcomparable_encode (x ∷ xs) [] =
    rw (encode_chunks-fill x xs) (unfold encode_chunks fill compare_bytes in refl)
compare-memcomparable_encode (x ∷ xs) (y ∷ ys) =
    rw (encode_chunks-fill x xs, encode_chunks-fill y ys)
      (compare-fill 8 (x ∷ xs) (y ∷ ys) (omega arith))

-- The encoding is made of pieces of nine bytes, and its loop reads back.
decode-encode_chunks :
    (src : List ℕ)
    → (length (encode_chunks src) % 9 ≡ 0) × (decode_chunks (encode_chunks src) ≡ ok src)
unfolding encode_chunks decode_chunks
decode-encode_chunks [] = (refl, refl)
decode-encode_chunks (a ∷ []) = (refl, refl)
decode-encode_chunks (a ∷ b ∷ []) = (refl, refl)
decode-encode_chunks (a ∷ b ∷ c ∷ []) = (refl, refl)
decode-encode_chunks (a ∷ b ∷ c ∷ d ∷ []) = (refl, refl)
decode-encode_chunks (a ∷ b ∷ c ∷ d ∷ e ∷ []) = (refl, refl)
decode-encode_chunks (a ∷ b ∷ c ∷ d ∷ e ∷ f ∷ []) = (refl, refl)
decode-encode_chunks (a ∷ b ∷ c ∷ d ∷ e ∷ f ∷ g ∷ []) = (refl, refl)
decode-encode_chunks (a ∷ b ∷ c ∷ d ∷ e ∷ f ∷ g ∷ h ∷ []) = (refl, refl)
decode-encode_chunks (a ∷ b ∷ c ∷ d ∷ e ∷ f ∷ g ∷ h ∷ i ∷ rest) =
    let (whole, read) = decode-encode_chunks (i ∷ rest) in (omega arith, rw read)

-- MemcomparableDecode gives back every byte string that MemcomparableEncode has encoded.
pub memcomparable_decode-memcomparable_encode :
    (src : List ℕ) → memcomparable_decode (memcomparable_encode src) ≡ ok src
unfolding memcomparable_decode memcomparable_encode
memcomparable_decode-memcomparable_encode src =
    let (whole, read) = decode-encode_chunks src in rw (whole) read
