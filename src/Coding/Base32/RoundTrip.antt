-- ===== src/Coding/Base32/RoundTrip.antt =====
-- Base 32 decoding after encoding, as in base/coding.cc, for both alphabets.
use csutil.Common.{
  ℕ, suc, ◌+◌, ◌-◌, ◌*◌, ◌/◌, ◌%◌, ◌^◌, ◌≤◌, ◌++◌, ◌<◌, ◌≡◌, refl, ap, arith, ◌∙◌, List, [], ◌∷◌,
  All, length,
}
use csutil.Common.{append-nil}
use csutil.Common.Status.{Result, ok}
use csutil.Coding.Base32.Units.Laws.{Reads, one_Reads, two_Reads, three_Reads, four_Reads}
use csutil.Coding.Base32.Units.Laws.{five_Reads}
use csutil.Coding.Base32.Alphabets.{IsAlphabet, base32-IsAlphabet, geo_hash-IsAlphabet}
use csutil.Coding.Base32.{base32_encode_internal, base32_decode_internal, last_visible_unit}
use csutil.Coding.Base32.{visible_unit, invisible_unit}
use csutil.Coding.Chunks.{in_turn, unit_loop_lem}
use csutil.Coding.Base32.{base32_encode, base32_decode}
use csutil.Coding.Base32.{base32_encode_for_geo_hash, base32_decode_for_geo_hash}

module _ {to_visible to_invisible : ℕ → Result ℕ}
    (alphabet : IsAlphabet to_visible to_invisible) where
  -- A whole message: the units and the last unit of its encoding are whole units of eight characters
  -- and decode to it.
  Encoded : List ℕ → Type 0
  Encoded src =
      (units left : List ℕ) × (in_turn 5 (visible_unit to_visible) (length src / 5) src ≡ ok units)
      × (last_visible_unit to_visible src ≡ ok left)
      × (length (units ++ left) ≡ (length src + 4) / 5 * 8)
      × (in_turn 8 (invisible_unit to_invisible) ((length src + 4) / 5) (units ++ left) ≡ ok src)

  last_unit :
      (src : List ℕ)
      → length src / 5 ≡ 0
      → (length src + 4) / 5 ≡ 1
      → last_visible_unit to_visible src ≡ visible_unit to_visible src
      → Reads src to_visible to_invisible
      → Encoded src
  unfolding Encoded in_turn invisible_unit
  last_unit src few one only (v1, v2, v3, v4, v5, v6, v7, v8, wrote, read) = (
    [],
    v1 ∷ v2 ∷ v3 ∷ v4 ∷ v5 ∷ v6 ∷ v7 ∷ v8 ∷ [],
    rw few refl,
    only ∙ wrote,
    rw one refl,
    rw (one, read) (ap ok (append-nil src)),
  )

  -- A unit in front of a message leaves the bytes behind the units as they were.
  last_visible_unit-cons :
      (a b c d e : ℕ) (rest : List ℕ)
      → last_visible_unit to_visible (a ∷ b ∷ c ∷ d ∷ e ∷ rest) ≡ last_visible_unit to_visible rest
  unfolding last_visible_unit
  last_visible_unit-cons a b c d e rest =
      let n = length rest in
      let same : suc (suc (suc (suc (suc n)))) % 5 ≡ n % 5 = omega arith in
      let skips : suc (suc (suc (suc (suc n)))) - n % 5 ≡ suc (suc (suc (suc (suc (n - n % 5))))) =
        omega arith in
      rw (same, skips) refl

  encode_all : (src : List ℕ) → All (λ c. c < 256) src → Encoded src
  unfolding Encoded in_turn invisible_unit last_visible_unit
  encode_all [] h = ([], [], refl, refl, refl, refl)
  encode_all (a ∷ []) (ha, h) = last_unit (a ∷ []) refl refl refl (one_Reads alphabet a ha)
  encode_all (a ∷ b ∷ []) (ha, (hb, h)) =
      last_unit (a ∷ b ∷ []) refl refl refl (two_Reads alphabet a b ha hb)
  encode_all (a ∷ b ∷ c ∷ []) (ha, (hb, (hc, h))) =
      last_unit (a ∷ b ∷ c ∷ []) refl refl refl (three_Reads alphabet a b c ha hb hc)
  encode_all (a ∷ b ∷ c ∷ d ∷ []) (ha, (hb, (hc, (hd, h)))) =
      last_unit (a ∷ b ∷ c ∷ d ∷ []) refl refl refl (four_Reads alphabet a b c d ha hb hc hd)
  encode_all (a ∷ b ∷ c ∷ d ∷ e ∷ rest) (ha, (hb, (hc, (hd, (he, h))))) =
      let (v1, v2, v3, v4, v5, v6, v7, v8, wrote, read) =
        five_Reads alphabet a b c d e ha hb hc hd he in
      let (units, left, wrote', last, size, read') = encode_all rest h in
      let n = length rest in
      let more : suc (suc (suc (suc (suc n)))) / 5 ≡ suc (n / 5) = omega arith in
      let more' : (suc (suc (suc (suc (suc n)))) + 4) / 5 ≡ suc ((n + 4) / 5) = omega arith in
      (
        v1 ∷ v2 ∷ v3 ∷ v4 ∷ v5 ∷ v6 ∷ v7 ∷ v8 ∷ units,
        left,
        rw (more, in_turn, wrote, wrote') refl,
        last_visible_unit-cons a b c d e rest ∙ last,
        rw more' (omega (arith, size)),
        rw (more', in_turn, read, read') refl,
      )

  decode_all :
      (src : List ℕ)
      → All (λ c. c < 256) src
      → length src ≤ 5 * 2 ^ 29
      → (text : List ℕ) × (base32_encode_internal src to_visible ≡ ok text)
        × (base32_decode_internal text to_invisible ≡ ok src)
  unfolding Encoded base32_encode_internal base32_decode_internal
  decode_all src h short =
      let (units, left, wrote, last, size, read) = encode_all src h in
      let n = length src in
      let few : n / 5 % 2 ^ 32 ≡ n / 5 = omega (arith, short) in
      let few' : (n + 4) / 5 * 8 / 8 % 2 ^ 32 ≡ (n + 4) / 5 = omega (arith, short) in
      let whole : (n + 4) / 5 * 8 % 8 ≡ 0 = omega arith in
      (
        units ++ left,
        rw
            (
              few,
              unit_loop_lem 5 (visible_unit to_visible) (n / 5) 0 src (omega arith)
                  (omega (arith, short)),
              wrote,
              last,
            )
            refl,
        rw
            (
              size,
              few',
              whole,
              unit_loop_lem 8 (invisible_unit to_invisible) ((n + 4) / 5) 0 (units ++ left)
                  (omega arith) (omega (arith, short)),
            )
            read,
      )

-- Base32Encode succeeds on every byte string of at most 5 * 2 ^ 29 bytes, and Base32Decode gives the
-- string back.
pub base32_decode-base32_encode :
    (src : List ℕ)
    → All (λ c. c < 256) src
    → length src ≤ 5 * 2 ^ 29
    → (text : List ℕ) × (base32_encode src ≡ ok text) × (base32_decode text ≡ ok src)
unfolding base32_encode base32_decode
base32_decode-base32_encode src h short = decode_all base32-IsAlphabet src h short

-- Base32EncodeForGeoHash succeeds on every byte string of at most 5 * 2 ^ 29 bytes, and
-- Base32DecodeForGeoHash gives the string back.
pub base32_decode-base32_encode_for_geo_hash :
    (src : List ℕ)
    → All (λ c. c < 256) src
    → length src ≤ 5 * 2 ^ 29
    → (text : List ℕ) × (base32_encode_for_geo_hash src ≡ ok text)
      × (base32_decode_for_geo_hash text ≡ ok src)
unfolding base32_encode_for_geo_hash base32_decode_for_geo_hash
base32_decode-base32_encode_for_geo_hash src h short = decode_all geo_hash-IsAlphabet src h short
