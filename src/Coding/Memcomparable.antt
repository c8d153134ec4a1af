-- ===== src/Coding/Memcomparable.antt =====
-- MemcomparableEncode and MemcomparableDecode of base/coding.cc, with chunks of kChunkSize = 8 bytes.
pub mod Laws
use csutil.Common.{ℕ, suc, ◌-◌, ◌%◌, ltb, ◌==◌, ◌||◌, not, if◌then◌else◌}
use csutil.Common.{List, [], ◌∷◌, ◌++◌, length, take, replicate}
use csutil.Common.Status.{Result, ok, err, undefined, ◌>>=◌, ◌>>◌, fail_if, invalid_param}

-- The loop over what is left of the source: eight bytes and the marker 9 where more follow, and the
-- last chunk filled up with zeros, its size behind it.
encode_chunks : List ℕ → List ℕ
encode_chunks [] = []
encode_chunks (a ∷ b ∷ c ∷ d ∷ e ∷ f ∷ g ∷ h ∷ i ∷ rest) =
    a ∷ b ∷ c ∷ d ∷ e ∷ f ∷ g ∷ h ∷ 9 ∷ encode_chunks (i ∷ rest)
encode_chunks chunk = chunk ++ (replicate (8 - length chunk) 0 ++ (length chunk ∷ []))

pub memcomparable_encode : List ℕ → List ℕ
memcomparable_encode src = encode_chunks src

-- The loop over pieces of nine bytes; the length was tested to be a multiple of nine.
decode_chunks : List ℕ → Result (List ℕ)
decode_chunks (a ∷ b ∷ c ∷ d ∷ e ∷ f ∷ g ∷ h ∷ size ∷ rest) =
    let after = decode_chunks rest in
    do
      fail_if (ltb 9 size || size == 0) invalid_param
      out ← after
      ok (take (if size == 9 then 8 else size) (a ∷ b ∷ c ∷ d ∷ e ∷ f ∷ g ∷ h ∷ []) ++ out)
decode_chunks _ = ok []

pub memcomparable_decode : List ℕ → Result (List ℕ)
memcomparable_decode src = do fail_if (not (length src % 9 == 0)) invalid_param; decode_chunks src
