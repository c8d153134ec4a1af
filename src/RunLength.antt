-- ===== src/RunLength.antt =====
-- base/algo.cc: RunLengthEncode and RunLengthDecode, which store a run of successive 32-bit numbers
-- as its first number and its length.
pub mod RoundTrip
mod Tests
use csutil.Common.{ℕ, zero, suc, ◌+◌, ◌%◌, ◌^◌, ◌==◌, if◌then◌else◌, List, [], ◌∷◌, ◌++◌}

-- The loop from the element after `prev`, in a run of `length` numbers from `start`.
pub encode_loop : ℕ → ℕ → ℕ → List ℕ → List (ℕ × ℕ)
encode_loop start length prev [] = (start, length) ∷ []
encode_loop start length prev (x ∷ xs) =
    let longer = encode_loop start ((length + 1) % 2 ^ 32) x xs in
    let other = encode_loop x 1 x xs in
    if x == (prev + 1) % 2 ^ 32 then longer else (start, length) ∷ other

pub run_length_encode : List ℕ → List (ℕ × ℕ)
run_length_encode [] = []
run_length_encode (x ∷ xs) = encode_loop x 1 x xs

-- The inner loop from `i`, with `n` numbers to go.
pub decode_run : ℕ → ℕ → ℕ → List ℕ
decode_run first i zero = []
decode_run first i (suc n) = (first + i) % 2 ^ 32 ∷ decode_run first (i + 1) n

pub run_length_decode : List (ℕ × ℕ) → List ℕ
run_length_decode [] = []
run_length_decode ((first, length) ∷ runs) = decode_run first 0 length ++ run_length_decode runs
