-- ===== src/RunLength/RoundTrip.antt =====
-- Decoding the runs of base/algo.cc gives back the numbers.
use csutil.Common.{ℕ, zero, suc, ◌+◌, ◌%◌, ◌^◌, ◌<◌, ◌≡◌, refl, ap, ◌∙◌, arith, ◌==◌, ==_iff}
use csutil.Common.{true, Bool-cases, inl, inr}
use csutil.Common.{List, [], ◌∷◌, ◌++◌, All, length, append_assoc}
use csutil.RunLength.{encode_loop, run_length_encode, decode_run, run_length_decode}

decode_run-snoc :
    (first i n : ℕ)
    → decode_run first i (suc n) ≡ decode_run first i n ++ ((first + (i + n)) % 2 ^ 32 ∷ [])
unfolding decode_run
decode_run-snoc first i zero = ap (λ j. (first + j) % 2 ^ 32 ∷ []) (omega arith)
decode_run-snoc first i (suc n) = ap (◌∷◌ ((first + i) % 2 ^ 32)) (
    decode_run-snoc first (i + 1) n
    ∙ ap (λ j. decode_run first (i + 1) n ++ ((first + j) % 2 ^ 32 ∷ [])) (omega arith))

decode_run_one : (x : ℕ) (xs : List ℕ) → x < 2 ^ 32 → decode_run x 0 1 ++ xs ≡ x ∷ xs
unfolding decode_run
decode_run_one x xs h = ap (λ (y : ℕ). y ∷ xs) (omega (arith, h))

decode-encode_loop :
    (start len prev : ℕ) (xs : List ℕ)
    → (prev + 1) % 2 ^ 32 ≡ (start + len) % 2 ^ 32
    → len + length xs < 2 ^ 32
    → All (λ x. x < 2 ^ 32) xs
    → run_length_decode (encode_loop start len prev xs) ≡ decode_run start 0 len ++ xs
unfolding encode_loop run_length_decode
decode-encode_loop start len prev [] run short small = refl
decode-encode_loop start len prev (x ∷ xs) run short (h, hs) =
    elim (Bool-cases (x == (prev + 1) % 2 ^ 32)) [
      | inl next ↦ longer next (decode-encode_loop start (len + 1) x xs)
      | inr gap ↦ rw gap (
          ap (◌++◌ (decode_run start 0 len))
            (decode-encode_loop x 1 x xs refl (omega (arith, short)) hs ∙ decode_run_one x xs h))
    ]
  where
    joined :
        x ≡ (start + len) % 2 ^ 32
        → decode_run start 0 (len + 1) ++ xs ≡ decode_run start 0 len ++ (x ∷ xs)
    joined successor =
        ap (λ n. decode_run start 0 n ++ xs) (omega arith)
        ∙ ap (λ (l : List ℕ). l ++ xs) (decode_run-snoc start 0 len)
        ∙ append_assoc (decode_run start 0 len) _ xs
        ∙ ap (λ y. decode_run start 0 len ++ (y ∷ xs)) (omega (arith, successor))

    longer :
        (x == (prev + 1) % 2 ^ 32) ≡ true
        → ((x + 1) % 2 ^ 32 ≡ (start + (len + 1)) % 2 ^ 32
            → (len + 1) + length xs < 2 ^ 32
            → All (λ x. x < 2 ^ 32) xs
            → run_length_decode (encode_loop start (len + 1) x xs)
              ≡ decode_run start 0 (len + 1) ++ xs)
        → run_length_decode (encode_loop start len prev (x ∷ xs))
          ≡ decode_run start 0 len ++ (x ∷ xs)
    longer next rest =
        let successor : x ≡ (start + len) % 2 ^ 32 =
          (==_iff x ((prev + 1) % 2 ^ 32)).0 next ∙ run in
        let fits : (len + 1) % 2 ^ 32 ≡ len + 1 = omega (arith, short) in
        rw (next, fits)
          (rest (omega (arith, successor)) (omega (arith, short)) hs ∙ joined successor)

-- RunLengthDecode gives back fewer than 2 ^ 32 numbers of 32 bits that RunLengthEncode has
-- encoded, also where a run wraps around.
pub run_length_decode-run_length_encode :
    (xs : List ℕ)
    → All (λ x. x < 2 ^ 32) xs
    → length xs < 2 ^ 32
    → run_length_decode (run_length_encode xs) ≡ xs
unfolding run_length_encode run_length_decode
run_length_decode-run_length_encode [] small short = refl
run_length_decode-run_length_encode (x ∷ xs) (h, hs) short =
    decode-encode_loop x 1 x xs refl (omega (arith, short)) hs ∙ decode_run_one x xs h
