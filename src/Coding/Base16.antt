-- ===== src/Coding/Base16.antt =====
-- Base16Encode and Base16Decode of base/coding.cc, with GetReadableStr, GetBinStr and GetBinChar of
-- base/util.cc that they call. `snprintf` with "%02x" writes two lower-case hexadecimal digits.
use csutil.Common.{
  ℕ, ◌+◌, ◌-◌, ◌*◌, ◌/◌, ◌%◌, ◌^◌, ◌<◌, ◌≡◌, ◌⊎◌, refl, arith, ltb, leb, if◌then◌else◌,
}
use csutil.Common.{◌&&◌, ◌==◌, List, [], ◌∷◌, All, length, not, Bool-cases, ==_iff, inl, inr}
use csutil.Common.Status.{Result, ok, err, undefined, ◌>>=◌, ◌>>◌, fail_if, invalid_param}

unfoldable pub hex_digit : ℕ → ℕ
hex_digit n = if ltb n 10 then b'0' + n else b'a' + (n - 10)

get_bin_char : ℕ → Result ℕ
get_bin_char src_ch =
    if leb b'0' src_ch && leb src_ch b'9'
    then ok (src_ch - b'0')
    else if leb b'a' src_ch && leb src_ch b'f'
    then ok (src_ch - b'a' + 0x0a)
    else err invalid_param

get_readable_str : List ℕ → List ℕ
get_readable_str [] = []
get_readable_str (c ∷ rest) = hex_digit (c / 16) ∷ hex_digit (c % 16) ∷ get_readable_str rest

-- The loop over pairs; the length was tested to be even.
get_bin_loop : List ℕ → Result (List ℕ)
get_bin_loop [] = ok []
get_bin_loop (high ∷ []) = undefined
get_bin_loop (high ∷ low ∷ rest) =
    let after = get_bin_loop rest in
    do
      h ← get_bin_char high
      l ← get_bin_char low
      out ← after
      ok (((h * 2 ^ 4 % 256 + l) % 256) ∷ out)

get_bin_str : List ℕ → Result (List ℕ)
get_bin_str readable_str = do
  fail_if (not (length readable_str % 2 == 0)) invalid_param
  get_bin_loop readable_str

pub base16_encode : List ℕ → List ℕ
unfolding get_readable_str
base16_encode src = get_readable_str src

pub base16_decode : List ℕ → Result (List ℕ)
unfolding get_bin_str
base16_decode src = get_bin_str src

get_bin_char-hex_digit : (n : ℕ) → n < 16 → get_bin_char (hex_digit n) ≡ ok n
unfolding get_bin_char hex_digit
get_bin_char-hex_digit n h = ground arith

get_bin_loop-readable :
    (src : List ℕ) → All (λ c. c < 256) src → get_bin_loop (get_readable_str src) ≡ ok src
unfolding get_bin_loop get_readable_str
get_bin_loop-readable [] bytes = refl
get_bin_loop-readable (c ∷ src) (h, bytes) =
    rw
      (
        get_bin_char-hex_digit (c / 16) (omega arith),
        get_bin_char-hex_digit (c % 16) (omega arith),
        get_bin_loop-readable src bytes,
      )
      (ground arith)

length-readable : (src : List ℕ) → length (get_readable_str src) % 2 ≡ 0
unfolding get_readable_str
length-readable [] = refl
length-readable (c ∷ src) = omega (arith, length-readable src)

-- Base16Decode gives back every byte string that Base16Encode has encoded.
pub base16_decode-base16_encode :
    (src : List ℕ) → All (λ c. c < 256) src → base16_decode (base16_encode src) ≡ ok src
unfolding base16_decode base16_encode
base16_decode-base16_encode src bytes =
    ground (arith, length-readable src, get_bin_loop-readable src bytes)

get_bin_char_total :
    (c : ℕ) → (get_bin_char c ≡ err invalid_param) ⊎ ((n : ℕ) × (get_bin_char c ≡ ok n))
unfolding get_bin_char
get_bin_char_total c = ground arith

abbrev Decodes : List ℕ → Result (List ℕ) → Type 0
Decodes src r =
    (r ≡ err invalid_param) ⊎ ((out : List ℕ) × (r ≡ ok out) × (2 * length out ≡ length src))

get_bin_pair :
    (high low : ℕ) (rest : List ℕ)
    → Decodes rest (get_bin_loop rest)
    → Decodes (high ∷ low ∷ rest) (get_bin_loop (high ∷ low ∷ rest))
unfolding get_bin_loop
get_bin_pair high low rest after = elim (get_bin_char_total high) [
  | inl bad ↦ rw bad (inl refl)
  | inr (h, good) ↦ rw good (elim (get_bin_char_total low) [
    | inl bad ↦ rw bad (inl refl)
    | inr (l, good') ↦ rw good' (elim after [
      | inl bad ↦ rw bad (inl refl)
      | inr (out, rest_ok, half) ↦ rw rest_ok (inr (_, refl, omega arith))
    ])
  ])
]

get_bin_loop_total : (src : List ℕ) → length src % 2 ≡ 0 → Decodes src (get_bin_loop src)
get_bin_loop_total [] even = inr ([], unfold get_bin_loop in refl, omega arith)
get_bin_loop_total (high ∷ []) odd = absurd (omega arith)
get_bin_loop_total (high ∷ low ∷ rest) even =
    get_bin_pair high low rest (get_bin_loop_total rest (omega arith))

-- Base16Decode never leaves what C++ defines: it fails with kInvalidParam or gives half as many
-- bytes as it read.
pub base16_decode_total :
    (src : List ℕ)
    → (base16_decode src ≡ err invalid_param)
      ⊎ ((out : List ℕ) × (base16_decode src ≡ ok out) × (2 * length out ≡ length src))
unfolding base16_decode get_bin_str
base16_decode_total src = elim (Bool-cases (length src % 2 == 0)) [
  | inl even ↦ rw even (get_bin_loop_total src ((==_iff _ _).0 even))
  | inr odd ↦ rw odd (inl refl)
]
