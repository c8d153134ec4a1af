-- ===== src/Coding/Tests/Text.antt =====
-- The textual encodings of base/coding.cc and its searches on concrete strings.
use csutil.Common.{ℕ, ◌<◌, ◌≡◌, arith}
use csutil.Common.{List, [], ◌∷◌, All}
use csutil.Common.Status.{ok}
use csutil.Coding.Base64.{base64_encode, base64_decode}
use csutil.Coding.Base64.RoundTrip.{base64_decode-base64_encode}
use csutil.Coding.Base32.{base32_encode, base32_decode}
use csutil.Coding.Base32.RoundTrip.{base32_decode-base32_encode}
use csutil.Coding.Memcomparable.{memcomparable_encode}
use csutil.Coding.Memcomparable.Laws.{compare_bytes, compare-memcomparable_encode}
use csutil.Common.{inl}
use csutil.Coding.Split.{split_utf8}
use csutil.Coding.Split.Text.{words, split_utf8-words}
use csutil.Utf8.Text.{encode_all}
use csutil.Coding.Find.{rk, brute_force}
use csutil.Coding.Find.Laws.{rk-brute_force, brute_force-FindsFirst, FindsFirst}

-- A space, a letter, a plus, and a byte above the ASCII ones.
abbrev four_bytes : List ℕ
four_bytes = 0x20 ∷ b'a' ∷ b'+' ∷ 0xe9 ∷ []

abbrev are_bytes : All (λ c. c < 256) four_bytes
are_bytes = (omega arith, (omega arith, (omega arith, (omega arith, tt))))

base64_decode-base64_encode_example :
    (text : List ℕ) × (base64_encode four_bytes ≡ ok text) × (base64_decode text ≡ ok four_bytes)
base64_decode-base64_encode_example = base64_decode-base64_encode four_bytes are_bytes (omega arith)

base32_decode-base32_encode_example :
    (text : List ℕ) × (base32_encode four_bytes ≡ ok text) × (base32_decode text ≡ ok four_bytes)
base32_decode-base32_encode_example = base32_decode-base32_encode four_bytes are_bytes (omega arith)

abbrev nine_bytes : List ℕ
nine_bytes = 1 ∷ 2 ∷ 3 ∷ 4 ∷ 5 ∷ 6 ∷ 7 ∷ 8 ∷ 0 ∷ []

compare-memcomparable_encode_example :
    compare_bytes (memcomparable_encode nine_bytes) (memcomparable_encode four_bytes)
    ≡ compare_bytes nine_bytes four_bytes
compare-memcomparable_encode_example = compare-memcomparable_encode nine_bytes four_bytes

rk-brute_force_example : rk nine_bytes (3 ∷ 4 ∷ []) ≡ brute_force nine_bytes (3 ∷ 4 ∷ [])
rk-brute_force_example = rk-brute_force nine_bytes (3 ∷ 4 ∷ [])

brute_force-FindsFirst_example :
    FindsFirst nine_bytes (3 ∷ 4 ∷ []) (brute_force nine_bytes (3 ∷ 4 ∷ []))
brute_force-FindsFirst_example = brute_force-FindsFirst nine_bytes (3 ∷ 4 ∷ [])

abbrev before_it : List ℕ
before_it = 1 ∷ 2 ∷ []

-- The text "a-" and the sign of the euro.
abbrev letters : List ℕ
letters = b'a' ∷ b'-' ∷ 0x20ac ∷ []

split_utf8-words_example : split_utf8 (encode_all letters) ≡ ok (words [] letters)
split_utf8-words_example = split_utf8-words letters (
  (omega arith, inl (omega arith)),
  ((omega arith, inl (omega arith)), ((omega arith, inl (omega arith)), tt)),
)
