-- ===== src/Coding/Url/Laws.antt =====
-- UrlEncode and UrlDecode of base/coding.cc one after the other, and the digits that they use.
use csutil.Common.{ℕ, ◌+◌, ◌-◌, ◌/◌, ◌%◌, ◌^◌, ◌<◌, ◌≡◌, ◌≢◌, refl, arith}
use csutil.Common.{
  leb, leb-false, ltb, if◌then◌else◌, ◌&&◌, bit_and, Bool, List, [], ◌∷◌, ◌++◌, All,
}
use csutil.Common.{◌||◌}
use csutil.Common.Bits.{agree_below, agree_below→eq}
use csutil.Common.Status.{ok}
use csutil.Coding.Base16.{hex_digit}
use csutil.Coding.Url.{to_hex, to_bin, bin_to_ascii, ascii_to_bin, is_alnum, url_encode_byte}
use csutil.Coding.Url.{url_encode_loop, url_encode, prepend, url_decode_loop, url_decode}

low_nibble : (c : ℕ) → c < 256 → bit_and c 0x0f ≡ c % 16
unfolding agree_below
low_nibble = agree_below→eq _ _ 256 refl

to_bin-to_hex : (n : ℕ) → n < 256 → to_bin (to_hex n) ≡ ok (n % 16)
unfolding to_bin to_hex
to_bin-to_hex n h = ground (arith, low_nibble n h)

ascii_to_bin-bin_to_ascii :
    (c : ℕ) → c < 256 → ascii_to_bin (bin_to_ascii c).0 (bin_to_ascii c).1 0 ≡ ok c
unfolding ascii_to_bin bin_to_ascii
ascii_to_bin-bin_to_ascii c h =
    rw
      (
        to_bin-to_hex (c / 2 ^ 4) (omega arith),
        to_bin-to_hex (bit_and c 0x0f) (omega (arith, low_nibble c h)),
      )
      (ground (arith, low_nibble c h))

-- A byte that is neither '+' nor '%' decodes to itself, and a '+' to a space.
decode_plain :
    (c : ℕ) (rest : List ℕ)
    → c ≢ b'+'
    → c ≢ b'%'
    → url_decode_loop (c ∷ rest) ≡ prepend c (url_decode_loop rest)
unfolding url_decode_loop
decode_plain c [] p q = ground arith
decode_plain c (h ∷ []) p q = ground arith
decode_plain c (h ∷ l ∷ rest) p q = ground arith

decode_plus : (rest : List ℕ) → url_decode_loop (b'+' ∷ rest) ≡ prepend b' ' (url_decode_loop rest)
unfolding url_decode_loop
decode_plus [] = refl
decode_plus (h ∷ []) = refl
decode_plus (h ∷ l ∷ rest) = refl

decode_escape :
    (c : ℕ) (rest : List ℕ)
    → c < 256
    → url_decode_loop (b'%' ∷ (bin_to_ascii c).0 ∷ (bin_to_ascii c).1 ∷ rest)
      ≡ prepend c (url_decode_loop rest)
unfolding url_decode_loop
decode_escape c rest h = rw (ascii_to_bin-bin_to_ascii c h)

decode_byte :
    (c : ℕ) (rest : List ℕ)
    → c < 256
    → url_decode_loop (url_encode_byte c ++ rest) ≡ prepend c (url_decode_loop rest)
unfolding url_encode_byte is_alnum
decode_byte c rest h = ground (arith, decode_plain c rest, decode_plus rest, decode_escape c rest h)

decode_loop-encode_loop :
    (src : List ℕ)
    → All (λ c. c < 128) src
    → (text : List ℕ) × (url_encode_loop src ≡ ok text) × (url_decode_loop text ≡ ok src)
unfolding url_encode_loop
decode_loop-encode_loop [] ascii = ([], refl, unfold url_decode_loop in refl)
decode_loop-encode_loop (c ∷ src) (h, ascii) =
    let (text, wrote, read) = decode_loop-encode_loop src ascii in
    (
      url_encode_byte c ++ text,
      rw (leb-false 128 c h, wrote) refl,
      rw (decode_byte c text (omega (arith, h)), read) refl,
    )

-- UrlEncode succeeds on every string of ASCII characters, and UrlDecode gives the string back.
pub url_decode-url_encode :
    (src : List ℕ)
    → All (λ c. c < 128) src
    → (text : List ℕ) × (url_encode src [] ≡ ok text) × (url_decode text [] ≡ ok src)
unfolding url_decode url_encode
url_decode-url_encode src ascii =
    let (text, wrote, read) = decode_loop-encode_loop src ascii in
    (text, rw wrote refl, rw read refl)

pub is_hex_digit : ℕ → Bool
is_hex_digit c = leb b'0' c && leb c b'9' || leb b'a' c && leb c b'f' || leb b'A' c && leb c b'F'

-- What ToHex writes for a half byte is a hexadecimal digit exactly when the half byte is below 10;
-- for 10 to 15 it is ten letters after the standard digit.
pub to_hex-hex_digit :
    (n : ℕ)
    → n < 16
    → (is_hex_digit (to_hex n) ≡ ltb n 10)
      × (to_hex n ≡ (if ltb n 10 then hex_digit n else hex_digit n + 10))
unfolding to_hex hex_digit is_hex_digit
to_hex-hex_digit n h = (ground (arith, low_nibble n), ground (arith, low_nibble n))

-- ToBin reads the standard digit of a half byte below 10 as that number, and of one from 10 on as
-- ten less.
pub to_bin-hex_digit : (n : ℕ) → n < 16 → to_bin (hex_digit n) ≡ ok (if ltb n 10 then n else n - 10)
unfolding to_bin hex_digit
to_bin-hex_digit n h = ground arith
