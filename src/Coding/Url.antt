-- ===== src/Coding/Url.antt =====
-- ToHex, ToBin, BinToAscii, AsciiToBin, UrlEncode and UrlDecode of base/coding.cc. `isalnum` is
-- that of the C locale.
pub mod Laws
use csutil.Common.{ℕ, ◌+◌, ◌-◌, ◌*◌, ◌/◌, ◌%◌, ◌^◌, bit_and, ltb, leb, ◌==◌, if◌then◌else◌}
use csutil.Common.{Bool, true, false, ◌&&◌, ◌||◌, List, [], ◌∷◌, ◌++◌}
use csutil.Common.Status.{
  Result, ok, err, undefined, ◌>>=◌, invalid_param, invalid_url_encoding_str,
}

pub to_hex : ℕ → ℕ
to_hex src_ch =
    if ltb 0x09 (bit_and src_ch 0x0f)
    then b'a' + bit_and src_ch 0x0f
    else b'0' + bit_and src_ch 0x0f

pub to_bin : ℕ → Result ℕ
to_bin src_hex_ch =
    if leb b'a' src_hex_ch && leb src_hex_ch b'z'
    then ok (src_hex_ch - b'a')
    else if leb b'A' src_hex_ch && leb src_hex_ch b'Z'
    then ok (src_hex_ch - b'A')
    else if leb b'0' src_hex_ch && leb src_hex_ch b'9'
    then ok (src_hex_ch - b'0')
    else err invalid_param

-- The high digit, then the low one.
pub bin_to_ascii : ℕ → ℕ × ℕ
bin_to_ascii src_ch = (to_hex (src_ch / 2 ^ 4), to_hex (bit_and src_ch 0x0f))

-- The digits are added to what the output holds.
pub ascii_to_bin : ℕ → ℕ → ℕ → Result ℕ
ascii_to_bin src_high_ch src_low_ch dst_bin_ch = do
  high ← to_bin src_high_ch
  low ← to_bin src_low_ch
  ok (((dst_bin_ch + high * 2 ^ 4) % 256 + low) % 256)

unfoldable pub is_alnum : ℕ → Bool
is_alnum c = leb b'0' c && leb c b'9' || leb b'A' c && leb c b'Z' || leb b'a' c && leb c b'z'

-- What one byte of the source appends.
url_encode_byte : ℕ → List ℕ
url_encode_byte c =
    if is_alnum c || c == b'-' || c == b'_' || c == b'.' || c == b'~'
    then c ∷ []
    else if c == b' '
    then b'+' ∷ []
    else let (high, low) = bin_to_ascii c in b'%' ∷ high ∷ low ∷ []

-- isalnum of a char from 128 on, which is negative, is undefined.
url_encode_loop : List ℕ → Result (List ℕ)
url_encode_loop [] = ok []
url_encode_loop (c ∷ rest) =
    let after = url_encode_loop rest in
    if leb 128 c then undefined else (do out ← after; ok (url_encode_byte c ++ out))

pub url_encode : List ℕ → List ℕ → Result (List ℕ)
url_encode src dst = do out ← url_encode_loop src; ok (dst ++ out)

-- One byte in front of what the rest decodes to.
abbrev prepend : ℕ → Result (List ℕ) → Result (List ℕ)
prepend c rest = rest >>= λ out. ok (c ∷ out)

-- The loop over what is left of the source. A '%' needs two more bytes.
url_decode_loop : List ℕ → Result (List ℕ)
url_decode_loop [] = ok []
url_decode_loop (c ∷ []) =
    if c == b'+'
    then ok (b' ' ∷ [])
    else if c == b'%'
    then err invalid_url_encoding_str
    else ok (c ∷ [])
url_decode_loop (c ∷ h ∷ []) =
    let next = url_decode_loop (h ∷ []) in
    if c == b'+'
    then prepend b' ' next
    else if c == b'%'
    then err invalid_url_encoding_str
    else prepend c next
url_decode_loop (c ∷ h ∷ l ∷ rest) =
    let next = url_decode_loop (h ∷ l ∷ rest) in
    let after = url_decode_loop rest in
    if c == b'+'
    then prepend b' ' next
    else if c == b'%'
    then (ascii_to_bin h l 0 >>= λ bin_ch. prepend bin_ch after)
    else prepend c next

pub url_decode : List ℕ → List ℕ → Result (List ℕ)
url_decode src dst = do out ← url_decode_loop src; ok (dst ++ out)
