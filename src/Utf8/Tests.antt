-- ===== src/Utf8/Tests.antt =====
-- IsUtf8 on concrete bytes.
use csutil.Common.{ℕ, ◌≡◌, refl, arith, true, false, List, [], ◌∷◌, ◌↔◌}
use csutil.Utf8.{is_utf8, utf8_loop, sequence, multi_byte, lead, join, continuation, if_valid}
use csutil.Utf8.{is_valid_codepoint, is_valid_continuation_byte}
use csutil.Utf8.Text.{IsText, is_utf8-IsText}

-- U+20AC
abbrev euro_sign : List ℕ
euro_sign = 0xe2 ∷ 0x82 ∷ 0xac ∷ []

is_utf8-IsText_example : (is_utf8 euro_sign ≡ true) ↔ IsText euro_sign
is_utf8-IsText_example = is_utf8-IsText euro_sign (omega arith, (omega arith, (omega arith, tt)))

three_bytes : is_utf8 euro_sign ≡ true
unfolding is_utf8 utf8_loop sequence multi_byte lead join continuation if_valid is_valid_codepoint
    is_valid_continuation_byte
three_bytes = refl

-- The surrogate U+D800.
surrogate : is_utf8 (0xed ∷ 0xa0 ∷ 0x80 ∷ []) ≡ false
unfolding is_utf8 utf8_loop sequence multi_byte lead join continuation if_valid is_valid_codepoint
    is_valid_continuation_byte
surrogate = refl

-- U+002F in two bytes.
overlong : is_utf8 (0xc0 ∷ 0xaf ∷ []) ≡ false
unfolding is_utf8 utf8_loop sequence multi_byte lead join continuation if_valid is_valid_codepoint
    is_valid_continuation_byte
overlong = refl
