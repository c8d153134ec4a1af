-- ===== src/Utf8/Text.antt =====
-- IsUtf8 of base/utf8.cc accepts the encodings of sequences of scalar values.
use csutil.Common.{
  ℕ, zero, suc, ◌+◌, ◌-◌, ◌*◌, ◌/◌, ◌%◌, ◌^◌, ◌<◌, ◌≤◌, ◌≡◌, refl, sym, ap, ◌∙◌, arith, ltb-false,
  le→leb, leb-false,
}
use csutil.Common.{
  true, false, Option-cases, List, [], ◌∷◌, ◌++◌, length, length-append, drop, All, All-split,
  Option, none, some, ◌⊎◌, inl, inr, ◌↔◌, ◌≢◌,
}
use csutil.Utf8.{
  is_valid_codepoint, lead, continuation, if_valid, multi_byte, sequence, utf8_loop, is_utf8,
}
use csutil.Utf8.Masks.{lead_two, lead_three, lead_four, lead-none}
use csutil.Utf8.Sequences.{
  IsScalar, encode, encode_one, encode_two, encode_three, encode_four, two_valid, three_valid,
  four_valid,
}
use csutil.Utf8.Sequences.{take_one, Begins, Begins-two, Begins-three, Begins-four}
use mathlib.Core.Option.{some-injective, none-ne-some}
use mathlib.Core.Path.{subst}
use native.Mathlib.Decide.{dec_lt}

-- The bytes of a sequence of codepoints.
unfoldable pub encode_all : List ℕ → List ℕ
encode_all [] = []
encode_all (x ∷ xs) = encode x ++ encode_all xs

abbrev pub IsText : List ℕ → Type 0
IsText bytes = (xs : List ℕ) × All IsScalar xs × (bytes ≡ encode_all xs)

abbrev AllBytes : List ℕ → Type 0
AllBytes bytes = All (λ c. c < 256) bytes

sequence_one : (b : ℕ) (bytes : List ℕ) → b < 128 → sequence b bytes ≡ some bytes
unfolding sequence
sequence_one b bytes h = rw (le→leb b 0x7f (omega arith)) refl

sequence_more : (b : ℕ) (bytes : List ℕ) → 128 ≤ b → sequence b bytes ≡ multi_byte (lead b) bytes
unfolding sequence
sequence_more b bytes h = rw (leb-false b 0x7f (omega arith)) refl

stray_byte :
    (b : ℕ) (bytes : List ℕ) → b < 256 → (b < 192) ⊎ (248 ≤ b) → multi_byte (lead b) bytes ≡ none
unfolding multi_byte
stray_byte b bytes h k = ap (λ o. multi_byte o bytes) (lead-none b h k)

-- A round takes the encoding of a scalar value.
sequence-Begins :
    (b : ℕ) (bytes rest : List ℕ)
    → b < 256
    → AllBytes bytes
    → sequence b bytes ≡ some rest
    → Begins (b ∷ bytes) rest
sequence-Begins b bytes rest h hs e = elim (dec_lt b 128) [
  | yes ascii ↦ (
    b,
    (omega (arith, ascii), inl (omega (arith, ascii))),
    ap (λ r. b ∷ r) (some-injective bytes rest (sym (sequence_one b bytes ascii) ∙ e))
        ∙ ap (λ c. c ++ rest) (sym (encode_one b ascii)),
  )
  | no high ↦
      let f = sym (sequence_more b bytes (omega (arith, high))) ∙ e in
      elim (dec_lt b 192) [
        | yes stray ↦ absurd (none-ne-some rest (sym (stray_byte b bytes h (inl stray)) ∙ f))
        | no two ↦ elim (dec_lt b 224) [
          | yes k ↦
              Begins-two b bytes rest (omega arith) k hs
                (sym (ap (λ o. multi_byte o bytes) (lead_two b (omega arith) k)) ∙ f)
          | no three ↦ elim (dec_lt b 240) [
            | yes k ↦
                Begins-three b bytes rest (omega arith) k hs
                  (sym (ap (λ o. multi_byte o bytes) (lead_three b (omega arith) k)) ∙ f)
            | no four ↦ elim (dec_lt b 248) [
              | yes k ↦
                  Begins-four b bytes rest (omega arith) k hs
                    (sym (ap (λ o. multi_byte o bytes) (lead_four b (omega arith) k)) ∙ f)
              | no beyond ↦
                  absurd (none-ne-some rest (sym (stray_byte b bytes h (inr (omega arith))) ∙ f))
            ]
          ]
        ]
      ]
]

-- The bytes that a round leaves.
abbrev after : List ℕ → Option (List ℕ)
after [] = none
after (b ∷ bytes) = sequence b bytes

multi_byte-good :
    (n codepoint x : ℕ) (bytes : List ℕ)
    → n ≤ suc (length bytes)
    → continuation (n - 1) codepoint bytes ≡ some x
    → is_valid_codepoint x n ≡ true
    → multi_byte (some (n, codepoint)) bytes ≡ some (drop (n - 1) bytes)
unfolding multi_byte if_valid
multi_byte-good n codepoint x bytes h e v = rw (ltb-false (suc (length bytes)) n h, e, v) refl

module _ (x : ℕ) (rest : List ℕ) where
  after_two : 0x80 ≤ x → x < 0x800 → after ((192 + x / 64) ∷ (128 + x % 64) ∷ rest) ≡ some rest
  unfolding continuation
  after_two h k =
      let b = 192 + x / 64 in
      let c = 128 + x % 64 in
      sequence_more b (c ∷ rest) (omega arith)
      ∙ ap (λ o. multi_byte o (c ∷ rest)) (lead_two b (omega arith) (omega arith))
      ∙ multi_byte-good 2 (b - 192) x (c ∷ rest) (omega arith)
          (take_one 0 (b - 192) c rest (omega arith, omega arith) (omega arith)
            ∙ ap some (omega arith))
          (two_valid x h k)

  after_three :
      0x800 ≤ x
      → x < 0x10000
      → IsScalar x
      → after ((224 + x / 4096) ∷ (128 + x / 64 % 64) ∷ (128 + x % 64) ∷ rest) ≡ some rest
  unfolding continuation
  after_three h k s =
      let b = 224 + x / 4096 in
      let c = 128 + x / 64 % 64 in
      let d = 128 + x % 64 in
      sequence_more b (c ∷ d ∷ rest) (omega arith)
      ∙ ap (λ o. multi_byte o (c ∷ d ∷ rest)) (lead_three b (omega arith) (omega arith))
      ∙ multi_byte-good 3 (b - 224) x (c ∷ d ∷ rest) (omega arith)
          (take_one 1 (b - 224) c (d ∷ rest) (omega arith, omega arith) (omega arith)
            ∙ take_one 0 ((b - 224) * 64 + (c - 128)) d rest (omega arith, omega arith)
                (omega arith)
            ∙ ap some (omega arith))
          (three_valid x h k s)

  after_four :
      0x10000 ≤ x
      → x < 0x110000
      → after
          ((240 + x / 2 ^ 18) ∷ (128 + x / 4096 % 64) ∷ (128 + x / 64 % 64) ∷ (128 + x % 64) ∷ rest)
        ≡ some rest
  unfolding continuation
  after_four h k =
      let b = 240 + x / 2 ^ 18 in
      let c = 128 + x / 4096 % 64 in
      let d = 128 + x / 64 % 64 in
      let e = 128 + x % 64 in
      let first = (b - 240) * 64 + (c - 128) in
      sequence_more b (c ∷ d ∷ e ∷ rest) (omega arith)
      ∙ ap (λ o. multi_byte o (c ∷ d ∷ e ∷ rest)) (lead_four b (omega arith) (omega arith))
      ∙ multi_byte-good 4 (b - 240) x (c ∷ d ∷ e ∷ rest) (omega arith)
          (take_one 2 (b - 240) c (d ∷ e ∷ rest) (omega arith, omega arith) (omega arith)
            ∙ take_one 1 first d (e ∷ rest) (omega arith, omega arith) (omega arith)
            ∙ take_one 0 (first * 64 + (d - 128)) e rest (omega arith, omega arith) (omega arith)
            ∙ ap some (omega arith))
          (four_valid x h k)

  after-encode : IsScalar x → after (encode x ++ rest) ≡ some rest
  after-encode (bound, s) = elim (dec_lt x 0x80) [
    | yes one ↦ rw (encode_one x one) (sequence_one x rest one)
    | no a ↦ elim (dec_lt x 0x800) [
      | yes two ↦ rw (encode_two x (omega arith) two) (after_two (omega arith) two)
      | no b ↦ elim (dec_lt x 0x10000) [
        | yes three ↦
            rw (encode_three x (omega arith) three) (after_three (omega arith) three (bound, s))
        | no four ↦ rw (encode_four x (omega arith)) (after_four (omega arith) bound)
      ]
    ]
  ]

-- Every round takes a byte at least.
encode_lem : (x : ℕ) → 0 < length (encode x)
unfolding encode
encode_lem x = ground arith

loop-after :
    (rounds : ℕ) (bytes rest : List ℕ)
    → after bytes ≡ some rest
    → utf8_loop (suc rounds) bytes ≡ utf8_loop rounds rest
unfolding utf8_loop
loop-after rounds [] rest e = absurd (none-ne-some rest e)
loop-after rounds (b ∷ bytes) rest e =
    let f : sequence b bytes ≡ some rest = e in rw (f, utf8_loop) refl

empty_text : (rounds : ℕ) → utf8_loop rounds [] ≡ true
unfolding utf8_loop
empty_text rounds = refl

utf8_loop-encode_all :
    (rounds : ℕ) (xs : List ℕ)
    → length (encode_all xs) ≤ rounds
    → All IsScalar xs
    → utf8_loop rounds (encode_all xs) ≡ true
unfolding encode_all
utf8_loop-encode_all rounds [] h hs = empty_text rounds
utf8_loop-encode_all zero (x ∷ xs) h hs =
    absurd (omega (arith, h, length-append (encode x) (encode_all xs), encode_lem x))
utf8_loop-encode_all (suc rounds) (x ∷ xs) h (s, hs) =
    loop-after rounds (encode x ++ encode_all xs) (encode_all xs) (after-encode x (encode_all xs) s)
    ∙ utf8_loop-encode_all rounds xs
        (omega (arith, h, length-append (encode x) (encode_all xs), encode_lem x)) hs

stopped :
    (rounds b : ℕ) (bytes : List ℕ)
    → sequence b bytes ≡ none
    → utf8_loop (suc rounds) (b ∷ bytes) ≢ true
unfolding utf8_loop
stopped rounds b bytes stops e =
    let f : utf8_loop (suc rounds) (b ∷ bytes) ≡ false = rw (stops, utf8_loop) refl in cc

utf8_loop-IsText :
    (rounds : ℕ) (bytes : List ℕ) → AllBytes bytes → utf8_loop rounds bytes ≡ true → IsText bytes
unfolding utf8_loop encode_all
utf8_loop-IsText rounds [] hs e = ([], tt, refl)
utf8_loop-IsText zero (b ∷ bytes) hs e = absurd cc
utf8_loop-IsText (suc rounds) (b ∷ bytes) (h, hs) e = elim (Option-cases (sequence b bytes)) [
  | inl stops ↦ absurd (stopped rounds b bytes stops e)
  | inr (rest, goes_on) ↦
      let (x, s, f) = sequence-Begins b bytes rest h hs goes_on in
      let left = (All-split (λ c. c < 256) (encode x) rest (subst AllBytes f (h, hs))).1 in
      let (xs, ss, g) =
        utf8_loop-IsText rounds rest left (sym (loop-after rounds (b ∷ bytes) rest goes_on) ∙ e) in
      (x ∷ xs, (s, ss), f ∙ ap (λ r. encode x ++ r) g)
]

-- IsUtf8 accepts exactly the byte strings that are the UTF-8 encodings of sequences of codepoints
-- up to 0x10ffff without the surrogates.
pub is_utf8-IsText :
    (bytes : List ℕ) → All (λ byte. byte < 2 ^ 8) bytes → (is_utf8 bytes ≡ true) ↔ IsText bytes
unfolding is_utf8
is_utf8-IsText bytes h = (
  utf8_loop-IsText (length bytes) bytes h,
  λ (xs, hs, e).
      subst (λ s. utf8_loop (length s) s ≡ true) (sym e)
        (utf8_loop-encode_all (length (encode_all xs)) xs (omega arith) hs),
)
