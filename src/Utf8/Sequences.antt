-- ===== src/Utf8/Sequences.antt =====
-- One round of IsUtf8 of base/utf8.cc takes the encoding of one scalar value.
use csutil.Common.{
  ℕ, suc, ◌+◌, ◌-◌, ◌*◌, ◌/◌, ◌%◌, ◌^◌, ◌<◌, ◌≤◌, ◌≡◌, refl, sym, ◌∙◌, arith, ltb, lt→ltb,
  ltb-false,
}
use csutil.Common.{
  if◌then◌else◌, true, false, Bool-cases, List, [], ◌∷◌, ◌++◌, length, drop, All, Option, none,
  some, ◌⊎◌, inl, inr,
}
use csutil.Utf8.{is_valid_continuation_byte, is_valid_codepoint, continuation, if_valid, multi_byte}
use csutil.Utf8.Masks.{IsContinuation, IsContinuation-cases, continuation-true, join_lem}
use mathlib.Core.Option.{some-injective, none-ne-some}
use native.Mathlib.Decide.{dec_lt}

-- A Unicode codepoint that is no surrogate.
abbrev pub IsScalar : ℕ → Type 0
IsScalar codepoint = (codepoint < 0x110000) × ((codepoint < 0xd800) ⊎ (0xdfff < codepoint))

-- The bytes that UTF-8 has for a codepoint.
unfoldable pub encode : ℕ → List ℕ
encode x =
    if ltb x 0x80
    then x ∷ []
    else if ltb x 0x800
    then (192 + x / 64) ∷ (128 + x % 64) ∷ []
    else if ltb x 0x10000
    then (224 + x / 4096) ∷ (128 + x / 64 % 64) ∷ (128 + x % 64) ∷ []
    else (240 + x / 2 ^ 18) ∷ (128 + x / 4096 % 64) ∷ (128 + x / 64 % 64) ∷ (128 + x % 64) ∷ []

pub encode_one : (x : ℕ) → x < 0x80 → encode x ≡ x ∷ []
unfolding encode
encode_one x h = ground arith

pub encode_two : (x : ℕ) → 0x80 ≤ x → x < 0x800 → encode x ≡ (192 + x / 64) ∷ (128 + x % 64) ∷ []
unfolding encode
encode_two x h k = ground arith

pub encode_three :
    (x : ℕ)
    → 0x800 ≤ x
    → x < 0x10000
    → encode x ≡ (224 + x / 4096) ∷ (128 + x / 64 % 64) ∷ (128 + x % 64) ∷ []
unfolding encode
encode_three x h k =
    rw (ltb-false x 0x80 (omega arith), ltb-false x 0x800 h, lt→ltb x 0x10000 k) refl

pub encode_four :
    (x : ℕ)
    → 0x10000 ≤ x
    → encode x
      ≡ (240 + x / 2 ^ 18) ∷ (128 + x / 4096 % 64) ∷ (128 + x / 64 % 64) ∷ (128 + x % 64) ∷ []
unfolding encode
encode_four x h =
    rw (ltb-false x 0x80 (omega arith), ltb-false x 0x800 (omega arith), ltb-false x 0x10000 h) refl

valid_two : (x : ℕ) → is_valid_codepoint x 2 ≡ true → (0x80 ≤ x) × (x < 0x800)
unfolding is_valid_codepoint
valid_two x h = (ground arith, ground arith)

valid_three : (x : ℕ) → is_valid_codepoint x 3 ≡ true → (0x800 ≤ x) × (x < 0x10000) × IsScalar x
unfolding is_valid_codepoint
valid_three x h = elim (dec_lt x 0xd800) [
  | yes low ↦ (ground arith, ground arith, (ground arith, inl low))
  | no other ↦ (ground arith, ground arith, (ground arith, inr (ground arith)))
]

valid_four : (x : ℕ) → is_valid_codepoint x 4 ≡ true → (0x10000 ≤ x) × (x < 0x110000)
unfolding is_valid_codepoint
valid_four x h = (ground arith, ground arith)

pub two_valid : (x : ℕ) → 0x80 ≤ x → x < 0x800 → is_valid_codepoint x 2 ≡ true
unfolding is_valid_codepoint
two_valid x h k = ground arith

pub three_valid : (x : ℕ) → 0x800 ≤ x → x < 0x10000 → IsScalar x → is_valid_codepoint x 3 ≡ true
unfolding is_valid_codepoint
three_valid x h k s = ground arith

pub four_valid : (x : ℕ) → 0x10000 ≤ x → x < 0x110000 → is_valid_codepoint x 4 ≡ true
unfolding is_valid_codepoint
four_valid x h k = ground arith

pub take_one :
    (left codepoint c : ℕ) (cs : List ℕ)
    → IsContinuation c
    → codepoint < 2 ^ 20
    → continuation (suc left) codepoint (c ∷ cs) ≡ continuation left (codepoint * 64 + (c - 128)) cs
unfolding continuation
take_one left codepoint c cs h small = rw (continuation-true c h, join_lem codepoint c small h) refl

not_taken :
    (left codepoint c : ℕ) (cs : List ℕ)
    → is_valid_continuation_byte c ≡ false
    → continuation (suc left) codepoint (c ∷ cs) ≡ none
unfolding continuation
not_taken left codepoint c cs f = rw f refl

-- One continuation byte.
taken :
    (left codepoint c x : ℕ) (cs : List ℕ)
    → c < 256
    → codepoint < 2 ^ 20
    → continuation (suc left) codepoint (c ∷ cs) ≡ some x
    → IsContinuation c × (continuation left (codepoint * 64 + (c - 128)) cs ≡ some x)
taken left codepoint c x cs byte small e = elim (IsContinuation-cases c byte) [
  | inl (h, t) ↦ (h, sym (take_one left codepoint c cs h small) ∙ e)
  | inr f ↦ absurd (none-ne-some x (sym (not_taken left codepoint c cs f) ∙ e))
]

if_valid-some :
    (n : ℕ) (o : Option ℕ) (bytes rest : List ℕ)
    → if_valid n o bytes ≡ some rest
    → (x : ℕ) × (o ≡ some x) × (is_valid_codepoint x n ≡ true) × (bytes ≡ rest)
unfolding if_valid
if_valid-some n none bytes rest e = absurd (none-ne-some rest e)
if_valid-some n (some x) bytes rest e = elim (Bool-cases (is_valid_codepoint x n)) [
  | inl good ↦ (x, refl, good, some-injective bytes rest (sym (rw good refl) ∙ e))
  | inr bad ↦ absurd (none-ne-some rest (sym (rw bad refl) ∙ e))
]

-- What a round needs of a sequence of more than one byte.
multi_byte-some :
    (n codepoint : ℕ) (bytes rest : List ℕ)
    → multi_byte (some (n, codepoint)) bytes ≡ some rest
    → (x : ℕ) × (continuation (n - 1) codepoint bytes ≡ some x)
      × (is_valid_codepoint x n ≡ true)
      × (drop (n - 1) bytes ≡ rest)
unfolding multi_byte
multi_byte-some n codepoint bytes rest e = elim (Bool-cases (ltb (suc (length bytes)) n)) [
  | inl short ↦ absurd (none-ne-some rest (sym (rw short refl) ∙ e))
  | inr enough ↦
      if_valid-some n (continuation (n - 1) codepoint bytes) (drop (n - 1) bytes) rest
        (sym (rw enough refl) ∙ e)
]

-- The bytes begin with the encoding of a scalar value, with the rest behind it.
abbrev pub Begins : List ℕ → List ℕ → Type 0
Begins bytes rest = (x : ℕ) × IsScalar x × (bytes ≡ encode x ++ rest)

pub Begins-two :
    (b : ℕ) (bytes rest : List ℕ)
    → 192 ≤ b
    → b < 224
    → All (λ c. c < 256) bytes
    → multi_byte (some (2, b - 192)) bytes ≡ some rest
    → Begins (b ∷ bytes) rest
unfolding continuation
Begins-two b [] rest h k hs e =
    let (x, f, v, d) = multi_byte-some 2 (b - 192) [] rest e in absurd (none-ne-some x f)
Begins-two b (c ∷ cs) rest h k (hc, hs) e =
    let (x, f, v, d) = multi_byte-some 2 (b - 192) (c ∷ cs) rest e in
    let (t, g) = taken 0 (b - 192) c x cs hc (omega (arith, k)) f in
    let y = some-injective ((b - 192) * 64 + (c - 128)) x g in
    let (low, high) = valid_two x v in
    let eb : b ≡ 192 + x / 64 = omega (arith, y, h, t) in
    let ec : c ≡ 128 + x % 64 = omega (arith, y, h, t) in
    (
      x,
      (omega (arith, high), inl (omega (arith, high))),
      rw (encode_two x low high, d, eb, ec) refl,
    )

pub Begins-three :
    (b : ℕ) (bytes rest : List ℕ)
    → 224 ≤ b
    → b < 240
    → All (λ c. c < 256) bytes
    → multi_byte (some (3, b - 224)) bytes ≡ some rest
    → Begins (b ∷ bytes) rest
unfolding continuation
Begins-three b [] rest h k hs e =
    let (x, f, v, d) = multi_byte-some 3 (b - 224) [] rest e in absurd (none-ne-some x f)
Begins-three b (c ∷ []) rest h k (hc, hs) e =
    let (x, f, v, d) = multi_byte-some 3 (b - 224) (c ∷ []) rest e in
    let (t, g) = taken 1 (b - 224) c x [] hc (omega (arith, k)) f in absurd (none-ne-some x g)
Begins-three b (c ∷ c' ∷ cs) rest h k (hc, (hc', hs)) e =
    let (x, f, v, d) = multi_byte-some 3 (b - 224) (c ∷ c' ∷ cs) rest e in
    let (t, g) = taken 1 (b - 224) c x (c' ∷ cs) hc (omega (arith, k)) f in
    let codepoint = (b - 224) * 64 + (c - 128) in
    let (t', g') = taken 0 codepoint c' x cs hc' (omega (arith, k, hc)) g in
    let y = some-injective (codepoint * 64 + (c' - 128)) x g' in
    let (low, high, scalar) = valid_three x v in
    let eb : b ≡ 224 + x / 4096 = omega (arith, y, h, t, t') in
    let ec : c ≡ 128 + x / 64 % 64 = omega (arith, y, h, t, t') in
    let ec' : c' ≡ 128 + x % 64 = omega (arith, y, h, t, t') in
    (x, scalar, rw (encode_three x low high, d, eb, ec, ec') refl)

pub Begins-four :
    (b : ℕ) (bytes rest : List ℕ)
    → 240 ≤ b
    → b < 248
    → All (λ c. c < 256) bytes
    → multi_byte (some (4, b - 240)) bytes ≡ some rest
    → Begins (b ∷ bytes) rest
unfolding continuation
Begins-four b [] rest h k hs e =
    let (x, f, v, d) = multi_byte-some 4 (b - 240) [] rest e in absurd (none-ne-some x f)
Begins-four b (c ∷ []) rest h k (hc, hs) e =
    let (x, f, v, d) = multi_byte-some 4 (b - 240) (c ∷ []) rest e in
    let (t, g) = taken 2 (b - 240) c x [] hc (omega (arith, k)) f in absurd (none-ne-some x g)
Begins-four b (c ∷ c' ∷ []) rest h k (hc, (hc', hs)) e =
    let (x, f, v, d) = multi_byte-some 4 (b - 240) (c ∷ c' ∷ []) rest e in
    let (t, g) = taken 2 (b - 240) c x (c' ∷ []) hc (omega (arith, k)) f in
    let (t', g') = taken 1 ((b - 240) * 64 + (c - 128)) c' x [] hc' (omega (arith, k, hc)) g in
    absurd (none-ne-some x g')
Begins-four b (c ∷ c' ∷ c'' ∷ cs) rest h k (hc, (hc', (hc'', hs))) e =
    let (x, f, v, d) = multi_byte-some 4 (b - 240) (c ∷ c' ∷ c'' ∷ cs) rest e in
    let (t, g) = taken 2 (b - 240) c x (c' ∷ c'' ∷ cs) hc (omega (arith, k)) f in
    let first = (b - 240) * 64 + (c - 128) in
    let (t', g') = taken 1 first c' x (c'' ∷ cs) hc' (omega (arith, k, hc)) g in
    let second = first * 64 + (c' - 128) in
    let (t'', g'') = taken 0 second c'' x cs hc'' (omega (arith, k, hc, hc')) g' in
    let y = some-injective (second * 64 + (c'' - 128)) x g'' in
    let (low, high) = valid_four x v in
    let eb : b ≡ 240 + x / 2 ^ 18 = omega (arith, y, h, t, t', t'') in
    let ec : c ≡ 128 + x / 4096 % 64 = omega (arith, y, h, t, t', t'') in
    let ec' : c' ≡ 128 + x / 64 % 64 = omega (arith, y, h, t, t', t'') in
    let ec'' : c'' ≡ 128 + x % 64 = omega (arith, y, h, t, t', t'') in
    (x, (high, inr (omega (arith, low))), rw (encode_four x low, d, eb, ec, ec', ec'') refl)
