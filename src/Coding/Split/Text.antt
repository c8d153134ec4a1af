-- ===== src/Coding/Split/Text.antt =====
-- SplitUTF8 of base/coding.cc on the UTF-8 encodings of codepoints.
use csutil.Common.{ℕ, zero, suc, ◌+◌, ◌/◌, ◌%◌, ◌^◌, ◌<◌, ◌≤◌, ◌≡◌, refl, sym, ap, ◌∙◌, arith}
use csutil.Common.{ltb, leb, ◌==◌, ◌&&◌, ◌||◌, if◌then◌else◌, Bool, false, Bool-cases, inl, inr}
use csutil.Common.{
  List, [], ◌∷◌, ◌++◌, length, take, drop, All, length-append, append_assoc, append-nil,
  take-append, drop-append,
}
use csutil.Common.{lt→ltb, ltb-false, unequal, leb-false}
use csutil.Common.Status.{ok}
use csutil.Coding.Url.{is_alnum}
use csutil.Coding.Split.{check_is_hyphen, first_len, push_word, split_char, split_step, split_loop}
use csutil.Coding.Split.{split_utf8}
use csutil.Utf8.Sequences.{IsScalar, encode, encode_one, encode_two, encode_three, encode_four}
use csutil.Utf8.Text.{encode_all}
use native.Mathlib.Decide.{dec_lt}
use csutil.Common.Bits.{agree_below, agree_below→eq}

-- Letters and digits of ASCII, and the three hyphens.
unfoldable pub is_word_char : ℕ → Bool
is_word_char x =
    (leb b'0' x && leb x b'9')
    || (leb b'A' x && leb x b'Z')
    || (leb b'a' x && leb x b'z')
    || (x == b'_' || x == b'+' || x == b'-')

-- The word in front of what follows, if it is not empty.
unfoldable pub before : List ℕ → List (List ℕ) → List (List ℕ)
before [] rest = rest
before (c ∷ cs) rest = (c ∷ cs) ∷ rest

-- The words of a text, which are as long as they can be, and the encodings of the other codepoints, in
-- order; the first list is the word so far.
unfoldable pub words : List ℕ → List ℕ → List (List ℕ)
words word [] = before word []
words word (x ∷ xs) =
    let further = words (word ++ (x ∷ [])) xs in
    let after = words [] xs in if is_word_char x then further else before word (encode x ∷ after)

is_word_char_lem : (x : ℕ) → (is_alnum x || check_is_hyphen x) ≡ is_word_char x
unfolding is_alnum check_is_hyphen is_word_char
is_word_char_lem x = ground arith

is_word_char-ascii : (x : ℕ) → 128 ≤ x → is_word_char x ≡ false
unfolding is_word_char
is_word_char-ascii x h = ground arith

first_len_lem :
    (b : ℕ)
    → b < 256
    → first_len b ≡ (
        if ltb b 192
        then 1
        else if ltb b 224
        then 2
        else if ltb b 240
        then 3
        else if ltb b 248
        then 4
        else 1)
unfolding first_len agree_below
first_len_lem = agree_below→eq _ _ 256 refl

push_word-before :
    (word : List ℕ) (rest : List (List ℕ)) → push_word word ++ rest ≡ before word rest
unfolding push_word before
push_word-before [] rest = refl
push_word-before (c ∷ cs) rest = refl

-- A round on a longer sequence that is all there.
step-wide :
    (n : ℕ) (word : List ℕ) (b : ℕ) (bytes : List ℕ)
    → first_len b ≡ n
    → 2 ≤ n
    → n ≤ suc (length bytes)
    → split_step word b bytes
      ≡ ok (push_word word ++ (take n (b ∷ bytes) ∷ []), [], drop n (b ∷ bytes))
unfolding split_step split_char push_word
step-wide n word b bytes e h k =
    rw (e, ltb-false (suc (length bytes)) n k, lt→ltb 1 n h, unequal n 1 (λ e. omega (arith, e, h)))
      refl

step-ascii :
    (word : List ℕ) (b : ℕ) (bytes : List ℕ)
    → b < 128
    → split_step word b bytes ≡ (
        if is_word_char b
        then ok ([], word ++ (b ∷ []), bytes)
        else ok (push_word word ++ ((b ∷ []) ∷ []), [], bytes))
unfolding split_step split_char
step-ascii word b bytes h =
    let one : first_len b ≡ 1 =
      first_len_lem b (omega (arith, h)) ∙ rw (lt→ltb b 192 (omega (arith, h))) refl in
    rw (one, ltb-false (suc (length bytes)) 1 (omega arith), leb-false 128 b h, is_word_char_lem b)
      (elim (Bool-cases (is_word_char b)) [
        | inl goes_on ↦ rw goes_on refl
        | inr ends ↦ rw ends refl
      ])

round :
    (rounds : ℕ) (word : List ℕ) (b : ℕ) (bytes : List ℕ) (pushed : List (List ℕ))
    (word' rest : List ℕ) (out : List (List ℕ))
    → split_step word b bytes ≡ ok (pushed, word', rest)
    → split_loop rounds word' rest ≡ ok out
    → split_loop (suc rounds) word (b ∷ bytes) ≡ ok (pushed ++ out)
unfolding split_loop
round rounds word b bytes pushed word' rest out e f = rw (e, split_loop, f) refl

-- The bytes of a longer sequence are pushed as they are.
round-wide :
    (rounds n : ℕ) (word : List ℕ) (b : ℕ) (bytes : List ℕ) (x : ℕ) (rest : List ℕ)
    (out : List (List ℕ))
    → first_len b ≡ n
    → (2 ≤ n) × (n ≤ suc (length bytes))
    → take n (b ∷ bytes) ≡ encode x
    → drop n (b ∷ bytes) ≡ rest
    → split_loop rounds [] rest ≡ ok out
    → split_loop (suc rounds) word (b ∷ bytes) ≡ ok (before word (encode x ∷ out))
round-wide rounds n word b bytes x rest out e (h, k) taken left f =
    round rounds word b bytes _ [] (drop n (b ∷ bytes)) out (step-wide n word b bytes e h k)
      (rw left f)
    ∙ rw taken (
        ap ok (
          append_assoc (push_word word) (encode x ∷ []) out
          ∙ push_word-before word (encode x ∷ out)))

-- The text behind a longer sequence.
split_loop-wide :
    (rounds : ℕ) (word : List ℕ) (b : ℕ) (bytes : List ℕ) (x : ℕ) (xs : List ℕ)
    → 128 ≤ x
    → encode x ≡ b ∷ bytes
    → first_len b ≡ suc (length bytes)
    → 0 < length bytes
    → split_loop rounds [] (encode_all xs) ≡ ok (words [] xs)
    → split_loop (suc rounds) word (encode_all (x ∷ xs)) ≡ ok (words word (x ∷ xs))
unfolding encode_all words
split_loop-wide rounds word b bytes x xs h e l some f =
    ap (λ t. split_loop (suc rounds) word (t ++ encode_all xs)) e
    ∙ round-wide rounds (suc (length bytes)) word b (bytes ++ encode_all xs) x (encode_all xs)
        (words [] xs) l (omega (arith, some), omega (arith, length-append bytes (encode_all xs)))
        (ap (λ t. b ∷ t) (take-append bytes (encode_all xs)) ∙ sym e)
        (drop-append bytes (encode_all xs)) f
    ∙ rw (is_word_char-ascii x h) refl

split_loop-ascii :
    (rounds : ℕ) (word : List ℕ) (x : ℕ) (xs : List ℕ)
    → x < 128
    → ((word' : List ℕ) → split_loop rounds word' (encode_all xs) ≡ ok (words word' xs))
    → split_loop (suc rounds) word (encode_all (x ∷ xs)) ≡ ok (words word (x ∷ xs))
unfolding encode_all words
split_loop-ascii rounds word x xs h f =
    let step = step-ascii word x (encode_all xs) h in
    ap (λ t. split_loop (suc rounds) word (t ++ encode_all xs)) (encode_one x h)
    ∙ elim (Bool-cases (is_word_char x)) [
      | inl goes_on ↦ rw goes_on (
          round rounds word x (encode_all xs) [] (word ++ (x ∷ [])) (encode_all xs) _
            (rw goes_on at step) (f (word ++ (x ∷ []))))
      | inr ends ↦
          rw (ends, encode_one x h)
            (round rounds word x (encode_all xs) _ [] (encode_all xs) _ (rw ends at step) (f [])
              ∙ ap ok (
                  append_assoc (push_word word) ((x ∷ []) ∷ []) (words [] xs)
                  ∙ push_word-before word ((x ∷ []) ∷ words [] xs)))
    ]

lead_len :
    (b : ℕ) (n : ℕ)
    → b < 256
    → (if ltb b 192
        then 1
        else if ltb b 224
        then 2
        else if ltb b 240
        then 3
        else if ltb b 248
        then 4
        else 1)
      ≡ n
    → first_len b ≡ n
lead_len b n h e = first_len_lem b h ∙ e

length-encode : (x : ℕ) → 1 ≤ length (encode x)
unfolding encode
length-encode x = ground arith

-- A round for every codepoint.
split_loop-words :
    (rounds : ℕ) (word xs : List ℕ)
    → All IsScalar xs
    → length (encode_all xs) ≤ rounds
    → split_loop rounds word (encode_all xs) ≡ ok (words word xs)
unfolding encode_all words split_loop
split_loop-words rounds word [] h k =
    ap ok (sym (append-nil (push_word word)) ∙ push_word-before word [])
split_loop-words zero word (x ∷ xs) (h, hs) k =
    absurd (omega (arith, k, length-encode x, length-append (encode x) (encode_all xs)))
split_loop-words (suc rounds) word (x ∷ xs) ((h, s), hs) k =
    let less : length (encode_all xs) ≤ rounds =
      omega (arith, k, length-encode x, length-append (encode x) (encode_all xs)) in
    let further = λ (word' : List ℕ). split_loop-words rounds word' xs hs less in
    elim (dec_lt x 0x80) [
      | yes one ↦ split_loop-ascii rounds word x xs one further
      | no wide ↦ elim (dec_lt x 0x800) [
        | yes two ↦
            split_loop-wide rounds word (192 + x / 64) ((128 + x % 64) ∷ []) x xs (omega arith)
              (encode_two x (omega arith) two) (lead_len _ 2 (omega arith) (ground arith))
              (omega arith) (further [])
        | no wider ↦ elim (dec_lt x 0x10000) [
          | yes three ↦
              split_loop-wide rounds word (224 + x / 4096)
                ((128 + x / 64 % 64) ∷ (128 + x % 64) ∷ []) x xs (omega arith)
                (encode_three x (omega arith) three) (lead_len _ 3 (omega arith) (ground arith))
                (omega arith) (further [])
          | no widest ↦
              split_loop-wide rounds word (240 + x / 2 ^ 18)
                ((128 + x / 4096 % 64) ∷ (128 + x / 64 % 64) ∷ (128 + x % 64) ∷ []) x xs
                (omega arith) (encode_four x (omega arith))
                (lead_len _ 4 (omega (arith, h)) (ground arith)) (omega arith) (further [])
        ]
      ]
    ]

-- SplitUTF8 of the UTF-8 encoding of codepoints succeeds, with the longest words of letters, digits and
-- the hyphens _, + and -, and the encodings of the other codepoints one by one, all in order.
pub split_utf8-words :
    (xs : List ℕ) → All IsScalar xs → split_utf8 (encode_all xs) ≡ ok (words [] xs)
unfolding split_utf8
split_utf8-words xs h = split_loop-words (length (encode_all xs)) [] xs h (omega arith)
