-- ===== src/Coding/Split.antt =====
-- SplitUTF8 of base/coding.cc. `isalnum` is that of the "C" locale; of a char from 128 on, which is
-- negative, it is undefined. The word from `index` on is a string here, which is empty where `index` is
-- -1.
pub mod Text
use csutil.Common.{ℕ, zero, suc, bit_and, ltb, leb, ◌==◌, ◌||◌, if◌then◌else◌}
use csutil.Common.{Bool, List, [], ◌∷◌, ◌++◌, length, take, drop}
use csutil.Common.Status.{Result, ok, undefined, ◌>>=◌}
use csutil.Coding.Url.{is_alnum}

-- CheckIsHyphen of base/util.cc.
check_is_hyphen : ℕ → Bool
check_is_hyphen ch = ch == b'_' || ch == b'+' || ch == b'-'

-- `len` by the first byte.
first_len : ℕ → ℕ
first_len b =
    if bit_and b 0xf8 == 0xf0
    then 4
    else if bit_and b 0xf0 == 0xe0
    then 3
    else if bit_and b 0xe0 == 0xc0
    then 2
    else 1

-- `if (index != -1) out->push_back(...)`
push_word : List ℕ → List (List ℕ)
push_word [] = []
push_word (c ∷ cs) = (c ∷ cs) ∷ []

-- Behind the check of the tail: what is pushed, the word that goes on, and what is left.
split_char : ℕ → List ℕ → ℕ → List ℕ → Result (List (List ℕ) × List ℕ × List ℕ)
split_char len word b bytes =
    let pushed = ok (push_word word ++ take len (b ∷ bytes) ∷ [], [], drop len (b ∷ bytes)) in
    let ascii =
      if is_alnum b || check_is_hyphen b then ok ([], word ++ b ∷ [], bytes) else pushed in
    if len == 1 then (if leb 128 b then undefined else ascii) else pushed

-- One round. The word ends before a byte of a longer sequence, and is not pushed again.
split_step : List ℕ → ℕ → List ℕ → Result (List (List ℕ) × List ℕ × List ℕ)
split_step word b bytes =
    let wide = first_len b in
    let len = if ltb (suc (length bytes)) wide then 1 else wide in
    let ended = if ltb 1 wide then push_word word else [] in
    let word' = if ltb 1 wide then [] else word in
    do step ← split_char len word' b bytes; ok (ended ++ step.0, step.1, step.2)

-- The loop, with the rounds that are left, and the last word.
split_loop : ℕ → List ℕ → List ℕ → Result (List (List ℕ))
split_loop rounds word [] = ok (push_word word)
split_loop zero word (b ∷ bytes) = undefined
split_loop (suc rounds) word (b ∷ bytes) = do
  step ← split_step word b bytes
  out ← split_loop rounds (step.1) (step.2)
  ok (step.0 ++ out)

-- A round takes a byte at least.
pub split_utf8 : List ℕ → Result (List (List ℕ))
split_utf8 src = split_loop (length src) [] src
