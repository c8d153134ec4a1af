-- ===== src/MutableBuffer/Skip.antt =====
-- Skip of base/mutable_buffer.cc on a queue of bytes.
use csutil.Common.{ℕ, ◌+◌, ◌-◌, ◌<◌, ◌≤◌, ◌≡◌, refl, arith, ◌∙◌, inl, inr}
use native.Mathlib.Decide.{dec_lt}
use csutil.Common.{zero, suc, take-append-drop, length-take, length-drop}
use csutil.Common.{List, [], ◌∷◌, ◌++◌, length}
use csutil.Common.{take, drop, none, some, append_assoc, length-append}
use csutil.MutableBuffer.{MutableBuffer, skip}
use csutil.MutableBuffer.Contents.{InBlock, Holds}

drop-nil : (n : ℕ) (xs : List ℕ) → length xs ≤ n → drop n xs ≡ []
drop-nil zero [] h = refl
drop-nil zero (x ∷ xs) h = absurd (omega arith)
drop-nil (suc n) [] h = refl
drop-nil (suc n) (x ∷ xs) h = drop-nil n xs (omega arith)

skip-none : (b : MutableBuffer) (n : ℕ) → b.buf ≡ none → skip b n ≡ b
unfolding skip
skip-none b n no_buf = ground arith

-- The three outcomes of Skip on a block.
module _ (b : MutableBuffer) (block : List ℕ) (n : ℕ) (has : b.buf ≡ some block) where
  skip_freed :
      b.cur_buf_size ≤ n
      → b.min_buf_size < b.buf_size
      → skip b n ≡ record b { buf = none; buf_size = 0; cur_buf_size = 0; offset = 0 }
  unfolding skip
  skip_freed all large = ground arith

  skip_all :
      b.cur_buf_size ≤ n
      → b.buf_size ≤ b.min_buf_size
      → skip b n ≡ record b { cur_buf_size = 0; offset = 0 }
  unfolding skip
  skip_all all small = ground arith

  skip_some :
      n < b.cur_buf_size
      → skip b n ≡ record b { offset = b.offset + n; cur_buf_size = b.cur_buf_size - n }
  unfolding skip
  skip_some less = ground arith

skip_block :
    (b : MutableBuffer) (block bytes : List ℕ) (n : ℕ)
    → b.buf ≡ some block
    → InBlock block b bytes
    → Holds (skip b n) (drop n bytes)
skip_block b block bytes n has (before, after, e, l, m, size) = elim (dec_lt n b.cur_buf_size) [
  | yes less ↦ rw (skip_some b block n has less) (
      inr (
        block,
        has,
        (
          before ++ take n bytes,
          after,
          e
              ∙ rw (
                append_assoc before (take n bytes) (drop n bytes ++ after),
                ← append_assoc (take n bytes) (drop n bytes) after,
                take-append-drop n bytes,
              ),
          omega (arith, length-append before (take n bytes), length-take n bytes),
          omega (arith, length-drop n bytes),
          size,
        ),
      ))
  | no all ↦ rw (drop-nil n bytes (omega arith)) (elim (dec_lt b.min_buf_size b.buf_size) [
    | yes large ↦
        rw (skip_freed b block n has (omega arith) large) (inl (refl, refl, refl, refl, refl))
    | no small ↦
        rw (skip_all b block n has (omega arith) (omega arith))
          (inr (block, has, ([], block, refl, refl, refl, size)))
  ])
]

-- Skip on a buffer that holds some bytes takes bytes off the front, as many as it is told or all that
-- there are.
pub skip-Holds :
    (b : MutableBuffer) (bytes : List ℕ) (n : ℕ) → Holds b bytes → Holds (skip b n) (drop n bytes)
skip-Holds b bytes n (inr (block, has, held)) = skip_block b block bytes n has held
skip-Holds b bytes n (inl (no_buf, empty, s, c, o)) =
    rw (skip-none b n no_buf, empty, drop-nil n [] (omega arith)) (inl (no_buf, refl, s, c, o))
