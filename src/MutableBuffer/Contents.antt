-- ===== src/MutableBuffer/Contents.antt =====
-- The buffer of base/mutable_buffer.cc as a queue of bytes.
use csutil.Common.{ℕ, ◌+◌, ◌<◌, ◌≤◌, ◌≡◌, ◌⊎◌}
use csutil.Common.{List, [], ◌++◌, length}
use csutil.Common.{Option, none, some}
use csutil.Common.Status.{Result, ok, err}
use csutil.Common.Status.{malloc_failed}
use csutil.MutableBuffer.{MutableBuffer}

-- The block with the bytes between `offset` and `offset + cur_buf_size`.
abbrev pub InBlock : List ℕ → MutableBuffer → List ℕ → Type 0
InBlock block b bytes =
    (before after : List ℕ) × (block ≡ before ++ (bytes ++ after))
    × (length before ≡ b.offset)
    × (length bytes ≡ b.cur_buf_size)
    × (length block ≡ b.buf_size)

abbrev IsEmptied : MutableBuffer → List ℕ → Type 0
IsEmptied b bytes =
    (b.buf ≡ none) × (bytes ≡ []) × (b.buf_size ≡ 0) × (b.cur_buf_size ≡ 0) × (b.offset ≡ 0)

-- The buffer holds the bytes, with sizes and offset to match.
abbrev pub Holds : MutableBuffer → List ℕ → Type 0
Holds b bytes =
    IsEmptied b bytes ⊎ ((block : List ℕ) × (b.buf ≡ some block) × InBlock block b bytes)

-- What malloc promises: a block that it gives has the size asked for.
abbrev pub IsMalloc : (ℕ → Option (List ℕ)) → Type 0
IsMalloc malloc = (size : ℕ) (block : List ℕ) → malloc size ≡ some block → length block ≡ size

-- malloc has no block of a size, which has room for the bytes and the data and not much more.
abbrev pub Lacks : (ℕ → Option (List ℕ)) → MutableBuffer → List ℕ → List ℕ → Type 0
Lacks malloc b bytes data' =
    (size : ℕ) × (malloc size ≡ none)
    × (length bytes + length data' ≤ size)
    × (size ≤ b.min_buf_size + b.buf_size + length data')

-- The data is behind the bytes.
abbrev pub Puts : List ℕ → List ℕ → Result MutableBuffer → Type 0
Puts bytes data' r = (b : MutableBuffer) × (r ≡ ok b) × Holds b (bytes ++ data')

-- A call needs a larger block, which malloc lacks, or puts the data behind the bytes.
abbrev pub Places :
    (ℕ → Option (List ℕ)) → MutableBuffer → List ℕ → List ℕ → Result MutableBuffer → Type 0
Places malloc b bytes data' r =
    ((b.buf_size < length bytes + length data')
      × Lacks malloc b bytes data'
      × (r ≡ err malloc_failed))
    ⊎ Puts bytes data' r
