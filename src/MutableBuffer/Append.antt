-- ===== src/MutableBuffer/Append.antt =====
-- Append of base/mutable_buffer.cc on a queue of bytes.
use csutil.Common.{ℕ, ◌+◌, ◌-◌, ◌%◌, ◌^◌, ◌<◌, ◌≤◌, ◌≡◌, refl, arith, ◌⊎◌, inl, inr}
use csutil.Common.{
  ltb, leb, if◌then◌else◌, Bool-cases, ltb→lt, false, Option-cases, List, [], length,
}
use csutil.Common.{Option, none, some}
use csutil.Common.Status.{Result, ok, err, ◌>>=◌}
use csutil.Common.Status.{invalid_length, malloc_failed}
use csutil.MutableBuffer.{MutableBuffer, with_block, append_to, append}
use csutil.MutableBuffer.Contents.{InBlock, Holds, IsMalloc, Places, Puts, Lacks}
use csutil.MutableBuffer.Branches.{behind-Places, moved-Places, grown-Places}

module _ (malloc : ℕ → Option (List ℕ)) (allocates : IsMalloc malloc) where
  append_to-Places :
      (block : List ℕ) (b : MutableBuffer) (bytes data' : List ℕ)
      → InBlock block b bytes
      → (length data' ≤ b.buf_size - b.cur_buf_size)
        ⊎ (b.min_buf_size + b.buf_size + length data' < 2 ^ 32)
      → Places malloc b bytes data' (append_to malloc block b data')
  append_to-Places block b bytes data' held small =
      elim (Bool-cases (leb (length data') (b.buf_size - b.offset - b.cur_buf_size))) [
        | inl fits ↦ behind-Places malloc block b data' bytes held (ground arith)
        | inr full ↦ elim (Bool-cases (leb (length data') (b.buf_size - b.cur_buf_size))) [
          | inl fits ↦ moved-Places malloc block b data' bytes held (ground arith) (ground arith)
          | inr full' ↦
              grown-Places malloc block b data' bytes allocates held (ground arith)
                (grows small full')
        ]
      ]
    where
      grows :
          (length data' ≤ b.buf_size - b.cur_buf_size)
            ⊎ (b.min_buf_size + b.buf_size + length data' < 2 ^ 32)
          → leb (length data') (b.buf_size - b.cur_buf_size) ≡ false
          → b.min_buf_size + b.buf_size + length data' < 2 ^ 32
      grows (inl fits) full = absurd (ground arith)
      grows (inr small) full = small

  append_refused :
      (b : MutableBuffer) (data' : List ℕ)
      → b.buf_size + length data' < 2 ^ 32
      → b.max_buf_size < b.buf_size + length data'
      → append malloc b data' ≡ err invalid_length
  unfolding append
  append_refused b data' small full = ground arith

  append_goes_on :
      (b : MutableBuffer) (data' : List ℕ)
      → b.buf_size + length data' < 2 ^ 32
      → b.buf_size + length data' ≤ b.max_buf_size
      → append malloc b data'
        ≡ (with_block malloc b (length data') >>= λ t. append_to malloc t.0 t.1 data')
  unfolding append
  append_goes_on b data' small fits = ground arith

  -- The block that Append starts from: the one at hand, or a new one with room for the data.
  abbrev new_block : MutableBuffer → ℕ → List ℕ → MutableBuffer
  new_block b size block = record b {
    buf = some block;
    buf_size = size;
    cur_buf_size = 0;
    offset = 0;
  }

  with_block_old :
      (b : MutableBuffer) (block : List ℕ) (n : ℕ)
      → b.buf ≡ some block
      → with_block malloc b n ≡ ok (block, b)
  unfolding with_block
  with_block_old b block n e = rw e

  with_block_new :
      (b : MutableBuffer) (n : ℕ)
      → b.buf ≡ none
      → b.min_buf_size + n < 2 ^ 32
      → ((size : ℕ) × (malloc size ≡ none)
          × (n ≤ size)
          × (size ≤ b.min_buf_size + n)
          × (with_block malloc b n ≡ err malloc_failed))
        ⊎ ((size : ℕ) × (block : List ℕ) × (with_block malloc b n
              ≡ ok (block, new_block b size block))
            × (length block ≡ size)
            × (n ≤ size))
  unfolding with_block
  with_block_new b n e small = rw e (elim (Option-cases (malloc size)) [
    | inl no_room ↦ inl (size, no_room, ground arith, ground arith, rw no_room)
    | inr (block, room_ok) ↦
        inr (size, block, rw room_ok, allocates size block room_ok, ground arith)
  ])
    where
      size : ℕ
      size = if ltb n b.min_buf_size then b.min_buf_size else (b.min_buf_size + n) % 2 ^ 32

  -- What Append does below the maximum: there is no block or too small a one and malloc lacks
  -- another, or the data is put behind the bytes.
  abbrev pub Grows : MutableBuffer → List ℕ → List ℕ → Result MutableBuffer → Type 0
  Grows b bytes data' r =
      (((b.buf ≡ none) ⊎ (b.buf_size < length bytes + length data'))
        × Lacks malloc b bytes data'
        × (r ≡ err malloc_failed))
      ⊎ Puts bytes data' r

  append_room :
      (b : MutableBuffer) (bytes data' : List ℕ)
      → Holds b bytes
      → b.min_buf_size + b.buf_size + length data' < 2 ^ 32
      → Grows b bytes data'
          (with_block malloc b (length data') >>= λ t. append_to malloc t.0 t.1 data')
  append_room b bytes data' (inr (block, e, held)) small =
      rw (with_block_old b block (length data') e)
        (elim (append_to-Places block b bytes data' held (inr small)) [
          | inl (full, lacks, failed) ↦ inl (inr full, lacks, failed)
          | inr puts ↦ inr puts
        ])
  append_room b bytes data' (inl (no_buf, empty, _, _, _)) small =
      rw empty (elim (with_block_new b (length data') no_buf (omega arith)) [
        | inl (size, no_room, fits, near, failed) ↦
            rw failed
              (inl (inl no_buf, (size, no_room, omega (arith, fits), omega (arith, near)), refl))
        | inr (size, block, made, l, fits) ↦
            rw made
              (elim (append_to-Places block (new_block b size block) [] data'
                ([], block, refl, refl, refl, l) (inl (omega (arith, fits)))) [
                  | inl (full, lacks, failed) ↦ absurd (omega (arith, full, fits))
                  | inr puts ↦ inr puts
                ])
      ])

  -- What a call of Append does: the data is refused where it and the whole block together pass the
  -- maximum, or malloc lacks the block that it needs, or the data is put behind the bytes.
  abbrev pub Appends : MutableBuffer → List ℕ → List ℕ → Type 0
  Appends b bytes data' =
      ((b.max_buf_size < b.buf_size + length data') × (append malloc b data' ≡ err invalid_length))
      ⊎ ((b.buf_size + length data' ≤ b.max_buf_size) × Grows b bytes data' (append malloc b data'))

  -- On a buffer that holds the bytes and with sizes that stay in 32 bits, Append refuses the data where
  -- it and the whole block together pass the maximum; fails with kMallocFailed where there is no block
  -- or one that is too small for the bytes and the data, and malloc gives none of a size that has room
  -- for them; or gives a buffer that holds the bytes with the data behind them. It never writes outside
  -- a block.
  pub append-Appends :
      (b : MutableBuffer) (bytes data' : List ℕ)
      → Holds b bytes
      → b.min_buf_size + b.buf_size + length data' < 2 ^ 32
      → Appends b bytes data'
  append-Appends b bytes data' held small =
      elim (Bool-cases (ltb b.max_buf_size (b.buf_size + length data'))) [
        | inl full ↦ inl (ltb→lt _ _ full, append_refused b data' (omega arith) (ground arith))
        | inr fits ↦
            let room : b.buf_size + length data' ≤ b.max_buf_size = ground arith in
            inr (
              room,
              rw (append_goes_on b data' (omega arith) room) (append_room b bytes data' held small),
            )
      ]
