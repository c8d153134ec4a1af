-- ===== src/MutableBuffer.antt =====
-- base/mutable_buffer.cc. The block behind `buf_` is the list of its bytes; `malloc` is a parameter,
-- a block of the size asked for with any bytes in it, or none. Sizes are uint32_t.
pub mod Memory
pub mod Contents
mod Branches
pub mod Append
pub mod Skip
mod Tests
use csutil.Common.{ℕ, ◌+◌, ◌-◌, ◌%◌, ◌^◌, ltb, leb, if◌then◌else◌, List, [], ◌∷◌, length}
use csutil.Common.{Option, none, some}
use csutil.Common.Status.{Result, ok, err, undefined, ◌>>=◌, ◌>>◌, fail_if}
use csutil.Common.Status.{invalid_length, malloc_failed}
use Memory.{load, store, or_failed}

pub record MutableBuffer : Type 0 where
  pub buf : Option (List ℕ)
  pub buf_size : ℕ
  pub cur_buf_size : ℕ
  pub offset : ℕ
  pub min_buf_size : ℕ
  pub max_buf_size : ℕ

pub new_buffer : ℕ → ℕ → MutableBuffer
new_buffer min_buf_size max_buf_size = record {
  buf = none;
  buf_size = 0;
  cur_buf_size = 0;
  offset = 0;
  min_buf_size = min_buf_size;
  max_buf_size = max_buf_size;
}

module _ (malloc : ℕ → Option (List ℕ)) where
  -- `if (buf_ == NULL) { … }`: the block to append to, and the buffer with it.
  pub with_block : MutableBuffer → ℕ → Result (List ℕ × MutableBuffer)
  with_block b data_len = elim b.buf [
    | some block ↦ ok (block, b)
    | none ↦
        let alloc_size : ℕ =
          if ltb data_len b.min_buf_size
          then b.min_buf_size
          else (b.min_buf_size + data_len) % 2 ^ 32 in
        do
          block ← or_failed (malloc alloc_size)
          ok (
            block,
            record b { buf = some block; buf_size = alloc_size; cur_buf_size = 0; offset = 0 },
          )
  ]

  -- The three ways to place the data: behind what is there, after moving that to the front, and in
  -- a larger block.
  pub append_to : List ℕ → MutableBuffer → List ℕ → Result MutableBuffer
  append_to block b data' =
      let data_len : ℕ = length data' in
      if leb data_len (b.buf_size - b.offset - b.cur_buf_size)
      then (do
        block' ← store block (b.offset + b.cur_buf_size) data'
        ok (record b { buf = some block'; cur_buf_size = b.cur_buf_size + data_len }))
      else if leb data_len (b.buf_size - b.cur_buf_size)
      then (do
        kept ← load block b.offset b.cur_buf_size
        block' ← store block 0 kept
        block'' ← store block' b.cur_buf_size data'
        ok (record b { buf = some block''; cur_buf_size = b.cur_buf_size + data_len; offset = 0 }))
      else (do
        tmp_buf ← or_failed (malloc ((b.min_buf_size + b.buf_size + data_len) % 2 ^ 32))
        kept ← load block b.offset b.cur_buf_size
        tmp_buf' ← store tmp_buf 0 kept
        tmp_buf'' ← store tmp_buf' b.cur_buf_size data'
        ok (record b {
          buf = some tmp_buf'';
          buf_size = (b.min_buf_size + b.buf_size + data_len) % 2 ^ 32;
          cur_buf_size = b.cur_buf_size + data_len;
          offset = 0;
        }))

  pub append : MutableBuffer → List ℕ → Result MutableBuffer
  append b data' = do
    fail_if (ltb b.max_buf_size ((b.buf_size + length data') % 2 ^ 32)) invalid_length
    (block, b') ← with_block b (length data')
    append_to block b' data'

-- Once all is skipped, a block that is larger than the minimum is freed.
pub skip : MutableBuffer → ℕ → MutableBuffer
skip b skip_len = elim b.buf [
  | none ↦ b
  | some block ↦
      if leb b.cur_buf_size skip_len
      then (if ltb b.min_buf_size b.buf_size
          then record b { buf = none; buf_size = 0; cur_buf_size = 0; offset = 0 }
          else record b { cur_buf_size = 0; offset = 0 })
      else record b { offset = b.offset + skip_len; cur_buf_size = b.cur_buf_size - skip_len }
]
