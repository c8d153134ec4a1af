-- ===== src/MutableBuffer/Branches.antt =====
-- The three ways in which Append of base/mutable_buffer.cc places the data.
use csutil.Common.{ℕ, ◌+◌, ◌-◌, ◌%◌, ◌^◌, ◌<◌, ◌≤◌, ◌≡◌, refl, sym, ap, arith, ◌∙◌, inl, inr}
use csutil.Common.{Option-cases, List, [], ◌++◌, length}
use csutil.Common.{Option, none, some, append_assoc, length-append}
use csutil.Common.Status.{ok, err, ◌>>=◌}
use csutil.Common.Status.{malloc_failed}
use csutil.MutableBuffer.Memory.{load, store, load-pieces, store-pieces, split_at}
use csutil.MutableBuffer.Memory.{store_two}
use csutil.MutableBuffer.{MutableBuffer, append_to}
use csutil.MutableBuffer.Contents.{InBlock, IsMalloc, Places}

-- The three branches of Append, given what memory does in them.
module _ (malloc : ℕ → Option (List ℕ)) (block : List ℕ) (b : MutableBuffer) (data' : List ℕ) where
  append_to_behind :
      (block' : List ℕ)
      → length data' ≤ b.buf_size - b.offset - b.cur_buf_size
      → store block (b.offset + b.cur_buf_size) data' ≡ ok block'
      → append_to malloc block b data'
        ≡ ok (record b { buf = some block'; cur_buf_size = b.cur_buf_size + length data' })
  unfolding append_to
  append_to_behind block' fits stored = ground arith

  append_to_moved :
      (kept block' : List ℕ)
      → b.buf_size - b.offset - b.cur_buf_size < length data'
      → length data' ≤ b.buf_size - b.cur_buf_size
      → load block b.offset b.cur_buf_size ≡ ok kept
      → (store block 0 kept >>= λ t. store t b.cur_buf_size data') ≡ ok block'
      → append_to malloc block b data'
        ≡ ok (record b {
          buf = some block';
          cur_buf_size = b.cur_buf_size + length data';
          offset = 0;
        })
  unfolding append_to
  append_to_moved kept block' full fits loaded stored = ground arith

  append_to_grown :
      (kept room block' : List ℕ)
      → b.buf_size - b.offset - b.cur_buf_size < length data'
      → b.buf_size - b.cur_buf_size < length data'
      → malloc ((b.min_buf_size + b.buf_size + length data') % 2 ^ 32) ≡ some room
      → load block b.offset b.cur_buf_size ≡ ok kept
      → (store room 0 kept >>= λ t. store t b.cur_buf_size data') ≡ ok block'
      → append_to malloc block b data'
        ≡ ok (record b {
          buf = some block';
          buf_size = (b.min_buf_size + b.buf_size + length data') % 2 ^ 32;
          cur_buf_size = b.cur_buf_size + length data';
          offset = 0;
        })
  unfolding append_to
  append_to_grown kept room block' full full' room_ok loaded stored = ground arith

  append_to_failed :
      b.buf_size - b.offset - b.cur_buf_size < length data'
      → b.buf_size - b.cur_buf_size < length data'
      → malloc ((b.min_buf_size + b.buf_size + length data') % 2 ^ 32) ≡ none
      → append_to malloc block b data' ≡ err malloc_failed
  unfolding append_to
  append_to_failed full full' no_room = ground arith

load-InBlock :
    (block : List ℕ) (b : MutableBuffer) (bytes : List ℕ)
    → InBlock block b bytes
    → load block b.offset b.cur_buf_size ≡ ok bytes
load-InBlock block b bytes (before, after, e, l, m, n) =
    rw (e, ← l, ← m) (load-pieces before bytes after)

sizes-InBlock :
    (block : List ℕ) (b : MutableBuffer) (bytes : List ℕ)
    → InBlock block b bytes
    → b.offset + b.cur_buf_size ≤ b.buf_size
sizes-InBlock block b bytes (before, after, e, l, m, n) =
    omega (arith, ap length e, length-append before (bytes ++ after), length-append bytes after)

-- A write behind the bytes, over as many bytes as it has.
stored_behind :
    (before bytes old rest data' : List ℕ) (at : ℕ)
    → at ≡ length before + length bytes
    → length old ≡ length data'
    → (store (before ++ (bytes ++ (old ++ rest))) at data'
        ≡ ok (before ++ ((bytes ++ data') ++ rest)))
      × (length (before ++ ((bytes ++ data') ++ rest))
          ≡ length (before ++ (bytes ++ (old ++ rest))))
stored_behind before bytes old rest data' at place same = (
  rw (place, ← length-append before bytes, ← append_assoc before bytes (old ++ rest))
      (store-pieces (before ++ bytes) old rest data' same
        ∙ ap ok (
            append_assoc before bytes (data' ++ rest)
            ∙ ap (◌++◌ before) (sym (append_assoc bytes data' rest)))),
  omega (
    arith,
    length-append before ((bytes ++ data') ++ rest),
    length-append (bytes ++ data') rest,
    length-append bytes data',
    length-append before (bytes ++ (old ++ rest)),
    length-append bytes (old ++ rest),
    length-append old rest,
  ),
)

module _ (malloc : ℕ → Option (List ℕ)) (block : List ℕ) (b : MutableBuffer) (data' : List ℕ) where
  behind_pieces :
      (before bytes old rest : List ℕ)
      → block ≡ before ++ (bytes ++ (old ++ rest))
      → length before ≡ b.offset
      → length bytes ≡ b.cur_buf_size
      → length block ≡ b.buf_size
      → length old ≡ length data'
      → length data' ≤ b.buf_size - b.offset - b.cur_buf_size
      → Places malloc b bytes data' (append_to malloc block b data')
  behind_pieces before bytes old rest e l m n same fits =
      let (stored, kept_size) =
        stored_behind before bytes old rest data' (b.offset + b.cur_buf_size) (omega arith) same in
      inr (
        record b {
          buf = some (before ++ ((bytes ++ data') ++ rest));
          cur_buf_size = b.cur_buf_size + length data';
        },
        append_to_behind malloc block b data' _ fits (rw e stored),
        inr (
          before ++ ((bytes ++ data') ++ rest),
          refl,
          (
            before,
            rest,
            refl,
            l,
            omega (arith, length-append bytes data'),
            omega (arith, kept_size, ap length e),
          ),
        ),
      )

  pub behind-Places :
      (bytes : List ℕ)
      → InBlock block b bytes
      → length data' ≤ b.buf_size - b.offset - b.cur_buf_size
      → Places malloc b bytes data' (append_to malloc block b data')
  behind-Places bytes (before, after, e, l, m, n) fits = cut (
      split_at (length data') after (
        omega
          (arith, ap length e, length-append before (bytes ++ after), length-append bytes after)))
    where
      cut :
          ((old rest : List ℕ) × (after ≡ old ++ rest) × (length old ≡ length data'))
          → Places malloc b bytes data' (append_to malloc block b data')
      cut (old, rest, e', same) =
          behind_pieces before bytes old rest (e ∙ ap (λ t. before ++ (bytes ++ t)) e') l m n same
            fits

  pub moved-Places :
      (bytes : List ℕ)
      → InBlock block b bytes
      → b.buf_size - b.offset - b.cur_buf_size < length data'
      → length data' ≤ b.buf_size - b.cur_buf_size
      → Places malloc b bytes data' (append_to malloc block b data')
  moved-Places bytes (before, after, e, l, m, n) full fits =
      moved (store_two block bytes data' (omega (arith, held_sizes)))
    where
      held_sizes : b.offset + b.cur_buf_size ≤ b.buf_size
      held_sizes = sizes-InBlock block b bytes (before, after, e, l, m, n)

      moved :
          ((rest : List ℕ) × ((store block 0 bytes >>= λ t. store t (length bytes) data')
              ≡ ok (bytes ++ (data' ++ rest)))
            × (length (bytes ++ (data' ++ rest)) ≡ length block))
          → Places malloc b bytes data' (append_to malloc block b data')
      moved (rest, stored, size) = inr (
        record b {
          buf = some (bytes ++ (data' ++ rest));
          cur_buf_size = b.cur_buf_size + length data';
          offset = 0;
        },
        append_to_moved malloc block b data' bytes _ full fits
            (load-InBlock block b bytes (before, after, e, l, m, n)) (rw (← m) stored),
        inr (
          bytes ++ (data' ++ rest),
          refl,
          (
            [],
            rest,
            sym (append_assoc bytes data' rest),
            refl,
            omega (arith, length-append bytes data'),
            omega (arith, size),
          ),
        ),
      )

  pub grown-Places :
      (bytes : List ℕ)
      → IsMalloc malloc
      → InBlock block b bytes
      → b.buf_size - b.cur_buf_size < length data'
      → b.min_buf_size + b.buf_size + length data' < 2 ^ 32
      → Places malloc b bytes data' (append_to malloc block b data')
  grown-Places bytes allocates (before, after, e, l, m, n) full small =
      elim (Option-cases (malloc size)) [
        | inl no_room ↦ inl (
          omega (arith, m, full, held_sizes),
          (size, no_room, omega (arith, m, held_sizes, small), omega (arith, small)),
          append_to_failed malloc block b data' (omega arith) full no_room,
        )
        | inr (room, room_ok) ↦
            grown room room_ok (allocates size room room_ok)
              (store_two room bytes data' (omega (arith, allocates size room room_ok, held_sizes)))
      ]
    where
      size : ℕ
      size = (b.min_buf_size + b.buf_size + length data') % 2 ^ 32

      held_sizes : b.offset + b.cur_buf_size ≤ b.buf_size
      held_sizes = sizes-InBlock block b bytes (before, after, e, l, m, n)

      grown :
          (room : List ℕ)
          → malloc size ≡ some room
          → length room ≡ size
          → ((rest : List ℕ) × ((store room 0 bytes >>= λ t. store t (length bytes) data')
                ≡ ok (bytes ++ (data' ++ rest)))
              × (length (bytes ++ (data' ++ rest)) ≡ length room))
          → Places malloc b bytes data' (append_to malloc block b data')
      grown room room_ok room_size (rest, stored, same) = inr (
        record b {
          buf = some (bytes ++ (data' ++ rest));
          buf_size = size;
          cur_buf_size = b.cur_buf_size + length data';
          offset = 0;
        },
        append_to_grown malloc block b data' bytes room _ (omega arith) full room_ok
            (load-InBlock block b bytes (before, after, e, l, m, n)) (rw (← m) stored),
        inr (
          bytes ++ (data' ++ rest),
          refl,
          (
            [],
            rest,
            sym (append_assoc bytes data' rest),
            refl,
            omega (arith, length-append bytes data'),
            omega (arith, same, room_size),
          ),
        ),
      )
