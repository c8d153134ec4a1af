-- ===== src/MutableBuffer/Memory.antt =====
-- Blocks of memory for base/mutable_buffer.cc: memcpy and memmove out of and into a block.
use csutil.Common.{ℕ, ◌+◌, ◌≤◌, ◌≡◌, sym, ap, arith, ◌∙◌, ltb, if◌then◌else◌}
use csutil.Common.{List, [], ◌++◌, length, take, drop, Option, none, some}
use csutil.Common.{append_assoc, length-append, take-append, drop-append}
use csutil.Common.{take-append-drop, length-take}
use csutil.Common.Status.{Result, ok, err, undefined, ◌>>=◌, malloc_failed}

-- The `size` bytes from a place on, and a write of bytes there; both only inside the block.
pub load : List ℕ → ℕ → ℕ → Result (List ℕ)
load block at size =
    if ltb (length block) (at + size) then undefined else ok (take size (drop at block))

pub store : List ℕ → ℕ → List ℕ → Result (List ℕ)
store block at bytes =
    if ltb (length block) (at + length bytes)
    then undefined
    else ok (take at block ++ (bytes ++ drop (at + length bytes) block))

-- `if (buf == NULL) return kMallocFailed;`
abbrev pub or_failed : Option (List ℕ) → Result (List ℕ)
or_failed none = err malloc_failed
or_failed (some block) = ok block

-- Reads and writes where the block is known in pieces.
pub load-pieces :
    (before bytes after : List ℕ)
    → load (before ++ (bytes ++ after)) (length before) (length bytes) ≡ ok bytes
unfolding load
load-pieces before bytes after = ground (
  arith,
  length-append before (bytes ++ after),
  length-append bytes after,
  ap (take (length bytes)) (drop-append before (bytes ++ after)),
  take-append bytes after,
)

pub store-pieces :
    (before old after bytes : List ℕ)
    → length old ≡ length bytes
    → store (before ++ (old ++ after)) (length before) bytes ≡ ok (before ++ (bytes ++ after))
unfolding store
store-pieces before old after bytes same = ground (
  arith,
  length-append before (old ++ after),
  length-append old after,
  take-append before (old ++ after),
  behind,
)
  where
    behind : drop (length before + length bytes) (before ++ (old ++ after)) ≡ after
    behind =
        rw (← same, ← length-append before old, ← append_assoc before old after)
          (drop-append (before ++ old) after)

-- A list that is long enough, cut in two behind a given number of elements.
pub split_at :
    (n : ℕ) (xs : List ℕ)
    → n ≤ length xs
    → (front back : List ℕ) × (xs ≡ front ++ back) × (length front ≡ n)
split_at n xs h =
    (take n xs, drop n xs, sym (take-append-drop n xs), omega (arith, length-take n xs))

-- Bytes written to the front of a block, and others behind them.
pub store_two :
    (room kept bytes : List ℕ)
    → length kept + length bytes ≤ length room
    → (after : List ℕ) × ((store room 0 kept >>= λ block. store block (length kept) bytes)
        ≡ ok (kept ++ (bytes ++ after)))
      × (length (kept ++ (bytes ++ after)) ≡ length room)
store_two room kept bytes fits =
    let (old, rest, e, l) = split_at (length kept) room (omega arith) in
    let (old', after, e', l') =
      split_at (length bytes) rest (omega (arith, ap length e, length-append old rest)) in
    (
      after,
      ap (λ t. store t 0 kept >>= λ block. store block (length kept) bytes) e
          ∙ ap (λ t. t >>= λ block. store block (length kept) bytes)
              (store-pieces [] old rest kept l)
          ∙ ap (λ t. store (kept ++ t) (length kept) bytes) e'
          ∙ store-pieces kept old' after bytes l',
      omega (
        arith,
        ap length e,
        ap length e',
        length-append old rest,
        length-append old' after,
        length-append kept (bytes ++ after),
        length-append bytes after,
      ),
    )
