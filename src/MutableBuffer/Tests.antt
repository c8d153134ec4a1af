-- ===== src/MutableBuffer/Tests.antt =====
-- The buffer of base/mutable_buffer.cc with two bytes at the end of a block of four.
use csutil.Common.{ℕ, refl, arith, inr, List, [], ◌∷◌, replicate}
use csutil.Common.{Option, some, length-replicate}
use csutil.MutableBuffer.{MutableBuffer}
use csutil.MutableBuffer.Contents.{Holds, IsMalloc}
use csutil.MutableBuffer.Append.{Appends, append-Appends}

abbrev zeros : ℕ → Option (List ℕ)
zeros size = some (replicate size 0)

zeros-IsMalloc : IsMalloc zeros
zeros-IsMalloc size block e = ground (arith, length-replicate {A = ℕ} size 0)

abbrev buffer : MutableBuffer
buffer = record {
  buf = some (1 ∷ 2 ∷ 3 ∷ 4 ∷ []);
  buf_size = 4;
  cur_buf_size = 2;
  offset = 2;
  min_buf_size = 4;
  max_buf_size = 64;
}

abbrev buffer-Holds : Holds buffer (3 ∷ 4 ∷ [])
buffer-Holds = inr (1 ∷ 2 ∷ 3 ∷ 4 ∷ [], refl, (1 ∷ 2 ∷ [], [], refl, refl, refl, refl))

append-Appends_example : Appends zeros zeros-IsMalloc buffer (3 ∷ 4 ∷ []) (5 ∷ 6 ∷ [])
append-Appends_example =
    append-Appends zeros zeros-IsMalloc buffer (3 ∷ 4 ∷ []) (5 ∷ 6 ∷ []) buffer-Holds (omega arith)
