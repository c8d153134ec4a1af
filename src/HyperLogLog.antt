-- ===== src/HyperLogLog.antt =====
-- base/algo.h: HyperLogLog, a sketch that keeps the greatest rank seen in each register: at first as a
-- sorted vector of pairs, later as an array. Estimate, which works on floating-point numbers, is left out. A
-- sketch that has become dense never reads the capacity of its vector again.
pub mod Sparse
pub mod Dense
pub mod Merge
pub mod Rank
pub mod Registers
pub mod Add
pub mod Union
mod Tests
use csutil.Common.{
  ℕ, zero, suc, ◌+◌, ◌-◌, ◌*◌, ◌/◌, ◌%◌, ◌^◌, bit_and, ltb, leb, ◌==◌, ◌||◌, ◌&&◌, not,
}
use csutil.Common.{if◌then◌else◌, Bool, true, false, List, [], ◌∷◌, length, get_or, set, replicate}
use csutil.Common.Status.{
  Result, ok, err, undefined, ◌>>=◌, ◌>>◌, fail_if, invalid_param, not_init, malloc_failed,
}
use csutil.Common.Status.{internal_error}
use Sparse.{max_of, add_register, has_register, merge_sorted}
use Dense.{raise, densify, merge_dense}

pub record HyperLogLog : Type 0 where
  pub p : ℕ
  pub m : ℕ
  pub bits_rem : ℕ
  pub dense : Bool
  pub init : Bool
  pub sparse : List (ℕ × ℕ)
  pub capacity : ℕ
  pub regs_dense : List ℕ

pub new_hyper_log_log : ℕ → HyperLogLog
new_hyper_log_log p = record {
  p = p;
  m = 0;
  bits_rem = 0;
  dense = false;
  init = false;
  sparse = [];
  capacity = 0;
  regs_dense = [];
}

-- The number of binary digits, for a number below 2 ^ fuel.
pub bit_length : ℕ → ℕ → ℕ
bit_length zero w = 0
bit_length (suc fuel) w = let rest = bit_length fuel (w / 2) in if w == 0 then 0 else rest + 1

-- RHO, with __builtin_clzll as 64 less the number of digits.
pub rho : ℕ → ℕ → ℕ
rho w bits_rem =
    let above = 64 - bit_length 64 w + bits_rem + 1 in
    if (bits_rem == 0) || ltb 64 bits_rem
    then 1
    else if w == 0
    then bits_rem + 1
    else if ltb above 65
    then 1
    else if ltb (bits_rem + 1) (above - 64)
    then bits_rem + 1
    else above - 64

abbrev pub sparse_size_bytes : HyperLogLog → ℕ
sparse_size_bytes h = length h.sparse * 5

abbrev pub dense_threshold_bytes : HyperLogLog → ℕ
dense_threshold_bytes h = length h.regs_dense / 2

-- Densify of a sketch that is not dense.
pub densified : HyperLogLog → HyperLogLog
densified h = record h { regs_dense = densify h.sparse h.regs_dense; sparse = []; dense = true }

-- Whether every index is one of the array.
pub all_within : List (ℕ × ℕ) → ℕ → Bool
all_within [] n = true
all_within ((k, v) ∷ xs) n = ltb k n && all_within xs n

pub densify_with_check : HyperLogLog → Result HyperLogLog
densify_with_check h =
    if h.dense
    then ok h
    else if not h.init
    then err not_init
    else if not (length h.regs_dense == h.m)
    then err internal_error
    else if not (all_within h.sparse (length h.regs_dense))
    then err internal_error
    else ok (densified h)

-- Merging into a dense sketch.
pub merge_into : HyperLogLog → HyperLogLog → Result HyperLogLog
merge_into h other =
    if not (length h.regs_dense == h.m)
    then err internal_error
    else if other.dense
    then (if not (length other.regs_dense == h.m)
        then err invalid_param
        else ok (record h { regs_dense = merge_dense h.regs_dense other.regs_dense }))
    else ok (record h { regs_dense = densify other.sparse h.regs_dense })

-- `reserve c n`: the capacity that a vector of capacity `c` has after room for `n` was made.
module _ (reserve : ℕ → ℕ → ℕ) where
  pub initialise : HyperLogLog → Result HyperLogLog
  initialise h = do
    fail_if (ltb h.p 4 || ltb 31 h.p) invalid_param
    fail_if (ltb 20 h.p) invalid_param
    let m = 2 ^ h.p
    fail_if (m == 0 || ltb (2 ^ 20) m) invalid_param
    fail_if (ltb (100 * 1024 * 1024) m) malloc_failed
    fail_if (ltb (reserve 0 m) m) malloc_failed
    ok (record h {
      m = m;
      bits_rem = 64 - h.p;
      regs_dense = replicate m 0;
      sparse = [];
      init = true;
    })

  -- The vector after std::lower_bound and the change at that place.
  pub add_sparse : HyperLogLog → ℕ → ℕ → Result HyperLogLog
  add_sparse h idx r =
      let full = leb h.capacity (length h.sparse) in
      let doubled = if h.capacity * 2 == 0 then 1 else h.capacity * 2 in
      let inserted : HyperLogLog = record h {
        sparse = add_register idx r h.sparse;
        capacity = if full then reserve h.capacity (length h.sparse + 1) else h.capacity;
      } in
      if has_register idx h.sparse
      then ok (record h { sparse = add_register idx r h.sparse })
      else if full && ltb (h.m * 2) doubled
      then err malloc_failed
      else ok inserted

  pub add_dense : HyperLogLog → ℕ → ℕ → Result HyperLogLog
  add_dense h idx r =
      if leb (length h.regs_dense) idx
      then err internal_error
      else ok (record h { regs_dense = raise idx r h.regs_dense })

  pub add_hash : HyperLogLog → ℕ → Result HyperLogLog
  add_hash h hash =
      let idx = bit_and hash (h.m - 1) % 2 ^ 32 in
      let r = rho (hash / 2 ^ h.p) h.bits_rem in
      let sparse = (do
        h' ← add_sparse h idx r
        if ltb (dense_threshold_bytes h') (sparse_size_bytes h')
            then densify_with_check h'
            else ok h') in
      if not h.init
      then err not_init
      else if h.dense
      then add_dense h idx r
      else if ltb h.m (length h.sparse)
      then err internal_error
      else sparse

  pub merge_sparse_sparse : HyperLogLog → HyperLogLog → Result HyperLogLog
  merge_sparse_sparse h other =
      let size = length h.sparse + length other.sparse in
      let merged : HyperLogLog = record h {
        sparse = merge_sorted h.sparse other.sparse;
        capacity = reserve 0 size;
      } in
      if ltb (h.m * 2) size
      then err invalid_param
      else if ltb (reserve 0 size) size
      then err malloc_failed
      else if ltb size (length merged.sparse)
      then err internal_error
      else if ltb (dense_threshold_bytes merged) (sparse_size_bytes merged)
      then ok (densified merged)
      else ok merged

  pub merge : HyperLogLog → HyperLogLog → Result HyperLogLog
  merge h other =
      if not h.init || not other.init
      then err not_init
      else if not (other.p == h.p)
      then err invalid_param
      else if not h.dense && not other.dense
      then merge_sparse_sparse h other
      else merge_into (if h.dense then h else densified h) other
