-- ===== src/HyperLogLog/Add.antt =====
-- AddHash of base/algo.h raises one register of a sketch.
use csutil.Common.{ℕ, zero, suc, ◌+◌, ◌-◌, ◌*◌, ◌/◌, ◌%◌, ◌^◌, ◌<◌, ◌≤◌, ◌≡◌, refl, ap, ◌∙◌, arith}
use csutil.Common.{ltb, ◌==◌, if◌then◌else◌, true, false, Bool-cases, inl, inr}
use csutil.Common.{bit_and, unequal, lt→ltb, le→leb, ltb-false, leb-false, length, get_or}
use csutil.Common.Bits.{bit_and_ones<power, bit_and_ones_lem}
use csutil.HyperLogLog.Rank.{IsRank, rho-IsRank}
use native.Mathlib.Nat.{mod-lt, div-lt_iff_lt-mul, pow-le-pow_right, two-pow-succ}
use csutil.Common.Status.{Result, ok, ◌>>=◌}
use native.Mathlib.Decide.{dec_lt, ℕ_discrete}
use csutil.HyperLogLog.{HyperLogLog, rho, densify_with_check, add_sparse, add_dense, add_hash}
use csutil.HyperLogLog.Sparse.{max_of, add_register, has_register, value_of, rank_at}
use csutil.HyperLogLog.Sparse.{
  value_of-add_register, All-add_register, add_register-IsAscending, length-add_register,
}
use csutil.HyperLogLog.Dense.{raise, get_or-raise, length-raise}
use csutil.HyperLogLog.Registers.{
  IsSketch, register, HasRegisters, HasRegisters-map, array-HasRegisters,
}
use csutil.HyperLogLog.Registers.{checked-HasRegisters, stays-HasRegisters}

-- The vector after a change of one register, and its capacity.
abbrev Adds : HyperLogLog → ℕ → ℕ → Result HyperLogLog → Type 0
Adds h idx r res =
    (capacity : ℕ) × (res
      ≡ ok (record h { sparse = add_register idx r h.sparse; capacity = capacity }))
    × (length (add_register idx r h.sparse) ≤ capacity)

pow_sum : (a b : ℕ) → 2 ^ a * 2 ^ b ≡ 2 ^ (a + b)
pow_sum zero b = let same : 0 + b ≡ b = omega arith in rw same (omega arith)
pow_sum (suc a) b =
    let same : suc a + b ≡ suc (a + b) = omega arith in
    let rest = pow_sum a b in rw (same, two-pow-succ (a + b), two-pow-succ a) (omega (arith, rest))

-- The bits of a hash above the low p ones.
div-lt : (p hash : ℕ) → p ≤ 20 → hash < 2 ^ 64 → hash / 2 ^ p < 2 ^ (64 - p)
div-lt p hash h small =
    let all : 64 - p + p ≡ 64 = omega (arith, h) in
    let split : 2 ^ (64 - p) * 2 ^ p ≡ 2 ^ 64 = pow_sum (64 - p) p ∙ ap (λ (n : ℕ). 2 ^ n) all in
    let positive : 0 < 2 ^ p =
      pow-le-pow_right {n = 2} (omega arith) {i = 0} {j = p} (omega arith) in
    (div-lt_iff_lt-mul {k = 2 ^ p} {x = hash} {y = 2 ^ (64 - p)} positive).1
      (omega (arith, split, small))

module _ (reserve : ℕ → ℕ → ℕ) (grows : (c n : ℕ) → n ≤ reserve c n) where
  add_sparse-Adds :
      (h : HyperLogLog) (idx r : ℕ)
      → IsSketch h
      → h.dense ≡ false
      → Adds h idx r (add_sparse reserve h idx r)
  unfolding add_sparse
  add_sparse-Adds h idx r sketch not_dense =
      let len = length-add_register idx r h.sparse in
      let room = sketch.room not_dense in
      let few = sketch.few not_dense in
      elim (Bool-cases (has_register idx h.sparse)) [
        | inl found ↦ rw found (h.capacity, refl, omega (arith, rw found at len, room))
        | inr missing ↦ elim (dec_lt (length h.sparse) h.capacity) [
          | no full ↦
              rw
                (
                  missing,
                  le→leb h.capacity (length h.sparse) (omega arith),
                  ltb-false (h.m * 2) _ (doubled h sketch few full),
                )
                (_, refl, omega (arith, rw missing at len, grows h.capacity (length h.sparse + 1)))
          | yes space ↦
              rw (missing, leb-false h.capacity (length h.sparse) space)
                (h.capacity, refl, omega (arith, rw missing at len))
        ]
      ]
    where
      doubled :
          (h : HyperLogLog)
          → IsSketch h
          → length h.sparse * 5 ≤ h.m / 2
          → ¬ (length h.sparse < h.capacity)
          → (if h.capacity * 2 == 0 then 1 else h.capacity * 2) ≤ h.m * 2
      doubled h sketch few full = elim (ℕ_discrete (h.capacity * 2) 0) [
        | yes none ↦ rw (none) (omega (arith, sketch.small.0))
        | no some ↦ rw (unequal (h.capacity * 2) 0 some) (omega arith)
      ]

  -- What AddHash does with a sketch that is not dense.
  abbrev then_check : Result HyperLogLog → Result HyperLogLog
  then_check res = res >>= λ h'.
      if ltb (length h'.regs_dense / 2) (length h'.sparse * 5) then densify_with_check h' else ok h'

  add_hash_sparse :
      (h : HyperLogLog) (hash : ℕ)
      → h.init ≡ true
      → h.dense ≡ false
      → length h.sparse ≤ h.m
      → add_hash reserve h hash
        ≡ then_check (
            add_sparse reserve h
              (bit_and hash (h.m - 1) % 2 ^ 32)
              (rho (hash / 2 ^ h.p) h.bits_rem))
  unfolding add_hash
  add_hash_sparse h hash ready not_dense few =
      rw (ready, not_dense, ltb-false h.m (length h.sparse) few) refl

  added :
      (h : HyperLogLog) (idx r : ℕ)
      → IsSketch h
      → h.dense ≡ false
      → idx < h.m
      → HasRegisters h
          (λ j. max_of (register h j) (rank_at idx r j))
          (then_check (add_sparse reserve h idx r))
  added h idx r sketch not_dense less =
      let (capacity, runs, room) = add_sparse-Adds h idx r sketch not_dense in
      let listed = sketch.listed not_dense in
      let xs = add_register idx r h.sparse in
      let rises = add_register-IsAscending idx r h.sparse listed.rises in
      let within = All-add_register (λ i. i < h.m) idx r h.sparse less listed.within in
      HasRegisters-map h (λ j. value_of j xs) _ _
        (λ j. value_of-add_register idx r j h.sparse listed.rises ∙ rw not_dense refl)
        (rw runs (elim (dec_lt (length h.regs_dense / 2) (length xs * 5)) [
          | yes over ↦
              rw (lt→ltb _ _ over)
                (checked-HasRegisters h xs capacity sketch not_dense rises within room)
          | no fits ↦
              rw (ltb-false (length h.regs_dense / 2) (length xs * 5) (omega arith))
                (stays-HasRegisters h xs capacity sketch not_dense rises within room (omega arith))
        ]))

  add_hash_dense :
      (h : HyperLogLog) (hash : ℕ)
      → IsSketch h
      → h.dense ≡ true
      → bit_and hash (h.m - 1) % 2 ^ 32 < h.m
      → add_hash reserve h hash
        ≡ ok (record h {
          regs_dense =
              raise
                (bit_and hash (h.m - 1) % 2 ^ 32)
                (rho (hash / 2 ^ h.p) h.bits_rem)
                h.regs_dense;
        })
  unfolding add_hash add_dense
  add_hash_dense h hash sketch dense less =
      rw
        (
          sketch.ready,
          dense,
          leb-false (length h.regs_dense) (bit_and hash (h.m - 1) % 2 ^ 32) (rw sketch.regs less),
        )
        refl

  raised :
      (h : HyperLogLog) (idx r : ℕ)
      → IsSketch h
      → h.dense ≡ true
      → idx < h.m
      → HasRegisters h
          (λ j. max_of (register h j) (rank_at idx r j))
          (ok (record h { regs_dense = raise idx r h.regs_dense }))
  raised h idx r sketch dense less =
      HasRegisters-map h (λ j. get_or (raise idx r h.regs_dense) j 0) _ _
        (λ j. get_or-raise idx r j h.regs_dense (rw sketch.regs less) ∙ rw dense refl)
        (array-HasRegisters h (raise idx r h.regs_dense) sketch dense
          (length-raise idx r h.regs_dense ∙ sketch.regs))

  add_hash_raises :
      (h : HyperLogLog) (hash : ℕ)
      → IsSketch h
      → HasRegisters h
          (λ j.
            max_of
              (register h j)
              (rank_at (bit_and hash (h.m - 1) % 2 ^ 32) (rho (hash / 2 ^ h.p) h.bits_rem) j))
          (add_hash reserve h hash)
  add_hash_raises h hash sketch =
      let within : bit_and hash (h.m - 1) % 2 ^ 32 < h.m = omega (
        arith,
        sketch.power,
        sketch.small.1,
        rw (← sketch.power) at (bit_and_ones<power h.p hash),
      ) in
      elim (Bool-cases h.dense) [
        | inl dense ↦ rw (add_hash_dense h hash sketch dense within) (
            raised h (bit_and hash (h.m - 1) % 2 ^ 32) (rho (hash / 2 ^ h.p) h.bits_rem) sketch
              dense within)
        | inr not_dense ↦
            rw (add_hash_sparse h hash sketch.ready not_dense (omega (arith, sketch.few not_dense)))
              (added h (bit_and hash (h.m - 1) % 2 ^ 32) (rho (hash / 2 ^ h.p) h.bits_rem) sketch
                not_dense within)
      ]

  -- What AddHash adds to a sketch: the register of the low bits takes the rank of the others.
  abbrev pub Raises : HyperLogLog → ℕ → Type 0
  Raises h hash =
      (r : ℕ) × IsRank (hash / 2 ^ h.p) (64 - h.p) r
      × HasRegisters h (λ j. max_of (register h j) (rank_at (hash % 2 ^ h.p) r j))
          (add_hash reserve h hash)

  -- If a vector that has made room for a number of elements has room for them, AddHash of a hash of
  -- 64 bits on a sketch, sparse or dense, succeeds with a sketch in which the register whose index is
  -- in the low p bits of the hash has the greater of its value and the rank of the other 64 - p bits,
  -- the place of the first 1 in them, and every other register its value.
  pub add_hash-HasRegisters :
      (h : HyperLogLog) (hash : ℕ) → IsSketch h → hash < 2 ^ 64 → Raises h hash
  add_hash-HasRegisters h hash sketch small =
      let bound : hash / 2 ^ h.p < 2 ^ (64 - h.p) = div-lt h.p hash sketch.precision.1 small in
      let index : bit_and hash (h.m - 1) % 2 ^ 32 ≡ hash % 2 ^ h.p =
        ap (λ (m : ℕ). bit_and hash (m - 1) % 2 ^ 32) sketch.power
        ∙ ap (λ (i : ℕ). i % 2 ^ 32) (bit_and_ones_lem h.p hash)
        ∙ omega (
          arith,
          sketch.power,
          sketch.small,
          mod-lt hash {m = 2 ^ h.p} (omega (arith, sketch.power, sketch.small)),
        ) in
      (
        rho (hash / 2 ^ h.p) (64 - h.p),
        rho-IsRank (hash / 2 ^ h.p) (64 - h.p) (omega (arith, sketch.precision)) (omega arith)
            bound,
        HasRegisters-map h _ _ _
            (λ j.
              ap (λ (i : ℕ). max_of (register h j) (rank_at i (rho (hash / 2 ^ h.p) h.bits_rem) j))
                index
              ∙ ap
                  (λ (n : ℕ).
                    max_of (register h j) (rank_at (hash % 2 ^ h.p) (rho (hash / 2 ^ h.p) n) j))
                  sketch.rest)
            (add_hash_raises h hash sketch),
      )
