-- ===== src/HyperLogLog/Union.antt =====
-- Merge of base/algo.h gives every register the greater of its two values.
use csutil.Common.{ℕ, ◌+◌, ◌*◌, ◌/◌, ◌^◌, ◌<◌, ◌≤◌, ◌≡◌, refl, sym, ap, ◌∙◌, arith}
use csutil.Common.{ltb, ◌&&◌, not, if◌then◌else◌, Bool, true, false, Bool-cases, inl, inr}
use csutil.Common.{equal, lt→ltb, ltb-false, length, get_or}
use csutil.Common.Status.{ok}
use native.Mathlib.Decide.{dec_lt}
use csutil.HyperLogLog.{HyperLogLog, densified}
use csutil.HyperLogLog.{merge_sparse_sparse, merge_into, merge}
use csutil.HyperLogLog.Sparse.{max_of, merge_sorted, value_of}
use csutil.HyperLogLog.Merge.{
  All-merge_sorted, merge_sorted-IsAscending, value_of-merge_sorted, length-merge_sorted,
}
use csutil.HyperLogLog.Dense.{densify, merge_dense, AllWithin, length-densify}
use csutil.HyperLogLog.Dense.{get_or-densify, get_or-merge_dense, length-merge_dense}
use csutil.HyperLogLog.Registers.{
  IsSketch, register, HasRegisters, HasRegisters-map, array-HasRegisters,
}
use csutil.HyperLogLog.Registers.{stays-HasRegisters, dense-HasRegisters}
use csutil.HyperLogLog.Registers.{densified-register, densified-IsSketch}

if_true {ℓ} : {A : Type ℓ} (b : Bool) (x y : A) → b ≡ true → (if b then x else y) ≡ x
if_true b x y h = rw h refl

if_false {ℓ} : {A : Type ℓ} (b : Bool) (x y : A) → b ≡ false → (if b then x else y) ≡ y
if_false b x y h = rw h refl

merge_into_dense :
    (h other : HyperLogLog)
    → length h.regs_dense ≡ h.m
    → length other.regs_dense ≡ h.m
    → other.dense ≡ true
    → merge_into h other ≡ ok (record h { regs_dense = merge_dense h.regs_dense other.regs_dense })
unfolding merge_into
merge_into_dense h other regs regs' dense = rw (regs, regs', dense, equal h.m) refl

merge_into_sparse :
    (h other : HyperLogLog)
    → length h.regs_dense ≡ h.m
    → other.dense ≡ false
    → merge_into h other ≡ ok (record h { regs_dense = densify other.sparse h.regs_dense })
unfolding merge_into
merge_into_sparse h other regs not_dense = rw (regs, not_dense, equal h.m) refl

merge_into-HasRegisters :
    (h other : HyperLogLog)
    → IsSketch h
    → IsSketch other
    → h.m ≡ other.m
    → h.dense ≡ true
    → HasRegisters h (λ j. max_of (get_or h.regs_dense j 0) (register other j)) (merge_into h other)
merge_into-HasRegisters h other sketch sketch' same dense = elim (Bool-cases other.dense) [
  | inl dense' ↦
      let regs' : length other.regs_dense ≡ h.m = sketch'.regs ∙ sym same in
      let lengths : length other.regs_dense ≡ length h.regs_dense = regs' ∙ sym sketch.regs in
      HasRegisters-map h (λ j. get_or (merge_dense h.regs_dense other.regs_dense) j 0) _ _
        (λ j. get_or-merge_dense j h.regs_dense other.regs_dense lengths ∙ rw dense' refl)
        (rw (merge_into_dense h other sketch.regs regs' dense') (
          array-HasRegisters h (merge_dense h.regs_dense other.regs_dense) sketch dense
            (length-merge_dense h.regs_dense other.regs_dense lengths ∙ sketch.regs)))
  | inr not_dense' ↦
      let listed = sketch'.listed not_dense' in
      let within : AllWithin (length h.regs_dense) other.sparse =
        rw (sketch.regs, same) listed.within in
      HasRegisters-map h (λ j. get_or (densify other.sparse h.regs_dense) j 0) _ _
        (λ j. get_or-densify j other.sparse h.regs_dense listed.rises within ∙ rw not_dense' refl)
        (rw (merge_into_sparse h other sketch.regs not_dense') (
          array-HasRegisters h (densify other.sparse h.regs_dense) sketch dense
            (length-densify other.sparse h.regs_dense ∙ sketch.regs)))
]

module _ (reserve : ℕ → ℕ → ℕ) (grows : (c n : ℕ) → n ≤ reserve c n) where
  merge_lists :
      (h other : HyperLogLog)
      → length h.sparse + length other.sparse ≤ h.m * 2
      → merge_sparse_sparse reserve h other ≡ (
          let merged : HyperLogLog = record h {
            sparse = merge_sorted h.sparse other.sparse;
            capacity = reserve 0 (length h.sparse + length other.sparse);
          } in
          if ltb (length merged.regs_dense / 2) (length merged.sparse * 5)
          then ok (densified merged)
          else ok merged)
  unfolding merge_sparse_sparse
  merge_lists h other few =
      rw
        (
          ltb-false (h.m * 2) (length h.sparse + length other.sparse) few,
          ltb-false (reserve 0 (length h.sparse + length other.sparse))
              (length h.sparse + length other.sparse)
              (grows 0 (length h.sparse + length other.sparse)),
          ltb-false (length h.sparse + length other.sparse)
              (length (merge_sorted h.sparse other.sparse))
              (length-merge_sorted h.sparse other.sparse),
        )
        refl

  merge_sparse_sparse-HasRegisters :
      (h other : HyperLogLog)
      → IsSketch h
      → IsSketch other
      → h.m ≡ other.m
      → h.dense ≡ false
      → other.dense ≡ false
      → HasRegisters h
          (λ j. max_of (register h j) (register other j))
          (merge_sparse_sparse reserve h other)
  merge_sparse_sparse-HasRegisters h other sketch sketch' same not_dense not_dense' =
      let listed = sketch.listed not_dense in
      let listed' = sketch'.listed not_dense' in
      let xs = merge_sorted h.sparse other.sparse in
      let capacity = reserve 0 (length h.sparse + length other.sparse) in
      let rises = merge_sorted-IsAscending h.sparse other.sparse listed.rises listed'.rises in
      let within' : AllWithin h.m other.sparse = rw same listed'.within in
      let within = All-merge_sorted (λ i. i < h.m) h.sparse other.sparse listed.within within' in
      let room : length xs ≤ capacity = omega (
        arith,
        length-merge_sorted h.sparse other.sparse,
        grows 0 (length h.sparse + length other.sparse),
      ) in
      let few : length h.sparse + length other.sparse ≤ h.m * 2 =
        omega (arith, sketch.few not_dense, sketch'.few not_dense', same) in
      HasRegisters-map h (λ j. value_of j xs) _ _
        (λ j.
          value_of-merge_sorted j h.sparse other.sparse listed.rises listed'.rises
          ∙ rw (not_dense, not_dense') refl)
        (rw (merge_lists h other few) (elim (dec_lt (length h.regs_dense / 2) (length xs * 5)) [
          | yes over ↦
              rw (lt→ltb _ _ over)
                (dense-HasRegisters h xs capacity sketch not_dense rises within room)
          | no fits ↦
              rw (ltb-false (length h.regs_dense / 2) (length xs * 5) (omega arith))
                (stays-HasRegisters h xs capacity sketch not_dense rises within room (omega arith))
        ]))

  merge_cases :
      (h other : HyperLogLog)
      → h.init ≡ true
      → other.init ≡ true
      → other.p ≡ h.p
      → merge reserve h other ≡ (
          if not h.dense && not other.dense
          then merge_sparse_sparse reserve h other
          else merge_into (if h.dense then h else densified h) other)
  unfolding merge
  merge_cases h other ready ready' same = rw (ready, ready', same, equal h.p) refl

  -- If a vector that has made room for a number of elements has room for them, Merge of two
  -- sketches of the same precision, each sparse or dense, succeeds with a sketch in which every
  -- register has the greater of its two values.
  pub merge-HasRegisters :
      (h other : HyperLogLog)
      → IsSketch h
      → IsSketch other
      → other.p ≡ h.p
      → HasRegisters h (λ j. max_of (register h j) (register other j)) (merge reserve h other)
  unfolding densified
  merge-HasRegisters h other sketch sketch' same_p =
      let same : h.m ≡ other.m = sketch.power ∙ ap (λ p. 2 ^ p) (sym same_p) ∙ sym sketch'.power in
      let cases = merge_cases h other sketch.ready sketch'.ready same_p in
      elim (Bool-cases h.dense) [
        | inl dense ↦
            let one : (not h.dense && not other.dense) ≡ false = rw dense refl in
            rw
              (cases
                ∙ if_false _ _ _ one
                ∙ ap (λ k. merge_into k other) (if_true h.dense _ _ dense))
              (HasRegisters-map h _ _ _
                (λ j. ap (λ x. max_of x (register other j)) (sym (if_true h.dense _ _ dense)))
                (merge_into-HasRegisters h other sketch sketch' same dense))
        | inr not_dense ↦ elim (Bool-cases other.dense) [
          | inl dense' ↦
              let sketch'' =
                densified-IsSketch h sketch.ready sketch.precision sketch.rest sketch.power
                  sketch.small sketch.regs in
              let one : (not h.dense && not other.dense) ≡ false = rw (not_dense, dense') refl in
              rw
                (cases
                  ∙ if_false _ _ _ one
                  ∙ ap (λ k. merge_into k other) (if_false h.dense _ _ not_dense))
                (HasRegisters-map h _ _ _
                  (λ j.
                    ap (λ x. max_of x (register other j))
                      (densified-register h j (sketch.listed not_dense)
                        ∙ sym (if_false h.dense _ _ not_dense)))
                  (merge_into-HasRegisters (densified h) other sketch'' sketch' same refl))
          | inr not_dense' ↦
              let both : (not h.dense && not other.dense) ≡ true =
                rw (not_dense, not_dense') refl in
              rw (cases ∙ if_true _ _ _ both)
                (merge_sparse_sparse-HasRegisters h other sketch sketch' same not_dense not_dense')
        ]
      ]
