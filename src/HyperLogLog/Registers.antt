-- ===== src/HyperLogLog/Registers.antt =====
-- The sketch of base/algo.h as a function from register to value: what a change of its
-- vector or of its array does to it.
use csutil.Common.{ℕ, ◌-◌, ◌*◌, ◌/◌, ◌^◌, ◌<◌, ◌≤◌, ◌≡◌, refl, sym, ◌∙◌, arith}
use csutil.Common.{if◌then◌else◌, true, false}
use csutil.Common.{equal, unequal, lt→ltb, ltb-false, List, [], ◌∷◌, length, get_or}
use csutil.Common.{replicate, length-replicate}
use csutil.Common.Status.{Result, ok}
use native.Mathlib.Nat.{pow-le-pow_right}
use csutil.HyperLogLog.{HyperLogLog, all_within, densified, densify_with_check}
use csutil.HyperLogLog.{initialise, new_hyper_log_log}
use csutil.HyperLogLog.Sparse.{value_of, IsAscending}
use csutil.HyperLogLog.Sparse.{zero-max}
use csutil.HyperLogLog.Dense.{AllWithin, length-densify}
use csutil.HyperLogLog.Dense.{get_or-densify, get_or-zeros}

-- The vector is sorted and its indexes are those of the array, which is still empty.
pub record IsListed (h : HyperLogLog) : Type 0 where
  pub rises : IsAscending h.sparse
  pub within : AllWithin h.m h.sparse
  pub zeros : h.regs_dense ≡ replicate h.m 0

pub record IsSketch (h : HyperLogLog) : Type 0 where
  pub ready : h.init ≡ true
  pub precision : (4 ≤ h.p) × (h.p ≤ 20)
  pub rest : h.bits_rem ≡ 64 - h.p
  pub power : h.m ≡ 2 ^ h.p
  pub small : (0 < h.m) × (h.m < 2 ^ 32)
  pub regs : length h.regs_dense ≡ h.m
  pub listed : h.dense ≡ false → IsListed h
  pub few : h.dense ≡ false → length h.sparse * 5 ≤ h.m / 2
  pub room : h.dense ≡ false → length h.sparse ≤ h.capacity

-- The value of a register.
abbrev pub register : HyperLogLog → ℕ → ℕ
register h j = if h.dense then get_or h.regs_dense j 0 else value_of j h.sparse

-- The call succeeds with a sketch whose registers have these values.
abbrev pub HasRegisters : HyperLogLog → (ℕ → ℕ) → Result HyperLogLog → Type 0
HasRegisters h f res =
    (h' : HyperLogLog) × (res ≡ ok h')
    × IsSketch h'
    × (h'.p ≡ h.p)
    × ((j : ℕ) → register h' j ≡ f j)

pub densified-register :
    (h : HyperLogLog) (j : ℕ) → IsListed h → register (densified h) j ≡ value_of j h.sparse
unfolding densified
densified-register h j listed =
    get_or-densify j h.sparse h.regs_dense listed.rises
      (rw (listed.zeros, length-replicate {A = ℕ} h.m 0) listed.within)
    ∙ rw (listed.zeros, get_or-zeros h.m j) (zero-max (value_of j h.sparse))

pub densified-IsSketch :
    (h : HyperLogLog)
    → h.init ≡ true
    → (4 ≤ h.p) × (h.p ≤ 20)
    → h.bits_rem ≡ 64 - h.p
    → h.m ≡ 2 ^ h.p
    → (0 < h.m) × (h.m < 2 ^ 32)
    → length h.regs_dense ≡ h.m
    → IsSketch (densified h)
unfolding densified
densified-IsSketch h ready precision rest power small regs = record {
  ready = ready;
  precision = precision;
  rest = rest;
  power = power;
  small = small;
  regs = length-densify h.sparse h.regs_dense ∙ regs;
  listed = λ e. cc;
  few = λ e. omega arith;
  room = λ e. omega arith;
}

all_within_lem : (n : ℕ) (xs : List (ℕ × ℕ)) → AllWithin n xs → all_within xs n ≡ true
unfolding all_within
all_within_lem n [] h = refl
all_within_lem n ((k, v) ∷ xs) (h, hs) = rw (lt→ltb k n h) (all_within_lem n xs hs)

densify_with_check_lem :
    (h : HyperLogLog)
    → h.dense ≡ false
    → h.init ≡ true
    → length h.regs_dense ≡ h.m
    → AllWithin h.m h.sparse
    → densify_with_check h ≡ ok (densified h)
unfolding densify_with_check
densify_with_check_lem h not_dense ready regs within =
    rw (not_dense, ready, regs, equal h.m, all_within_lem h.m h.sparse within) refl

pub HasRegisters-map :
    (h : HyperLogLog) (f g : ℕ → ℕ) (res : Result HyperLogLog)
    → ((j : ℕ) → f j ≡ g j)
    → HasRegisters h f res
    → HasRegisters h g res
HasRegisters-map h f g res same (h', runs, sketch, p, values) =
    (h', runs, sketch, p, λ j. values j ∙ same j)

-- A dense sketch with its array replaced.
pub array-HasRegisters :
    (h : HyperLogLog) (regs : List ℕ)
    → IsSketch h
    → h.dense ≡ true
    → length regs ≡ h.m
    → HasRegisters h (λ j. get_or regs j 0) (ok (record h { regs_dense = regs }))
array-HasRegisters h regs sketch dense len = (
  record h { regs_dense = regs },
  refl,
  record {
    ready = sketch.ready;
    precision = sketch.precision;
    rest = sketch.rest;
    power = sketch.power;
    small = sketch.small;
    regs = len;
    listed = λ e. let wrong : true ≡ false = sym dense ∙ e in cc;
    few = λ e. let wrong : true ≡ false = sym dense ∙ e in cc;
    room = λ e. let wrong : true ≡ false = sym dense ∙ e in cc;
  },
  refl,
  λ j. rw dense refl,
)

-- A sketch with its vector replaced by a longer one becomes dense, or stays within its bound.
module _ (h : HyperLogLog) (xs : List (ℕ × ℕ)) (capacity : ℕ) (sketch : IsSketch h)
    (not_dense : h.dense ≡ false) (rises : IsAscending xs) (within : AllWithin h.m xs)
    (room : length xs ≤ capacity) where
  abbrev pub listing : HyperLogLog
  listing = record h { sparse = xs; capacity = capacity }

  listing-IsListed : IsListed listing
  listing-IsListed = record {
    rises = rises;
    within = within;
    zeros = (sketch.listed not_dense).zeros;
  }

  pub stays-HasRegisters :
      length xs * 5 ≤ length h.regs_dense / 2 → HasRegisters h (λ j. value_of j xs) (ok listing)
  stays-HasRegisters fits = (
    listing,
    refl,
    record {
      ready = sketch.ready;
      precision = sketch.precision;
      rest = sketch.rest;
      power = sketch.power;
      small = sketch.small;
      regs = sketch.regs;
      listed = λ e. listing-IsListed;
      few = λ e. rw (← sketch.regs) fits;
      room = λ e. room;
    },
    refl,
    λ j. rw not_dense refl,
  )

  pub dense-HasRegisters : HasRegisters h (λ j. value_of j xs) (ok (densified listing))
  unfolding densified
  dense-HasRegisters = (
    densified listing,
    refl,
    densified-IsSketch listing sketch.ready sketch.precision sketch.rest sketch.power sketch.small
        sketch.regs,
    refl,
    λ j. densified-register listing j listing-IsListed,
  )

  pub checked-HasRegisters : HasRegisters h (λ j. value_of j xs) (densify_with_check listing)
  checked-HasRegisters =
      rw (densify_with_check_lem listing not_dense sketch.ready sketch.regs within)
        dense-HasRegisters

-- Init of a new sketch with a legal precision.
pub initialise-HasRegisters :
    (reserve : ℕ → ℕ → ℕ) (p : ℕ)
    → ((c n : ℕ) → n ≤ reserve c n)
    → 4 ≤ p
    → p ≤ 20
    → HasRegisters (new_hyper_log_log p) (λ j. 0) (initialise reserve (new_hyper_log_log p))
unfolding initialise new_hyper_log_log value_of IsAscending
initialise-HasRegisters reserve p grows low high =
    let positive : 0 < 2 ^ p = pow-le-pow_right {n = 2} (omega arith) {i = 0} (omega arith) in
    let bound : 2 ^ p ≤ 2 ^ 20 = pow-le-pow_right {n = 2} (omega arith) high in
    rw
      (
        ltb-false p 4 low,
        ltb-false 31 p (omega arith),
        ltb-false 20 p high,
        unequal (2 ^ p) 0 (λ e. omega (arith, positive)),
        ltb-false (2 ^ 20) (2 ^ p) bound,
        ltb-false (100 * 1024 * 1024) (2 ^ p) (omega (arith, bound)),
        ltb-false (reserve 0 (2 ^ p)) (2 ^ p) (grows 0 (2 ^ p)),
      )
      (
        _,
        refl,
        record {
          ready = refl;
          precision = (low, high);
          rest = refl;
          power = refl;
          small = (positive, omega (arith, bound));
          regs = length-replicate (2 ^ p) 0;
          listed = λ e. record { rises = tt; within = tt; zeros = refl };
          few = λ e. omega arith;
          room = λ e. omega arith;
        },
        refl,
        λ j. refl,
      )
