-- ===== src/HyperLogLog/Tests.antt =====
-- Tests of the sketch in base/algo.h.
use csutil.Common.{ℕ, arith}
use csutil.HyperLogLog.{HyperLogLog, new_hyper_log_log, initialise, merge}
use csutil.HyperLogLog.Sparse.{max_of}
use csutil.HyperLogLog.Registers.{HasRegisters, register, initialise-HasRegisters}
use csutil.HyperLogLog.Add.{Raises, add_hash-HasRegisters}
use csutil.HyperLogLog.Union.{merge-HasRegisters}

-- A vector that has room for exactly what it was asked for.
abbrev exactly : ℕ → ℕ → ℕ
exactly c n = n

abbrev sixteen :
    HasRegisters (new_hyper_log_log 4) (λ j. 0) (initialise exactly (new_hyper_log_log 4))
sixteen = initialise-HasRegisters exactly 4 (λ c n. omega arith) (omega arith) (omega arith)

abbrev raised : Raises exactly (λ c n. omega arith) sixteen.0 0x25
raised = add_hash-HasRegisters exactly (λ c n. omega arith) sixteen.0 0x25 sixteen.2 (omega arith)

abbrev raised_sketch : HyperLogLog
raised_sketch = raised.2.0

add_hash-HasRegisters_example : Raises exactly (λ c n. omega arith) raised_sketch 0x37
add_hash-HasRegisters_example =
    add_hash-HasRegisters exactly (λ c n. omega arith) raised_sketch 0x37 raised.2.2 (omega arith)

merge-HasRegisters_example :
    HasRegisters sixteen.0
      (λ j. max_of (register sixteen.0 j) (register raised_sketch j))
      (merge exactly sixteen.0 raised_sketch)
merge-HasRegisters_example =
    merge-HasRegisters exactly (λ c n. omega arith) sixteen.0 raised_sketch sixteen.2 raised.2.2
      raised.2.3
