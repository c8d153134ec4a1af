-- ===== src/RunLength/Tests.antt =====
-- Tests of the run-length code in base/algo.cc.
use csutil.Common.{ℕ, ◌≡◌, refl, arith, List, [], ◌∷◌}
use csutil.RunLength.{encode_loop, run_length_encode, run_length_decode}
use csutil.RunLength.RoundTrip.{run_length_decode-run_length_encode}

abbrev numbers : List ℕ
numbers = 4294967295 ∷ 0 ∷ 1 ∷ 7 ∷ 8 ∷ []

runs : run_length_encode numbers ≡ (4294967295, 3) ∷ (7, 2) ∷ []
unfolding run_length_encode encode_loop
runs = refl

run_length_decode-run_length_encode_example :
    run_length_decode (run_length_encode numbers) ≡ numbers
run_length_decode-run_length_encode_example =
    run_length_decode-run_length_encode numbers
      (omega arith, (omega arith, (omega arith, (omega arith, (omega arith, tt))))) (omega arith)
