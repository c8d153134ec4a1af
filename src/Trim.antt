-- ===== src/Trim.antt =====
-- base/util.cc: TrimLeft, TrimRight and Trim, which take characters off the ends of a string, and Reverse.
use csutil.Common.{ℕ, ◌==◌, if◌then◌else◌, Bool, false, ◌||◌, List, [], ◌∷◌}
use mathlib.Core.List.{reverse}

-- TrimLeft of the characters that the test accepts.
unfoldable pub trim_left : (ℕ → Bool) → List ℕ → List ℕ
trim_left test [] = []
trim_left test (c ∷ cs) = if test c then trim_left test cs else c ∷ cs

unfoldable pub trim_right : (ℕ → Bool) → List ℕ → List ℕ
trim_right test cs = reverse (trim_left test (reverse cs))

unfoldable pub trim : (ℕ → Bool) → List ℕ → List ℕ
trim test cs = trim_right test (trim_left test cs)

-- `delims.find(c) != npos`.
unfoldable pub is_delim : List ℕ → ℕ → Bool
is_delim [] c = false
is_delim (d ∷ ds) c = d == c || is_delim ds c
