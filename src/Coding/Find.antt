-- ===== src/Coding/Find.antt =====
-- BruteForce, RK and GetHighlighting of base/coding.cc. Positions are not negative, and sizes stay
-- below 2 ^ 31, so that no cast to int changes them.
pub mod Laws
use csutil.Common.{ℕ, zero, suc, ◌+◌, ◌-◌, ltb, ◌==◌, ◌&&◌, Bool, true, false, if◌then◌else◌}
use csutil.Common.{List, [], ◌∷◌, ◌++◌, length, take, drop}
use csutil.Common.Status.{Result, ok, err, undefined, not_found, invalid_param}

-- The loop over j: does `haystack[i + j]` equal `needle[j]` all along the needle?
matches : List ℕ → List ℕ → Bool
matches [] rest = true
matches (n ∷ needle) [] = false
matches (n ∷ needle) (c ∷ rest) = c == n && matches needle rest

-- The loop over i; `rest` is the haystack from i on, and `rounds` counts the values of i left.
brute_force_loop : ℕ → ℕ → List ℕ → List ℕ → Result ℕ
brute_force_loop zero i rest needle = err not_found
brute_force_loop (suc rounds) i rest needle =
    let more = brute_force_loop rounds (i + 1) (drop 1 rest) needle in
    if matches needle rest then ok i else more

pub brute_force : List ℕ → List ℕ → Result ℕ
brute_force haystack needle =
    if ltb (length haystack) (length needle)
    then err not_found
    else brute_force_loop (length haystack - length needle + 1) 0 haystack needle

-- Equality of the two strings, which is what looking one up in a set of the other comes to.
same : List ℕ → List ℕ → Bool
same [] [] = true
same [] (y ∷ ys) = false
same (x ∷ xs) [] = false
same (x ∷ xs) (y ∷ ys) = x == y && same xs ys

rk_loop : ℕ → ℕ → List ℕ → List ℕ → Result ℕ
rk_loop zero i rest needle = err not_found
rk_loop (suc rounds) i rest needle =
    let more = rk_loop rounds (i + 1) (drop 1 rest) needle in
    if same (take (length needle) rest) needle then ok i else more

pub rk : List ℕ → List ℕ → Result ℕ
rk haystack needle =
    if ltb (length haystack) (length needle)
    then err not_found
    else rk_loop (length haystack - length needle + 1) 0 haystack needle

pub get_highlighting : List ℕ → List ℕ → ℕ → List ℕ → List ℕ → List ℕ → Result (List ℕ)
get_highlighting haystack needle pos pre_tags post_tags highlight =
    if ltb (length haystack) pos
    then err invalid_param
    else if ltb (length haystack) (pos + length needle)
    then err invalid_param
    else ok (
        highlight
        ++ (take pos haystack
            ++ (pre_tags ++ (needle ++ (post_tags ++ drop (pos + length needle) haystack)))))
