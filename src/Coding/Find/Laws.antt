-- ===== src/Coding/Find/Laws.antt =====
-- BruteForce, RK and GetHighlighting of base/coding.cc against the occurrences of the needle.
use csutil.Common.{ℕ, zero, suc, ◌+◌, ◌-◌, ◌<◌, ◌≤◌, ◌≡◌, refl, ap, arith, ◌∙◌, ◌⊎◌, inl, inr}
use csutil.Common.{ltb, true, false, Bool-cases, ltb→lt}
use csutil.Common.{List, [], ◌∷◌, ◌++◌, length, take, drop, length-append, append_assoc}
use csutil.Common.{take-append, drop-append}
use csutil.Common.Status.{Result, ok, err, not_found}
use csutil.Coding.Find.{matches, brute_force_loop, brute_force, same, rk_loop, rk, get_highlighting}

-- The needle stands in the haystack with `pos` bytes before it.
abbrev OccursAt : List ℕ → List ℕ → ℕ → Type 0
OccursAt haystack needle pos =
    (before after : List ℕ) × (haystack ≡ before ++ (needle ++ after)) × (length before ≡ pos)

-- The first occurrence, or none at all.
abbrev pub FindsFirst : List ℕ → List ℕ → Result ℕ → Type 0
FindsFirst haystack needle r =
    ((pos : ℕ) × (r ≡ ok pos)
      × OccursAt haystack needle pos
      × ((q : ℕ) → OccursAt haystack needle q → pos ≤ q))
    ⊎ ((r ≡ err not_found) × ((q : ℕ) → ¬ OccursAt haystack needle q))

matches→append :
    (needle rest : List ℕ)
    → matches needle rest ≡ true
    → (after : List ℕ) × (rest ≡ needle ++ after)
unfolding matches
matches→append [] rest h = (rest, refl)
matches→append (n ∷ needle) [] h = cc
matches→append (n ∷ needle) (c ∷ rest) h =
    let (after, e) = matches→append needle rest (ground arith) in (after, ground arith)

append→matches : (needle after : List ℕ) → matches needle (needle ++ after) ≡ true
unfolding matches
append→matches [] after = refl
append→matches (n ∷ needle) after = ground (arith, append→matches needle after)

-- The two tests agree on what is left of the haystack.
same-take : (needle rest : List ℕ) → same (take (length needle) rest) needle ≡ matches needle rest
unfolding same matches
same-take [] rest = refl
same-take (n ∷ needle) [] = refl
same-take (n ∷ needle) (c ∷ rest) = ground (arith, same-take needle rest)

rk_loop-brute_force_loop :
    (rounds i : ℕ) (rest needle : List ℕ)
    → rk_loop rounds i rest needle ≡ brute_force_loop rounds i rest needle
unfolding rk_loop brute_force_loop
rk_loop-brute_force_loop zero i rest needle = refl
rk_loop-brute_force_loop (suc rounds) i rest needle =
    rw (same-take needle rest, rk_loop-brute_force_loop rounds (i + 1) (drop 1 rest) needle)

-- RK gives the same answer as BruteForce on every input.
pub rk-brute_force : (haystack needle : List ℕ) → rk haystack needle ≡ brute_force haystack needle
unfolding rk brute_force
rk-brute_force haystack needle =
    rw (rk_loop-brute_force_loop (length haystack - length needle + 1) 0 haystack needle)

-- An occurrence in a list that is not at its start is one in the tail.
later :
    (c : ℕ) (rest needle : List ℕ) (q : ℕ)
    → OccursAt (c ∷ rest) needle (suc q)
    → OccursAt rest needle q
later c rest needle q ([], after, e, l) = absurd (omega arith)
later c rest needle q (b ∷ before, after, e, l) = (before, after, ground arith, omega arith)

shift :
    (c : ℕ) (rest needle : List ℕ) (q : ℕ)
    → OccursAt rest needle q
    → OccursAt (c ∷ rest) needle (suc q)
shift c rest needle q (before, after, e, l) = (c ∷ before, after, ap (◌∷◌ c) e, ap suc l)

-- The loop from i on, where `rest` is the haystack from i on: positions count from i.
abbrev Loop : ℕ → List ℕ → List ℕ → Result ℕ → Type 0
Loop i rest needle r =
    ((pos : ℕ) × (r ≡ ok (i + pos))
      × OccursAt rest needle pos
      × ((q : ℕ) → OccursAt rest needle q → pos ≤ q))
    ⊎ ((r ≡ err not_found) × ((q : ℕ) → ¬ OccursAt rest needle q))

occurs_here : (rest needle : List ℕ) → OccursAt rest needle 0 → matches needle rest ≡ true
occurs_here rest needle ([], after, e, l) = rw e (append→matches needle after)
occurs_here rest needle (b ∷ before, after, e, l) = absurd (omega arith)

too_long : (rest needle : List ℕ) (q : ℕ) → length rest < length needle → ¬ OccursAt rest needle q
too_long rest needle q h (before, after, e, l) =
    absurd (
      omega
        (arith, ap length e, length-append before (needle ++ after), length-append needle after))

-- A round that does not match: an answer for the tail is one for the whole rest.
round_missed :
    (c i : ℕ) (rest needle : List ℕ) (r : Result ℕ)
    → matches needle (c ∷ rest) ≡ false
    → Loop (i + 1) rest needle r
    → Loop i (c ∷ rest) needle r
round_missed c i rest needle r miss (inl (pos, found, occurs, first)) =
    inl (suc pos, found ∙ ap ok (omega arith), shift c rest needle pos occurs, minimal)
  where
    minimal : (q : ℕ) → OccursAt (c ∷ rest) needle q → suc pos ≤ q
    minimal zero at = cc (occurs_here (c ∷ rest) needle at)
    minimal (suc q) at = omega (arith, first q (later c rest needle q at))
round_missed c i rest needle r miss (inr (none_found, nowhere)) = inr (none_found, not_at)
  where
    not_at : (q : ℕ) → ¬ OccursAt (c ∷ rest) needle q
    not_at zero at = cc (occurs_here (c ∷ rest) needle at)
    not_at (suc q) at = nowhere q (later c rest needle q at)

round_hit :
    (rounds i : ℕ) (rest needle : List ℕ)
    → matches needle rest ≡ true
    → Loop i rest needle (brute_force_loop (suc rounds) i rest needle)
unfolding brute_force_loop
round_hit rounds i rest needle hit =
    let (after, e) = matches→append needle rest hit in
    rw hit (inl (0, ap ok (omega arith), ([], after, e, refl), λ q at. omega arith))

loop_lem :
    (rounds i : ℕ) (rest needle : List ℕ)
    → rounds + length needle ≡ length rest + 1
    → Loop i rest needle (brute_force_loop rounds i rest needle)
unfolding brute_force_loop
loop_lem zero i rest needle h = inr (refl, λ q. too_long rest needle q (omega arith))
loop_lem (suc rounds) i [] [] h = round_hit rounds i [] [] (unfold matches in refl)
loop_lem (suc rounds) i [] (n ∷ needle) h = absurd (omega arith)
loop_lem (suc rounds) i (c ∷ rest) needle h = elim (Bool-cases (matches needle (c ∷ rest))) [
  | inl hit ↦ round_hit rounds i (c ∷ rest) needle hit
  | inr miss ↦
      rw miss
        (round_missed c i rest needle _ miss (loop_lem rounds (i + 1) rest needle (omega arith)))
]

-- BruteForce gives the position of the first occurrence of the needle, and kNotFound exactly where
-- there is none.
pub brute_force-FindsFirst :
    (haystack needle : List ℕ) → FindsFirst haystack needle (brute_force haystack needle)
unfolding brute_force
brute_force-FindsFirst haystack needle = elim (Bool-cases (ltb (length haystack) (length needle))) [
  | inl short ↦ rw short (inr (refl, λ q. too_long haystack needle q (ltb→lt _ _ short)))
  | inr fits ↦
      rw fits (
        from_start
          (loop_lem (length haystack - length needle + 1) 0 haystack needle (ground arith)))
]
  where
    from_start : {r : Result ℕ} → Loop 0 haystack needle r → FindsFirst haystack needle r
    from_start (inl (pos, found, occurs, first)) =
        inl (pos, found ∙ ap ok (omega arith), occurs, first)
    from_start (inr nowhere) = inr nowhere

-- At an occurrence GetHighlighting appends the haystack with the tags round the needle.
pub get_highlighting-OccursAt :
    (before needle after pre_tags post_tags highlight : List ℕ)
    → get_highlighting
        (before ++ (needle ++ after))
        needle
        (length before)
        pre_tags
        post_tags
        highlight
      ≡ ok (highlight ++ (before ++ (pre_tags ++ (needle ++ (post_tags ++ after)))))
unfolding get_highlighting
get_highlighting-OccursAt before needle after pre_tags post_tags highlight = ground (
  arith,
  length-append before (needle ++ after),
  length-append needle after,
  take-append before (needle ++ after),
  behind,
)
  where
    behind : drop (length before + length needle) (before ++ (needle ++ after)) ≡ after
    behind =
        rw (← length-append before needle, ← append_assoc before needle after)
          (drop-append (before ++ needle) after)
