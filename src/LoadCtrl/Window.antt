-- ===== src/LoadCtrl/Window.antt =====
-- The ring of grids in base/load_ctrl.cc as a window, the current grid first and the oldest last.
use csutil.Common.{
  ℕ, zero, suc, ◌+◌, ◌%◌, ◌<◌, ◌≤◌, ◌≡◌, refl, sym, ap, ◌∙◌, arith, List, [], ◌∷◌, ◌++◌, length,
}
use csutil.Common.{set, get_or, length-append, append_assoc, append-nil, replicate}
use native.Mathlib.Nat.{mod_self, mod-eq_of_lt}
use mathlib.Core.List.{head-eq_of_cons-eq, tail-eq_of_cons-eq}

unfoldable pub sum : List ℕ → ℕ
sum [] = 0
sum (x ∷ xs) = x + sum xs

-- All but the last.
unfoldable pub front : List ℕ → List ℕ
front [] = []
front (x ∷ []) = []
front (x ∷ y ∷ ys) = x ∷ front (y ∷ ys)

-- The window after as many steps: a new grid in front each time, and the last one goes.
unfoldable pub advance : ℕ → List ℕ → List ℕ
advance zero w = w
advance (suc n) w = advance n (0 ∷ front w)

backwards : List ℕ → List ℕ
backwards [] = []
backwards (x ∷ xs) = backwards xs ++ (x ∷ [])

-- The window of a ring at an index.
pub Window : List ℕ → ℕ → List ℕ → Type 0
Window grids idx w =
    (xs : List ℕ) × (g : ℕ) × (ys : List ℕ) × (grids ≡ xs ++ (g ∷ ys))
    × (length xs ≡ idx)
    × (w ≡ g ∷ (backwards xs ++ backwards ys))

pub front-snoc : (v : List ℕ) (y : ℕ) → front (v ++ (y ∷ [])) ≡ v
unfolding front
front-snoc [] y = refl
front-snoc (x ∷ []) y = refl
front-snoc (x ∷ z ∷ v) y = ap (◌∷◌ x) (front-snoc (z ∷ v) y)

pub sum-append : (xs ys : List ℕ) → sum (xs ++ ys) ≡ sum xs + sum ys
unfolding sum
sum-append [] ys = omega arith
sum-append (x ∷ xs) ys = omega (arith, sum-append xs ys)

backwards-snoc : (xs : List ℕ) (g : ℕ) → backwards (xs ++ (g ∷ [])) ≡ g ∷ backwards xs
unfolding backwards
backwards-snoc [] g = refl
backwards-snoc (x ∷ xs) g = ap (λ (l : List ℕ). l ++ (x ∷ [])) (backwards-snoc xs g)

length-backwards : (xs : List ℕ) → length (backwards xs) ≡ length xs
unfolding backwards
length-backwards [] = refl
length-backwards (x ∷ xs) =
    omega (arith, length-append (backwards xs) (x ∷ []), length-backwards xs)

get-middle : (xs : List ℕ) (g : ℕ) (ys : List ℕ) → get_or (xs ++ (g ∷ ys)) (length xs) 0 ≡ g
get-middle [] g ys = refl
get-middle (x ∷ xs) g ys = get-middle xs g ys

set-middle :
    (xs : List ℕ) (g : ℕ) (ys : List ℕ) (v : ℕ)
    → set (xs ++ (g ∷ ys)) (length xs) v ≡ xs ++ (v ∷ ys)
set-middle [] g ys v = refl
set-middle (x ∷ xs) g ys v = ap (◌∷◌ x) (set-middle xs g ys v)

pub length-Window :
    (grids : List ℕ) (idx : ℕ) (w : List ℕ) → Window grids idx w → length w ≡ length grids
unfolding Window
length-Window grids idx w (xs, g, ys, at, i, eq) = omega (
  arith,
  ap length at,
  ap length eq,
  length-append xs (g ∷ ys),
  length-append (backwards xs) (backwards ys),
  length-backwards xs,
  length-backwards ys,
)

pub Window-cons :
    (grids : List ℕ) (idx : ℕ) (w : List ℕ)
    → Window grids idx w
    → (g : ℕ) × (v : List ℕ) × (w ≡ g ∷ v)
unfolding Window
Window-cons grids idx w (xs, g, ys, at, i, eq) = (g, backwards xs ++ backwards ys, eq)

-- The current grid, and a change of it.
pub Window-current :
    (grids : List ℕ) (idx g : ℕ) (w : List ℕ)
    → Window grids idx (g ∷ w)
    → (idx < length grids)
      × (get_or grids idx 0 ≡ g)
      × ((v : ℕ) → Window (set grids idx v) idx (v ∷ w))
unfolding Window
Window-current grids idx g w (xs, g', ys, at, i, eq) =
    let here : g ≡ g' = head-eq_of_cons-eq eq in
    rw (at, ← i)
      (
        omega (arith, length-append xs (g' ∷ ys)),
        get-middle xs g' ys ∙ sym here,
        λ v. (xs, v, ys, set-middle xs g' ys v, refl, ap (◌∷◌ v) (tail-eq_of_cons-eq eq)),
      )

-- The grid that comes after the current one is the last of the window.
abbrev pub Next : List ℕ → ℕ → List ℕ → Type 0
Next grids i w =
    (v : List ℕ) × (y : ℕ) × (w ≡ v ++ (y ∷ []))
    × (i < length grids)
    × (get_or grids i 0 ≡ y)
    × Window (set grids i 0) i (0 ∷ v)

within-Next :
    (xs : List ℕ) (g y : ℕ) (ys : List ℕ)
    → Next (xs ++ (g ∷ y ∷ ys)) (length xs + 1) (g ∷ (backwards xs ++ backwards (y ∷ ys)))
unfolding Window backwards
within-Next xs g y ys =
    let at : xs ++ (g ∷ y ∷ ys) ≡ (xs ++ (g ∷ [])) ++ (y ∷ ys) =
      sym (append_assoc xs (g ∷ []) (y ∷ ys)) in
    let count : length xs + 1 ≡ length (xs ++ (g ∷ [])) = sym (length-append xs (g ∷ [])) in
    rw (at, count)
      (
        g ∷ (backwards xs ++ backwards ys),
        y,
        ap (◌∷◌ g) (sym (append_assoc (backwards xs) (backwards ys) (y ∷ []))),
        omega (arith, length-append (xs ++ (g ∷ [])) (y ∷ ys)),
        get-middle (xs ++ (g ∷ [])) y ys,
        (
          xs ++ (g ∷ []),
          0,
          ys,
          set-middle (xs ++ (g ∷ [])) y ys 0,
          refl,
          ap (λ (l : List ℕ). 0 ∷ (l ++ backwards ys)) (sym (backwards-snoc xs g)),
        ),
      )

around-Next : (xs : List ℕ) (g : ℕ) → Next (xs ++ (g ∷ [])) 0 (g ∷ (backwards xs ++ []))
unfolding Window backwards
around-Next [] g = ([], g, refl, omega arith, refl, ([], 0, [], refl, refl, refl))
around-Next (x ∷ xs) g = (
  g ∷ backwards xs,
  x,
  ap (◌∷◌ g) (append-nil (backwards xs ++ (x ∷ []))),
  omega arith,
  refl,
  ([], 0, xs ++ (g ∷ []), refl, refl, ap (◌∷◌ 0) (sym (backwards-snoc xs g))),
)

pub Window-Next :
    (grids : List ℕ) (idx : ℕ) (w : List ℕ)
    → Window grids idx w
    → Next grids ((idx + 1) % length grids) w
unfolding Window backwards
Window-Next grids idx w (xs, g, [], at, i, eq) =
    let last : (length xs + 1) % length (xs ++ (g ∷ [])) ≡ 0 =
      ap (λ n. n % length (xs ++ (g ∷ []))) (sym (length-append xs (g ∷ []))) ∙ mod_self _ in
    rw (at, eq, ← i, last) (around-Next xs g)
Window-Next grids idx w (xs, g, y ∷ ys, at, i, eq) =
    let within : (length xs + 1) % length (xs ++ (g ∷ y ∷ ys)) ≡ length xs + 1 =
      mod-eq_of_lt (omega (arith, length-append xs (g ∷ y ∷ ys))) in
    rw (at, eq, ← i, within) (within-Next xs g y ys)

replicate-snoc :
    (n : ℕ) → let zeros : List ℕ = 0 ∷ [] in replicate n 0 ++ zeros ≡ replicate (suc n) 0
replicate-snoc zero = refl
replicate-snoc (suc n) = ap (◌∷◌ 0) (replicate-snoc n)

backwards-replicate : (n : ℕ) → backwards (replicate n 0) ≡ replicate n 0
unfolding backwards
backwards-replicate zero = refl
backwards-replicate (suc n) =
    ap (λ (l : List ℕ). l ++ (0 ∷ [])) (backwards-replicate n) ∙ replicate-snoc n

pub Window-replicate : (n : ℕ) → Window (replicate (suc n) 0) 0 (replicate (suc n) 0)
unfolding Window backwards
Window-replicate n = ([], 0, replicate n 0, refl, refl, ap (◌∷◌ 0) (sym (backwards-replicate n)))

pub sum-replicate : (n : ℕ) → sum (replicate n 0) ≡ 0
unfolding sum
sum-replicate zero = refl
sum-replicate (suc n) = omega (arith, sum-replicate n)

front-sum : (w : List ℕ) → sum (front w) ≤ sum w
unfolding front sum
front-sum [] = omega arith
front-sum (x ∷ []) = omega arith
front-sum (x ∷ y ∷ ys) = omega (arith, front-sum (y ∷ ys))

pub advance-sum : (n : ℕ) (w : List ℕ) → sum (advance n w) ≤ sum w
unfolding advance sum
advance-sum zero w = omega arith
advance-sum (suc n) w = omega (arith, advance-sum n (0 ∷ front w), front-sum w)
