-- ===== src/LruCache/Map.antt =====
-- std::map from strings to addresses in store/cache/lru_cache: only which key has which address, and
-- how many there are, is ever read, so the order of the keys is left out.
use csutil.Common.{ℕ, ◌+◌, ◌≡◌, refl, arith, List, [], ◌∷◌, length, ◌==◌, ◌&&◌}
use csutil.Common.{Option, none, some, Bool, true, false, if◌then◌else◌, ◌↔◌}

-- Equality of strings.
unfoldable pub same : List ℕ → List ℕ → Bool
same [] [] = true
same [] (y ∷ ys) = false
same (x ∷ xs) [] = false
same (x ∷ xs) (y ∷ ys) = x == y && same xs ys

pub same→eq : (xs ys : List ℕ) → same xs ys ≡ true → xs ≡ ys
unfolding same
same→eq [] [] h = refl
same→eq [] (y ∷ ys) h = cc
same→eq (x ∷ xs) [] h = cc
same→eq (x ∷ xs) (y ∷ ys) h = ground (arith, same→eq xs ys)

pub same_refl : (xs : List ℕ) → same xs xs ≡ true
unfolding same
same_refl [] = refl
same_refl (x ∷ xs) = ground (arith, same_refl xs)

pub same_iff : (xs ys : List ℕ) → (same xs ys ≡ true) ↔ (xs ≡ ys)
same_iff xs ys = (same→eq xs ys, λ e. rw e (same_refl ys))

unfoldable pub find : List ℕ → List (List ℕ × ℕ) → Option ℕ
find key [] = none
find key ((k, p) ∷ m) = if same k key then some p else find key m

-- `insert` of a key that is not there.
unfoldable pub add : List ℕ → ℕ → List (List ℕ × ℕ) → List (List ℕ × ℕ)
add key p m = (key, p) ∷ m

unfoldable pub erase : List ℕ → List (List ℕ × ℕ) → List (List ℕ × ℕ)
erase key [] = []
erase key ((k, p) ∷ m) = if same k key then m else (k, p) ∷ erase key m

-- No key has two addresses.
abbrev pub HasUniqueKeys : List (List ℕ × ℕ) → Type 0
HasUniqueKeys [] = Unit
HasUniqueKeys ((k, p) ∷ m) = (find k m ≡ none) × HasUniqueKeys m

pub find-erase :
    (key k : List ℕ) (m : List (List ℕ × ℕ))
    → HasUniqueKeys m
    → find k (erase key m) ≡ (if same key k then none else find k m)
unfolding find erase
find-erase key k [] u = ground arith
find-erase key k ((j, p) ∷ m) (absent, u) =
    ground (arith, same_iff j key, same_iff j k, same_iff key k, find-erase key k m u, absent)

pub erase-HasUniqueKeys :
    (key : List ℕ) (m : List (List ℕ × ℕ)) → HasUniqueKeys m → HasUniqueKeys (erase key m)
unfolding erase
erase-HasUniqueKeys key [] u = tt
erase-HasUniqueKeys key ((j, p) ∷ m) (absent, u) =
    ground (arith, find-erase key j m u, erase-HasUniqueKeys key m u)

pub length-erase :
    (key : List ℕ) (m : List (List ℕ × ℕ)) (p : ℕ)
    → find key m ≡ some p
    → length (erase key m) + 1 ≡ length m
unfolding find erase
length-erase key [] p e = cc
length-erase key ((j, q) ∷ m) p e = ground (arith, length-erase key m p)
