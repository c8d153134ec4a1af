-- ===== src/LruCache/Slots.antt =====
-- The nodes on the ring of store/cache/lru_cache, the most recent first, with their addresses, and
-- the keys that they stand under.
use csutil.Common.{ℕ, suc, ◌≡◌, refl, ap, arith, ◌∙◌, List, [], ◌∷◌, ◌++◌, length}
use csutil.Common.{Option, none, some, false, Bool-cases, inl, inr, if◌then◌else◌}
use csutil.LruCache.{Entry}
use csutil.LruCache.Map.{same, same_iff}

abbrev pub Slots : Type 0
Slots = List (ℕ × Entry)

abbrev pub addresses : Slots → List ℕ
addresses [] = []
addresses ((a, e) ∷ ns) = a ∷ addresses ns

abbrev pub entries : Slots → List Entry
entries [] = []
entries ((a, e) ∷ ns) = e ∷ entries ns

unfoldable pub address : List ℕ → Slots → Option ℕ
address key [] = none
address key ((a, e) ∷ ns) = if same e.key key then some a else address key ns

abbrev pub HasDistinctKeys : Slots → Type 0
HasDistinctKeys [] = Unit
HasDistinctKeys ((a, e) ∷ ns) = (address e.key ns ≡ none) × HasDistinctKeys ns

pub addresses-append : (xs ys : Slots) → addresses (xs ++ ys) ≡ addresses xs ++ addresses ys
addresses-append [] ys = refl
addresses-append ((a, e) ∷ xs) ys = ap (◌∷◌ a) (addresses-append xs ys)

pub entries-append : (xs ys : Slots) → entries (xs ++ ys) ≡ entries xs ++ entries ys
entries-append [] ys = refl
entries-append ((a, e) ∷ xs) ys = ap (◌∷◌ e) (entries-append xs ys)

-- The list at a node with the key, which no node in front has.
abbrev pub SplitsAt : List ℕ → ℕ → Slots → Type 0
SplitsAt key a ns =
    (xs : Slots) × (e : Entry) × (ys : Slots) × (ns ≡ xs ++ ((a, e) ∷ ys))
    × (e.key ≡ key)
    × (address key xs ≡ none)

pub address-SplitsAt :
    (key : List ℕ) (a : ℕ) (ns : Slots) → address key ns ≡ some a → SplitsAt key a ns
unfolding address
address-SplitsAt key a [] h = cc
address-SplitsAt key a ((b, f) ∷ ns) h = elim (Bool-cases (same f.key key)) [
  | inl hit ↦ ([], f, ns, ground (arith, h), (same_iff f.key key).0 hit, refl)
  | inr miss ↦ further miss (address-SplitsAt key a ns (rw (miss, address) at h))
]
  where
    further : same f.key key ≡ false → SplitsAt key a ns → SplitsAt key a ((b, f) ∷ ns)
    further miss (xs, e, ys, eq, k, none_before) =
        ((b, f) ∷ xs, e, ys, ap (◌∷◌ (b, f)) eq, k, rw miss none_before)

address-middle :
    (key : List ℕ) (xs : Slots) (a : ℕ) (e : Entry) (ys : Slots)
    → address key (xs ++ ((a, e) ∷ ys)) ≡ none
    → same e.key key ≡ false
unfolding address
address-middle key [] a e ys h = ground arith
address-middle key ((b, f) ∷ xs) a e ys h = ground (arith, address-middle key xs a e ys)

-- Taking a node out takes its key out.
pub address-remove :
    (k : List ℕ) (xs : Slots) (a : ℕ) (e : Entry) (ys : Slots)
    → HasDistinctKeys (xs ++ ((a, e) ∷ ys))
    → address k (xs ++ ys) ≡ (if same e.key k then none else address k (xs ++ ((a, e) ∷ ys)))
unfolding address
address-remove k [] a e ys (absent, d) = ground (arith, same_iff e.key k)
address-remove k ((b, f) ∷ xs) a e ys (absent, d) = ground (
  arith,
  same_iff e.key k,
  same_iff f.key k,
  same_iff e.key f.key,
  address-remove k xs a e ys d,
  address-middle f.key xs a e ys absent,
)

pub HasDistinctKeys-remove :
    (xs : Slots) (a : ℕ) (e : Entry) (ys : Slots)
    → HasDistinctKeys (xs ++ ((a, e) ∷ ys))
    → HasDistinctKeys (xs ++ ys)
HasDistinctKeys-remove [] a e ys (absent, d) = d
HasDistinctKeys-remove ((b, f) ∷ xs) a e ys (absent, d) = (
  address-remove f.key xs a e ys d ∙ rw (address-middle f.key xs a e ys absent, absent),
  HasDistinctKeys-remove xs a e ys d,
)

pub address-removed :
    (xs : Slots) (a : ℕ) (e : Entry) (ys : Slots)
    → HasDistinctKeys (xs ++ ((a, e) ∷ ys))
    → address e.key (xs ++ ys) ≡ none
address-removed xs a e ys d = address-remove e.key xs a e ys d ∙ rw ((same_iff e.key e.key).1 refl)

pub length-entries : (ns : Slots) → length (entries ns) ≡ length ns
length-entries [] = refl
length-entries ((a, e) ∷ ns) = ap suc (length-entries ns)

-- The key of a node leads to it.
pub address-key :
    (xs : Slots) (a : ℕ) (e : Entry) (ys : Slots)
    → HasDistinctKeys (xs ++ ((a, e) ∷ ys))
    → address e.key (xs ++ ((a, e) ∷ ys)) ≡ some a
unfolding address
address-key [] a e ys d = rw ((same_iff e.key e.key).1 refl)
address-key ((b, f) ∷ xs) a e ys (absent, d) = ground (
  arith,
  same_iff f.key e.key,
  same_iff e.key f.key,
  address-middle f.key xs a e ys absent,
  address-key xs a e ys d,
)

-- A list that is not empty ends in a node.
pub snoc : (n : ℕ × Entry) (ns : Slots) → (xs : Slots) × (m : ℕ × Entry) × (n ∷ ns ≡ xs ++ (m ∷ []))
snoc n [] = ([], n, refl)
snoc n (m ∷ ns) = let (xs, l, e) = snoc m ns in (n ∷ xs, l, ap (◌∷◌ n) e)
