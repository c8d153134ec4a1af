-- ===== src/LruCache/Places.antt =====
-- The place on the ring to which the map of store/cache/lru_cache/src/lru_cache.cc leads for a key.
use mathlib.Core.Path.{subst}
use csutil.Common.{ℕ, ◌≡◌, refl, sym, ◌∙◌, arith, List, [], ◌∷◌, ◌++◌, inl, inr}
use csutil.Common.{none, some, Option-cases}
use csutil.Common.Status.{Result, ok}
use csutil.LruCache.{LruCache, Entry}
use csutil.LruCache.Map.{find, same_iff}
use csutil.LruCache.Slots.{Slots, entries, address, address-SplitsAt}
use csutil.LruCache.Contents.{IsCache, Holds, lookup, remove}

pub lookup-absent :
    (key : List ℕ) (ns : Slots) → address key ns ≡ none → lookup key (entries ns) ≡ none
unfolding lookup address
lookup-absent key [] h = refl
lookup-absent key ((a, e) ∷ ns) h = ground (arith, lookup-absent key ns)

pub lookup-present :
    (key : List ℕ) (xs : Slots) (a : ℕ) (e : Entry) (ys : Slots)
    → e.key ≡ key
    → address key xs ≡ none
    → (lookup key (entries (xs ++ ((a, e) ∷ ys))) ≡ some e)
      × (remove key (entries (xs ++ ((a, e) ∷ ys))) ≡ entries (xs ++ ys))
unfolding lookup remove address
lookup-present key [] a e ys k h = ground (arith, same_iff e.key key)
lookup-present key ((b, f) ∷ xs) a e ys k h = ground (arith, lookup-present key xs a e ys k)

-- The call succeeds with a cache that holds the list, under the same settings.
abbrev pub Gives : LruCache → List Entry → Result LruCache → Type 0
Gives c es r =
    (c' : LruCache) × (r ≡ ok c')
    × Holds c' es
    × (c'.max_num ≡ c.max_num)
    × (c'.time_interval ≡ c.time_interval)

-- A search of the map either fails or leads to a place on the ring.
pub by_key :
    (P : Slots → Type 0) (c : LruCache) (ns : Slots) (key : List ℕ)
    → IsCache c ns
    → (find key c.caches ≡ none → P ns)
    → ((xs : Slots) (a : ℕ) (e : Entry) (ys : Slots)
        → IsCache c (xs ++ ((a, e) ∷ ys))
        → find key c.caches ≡ some a
        → e.key ≡ key
        → address key xs ≡ none
        → P (xs ++ ((a, e) ∷ ys)))
    → P ns
by_key P c ns key valid missing present = elim (Option-cases (find key c.caches)) [
  | inl absent ↦ missing absent
  | inr (a, there) ↦
      let (xs, e, ys, at, k, first) = address-SplitsAt key a ns (sym (valid.keys key) ∙ there) in
      subst P (sym at)
        (present xs a e ys (subst (λ (ns : Slots). IsCache c ns) at valid) there k first)
]
