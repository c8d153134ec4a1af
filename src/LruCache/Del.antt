-- ===== src/LruCache/Del.antt =====
-- Del of store/cache/lru_cache/src/lru_cache.cc on the list of entries.
use mathlib.Core.Path.{subst}
use csutil.Common.{ℕ, ◌≡◌, refl, sym, ◌∙◌, List, ◌∷◌, ◌++◌, ◌⊎◌, inl, inr}
use csutil.Common.{none, some}
use csutil.Common.Status.{err, not_found}
use csutil.LruCache.{LruCache, Entry, del}
use csutil.LruCache.Map.{find}
use csutil.LruCache.Slots.{Slots, entries, address}
use csutil.LruCache.Links.{unlinked}
use csutil.LruCache.Contents.{IsCache, Holds, lookup, remove}
use csutil.LruCache.Steps.{dropped, dropped-IsCache, unlink_lem, free_lem, from-Apart}
use csutil.LruCache.Expire.{stored_at, key_at}
use csutil.LruCache.Places.{lookup-absent, lookup-present, Gives, by_key}

del_absent : (c : LruCache) (key : List ℕ) → find key c.caches ≡ none → del c key ≡ err not_found
unfolding del
del_absent c key absent = rw (absent, del) refl

del_present :
    (c : LruCache) (xs : Slots) (a : ℕ) (e : Entry) (ys : Slots) (key : List ℕ)
    → IsCache c (xs ++ ((a, e) ∷ ys))
    → find key c.caches ≡ some a
    → e.key ≡ key
    → address key xs ≡ none
    → Gives c (remove key (entries (xs ++ ((a, e) ∷ ys)))) (del c key)
unfolding del
del_present c xs a e ys key valid there k first = (
  dropped c xs a e ys valid,
  rw
      (
        there,
        del,
        unlink_lem c xs a e ys valid,
        free_lem (unlinked c a) a e (stored_at c xs a e ys valid) (from-Apart c xs a e ys valid).0,
        ← k,
      )
      refl,
  (
    xs ++ ys,
    dropped-IsCache c xs a e ys valid (key_at c xs a e ys valid),
    sym (lookup-present key xs a e ys k first).1,
  ),
  refl,
  refl,
)

-- Del takes the entry of a key out of what the cache holds, and returns kNotFound where there is
-- none.
pub del-Holds :
    (c : LruCache) (es : List Entry) (key : List ℕ)
    → Holds c es
    → ((lookup key es ≡ none) × (del c key ≡ err not_found))
      ⊎ ((e : Entry) × (lookup key es ≡ some e) × Gives c (remove key es) (del c key))
del-Holds c es key (ns, valid, eq) =
    subst
      (λ (l : List Entry).
        ((lookup key l ≡ none) × (del c key ≡ err not_found))
        ⊎ ((e : Entry) × (lookup key l ≡ some e) × Gives c (remove key l) (del c key)))
      eq
      (by_key
        (λ (ns : Slots).
          ((lookup key (entries ns) ≡ none) × (del c key ≡ err not_found))
          ⊎ ((e : Entry) × (lookup key (entries ns) ≡ some e)
              × Gives c (remove key (entries ns)) (del c key)))
        c ns key valid
        (λ absent.
          inl (lookup-absent key ns (sym (valid.keys key) ∙ absent), del_absent c key absent))
        (λ xs a e ys valid there k first. inr (
          e,
          (lookup-present key xs a e ys k first).0,
          del_present c xs a e ys key valid there k first,
        )))
