-- ===== src/LruCache/Put.antt =====
-- Put of store/cache/lru_cache/src/lru_cache.cc on the list of entries.
use mathlib.Core.Path.{subst}
use csutil.Common.{ℕ, ◌≡◌, refl, sym, ap, ◌∙◌, arith, List, [], ◌∷◌, ◌++◌}
use csutil.Common.{none, some}
use csutil.Common.Status.{ok}
use csutil.LruCache.{LruCache, Entry, new_lru_cache, init, put, new_node, load, refresh}
use csutil.LruCache.Map.{find}
use csutil.LruCache.Slots.{Slots, entries, address}
use csutil.LruCache.Contents.{IsCache, Holds, lookup, remove, limit, put_list}
use csutil.LruCache.Steps.{load_lem}
use csutil.LruCache.Steps.{
  refreshed, refresh_lem, refreshed-IsCache, added, insert_new_lem, added-IsCache,
}
use csutil.LruCache.Expire.{stored_at, key_at, remove_expired_nodes-Limits}
use csutil.LruCache.Places.{lookup-absent, lookup-present, Gives, by_key}

put_found :
    (c : LruCache) (now : ℕ) (key value : List ℕ) (a : ℕ) (e : Entry)
    → find key c.caches ≡ some a
    → load c a ≡ ok e
    → put c now key value ≡ refresh c a (record e { value = value; access_time = now })
unfolding put
put_found c now key value a e there loads = rw (there, put, loads) refl

put_list_found :
    (max_num now : ℕ) (key value : List ℕ) (es : List Entry) (e : Entry)
    → lookup key es ≡ some e
    → put_list max_num now key value es
      ≡ record { key = key; value = value; access_time = now } ∷ remove key es
unfolding put_list
put_list_found max_num now key value es e h = rw (h, put_list) refl

put_list_new :
    (max_num now : ℕ) (key value : List ℕ) (es : List Entry)
    → lookup key es ≡ none
    → put_list max_num now key value es
      ≡ limit max_num (record { key = key; value = value; access_time = now } ∷ es)
unfolding put_list
put_list_new max_num now key value es h = rw (h, put_list) refl

put_present :
    (c : LruCache) (xs : Slots) (a : ℕ) (e : Entry) (ys : Slots) (now : ℕ) (key value : List ℕ)
    → IsCache c (xs ++ ((a, e) ∷ ys))
    → find key c.caches ≡ some a
    → e.key ≡ key
    → address key xs ≡ none
    → Gives c
        (put_list c.max_num now key value (entries (xs ++ ((a, e) ∷ ys))))
        (put c now key value)
put_present c xs a e ys now key value valid there k first =
    let (looks, removes) = lookup-present key xs a e ys k first in
    let e' : Entry = record e { value = value; access_time = now } in
    (
      refreshed c xs a e e' ys valid refl,
      put_found c now key value a e there (load_lem c a e (stored_at c xs a e ys valid))
          ∙ refresh_lem c xs a e e' ys valid refl,
      (
        (a, e') ∷ (xs ++ ys),
        refreshed-IsCache c xs a e e' ys valid refl (key_at c xs a e ys valid),
        ap
              (λ (k : List ℕ).
                record { key = k; value = value; access_time = now } ∷ entries (xs ++ ys))
              k
            ∙ sym (
                put_list_found c.max_num now key value (entries (xs ++ ((a, e) ∷ ys))) e looks
                ∙ ap (◌∷◌ (record { key = key; value = value; access_time = now })) removes),
      ),
      refl,
      refl,
    )

put_absent :
    (c : LruCache) (ns : Slots) (now : ℕ) (key value : List ℕ)
    → IsCache c ns
    → find key c.caches ≡ none
    → Gives c (put_list c.max_num now key value (entries ns)) (put c now key value)
unfolding put new_node
put_absent c ns now key value valid absent =
    let e : Entry = record { key = key; value = value; access_time = now } in
    let missing = lookup-absent key ns (sym (valid.keys key) ∙ absent) in
    let (c', ns', runs, valid', es, m, t) =
      remove_expired_nodes-Limits (added c e ns valid absent) ((c.fresh, e) ∷ ns)
        (added-IsCache c e ns valid absent) in
    (
      c',
      rw (absent, put, insert_new_lem c e ns valid absent) runs,
      (ns', valid', es ∙ sym (put_list_new c.max_num now key value (entries ns) missing)),
      m,
      t,
    )

-- Put on a cache that holds some entries, the most recent first, gives one that holds the entry
-- in front: it replaces an entry with its key, and a new one makes the oldest go where there are
-- too many; no access is undefined, and the settings stay.
pub put-Holds :
    (c : LruCache) (es : List Entry) (now : ℕ) (key value : List ℕ)
    → Holds c es
    → Gives c (put_list c.max_num now key value es) (put c now key value)
put-Holds c es now key value (ns, valid, eq) =
    subst (λ (l : List Entry). Gives c (put_list c.max_num now key value l) (put c now key value))
      eq
      (by_key
        (λ (ns : Slots).
          Gives c (put_list c.max_num now key value (entries ns)) (put c now key value))
        c ns key valid (put_absent c ns now key value valid)
        (λ xs a e ys. put_present c xs a e ys now key value))

-- A cache is empty after its constructor and Init.
pub init-Holds : (max_num time_interval : ℕ) → Holds (init new_lru_cache max_num time_interval) []
unfolding init new_lru_cache find address
init-Holds max_num time_interval = ([], valid, refl)
  where
    valid : IsCache (init new_lru_cache max_num time_interval) []
    valid = record {
      ring = record {
        links = (refl, refl);
        apart = (tt, tt);
        alive = ((record { key = []; value = []; access_time = 0 }, refl), tt);
      };
      stored = tt;
      unused = (omega arith, tt);
      keys = λ key. refl;
      distinct = tt;
      unique = tt;
      count = refl;
    }
