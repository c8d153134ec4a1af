-- ===== src/LruCache/Get.antt =====
-- Get of store/cache/lru_cache/src/lru_cache.cc on the list of entries.
use csutil.Common.{
  ℕ, zero, suc, ◌+◌, ◌-◌, ◌%◌, ◌^◌, ◌<◌, ◌==◌, ltb, leb, arith, ◌≡◌, refl, sym, ◌∙◌, List, [], ◌∷◌,
  ◌++◌, inl, inr, take, All,
}
use mathlib.Core.Option.{none-ne-some, some-injective}
use mathlib.Core.Path.{subst}
use csutil.Common.{Option, none, some, Bool-cases, if◌then◌else◌}
use csutil.Common.Status.{Result, ok}
use csutil.LruCache.{LruCache, Entry, get, get_at}
use csutil.LruCache.Map.{find, same}
use csutil.LruCache.Slots.{Slots, entries}
use csutil.LruCache.Links.{unlinked}
use csutil.LruCache.Contents.{IsCache, Holds, lookup, remove, limit, is_expired, get_limited}
use csutil.LruCache.Steps.{dropped, dropped-IsCache, unlink_lem, load_lem, free_lem, from-Apart}
use csutil.LruCache.Steps.{refreshed, refresh_lem, refreshed-IsCache}
use csutil.LruCache.Expire.{stored_at, key_at, remove_expired_nodes-Limits}
use csutil.LruCache.Places.{lookup-absent, lookup-present, by_key}

-- The call succeeds with this reply and a cache that holds the list.
abbrev pub Replies :
    LruCache → List Entry × Option (List ℕ) → Result (LruCache × Option (List ℕ)) → Type 0
Replies c reply r =
    (c' : LruCache) × (r ≡ ok (c', reply.1))
    × Holds c' reply.0
    × (c'.max_num ≡ c.max_num)
    × (c'.time_interval ≡ c.time_interval)

-- The search in Get, after RemoveExpiredNodes.
abbrev get_found : LruCache → ℕ → List ℕ → Result (LruCache × Option (List ℕ))
get_found c now key = elim (find key c.caches) [ some p ↦ get_at c now p key | none ↦ ok (c, none) ]

get_limited-some :
    (interval now : ℕ) (key : List ℕ) (es : List Entry) (e : Entry)
    → lookup key es ≡ some e
    → get_limited interval now key es ≡ (
        if is_expired interval now e
        then (remove key es, none)
        else (record e { access_time = now } ∷ remove key es, some e.value))
unfolding get_limited
get_limited-some interval now key es e h = rw (h, get_limited) refl

get_limited-none :
    (interval now : ℕ) (key : List ℕ) (es : List Entry)
    → lookup key es ≡ none
    → get_limited interval now key es ≡ (es, none)
unfolding get_limited
get_limited-none interval now key es h = rw (h, get_limited) refl

-- The age of the code, a difference of uint64_t that wraps, against the times.
expired_lem :
    (interval now : ℕ) (e : Entry)
    → now < 2 ^ 64
    → e.access_time < 2 ^ 64
    → ltb interval ((now + 2 ^ 64 - e.access_time) % 2 ^ 64) ≡ (
        if leb e.access_time now
        then ltb (e.access_time + interval) now
        else ltb (interval + e.access_time) (now + 2 ^ 64))
expired_lem interval now e h k = ground arith

-- The times are those of a uint64_t.
abbrev pub InTime : List Entry → Type 0
InTime es = All (λ (e : Entry). e.access_time < 2 ^ 64) es

lookup-InTime :
    (key : List ℕ) (es : List Entry) (e : Entry)
    → InTime es
    → lookup key es ≡ some e
    → e.access_time < 2 ^ 64
unfolding lookup
lookup-InTime key [] e h there = absurd (none-ne-some e there)
lookup-InTime key (e' ∷ es) e (h, hs) there = elim (Bool-cases (same e'.key key)) [
  | inl here ↦
      subst (λ (e : Entry). e.access_time < 2 ^ 64) (some-injective e' e (rw here at there)) h
  | inr further ↦ lookup-InTime key es e hs (rw further at there)
]

limit-InTime : (max_num : ℕ) (es : List Entry) → InTime es → InTime (limit max_num es)
unfolding limit
limit-InTime max_num es h = elim (Bool-cases (max_num == 0)) [
  | inl all ↦ rw all h
  | inr limited ↦ rw limited (taken max_num es h)
]
  where
    taken : (n : ℕ) (es : List Entry) → InTime es → InTime (take n es)
    taken zero es h = tt
    taken (suc n) [] h = tt
    taken (suc n) (e ∷ es) (h, hs) = (h, taken n es hs)

get_present :
    (c : LruCache) (xs : Slots) (a : ℕ) (e : Entry) (ys : Slots) (now : ℕ)
    → IsCache c (xs ++ ((a, e) ∷ ys))
    → now < 2 ^ 64
    → e.access_time < 2 ^ 64
    → Replies c
        (if is_expired c.time_interval now e
          then (entries (xs ++ ys), none)
          else (record e { access_time = now } ∷ entries (xs ++ ys), some e.value))
        (get_at c now a e.key)
unfolding get_at
get_present c xs a e ys now valid h k = elim (Bool-cases (is_expired c.time_interval now e)) [
  | inl expired ↦
      rw
        (
          load_lem c a e (stored_at c xs a e ys valid),
          expired_lem c.time_interval now e h k,
          expired,
        )
        (
          dropped c xs a e ys valid,
          rw
              (
                unlink_lem c xs a e ys valid,
                free_lem (unlinked c a) a e (stored_at c xs a e ys valid)
                    (from-Apart c xs a e ys valid).0,
              )
              refl,
          (xs ++ ys, dropped-IsCache c xs a e ys valid (key_at c xs a e ys valid), refl),
          refl,
          refl,
        )
  | inr current ↦
      let e' : Entry = record e { access_time = now } in
      rw
        (
          load_lem c a e (stored_at c xs a e ys valid),
          expired_lem c.time_interval now e h k,
          current,
        )
        (
          refreshed c xs a e e' ys valid refl,
          rw (refresh_lem c xs a e e' ys valid refl) refl,
          (
            (a, e') ∷ (xs ++ ys),
            refreshed-IsCache c xs a e e' ys valid refl (key_at c xs a e ys valid),
            refl,
          ),
          refl,
          refl,
        )
]

get_found-Replies :
    (c : LruCache) (ns : Slots) (now : ℕ) (key : List ℕ)
    → IsCache c ns
    → now < 2 ^ 64
    → InTime (entries ns)
    → Replies c (get_limited c.time_interval now key (entries ns)) (get_found c now key)
get_found-Replies c ns now key valid h times =
    by_key
      (λ (ns : Slots).
        InTime (entries ns)
        → Replies c (get_limited c.time_interval now key (entries ns)) (get_found c now key))
      c ns key valid
      (λ absent times.
        let missing = lookup-absent key ns (sym (valid.keys key) ∙ absent) in
        rw (get_limited-none c.time_interval now key (entries ns) missing)
          (c, rw (absent, get_found) refl, (ns, valid, refl), refl, refl))
      (λ xs a e ys valid there k first times.
        let (looks, removes) = lookup-present key xs a e ys k first in
        rw
          (
            there,
            get_found,
            get_limited-some c.time_interval now key (entries (xs ++ ((a, e) ∷ ys))) e looks,
            removes,
            ← k,
          )
          (get_present c xs a e ys now valid h
            (lookup-InTime key (entries (xs ++ ((a, e) ∷ ys))) e times looks)))
      times

-- Get on a cache that holds some entries, at a time of a uint64_t, first limits their number; it
-- then finds nothing for a key that is not there, takes out an entry that is too old, and otherwise
-- replies with the value and brings the entry to the front. Too old is an entry with a time before
-- that of the call by more than the interval, if there is one; an entry with a time ahead of the
-- call's, after the clock was set back, counts as 2 ^ 64 seconds old less what it is ahead by.
pub get-Holds :
    (c : LruCache) (es : List Entry) (now : ℕ) (key : List ℕ)
    → Holds c es
    → now < 2 ^ 64
    → InTime es
    → Replies c (get_limited c.time_interval now key (limit c.max_num es)) (get c now key)
unfolding get
get-Holds c es now key (ns, valid, eq) h times =
    let (c', ns', runs, valid', es', m, t) = remove_expired_nodes-Limits c ns valid in
    let (c'', replies, holds, m', t') =
      rw (t, es', eq) at
        (get_found-Replies c' ns' now key valid' h
          (rw (es', eq) (limit-InTime c.max_num es times))) in
    (c'', rw runs replies, holds, m' ∙ m, t')
