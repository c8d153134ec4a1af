-- ===== src/LruCache/Contents.antt =====
-- The cache of store/cache/lru_cache as a list of entries, the most recent first: what the list has
-- to do with the memory, and what Put, Get and Del come to on the list.
use csutil.Common.{ℕ, ◌+◌, ◌^◌, ◌<◌, ◌≡◌, List, [], ◌∷◌, All, length, take}
use csutil.Common.{Option, none, some, Bool, if◌then◌else◌, ltb, leb, ◌==◌, ◌&&◌, not}
use csutil.LruCache.{LruCache, Entry, cur_list}
use csutil.LruCache.Map.{find, HasUniqueKeys, same}
use csutil.LruCache.Links.{IsRing}
use csutil.LruCache.Slots.{Slots, addresses, entries, address, HasDistinctKeys}

pub record IsCache (c : LruCache) (ns : Slots) : Type 0 where
  pub ring : IsRing c (addresses ns)
  pub stored : All (λ (n : ℕ × Entry). c.entry n.0 ≡ some n.1) ns
  pub unused : All (λ p. p < c.fresh) (cur_list ∷ addresses ns)
  pub keys : (key : List ℕ) → find key c.caches ≡ address key ns
  pub distinct : HasDistinctKeys ns
  pub unique : HasUniqueKeys c.caches
  pub count : length c.caches ≡ length ns

-- The cache is well formed and holds the entries in this order.
abbrev pub Holds : LruCache → List Entry → Type 0
Holds c es = (ns : Slots) × IsCache c ns × (entries ns ≡ es)

-- The entry under a key, and the list without it.
unfoldable pub lookup : List ℕ → List Entry → Option Entry
lookup key [] = none
lookup key (e ∷ es) = if same e.key key then some e else lookup key es

unfoldable pub remove : List ℕ → List Entry → List Entry
remove key [] = []
remove key (e ∷ es) = if same e.key key then es else e ∷ remove key es

-- At most `max_num` entries, if that is not 0.
unfoldable pub limit : ℕ → List Entry → List Entry
limit max_num es = if max_num == 0 then es else take max_num es

-- Whether an entry is too old: its time and the interval lie before `now`, if there is an interval.
-- An entry whose time is ahead of the clock counts as 2 ^ 64 seconds old, less what it is ahead by.
abbrev pub is_expired : ℕ → ℕ → Entry → Bool
is_expired time_interval now e =
    not (time_interval == 0)
    && (if leb e.access_time now
        then ltb (e.access_time + time_interval) now
        else ltb (time_interval + e.access_time) (now + 2 ^ 64))

-- The list after Put: an entry that is there is refreshed and comes to the front, a new one comes to
-- the front and the oldest goes.
unfoldable pub put_list : ℕ → ℕ → List ℕ → List ℕ → List Entry → List Entry
put_list max_num now key value es =
    let new : Entry = record { key = key; value = value; access_time = now } in
    elim (lookup key es) [ some e ↦ new ∷ remove key es | none ↦ limit max_num (new ∷ es) ]

-- The list and the reply after Get, which limits the list first.
unfoldable pub get_limited : ℕ → ℕ → List ℕ → List Entry → List Entry × Option (List ℕ)
get_limited time_interval now key es = elim (lookup key es) [
  | none ↦ (es, none)
  | some e ↦
      if is_expired time_interval now e
      then (remove key es, none)
      else (record e { access_time = now } ∷ remove key es, some e.value)
]
