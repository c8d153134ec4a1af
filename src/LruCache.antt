-- ===== src/LruCache.antt =====
-- store/cache/lru_cache/src/lru_cache.cc: LRUCache over an explicit memory of nodes. An address is a
-- number; 0 is NULL and 1 the node `cur_list_` inside the object. The calls run under its mutex, so
-- they do not interleave. `time(NULL)` is an argument, and `new` gives an address that was never used.
pub mod Ring
pub mod Map
pub mod Links
pub mod Slots
pub mod Contents
pub mod Steps
pub mod Expire
pub mod Places
pub mod Put
pub mod Get
pub mod Del
pub mod Destroy
mod Tests
use csutil.Common.{ℕ, zero, suc, ◌+◌, ◌-◌, ◌%◌, ◌^◌, ltb, ◌==◌, ◌&&◌, not, if◌then◌else◌}
use csutil.Common.{Bool, true, false, List, [], ◌∷◌, length, Option, none, some}
use csutil.Common.Status.{Result, ok, err, undefined, ◌>>=◌, ◌>>◌, not_found}
use Ring.{update}
use Map.{find, add, erase}

pub record Entry : Type 0 where
  pub key : List ℕ
  pub value : List ℕ
  pub access_time : ℕ

-- A node is its two links and its entry; a node that is not allocated has no entry.
pub record LruCache : Type 0 where
  pub max_num : ℕ
  pub time_interval : ℕ
  pub caches : List (List ℕ × ℕ)
  pub next : ℕ → ℕ
  pub pre : ℕ → ℕ
  pub entry : ℕ → Option Entry
  pub fresh : ℕ

abbrev pub cur_list : ℕ
cur_list = 1

pub new_lru_cache : LruCache
new_lru_cache = record {
  max_num = 0;
  time_interval = 0;
  caches = [];
  next = update (λ _. 0) cur_list cur_list;
  pre = update (λ _. 0) cur_list cur_list;
  entry = update (λ _. none) cur_list (some (record { key = []; value = []; access_time = 0 }));
  fresh = 2;
}

pub init : LruCache → ℕ → ℕ → LruCache
init c max_num time_interval = record c { max_num = max_num; time_interval = time_interval }

-- An access through a pointer, which is undefined where no node is allocated.
abbrev pub or_undefined : Option Entry → Result Entry
or_undefined none = undefined
or_undefined (some e) = ok e

pub load : LruCache → ℕ → Result Entry
load c p = or_undefined (c.entry p)

pub set_next : LruCache → ℕ → ℕ → Result LruCache
set_next c p q = do load c p; ok (record c { next = update c.next p q })

pub set_pre : LruCache → ℕ → ℕ → Result LruCache
set_pre c p q = do load c p; ok (record c { pre = update c.pre p q })

pub set_entry : LruCache → ℕ → Entry → Result LruCache
set_entry c p e = do load c p; ok (record c { entry = update c.entry p (some e) })

-- `delete`, which is undefined on the node inside the object.
pub free : LruCache → ℕ → Result LruCache
free c p = do
  load c p
  if p == cur_list then undefined else ok (record c { entry = update c.entry p none })

pub remove_handle_node : LruCache → ℕ → Result LruCache
remove_handle_node c cur_node = do
  load c cur_node
  c' ← set_next c (c.pre cur_node) (c.next cur_node)
  set_pre c' (c'.next cur_node) (c'.pre cur_node)

pub insert_handle_node : LruCache → ℕ → Result LruCache
insert_handle_node c cur_node = do
  c1 ← set_next c cur_node (c.next cur_list)
  c2 ← set_next c1 cur_list cur_node
  load c2 (c2.next cur_node)
  c3 ← set_pre c2 cur_node (c2.pre (c2.next cur_node))
  set_pre c3 (c3.next cur_node) cur_node

-- The body of the loop in RemoveExpiredNodes.
pub remove_oldest : LruCache → Result LruCache
remove_oldest c = do
  let cur_node = c.pre cur_list
  c' ← remove_handle_node c cur_node
  e ← load c' cur_node
  free (record c' { caches = erase e.key c'.caches }) cur_node

-- The loop, with the rounds that are left; a loop that needs more of them is undefined.
pub remove_expired_loop : ℕ → LruCache → Result LruCache
remove_expired_loop zero c = if ltb c.max_num (length c.caches) then undefined else ok c
remove_expired_loop (suc rounds) c =
    let more = remove_oldest c >>= λ c'. remove_expired_loop rounds c' in
    if ltb c.max_num (length c.caches) then more else ok c

pub remove_expired_nodes : LruCache → Result LruCache
remove_expired_nodes c =
    if not (c.max_num == 0) && ltb c.max_num (length c.caches)
    then remove_expired_loop (length c.caches) c
    else ok c

-- `new HandleNode()`, with its links NULL.
pub new_node : LruCache → Entry → LruCache
new_node c e = record c {
  next = update c.next c.fresh 0;
  pre = update c.pre c.fresh 0;
  entry = update c.entry c.fresh (some e);
  fresh = c.fresh + 1;
}

-- Moving a node to the front, with another entry.
pub refresh : LruCache → ℕ → Entry → Result LruCache
refresh c p e = do c1 ← set_entry c p e; c2 ← remove_handle_node c1 p; insert_handle_node c2 p

pub put : LruCache → ℕ → List ℕ → List ℕ → Result LruCache
put c now key value = elim (find key c.caches) [
  | some p ↦ do e ← load c p; refresh c p (record e { value = value; access_time = now })
  | none ↦ do
    let cur_node = c.fresh
    c' ←
        insert_handle_node (new_node c (record { key = key; value = value; access_time = now }))
          cur_node
    remove_expired_nodes (record c' { caches = add key cur_node c'.caches })
]

-- The reply is the value, or none where the code returns kNotFound.
pub get_at : LruCache → ℕ → ℕ → List ℕ → Result (LruCache × Option (List ℕ))
get_at c now p key = do
  e ← load c p
  if not (c.time_interval == 0) && ltb c.time_interval ((now + 2 ^ 64 - e.access_time) % 2 ^ 64)
      then (do
        c1 ← remove_handle_node c p
        c2 ← free c1 p
        ok (record c2 { caches = erase key c2.caches }, none))
      else (do c1 ← refresh c p (record e { access_time = now }); ok (c1, some e.value))

pub get : LruCache → ℕ → List ℕ → Result (LruCache × Option (List ℕ))
get c now key = do
  c' ← remove_expired_nodes c
  elim (find key c'.caches) [ some p ↦ get_at c' now p key | none ↦ ok (c', none) ]

pub del : LruCache → List ℕ → Result LruCache
del c key = elim (find key c.caches) [
  | some p ↦ do
    c1 ← remove_handle_node c p
    c2 ← free c1 p
    ok (record c2 { caches = erase key c2.caches })
  | none ↦ err not_found
]

-- The loop in ~LRUCache, with the rounds that are left.
pub destroy_loop : ℕ → LruCache → Result LruCache
destroy_loop zero c = if c.next cur_list == cur_list then ok c else undefined
destroy_loop (suc rounds) c =
    let cur_node = c.next cur_list in
    let more = (do
      c1 ← remove_handle_node c cur_node
      c2 ← free c1 cur_node
      destroy_loop rounds c2) in
    if cur_node == cur_list then ok c else more

pub destroy : LruCache → Result LruCache
destroy c = destroy_loop (length c.caches) (record c { caches = [] })
