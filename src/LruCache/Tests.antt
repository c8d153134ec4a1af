-- ===== src/LruCache/Tests.antt =====
-- Tests of the code in store/cache/lru_cache/src/lru_cache.cc.
use csutil.Common.{ℕ, ◌≡◌, refl, arith, List, [], ◌∷◌, ◌⊎◌, Option, none, some}
use csutil.Common.Status.{Result, ok, err, ◌>>=◌, not_found}
use csutil.LruCache.{
  LruCache, Entry, new_lru_cache, init, put, get, del, destroy, remove_expired_nodes,
}
use csutil.LruCache.{
  get_at, refresh, insert_handle_node, remove_handle_node, set_next, set_pre, set_entry, load,
}
use csutil.LruCache.{free, new_node, remove_expired_loop, remove_oldest}
use csutil.LruCache.Map.{find, add, erase, same}
use csutil.LruCache.Contents.{Holds, put_list, get_limited, limit, lookup, remove}
use csutil.LruCache.Slots.{addresses}
use csutil.LruCache.Places.{Gives}
use csutil.LruCache.Put.{init-Holds, put-Holds}
use csutil.LruCache.Get.{Replies, get-Holds}
use csutil.LruCache.Del.{del-Holds}
use csutil.LruCache.Expire.{Limits, remove_expired_nodes-Limits}
use csutil.LruCache.Destroy.{Frees, destroy-Frees}

abbrev key1 : List ℕ
key1 = 65 ∷ []

abbrev key2 : List ℕ
key2 = 66 ∷ 67 ∷ []

abbrev value1 : List ℕ
value1 = 1 ∷ 2 ∷ []

-- Room for two entries, for ten seconds.
abbrev small : LruCache
small = init new_lru_cache 2 10

abbrev with_one :
    Gives small (put_list small.max_num 100 key1 value1 []) (put small 100 key1 value1)
with_one = put-Holds small [] 100 key1 value1 (init-Holds 2 10)

abbrev cache1 : LruCache
cache1 = with_one.0

abbrev list1 : List Entry
list1 = put_list small.max_num 100 key1 value1 []

abbrev cache1-Holds : Holds cache1 list1
cache1-Holds = with_one.2

put-Holds_example :
    Gives cache1 (put_list cache1.max_num 101 key2 value1 list1) (put cache1 101 key2 value1)
put-Holds_example = put-Holds cache1 list1 101 key2 value1 cache1-Holds

get-Holds_example :
    Replies cache1
      (get_limited cache1.time_interval 105 key1 (limit cache1.max_num list1))
      (get cache1 105 key1)
unfolding put_list lookup limit init
get-Holds_example = get-Holds cache1 list1 105 key1 cache1-Holds (omega arith) (omega arith, tt)

del-Holds_example :
    ((lookup key1 list1 ≡ none) × (del cache1 key1 ≡ err not_found))
    ⊎ ((e : Entry) × (lookup key1 list1 ≡ some e)
        × Gives cache1 (remove key1 list1) (del cache1 key1))
del-Holds_example = del-Holds cache1 list1 key1 cache1-Holds

remove_expired_nodes-Limits_example : Limits cache1 cache1-Holds.0 (remove_expired_nodes cache1)
remove_expired_nodes-Limits_example =
    remove_expired_nodes-Limits cache1 cache1-Holds.0 cache1-Holds.1

destroy-Frees_example : Frees cache1 (addresses cache1-Holds.0) (destroy cache1)
destroy-Frees_example = destroy-Frees cache1 cache1-Holds.0 cache1-Holds.1

-- Put twice more and Get: the oldest goes, and an entry that is too old is not found.
abbrev replies : ℕ → List ℕ → Result (Option (List ℕ))
replies now key = do
  c1 ← put small 100 key1 value1
  c2 ← put c1 101 key2 value1
  c3 ← put c2 102 [] value1
  (c4, r) ← get c3 now key
  ok r

replies_oldest : replies 103 key1 ≡ ok none
unfolding init new_lru_cache put get get_at refresh insert_handle_node remove_handle_node set_next
    set_pre set_entry load free new_node remove_expired_nodes remove_expired_loop remove_oldest find
    add erase same
replies_oldest = refl

replies_kept : replies 103 key2 ≡ ok (some value1)
unfolding init new_lru_cache put get get_at refresh insert_handle_node remove_handle_node set_next
    set_pre set_entry load free new_node remove_expired_nodes remove_expired_loop remove_oldest find
    add erase same
replies_kept = refl

replies_late : replies 112 key2 ≡ ok none
unfolding init new_lru_cache put get get_at refresh insert_handle_node remove_handle_node set_next
    set_pre set_entry load free new_node remove_expired_nodes remove_expired_loop remove_oldest find
    add erase same
replies_late = refl
