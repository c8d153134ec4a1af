-- ===== src/Trie.antt =====
-- base/trie.cc. No item is shared, so the items are a tree. `index` is the list of its 26 places, of
-- which those behind the last item may be left out; frequencies are uint32_t and wrap.
pub mod Counts
pub mod Contents
mod Tests
use csutil.Common.{ℕ, zero, suc, ◌+◌, ◌-◌, ◌%◌, ◌^◌, leb, ltb, ◌==◌, ◌&&◌, Bool, true, false}
use csutil.Common.{if◌then◌else◌, List, [], ◌∷◌, ◌++◌, Option, none, some, not}
use csutil.Common.Status.{Result, ok, err, undefined, ◌>>=◌, ◌>>◌, fail_if}
use csutil.Common.Status.{not_init, not_found, not_all_lower_case_letter}

mutual
  -- index, frequency, full_word_frequency
  pub data TrieItem : Type 0 where
    item : Places → ℕ → ℕ → TrieItem

  pub data Places : Type 0 where
    end : Places
    null : Places → Places
    child : TrieItem → Places → Places

-- `index[pos]`
pub get_place : Places → ℕ → Option TrieItem
get_place end pos = none
get_place (null ps) zero = none
get_place (null ps) (suc pos) = get_place ps pos
get_place (child t ps) zero = some t
get_place (child t ps) (suc pos) = get_place ps pos

-- `index[pos] = t`
pub set_place : Places → ℕ → TrieItem → Places
set_place end zero t = child t end
set_place end (suc pos) t = null (set_place end pos t)
set_place (null ps) zero t = child t ps
set_place (null ps) (suc pos) t = null (set_place ps pos t)
set_place (child u ps) zero t = child t ps
set_place (child u ps) (suc pos) t = child u (set_place ps pos t)

pub inc : ℕ → ℕ
inc n = (n + 1) % 2 ^ 32

pub dec : ℕ → ℕ
dec n = (n + 2 ^ 32 - 1) % 2 ^ 32

abbrev pub cleared : TrieItem
cleared = item end 0 0

abbrev pub or_cleared : Option TrieItem → TrieItem
or_cleared none = cleared
or_cleared (some t) = t

-- The walk of Put along the key, from an item on.
pub put_item : TrieItem → List ℕ → TrieItem
put_item (item index frequency full) [] = item index (inc frequency) (inc full)
put_item (item index frequency full) (c ∷ key) =
    let next : TrieItem = or_cleared (get_place index (c - b'a')) in
    item (set_place index (c - b'a') (put_item next key)) (inc frequency) full

-- The walk of Get: the item at the end of the key.
pub find_item : TrieItem → List ℕ → Option TrieItem
find_item t [] = some t
find_item (item index frequency full) (c ∷ key) = elim (get_place index (c - b'a')) [
  | none ↦ none
  | some next ↦ find_item next key
]

-- The walk of Del along the key, where an assertion that fails stops the program: `index[pos]` must
-- not be NULL.
pub del_item : TrieItem → List ℕ → Result TrieItem
del_item (item index frequency full) [] = ok (item index (dec frequency) (dec full))
del_item (item index frequency full) (c ∷ key) = elim (get_place index (c - b'a')) [
  | none ↦ undefined
  | some next ↦ do
    next' ← del_item next key
    ok (item (set_place index (c - b'a') next') (dec frequency) full)
]

-- CheckIsLowerCaseLetter of base/util.cc.
pub check_is_lower_case_letter : List ℕ → Bool
check_is_lower_case_letter [] = true
check_is_lower_case_letter (c ∷ str) = leb b'a' c && leb c b'z' && check_is_lower_case_letter str

pub record Trie : Type 0 where
  pub root : TrieItem
  pub is_init : Bool

-- The constructor leaves the root NULL and `is_init_` false; Init sets both.
pub new_trie : Trie
new_trie = record { root = cleared; is_init = false }

pub init : Trie → Trie
init trie = record { root = cleared; is_init = true }

-- The tests at the start of Put, Get and Del.
pub check_key : Trie → List ℕ → Result (Unit {0})
check_key trie key = do
  fail_if (not trie.is_init) not_init
  fail_if (not (check_is_lower_case_letter key)) not_all_lower_case_letter

pub put : Trie → List ℕ → Result Trie
put trie key = do check_key trie key; ok (record trie { root = put_item trie.root key })

-- The output is the item's `frequency`, as in the source.
abbrev pub found : Option TrieItem → Result ℕ
found none = err not_found
found (some (item index frequency full)) = if full == 0 then err not_found else ok frequency

pub get : Trie → List ℕ → Result ℕ
get trie key = do check_key trie key; found (find_item trie.root key)

-- An assertion that fails stops the program.
pub del : Trie → List ℕ → Result Trie
del trie key = do
  fail_if (not trie.is_init) not_init
  full_word_frequency ← get trie key
  let walked = (do root' ← del_item trie.root key; ok (record trie { root = root' }))
  if full_word_frequency == 0 then undefined else walked
