-- ===== src/Trie/Tests.antt =====
-- The trie of base/trie.cc with two words, "a" and "ab".
use csutil.Common.{ℕ, ◌≡◌, arith, List, [], ◌∷◌}
use csutil.Common.Status.{ok}
use csutil.Trie.{Trie, new_trie, init, put, get, del}
use csutil.Trie.Counts.{IsLower, same_word, prefix_of}
use csutil.Trie.Contents.{IsTrieOf, starting_with, equal_to, remove}
use csutil.Trie.Contents.{init-IsTrieOf, put-IsTrieOf, get-IsTrieOf, del-IsTrieOf}

abbrev word_a : List ℕ
word_a = b'a' ∷ []

abbrev word_ab : List ℕ
word_ab = b'a' ∷ b'b' ∷ []

abbrev a-IsLower : IsLower word_a
a-IsLower = ((omega arith, omega arith), tt)

abbrev ab-IsLower : IsLower word_ab
ab-IsLower = ((omega arith, omega arith), ((omega arith, omega arith), tt))

init-IsTrieOf_example : IsTrieOf (init new_trie) []
init-IsTrieOf_example = init-IsTrieOf new_trie

abbrev put_a : (trie : Trie) × (put (init new_trie) word_a ≡ ok trie) × IsTrieOf trie (word_a ∷ [])
put_a = put-IsTrieOf (init new_trie) [] word_a (init-IsTrieOf new_trie) a-IsLower (omega arith)

abbrev put_ab :
    (trie : Trie) × (put put_a.0 word_ab ≡ ok trie) × IsTrieOf trie (word_ab ∷ word_a ∷ [])
put_ab = put-IsTrieOf put_a.0 (word_a ∷ []) word_ab put_a.2 ab-IsLower (omega arith)

put-IsTrieOf_example :
    (trie : Trie) × (put put_a.0 word_ab ≡ ok trie) × IsTrieOf trie (word_ab ∷ word_a ∷ [])
put-IsTrieOf_example = put-IsTrieOf put_a.0 (word_a ∷ []) word_ab put_a.2 ab-IsLower (omega arith)

-- "a" was put once.
get-IsTrieOf_example : get put_ab.0 word_a ≡ ok 2
unfolding equal_to starting_with prefix_of same_word
get-IsTrieOf_example = get-IsTrieOf put_ab.0 (word_ab ∷ word_a ∷ []) word_a put_ab.2 a-IsLower

del-IsTrieOf_example :
    (trie : Trie) × (del put_ab.0 word_a ≡ ok trie)
    × IsTrieOf trie (remove word_a (word_ab ∷ word_a ∷ []))
unfolding equal_to same_word
del-IsTrieOf_example =
    del-IsTrieOf put_ab.0 (word_ab ∷ word_a ∷ []) word_a put_ab.2 a-IsLower (omega arith)
