-- ===== src/Trie/Contents.antt =====
-- The trie of base/trie.cc as a list of words with repetitions.
use csutil.Common.{ℕ, ◌+◌, ◌%◌, ◌^◌, ◌<◌, ◌≤◌, ◌≡◌, refl, arith}
use csutil.Common.{◌==◌, true, if◌then◌else◌, unequal, Option-cases, inl, inr}
use csutil.Common.{List, [], ◌∷◌, length, Option, none, some}
use csutil.Common.Status.{ok, err, not_found}
use csutil.Trie.{TrieItem, item, get_place, inc, dec, cleared, put_item, find_item, del_item, Trie}
use csutil.Trie.{check_is_lower_case_letter, init, check_key, put, found, get, del}
use csutil.Trie.Counts.{frequency_of, full_of, IsLower, prefix_of, same_word}
use csutil.Trie.Counts.{deleted, del_item-find_item}
use csutil.Trie.Counts.{frequency-put_item, full-put_item, frequency-deleted, full-deleted}

-- How many words start with the key, and how many are the key.
unfoldable pub starting_with : List ℕ → List (List ℕ) → ℕ
starting_with key [] = 0
starting_with key (w ∷ words) = (if prefix_of key w then 1 else 0) + starting_with key words

unfoldable pub equal_to : List ℕ → List (List ℕ) → ℕ
equal_to key [] = 0
equal_to key (w ∷ words) = (if same_word key w then 1 else 0) + equal_to key words

-- The words without one that is the key.
pub remove : List ℕ → List (List ℕ) → List (List ℕ)
remove key [] = []
remove key (w ∷ words) = if same_word key w then words else w ∷ remove key words

-- The counts in the items are those of the words.
pub record Holds (t : TrieItem) (words : List (List ℕ)) : Type 0 where
  pub frequency :
      (key : List ℕ)
      → IsLower key
      → frequency_of (find_item t key) ≡ starting_with key words % 2 ^ 32
  pub full : (key : List ℕ) → IsLower key → full_of (find_item t key) ≡ equal_to key words % 2 ^ 32

cleared-Holds : Holds cleared []
unfolding find_item get_place starting_with equal_to
cleared-Holds = record { frequency = λ key h. at_key key; full = λ key h. full_at key }
  where
    at_key : (key : List ℕ) → frequency_of (find_item cleared key) ≡ starting_with key [] % 2 ^ 32
    at_key [] = refl
    at_key (c ∷ key) = refl

    full_at : (key : List ℕ) → full_of (find_item cleared key) ≡ equal_to key [] % 2 ^ 32
    full_at [] = refl
    full_at (c ∷ key) = refl

put_item-Holds :
    (t : TrieItem) (words : List (List ℕ)) (word : List ℕ)
    → IsLower word
    → Holds t words
    → Holds (put_item t word) (word ∷ words)
unfolding starting_with equal_to inc
put_item-Holds t words word hw holds = record {
  frequency = λ key hk. ground (arith, frequency-put_item t word key hw hk, holds.frequency key hk);
  full = λ key hk. ground (arith, full-put_item t word key hw hk, holds.full key hk);
}

-- Taking a word out lowers the counts that it was part of.
same_word→eq : (key word : List ℕ) → same_word key word ≡ true → key ≡ word
unfolding same_word
same_word→eq [] [] h = refl
same_word→eq [] (d ∷ word) h = cc
same_word→eq (c ∷ key) [] h = cc
same_word→eq (c ∷ key) (d ∷ word) h = ground (arith, same_word→eq key word)

starting_with-remove :
    (key word : List ℕ) (words : List (List ℕ))
    → 0 < equal_to word words
    → starting_with key words
      ≡ (if prefix_of key word then 1 else 0) + starting_with key (remove word words)
unfolding starting_with equal_to remove
starting_with-remove key word [] h = absurd (omega arith)
starting_with-remove key word (w ∷ words) h =
    ground (arith, same_word→eq word w, starting_with-remove key word words)

equal_to-remove :
    (key word : List ℕ) (words : List (List ℕ))
    → 0 < equal_to word words
    → equal_to key words ≡ (if same_word key word then 1 else 0) + equal_to key (remove word words)
unfolding equal_to remove
equal_to-remove key word [] h = absurd (omega arith)
equal_to-remove key word (w ∷ words) h =
    ground (arith, same_word→eq word w, equal_to-remove key word words)

deleted-Holds :
    (t : TrieItem) (words : List (List ℕ)) (word : List ℕ)
    → IsLower word
    → 0 < equal_to word words
    → Holds t words
    → Holds (deleted t word) (remove word words)
unfolding dec
deleted-Holds t words word hw some_word holds = record {
  frequency = λ key hk. ground (
    arith,
    frequency-deleted t word key hw hk,
    holds.frequency key hk,
    starting_with-remove key word words some_word,
  );
  full = λ key hk. ground (
    arith,
    full-deleted t word key hw hk,
    holds.full key hk,
    equal_to-remove key word words some_word,
  );
}

same_word→prefix_of : (key word : List ℕ) → same_word key word ≡ true → prefix_of key word ≡ true
unfolding same_word prefix_of
same_word→prefix_of [] word h = refl
same_word→prefix_of (c ∷ key) [] h = cc
same_word→prefix_of (c ∷ key) (d ∷ word) h = ground (arith, same_word→prefix_of key word)

counts_le :
    (key : List ℕ) (words : List (List ℕ))
    → (equal_to key words ≤ starting_with key words) × (starting_with key words ≤ length words)
unfolding equal_to starting_with
counts_le key [] = (omega arith, omega arith)
counts_le key (w ∷ words) =
    let (less, short) = counts_le key words in
    (ground (arith, same_word→prefix_of key w), ground arith)

length-remove : (key : List ℕ) (words : List (List ℕ)) → length (remove key words) ≤ length words
unfolding remove
length-remove key [] = omega arith
length-remove key (w ∷ words) = ground (arith, length-remove key words)

check-IsLower : (key : List ℕ) → IsLower key → check_is_lower_case_letter key ≡ true
unfolding check_is_lower_case_letter
check-IsLower [] h = refl
check-IsLower (c ∷ key) (hc, h) = ground (arith, check-IsLower key h)

check_key_passes :
    (trie : Trie) (key : List ℕ) → trie.is_init ≡ true → IsLower key → check_key trie key ≡ ok tt
unfolding check_key
check_key_passes trie key ready low = ground (arith, check-IsLower key low)

found_lem :
    (o : Option TrieItem)
    → found o ≡ (if full_of o == 0 then err not_found else ok (frequency_of o))
found_lem none = refl
found_lem (some (item index frequency full)) = refl

-- A trie that is ready for use and holds the words, fewer than 2 ^ 32 of them.
pub record IsTrieOf (trie : Trie) (words : List (List ℕ)) : Type 0 where
  pub ready : trie.is_init ≡ true
  pub holds : Holds trie.root words
  pub few : length words < 2 ^ 32

-- Init gives a trie with no words.
pub init-IsTrieOf : (trie : Trie) → IsTrieOf (init trie) []
unfolding init
init-IsTrieOf trie = record { ready = refl; holds = cleared-Holds; few = omega arith }

module _ (trie : Trie) (words : List (List ℕ)) (key : List ℕ) (valid : IsTrieOf trie words)
    (low : IsLower key) where
  -- Put of a lower-case key on an initialised trie that holds fewer than 2 ^ 32 - 1 words succeeds and
  -- gives one that holds the key as well.
  pub put-IsTrieOf :
      length words + 1 < 2 ^ 32
      → (trie' : Trie) × (put trie key ≡ ok trie') × IsTrieOf trie' (key ∷ words)
  unfolding put
  put-IsTrieOf room = (
    record trie { root = put_item trie.root key },
    rw (check_key_passes trie key valid.ready low),
    record {
      ready = valid.ready;
      holds = put_item-Holds trie.root words key low valid.holds;
      few = omega arith;
    },
  )

  -- Get of a lower-case key on an initialised trie finds exactly the words that it holds. Its output
  -- is the number of words that start with the key, longer ones included.
  pub get-IsTrieOf :
      get trie key
      ≡ (if equal_to key words == 0 then err not_found else ok (starting_with key words))
  unfolding get
  get-IsTrieOf =
      rw (check_key_passes trie key valid.ready low, found_lem)
        (ground (
          arith,
          valid.holds.frequency key low,
          valid.holds.full key low,
          counts_le key words,
          valid.few,
        ))

  del_item_passes : 0 < equal_to key words → del_item trie.root key ≡ ok (deleted trie.root key)
  del_item_passes some_word = elim (Option-cases (find_item trie.root key)) [
    | inl absent ↦ absurd (
        omega (
          arith,
          rw absent at (valid.holds.full key low),
          some_word,
          counts_le key words,
          valid.few,
        ))
    | inr (u, there) ↦ del_item-find_item trie.root u key there
  ]

  -- Del of a word that an initialised trie holds takes one occurrence of it out, and no assertion
  -- fails.
  pub del-IsTrieOf :
      0 < equal_to key words
      → (trie' : Trie) × (del trie key ≡ ok trie') × IsTrieOf trie' (remove key words)
  unfolding del
  del-IsTrieOf some_word = (
    record trie { root = deleted trie.root key },
    rw
        (
          get-IsTrieOf,
          unequal (equal_to key words) 0 (λ e. omega (arith, e, some_word)),
          unequal (starting_with key words) 0
              (λ e. omega (arith, e, some_word, counts_le key words)),
          del_item_passes some_word,
          valid.ready,
        )
        refl,
    record {
      ready = valid.ready;
      holds = deleted-Holds trie.root words key low some_word valid.holds;
      few = omega (arith, length-remove key words, valid.few);
    },
  )
