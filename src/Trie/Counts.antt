-- ===== src/Trie/Counts.antt =====
-- What Put and Del of base/trie.cc change in the counts of every item.
use csutil.Common.{ℕ, zero, suc, ◌-◌, ◌≤◌, ◌≡◌, ◌≢◌, refl, sym, ap, arith, ◌∙◌, inl, inr}
use csutil.Common.{◌==◌, ◌&&◌, Bool, true, false, if◌then◌else◌, Bool-cases, Option-cases, ==_iff}
use csutil.Common.{List, [], ◌∷◌, All, Option, none, some}
use csutil.Trie.{TrieItem, item, Places, end, null, child, get_place, set_place, inc, dec, cleared}
use csutil.Common.Status.{ok}
use mathlib.Core.Option.{none-ne-some}
use csutil.Trie.{or_cleared, put_item, find_item, del_item}

get_place-set_place :
    (ps : Places) (i j : ℕ) (t : TrieItem)
    → get_place (set_place ps i t) j ≡ (if i == j then some t else get_place ps j)
unfolding get_place set_place
get_place-set_place end zero zero t = ground arith
get_place-set_place end zero (suc j) t = ground arith
get_place-set_place end (suc i) zero t = ground arith
get_place-set_place end (suc i) (suc j) t = ground (arith, get_place-set_place end i j t)
get_place-set_place (null ps) zero zero t = ground arith
get_place-set_place (null ps) zero (suc j) t = ground arith
get_place-set_place (null ps) (suc i) zero t = ground arith
get_place-set_place (null ps) (suc i) (suc j) t = ground (arith, get_place-set_place ps i j t)
get_place-set_place (child u ps) zero zero t = ground arith
get_place-set_place (child u ps) zero (suc j) t = ground arith
get_place-set_place (child u ps) (suc i) zero t = ground arith
get_place-set_place (child u ps) (suc i) (suc j) t = ground (arith, get_place-set_place ps i j t)

-- The two counts at the end of a key, 0 where the trie has no item there.
abbrev pub frequency_of : Option TrieItem → ℕ
frequency_of none = 0
frequency_of (some (item index frequency full)) = frequency

abbrev pub full_of : Option TrieItem → ℕ
full_of none = 0
full_of (some (item index frequency full)) = full

abbrev pub IsLower : List ℕ → Type 0
IsLower key = All (λ c. (b'a' ≤ c) × (c ≤ b'z')) key

-- Is the first list a prefix of the second one, or the same?
unfoldable pub prefix_of : List ℕ → List ℕ → Bool
prefix_of [] word = true
prefix_of (c ∷ key) [] = false
prefix_of (c ∷ key) (d ∷ word) = c == d && prefix_of key word

unfoldable pub same_word : List ℕ → List ℕ → Bool
same_word [] [] = true
same_word [] (d ∷ word) = false
same_word (c ∷ key) [] = false
same_word (c ∷ key) (d ∷ word) = c == d && same_word key word

-- One step of the walk of Get, through a place that was written and past it.
find_written :
    (ps : Places) (f w c d : ℕ) (u : TrieItem) (key : List ℕ)
    → c ≡ d
    → find_item (item (set_place ps (d - b'a') u) f w) (c ∷ key) ≡ find_item u key
unfolding find_item
find_written ps f w c d u key same = ground (arith, get_place-set_place ps (d - b'a') (c - b'a') u)

find_unwritten :
    (ps : Places) (f w g v c d : ℕ) (u : TrieItem) (key : List ℕ)
    → b'a' ≤ c
    → b'a' ≤ d
    → c ≢ d
    → find_item (item (set_place ps (d - b'a') u) f w) (c ∷ key) ≡ find_item (item ps g v) (c ∷ key)
unfolding find_item
find_unwritten ps f w g v c d u key hc hd other =
    ground (arith, get_place-set_place ps (d - b'a') (c - b'a') u)

-- An item that is not there counts as a cleared one.
find_below :
    (ps : Places) (f w c : ℕ) (key : List ℕ)
    → (frequency_of (find_item (or_cleared (get_place ps (c - b'a'))) key)
        ≡ frequency_of (find_item (item ps f w) (c ∷ key)))
      × (full_of (find_item (or_cleared (get_place ps (c - b'a'))) key)
          ≡ full_of (find_item (item ps f w) (c ∷ key)))
unfolding find_item
find_below ps f w c key = elim (Option-cases (get_place ps (c - b'a'))) [
  | inl absent ↦ rw (absent, find_item) (nothing key)
  | inr (t, present) ↦ rw (present, find_item) (refl, refl)
]
  where
    nothing :
        (key : List ℕ)
        → (frequency_of (find_item cleared key) ≡ 0) × (full_of (find_item cleared key) ≡ 0)
    nothing [] = (refl, refl)
    nothing (c ∷ key) = unfold get_place in (refl, refl)

-- The frequency of an item on the way of a word changes, and no other; so does the full word
-- frequency at its end.
pub frequency-put_item :
    (t : TrieItem) (word key : List ℕ)
    → IsLower word
    → IsLower key
    → frequency_of (find_item (put_item t word) key) ≡ (
        if prefix_of key word
        then inc (frequency_of (find_item t key))
        else frequency_of (find_item t key))
unfolding put_item prefix_of
frequency-put_item (item ps f w) [] [] hw hk = unfold find_item in refl
frequency-put_item (item ps f w) [] (c ∷ key) hw hk = unfold find_item in refl
frequency-put_item (item ps f w) (d ∷ word) [] hw hk = unfold find_item in refl
frequency-put_item (item ps f w) (d ∷ word) (c ∷ key) ((d1, d2), hw) ((c1, c2), hk) =
    elim (Bool-cases (c == d)) [
      | inl same ↦
          rw (same, ← (==_iff c d).0 same)
            (ap frequency_of (find_written ps (inc f) w c c _ key refl)
              ∙ frequency-put_item (or_cleared (get_place ps (c - b'a'))) word key hw hk
              ∙ rw (find_below ps f w c key).0)
      | inr other ↦
          rw other
            (ap frequency_of (find_unwritten ps (inc f) w f w c d _ key c1 d1 (λ e. ground arith)))
    ]

pub full-put_item :
    (t : TrieItem) (word key : List ℕ)
    → IsLower word
    → IsLower key
    → full_of (find_item (put_item t word) key)
      ≡ (if same_word key word then inc (full_of (find_item t key)) else full_of (find_item t key))
unfolding put_item same_word
full-put_item (item ps f w) [] [] hw hk = unfold find_item in refl
full-put_item (item ps f w) [] (c ∷ key) hw hk = unfold find_item in refl
full-put_item (item ps f w) (d ∷ word) [] hw hk = unfold find_item in refl
full-put_item (item ps f w) (d ∷ word) (c ∷ key) ((d1, d2), hw) ((c1, c2), hk) =
    elim (Bool-cases (c == d)) [
      | inl same ↦
          rw (same, ← (==_iff c d).0 same)
            (ap full_of (find_written ps (inc f) w c c _ key refl)
              ∙ full-put_item (or_cleared (get_place ps (c - b'a'))) word key hw hk
              ∙ rw (find_below ps f w c key).1)
      | inr other ↦
          rw other
            (ap full_of (find_unwritten ps (inc f) w f w c d _ key c1 d1 (λ e. ground arith)))
    ]

-- The trie after a walk of Del that no assertion stops.
unfoldable pub deleted : TrieItem → List ℕ → TrieItem
deleted (item index frequency full) [] = item index (dec frequency) (dec full)
deleted (item index frequency full) (c ∷ key) =
    let next : TrieItem = or_cleared (get_place index (c - b'a')) in
    item (set_place index (c - b'a') (deleted next key)) (dec frequency) full

-- The walk of Del goes through where that of Get finds an item.
pub del_item-find_item :
    (t u : TrieItem) (key : List ℕ) → find_item t key ≡ some u → del_item t key ≡ ok (deleted t key)
unfolding find_item del_item deleted
del_item-find_item (item ps f w) u [] e = refl
del_item-find_item (item ps f w) u (c ∷ key) e = elim (Option-cases (get_place ps (c - b'a'))) [
  | inl absent ↦ absurd (none-ne-some u (sym (rw (absent, find_item) refl) ∙ e))
  | inr (t, present) ↦
      rw (present, del_item, deleted, del_item-find_item t u key (rw (present, find_item) at e))
        refl
]

pub frequency-deleted :
    (t : TrieItem) (word key : List ℕ)
    → IsLower word
    → IsLower key
    → frequency_of (find_item (deleted t word) key) ≡ (
        if prefix_of key word
        then dec (frequency_of (find_item t key))
        else frequency_of (find_item t key))
unfolding deleted prefix_of
frequency-deleted (item ps f w) [] [] hw hk = unfold find_item in refl
frequency-deleted (item ps f w) [] (c ∷ key) hw hk = unfold find_item in refl
frequency-deleted (item ps f w) (d ∷ word) [] hw hk = unfold find_item in refl
frequency-deleted (item ps f w) (d ∷ word) (c ∷ key) ((d1, d2), hw) ((c1, c2), hk) =
    elim (Bool-cases (c == d)) [
      | inl same ↦
          rw (same, ← (==_iff c d).0 same)
            (ap frequency_of (find_written ps (dec f) w c c _ key refl)
              ∙ frequency-deleted (or_cleared (get_place ps (c - b'a'))) word key hw hk
              ∙ rw (find_below ps f w c key).0)
      | inr other ↦
          rw other
            (ap frequency_of (find_unwritten ps (dec f) w f w c d _ key c1 d1 (λ e. ground arith)))
    ]

pub full-deleted :
    (t : TrieItem) (word key : List ℕ)
    → IsLower word
    → IsLower key
    → full_of (find_item (deleted t word) key)
      ≡ (if same_word key word then dec (full_of (find_item t key)) else full_of (find_item t key))
unfolding deleted same_word
full-deleted (item ps f w) [] [] hw hk = unfold find_item in refl
full-deleted (item ps f w) [] (c ∷ key) hw hk = unfold find_item in refl
full-deleted (item ps f w) (d ∷ word) [] hw hk = unfold find_item in refl
full-deleted (item ps f w) (d ∷ word) (c ∷ key) ((d1, d2), hw) ((c1, c2), hk) =
    elim (Bool-cases (c == d)) [
      | inl same ↦
          rw (same, ← (==_iff c d).0 same)
            (ap full_of (find_written ps (dec f) w c c _ key refl)
              ∙ full-deleted (or_cleared (get_place ps (c - b'a'))) word key hw hk
              ∙ rw (find_below ps f w c key).1)
      | inr other ↦
          rw other
            (ap full_of (find_unwritten ps (dec f) w f w c d _ key c1 d1 (λ e. ground arith)))
    ]
