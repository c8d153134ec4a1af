-- ===== src/ConsistentHash/Ring.antt =====
-- The entries of the ring of base/consistent_hash.cc: which node a point keeps, and which point
-- lower_bound finds.
use csutil.Common.{ℕ, ◌<◌, ◌≤◌, ◌≡◌, refl, ap, ◌∙◌, arith, ltb-false, ◌==◌, equal}
use csutil.Common.{
  if◌then◌else◌, true, false, List, [], ◌∷◌, Option, none, some, inl, inr, Option-cases,
}
use csutil.ConsistentHash.{
  VirtualNode, check_if_replace, find, put_point, lower_bound, or_begin, answer,
}
use mathlib.Core.Option.{some-injective, none-ne-some}
use mathlib.Core.Path.{subst}

-- CheckIfReplace keeps the old node: it is not below the new one.
abbrev pub Keeps : VirtualNode → VirtualNode → Type 0
Keeps old new = check_if_replace new old ≡ false

pub replaced-Keeps : (u v : VirtualNode) → check_if_replace u v ≡ true → Keeps u v
unfolding check_if_replace
replaced-Keeps u v h = ground arith

pub Keeps-trans : (u v w : VirtualNode) → Keeps u v → Keeps v w → Keeps u w
unfolding check_if_replace
Keeps-trans u v w h k = ground arith

pub Keeps-refl : (u : VirtualNode) → Keeps u u
unfolding check_if_replace
Keeps-refl u = ground arith

abbrev the_node : ℕ → ℕ → ℕ → VirtualNode
the_node i p w = record { ip = i; port = p; weight = w }

same_fields :
    (u v : VirtualNode)
    → Keeps u v
    → Keeps v u
    → (u.ip ≡ v.ip) × (u.port ≡ v.port) × (u.weight ≡ v.weight)
unfolding check_if_replace
same_fields u v h k = (ground arith, ground arith, ground arith)

same_node : (u v : VirtualNode) → u.ip ≡ v.ip → u.port ≡ v.port → u.weight ≡ v.weight → u ≡ v
same_node u v i p w =
    ap (λ x. the_node x u.port u.weight) i
    ∙ ap (λ x. the_node v.ip x u.weight) p
    ∙ ap (λ x. the_node v.ip v.port x) w

pub Keeps-antisym : (u v : VirtualNode) → Keeps u v → Keeps v u → u ≡ v
Keeps-antisym u v h k = let (i, p, w) = same_fields u v h k in same_node u v i p w

-- The node that a point keeps of the one that is there and a new one.
abbrev pub kept : Option VirtualNode → VirtualNode → VirtualNode
kept none new = new
kept (some old) new = if check_if_replace new old then new else old

pub find-put_point :
    (j h : ℕ) (n : VirtualNode) (ring : List (ℕ × VirtualNode))
    → find j (put_point h n ring) ≡ (if h == j then some (kept (find h ring) n) else find j ring)
unfolding find put_point
find-put_point j h n [] = ground arith
find-put_point j h n ((k, v) ∷ ring) = ground (arith, find-put_point j h n ring)

-- Going on from a hash key, no point of the ring comes before k: of those from the key on k is the
-- first, and those before the key count only where k is one of them.
abbrev pub Nearest : ℕ → ℕ → List (ℕ × VirtualNode) → Type 0
Nearest hash_key k ring =
    (j : ℕ) (w : VirtualNode)
    → find j ring ≡ some w
    → (hash_key ≤ j → (hash_key ≤ k) × (k ≤ j)) × (j < hash_key → k < hash_key → k ≤ j)

-- The first entry of the ring has the lowest point.
first-lowest :
    (j k : ℕ) (v w : VirtualNode) (ring : List (ℕ × VirtualNode))
    → find j ((k, v) ∷ ring) ≡ some w
    → k ≤ j
unfolding find
first-lowest j k v w ring e = ground arith

lower_bound-none :
    (h j : ℕ) (w : VirtualNode) (ring : List (ℕ × VirtualNode))
    → lower_bound h ring ≡ none
    → find j ring ≡ some w
    → j < h
unfolding lower_bound find
lower_bound-none h j w [] e f = ground arith
lower_bound-none h j w ((k, v) ∷ ring) e f = ground (arith, lower_bound-none h j w ring)

lower_bound-above :
    (h k : ℕ) (v : VirtualNode) (ring : List (ℕ × VirtualNode))
    → lower_bound h ring ≡ some (k, v)
    → h ≤ k
unfolding lower_bound
lower_bound-above h k v [] e = ground arith
lower_bound-above h k v ((l, u) ∷ ring) e = ground (arith, lower_bound-above h k v ring)

find-lower_bound :
    (h k : ℕ) (v : VirtualNode) (ring : List (ℕ × VirtualNode))
    → lower_bound h ring ≡ some (k, v)
    → find k ring ≡ some v
unfolding lower_bound find
find-lower_bound h k v [] e = ground arith
find-lower_bound h k v ((l, u) ∷ ring) e =
    ground (arith, find-lower_bound h k v ring, lower_bound-above h k v ring)

lower_bound-lowest :
    (h j k : ℕ) (v w : VirtualNode) (ring : List (ℕ × VirtualNode))
    → lower_bound h ring ≡ some (k, v)
    → find j ring ≡ some w
    → h ≤ j
    → k ≤ j
unfolding lower_bound find
lower_bound-lowest h j k v w [] e f p = ground arith
lower_bound-lowest h j k v w ((l, u) ∷ ring) e f p =
    ground (arith, lower_bound-lowest h j k v w ring)

find-first :
    (k : ℕ) (v : VirtualNode) (ring : List (ℕ × VirtualNode)) → find k ((k, v) ∷ ring) ≡ some v
unfolding find
find-first k v ring = rw (ltb-false k k (omega arith), equal k) refl

-- An entry of the ring at the nearest point.
abbrev Found : List (ℕ × VirtualNode) → ℕ → ℕ × VirtualNode → Type 0
Found ring h entry = (find (entry.0) ring ≡ some (entry.1)) × Nearest h (entry.0) ring

or_begin-Found :
    (h : ℕ) (first : ℕ × VirtualNode) (ring : List (ℕ × VirtualNode))
    → Found (first ∷ ring) h (or_begin (lower_bound h (first ∷ ring)) first)
unfolding or_begin
or_begin-Found h (l, u) ring = elim (Option-cases (lower_bound h ((l, u) ∷ ring))) [
  | inl none_above ↦ rw none_above (
    find-first l u ring,
    λ j w f.
        let below = lower_bound-none h j w ((l, u) ∷ ring) none_above f in
        (λ p. absurd (omega (arith, below, p)), λ p q. first-lowest j l u w ring f),
  )
  | inr ((m, v), above) ↦
      let over = lower_bound-above h m v ((l, u) ∷ ring) above in
      rw above (
        find-lower_bound h m v ((l, u) ∷ ring) above,
        λ j w f. (
          λ p. (over, lower_bound-lowest h j m v w ((l, u) ∷ ring) above f p),
          λ p q. absurd (omega (arith, over, q)),
        ),
      )
]

-- What answer finds is on the ring, and is the nearest point.
pub answer-Nearest :
    (h k : ℕ) (v : VirtualNode) (ring : List (ℕ × VirtualNode))
    → answer ring h ≡ some (k, v)
    → (find k ring ≡ some v) × Nearest h k ring
unfolding answer
answer-Nearest h k v [] e = absurd (none-ne-some (k, v) e)
answer-Nearest h k v (first ∷ ring) e =
    subst (λ entry. Found (first ∷ ring) h entry)
      (some-injective (or_begin (lower_bound h (first ∷ ring)) first) (k, v) e)
      (or_begin-Found h first ring)

-- One ring's nearest point is no other than another ring's, where all the points of the other are
-- points of the first.
pub Nearest-unique :
    (h k l : ℕ) (v w : VirtualNode) (ring : List (ℕ × VirtualNode))
    → find k ring ≡ some v
    → find l ring ≡ some w
    → Nearest h k ring
    → Nearest h l ring
    → k ≡ l
Nearest-unique h k l v w ring fk fl nk nl = ground (arith, nk l w fl, nl k v fk)

-- A ring that is not empty answers every key.
pub answer-some :
    (h j : ℕ) (w : VirtualNode) (ring : List (ℕ × VirtualNode))
    → find j ring ≡ some w
    → (k : ℕ) × (v : VirtualNode) × (answer ring h ≡ some (k, v))
unfolding answer find
answer-some h j w [] e = ground arith
answer-some h j w (first ∷ ring) e =
    let entry = or_begin (lower_bound h (first ∷ ring)) first in (entry.0, entry.1, refl)
