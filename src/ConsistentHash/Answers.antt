-- ===== src/ConsistentHash/Answers.antt =====
-- Which node Get of base/consistent_hash.cc answers, and how Put and Del change the answers.
use csutil.Common.{ℕ, ◌<◌, ◌≡◌, refl, sym, ap, ◌∙◌, arith, true, false}
use csutil.Common.{List, [], Option, none, some, ◌⊎◌, inl, inr, Bool-cases, Option-cases}
use csutil.Common.Status.{Result, ok, err, undefined, ring_empty}
use csutil.Hash.{murmur32}
use csutil.ConsistentHash.{VirtualNode, ConsistentHash, k_consistent_hash_seed, point, find}
use csutil.ConsistentHash.{
  has_weight, find_ip, set_ip, erase_ip, put_nodes, balance_hash_ring, put, del, answer, node_of,
  get,
}
use csutil.ConsistentHash.Ring.{
  Keeps, Keeps-antisym, Nearest, answer-Nearest, Nearest-unique, answer-some,
}
use csutil.ConsistentHash.Points.{In, VirtualNodes, balanced-Summary}
use csutil.ConsistentHash.Nodes.{Ascending, SameKey, set_ip-In, erase_ip-In}
use csutil.ConsistentHash.WellFormed.{IsWellFormed}
use mathlib.Core.Option.{some-injective, none-ne-some}
use mathlib.Core.Path.{subst}
use native.Mathlib.Decide.{ℕ_discrete}

abbrev ring_of : List VirtualNode → List (ℕ × VirtualNode)
ring_of ips = put_nodes ips []

-- Some nodes, and fewer of them: a point whose node stays keeps its node.
find-fewer :
    (ips less : List VirtualNode) (k : ℕ) (v : VirtualNode)
    → ((u : VirtualNode) → In u less → In u ips)
    → In v less
    → find k (ring_of ips) ≡ some v
    → find k (ring_of less) ≡ some v
find-fewer ips less k v sub stays f =
    let (sound, best) = balanced-Summary ips in
    let (sound', best') = balanced-Summary less in
    let (m, p) = sound k v f in
    let (u, g, low) = best' k v (stays, p) in
    let (n, q) = sound' k u g in
    let (w, h, high) = best k u (sub u n, q) in
    let same : w ≡ v = some-injective w v (sym h ∙ f) in
    g ∙ ap some (Keeps-antisym u v low (subst (λ x. Keeps x u) same high))

-- The points of fewer nodes are points of all of them.
Nearest-fewer :
    (ips less : List VirtualNode) (h k : ℕ)
    → ((u : VirtualNode) → In u less → In u ips)
    → Nearest h k (ring_of ips)
    → Nearest h k (ring_of less)
Nearest-fewer ips less h k sub near j w f =
    let (sound, best) = balanced-Summary ips in
    let (sound', best') = balanced-Summary less in
    let (n, q) = sound' j w f in let (u, g, high) = best j w (sub w n, q) in near j u g

answer-fewer :
    (ips less : List VirtualNode) (h k : ℕ) (v : VirtualNode)
    → ((u : VirtualNode) → In u less → In u ips)
    → In v less
    → answer (ring_of ips) h ≡ some (k, v)
    → answer (ring_of less) h ≡ some (k, v)
answer-fewer ips less h k v sub stays e =
    let (f, near) = answer-Nearest h k v (ring_of ips) e in
    let g = find-fewer ips less k v sub stays f in
    let (l, u, a) = answer-some h k v (ring_of less) g in
    let (i, close) = answer-Nearest h l u (ring_of less) a in
    let same : k ≡ l =
      Nearest-unique h k l v u (ring_of less) g i (Nearest-fewer ips less h k sub near) close in
    let here : u ≡ v =
      some-injective u v (sym i ∙ ap (λ j. find j (ring_of less)) (sym same) ∙ g) in
    a ∙ ap (λ x. some (l, x)) here ∙ ap (λ j. some (j, v)) (sym same)

-- The node of an answer has a virtual node.
answer-In :
    (ips : List VirtualNode) (h k : ℕ) (v : VirtualNode)
    → answer (ring_of ips) h ≡ some (k, v)
    → VirtualNodes ips k v
answer-In ips h k v e =
    let (f, near) = answer-Nearest h k v (ring_of ips) e in
    let (sound, best) = balanced-Summary ips in sound k v f

abbrev node_or : VirtualNode → Result VirtualNode → VirtualNode
node_or u (ok v) = v
node_or u (err code) = u
node_or u undefined = u

-- What Get answered comes from an entry of the ring.
node_of-ok :
    (o : Option (ℕ × VirtualNode)) (v : VirtualNode)
    → node_of o ≡ ok v
    → (k : ℕ) × (o ≡ some (k, v))
unfolding node_of
node_of-ok none v e = absurd cc
node_of-ok (some (k, u)) v e = (k, ap (λ r. some (k, node_or u r)) e)

-- What Get answers on the ring of some nodes.
abbrev get_of : List VirtualNode → List ℕ → Result VirtualNode
get_of ips key = node_of (answer (ring_of ips) (murmur32 key k_consistent_hash_seed))

get-ring : (c : ConsistentHash) (key : List ℕ) → IsWellFormed c → get c key ≡ get_of c.ips key
unfolding get
get-ring c key (h, r) = ap (λ ring. node_of (answer ring (murmur32 key k_consistent_hash_seed))) r

get_of-fewer :
    (ips less : List VirtualNode) (key : List ℕ) (v : VirtualNode)
    → ((u : VirtualNode) → In u less → In u ips)
    → In v less
    → get_of ips key ≡ ok v
    → get_of less key ≡ ok v
unfolding node_of
get_of-fewer ips less key v sub stays e =
    let h = murmur32 key k_consistent_hash_seed in
    let (k, a) = node_of-ok (answer (ring_of ips) h) v e in
    ap node_of (answer-fewer ips less h k v sub stays a)

get_of-In :
    (ips : List VirtualNode) (key : List ℕ) (v : VirtualNode)
    → get_of ips key ≡ ok v
    → In v ips × (0 < v.weight)
get_of-In ips key v e =
    let h = murmur32 key k_consistent_hash_seed in
    let (k, a) = node_of-ok (answer (ring_of ips) h) v e in
    let (m, (i, p, q)) = answer-In ips h k v a in (m, omega (arith, p))

get_of-cases :
    (ips : List VirtualNode) (key : List ℕ)
    → ((get_of ips key ≡ err ring_empty) × ((v : VirtualNode) → In v ips → v.weight ≡ 0))
      ⊎ ((v : VirtualNode) × (get_of ips key ≡ ok v))
unfolding node_of
get_of-cases ips key =
    elim (Option-cases (answer (ring_of ips) (murmur32 key k_consistent_hash_seed))) [
      | inl empty ↦ inl (
        ap node_of empty,
        λ v m. elim (ℕ_discrete v.weight 0) [
          | yes no_virtual ↦ no_virtual
          | no some_virtual ↦
              let (sound, best) = balanced-Summary ips in
              let (u, f, high) = best (point v 0) v (m, (0, omega (arith, some_virtual), refl)) in
              let (k, w, a) =
                answer-some (murmur32 key k_consistent_hash_seed) (point v 0) u (ring_of ips) f in
              absurd (none-ne-some (k, w) (sym empty ∙ a))
        ],
      )
      | inr ((k, v), found) ↦ inr (v, ap node_of found)
    ]

-- On a well-formed ring, Get returns kRingEmpty, and then every node has the weight 0, or answers
-- a node that was put and whose weight is positive.
pub get-cases :
    (c : ConsistentHash) (key : List ℕ)
    → IsWellFormed c
    → ((get c key ≡ err ring_empty) × ((v : VirtualNode) → In v c.ips → v.weight ≡ 0))
      ⊎ ((v : VirtualNode) × (get c key ≡ ok v) × In v c.ips × (0 < v.weight))
get-cases c key h = elim (get_of-cases c.ips key) [
  | inl (e, weightless) ↦ inl (get-ring c key h ∙ e, weightless)
  | inr (v, e) ↦ let (m, p) = get_of-In c.ips key v e in inr (v, get-ring c key h ∙ e, m, p)
]

get-deleted :
    (c : ConsistentHash) (node : VirtualNode) (key : List ℕ)
    → get (del c node) key ≡ get_of (erase_ip node c.ips) key
unfolding del balance_hash_ring get
get-deleted c node key = refl

-- On a well-formed ring, no key is answered by the node that Del takes off, and a key that
-- another node answered before is still answered by it.
pub get-del :
    (c : ConsistentHash) (node v : VirtualNode) (key : List ℕ)
    → IsWellFormed c
    → ((get (del c node) key ≡ ok v) → ¬ SameKey v node)
      × ((get c key ≡ ok v) → ¬ SameKey v node → get (del c node) key ≡ ok v)
get-del c node v key h =
    let after = get-deleted c node key in
    let left = erase_ip node c.ips in
    (
      λ e. ((erase_ip-In node v c.ips (h.0)).0 ((get_of-In left key v (sym after ∙ e)).0)).1,
      λ e other.
          let was : get_of c.ips key ≡ ok v = sym (get-ring c key h) ∙ e in
          let stays = (erase_ip-In node v c.ips (h.0)).1 ((get_of-In c.ips key v was).0, other) in
          after
          ∙ get_of-fewer c.ips left key v (λ u m. ((erase_ip-In node u c.ips (h.0)).0 m).0) stays
              was,
    )

put-there :
    (c : ConsistentHash) (node : VirtualNode)
    → has_weight (find_ip node c.ips) node.weight ≡ true
    → put c node ≡ c
unfolding put
put-there c node there = rw there refl

put-changed :
    (c : ConsistentHash) (node : VirtualNode) (key : List ℕ)
    → has_weight (find_ip node c.ips) node.weight ≡ false
    → get (put c node) key ≡ get_of (set_ip node c.ips) key
unfolding put balance_hash_ring get
put-changed c node key changed = rw changed refl

-- No node has the key of this one.
abbrev pub IsNew : VirtualNode → List VirtualNode → Type 0
IsNew node ips = (v : VirtualNode) → In v ips → ¬ SameKey v node

get_of-set_ip :
    (ips : List VirtualNode) (node v : VirtualNode) (key : List ℕ)
    → Ascending ips
    → IsNew node ips
    → get_of (set_ip node ips) key ≡ ok v
    → (v ≡ node) ⊎ (get_of ips key ≡ ok v)
get_of-set_ip ips node v key h new e =
    elim ((set_ip-In node v ips h).0 ((get_of-In (set_ip node ips) key v e).0)) [
      | inl it ↦ inl it
      | inr (m, d) ↦ inr (
          get_of-fewer (set_ip node ips) ips key v
            (λ u k. (set_ip-In node u ips h).1 (inr (k, new u k))) m e)
    ]

get_of-more :
    (ips : List VirtualNode) (node : VirtualNode) (key : List ℕ)
    → Ascending ips
    → IsNew node ips
    → (get_of (set_ip node ips) key ≡ get_of ips key) ⊎ (get_of (set_ip node ips) key ≡ ok node)
get_of-more ips node key h new = elim (get_of-cases (set_ip node ips) key) [
  | inr (v, e) ↦ elim (get_of-set_ip ips node v key h new e) [
    | inl it ↦ inr (e ∙ ap ok it)
    | inr was ↦ inl (e ∙ sym was)
  ]
  | inl (e, weightless) ↦ elim (get_of-cases ips key) [
    | inl (f, weightless') ↦ inl (e ∙ sym f)
    | inr (v, f) ↦
        let (m, p) = get_of-In ips key v f in
        absurd (omega (arith, p, weightless v ((set_ip-In node v ips h).1 (inr (m, new v m)))))
  ]
]

-- On a well-formed ring, Put of a node with a new key leaves the answer to a key as it was, or
-- makes the new node the answer.
pub get-put_new :
    (c : ConsistentHash) (node : VirtualNode) (key : List ℕ)
    → IsWellFormed c
    → IsNew node c.ips
    → (get (put c node) key ≡ get c key) ⊎ (get (put c node) key ≡ ok node)
get-put_new c node key h new = elim (Bool-cases (has_weight (find_ip node c.ips) node.weight)) [
  | inl there ↦ inl (ap (λ d. get d key) (put-there c node there))
  | inr changed ↦
      let now = put-changed c node key changed in
      elim (get_of-more c.ips node key (h.0) new) [
        | inl same ↦ inl (now ∙ same ∙ sym (get-ring c key h))
        | inr it ↦ inr (now ∙ it)
      ]
]
