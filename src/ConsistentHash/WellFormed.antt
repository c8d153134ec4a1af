-- ===== src/ConsistentHash/WellFormed.antt =====
-- What Put and Del of base/consistent_hash.cc keep of a ring.
use csutil.Common.{◌≡◌, refl, sym}
use csutil.Common.{List, [], ◌∷◌, All, inl, inr, Bool-cases}
use csutil.ConsistentHash.{VirtualNode, ConsistentHash, new_consistent_hash, set_ip}
use csutil.ConsistentHash.{erase_ip, find_ip, has_weight, put_nodes, balance_hash_ring, put, del}
use csutil.ConsistentHash.Points.{In}
use csutil.ConsistentHash.Nodes.{KeyLess, Ascending, key-cases, less_lem, same_lem, over_lem}
use csutil.ConsistentHash.Nodes.{All-In, All-KeyLess-trans, same-KeyLess, set_ip-In, erase_ip-In}
use mathlib.Core.Path.{subst}

-- The nodes have different keys in ascending order, and the ring is theirs.
abbrev pub IsWellFormed : ConsistentHash → Type 0
IsWellFormed c = Ascending c.ips × (c.hash_ring ≡ put_nodes c.ips [])

In-All :
    (a : VirtualNode) (ips : List VirtualNode)
    → ((v : VirtualNode) → In v ips → KeyLess a v)
    → All (KeyLess a) ips
In-All a [] f = tt
In-All a (n ∷ ips) f = (f n (inl refl), In-All a ips (λ v m. f v (inr m)))

set_ip-Ascending :
    (node : VirtualNode) (ips : List VirtualNode) → Ascending ips → Ascending (set_ip node ips)
unfolding set_ip
set_ip-Ascending node [] h = (tt, tt)
set_ip-Ascending node (n ∷ ips) (h, hs) = elim (key-cases n node) [
  | inl below ↦ rw (less_lem n node below) (
    In-All n (set_ip node ips) (λ v m. elim ((set_ip-In node v ips hs).0 m) [
      | inl e ↦ subst (KeyLess n) (sym e) below
      | inr (k, d) ↦ All-In n v ips h k
    ]),
    set_ip-Ascending node ips hs,
  )
  | inr (inl same) ↦
      let (a, b) = same_lem n node same in
      rw (a, b) (In-All node ips (λ v m. same-KeyLess n node v same (All-In n v ips h m)), hs)
  | inr (inr above) ↦
      let (a, b) = over_lem n node above in
      rw (a, b) ((above, All-KeyLess-trans node n ips above h), (h, hs))
]

erase_ip-Ascending :
    (node : VirtualNode) (ips : List VirtualNode) → Ascending ips → Ascending (erase_ip node ips)
unfolding erase_ip
erase_ip-Ascending node [] h = tt
erase_ip-Ascending node (n ∷ ips) (h, hs) = elim (key-cases n node) [
  | inl below ↦ rw (less_lem n node below) (
    In-All n (erase_ip node ips) (λ v m. All-In n v ips h (((erase_ip-In node v ips hs).0 m).0)),
    erase_ip-Ascending node ips hs,
  )
  | inr (inl same) ↦ let (a, b) = same_lem n node same in rw (a, b) hs
  | inr (inr above) ↦ let (a, b) = over_lem n node above in rw (a, b) (h, hs)
]

new-IsWellFormed : IsWellFormed new_consistent_hash
unfolding put_nodes
new-IsWellFormed = (tt, refl)

put-IsWellFormed :
    (c : ConsistentHash) (node : VirtualNode) → IsWellFormed c → IsWellFormed (put c node)
unfolding put balance_hash_ring
put-IsWellFormed c node (h, r) = elim (Bool-cases (has_weight (find_ip node c.ips) node.weight)) [
  | inl there ↦ rw there (h, r)
  | inr changed ↦ rw changed (set_ip-Ascending node c.ips h, refl)
]

del-IsWellFormed :
    (c : ConsistentHash) (node : VirtualNode) → IsWellFormed c → IsWellFormed (del c node)
unfolding del balance_hash_ring
del-IsWellFormed c node (h, r) = (erase_ip-Ascending node c.ips h, refl)

-- What a caller does, one call after the other.
pub data Operation : Type 0 where
  put_node del_node : VirtualNode → Operation

abbrev pub run : ConsistentHash → List Operation → ConsistentHash
run c [] = c
run c (put_node node ∷ operations) = run (put c node) operations
run c (del_node node ∷ operations) = run (del c node) operations

run_from-IsWellFormed :
    (c : ConsistentHash) (operations : List Operation)
    → IsWellFormed c
    → IsWellFormed (run c operations)
run_from-IsWellFormed c [] h = h
run_from-IsWellFormed c (put_node node ∷ operations) h =
    run_from-IsWellFormed (put c node) operations (put-IsWellFormed c node h)
run_from-IsWellFormed c (del_node node ∷ operations) h =
    run_from-IsWellFormed (del c node) operations (del-IsWellFormed c node h)

-- After every sequence of Put and Del on a new object the keys of the nodes are in ascending
-- order, each once, and the ring is the one that BalanceHashRing makes of them.
pub run-IsWellFormed :
    (operations : List Operation) → IsWellFormed (run new_consistent_hash operations)
run-IsWellFormed operations = run_from-IsWellFormed new_consistent_hash operations new-IsWellFormed
