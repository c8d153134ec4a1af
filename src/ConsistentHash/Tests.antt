-- ===== src/ConsistentHash/Tests.antt =====
-- ConsistentHash with two nodes.
use csutil.Common.{ℕ, ◌<◌, ◌≡◌, ap, List, [], ◌∷◌, ◌⊎◌, inl, inr, arith}
use csutil.Common.Status.{ok, err, ring_empty}
use csutil.ConsistentHash.{VirtualNode, ConsistentHash, new_consistent_hash, put, del, get}
use csutil.ConsistentHash.{balance_hash_ring, has_weight, find_ip, set_ip}
use csutil.ConsistentHash.Points.{In}
use csutil.ConsistentHash.Nodes.{SameKey}
use csutil.ConsistentHash.WellFormed.{IsWellFormed, put_node, run, run-IsWellFormed}
use csutil.ConsistentHash.Answers.{get-cases, get-del, get-put_new, IsNew}

abbrev node_a : VirtualNode
node_a = record { ip = 1; port = 80; weight = 1 }

abbrev node_b : VirtualNode
node_b = record { ip = 2; port = 80; weight = 2 }

abbrev node_c : VirtualNode
node_c = record { ip = 3; port = 90; weight = 1 }

abbrev ip_of : VirtualNode → ℕ
ip_of v = v.ip

abbrev key : List ℕ
key = b'k' ∷ []

abbrev with_a : ConsistentHash
with_a = run new_consistent_hash (put_node node_a ∷ [])

abbrev with_both : ConsistentHash
with_both = run new_consistent_hash (put_node node_a ∷ put_node node_b ∷ [])

run-IsWellFormed_example : IsWellFormed with_both
run-IsWellFormed_example = run-IsWellFormed (put_node node_a ∷ put_node node_b ∷ [])

get-cases_example :
    ((get with_both key ≡ err ring_empty) × ((v : VirtualNode) → In v with_both.ips → v.weight ≡ 0))
    ⊎ ((v : VirtualNode) × (get with_both key ≡ ok v) × In v with_both.ips × (0 < v.weight))
get-cases_example = get-cases with_both key run-IsWellFormed_example

-- Only node_b loses keys.
get-del_example :
    ((get (del with_both node_b) key ≡ ok node_a) → ¬ SameKey node_a node_b)
    × ((get with_both key ≡ ok node_a)
        → ¬ SameKey node_a node_b
        → get (del with_both node_b) key ≡ ok node_a)
get-del_example = get-del with_both node_b node_a key run-IsWellFormed_example

b-IsNew : IsNew node_b with_a.ips
unfolding put balance_hash_ring has_weight find_ip set_ip
b-IsNew v (inl e) (i, p) = absurd (omega (arith, i, ap ip_of e))
b-IsNew v (inr m) d = absurd m

get-put_new_example :
    (get (put with_a node_b) key ≡ get with_a key) ⊎ (get (put with_a node_b) key ≡ ok node_b)
get-put_new_example =
    get-put_new with_a node_b key (run-IsWellFormed (put_node node_a ∷ [])) b-IsNew
