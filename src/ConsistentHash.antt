-- ===== src/ConsistentHash.antt =====
-- base/consistent_hash.h and .cc: class ConsistentHash. The two std::maps are the lists of their
-- entries in the order of their keys.
pub mod Ring
pub mod Points
pub mod Nodes
pub mod WellFormed
pub mod Answers
mod Tests
use csutil.Common.{
  ℕ, zero, suc, ◌+◌, ◌/◌, ◌%◌, ltb, ◌==◌, ◌&&◌, ◌||◌, if◌then◌else◌, Bool, true, false,
}
use csutil.Common.{List, [], ◌∷◌, ◌++◌, Option, none, some}
use csutil.Common.Status.{Result, ok, err, ring_empty}
use csutil.Hash.{murmur32}

pub record VirtualNode : Type 0 where
  ip : ℕ
  port : ℕ
  weight : ℕ

-- hash_ring_ and ips_. An entry of ips_ is a node: its key is the ip and the port.
pub record ConsistentHash : Type 0 where
  hash_ring : List (ℕ × VirtualNode)
  ips : List VirtualNode

abbrev pub new_consistent_hash : ConsistentHash
new_consistent_hash = record { hash_ring = []; ips = [] }

abbrev pub k_consistent_hash_seed : ℕ
k_consistent_hash_seed = 0x0523

-- The digits of `%u`, with the places that are left: a uint32_t has at most ten.
pub decimal : ℕ → ℕ → List ℕ
decimal zero n = []
decimal (suc places) n =
    let higher = decimal places (n / 10) in
    if ltb n 10 then (n + 48) ∷ [] else higher ++ (n % 10 + 48) ∷ []

-- Where a node's virtual node of a number stands on the ring.
pub point : VirtualNode → ℕ → ℕ
point node virtual_num =
    murmur32 (decimal 10 node.ip ++ b':' ∷ decimal 10 node.port ++ b':' ∷ decimal 10 virtual_num)
      k_consistent_hash_seed

pub check_if_replace : VirtualNode → VirtualNode → Bool
check_if_replace new_node old_node =
    if ltb old_node.weight new_node.weight
    then true
    else if ltb new_node.weight old_node.weight
    then false
    else if ltb old_node.ip new_node.ip
    then true
    else if ltb new_node.ip old_node.ip
    then false
    else ltb old_node.port new_node.port

-- hash_ring_.find, and one round of BalanceHashRing.
pub find : ℕ → List (ℕ × VirtualNode) → Option VirtualNode
find hash_key [] = none
find hash_key ((k, node) ∷ ring) =
    let further = find hash_key ring in
    if ltb k hash_key then further else if k == hash_key then some node else none

pub put_point : ℕ → VirtualNode → List (ℕ × VirtualNode) → List (ℕ × VirtualNode)
put_point hash_key new_node [] = (hash_key, new_node) ∷ []
put_point hash_key new_node ((k, node) ∷ ring) =
    let further = put_point hash_key new_node ring in
    if ltb k hash_key
    then (k, node) ∷ further
    else if k == hash_key
    then (k, if check_if_replace new_node node then new_node else node) ∷ ring
    else (hash_key, new_node) ∷ (k, node) ∷ ring

-- The inner loop from a virtual number on, with the rounds that are left.
pub put_virtual : VirtualNode → ℕ → ℕ → List (ℕ × VirtualNode) → List (ℕ × VirtualNode)
put_virtual node virtual_num zero ring = ring
put_virtual node virtual_num (suc left) ring =
    put_virtual node (suc virtual_num) left (put_point (point node virtual_num) node ring)

pub put_nodes : List VirtualNode → List (ℕ × VirtualNode) → List (ℕ × VirtualNode)
put_nodes [] ring = ring
put_nodes (node ∷ ips) ring = put_nodes ips (put_virtual node 0 node.weight ring)

pub balance_hash_ring : ConsistentHash → ConsistentHash
balance_hash_ring c = record { hash_ring = put_nodes c.ips []; ips = c.ips }

-- The order of the keys of ips_.
abbrev pub same_key : VirtualNode → VirtualNode → Bool
same_key a b = a.ip == b.ip && a.port == b.port

abbrev pub key_less : VirtualNode → VirtualNode → Bool
key_less a b = ltb a.ip b.ip || a.ip == b.ip && ltb a.port b.port

-- The weight of the node with the key.
pub find_ip : VirtualNode → List VirtualNode → Option ℕ
find_ip node [] = none
find_ip node (n ∷ ips) =
    let further = find_ip node ips in
    if key_less n node then further else if same_key n node then some n.weight else none

-- The weight of the key becomes the node's; a key that is not there is inserted.
pub set_ip : VirtualNode → List VirtualNode → List VirtualNode
set_ip node [] = node ∷ []
set_ip node (n ∷ ips) =
    let further = set_ip node ips in
    if key_less n node then n ∷ further else if same_key n node then node ∷ ips else node ∷ n ∷ ips

pub erase_ip : VirtualNode → List VirtualNode → List VirtualNode
erase_ip node [] = []
erase_ip node (n ∷ ips) =
    let further = erase_ip node ips in
    if key_less n node then n ∷ further else if same_key n node then ips else n ∷ ips

-- The early return of Put, where the weight is there already.
pub has_weight : Option ℕ → ℕ → Bool
has_weight none weight = false
has_weight (some w) weight = w == weight

pub put : ConsistentHash → VirtualNode → ConsistentHash
put c node =
    if has_weight (find_ip node c.ips) node.weight
    then c
    else balance_hash_ring (record c { ips = set_ip node c.ips })

pub del : ConsistentHash → VirtualNode → ConsistentHash
del c node = balance_hash_ring (record c { ips = erase_ip node c.ips })

-- hash_ring_.lower_bound
pub lower_bound : ℕ → List (ℕ × VirtualNode) → Option (ℕ × VirtualNode)
lower_bound hash_key [] = none
lower_bound hash_key ((k, node) ∷ ring) =
    let further = lower_bound hash_key ring in if ltb k hash_key then further else some (k, node)

-- The entry of lower_bound, or the first one.
pub or_begin : Option (ℕ × VirtualNode) → ℕ × VirtualNode → ℕ × VirtualNode
or_begin none first = first
or_begin (some entry) first = entry

pub answer : List (ℕ × VirtualNode) → ℕ → Option (ℕ × VirtualNode)
answer [] hash_key = none
answer (first ∷ ring) hash_key = some (or_begin (lower_bound hash_key (first ∷ ring)) first)

pub node_of : Option (ℕ × VirtualNode) → Result VirtualNode
node_of none = err ring_empty
node_of (some (k, node)) = ok node

pub get : ConsistentHash → List ℕ → Result VirtualNode
get c key = node_of (answer c.hash_ring (murmur32 key k_consistent_hash_seed))
