-- ===== src/ConsistentHash/Nodes.antt =====
-- ips_ of base/consistent_hash.cc: the nodes in the order of their keys.
use csutil.Common.{◌<◌, ◌≡◌, sym, arith}
use csutil.Common.{true, false, List, [], ◌∷◌, All, ◌⊎◌, inl, inr, ◌↔◌}
use csutil.ConsistentHash.{VirtualNode, same_key, key_less, set_ip, erase_ip}
use csutil.ConsistentHash.Points.{In}
use mathlib.Core.Path.{subst}
use native.Mathlib.Decide.{dec_lt}

abbrev pub SameKey : VirtualNode → VirtualNode → Type 0
SameKey a b = (a.ip ≡ b.ip) × (a.port ≡ b.port)

-- The order of std::pair.
abbrev pub KeyLess : VirtualNode → VirtualNode → Type 0
KeyLess a b = (a.ip < b.ip) ⊎ (a.ip ≡ b.ip) × (a.port < b.port)

abbrev pub Ascending : List VirtualNode → Type 0
Ascending [] = Unit {0}
Ascending (n ∷ ips) = All (KeyLess n) ips × Ascending ips

pub less_lem : (a b : VirtualNode) → KeyLess a b → key_less a b ≡ true
less_lem a b h = ground arith

pub same_lem : (a b : VirtualNode) → SameKey a b → (key_less a b ≡ false) × (same_key a b ≡ true)
same_lem a b h = (ground arith, ground arith)

pub over_lem : (a b : VirtualNode) → KeyLess b a → (key_less a b ≡ false) × (same_key a b ≡ false)
over_lem a b h = (ground arith, ground arith)

-- How two keys compare.
pub key-cases : (a b : VirtualNode) → KeyLess a b ⊎ SameKey a b ⊎ KeyLess b a
key-cases a b = elim (dec_lt a.ip b.ip) [
  | yes h ↦ inl (inl h)
  | no h ↦ elim (dec_lt b.ip a.ip) [
    | yes k ↦ inr (inr (inl k))
    | no k ↦
        let same : a.ip ≡ b.ip = omega arith in
        elim (dec_lt a.port b.port) [
          | yes p ↦ inl (inr (same, p))
          | no p ↦ elim (dec_lt b.port a.port) [
            | yes q ↦ inr (inr (inr (sym same, q)))
            | no q ↦ inr (inl (same, omega arith))
          ]
        ]
  ]
]

KeyLess-trans : (a b c : VirtualNode) → KeyLess a b → KeyLess b c → KeyLess a c
KeyLess-trans a b c h k = ground arith

pub same-KeyLess : (a b c : VirtualNode) → SameKey a b → KeyLess a c → KeyLess b c
same-KeyLess a b c h k = ground arith

pub All-KeyLess-trans :
    (a b : VirtualNode) (ips : List VirtualNode)
    → KeyLess a b
    → All (KeyLess b) ips
    → All (KeyLess a) ips
All-KeyLess-trans a b [] h hs = tt
All-KeyLess-trans a b (n ∷ ips) h (k, hs) =
    (KeyLess-trans a b n h k, All-KeyLess-trans a b ips h hs)

pub All-In :
    (a v : VirtualNode) (ips : List VirtualNode) → All (KeyLess a) ips → In v ips → KeyLess a v
All-In a v [] h m = absurd m
All-In a v (n ∷ ips) (h, hs) (inl e) = subst (KeyLess a) (sym e) h
All-In a v (n ∷ ips) (h, hs) (inr m) = All-In a v ips hs m

not-SameKey : (a b : VirtualNode) → KeyLess a b → ¬ SameKey a b
not-SameKey a b h k = ground arith

same_as : (a b c : VirtualNode) → SameKey a c → SameKey b c → SameKey a b
same_as a b c h k = (omega (arith, h, k), omega (arith, h, k))

SameKey-sym : (a b : VirtualNode) → SameKey a b → SameKey b a
SameKey-sym a b (i, p) = (sym i, sym p)

-- What is above the first node is above them all.
all_above :
    (a n v : VirtualNode) (ips : List VirtualNode)
    → KeyLess a n
    → All (KeyLess n) ips
    → In v (n ∷ ips)
    → KeyLess a v
all_above a n v ips k h m = All-In a v (n ∷ ips) (k, All-KeyLess-trans a n ips k h) m

-- erase takes the node with the key off, and no other.
pub erase_ip-In :
    (node v : VirtualNode) (ips : List VirtualNode)
    → Ascending ips
    → In v (erase_ip node ips) ↔ (In v ips × (¬ SameKey v node))
unfolding erase_ip
erase_ip-In node v [] h = (λ m. absurd m, λ (m, d). absurd m)
erase_ip-In node v (n ∷ ips) (h, hs) = elim (key-cases n node) [
  | inl below ↦ rw (less_lem n node below) (
    λ m. elim m [
      | inl e ↦ (inl e, not-SameKey v node (subst (λ u. KeyLess u node) (sym e) below))
      | inr k ↦ let (l, d) = (erase_ip-In node v ips hs).0 k in (inr l, d)
    ],
    λ (m, d). elim m [ inl e ↦ inl e | inr k ↦ inr ((erase_ip-In node v ips hs).1 (k, d)) ],
  )
  | inr (inl same) ↦
      let (a, b) = same_lem n node same in
      rw (a, b)
        (
          λ m. (inr m, λ d. not-SameKey n v (All-In n v ips h m) (same_as n v node same d)),
          λ (m, d). elim m [
            | inl e ↦ absurd (d (subst (λ u. SameKey u node) (sym e) same))
            | inr k ↦ k
          ],
        )
  | inr (inr above) ↦
      let (a, b) = over_lem n node above in
      rw (a, b)
        (
          λ m. (
            m,
            λ d. not-SameKey node v (all_above node n v ips above h m) (SameKey-sym v node d),
          ),
          λ (m, d). m,
        )
]

-- The node of a key that is set, and the nodes of other keys.
pub set_ip-In :
    (node v : VirtualNode) (ips : List VirtualNode)
    → Ascending ips
    → In v (set_ip node ips) ↔ ((v ≡ node) ⊎ (In v ips × (¬ SameKey v node)))
unfolding set_ip
set_ip-In node v [] h = (
  λ m. elim m [ inl e ↦ inl e | inr k ↦ absurd k ],
  λ m. elim m [ inl e ↦ inl e | inr (k, d) ↦ absurd k ],
)
set_ip-In node v (n ∷ ips) (h, hs) = elim (key-cases n node) [
  | inl below ↦ rw (less_lem n node below) (
    λ m. elim m [
      | inl e ↦ inr (inl e, not-SameKey v node (subst (λ u. KeyLess u node) (sym e) below))
      | inr k ↦ elim ((set_ip-In node v ips hs).0 k) [ inl e ↦ inl e | inr (l, d) ↦ inr (inr l, d) ]
    ],
    λ m. elim m [
      | inl e ↦ inr ((set_ip-In node v ips hs).1 (inl e))
      | inr (inl e, d) ↦ inl e
      | inr (inr k, d) ↦ inr ((set_ip-In node v ips hs).1 (inr (k, d)))
    ],
  )
  | inr (inl same) ↦
      let (a, b) = same_lem n node same in
      rw (a, b)
        (
          λ m. elim m [
            | inl e ↦ inl e
            | inr k ↦
                inr (inr k, λ d. not-SameKey n v (All-In n v ips h k) (same_as n v node same d))
          ],
          λ m. elim m [
            | inl e ↦ inl e
            | inr (inl e, d) ↦ absurd (d (subst (λ u. SameKey u node) (sym e) same))
            | inr (inr k, d) ↦ inr k
          ],
        )
  | inr (inr above) ↦
      let (a, b) = over_lem n node above in
      rw (a, b)
        (
          λ m. elim m [
            | inl e ↦ inl e
            | inr k ↦ inr (
              k,
              λ d. not-SameKey node v (all_above node n v ips above h k) (SameKey-sym v node d),
            )
          ],
          λ m. elim m [ inl e ↦ inl e | inr (k, d) ↦ inr k ],
        )
]
