-- ===== src/ConsistentHash/Points.antt =====
-- BalanceHashRing of base/consistent_hash.cc: each point of the ring keeps the highest of the nodes
-- that have a virtual node there.
use csutil.Common.{ℕ, zero, suc, ◌+◌, ◌<◌, ◌≤◌, ◌≡◌, ◌≢◌, refl, sym, ap, ◌∙◌, arith, equal, unequal}
use csutil.Common.{List, [], ◌∷◌, Option, none, some, ◌⊎◌, inl, inr, Bool-cases}
use csutil.ConsistentHash.{
  VirtualNode, point, check_if_replace, find, put_point, put_virtual, put_nodes,
}
use csutil.ConsistentHash.Ring.{
  Keeps, Keeps-trans, Keeps-refl, replaced-Keeps, kept, find-put_point,
}
use mathlib.Core.Option.{some-injective, none-ne-some}
use mathlib.Core.Path.{subst}
use native.Mathlib.Decide.{ℕ_discrete}

-- Which nodes have a virtual node at a point.
abbrev pub Candidates : Type 1
Candidates = ℕ → VirtualNode → Type 0

-- Every node of the ring is a candidate at its point, and none there is higher.
abbrev pub Summary : List (ℕ × VirtualNode) → Candidates → Type 0
Summary ring C =
    ((k : ℕ) (v : VirtualNode) → find k ring ≡ some v → C k v)
    × ((k : ℕ) (w : VirtualNode) → C k w → (v : VirtualNode) × (find k ring ≡ some v) × Keeps v w)

-- One more candidate.
abbrev With : Candidates → ℕ → VirtualNode → Candidates
With C h n = λ k v. C k v ⊎ (k ≡ h) × (v ≡ n)

-- What a point keeps is one of the two, and is not below either.
kept-one :
    (old : Option VirtualNode) (n : VirtualNode) → (kept old n ≡ n) ⊎ (old ≡ some (kept old n))
kept-one none n = inl refl
kept-one (some v) n = elim (Bool-cases (check_if_replace n v)) [
  | inl higher ↦ rw higher (inl refl)
  | inr lower ↦ rw lower (inr refl)
]

kept-Keeps_new : (old : Option VirtualNode) (n : VirtualNode) → Keeps (kept old n) n
kept-Keeps_new none n = Keeps-refl n
kept-Keeps_new (some v) n = elim (Bool-cases (check_if_replace n v)) [
  | inl higher ↦ rw higher (Keeps-refl n)
  | inr lower ↦ rw (lower, lower) refl
]

kept-Keeps_old : (v n : VirtualNode) → Keeps (kept (some v) n) v
kept-Keeps_old v n = elim (Bool-cases (check_if_replace n v)) [
  | inl higher ↦ rw higher (replaced-Keeps n v higher)
  | inr lower ↦ rw lower (Keeps-refl v)
]

find-put_self :
    (h : ℕ) (n : VirtualNode) (ring : List (ℕ × VirtualNode))
    → find h (put_point h n ring) ≡ some (kept (find h ring) n)
find-put_self h n ring = find-put_point h h n ring ∙ rw (equal h) refl

find-put_ne :
    (k h : ℕ) (n : VirtualNode) (ring : List (ℕ × VirtualNode))
    → h ≢ k
    → find k (put_point h n ring) ≡ find k ring
find-put_ne k h n ring e = find-put_point k h n ring ∙ rw (unequal h k e) refl

module _ (h : ℕ) (n : VirtualNode) (ring : List (ℕ × VirtualNode)) (C : Candidates) where
  sound_here :
      ((k : ℕ) (v : VirtualNode) → find k ring ≡ some v → C k v)
      → (v : VirtualNode) → find h (put_point h n ring) ≡ some v
      → With C h n h v
  sound_here sound v f =
      let e : kept (find h ring) n ≡ v =
        some-injective (kept (find h ring) n) v (sym (find-put_self h n ring) ∙ f) in
      elim (kept-one (find h ring) n) [
        | inl new ↦ inr (refl, sym e ∙ new)
        | inr old ↦ inl (sound h v (old ∙ ap some e))
      ]

  best_here :
      (w : VirtualNode)
      → ((v : VirtualNode) × (find h ring ≡ some v) × Keeps v w)
      → (v : VirtualNode) × (find h (put_point h n ring) ≡ some v) × Keeps v w
  best_here w (v, f, k) = (
    kept (some v) n,
    find-put_self h n ring ∙ ap (λ o. some (kept o n)) f,
    Keeps-trans (kept (some v) n) v w (kept-Keeps_old v n) k,
  )

  put_point-Summary : Summary ring C → Summary (put_point h n ring) (With C h n)
  put_point-Summary (sound, best) = (
    λ k v f. elim (ℕ_discrete h k) [
      | yes here ↦
          subst (λ j. find j (put_point h n ring) ≡ some v → With C h n j v) here
            (sound_here sound v) f
      | no there ↦ inl (sound k v (sym (find-put_ne k h n ring there) ∙ f))
    ],
    λ k w c. elim c [
      | inl old ↦ elim (ℕ_discrete h k) [
        | yes here ↦
            subst
              (λ j. C j w → (v : VirtualNode) × (find j (put_point h n ring) ≡ some v) × Keeps v w)
              here (λ d. best_here w (best h w d)) old
        | no there ↦ let (v, f, b) = best k w old in (v, find-put_ne k h n ring there ∙ f, b)
      ]
      | inr (e, new) ↦ (
        kept (find h ring) n,
        ap (λ j. find j (put_point h n ring)) e ∙ find-put_self h n ring,
        subst (λ u. Keeps (kept (find h ring) n) u) (sym new) (kept-Keeps_new (find h ring) n),
      )
    ],
  )

abbrev weight_of : VirtualNode → ℕ
weight_of v = v.weight

-- The virtual nodes of a node, from one number on.
abbrev pub Virtual : VirtualNode → ℕ → ℕ → Candidates
Virtual n from left = λ k v. (v ≡ n) × ((i : ℕ) × (from ≤ i) × (i < from + left) × (k ≡ point n i))

abbrev pub In : VirtualNode → List VirtualNode → Type 0
In v [] = ⊥
In v (n ∷ ips) = (v ≡ n) ⊎ In v ips

-- The virtual nodes of all of them, as many as each one's weight.
abbrev pub VirtualNodes : List VirtualNode → Candidates
VirtualNodes ips = λ k v. In v ips × ((i : ℕ) × (i < v.weight) × (k ≡ point v i))

-- Candidates that are the same ones have the same ring.
Summary-to :
    (ring : List (ℕ × VirtualNode)) (C D : Candidates)
    → ((k : ℕ) (v : VirtualNode) → C k v → D k v)
    → ((k : ℕ) (v : VirtualNode) → D k v → C k v)
    → Summary ring C
    → Summary ring D
Summary-to ring C D there back (sound, best) =
    (λ k v f. there k v (sound k v f), λ k w d. best k w (back k w d))

put_virtual-Summary :
    (n : VirtualNode) (from left : ℕ) (ring : List (ℕ × VirtualNode)) (C : Candidates)
    → Summary ring C
    → Summary (put_virtual n from left ring) (λ k v. C k v ⊎ Virtual n from left k v)
unfolding put_virtual
put_virtual-Summary n from zero ring C s =
    Summary-to ring C (λ k v. C k v ⊎ Virtual n from zero k v) (λ k v c. inl c)
      (λ k v c. elim c [ inl d ↦ d | inr (e, (i, p, q, r)) ↦ absurd (omega (arith, p, q)) ]) s
put_virtual-Summary n from (suc left) ring C s =
    Summary-to (put_virtual n (suc from) left (put_point (point n from) n ring))
      (λ k v. With C (point n from) n k v ⊎ Virtual n (suc from) left k v)
      (λ k v. C k v ⊎ Virtual n from (suc left) k v)
      (λ k v c. elim c [
        | inl (inl d) ↦ inl d
        | inl (inr (e, f)) ↦ inr (f, (from, omega arith, omega arith, e))
        | inr (e, (i, p, q, r)) ↦ inr (e, (i, omega (arith, p), omega (arith, q), r))
      ])
      (λ k v c. elim c [
        | inl d ↦ inl (inl d)
        | inr (e, (i, p, q, r)) ↦ elim (ℕ_discrete i from) [
          | yes here ↦ inl (inr (r ∙ ap (point n) here, e))
          | no there ↦ inr (e, (i, omega (arith, p, there), omega (arith, q), r))
        ]
      ])
      (put_virtual-Summary n (suc from) left (put_point (point n from) n ring)
        (With C (point n from) n) (put_point-Summary (point n from) n ring C s))

put_nodes-Summary :
    (ips : List VirtualNode) (ring : List (ℕ × VirtualNode)) (C : Candidates)
    → Summary ring C
    → Summary (put_nodes ips ring) (λ k v. C k v ⊎ VirtualNodes ips k v)
unfolding put_nodes
put_nodes-Summary [] ring C s =
    Summary-to ring C (λ k v. C k v ⊎ VirtualNodes [] k v) (λ k v c. inl c)
      (λ k v c. elim c [ inl d ↦ d | inr (e, m) ↦ absurd e ]) s
put_nodes-Summary (n ∷ ips) ring C s =
    Summary-to (put_nodes ips (put_virtual n 0 n.weight ring))
      (λ k v. (C k v ⊎ Virtual n 0 n.weight k v) ⊎ VirtualNodes ips k v)
      (λ k v. C k v ⊎ VirtualNodes (n ∷ ips) k v)
      (λ k v c. elim c [
        | inl (inl d) ↦ inl d
        | inl (inr (e, (i, p, q, r))) ↦
            inr (inl e, (i, omega (arith, q, ap weight_of e), r ∙ ap (λ u. point u i) (sym e)))
        | inr (m, d) ↦ inr (inr m, d)
      ])
      (λ k v c. elim c [
        | inl d ↦ inl (inl d)
        | inr (inl e, (i, p, r)) ↦
            inl (
              inr
                (e, (i, omega arith, omega (arith, p, ap weight_of e), r ∙ ap (λ u. point u i) e)))
        | inr (inr m, d) ↦ inr (m, d)
      ])
      (put_nodes-Summary ips (put_virtual n 0 n.weight ring)
        (λ k v. C k v ⊎ Virtual n 0 n.weight k v) (put_virtual-Summary n 0 n.weight ring C s))

-- The ring that BalanceHashRing makes of some nodes.
pub balanced-Summary : (ips : List VirtualNode) → Summary (put_nodes ips []) (VirtualNodes ips)
unfolding find
balanced-Summary ips =
    Summary-to (put_nodes ips []) (λ k v. ⊥ ⊎ VirtualNodes ips k v) (VirtualNodes ips)
      (λ k v c. elim c [ inl none_here ↦ absurd none_here | inr d ↦ d ]) (λ k v c. inr c)
      (put_nodes-Summary ips [] (λ k v. ⊥) (λ k v f. absurd (none-ne-some v f), λ k w c. absurd c))
