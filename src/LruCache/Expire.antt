-- ===== src/LruCache/Expire.antt =====
-- RemoveExpiredNodes of store/cache/lru_cache/src/lru_cache.cc takes the oldest entries off until the
-- number fits.
use csutil.Common.{
  ℕ, zero, suc, ◌≤◌, ◌<◌, ◌≡◌, refl, sym, ap, ◌∙◌, arith, List, [], ◌∷◌, ◌++◌, length,
}
use csutil.Common.{take, ◌==◌, Bool-cases, inl, inr, append-nil}
use csutil.Common.{length-append, some, lt→ltb, ltb-false, All-split}
use csutil.Common.Status.{Result, ok}
use mathlib.Core.Path.{subst}
use native.Mathlib.Decide.{dec_lt}
use csutil.LruCache.{
  LruCache, Entry, cur_list, remove_oldest, remove_expired_loop, remove_expired_nodes,
}
use csutil.LruCache.Map.{find, erase}
use csutil.LruCache.Ring.{Back-last}
use csutil.LruCache.Slots.{Slots, addresses, entries, entries-append, address-key, snoc}
use csutil.LruCache.Slots.{length-entries}
use csutil.LruCache.Links.{unlinked}
use csutil.LruCache.Contents.{IsCache, limit}
use csutil.LruCache.Steps.{
  dropped, dropped-IsCache, unlink_lem, load_lem, free_lem, at-IsRing, from-Apart,
}

module _ (c : LruCache) (xs : Slots) (a : ℕ) (e : Entry) (ys : Slots)
    (valid : IsCache c (xs ++ ((a, e) ∷ ys))) where
  pub stored_at : c.entry a ≡ some e
  stored_at =
      (All-split (λ (n : ℕ × Entry). c.entry n.0 ≡ some n.1) xs ((a, e) ∷ ys) valid.stored).1.0

  pub key_at : find e.key c.caches ≡ some a
  key_at = valid.keys e.key ∙ address-key xs a e ys valid.distinct

remove_oldest_lem :
    (c : LruCache) (xs : Slots) (a : ℕ) (e : Entry)
    → (valid : IsCache c (xs ++ ((a, e) ∷ []))) → remove_oldest c ≡ ok (dropped c xs a e [] valid)
unfolding remove_oldest
remove_oldest_lem c xs a e valid =
    let oldest : c.pre cur_list ≡ a =
      Back-last cur_list c.next c.pre cur_list (addresses xs) a
        (at-IsRing c xs a e [] valid).links in
    let here : c.entry a ≡ some e = stored_at c xs a e [] valid in
    rw
      (
        oldest,
        unlink_lem c xs a e [] valid,
        load_lem (unlinked c a) a e here,
        free_lem (record (unlinked c a) { caches = erase e.key c.caches }) a e here
            (from-Apart c xs a e [] valid).0,
      )
      refl

-- The cache with as many of the most recent entries as may stay, and the same settings.
abbrev pub Limits : LruCache → Slots → Result LruCache → Type 0
Limits c ns r =
    (c' : LruCache) × (ns' : Slots) × (r ≡ ok c')
    × IsCache c' ns'
    × (entries ns' ≡ limit c.max_num (entries ns))
    × (c'.max_num ≡ c.max_num)
    × (c'.time_interval ≡ c.time_interval)

abbrev Takes : LruCache → Slots → Result LruCache → Type 0
Takes c ns r =
    (c' : LruCache) × (ns' : Slots) × (r ≡ ok c')
    × IsCache c' ns'
    × (entries ns' ≡ take c.max_num (entries ns))
    × (c'.max_num ≡ c.max_num)
    × (c'.time_interval ≡ c.time_interval)

take_enough {ℓ} : {A : Type ℓ} (n : ℕ) (xs : List A) → length xs ≤ n → take n xs ≡ xs
take_enough zero [] h = refl
take_enough zero (x ∷ xs) h = absurd (omega arith)
take_enough (suc n) [] h = refl
take_enough (suc n) (x ∷ xs) h = ap (◌∷◌ x) (take_enough n xs (omega arith))

take_front {ℓ} :
    {A : Type ℓ} (n : ℕ) (xs ys : List A) → n ≤ length xs → take n (xs ++ ys) ≡ take n xs
take_front zero xs ys h = refl
take_front (suc n) [] ys h = absurd (omega arith)
take_front (suc n) (x ∷ xs) ys h = ap (◌∷◌ x) (take_front n xs ys (omega arith))

stays : (c : LruCache) (ns : Slots) → IsCache c ns → length c.caches ≤ c.max_num → Takes c ns (ok c)
stays c ns valid few = (
  c,
  ns,
  refl,
  valid,
  sym (take_enough c.max_num (entries ns) (omega (arith, length-entries ns, valid.count))),
  refl,
  refl,
)

-- One round, after which there are fewer entries; the last one is left out by `take`.
one_round :
    (rounds : ℕ) (c : LruCache) (xs : Slots) (a : ℕ) (e : Entry)
    → (valid : IsCache c (xs ++ ((a, e) ∷ []))) → c.max_num < length c.caches
    → Takes
        (dropped c xs a e [] valid)
        (xs ++ [])
        (remove_expired_loop rounds (dropped c xs a e [] valid))
    → Takes c (xs ++ ((a, e) ∷ [])) (remove_expired_loop (suc rounds) c)
unfolding remove_expired_loop
one_round rounds c xs a e valid full (c', ns', runs, valid', es, m, t) = (
  c',
  ns',
  rw (lt→ltb c.max_num (length c.caches) full, remove_oldest_lem c xs a e valid) runs,
  valid',
  es ∙ ap (λ (l : Slots). take c.max_num (entries l)) (append-nil xs) ∙ sym shorter,
  m,
  t,
)
  where
    shorter : take c.max_num (entries (xs ++ ((a, e) ∷ []))) ≡ take c.max_num (entries xs)
    shorter = rw (entries-append xs ((a, e) ∷ [])) (
        take_front c.max_num (entries xs) (e ∷ [])
          (omega (arith, full, valid.count, length-entries xs, length-append xs ((a, e) ∷ []))))

-- As many rounds as there are entries are enough.
remove_expired_loop-Takes :
    (rounds : ℕ) (c : LruCache) (ns : Slots)
    → IsCache c ns
    → length ns ≤ rounds
    → Takes c ns (remove_expired_loop rounds c)
unfolding remove_expired_loop
remove_expired_loop-Takes zero c ns valid h =
    rw (ltb-false c.max_num (length c.caches) (omega (arith, valid.count)))
      (stays c ns valid (omega (arith, valid.count)))
remove_expired_loop-Takes (suc rounds) c [] valid h =
    rw (ltb-false c.max_num (length c.caches) (omega (arith, valid.count)))
      (stays c [] valid (omega (arith, valid.count)))
remove_expired_loop-Takes (suc rounds) c (n ∷ ns) valid h =
    elim (dec_lt c.max_num (length c.caches)) [
      | yes full ↦ ends (n ∷ ns) valid full h (snoc n ns) (remove_expired_loop-Takes rounds)
      | no fits ↦
          rw (ltb-false c.max_num (length c.caches) (omega arith))
            (stays c (n ∷ ns) valid (omega arith))
    ]
  where
    ends :
        (ns : Slots)
        → IsCache c ns
        → c.max_num < length c.caches
        → length ns ≤ suc rounds
        → (xs : Slots) × (m : ℕ × Entry) × (ns ≡ xs ++ (m ∷ []))
        → ((c : LruCache) (ns : Slots)
            → IsCache c ns
            → length ns ≤ rounds
            → Takes c ns (remove_expired_loop rounds c))
        → Takes c ns (remove_expired_loop (suc rounds) c)
    ends ns valid full h (xs, (a, e), eq) rest =
        let valid' : IsCache c (xs ++ ((a, e) ∷ [])) =
          subst (λ (l : Slots). IsCache c l) eq valid in
        subst (λ (l : Slots). Takes c l (remove_expired_loop (suc rounds) c)) (sym eq)
          (one_round rounds c xs a e valid' full (
            rest (dropped c xs a e [] valid') (xs ++ [])
              (dropped-IsCache c xs a e [] valid' (key_at c xs a e [] valid'))
              (omega
                (arith, h, ap length eq, length-append xs ((a, e) ∷ []), length-append xs []))))

-- RemoveExpiredNodes on a well-formed cache ends, without an undefined access, and leaves as
-- many of the most recent entries as the maximum allows, in their order.
pub remove_expired_nodes-Limits :
    (c : LruCache) (ns : Slots) → IsCache c ns → Limits c ns (remove_expired_nodes c)
unfolding remove_expired_nodes limit
remove_expired_nodes-Limits c ns valid = elim (Bool-cases (c.max_num == 0)) [
  | inl unlimited ↦ rw unlimited (c, ns, refl, valid, refl, refl, refl)
  | inr limited ↦ rw limited (elim (dec_lt c.max_num (length c.caches)) [
    | yes full ↦
        rw (lt→ltb c.max_num (length c.caches) full)
          (remove_expired_loop-Takes (length c.caches) c ns valid (omega (arith, valid.count)))
    | no fits ↦
        rw (ltb-false c.max_num (length c.caches) (omega arith)) (stays c ns valid (omega arith))
  ])
]
