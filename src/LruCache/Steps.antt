-- ===== src/LruCache/Steps.antt =====
-- What the functions of store/cache/lru_cache/src/lru_cache.cc do to the memory and the map, one
-- node at a time.
use csutil.Common.{ℕ, ◌+◌, ◌<◌, ◌≡◌, ◌≢◌, refl, sym, ap, ◌∙◌, arith, List, [], ◌∷◌, ◌++◌, All}
use csutil.Common.{All-append, All-split, All-map, length-append}
use csutil.Common.{Option, none, some, if◌then◌else◌, unequal, Bool-cases, inl, inr}
use native.Mathlib.Decide.{ℕ_discrete}
use csutil.Common.Status.{ok}
use csutil.LruCache.{LruCache, Entry, cur_list, load, set_entry, free, remove_handle_node}
use csutil.LruCache.{insert_handle_node, refresh, new_node}
use csutil.LruCache.Map.{find, add, erase, find-erase, erase-HasUniqueKeys, length-erase}
use csutil.LruCache.Map.{same, same_iff}
use csutil.LruCache.Ring.{
  update, update_self, update_ne, Apart, Apart-append, Distinct-middle, Back-update,
}
use csutil.LruCache.Links.{
  IsAlive, IsRing, unlinked, linked, remove_handle_node_lem, unlinked-IsRing,
}
use csutil.LruCache.Links.{insert_handle_node_lem, linked-IsRing}
use csutil.LruCache.Slots.{Slots, addresses, address, addresses-append}
use csutil.LruCache.Slots.{address-remove, HasDistinctKeys-remove, address-removed}
use csutil.LruCache.Contents.{IsCache}

abbrev StoredIn : (ℕ → Option Entry) → Slots → Type 0
StoredIn entry ns = All (λ (n : ℕ × Entry). entry n.0 ≡ some n.1) ns

-- A write to a node that is not among those of the list.
stored-update :
    (entry : ℕ → Option Entry) (ns : Slots) (a : ℕ) (v : Option Entry)
    → Apart a (addresses ns)
    → StoredIn entry ns
    → StoredIn (update entry a v) ns
stored-update entry [] a v h s = tt
stored-update entry ((b, f) ∷ ns) a v (h, hs) (s, ss) =
    (update_ne entry a b v h ∙ s, stored-update entry ns a v hs ss)

pub IsAlive-update :
    (c : LruCache) (xs : List ℕ) (a : ℕ) (v : Option Entry)
    → Apart a xs
    → All (IsAlive c) xs
    → All (IsAlive (record c { entry = update c.entry a v })) xs
IsAlive-update c [] a v h l = tt
IsAlive-update c (x ∷ xs) a v (h, hs) ((e, l), ls) =
    ((e, update_ne c.entry a x v h ∙ l), IsAlive-update c xs a v hs ls)

module _ (c : LruCache) (xs : Slots) (a : ℕ) (e : Entry) (ys : Slots)
    (valid : IsCache c (xs ++ ((a, e) ∷ ys))) where
  -- The parts of the invariant, by the two sides of the node.
  pub at-IsRing : IsRing c (addresses xs ++ (a ∷ addresses ys))
  at-IsRing = rw (addresses-append xs ((a, e) ∷ ys)) at valid.ring

  pub from-Apart : Apart a (cur_list ∷ (addresses xs ++ addresses ys))
  from-Apart = Distinct-middle (cur_list ∷ addresses xs) a (addresses ys) at-IsRing.apart

  stored_both : (v : Option Entry) → StoredIn (update c.entry a v) (xs ++ ys)
  stored_both v =
      let (left, right) =
        All-split (λ (n : ℕ × Entry). c.entry n.0 ≡ some n.1) xs ((a, e) ∷ ys) valid.stored in
      let (ax, ay) = Apart-append a (addresses xs) (addresses ys) from-Apart.1 in
      All-append (λ (n : ℕ × Entry). update c.entry a v n.0 ≡ some n.1) xs ys
        (stored-update c.entry xs a v ax left) (stored-update c.entry ys a v ay right.1)

  unused_both : All (λ p. p < c.fresh) (a ∷ addresses (xs ++ ys))
  unused_both =
      let below = rw (addresses-append xs ((a, e) ∷ ys)) at valid.unused.1 in
      let (left, right) = All-split (λ p. p < c.fresh) (addresses xs) (a ∷ addresses ys) below in
      rw (addresses-append xs ys)
        (right.0, All-append (λ p. p < c.fresh) (addresses xs) (addresses ys) left right.1)

  abbrev pub dropped : LruCache
  dropped = record (unlinked c a) { entry = update c.entry a none; caches = erase e.key c.caches }

  -- The node is taken off the ring, freed, and its key erased.
  pub dropped-IsCache : find e.key c.caches ≡ some a → IsCache dropped (xs ++ ys)
  dropped-IsCache here =
      let off = unlinked-IsRing c (addresses xs) a (addresses ys) at-IsRing in
      record {
        ring = rw (addresses-append xs ys) (record {
          links = off.links;
          apart = off.apart;
          alive =
              IsAlive-update (unlinked c a) (cur_list ∷ (addresses xs ++ addresses ys)) a none
                from-Apart off.alive;
        });
        stored = stored_both none;
        unused = (valid.unused.0, unused_both.1);
        keys = λ k.
            find-erase e.key k c.caches valid.unique
            ∙ ap (λ (o : Option ℕ). if same e.key k then none else o) (valid.keys k)
            ∙ sym (address-remove k xs a e ys valid.distinct);
        distinct = HasDistinctKeys-remove xs a e ys valid.distinct;
        unique = erase-HasUniqueKeys e.key c.caches valid.unique;
        count = omega (
          arith,
          length-erase e.key c.caches a here,
          valid.count,
          length-append xs ys,
          length-append xs ((a, e) ∷ ys),
        );
      }

  pub unlink_lem : remove_handle_node c a ≡ ok (unlinked c a)
  unlink_lem = remove_handle_node_lem c (addresses xs) a (addresses ys) at-IsRing

IsAlive-set :
    (c : LruCache) (a : ℕ) (e : Entry) (xs : List ℕ)
    → All (IsAlive c) xs
    → All (IsAlive (record c { entry = update c.entry a (some e) })) xs
IsAlive-set c a e xs = All-map (IsAlive c) _ xs (λ p h. elim (ℕ_discrete a p) [
  | yes same ↦ (e, rw same (update_self c.entry p (some e)))
  | no differ ↦ (h.0, update_ne c.entry a p (some e) differ ∙ h.1)
])

set_entry_lem :
    (c : LruCache) (a : ℕ) (e f : Entry)
    → c.entry a ≡ some f
    → set_entry c a e ≡ ok (record c { entry = update c.entry a (some e) })
unfolding set_entry load
set_entry_lem c a e f h = rw h refl

pub load_lem : (c : LruCache) (a : ℕ) (e : Entry) → c.entry a ≡ some e → load c a ≡ ok e
unfolding load
load_lem c a e h = rw h refl

pub free_lem :
    (c : LruCache) (a : ℕ) (e : Entry)
    → c.entry a ≡ some e
    → a ≢ cur_list
    → free c a ≡ ok (record c { entry = update c.entry a none })
unfolding free load
free_lem c a e h differs = rw (h, unequal a cur_list differs) refl

-- A node is given another entry with the same key and comes to the front.
module _ (c : LruCache) (xs : Slots) (a : ℕ) (e e' : Entry) (ys : Slots)
    (valid : IsCache c (xs ++ ((a, e) ∷ ys))) (same_key : e'.key ≡ e.key) where
  abbrev written : LruCache
  written = record c { entry = update c.entry a (some e') }

  abbrev pub refreshed : LruCache
  refreshed = linked (unlinked written a) a

  written-IsRing : IsRing written (addresses xs ++ (a ∷ addresses ys))
  written-IsRing =
      let ring = at-IsRing c xs a e ys valid in
      record {
        links = ring.links;
        apart = ring.apart;
        alive = IsAlive-set c a e' (cur_list ∷ (addresses xs ++ (a ∷ addresses ys))) ring.alive;
      }

  after-IsRing : IsRing (unlinked written a) (addresses xs ++ addresses ys)
  after-IsRing = unlinked-IsRing written (addresses xs) a (addresses ys) written-IsRing

  entry_at : c.entry a ≡ some e
  entry_at =
      (All-split (λ (n : ℕ × Entry). c.entry n.0 ≡ some n.1) xs ((a, e) ∷ ys) valid.stored).1.0

  pub refresh_lem : refresh c a e' ≡ ok refreshed
  unfolding refresh
  refresh_lem =
      rw
        (
          set_entry_lem c a e' e entry_at,
          remove_handle_node_lem written (addresses xs) a (addresses ys) written-IsRing,
          insert_handle_node_lem (unlinked written a) (addresses xs ++ addresses ys) a after-IsRing
              (from-Apart c xs a e ys valid) (e', update_self c.entry a (some e')),
        )
        refl

  keys_kept :
      (k : List ℕ)
      → find e.key c.caches ≡ some a
      → address k (xs ++ ((a, e) ∷ ys)) ≡ (if same e'.key k then some a else address k (xs ++ ys))
  keys_kept k here = elim (Bool-cases (same e.key k)) [
    | inl hit ↦ rw (same_key, hit, ← (same_iff e.key k).0 hit) (sym (valid.keys e.key) ∙ here)
    | inr miss ↦
        rw (same_key, miss) (sym (address-remove k xs a e ys valid.distinct ∙ rw miss refl))
  ]

  pub refreshed-IsCache : find e.key c.caches ≡ some a → IsCache refreshed ((a, e') ∷ (xs ++ ys))
  unfolding address
  refreshed-IsCache here = record {
    ring = rw (addresses-append xs ys) (
        linked-IsRing (unlinked written a) (addresses xs ++ addresses ys) a after-IsRing
          (from-Apart c xs a e ys valid) (e', update_self c.entry a (some e')));
    stored = (update_self c.entry a (some e'), stored_both c xs a e ys valid (some e'));
    unused = (valid.unused.0, unused_both c xs a e ys valid);
    keys = λ k. valid.keys k ∙ keys_kept k here;
    distinct = (
      rw same_key (address-removed xs a e ys valid.distinct),
      HasDistinctKeys-remove xs a e ys valid.distinct,
    );
    unique = valid.unique;
    count = omega (arith, valid.count, length-append xs ys, length-append xs ((a, e) ∷ ys));
  }

-- A new node comes to the front, and its key is added.
module _ (c : LruCache) (e : Entry) (ns : Slots) (valid : IsCache c ns)
    (absent : find e.key c.caches ≡ none) where
  fresh-Apart : Apart c.fresh (cur_list ∷ addresses ns)
  fresh-Apart =
      All-map (λ p. p < c.fresh) (λ p. c.fresh ≢ p) (cur_list ∷ addresses ns) (λ p h e. omega arith)
        valid.unused

  new_node-IsRing : IsRing (new_node c e) (addresses ns)
  unfolding new_node
  new_node-IsRing = record {
    links =
        Back-update cur_list c.next c.pre cur_list (addresses ns) c.fresh c.fresh 0 0 fresh-Apart
          fresh-Apart valid.ring.links;
    apart = valid.ring.apart;
    alive = IsAlive-set c c.fresh e (cur_list ∷ addresses ns) valid.ring.alive;
  }

  abbrev pub added : LruCache
  added = record (linked (new_node c e) c.fresh) { caches = add e.key c.fresh c.caches }

  new-IsAlive : IsAlive (new_node c e) c.fresh
  unfolding new_node
  new-IsAlive = (e, update_self c.entry c.fresh (some e))

  pub insert_new_lem :
      insert_handle_node (new_node c e) c.fresh ≡ ok (linked (new_node c e) c.fresh)
  insert_new_lem =
      insert_handle_node_lem (new_node c e) (addresses ns) c.fresh new_node-IsRing fresh-Apart
        new-IsAlive

  pub added-IsCache : IsCache added ((c.fresh, e) ∷ ns)
  unfolding new_node add find address
  added-IsCache =
      let ring =
        linked-IsRing (new_node c e) (addresses ns) c.fresh new_node-IsRing fresh-Apart
          new-IsAlive in
      record {
        ring = record { links = ring.links; apart = ring.apart; alive = ring.alive };
        stored = (
          update_self c.entry c.fresh (some e),
          stored-update c.entry ns c.fresh (some e) fresh-Apart.1 valid.stored,
        );
        unused = (
          omega (arith, valid.unused.0),
          (
            omega arith,
            All-map (λ p. p < c.fresh) (λ p. p < c.fresh + 1) (addresses ns) (λ p h. omega arith)
                valid.unused.1,
          ),
        );
        keys = λ k. ap (λ (o : Option ℕ). if same e.key k then some c.fresh else o) (valid.keys k);
        distinct = (sym (valid.keys e.key) ∙ absent, valid.distinct);
        unique = (absent, valid.unique);
        count = omega (arith, valid.count);
      }
