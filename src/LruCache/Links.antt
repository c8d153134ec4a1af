-- ===== src/LruCache/Links.antt =====
-- RemoveHandleNode and InsertHandleNode of store/cache/lru_cache/src/lru_cache.cc on a well-formed
-- ring.
use csutil.Common.{ℕ, ◌≡◌, ◌≢◌, refl, sym, ◌∙◌, List, [], ◌∷◌, ◌++◌, All, All-append, All-split}
use csutil.Common.{some}
use csutil.Common.Status.{ok}
use csutil.LruCache.{LruCache, Entry, cur_list, load, set_next, set_pre}
use csutil.LruCache.{remove_handle_node, insert_handle_node}
use csutil.LruCache.Ring.{update, update_self, update_ne, Apart, Distinct, last, Back}
use csutil.LruCache.Ring.{Back-split, last-Apart, Back-remove, Distinct-remove, Back-insert}

-- A node is allocated at the address.
abbrev pub IsAlive : LruCache → ℕ → Type 0
IsAlive c p = (e : Entry) × (c.entry p ≡ some e)

-- The addresses, with the head, are on the ring in this order and allocated.
pub record IsRing (c : LruCache) (xs : List ℕ) : Type 0 where
  pub links : Back cur_list c.next c.pre cur_list xs
  pub apart : Distinct (cur_list ∷ xs)
  pub alive : All (IsAlive c) (cur_list ∷ xs)

abbrev pub unlinked : LruCache → ℕ → LruCache
unlinked c a = record c {
  next = update c.next (c.pre a) (c.next a);
  pre = update c.pre (c.next a) (c.pre a);
}

abbrev pub linked : LruCache → ℕ → LruCache
linked c a = record c {
  next = update (update c.next a (c.next cur_list)) cur_list a;
  pre = update (update c.pre a (c.pre (c.next cur_list))) (c.next cur_list) a;
}

load-IsAlive : (c : LruCache) (p : ℕ) → IsAlive c p → (e : Entry) × (load c p ≡ ok e)
unfolding load
load-IsAlive c p (e, h) = (e, rw h refl)

pub set_next_lem :
    (c : LruCache) (p q : ℕ)
    → IsAlive c p
    → set_next c p q ≡ ok (record c { next = update c.next p q })
unfolding set_next
set_next_lem c p q h = rw ((load-IsAlive c p h).1) refl

pub set_pre_lem :
    (c : LruCache) (p q : ℕ)
    → IsAlive c p
    → set_pre c p q ≡ ok (record c { pre = update c.pre p q })
unfolding set_pre
set_pre_lem c p q h = rw ((load-IsAlive c p h).1) refl

All-last : (P : ℕ → Type 0) (p : ℕ) (xs : List ℕ) → All P (p ∷ xs) → P (last p xs)
All-last P p [] (h, _) = h
All-last P p (x ∷ xs) (_, h) = All-last P x xs h

next-IsAlive :
    (c : LruCache) (p : ℕ) (xs : List ℕ)
    → Back cur_list c.next c.pre p xs
    → All (IsAlive c) (cur_list ∷ xs)
    → IsAlive c (c.next p)
next-IsAlive c p [] (n, _) (h, _) = rw n h
next-IsAlive c p (x ∷ xs) (n, _, _) (_, (h, _)) = rw n h

-- The neighbours of a node on the ring are allocated, and the one before it is another.
neighbours :
    (c : LruCache) (xs : List ℕ) (a : ℕ) (ys : List ℕ)
    → IsRing c (xs ++ (a ∷ ys))
    → IsAlive c a × IsAlive c (c.pre a) × IsAlive c (c.next a) × (c.pre a ≢ a)
neighbours c xs a ys ring =
    let (run, (n, r, rest)) = Back-split cur_list c.next c.pre cur_list xs (a ∷ ys) ring.links in
    let (ha, hs) = ring.alive in
    let (hx, hy) = All-split (IsAlive c) xs (a ∷ ys) hs in
    let (da, ds) = ring.apart in
    (
      hy.0,
      rw r (All-last (IsAlive c) cur_list xs (ha, hx)),
      next-IsAlive c a ys rest (ha, hy.1),
      rw r ((last-Apart cur_list xs (a ∷ ys) ring.apart).0),
    )

-- RemoveHandleNode on a node of the ring.
pub remove_handle_node_lem :
    (c : LruCache) (xs : List ℕ) (a : ℕ) (ys : List ℕ)
    → IsRing c (xs ++ (a ∷ ys))
    → remove_handle_node c a ≡ ok (unlinked c a)
unfolding remove_handle_node
remove_handle_node_lem c xs a ys ring =
    let (ha, hp, hn, differs) = neighbours c xs a ys ring in
    let c' : LruCache = record c { next = update c.next (c.pre a) (c.next a) } in
    let kept : c'.next a ≡ c.next a = update_ne c.next (c.pre a) a (c.next a) differs in
    rw
      (
        (load-IsAlive c a ha).1,
        set_next_lem c (c.pre a) (c.next a) hp,
        kept,
        set_pre_lem c' (c.next a) (c.pre a) hn,
      )
      refl

pub unlinked-IsRing :
    (c : LruCache) (xs : List ℕ) (a : ℕ) (ys : List ℕ)
    → IsRing c (xs ++ (a ∷ ys))
    → IsRing (unlinked c a) (xs ++ ys)
unlinked-IsRing c xs a ys ring =
    let (hx, hy) = All-split (IsAlive c) xs (a ∷ ys) ring.alive.1 in
    record {
      links = Back-remove cur_list c.next c.pre xs a ys ring.apart ring.links;
      apart = Distinct-remove (cur_list ∷ xs) a ys ring.apart;
      alive = (ring.alive.0, All-append (IsAlive c) xs ys hx hy.1);
    }

-- InsertHandleNode on a node that is allocated and not on the ring.
pub insert_handle_node_lem :
    (c : LruCache) (xs : List ℕ) (a : ℕ)
    → IsRing c xs
    → Apart a (cur_list ∷ xs)
    → IsAlive c a
    → insert_handle_node c a ≡ ok (linked c a)
unfolding insert_handle_node
insert_handle_node_lem c xs a ring (other, _) ha =
    let first : ℕ = c.next cur_list in
    let c1 : LruCache = record c { next = update c.next a first } in
    let c2 : LruCache = record c1 { next = update c1.next cur_list a } in
    let c3 : LruCache = record c2 { pre = update c2.pre a (c2.pre first) } in
    let kept : c2.next a ≡ first =
      update_ne c1.next cur_list a a (λ e. other (sym e)) ∙ update_self c.next a first in
    let first_alive : IsAlive c first = next-IsAlive c cur_list xs ring.links ring.alive in
    rw
      (
        set_next_lem c a first ha,
        set_next_lem c1 cur_list a ring.alive.0,
        kept,
        (load-IsAlive c2 first first_alive).1,
        set_pre_lem c2 a (c2.pre first) ha,
        kept,
        set_pre_lem c3 first a first_alive,
      )
      refl

pub linked-IsRing :
    (c : LruCache) (xs : List ℕ) (a : ℕ)
    → IsRing c xs
    → Apart a (cur_list ∷ xs)
    → IsAlive c a
    → IsRing (linked c a) (a ∷ xs)
linked-IsRing c xs a ring (other, ax) ha =
    let d : Distinct (cur_list ∷ a ∷ xs) =
      (((λ e. other (sym e)), ring.apart.0), (ax, ring.apart.1)) in
    record {
      links = Back-insert cur_list c.next c.pre xs a d ring.links;
      apart = d;
      alive = (ring.alive.0, (ha, ring.alive.1));
    }
