-- ===== src/LruCache/Destroy.antt =====
-- The destructor of store/cache/lru_cache/src/lru_cache.cc frees every node of the ring.
use csutil.Common.{ℕ, zero, suc, ◌≡◌, refl, sym, ap, ◌∙◌, arith, List, [], ◌∷◌, All, length}
use csutil.Common.{Option, none, unequal}
use csutil.Common.Status.{Result, ok}
use native.Mathlib.Decide.{ℕ_discrete}
use csutil.LruCache.{LruCache, Entry, cur_list, destroy, destroy_loop}
use csutil.LruCache.Ring.{update, update_self, update_ne, Distinct-middle}
use csutil.LruCache.Slots.{Slots, addresses}
use csutil.LruCache.Links.{IsRing, unlinked, unlinked-IsRing, remove_handle_node_lem}
use csutil.LruCache.Contents.{IsCache}
use csutil.LruCache.Steps.{free_lem, IsAlive-update}

abbrev pub AllFreed : (ℕ → Option Entry) → List ℕ → Type 0
AllFreed entry xs = All (λ a. entry a ≡ none) xs

-- The loop ends with an empty ring and all of its nodes freed, and a node freed before stays so.
abbrev pub Frees : LruCache → List ℕ → Result LruCache → Type 0
Frees c xs r =
    (c' : LruCache) × (r ≡ ok c')
    × IsRing c' []
    × AllFreed c'.entry xs
    × ((a : ℕ) → c.entry a ≡ none → c'.entry a ≡ none)

update-none : (entry : ℕ → Option Entry) (a b : ℕ) → entry b ≡ none → update entry a none b ≡ none
update-none entry a b h = elim (ℕ_discrete a b) [
  | yes same ↦ rw same (update_self entry b none)
  | no differ ↦ update_ne entry a b none differ ∙ h
]

destroy_loop-Frees :
    (rounds : ℕ) (c : LruCache) (xs : List ℕ)
    → IsRing c xs
    → length xs ≡ rounds
    → Frees c xs (destroy_loop rounds c)
unfolding destroy_loop
destroy_loop-Frees zero c [] ring h = rw (ring.links.0) (c, refl, ring, tt, λ a h. h)
destroy_loop-Frees zero c (a ∷ xs) ring h = absurd (omega arith)
destroy_loop-Frees (suc rounds) c [] ring h = absurd (omega arith)
destroy_loop-Frees (suc rounds) c (a ∷ xs) ring h =
    let (e, here) = ring.alive.1.0 in
    let apart = Distinct-middle (cur_list ∷ []) a xs ring.apart in
    let off = unlinked-IsRing c [] a xs ring in
    let c2 : LruCache = record (unlinked c a) { entry = update c.entry a none } in
    let ring' : IsRing c2 xs = record {
      links = off.links;
      apart = off.apart;
      alive = IsAlive-update (unlinked c a) (cur_list ∷ xs) a none apart off.alive;
    } in
    let (c', runs, empty, freed, stays) =
      destroy_loop-Frees rounds c2 xs ring' (omega (arith, h)) in
    rw
      (
        ring.links.0,
        unequal a cur_list apart.0,
        remove_handle_node_lem c [] a xs ring,
        free_lem (unlinked c a) a e here apart.0,
      )
      (
        c',
        runs,
        empty,
        (stays a (update_self c.entry a none), freed),
        λ b h. stays b (update-none c.entry a b h),
      )

length-addresses : (ns : Slots) → length (addresses ns) ≡ length ns
length-addresses [] = refl
length-addresses (n ∷ ns) = ap suc (length-addresses ns)

-- The destructor of a well-formed cache ends, without an undefined access, with an empty ring
-- and every node of the ring freed.
pub destroy-Frees : (c : LruCache) (ns : Slots) → IsCache c ns → Frees c (addresses ns) (destroy c)
unfolding destroy
destroy-Frees c ns valid =
    destroy_loop-Frees (length c.caches) (record c { caches = [] }) (addresses ns)
      (record { links = valid.ring.links; apart = valid.ring.apart; alive = valid.ring.alive })
      (length-addresses ns ∙ sym valid.count)
