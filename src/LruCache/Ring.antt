-- ===== src/LruCache/Ring.antt =====
-- The doubly linked ring of store/cache/lru_cache/src/lru_cache.h: `next` and `pre` by address, and
-- the addresses on the ring in order, without the head.
use mathlib.Core.Path.{subst}
use csutil.Common.{
  ℕ, ◌≡◌, ◌≢◌, sym, ◌∙◌, arith, List, [], ◌∷◌, ◌++◌, All, All-append, ◌==◌, if◌then◌else◌,
}

abbrev pub update {ℓ} : {A : Type ℓ} → (ℕ → A) → ℕ → A → ℕ → A
update f p v q = if p == q then v else f q

pub update_self {ℓ} : {A : Type ℓ} (f : ℕ → A) (p : ℕ) (v : A) → update f p v p ≡ v
update_self f p v = ground arith

pub update_ne {ℓ} : {A : Type ℓ} (f : ℕ → A) (p q : ℕ) (v : A) → p ≢ q → update f p v q ≡ f q
update_ne f p q v h = ground arith

-- No address of the list is the one given, and none stands in the list twice.
abbrev pub Apart : ℕ → List ℕ → Type 0
Apart p xs = All (λ x. p ≢ x) xs

abbrev pub Distinct : List ℕ → Type 0
Distinct [] = Unit
Distinct (x ∷ xs) = Apart x xs × Distinct xs

-- The last address of a run that starts behind `p`.
abbrev pub last : ℕ → List ℕ → ℕ
last p [] = p
last p (x ∷ xs) = last x xs

-- Parts of a list without repetition.
pub Apart-append : (p : ℕ) (xs ys : List ℕ) → Apart p (xs ++ ys) → Apart p xs × Apart p ys
Apart-append p [] ys h = (tt, h)
Apart-append p (x ∷ xs) ys (h, hs) = let (l, r) = Apart-append p xs ys hs in ((h, l), r)

pub Distinct-append : (xs ys : List ℕ) → Distinct (xs ++ ys) → Distinct xs × Distinct ys
Distinct-append [] ys d = (tt, d)
Distinct-append (x ∷ xs) ys (h, d) =
    let (l, r) = Distinct-append xs ys d in (((Apart-append x xs ys h).0, l), r)

pub last-Apart : (p : ℕ) (xs ys : List ℕ) → Distinct (p ∷ (xs ++ ys)) → Apart (last p xs) ys
last-Apart p [] ys (h, d) = h
last-Apart p (x ∷ xs) ys (h, d) = last-Apart x xs ys d

pub middle-Apart : (xs : List ℕ) (y : ℕ) (ys : List ℕ) → Distinct (xs ++ (y ∷ ys)) → Apart y xs
middle-Apart [] y ys d = tt
middle-Apart (x ∷ xs) y ys (h, d) =
    let (l, r) = Apart-append x xs (y ∷ ys) h in ((λ e. r.0 (sym e)), middle-Apart xs y ys d)

pub Distinct-middle :
    (xs : List ℕ) (y : ℕ) (ys : List ℕ) → Distinct (xs ++ (y ∷ ys)) → Apart y (xs ++ ys)
Distinct-middle xs y ys d =
    All-append (λ z. y ≢ z) xs ys (middle-Apart xs y ys d) (Distinct-append xs (y ∷ ys) d).1.0

pub Distinct-remove :
    (xs : List ℕ) (y : ℕ) (ys : List ℕ) → Distinct (xs ++ (y ∷ ys)) → Distinct (xs ++ ys)
Distinct-remove [] y ys (h, d) = d
Distinct-remove (x ∷ xs) y ys (h, d) =
    let (l, r) = Apart-append x xs (y ∷ ys) h in
    (All-append (λ z. x ≢ z) xs ys l r.1, Distinct-remove xs y ys d)

module _ (head : ℕ) where
  -- The links from `p` along the addresses, and those back to the head of the ring.
  abbrev pub Run : (ℕ → ℕ) → (ℕ → ℕ) → ℕ → List ℕ → Type 0
  Run next pre p [] = Unit {0}
  Run next pre p (x ∷ xs) = (next p ≡ x) × (pre x ≡ p) × Run next pre x xs

  abbrev pub Back : (ℕ → ℕ) → (ℕ → ℕ) → ℕ → List ℕ → Type 0
  Back next pre p [] = (next p ≡ head) × (pre head ≡ p)
  Back next pre p (x ∷ xs) = (next p ≡ x) × (pre x ≡ p) × Back next pre x xs

  pub Back-split :
      (next pre : ℕ → ℕ) (p : ℕ) (xs ys : List ℕ)
      → Back next pre p (xs ++ ys)
      → Run next pre p xs × Back next pre (last p xs) ys
  Back-split next pre p [] ys b = (tt, b)
  Back-split next pre p (x ∷ xs) ys (n, r, b) =
      let (run, rest) = Back-split next pre x xs ys b in ((n, r, run), rest)

  pub Back-join :
      (next pre : ℕ → ℕ) (p : ℕ) (xs ys : List ℕ)
      → Run next pre p xs
      → Back next pre (last p xs) ys
      → Back next pre p (xs ++ ys)
  Back-join next pre p [] ys run b = b
  Back-join next pre p (x ∷ xs) ys (n, r, run) b = (n, r, Back-join next pre x xs ys run b)

  pub Back-last :
      (next pre : ℕ → ℕ) (p : ℕ) (xs : List ℕ) (a : ℕ)
      → Back next pre p (xs ++ (a ∷ []))
      → pre head ≡ a
  Back-last next pre p [] a (_, _, (_, r)) = r
  Back-last next pre p (x ∷ xs) a (_, _, b) = Back-last next pre x xs a b

  -- What a write elsewhere leaves alone.
  pub Back-update :
      (next pre : ℕ → ℕ) (p : ℕ) (xs : List ℕ) (a b v w : ℕ)
      → Apart a (p ∷ xs)
      → Apart b (head ∷ xs)
      → Back next pre p xs
      → Back (update next a v) (update pre b w) p xs
  Back-update next pre p [] a b v w (here, _) (bh, _) (n, r) =
      (update_ne next a p v here ∙ n, update_ne pre b head w bh ∙ r)
  Back-update next pre p (x ∷ xs) a b v w (here, rest) (bh, (bx, bs)) (n, r, back) = (
    update_ne next a p v here ∙ n,
    update_ne pre b x w bx ∙ r,
    Back-update next pre x xs a b v w rest (bh, bs) back,
  )

  Apart-last : (p x : ℕ) (xs : List ℕ) → Apart p (x ∷ xs) → last x xs ≢ p
  Apart-last p x [] (h, _) = λ e. h (sym e)
  Apart-last p x (y ∷ xs) (h, hs) = Apart-last p y xs hs

  pub Run-update-last :
      (next pre : ℕ → ℕ) (p : ℕ) (xs : List ℕ) (b v w : ℕ)
      → Distinct (p ∷ xs)
      → Apart b xs
      → Run next pre p xs
      → Run (update next (last p xs) v) (update pre b w) p xs
  Run-update-last next pre p [] b v w d h run = tt
  Run-update-last next pre p (x ∷ xs) b v w (px, d) (bx, bs) (n, r, run) = (
    update_ne next (last x xs) p v (Apart-last p x xs px) ∙ n,
    update_ne pre b x w bx ∙ r,
    Run-update-last next pre x xs b v w d bs run,
  )

  -- Taking an address out of the ring, as RemoveHandleNode does.
  pub Back-remove :
      (next pre : ℕ → ℕ) (xs : List ℕ) (a : ℕ) (ys : List ℕ)
      → Distinct (head ∷ (xs ++ (a ∷ ys)))
      → Back next pre head (xs ++ (a ∷ ys))
      → Back (update next (pre a) (next a)) (update pre (next a) (pre a)) head (xs ++ ys)
  Back-remove next pre xs a ys d back =
      let (run, (n, r, rest)) = Back-split next pre head xs (a ∷ ys) back in
      rw r (without ys d run rest)
    where
      q : ℕ
      q = last head xs

      without :
          (ys : List ℕ)
          → Distinct (head ∷ (xs ++ (a ∷ ys)))
          → Run next pre head xs
          → Back next pre a ys
          → Back (update next q (next a)) (update pre (next a) q) head (xs ++ ys)
      without [] (h, d) run (n, r) =
          let (hx, _) = Apart-append head xs (a ∷ []) h in
          rw n (
            Back-join (update next q head) (update pre head q) head xs []
              (Run-update-last next pre head xs head head q (hx, (Distinct-append xs (a ∷ []) d).0)
                hx run)
              (update_self next q head, update_self pre head q))
      without (y ∷ ys) (h, d) run (n, r, rest) =
          let (hx, hr) = Apart-append head xs (a ∷ y ∷ ys) h in
          let (dx, dr) = Distinct-append xs (a ∷ y ∷ ys) d in
          let qs = last-Apart head xs (a ∷ y ∷ ys) (h, d) in
          let yx = middle-Apart xs y ys (Distinct-remove xs a (y ∷ ys) d) in
          rw n (
            Back-join (update next q y) (update pre y q) head xs (y ∷ ys)
              (Run-update-last next pre head xs y y q (hx, dx) yx run)
              (
                update_self next q y,
                update_self pre y q,
                Back-update next pre y ys q y y q qs.1 ((λ e. hr.1.0 (sym e)), dr.1.0) rest,
              ))

  insert_first :
      (next pre : ℕ → ℕ) (xs : List ℕ) (x a : ℕ)
      → Distinct (head ∷ a ∷ x ∷ xs)
      → Back next pre head (x ∷ xs)
      → Back (update (update next a x) head a) (update (update pre a (pre x)) x a) head (a ∷ x ∷ xs)
  insert_first next pre xs x a ((ha, (hx, hs)), ((ax, as'), (xs', d))) (n, r, back) = (
    update_self (update next a x) head a,
    update_ne (update pre a (pre x)) x a a (λ e. ax (sym e)) ∙ update_self pre a (pre x) ∙ r,
    (
      update_ne (update next a x) head a a ha ∙ update_self next a x,
      update_self (update pre a (pre x)) x a,
      Back-update (update next a x) (update pre a (pre x)) x xs head x a a (hx, hs)
          ((λ e. hx (sym e)), xs')
          (Back-update next pre x xs a a x (pre x) (ax, as') ((λ e. ha (sym e)), as') back),
    ),
  )

  insert_only :
      (next pre : ℕ → ℕ) (a : ℕ)
      → head ≢ a
      → pre head ≡ head
      → Back
          (update (update next a head) head a)
          (update (update pre a (pre head)) head a)
          head
          (a ∷ [])
  insert_only next pre a ha r = (
    update_self (update next a head) head a,
    update_ne (update pre a (pre head)) head a a ha ∙ update_self pre a (pre head) ∙ r,
    (
      update_ne (update next a head) head a a ha ∙ update_self next a head,
      update_self (update pre a (pre head)) head a,
    ),
  )

  -- Putting an address behind the head, as InsertHandleNode does.
  pub Back-insert :
      (next pre : ℕ → ℕ) (xs : List ℕ) (a : ℕ)
      → Distinct (head ∷ a ∷ xs)
      → Back next pre head xs
      → Back
          (update (update next a (next head)) head a)
          (update (update pre a (pre (next head))) (next head) a)
          head
          (a ∷ xs)
  Back-insert next pre [] a ((ha, _), _) (n, r) =
      subst
        (λ (f : ℕ).
          Back (update (update next a f) head a) (update (update pre a (pre f)) f a) head (a ∷ []))
        (sym n) (insert_only next pre a ha r)
  Back-insert next pre (x ∷ xs) a d back =
      subst
        (λ (f : ℕ).
          Back (update (update next a f) head a) (update (update pre a (pre f)) f a) head
            (a ∷ x ∷ xs))
        (sym back.0) (insert_first next pre xs x a d back)
