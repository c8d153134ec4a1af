-- ===== src/Words/Laws.antt =====
-- The three functions of base/util.cc agree on the words of a string.
use csutil.Common.{
  ℕ, zero, suc, ◌+◌, ◌-◌, ◌<◌, ◌≡◌, ◌≢◌, refl, sym, ap, ◌∙◌, arith, ◌==◌, equal, unequal,
  if◌then◌else◌, false, Bool-cases,
}
use csutil.Common.{
  List, [], ◌∷◌, ◌++◌, length, length-append, All, All-split, Option, none, some, Option-cases, inl,
  inr,
}
use csutil.Common.Status.{Result, ok, err, not_found, invalid_param}
use csutil.Words.{
  put_before, strchr, until_nul, at_end, strtok_loop, strtok, num_loop, get_num_of_elements,
}
use csutil.Words.{last_element, element_loop, get_element_of_index}
use mathlib.Core.Option.{none-ne-some}
use native.Mathlib.Decide.{ℕ_discrete}
use mathlib.Core.Path.{subst}

abbrev pub NoNul : List ℕ → Type 0
NoNul cs = All (λ c. c ≢ 0) cs

-- The words with the character between them.
pub rejoined : ℕ → List (List ℕ) → List ℕ
rejoined delim [] = []
rejoined delim (w ∷ []) = w
rejoined delim (w ∷ v ∷ words) = w ++ delim ∷ rejoined delim (v ∷ words)

-- The word of a position.
pub word_at : List (List ℕ) → ℕ → Result (List ℕ)
word_at [] k = err not_found
word_at (w ∷ words) zero = ok w
word_at (w ∷ words) (suc k) = word_at words k

Parts : ℕ → Option (List ℕ × List ℕ) → List ℕ → Type 0
Parts delim none cs = Unit {0}
Parts delim (some (word, rest)) cs = cs ≡ word ++ delim ∷ rest

put_before-Parts :
    (delim c : ℕ) (o : Option (List ℕ × List ℕ)) (cs : List ℕ)
    → Parts delim o cs
    → Parts delim (put_before c o) (c ∷ cs)
unfolding put_before Parts
put_before-Parts delim c none cs h = tt
put_before-Parts delim c (some (word, rest)) cs h = ap (λ t. c ∷ t) h

strchr-Parts : (delim : ℕ) (cs : List ℕ) → Parts delim (strchr delim cs) cs
unfolding strchr Parts
strchr-Parts delim [] = tt
strchr-Parts delim (c ∷ cs) = elim (ℕ_discrete c delim) [
  | yes here ↦ rw (here, equal delim) refl
  | no other ↦ elim (ℕ_discrete c 0) [
    | yes nul ↦ rw (unequal c delim other, nul) tt
    | no more ↦
        rw (unequal c delim other, unequal c 0 more)
          (put_before-Parts delim c (strchr delim cs) cs (strchr-Parts delim cs))
  ]
]

until_nul_lem : (cs : List ℕ) → NoNul cs → until_nul cs ≡ cs
unfolding until_nul
until_nul_lem [] h = refl
until_nul_lem (c ∷ cs) (h, hs) = rw (unequal c 0 h) (ap (λ t. c ∷ t) (until_nul_lem cs hs))

strchr-some :
    (delim : ℕ) (cs word rest : List ℕ)
    → strchr delim cs ≡ some (word, rest)
    → cs ≡ word ++ delim ∷ rest
unfolding Parts
strchr-some delim cs word rest e = subst (λ o. Parts delim o cs) e (strchr-Parts delim cs)

rest-NoNul :
    (delim : ℕ) (cs word rest : List ℕ)
    → NoNul cs
    → cs ≡ word ++ delim ∷ rest
    → NoNul rest × (length rest < length cs)
rest-NoNul delim cs word rest h e =
    let (d, hs) = (All-split (λ c. c ≢ 0) word (delim ∷ rest) (subst NoNul e h)).1 in
    (hs, omega (arith, ap length e, length-append word (delim ∷ rest)))

at_end-found :
    (delim : ℕ) (cs : List ℕ) (found : List ℕ × List ℕ)
    → NoNul cs
    → strchr delim cs ≡ some found
    → at_end cs ≡ false
unfolding at_end strchr
at_end-found delim [] found h e = absurd (none-ne-some found e)
at_end-found delim (c ∷ cs) found (h, hs) e = unequal c 0 h

num_loop-none :
    (rounds num delim : ℕ) (cs : List ℕ)
    → strchr delim cs ≡ none
    → num_loop (suc rounds) num delim cs ≡ num
unfolding num_loop
num_loop-none rounds num delim cs e = elim (Bool-cases (at_end cs)) [
  | inl end ↦ rw (end, num_loop) refl
  | inr more ↦ rw (more, e, num_loop) refl
]

num_loop-some :
    (rounds num delim : ℕ) (cs word rest : List ℕ)
    → at_end cs ≡ false
    → strchr delim cs ≡ some (word, rest)
    → num_loop (suc rounds) num delim cs ≡ num_loop rounds (suc num) delim rest
unfolding num_loop
num_loop-some rounds num delim cs word rest more e = rw (more, e, num_loop) refl

element_loop-none :
    (rounds num i delim : ℕ) (cs : List ℕ)
    → strchr delim cs ≡ none
    → element_loop (suc rounds) num i delim cs ≡ last_element num i cs
unfolding element_loop
element_loop-none rounds num i delim cs e = elim (Bool-cases (at_end cs)) [
  | inl end ↦ rw (end, element_loop) refl
  | inr more ↦ rw (more, e, element_loop) refl
]

element_loop-some :
    (rounds num i delim : ℕ) (cs word rest : List ℕ)
    → at_end cs ≡ false
    → strchr delim cs ≡ some (word, rest)
    → element_loop (suc rounds) num i delim cs
      ≡ (if num == i - 1 then ok word else element_loop rounds (suc num) i delim rest)
unfolding element_loop
element_loop-some rounds num i delim cs word rest more e = rw (more, e, element_loop) refl

strtok_loop-none :
    (rounds delim : ℕ) (cs : List ℕ)
    → strchr delim cs ≡ none
    → strtok_loop (suc rounds) delim cs ≡ until_nul cs ∷ []
unfolding strtok_loop
strtok_loop-none rounds delim cs e = rw (e, strtok_loop) refl

strtok_loop-some :
    (rounds delim : ℕ) (cs word rest : List ℕ)
    → strchr delim cs ≡ some (word, rest)
    → strtok_loop (suc rounds) delim cs ≡ word ∷ strtok_loop rounds delim rest
unfolding strtok_loop
strtok_loop-some rounds delim cs word rest e = rw (e, strtok_loop) refl

rejoined-cons :
    (delim : ℕ) (w : List ℕ) (words : List (List ℕ))
    → 0 < length words
    → rejoined delim (w ∷ words) ≡ w ++ delim ∷ rejoined delim words
unfolding rejoined
rejoined-cons delim w [] h = absurd (omega (arith, h))
rejoined-cons delim w (v ∷ words) h = refl

-- The word of an index behind num, by its place.
by_place :
    (num i : ℕ) (w : List ℕ) (words : List (List ℕ)) (further : Result (List ℕ))
    → num < i
    → (suc num < i → further ≡ word_at words (i - 1 - suc num))
    → (if num == i - 1 then ok w else further) ≡ word_at (w ∷ words) (i - 1 - num)
unfolding word_at
by_place num i w words further h e = elim (ℕ_discrete num (i - 1)) [
  | yes here ↦
      let first : i - 1 - num ≡ 0 = omega (arith, here) in
      rw (first) (rw (here, equal (i - 1)) refl)
  | no behind ↦
      let later : i - 1 - num ≡ suc (i - 1 - suc num) = omega (arith, behind, h) in
      rw (unequal num (i - 1) behind, later) (e (omega (arith, behind, h)))
]

AreWords : ℕ → ℕ → List ℕ → List (List ℕ) → Type 0
AreWords rounds delim cs words =
    (rejoined delim words ≡ cs)
    × ((num : ℕ) → suc (num_loop rounds num delim cs) ≡ num + length words)
    × ((num i : ℕ) → num < i → element_loop rounds num i delim cs ≡ word_at words (i - 1 - num))

not_there : (k : ℕ) → err not_found ≡ word_at [] k
unfolding word_at
not_there k = refl

strtok_loop-AreWords :
    (rounds delim : ℕ) (cs : List ℕ)
    → NoNul cs
    → length cs < rounds
    → AreWords rounds delim cs (strtok_loop rounds delim cs)
unfolding AreWords rejoined last_element
strtok_loop-AreWords zero delim cs h r = absurd (omega (arith, r))
strtok_loop-AreWords (suc rounds) delim cs h r = elim (Option-cases (strchr delim cs)) [
  | inl e ↦
      rw (strtok_loop-none rounds delim cs e, until_nul_lem cs h)
        (
          refl,
          λ num. ap suc (num_loop-none rounds num delim cs e) ∙ omega arith,
          λ num i p.
              element_loop-none rounds num i delim cs e
              ∙ by_place num i cs [] (err not_found) p (λ q. not_there (i - 1 - suc num)),
        )
  | inr ((word, rest), e) ↦
      let s = strchr-some delim cs word rest e in
      let more = at_end-found delim cs (word, rest) h e in
      let (hs, shorter) = rest-NoNul delim cs word rest h s in
      let (j, n, m) = strtok_loop-AreWords rounds delim rest hs (omega (arith, r, shorter)) in
      let words = strtok_loop rounds delim rest in
      rw (strtok_loop-some rounds delim cs word rest e) (
        rejoined-cons delim word words (omega (arith, n 0)) ∙ ap (λ t. word ++ delim ∷ t) j ∙ sym s,
        λ num.
            ap suc (num_loop-some rounds num delim cs word rest more e) ∙ n (suc num) ∙ omega arith,
        λ num i p.
            element_loop-some rounds num i delim cs word rest more e
            ∙ by_place num i word words (element_loop rounds (suc num) i delim rest) p
                (m (suc num) i),
      )
]

-- Of a string without 0 bytes, and for a character other than 0, the words of Strtok with the
-- character between them make up the string; GetNumOfElements gives their number, and
-- GetElementOfIndex the word of an index from 1 on, kNotFound behind the last and kInvalidParam
-- for 0.
pub get_element_of_index-strtok :
    (src : List ℕ) (delim : ℕ)
    → NoNul src
    → delim ≢ 0
    → (rejoined delim (strtok src delim) ≡ src)
      × (get_num_of_elements src delim ≡ length (strtok src delim))
      × (get_element_of_index src 0 delim ≡ err invalid_param)
      × ((i : ℕ) → get_element_of_index src (suc i) delim ≡ word_at (strtok src delim) i)
unfolding strtok get_num_of_elements get_element_of_index AreWords
get_element_of_index-strtok src delim h d =
    let (j, n, m) = strtok_loop-AreWords (suc (length src)) delim src h (omega arith) in
    (
      j,
      n 0 ∙ omega arith,
      refl,
      λ i. rw (unequal (suc i) 0 (omega arith)) (
          m 0 (suc i) (omega arith)
          ∙ ap (word_at (strtok_loop (suc (length src)) delim src)) (omega arith)),
    )
