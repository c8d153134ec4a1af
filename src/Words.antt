-- ===== src/Words.antt =====
-- base/util.cc: Strtok, GetNumOfElements and GetElementOfIndex, which read the words between the
-- occurrences of a character. The character is not 0: strchr finds that at the end of the string.
pub mod Laws
mod Tests
use csutil.Common.{
  ℕ, zero, suc, ◌-◌, ◌==◌, ◌||◌, if◌then◌else◌, Bool, true, List, [], ◌∷◌, length, Option, none,
  some,
}
use csutil.Common.Status.{Result, ok, err, undefined, invalid_param, not_found}

pub put_before : ℕ → Option (List ℕ × List ℕ) → Option (List ℕ × List ℕ)
put_before c none = none
put_before c (some (word, rest)) = some (c ∷ word, rest)

-- What is before the first occurrence, and behind it, up to the first 0.
pub strchr : ℕ → List ℕ → Option (List ℕ × List ℕ)
strchr delim [] = none
strchr delim (c ∷ cs) =
    let further = put_before c (strchr delim cs) in
    if c == delim then some ([], cs) else if c == 0 then none else further

-- A `const char *` as a std::string.
pub until_nul : List ℕ → List ℕ
until_nul [] = []
until_nul (c ∷ cs) = let further = until_nul cs in if c == 0 then [] else c ∷ further

-- `*cnt == '\0'`
pub at_end : List ℕ → Bool
at_end [] = true
at_end (c ∷ cs) = c == 0

-- The loop of Strtok, with the rounds that are left: every word but the last has a character more.
pub strtok_loop : ℕ → ℕ → List ℕ → List (List ℕ)
strtok_loop zero delim start = []
strtok_loop (suc rounds) delim start = elim (strchr delim start) [
  | none ↦ until_nul start ∷ []
  | some (word, rest) ↦ word ∷ strtok_loop rounds delim rest
]

pub strtok : List ℕ → ℕ → List (List ℕ)
strtok cnt delim = strtok_loop (suc (length cnt)) delim cnt

pub num_loop : ℕ → ℕ → ℕ → List ℕ → ℕ
num_loop zero num delim cnt = num
num_loop (suc rounds) num delim cnt =
    let round : ℕ = elim (strchr delim cnt) [
      | none ↦ num
      | some (word, rest) ↦ num_loop rounds (suc num) delim rest
    ] in
    if at_end cnt then num else round

pub get_num_of_elements : List ℕ → ℕ → ℕ
get_num_of_elements src delim = suc (num_loop (suc (length src)) 0 delim src)

-- Behind the loop of GetElementOfIndex.
pub last_element : ℕ → ℕ → List ℕ → Result (List ℕ)
last_element num element_index cnt = if num == element_index - 1 then ok cnt else err not_found

pub element_loop : ℕ → ℕ → ℕ → ℕ → List ℕ → Result (List ℕ)
element_loop zero num element_index delim cnt = undefined
element_loop (suc rounds) num element_index delim cnt =
    let round : Result (List ℕ) = elim (strchr delim cnt) [
      | none ↦ last_element num element_index cnt
      | some (word, rest) ↦
          let further = element_loop rounds (suc num) element_index delim rest in
          if num == element_index - 1 then ok word else further
    ] in
    if at_end cnt then last_element num element_index cnt else round

pub get_element_of_index : List ℕ → ℕ → ℕ → Result (List ℕ)
get_element_of_index src element_index delim =
    let element = element_loop (suc (length src)) 0 element_index delim src in
    if element_index == 0 then err invalid_param else element
