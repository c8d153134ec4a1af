-- ===== src/Words/Tests.antt =====
-- The words of "a,,b".
use csutil.Common.{ℕ, suc, ◌≡◌, arith, List, [], ◌∷◌, length}
use csutil.Common.Status.{err, invalid_param}
use csutil.Words.{strtok, get_num_of_elements, get_element_of_index}
use csutil.Words.Laws.{rejoined, word_at, get_element_of_index-strtok}

abbrev text : List ℕ
text = b'a' ∷ b',' ∷ b',' ∷ b'b' ∷ []

get_element_of_index-strtok_example :
    (rejoined b',' (strtok text b',') ≡ text)
    × (get_num_of_elements text b',' ≡ length (strtok text b','))
    × (get_element_of_index text 0 b',' ≡ err invalid_param)
    × ((i : ℕ) → get_element_of_index text (suc i) b',' ≡ word_at (strtok text b',') i)
get_element_of_index-strtok_example =
    get_element_of_index-strtok text b','
      (
        (λ e. absurd (omega (arith, e))),
        (
          (λ e. absurd (omega (arith, e))),
          ((λ e. absurd (omega (arith, e))), ((λ e. absurd (omega (arith, e))), tt)),
        ),
      )
      (λ e. absurd (omega (arith, e)))
