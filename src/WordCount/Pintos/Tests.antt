-- ===== src/WordCount/Pintos/Tests.antt =====
-- The word lists of two threads.
use operating_systems_and_sy.Prelude.{refl, List, [], ◌∷◌}
use operating_systems_and_sy.CLib.{Text, codes, str_eq, strcmp}
use operating_systems_and_sy.WordCount.Pintos.Plain.{plain_lists}
use operating_systems_and_sy.WordCount.Table.{entry}
use operating_systems_and_sy.WordCount.Pintos.{
  init_words_l, add_word_with_count, add_word_l, find_entry, increase, Shared, letter, counts,
  Reach, here, step,
}

abbrev files : List (List Text)
files = (codes "to" ∷ codes "a" ∷ []) ∷ (codes "to" ∷ []) ∷ []

abbrev both : Shared plain_lists
both = record { word_counts = entry (codes "to") 2 ∷ []; words = [] ∷ [] ∷ [] }

both-Reach : Reach plain_lists files both
unfolding init_words_l add_word_l add_word_with_count find_entry increase str_eq strcmp
both-Reach =
    step
      (step (step here (counts 1 (codes "to") [] (entry (codes "to") 1 ∷ []) refl refl refl))
        (counts 0 (codes "to") (codes "a" ∷ []) (entry (codes "to") 2 ∷ []) refl refl refl))
      (letter 0 (codes "a") [] refl refl)
