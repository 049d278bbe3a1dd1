-- ===== src/WordCount/Tests.antt =====
-- The word counter on small inputs.
use mathlib.Core.List.{Perm}
use operating_systems_and_sy.Prelude.{
  ℕ, ◌≡◌, ◌≢◌, ◌%◌, ◌^◌, refl, Bool, true, false, Option, none, some, List, [], ◌∷◌, arith,
}
use operating_systems_and_sy.CLib.{Text, codes, isalpha, tolower}
use operating_systems_and_sy.WordCount.Table.{
  WordCounts, entry, init_words, wordcount_sort, less_count,
}
use operating_systems_and_sy.WordCount.Table.Count.{count_of, IsDistinct}
use operating_systems_and_sy.WordCount.Table.Sort.{
  IsSorted, wordcount_sort-IsSorted, less_count-IsStrictWeak,
}
use operating_systems_and_sy.WordCount.Stream.{
  word, overrun, get_word, counted, count_words, skip, first_letter, put, accumulate, terminate,
}
use operating_systems_and_sy.WordCount.Stream.Words.{words_from}
use operating_systems_and_sy.WordCount.Stream.Get.{get_word-ne-overrun}
use operating_systems_and_sy.WordCount.Stream.Counts.{
  occurrences, count_words_total, count_words-occurrences,
}
use operating_systems_and_sy.WordCount.Program.{exited, main}
use operating_systems_and_sy.WordCount.Program.Output.{
  file_words, Printed, main-Printed, main-missing,
}

abbrev two : WordCounts
two = entry (codes "be") 2 ∷ entry (codes "to") 1 ∷ []

wordcount_sort-IsSorted_example :
    IsSorted less_count (wordcount_sort less_count two) × Perm (wordcount_sort less_count two) two
wordcount_sort-IsSorted_example = wordcount_sort-IsSorted less_count less_count-IsStrictWeak two

abbrev stream : List ℕ
stream = codes "To be, or"

abbrev grants : ℕ → Bool
grants n = true

abbrev refuses : ℕ → Bool
refuses n = false

get_word-ne-overrun_example : (get_word refuses stream 0).got ≢ overrun
get_word-ne-overrun_example = get_word-ne-overrun refuses stream 0 (omega arith)

first_word : (get_word grants stream 0).got ≡ word (codes "to")
unfolding get_word skip first_letter put accumulate terminate isalpha tolower
first_word = refl

count_words_total_example :
    (l' : WordCounts) × (n' : ℕ) × (count_words refuses two stream 0 ≡ counted l' n')
count_words_total_example = count_words_total refuses two stream 0 (omega arith)

count_words-occurrences_example :
    (l : WordCounts) × (n' : ℕ) × (count_words grants init_words stream 0 ≡ counted l n')
    × IsDistinct l
    × ((v : Text) → count_of l v ≡ occurrences v (words_from stream []) % 2 ^ 32)
count_words-occurrences_example = count_words-occurrences grants (λ m. refl) stream 0 (omega arith)

abbrev files : Text → Option (List ℕ)
files [] = none
files (c ∷ name) = some stream

main-Printed_example :
    Printed
      (file_words files (codes "a" ∷ codes "b" ∷ []))
      (main grants files (codes "a" ∷ codes "b" ∷ []) [])
main-Printed_example =
    main-Printed grants files (λ m. refl) (codes "a") (codes "b" ∷ []) []
      ((stream, refl, omega arith), ((stream, refl, omega arith), tt))

main-missing_example : main refuses files (codes "a" ∷ [] ∷ codes "b" ∷ []) [] ≡ exited 1 []
main-missing_example =
    main-missing refuses files (codes "a" ∷ []) [] (codes "b" ∷ []) []
      ((stream, refl, omega arith), tt) refl
