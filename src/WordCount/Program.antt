-- ===== src/WordCount/Program.antt =====
-- words.c, linked with word_count.c: the word counts of the files named on the command line, or of
-- the standard input.
pub mod Output
pub mod Tallied
use operating_systems_and_sy.Prelude.{ℕ, zero, suc, Bool, Option, none, some, List, [], ◌∷◌, length}
use operating_systems_and_sy.CLib.{Text}
use operating_systems_and_sy.WordCount.Table.{WordCounts, init_words, wordcount_sort, less_count}
use operating_systems_and_sy.WordCount.Stream.{Outcome, counted, overran, out_of_fuel, count_words}
use operating_systems_and_sy.WordCount.Print.{fprint_words}

-- How `main` ends: with its exit status and its output, or by a write past a buffer.
pub data Exit : Type 0 where
  exited : (status : ℕ) → (out : Text) → Exit
  crashed : Exit

-- `files` says what `fopen(argv[i], "r")` opens, with the bytes of the file, and `grant` which
-- requests for memory are granted.
module _ (grant : ℕ → Bool) (files : Text → Option (List ℕ)) where
  -- `wordcount_sort`, then `fprint_words` on the standard output.
  unfoldable pub finish : Outcome → Exit
  finish (counted l n) = exited 0 (fprint_words (wordcount_sort less_count l))
  finish overran = crashed
  finish out_of_fuel = crashed

  -- The loop over the arguments.
  unfoldable pub count_files : List Text → WordCounts → ℕ → Exit
  count_files [] l n = finish (counted l n)
  count_files (name ∷ names) l n = elim (files name) [
    | none ↦ exited 1 []
    | some infile ↦ elim (count_words grant l infile n) [
      | counted l' n' ↦ count_files names l' n'
      | overran ↦ crashed
      | out_of_fuel ↦ crashed
    ]
  ]

  -- The arguments after `argv[0]`.
  unfoldable pub main : List Text → List ℕ → Exit
  main [] stdin = finish (count_words grant init_words stdin 0)
  main (name ∷ names) stdin = count_files (name ∷ names) init_words 0
