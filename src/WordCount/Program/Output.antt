-- ===== src/WordCount/Program/Output.antt =====
-- What the program prints: the sorted word counts of all the files together.
use operating_systems_and_sy.Prelude.{
  ℕ, ◌+◌, ◌%◌, ◌^◌, ◌<◌, ◌≡◌, refl, ◌∙◌, Bool, true, Option, none, some, List, [], ◌∷◌, ◌++◌,
  length, arith, append-nil, append_assoc,
}
use operating_systems_and_sy.CLib.{Text}
use operating_systems_and_sy.WordCount.Table.{WordCounts, init_words, wordcount_sort, less_count}
use operating_systems_and_sy.WordCount.Table.Count.{count_of, entries, IsDistinct}
use operating_systems_and_sy.WordCount.Table.Sort.{
  IsSorted, wordcount_sort-IsSorted, less_count-IsStrictWeak,
}
use operating_systems_and_sy.WordCount.Table.Sums.{count_of-sort}
use operating_systems_and_sy.WordCount.Stream.{counted}
use operating_systems_and_sy.WordCount.Stream.Words.{words_from}
use operating_systems_and_sy.WordCount.Stream.Counts.{
  occurrences, enter, enter-count_of, enter-IsDistinct, count_words-enter, count_words_total,
}
use operating_systems_and_sy.WordCount.Print.{fprint_words}
use operating_systems_and_sy.WordCount.Program.{Exit, exited, finish, count_files, main}

pub occurrences-append :
    (v : Text) (ws us : List Text) → occurrences v (ws ++ us) ≡ occurrences v ws + occurrences v us
unfolding occurrences
occurrences-append v [] us = omega arith
occurrences-append v (w ∷ ws) us = omega (arith, occurrences-append v ws us)

module _ (files : Text → Option (List ℕ)) where
  -- The words of the named files, one file after another.
  unfoldable pub file_words : List Text → List Text
  file_words [] = []
  file_words (name ∷ names) = elim (files name) [
    | none ↦ file_words names
    | some s ↦ words_from s [] ++ file_words names
  ]

  -- Each file can be opened, and has less than 2^63 - 1 bytes.
  abbrev pub CanOpen : List Text → Type 0
  CanOpen [] = Unit {0}
  CanOpen (name ∷ names) =
      ((s : List ℕ) × (files name ≡ some s) × (length s + 1 < 2 ^ 63)) × CanOpen names

-- What `main` prints for the words `ws`.
pub record Printed (ws : List Text) (e : Exit) : Type 0 where
  pub l : WordCounts
  pub printed : e ≡ exited 0 (fprint_words l)
  pub sorted : IsSorted less_count l
  pub distinct : IsDistinct l
  pub counts : (v : Text) → count_of l v ≡ occurrences v ws % 2 ^ 32

module _ (grant : ℕ → Bool) (files : Text → Option (List ℕ)) where
  finish-Printed :
      (ws : List Text) (l : WordCounts) (n : ℕ)
      → IsDistinct l
      → ((v : Text) → count_of l v ≡ occurrences v ws % 2 ^ 32)
      → Printed ws (finish grant files (counted l n))
  unfolding finish
  finish-Printed ws l n distinct counts =
      let (distinct', same) = count_of-sort less_count l distinct in
      record {
        l = wordcount_sort less_count l;
        printed = refl;
        sorted = (wordcount_sort-IsSorted less_count less_count-IsStrictWeak l).0;
        distinct = distinct';
        counts = λ v. same v ∙ counts v;
      }

  module _ (all : (m : ℕ) → grant m ≡ true) where
    count_files-Printed :
        (names : List Text) (ws : List Text) (l : WordCounts) (n : ℕ)
        → CanOpen files names
        → IsDistinct l
        → ((v : Text) → count_of l v ≡ occurrences v ws % 2 ^ 32)
        → Printed (ws ++ file_words files names) (count_files grant files names l n)
    unfolding count_files file_words
    count_files-Printed [] ws l n open' distinct counts =
        rw append-nil (finish-Printed ws l n distinct counts)
    count_files-Printed (name ∷ names) ws l n open' distinct counts =
        let (s, opened, small) = open'.0 in
        let (n', e) = count_words-enter grant all l s n small in
        rw (opened, count_files, file_words, e, ← append_assoc)
          (count_files-Printed names (ws ++ words_from s []) (enter (words_from s []) l) n' open'.1
            (enter-IsDistinct (words_from s []) l distinct)
            (λ v. omega (
              arith,
              enter-count_of (words_from s []) l v,
              counts v,
              occurrences-append v ws (words_from s []),
            )))

    -- If memory is granted and each file named on the command line, at least one, can be opened and
    -- has less than 2^63 - 1 bytes, the program exits with 0 and prints the lines of a list that is
    -- sorted by `less_count`, has one entry for a word at most, and counts for each word its
    -- occurrences in all the files together, as maximal runs of two or more letters in lower case,
    -- modulo 2^32, the range of an `int`.
    pub main-Printed :
        (name : Text) (names : List Text) (stdin : List ℕ)
        → CanOpen files (name ∷ names)
        → Printed (file_words files (name ∷ names)) (main grant files (name ∷ names) stdin)
    unfolding main init_words
    main-Printed name names stdin open' =
        count_files-Printed (name ∷ names) [] [] 0 open' (λ v. unfold entries in omega arith)
          (λ v. unfold count_of occurrences in omega arith)

  count_files-missing :
      (before : List Text) (name : Text) (after : List Text) (l : WordCounts) (n : ℕ)
      → CanOpen files before
      → files name ≡ none
      → count_files grant files (before ++ name ∷ after) l n ≡ exited 1 []
  unfolding count_files
  count_files-missing [] name after l n open' e = rw (e, count_files)
  count_files-missing (b ∷ before) name after l n open' e =
      let (s, opened, small) = open'.0 in
      let (l', n', ends) = count_words_total grant l s n small in
      rw (opened, count_files, ends) (count_files-missing before name after l' n' open'.1 e)

  -- If a file cannot be opened, and every file before it can and has less than 2^63 - 1 bytes, the
  -- program exits with 1 and prints no count, whichever requests for memory are granted.
  pub main-missing :
      (before : List Text) (name : Text) (after : List Text) (stdin : List ℕ)
      → CanOpen files before
      → files name ≡ none
      → main grant files (before ++ name ∷ after) stdin ≡ exited 1 []
  unfolding main
  main-missing [] name after stdin open' e = count_files-missing [] name after init_words 0 tt e
  main-missing (b ∷ before) name after stdin open' e =
      count_files-missing (b ∷ before) name after init_words 0 open' e
