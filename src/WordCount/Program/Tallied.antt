-- ===== src/WordCount/Program/Tallied.antt =====
-- words.c prints the one list in order that counts the words of the files.
use operating_systems_and_sy.Prelude.{
  ℕ, ◌+◌, ◌^◌, ◌<◌, ◌≡◌, refl, Bool, true, Option, List, [], ◌∷◌, ◌++◌, length, arith,
}
use operating_systems_and_sy.CLib.{Text}
use operating_systems_and_sy.WordCount.Table.{WordCounts, init_words, wordcount_sort, less_count}
use operating_systems_and_sy.WordCount.Table.Sort.{
  IsSorted, wordcount_sort-IsSorted, less_count-IsStrictWeak,
}
use operating_systems_and_sy.WordCount.Table.Tally.{Tally, Tally-nil, Tally-same, Tally-perm}
use operating_systems_and_sy.WordCount.Stream.Words.{words_from}
use operating_systems_and_sy.WordCount.Stream.Counts.{occurrences, enter, count_words-enter}
use operating_systems_and_sy.WordCount.Stream.Tallied.{with_words, Tally-enter}
use operating_systems_and_sy.WordCount.Print.{fprint_words}
use operating_systems_and_sy.WordCount.Program.{Exit, exited, finish, count_files, main}
use operating_systems_and_sy.WordCount.Program.Output.{CanOpen, file_words, occurrences-append}

-- The list that is printed for words that occur `f v` times.
pub record Lists (f : Text → ℕ) (out : Text) : Type 0 where
  pub l : WordCounts
  pub printed : out ≡ fprint_words l
  pub sorted : IsSorted less_count l
  pub tallied : Tally f l

-- What comes of the lists of words, one after another.
pub occurrences_files :
    (v : Text) (ws us : List Text) (k : ℕ)
    → occurrences v us + (occurrences v ws + k) ≡ occurrences v (ws ++ us) + k
occurrences_files v ws us k = omega (arith, occurrences-append v ws us)

module _ (grant : ℕ → Bool) (files : Text → Option (List ℕ)) (all : (m : ℕ) → grant m ≡ true) where
  -- The list that is sorted in the end.
  record Counted (f : Text → ℕ) (e : Exit) : Type 0 where
    l : WordCounts
    ended : e ≡ exited 0 (fprint_words (wordcount_sort less_count l))
    tallied : Tally f l

  count_files-Counted :
      (names : List Text) {f : Text → ℕ} (l : WordCounts) (n : ℕ)
      → CanOpen files names
      → Tally f l
      → Counted (with_words (file_words files names) f) (count_files grant files names l n)
  unfolding count_files file_words finish
  count_files-Counted [] {f} l n can t = record {
    l = l;
    ended = refl;
    tallied = Tally-same {f = f} (λ v. unfold occurrences in omega arith) t;
  }
  count_files-Counted (name ∷ names) {f} l n can t =
      let (s, opened, small) = can.0 in
      let (n', e) = count_words-enter grant all l s n small in
      let more =
        count_files-Counted names (enter (words_from s []) l) n' can.1
          (Tally-enter (words_from s []) l t) in
      rw (opened, count_files, file_words, e)
        (record {
          l = more.l;
          ended = more.ended;
          tallied =
              Tally-same (λ v. occurrences_files v (words_from s []) (file_words files names) (f v))
                more.tallied;
        })

  Counted-Lists :
      {f : Text → ℕ} {e : Exit} → Counted f e → (out : Text) × (e ≡ exited 0 out) × Lists f out
  Counted-Lists c =
      let l' = wordcount_sort less_count c.l in
      let (sorted, same) = wordcount_sort-IsSorted less_count less_count-IsStrictWeak c.l in
      (
        fprint_words l',
        c.ended,
        record {
          l = l';
          printed = refl;
          sorted = sorted;
          tallied = Tally-perm c.l l' same c.tallied;
        },
      )

  -- With memory granted, words.c exits with 0 and prints the list of the words of the files.
  pub main-Lists :
      (name : Text) (names : List Text) (stdin : List ℕ)
      → CanOpen files (name ∷ names)
      → (out : Text) × (main grant files (name ∷ names) stdin ≡ exited 0 out)
        × Lists (λ v. occurrences v (file_words files (name ∷ names))) out
  unfolding main init_words
  main-Lists name names stdin can =
      let c = count_files-Counted (name ∷ names) [] 0 can Tally-nil in
      Counted-Lists (record {
        l = c.l;
        ended = c.ended;
        tallied =
            Tally-same {f = with_words (file_words files (name ∷ names)) (λ v. 0)}
              (λ v. omega arith) c.tallied;
      })

  -- So it does for the standard input, if no file is named.
  pub main_stdin-Lists :
      (stdin : List ℕ)
      → length stdin + 1 < 2 ^ 63
      → (out : Text) × (main grant files [] stdin ≡ exited 0 out)
        × Lists (λ v. occurrences v (words_from stdin [])) out
  unfolding main init_words finish
  main_stdin-Lists stdin small =
      let (n', e) = count_words-enter grant all [] stdin 0 small in
      rw e (
        Counted-Lists (record {
          l = enter (words_from stdin []) [];
          ended = refl;
          tallied =
              Tally-same {f = with_words (words_from stdin []) (λ v. 0)} (λ v. omega arith)
                (Tally-enter (words_from stdin []) [] Tally-nil);
        }))
