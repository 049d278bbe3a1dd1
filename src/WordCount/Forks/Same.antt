-- ===== src/WordCount/Forks/Same.antt =====
-- fwords.c prints what words.c prints.
use operating_systems_and_sy.Prelude.{
  ℕ, suc, ◌+◌, ◌^◌, ◌<◌, ◌≡◌, refl, ap, ◌∙◌, Bool, true, Option, some, List, [], ◌∷◌, length,
  update, arith,
}
use operating_systems_and_sy.CLib.{Text}
use operating_systems_and_sy.WordCount.Table.{WordCounts, less_count}
use operating_systems_and_sy.WordCount.Table.Tally.{Tally, Tally-nil, Tally-same}
use operating_systems_and_sy.WordCount.Print.{fprint_words}
use operating_systems_and_sy.WordCount.Program
use operating_systems_and_sy.WordCount.Program.Output.{CanOpen, file_words}
use operating_systems_and_sy.WordCount.Program.Tallied.{
  Lists, occurrences_files, main-Lists, main_stdin-Lists,
}
use operating_systems_and_sy.WordCount.Stream.Words.{words_from}
use operating_systems_and_sy.WordCount.Stream.Counts.{occurrences}
use operating_systems_and_sy.WordCount.Stream.Tallied.{with_words}
use operating_systems_and_sy.WordCount.Merge.Printed.{added_all, merge_counts-printed}
use operating_systems_and_sy.WordCount.Pintos.{PintosList, init_words_l, wordcount_sort_l}
use operating_systems_and_sy.WordCount.Pintos.Locked.{fprint_words_l}
use operating_systems_and_sy.WordCount.Pintos.Count.{enter_l, Tally-enter_l, count_words_l-enter}
use operating_systems_and_sy.WordCount.Pintos.Count.Lines.{words-CanScan}
use operating_systems_and_sy.WordCount.Pintos.Sorted.{fprint_words_l-eq, Lists-same, Lists-sorted}
use operating_systems_and_sy.WordCount.Forks.{
  shut, Fds, Kernel, exited, child, children, after_forks, after_merge, merge_children, finish_f,
  finish_stdin, main_f,
}
use operating_systems_and_sy.WordCount.Forks.Ends.{
  Consecutive, AllRead, AllRead-close, after_forks-AllRead,
}
use operating_systems_and_sy.WordCount.Forks.Tallied.{Tally-merged}

-- Processes, streams and memory are granted, and each pipe has consecutive descriptors.
pub record Serves (kernel : Kernel) : Type 0 where
  pub forks : (t : ℕ) → kernel.fork t ≡ true
  pub opens : (t : ℕ) → kernel.fdopen t ≡ true
  pub grants : (t n : ℕ) → kernel.grant t n ≡ true
  pub consecutive : Consecutive kernel

-- Each file can be opened, and has less than 10^8 bytes.
abbrev pub AreSmall : (Text → Option (List ℕ)) → List Text → Type 0
AreSmall files [] = Unit {0}
AreSmall files (name ∷ names) =
    ((s : List ℕ) × (files name ≡ some s) × (length s < 10 ^ 8)) × AreSmall files names

small-CanOpen :
    (files : Text → Option (List ℕ)) (names : List Text)
    → AreSmall files names
    → CanOpen files names
small-CanOpen files [] a = tt
small-CanOpen files (name ∷ names) ((s, e, small), a) =
    ((s, e, omega arith), small-CanOpen files names a)

module _ (pintos : PintosList) (kernel : Kernel) (files : Text → Option (List ℕ))
    (serves : Serves kernel) where
  open serves use {forks, opens, grants, consecutive}

  child-prints :
      (t : ℕ) (name : Text) (s : List ℕ)
      → files name ≡ some s
      → length s < 10 ^ 8
      → child pintos kernel files t [] name ≡ fprint_words (enter_l (words_from s []) [])
  unfolding child
  child-prints t name s e small =
      rw
        (
          e,
          child,
          count_words_l-enter pintos (kernel.grant t) (grants t) [] s 0 (omega arith),
          opens t,
        )
        (fprint_words_l-eq (enter_l (words_from s []) []))

  merge_children-ends :
      (names : List Text) {f : Text → ℕ} (t : ℕ) (fds : Fds) (l : WordCounts)
      → AreSmall files names
      → AllRead kernel names t fds
      → Tally f l
      → (l' : WordCounts) × (merge_children pintos kernel files
            (children pintos kernel files names t [])
            t
            fds
            l
          ≡ finish_f pintos kernel files l')
        × Tally (with_words (file_words files names) f) l'
  unfolding merge_children after_merge children file_words
  merge_children-ends [] {f} t fds l small can tally =
      (l, refl, Tally-same {f = f} (λ v. unfold occurrences in omega arith) tally)
  merge_children-ends (name ∷ names) {f} t fds l ((s, e, short), small) (can, more) tally =
      let m = enter_l (words_from s []) [] in
      let (l', ends, tally') =
        merge_children-ends names (suc t) (update fds (kernel.pipe t).0 shut) (added_all l m) small
          (AllRead-close kernel consecutive names t (suc t) fds (omega arith) more)
          (Tally-merged s l short tally) in
      (
        l',
        rw
            (
              can.reading,
              merge_children,
              can.not_writing,
              forks t,
              child-prints t name s e short,
              merge_counts-printed pintos l m (words-CanScan s short),
            )
            ends,
        rw (e, file_words)
            (Tally-same (λ v. occurrences_files v (words_from s []) (file_words files names) (f v))
              tally'),
      )

  module _ (grant : ℕ → Bool) (all : (m : ℕ) → grant m ≡ true) where
    -- If each file named on the command line, at least one, can be opened and has less than 10^8
    -- bytes, processes, streams and memory are granted, and each pipe has consecutive descriptors,
    -- fwords.c exits with 0 and prints exactly what words.c prints for the same command line.
    pub fwords-words :
        (name : Text) (names : List Text) (stdin : List ℕ) (fds : Fds)
        → AreSmall files (name ∷ names)
        → (out : Text) × (main_f pintos kernel files (name ∷ names) stdin fds ≡ exited 0 out)
          × (Program.main grant files (name ∷ names) stdin ≡ Program.exited 0 out)
    unfolding main_f init_words_l finish_f
    fwords-words name names stdin fds small =
        let all_names = name ∷ names in
        let (l, ends, tally) =
          merge_children-ends all_names 0 (after_forks kernel all_names 0 fds) [] small
            (after_forks-AllRead kernel consecutive all_names 0 fds) Tally-nil in
        let (out, printed, lists) =
          main-Lists grant files all name names stdin (small-CanOpen files all_names small) in
        let mine : Lists (λ v. occurrences v (file_words files all_names))
            (fprint_words_l (wordcount_sort_l pintos less_count l)) =
          Lists-sorted pintos l (
            Tally-same {f = with_words (file_words files all_names) (λ v. 0)} (λ v. omega arith)
              tally) in
        (out, rw (pintos.init-nil) ends ∙ ap (λ o. exited 0 o) (Lists-same mine lists), printed)

    -- With no file, both count the standard input.
    pub fwords-words_stdin :
        (stdin : List ℕ) (fds : Fds)
        → length stdin + 1 < 2 ^ 63
        → (out : Text) × (main_f pintos kernel files [] stdin fds ≡ exited 0 out)
          × (Program.main grant files [] stdin ≡ Program.exited 0 out)
    unfolding main_f init_words_l finish_f finish_stdin
    fwords-words_stdin stdin fds small =
        let ws = words_from stdin [] in
        let (out, printed, lists) = main_stdin-Lists grant files all stdin small in
        let mine : Lists (λ v. occurrences v ws)
            (fprint_words_l (wordcount_sort_l pintos less_count (enter_l ws []))) =
          Lists-sorted pintos (enter_l ws []) (
            Tally-same {f = with_words ws (λ v. 0)} (λ v. omega arith)
              (Tally-enter_l ws [] Tally-nil)) in
        (
          out,
          rw
              (
                pintos.init-nil,
                count_words_l-enter pintos (kernel.grant 0) (grants 0) [] stdin 0 small,
              )
              (ap (λ o. exited 0 o) (Lists-same mine lists)),
          printed,
        )
