-- ===== src/WordCount/Forks.antt =====
-- fwords.c, linked with word_count_l.c: a process for each file counts its words and prints them into a
-- pipe, and the parent merges what it reads. A child writes to its own pipe alone, and the parent reads
-- each pipe in turn, so a child's output is given as the bytes that it writes in all.
pub mod Tallied
pub mod Ends
pub mod Same
pub mod Hang
mod Tests
use operating_systems_and_sy.Prelude.{
  ℕ, zero, suc, ◌+◌, ◌≡◌, Bool, true, false, Option, none, some, List, [], ◌∷◌, ◌==◌, if◌then◌else◌,
  update,
}
use operating_systems_and_sy.CLib.{Text}
use operating_systems_and_sy.WordCount.Table.{WordCounts, less_count}
use operating_systems_and_sy.WordCount.Pintos.{PintosList, init_words_l, wordcount_sort_l}
use operating_systems_and_sy.WordCount.Pintos.Locked.{fprint_words_l}
use operating_systems_and_sy.WordCount.Pintos.Count.{
  Ending, counted, overran, null_write, out_of_fuel, count_words_l,
}
use operating_systems_and_sy.WordCount.Merge.{
  Merged, merged, merge_counts, Opened, waits, stops, merge_open,
}

-- What a descriptor of the parent stands for: an end of the t-th pipe, or something else.
pub data End : Type 0 where
  shut : End
  reads : ℕ → End
  writes : ℕ → End

abbrev pub Fds : Type 0
Fds = ℕ → End

unfoldable pub reads_from : ℕ → End → Bool
reads_from t (reads u) = u == t
reads_from t e = false

unfoldable pub writes_to : ℕ → End → Bool
writes_to t (writes u) = u == t
writes_to t e = false

-- What the operating system does: the descriptors that the t-th call of `pipe` gives, whether the t-th
-- `fork` succeeds, and, in the t-th child, whether `fdopen` does and which requests for memory are
-- granted.
pub record Kernel : Type 0 where
  pub pipe : ℕ → ℕ × ℕ
  pub fork : ℕ → Bool
  pub fdopen : ℕ → Bool
  pub grant : ℕ → ℕ → Bool

-- How the program ends; it hangs if it waits for the end of a pipe whose writing end it holds open itself.
pub data Exit : Type 0 where
  exited : (status : ℕ) → (out : Text) → Exit
  hung : Exit
  crashed : Exit

-- The parent's side of a child: its process's pipe, and the bytes that come through it.
pub record Child : Type 0 where
  pub read_end : ℕ
  pub write_end : ℕ
  pub bytes : Text

-- What follows `merge_counts`: the parent goes on with the list, whether or not there was a message.
unfoldable pub after_merge : (WordCounts → Exit) → Merged → Exit
after_merge rest (merged l message) = rest l
after_merge rest Merged.null_write = crashed
after_merge rest Merged.out_of_fuel = crashed

module _ (kernel : Kernel) where
  -- `pipe(&fd[2*(t-1)])`
  unfoldable pub piped : ℕ → Fds → Fds
  piped t fds = update (update fds (kernel.pipe t).0 (reads t)) (kernel.pipe t).1 (writes t)

  -- `close(fd[2*(t-1)]+1)` closes the descriptor above the reading end.
  unfoldable pub closed_above : ℕ → Fds → Fds
  closed_above t fds = update fds (suc (kernel.pipe t).0) shut

  -- The first loop, from the t-th file on: the parent's descriptors behind it.
  unfoldable pub after_forks : List Text → ℕ → Fds → Fds
  after_forks [] t fds = fds
  after_forks (name ∷ names) t fds = after_forks names (suc t) (closed_above t (piped t fds))

module _ (pintos : PintosList) (kernel : Kernel) (files : Text → Option (List ℕ)) where
  -- The t-th child, which has a copy of the parent's list. What it prints reaches the pipe when it
  -- closes the stream; a child that ends before that has written nothing.
  unfoldable pub child : ℕ → WordCounts → Text → Text
  child t word_counts name = elim (files name) [
    | none ↦ []
    | some f ↦ elim (count_words_l pintos (kernel.grant t) word_counts f 0) [
      | counted l ↦ if kernel.fdopen t then fprint_words_l l else []
      | overran ↦ []
      | null_write ↦ []
      | out_of_fuel ↦ []
    ]
  ]

  -- And its children. Where `fork` fails, the parent goes on as if it had a child, and nothing is
  -- written.
  unfoldable pub children : List Text → ℕ → WordCounts → List Child
  children [] t word_counts = []
  children (name ∷ names) t word_counts =
      record {
        read_end = (kernel.pipe t).0;
        write_end = (kernel.pipe t).1;
        bytes = if kernel.fork t then child t word_counts name else [];
      }
      ∷ children names (suc t) word_counts

  -- `wordcount_sort`, then `fprint_words` on the standard output.
  unfoldable pub finish_f : WordCounts → Exit
  finish_f word_counts = exited 0 (fprint_words_l (wordcount_sort_l pintos less_count word_counts))

  -- The second loop, from the t-th child on; the memory that the parent requests is granted.
  unfoldable pub merge_children : List Child → ℕ → Fds → WordCounts → Exit
  merge_children [] t fds word_counts = finish_f word_counts
  merge_children (c ∷ cs) t fds word_counts =
      let rest = λ (l : WordCounts). merge_children cs (suc t) (update fds c.read_end shut) l in
      let stream =
        if writes_to t (fds c.write_end)
        then merge_open pintos true word_counts c.bytes
        else stops (merge_counts pintos true word_counts c.bytes) in
      if reads_from t (fds c.read_end)
      then elim stream [ waits ↦ hung | stops m ↦ after_merge rest m ]
      else crashed

  unfoldable pub finish_stdin : Ending → Exit
  finish_stdin (counted l) = finish_f l
  finish_stdin overran = crashed
  finish_stdin null_write = crashed
  finish_stdin out_of_fuel = crashed

  -- The arguments after `argv[0]`. The standard input is counted by the parent itself, whose requests
  -- for memory are given by `grant 0`.
  unfoldable pub main_f : List Text → List ℕ → Fds → Exit
  main_f [] stdin fds =
      finish_stdin (count_words_l pintos (kernel.grant 0) (init_words_l pintos) stdin 0)
  main_f (name ∷ names) stdin fds =
      merge_children (children (name ∷ names) 0 (init_words_l pintos)) 0
        (after_forks kernel (name ∷ names) 0 fds) (init_words_l pintos)
