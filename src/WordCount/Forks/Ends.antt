-- ===== src/WordCount/Forks/Ends.antt =====
-- The descriptors of fwords.c: with pipes whose descriptors are consecutive, the parent holds every
-- reading end and no writing end when it comes to read.
use operating_systems_and_sy.Prelude.{
  ℕ, suc, ◌<◌, ◌≡◌, ◌≢◌, true, false, List, [], ◌∷◌, update, arith,
}
use operating_systems_and_sy.CLib.{Text}
use operating_systems_and_sy.WordCount.Forks.{
  shut, Fds, reads_from, writes_to, Kernel, piped, closed_above, after_forks,
}

-- `pipe` gives descriptors that are not open, and a process has the reading ends open: none is given
-- again. The writing end is the descriptor above.
pub record Consecutive (kernel : Kernel) : Type 0 where
  pub above : (t : ℕ) → (kernel.pipe t).1 ≡ suc ((kernel.pipe t).0)
  pub not_read : (t u : ℕ) → t < u → (kernel.pipe t).0 ≢ (kernel.pipe u).0
  pub not_written : (t u : ℕ) → t < u → (kernel.pipe t).0 ≢ (kernel.pipe u).1

-- The t-th pipe as the parent needs it to read it to its end.
pub record CanRead (kernel : Kernel) (t : ℕ) (fds : Fds) : Type 0 where
  pub reading : reads_from t (fds (kernel.pipe t).0) ≡ true
  pub not_writing : writes_to t (fds (kernel.pipe t).1) ≡ false

-- All the pipes of the files, from the t-th on.
abbrev pub AllRead : Kernel → List Text → ℕ → Fds → Type 0
AllRead kernel [] t fds = Unit {0}
AllRead kernel (name ∷ names) t fds = CanRead kernel t fds × AllRead kernel names (suc t) fds

module _ (kernel : Kernel) (laws : Consecutive kernel) where
  open laws use {above, not_read, not_written}

  CanRead-own : (t : ℕ) (fds : Fds) → CanRead kernel t (closed_above kernel t (piped kernel t fds))
  unfolding closed_above piped reads_from writes_to
  CanRead-own t fds = record {
    reading = rw above (ground arith);
    not_writing = rw above (ground arith);
  }

  CanRead-later :
      (t u : ℕ) (fds : Fds)
      → t < u
      → CanRead kernel t fds
      → CanRead kernel t (closed_above kernel u (piped kernel u fds))
  unfolding closed_above piped reads_from writes_to
  CanRead-later t u fds lt c = record {
    reading = ground (arith, c.reading, above u, not_read t u lt, not_written t u lt);
    not_writing = ground (arith, c.not_writing, above u);
  }

  CanRead-after :
      (names : List Text) (t u : ℕ) (fds : Fds)
      → t < u
      → CanRead kernel t fds
      → CanRead kernel t (after_forks kernel names u fds)
  unfolding after_forks
  CanRead-after [] t u fds lt c = c
  CanRead-after (name ∷ names) t u fds lt c =
      CanRead-after names t (suc u) (closed_above kernel u (piped kernel u fds)) (omega arith)
        (CanRead-later t u fds lt c)

  -- Closing the reading end of an earlier pipe leaves the later ones.
  CanRead-close :
      (k t : ℕ) (fds : Fds)
      → k < t
      → CanRead kernel t fds
      → CanRead kernel t (update fds (kernel.pipe k).0 shut)
  unfolding reads_from writes_to
  CanRead-close k t fds lt c = record {
    reading = ground (arith, c.reading, not_read k t lt);
    not_writing = ground (arith, c.not_writing);
  }

  pub AllRead-close :
      (names : List Text) (k t : ℕ) (fds : Fds)
      → k < t
      → AllRead kernel names t fds
      → AllRead kernel names t (update fds (kernel.pipe k).0 shut)
  AllRead-close [] k t fds lt a = tt
  AllRead-close (name ∷ names) k t fds lt a =
      (CanRead-close k t fds lt a.0, AllRead-close names k (suc t) fds (omega arith) a.1)

  -- Behind the first loop, the parent can read every pipe to its end.
  pub after_forks-AllRead :
      (names : List Text) (t : ℕ) (fds : Fds)
      → AllRead kernel names t (after_forks kernel names t fds)
  unfolding after_forks
  after_forks-AllRead [] t fds = tt
  after_forks-AllRead (name ∷ names) t fds =
      let fds' = closed_above kernel t (piped kernel t fds) in
      (
        CanRead-after names t (suc t) fds' (omega arith) (CanRead-own t fds),
        after_forks-AllRead names (suc t) fds',
      )
