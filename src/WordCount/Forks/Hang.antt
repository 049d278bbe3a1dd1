-- ===== src/WordCount/Forks/Hang.antt =====
-- What the parent of fwords.c does when the descriptors of its first pipe are not consecutive.
use operating_systems_and_sy.Prelude.{
  ℕ, suc, ◌^◌, ◌<◌, ◌≡◌, ◌≢◌, refl, true, Option, some, length, inl, inr, Bool-cases, Option-cases,
  if◌then◌else◌, List, [], ◌∷◌, arith,
}
use operating_systems_and_sy.CLib.{Text}
use operating_systems_and_sy.WordCount.Table.{WordCounts}
use operating_systems_and_sy.WordCount.Print.{fprint_words}
use operating_systems_and_sy.WordCount.Stream.Words.{words_from}
use operating_systems_and_sy.WordCount.Merge.Printed.{CanScan}
use operating_systems_and_sy.WordCount.Merge.Waits.{merge_open-waits}
use operating_systems_and_sy.WordCount.Pintos.{PintosList, init_words_l}
use operating_systems_and_sy.WordCount.Pintos.Count.{enter_l, count_words_l-enter}
use operating_systems_and_sy.WordCount.Pintos.Count.Lines.{words-CanScan}
use operating_systems_and_sy.WordCount.Pintos.Sorted.{fprint_words_l-eq}
use operating_systems_and_sy.WordCount.Forks.{
  Fds, reads_from, writes_to, Kernel, hung, piped, closed_above, after_forks, child, children,
  merge_children, main_f,
}

-- The descriptors of the first pipe are not consecutive, and neither they nor the descriptor above the
-- reading end of a later pipe are the same.
pub record Apart (kernel : Kernel) : Type 0 where
  pub gap : (kernel.pipe 0).1 ≢ suc (kernel.pipe 0).0
  pub two_ends : (kernel.pipe 0).0 ≢ (kernel.pipe 0).1
  pub reading :
      (u : ℕ)
      → 0 < u
      → ((kernel.pipe 0).0 ≢ (kernel.pipe u).0)
        × ((kernel.pipe 0).0 ≢ (kernel.pipe u).1)
        × ((kernel.pipe 0).0 ≢ suc (kernel.pipe u).0)
  pub writing :
      (u : ℕ)
      → 0 < u
      → ((kernel.pipe 0).1 ≢ (kernel.pipe u).0)
        × ((kernel.pipe 0).1 ≢ (kernel.pipe u).1)
        × ((kernel.pipe 0).1 ≢ suc (kernel.pipe u).0)

module _ (kernel : Kernel) (apart : Apart kernel) where
  open apart use {gap, two_ends, reading, writing}

  -- The parent holds both ends of the first pipe.
  abbrev Held : Fds → Type 0
  Held fds =
      (reads_from 0 (fds (kernel.pipe 0).0) ≡ true) × (writes_to 0 (fds (kernel.pipe 0).1) ≡ true)

  Held-first : (fds : Fds) → Held (closed_above kernel 0 (piped kernel 0 fds))
  unfolding closed_above piped reads_from writes_to
  Held-first fds = (ground (arith, two_ends), ground (arith, gap))

  Held-after :
      (names : List Text) (u : ℕ) (fds : Fds)
      → 0 < u
      → Held fds
      → Held (after_forks kernel names u fds)
  unfolding after_forks closed_above piped reads_from writes_to
  Held-after [] u fds pos h = h
  Held-after (name ∷ names) u fds pos h =
      Held-after names (suc u) (closed_above kernel u (piped kernel u fds)) (omega arith)
        (ground (arith, h.0, reading u pos), ground (arith, h.1, writing u pos))

  module _ (pintos : PintosList) (files : Text → Option (List ℕ)) where
    -- What the first child writes can be read to its end.
    abbrev Scans : Text → Type 0
    Scans out = (m : WordCounts) × CanScan m × (out ≡ fprint_words m)

    Scans-nothing : Scans []
    unfolding fprint_words
    Scans-nothing = ([], tt, refl)

    Scans-child :
        (name : Text)
        → ((n : ℕ) → kernel.grant 0 n ≡ true)
        → ((s : List ℕ) → files name ≡ some s → length s < 10 ^ 8)
        → Scans (child pintos kernel files 0 [] name)
    unfolding child
    Scans-child name grants small = elim (Option-cases (files name)) [
      | inl missing ↦ rw (missing, child) Scans-nothing
      | inr (s, e) ↦
          let ends =
            count_words_l-enter pintos (kernel.grant 0) grants [] s 0 (omega (arith, small s e)) in
          elim (Bool-cases (kernel.fdopen 0)) [
            | inl opens ↦
                rw (e, child, ends, opens)
                  (
                    enter_l (words_from s []) [],
                    words-CanScan s (small s e),
                    fprint_words_l-eq (enter_l (words_from s []) []),
                  )
            | inr fails ↦ rw (e, child, ends, fails) Scans-nothing
          ]
    ]

    Scans-first :
        (name : Text)
        → Scans (child pintos kernel files 0 [] name)
        → Scans (if kernel.fork 0 then child pintos kernel files 0 [] name else [])
    Scans-first name h = elim (Bool-cases (kernel.fork 0)) [
      | inl forks ↦ rw forks h
      | inr fails ↦ rw fails Scans-nothing
    ]

    -- With descriptors of the first pipe that are not consecutive, and that no later call of `pipe` or
    -- `close` touches, fwords.c hangs on every command line that names a file, if that file has less than
    -- 10^8 bytes or cannot be opened, and its child, if there is one, is granted memory: the parent reads
    -- all that the child writes, and waits for the end of a pipe whose writing end it has not closed.
    pub fwords-hangs :
        (name : Text) (names : List Text) (stdin : List ℕ) (fds : Fds)
        → ((n : ℕ) → kernel.grant 0 n ≡ true)
        → ((s : List ℕ) → files name ≡ some s → length s < 10 ^ 8)
        → main_f pintos kernel files (name ∷ names) stdin fds ≡ hung
    unfolding main_f after_forks children merge_children init_words_l
    fwords-hangs name names stdin fds grants small =
        let first = closed_above kernel 0 (piped kernel 0 fds) in
        let (r, w) = Held-after names 1 first (omega arith) (Held-first fds) in
        let (m, can, out) = Scans-first name (Scans-child name grants small) in
        rw (pintos.init-nil, r, merge_children, w, out, merge_open-waits pintos [] m can) refl
