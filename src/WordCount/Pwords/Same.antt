-- ===== src/WordCount/Pwords/Same.antt =====
-- pwords.c prints what words.c prints, however its threads are scheduled.
use operating_systems_and_sy.Prelude.{
  ℕ, ◌+◌, ◌^◌, ◌<◌, ◌≡◌, refl, ap, ◌∙◌, Bool, true, List, [], ◌∷◌, length, get_elem?, some, arith,
  zero, suc,
}
use operating_systems_and_sy.CLib.{Text}
use operating_systems_and_sy.WordCount.Table.Tally.{Tally-nil}
use operating_systems_and_sy.WordCount.Stream.Words.{words_from}
use operating_systems_and_sy.WordCount.Stream.Counts.{occurrences}
use operating_systems_and_sy.WordCount.Program.{Exit, exited}
use operating_systems_and_sy.WordCount.Program
use operating_systems_and_sy.WordCount.Program.Output.{CanOpen, file_words}
use operating_systems_and_sy.WordCount.Program.Tallied.{Lists, main-Lists, main_stdin-Lists}
use operating_systems_and_sy.WordCount.Pintos.{PintosList}
use operating_systems_and_sy.WordCount.Pintos.Locked.{init_words_p}
use operating_systems_and_sy.WordCount.Pintos.Sorted.{Lists-same}
use operating_systems_and_sy.WordCount.Pwords.{
  Place, MainAt, over, State, Kernel, start, Reach, here, step,
}
use operating_systems_and_sy.WordCount.Pwords.Threads.{left, holds, IsGood}
use operating_systems_and_sy.WordCount.Pwords.Inv.{Inv, MainIsGood, unopened, Grants}
use operating_systems_and_sy.WordCount.Pwords.Steps.{Step-Inv}

-- The words that the program is given.
unfoldable pub goal_of : Kernel → List Text → List ℕ → Text → ℕ
goal_of kernel [] stdin v = occurrences v (words_from stdin [])
goal_of kernel (name ∷ names) stdin v = occurrences v (file_words kernel.files (name ∷ names))

-- The files, or the standard input, can be read.
abbrev pub CanRun : Kernel → List Text → List ℕ → Type 0
CanRun kernel [] stdin = length stdin + 1 < 2 ^ 63
CanRun kernel (name ∷ names) stdin = CanOpen kernel.files (name ∷ names)

main_over :
    (kernel : Kernel) (goal : Text → ℕ) (threads : List Place) (m : MainAt) {e : Exit}
    → m ≡ over e
    → MainIsGood kernel goal threads m
    → (out : Text) × (e ≡ exited 0 out) × Lists goal out
unfolding MainIsGood
main_over kernel goal threads m at g = rw at at g

module _ (pintos : PintosList) (kernel : Kernel) (granted : Grants kernel) where
  start-Inv :
      (names : List Text) (stdin : List ℕ)
      → CanRun kernel names stdin
      → Inv kernel (goal_of kernel names stdin) (start pintos kernel names stdin)
  unfolding start goal_of left holds IsGood MainIsGood unopened init_words_p
  start-Inv [] stdin can = record {
    f = λ v. 0;
    tallied = rw pintos.init-nil Tally-nil;
    balance = λ v. omega arith;
    held = refl;
    good = λ i p at. only i p at;
    main_good = (omega arith, λ j lt. absurd (omega arith));
  }
    where
      only :
          (i : ℕ) (p : Place)
          → get_elem? (Place.reading stdin 0 ∷ []) i ≡ some p
          → IsGood pintos.list_init p
      only zero p at = let same : Place.reading stdin 0 ≡ p = cc in rw (← same) can
      only (suc i) p at = absurd (cc)
  start-Inv (name ∷ names) stdin can = record {
    f = λ v. 0;
    tallied = rw pintos.init-nil Tally-nil;
    balance = λ v. omega arith;
    held = refl;
    good = λ i p at. absurd (cc);
    main_good = can;
  }

  pub Reach-Inv :
      (names : List Text) (stdin : List ℕ) {n : ℕ} {s : State}
      → CanRun kernel names stdin
      → Reach pintos kernel names stdin n s
      → Inv kernel (goal_of kernel names stdin) s
  Reach-Inv names stdin can here = start-Inv names stdin can
  Reach-Inv names stdin can (step r st) =
      Step-Inv kernel pintos granted st (Reach-Inv names stdin can r)

  words-Lists :
      (grant : ℕ → Bool)
      → ((m : ℕ) → grant m ≡ true)
      → (names : List Text) (stdin : List ℕ) → CanRun kernel names stdin
      → (out : Text) × (Program.main grant kernel.files names stdin ≡ exited 0 out)
        × Lists (goal_of kernel names stdin) out
  unfolding goal_of
  words-Lists grant all [] stdin can = main_stdin-Lists grant kernel.files all stdin can
  words-Lists grant all (name ∷ names) stdin can =
      main-Lists grant kernel.files all name names stdin can

  -- In whatever order its threads take their steps: if memory is granted, the threads are created and
  -- the files, or the standard input if none is named, can be read, a run of pwords.c that has come
  -- to its end has exited with 0 and printed exactly what words.c prints for the same command line.
  pub pwords-words :
      (grant : ℕ → Bool)
      → ((m : ℕ) → grant m ≡ true)
      → (names : List Text) (stdin : List ℕ) {n : ℕ} {s : State} {e : Exit}
      → CanRun kernel names stdin
      → Reach pintos kernel names stdin n s
      → s.main ≡ over e
      → (out : Text) × (e ≡ exited 0 out)
        × (Program.main grant kernel.files names stdin ≡ exited 0 out)
  pwords-words grant all names stdin {s = s} can r at =
      let v = Reach-Inv names stdin can r in
      let (mine, ends, lists) =
        main_over kernel (goal_of kernel names stdin) s.threads s.main at v.main_good in
      let (out, printed, lists') = words-Lists grant all names stdin can in
      (out, ends ∙ ap (λ o. exited 0 o) (Lists-same lists lists'), printed)
