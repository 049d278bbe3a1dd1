-- ===== src/WordCount/Pwords/Steps.antt =====
-- Every step of pwords.c keeps the invariant.
use operating_systems_and_sy.Prelude.{
  ℕ, suc, ◌+◌, ◌^◌, ◌<◌, ◌≤◌, ◌≡◌, refl, inl, inr, Option, none, some, List, [], ◌∷◌, length,
  get_elem?, arith, ℕ_discrete,
}
use operating_systems_and_sy.CLib.{Text}
use operating_systems_and_sy.WordCount.Table.Tally.{Tally-same}
use operating_systems_and_sy.WordCount.Stream.Words.{words_from}
use operating_systems_and_sy.WordCount.Stream.Counts.{occurrences}
use operating_systems_and_sy.WordCount.Program.Output.{CanOpen, file_words, occurrences-append}
use operating_systems_and_sy.WordCount.Pintos.{PintosList, wordcount_sort_l}
use operating_systems_and_sy.WordCount.Pintos.Locked.{fprint_words_p, wordcount_sort_p}
use operating_systems_and_sy.WordCount.Pintos.Sorted.{Lists-sorted}
use operating_systems_and_sy.WordCount.Pwords.{
  Place, reading, ended, MainAt, opening, joining, State, Kernel, Step, main_moves, thread_moves,
  thread_faults,
}
use operating_systems_and_sy.WordCount.Pwords.Threads.{left, holds, IsGood}
use operating_systems_and_sy.WordCount.Pwords.Places.{
  sum_of-append, sum_of-zero, get_elem?-added, lt-length, length-le,
}
use operating_systems_and_sy.WordCount.Pwords.Main.{
  opened, joined, printed, Next, opens, created, joins, prints, awaits, done, main_step-Next,
}
use operating_systems_and_sy.WordCount.Pwords.Inv.{
  Inv, MainIsGood, unopened, Grants, thread-Inv, thread-Kept, never_faults,
}

unopened_next :
    (kernel : Kernel) (v : Text) (name : Text) (names : List Text) (file : List ℕ) (m : MainAt)
    → m ≡ opening (name ∷ names)
    → kernel.files name ≡ some file
    → unopened kernel v m ≡ occurrences v (words_from file []) + unopened kernel v (opening names)
unfolding unopened file_words
unopened_next kernel v name names file m at e =
    rw (at, e, file_words)
      (occurrences-append v (words_from file []) (file_words kernel.files names))

unopened_joining :
    (kernel : Kernel) (v : Text) (k : ℕ) (m : MainAt) → m ≡ joining k → unopened kernel v m ≡ 0
unfolding unopened
unopened_joining kernel v k m at = rw at refl

main_joined :
    (kernel : Kernel) (goal : Text → ℕ) (k : ℕ) (s : State)
    → s.main ≡ joining k
    → MainIsGood kernel goal s.threads s.main
    → (k ≤ length s.threads) × ((j : ℕ) → j < k → get_elem? s.threads j ≡ some ended)
unfolding MainIsGood
main_joined kernel goal k s at g = rw at at g

module _ (kernel : Kernel) {goal : Text → ℕ} where
  opened-Inv :
      (name : Text) (names : List Text) (file : List ℕ) {s : State}
      → s.main ≡ opening (name ∷ names)
      → kernel.files name ≡ some file
      → length file + 1 < 2 ^ 63
      → CanOpen kernel.files names
      → Inv kernel goal s
      → Inv kernel goal (opened names file s)
  unfolding left holds IsGood MainIsGood
  opened-Inv name names file {s} at e small others v = record {
    f = v.f;
    tallied = v.tallied;
    balance = λ w. omega (
      arith,
      v.balance w,
      unopened_next kernel w name names file s.main at e,
      sum_of-append (left w) s.threads (reading file 0 ∷ []),
    );
    held = omega (arith, v.held, sum_of-append holds s.threads (reading file 0 ∷ []));
    good = λ i p at'. elim (get_elem?-added s.threads i (reading file 0) p at') [
      | inl old ↦ v.good i p old
      | inr new ↦ rw new small
    ];
    main_good = others;
  }

  created-Inv : {s : State} → s.main ≡ opening [] → Inv kernel goal s → Inv kernel goal (joined 0 s)
  unfolding MainIsGood unopened occurrences file_words
  created-Inv {s} at v = record {
    f = v.f;
    tallied = v.tallied;
    balance = λ w. rw at at (v.balance w);
    held = v.held;
    good = v.good;
    main_good = (omega arith, λ j lt. absurd (omega arith));
  }

  joins-Inv :
      (k : ℕ) {s : State}
      → s.main ≡ joining k
      → get_elem? s.threads k ≡ some ended
      → Inv kernel goal s
      → Inv kernel goal (joined (suc k) s)
  unfolding MainIsGood
  joins-Inv k {s} at gone v = record {
    f = v.f;
    tallied = v.tallied;
    balance = λ w. omega (
      arith,
      v.balance w,
      unopened_joining kernel w k s.main at,
      unopened_joining kernel w (suc k) (joining (suc k)) refl,
    );
    held = v.held;
    good = v.good;
    main_good = (
      lt-length s.threads k ended gone,
      λ j lt. elim (ℕ_discrete j k) [
        | yes e ↦ rw e gone
        | no ne ↦ (main_joined kernel goal k s at v.main_good).1 j (omega arith)
      ],
    );
  }

  -- Behind the last join every thread has ended, so the list counts the words of all the files.
  prints-Inv :
      (pintos : PintosList) (k : ℕ) {s : State}
      → s.main ≡ joining k
      → get_elem? s.threads k ≡ none
      → Inv kernel goal s
      → Inv kernel goal (printed pintos s)
  unfolding MainIsGood unopened left fprint_words_p wordcount_sort_p wordcount_sort_l
  prints-Inv pintos k {s} at last v = record {
    f = v.f;
    tallied = v.tallied;
    balance = λ w. omega (arith, v.balance w, unopened_joining kernel w k s.main at);
    held = v.held;
    good = v.good;
    main_good =
        (_, refl, Lists-sorted pintos s.word_counts.lst (Tally-same {f = v.f} whole v.tallied));
  }
    where
      gone : (w : Text) (i : ℕ) (p : Place) → get_elem? s.threads i ≡ some p → left w p ≡ 0
      gone w i p here' =
          let over =
            (main_joined kernel goal k s at v.main_good).1 i
              (omega (arith, lt-length s.threads i p here', length-le s.threads k last)) in
          let same : p ≡ ended = cc in rw same refl

      whole : (w : Text) → v.f w ≡ goal w
      whole w = omega (
        arith,
        v.balance w,
        unopened_joining kernel w k s.main at,
        sum_of-zero (left w) s.threads (gone w),
      )

  Next-Inv :
      (pintos : PintosList) {s t : State} {o : Option State}
      → Next pintos kernel s o
      → o ≡ some t
      → Inv kernel goal s
      → Inv kernel goal t
  Next-Inv pintos {s} {t} (opens name names file at e small others) h v =
      let same : opened names file s ≡ t = cc in
      rw (← same) (opened-Inv name names file at e small others v)
  Next-Inv pintos {s} {t} (created at) h v =
      let same : joined 0 s ≡ t = cc in rw (← same) (created-Inv at v)
  Next-Inv pintos {s} {t} (joins k at gone) h v =
      let same : joined (suc k) s ≡ t = cc in rw (← same) (joins-Inv k at gone v)
  Next-Inv pintos {s} {t} (prints k at last) h v =
      let same : printed pintos s ≡ t = cc in rw (← same) (prints-Inv pintos k at last v)
  Next-Inv pintos (awaits k p at e ne) h v = absurd (cc)
  Next-Inv pintos (done e at) h v = absurd (cc)

  pub Step-Inv :
      (pintos : PintosList)
      → Grants kernel
      → {s t : State} → Step pintos kernel s t
      → Inv kernel goal s
      → Inv kernel goal t
  Step-Inv pintos granted {s} (main_moves t e) v =
      Next-Inv pintos (main_step-Next pintos kernel granted goal s.main s refl v.main_good) e v
  Step-Inv pintos granted {s} (thread_moves i p p' l alive at e) v =
      thread-Inv pintos kernel granted i p p' l alive at v
        (thread-Kept pintos kernel granted i p p' l at v e)
  Step-Inv pintos granted (thread_faults i p alive at e) v =
      absurd (never_faults pintos kernel granted i p at v e)
