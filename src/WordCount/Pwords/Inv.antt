-- ===== src/WordCount/Pwords/Inv.antt =====
-- What holds in every state of pwords.c, if memory is granted, the threads are created and the files
-- can be opened.
use operating_systems_and_sy.Prelude.{
  ℕ, ◌+◌, ◌<◌, ◌≤◌, ◌≡◌, ◌≢◌, sym, ◌∙◌, Bool, true, false, some, List, length, get_elem?, set,
  get_elem?-set_self, get_elem?-set_ne, length-set, arith, ℕ_discrete,
}
use operating_systems_and_sy.CLib.{Text}
use operating_systems_and_sy.WordCount.Table.Tally.{Tally}
use operating_systems_and_sy.WordCount.Stream.Counts.{occurrences}
use operating_systems_and_sy.WordCount.Program.{exited}
use operating_systems_and_sy.WordCount.Program.Output.{CanOpen, file_words}
use operating_systems_and_sy.WordCount.Program.Tallied.{Lists}
use operating_systems_and_sy.WordCount.Pintos.{PintosList}
use operating_systems_and_sy.WordCount.Pintos.Locked.{LockedList}
use operating_systems_and_sy.WordCount.Pwords.{
  Place, ended, moved, faulted, advance, MainAt, opening, joining, over, State, is_over, Kernel,
}
use operating_systems_and_sy.WordCount.Pwords.Threads.{
  left, weight, holds, bit, IsGood, IsGood-other, Kept, Fate-moved, Fate-faulted,
}
use operating_systems_and_sy.WordCount.Pwords.Fates.{advance-Fate}
use operating_systems_and_sy.WordCount.Pwords.Places.{
  sum_of, sum_of-set, le-sum_of, two-le-sum_of, lt-length,
}

-- The occurrences in the files that are still to be opened.
unfoldable pub unopened : Kernel → Text → MainAt → ℕ
unopened kernel v (opening names) = occurrences v (file_words kernel.files names)
unopened kernel v (joining k) = 0
unopened kernel v (over e) = 0

-- Of the main thread: its files can be opened, the threads that it has joined have ended, or it has
-- printed the list of the words.
unfoldable pub MainIsGood : Kernel → (Text → ℕ) → List Place → MainAt → Type 0
MainIsGood kernel goal threads (opening names) = CanOpen kernel.files names
MainIsGood kernel goal threads (joining k) =
    (k ≤ length threads) × ((j : ℕ) → j < k → get_elem? threads j ≡ some ended)
MainIsGood kernel goal threads (over e) = (out : Text) × (e ≡ exited 0 out) × Lists goal out

-- The list counts, by `f`, what the threads have added; with what they and the main thread have still
-- to read this makes up the words of all the files. The threads that hold the mutex are one or none.
pub record Inv (kernel : Kernel) (goal : Text → ℕ) (s : State) : Type 0 where
  pub f : Text → ℕ
  pub tallied : Tally f s.word_counts.lst
  pub balance : (v : Text) → f v + sum_of (left v) s.threads + unopened kernel v s.main ≡ goal v
  pub held : sum_of holds s.threads ≡ bit s.word_counts.locked
  pub good : (i : ℕ) (p : Place) → get_elem? s.threads i ≡ some p → IsGood s.word_counts.lst p
  pub main_good : MainIsGood kernel goal s.threads s.main

-- Nothing is refused.
pub record Grants (kernel : Kernel) : Type 0 where
  pub creates : (t : ℕ) → kernel.create t ≡ 0
  pub grants : (t n : ℕ) → kernel.grant t n ≡ true

bit-le : (b : Bool) → bit b ≤ 1
bit-le true = omega arith
bit-le false = omega arith

module _ (kernel : Kernel) {goal : Text → ℕ} where
  -- Where one thread moves, the others stay good: if it holds the mutex, no other does.
  IsGood-after :
      {s : State} (i : ℕ) (p p' : Place) (l : LockedList)
      → (v : Inv kernel goal s) → get_elem? s.threads i ≡ some p
      → Kept v.f p p' s.word_counts l
      → (j : ℕ) (q : Place) → get_elem? (set s.threads i p') j ≡ some q
      → IsGood l.lst q
  IsGood-after {s} i p p' l v at k j q at' = elim (ℕ_discrete i j) [
    | yes e ↦
        let own : get_elem? (set s.threads i p') i ≡ some p' =
          get_elem?-set_self s.threads i p' (lt-length s.threads i p at) in
        let same : p' ≡ q = cc in rw (← same) k.good
    | no ne ↦
        let before : get_elem? s.threads j ≡ some q =
          sym (get_elem?-set_ne s.threads p' ne) ∙ at' in
        elim (ℕ_discrete (holds p) 0) [
          | yes free ↦ rw (k.others free) (v.good j q before)
          | no held ↦
              let alone : holds q ≡ 0 = omega (
                arith,
                v.held,
                bit-le s.word_counts.locked,
                two-le-sum_of holds s.threads i j p q ne at before,
              ) in
              IsGood-other s.word_counts.lst l.lst q alone (v.good j q before)
        ]
  ]

main_after :
    (kernel : Kernel) (goal : Text → ℕ) (threads : List Place) (i : ℕ) (p p' : Place) (m : MainAt)
    → is_over m ≡ false
    → get_elem? threads i ≡ some p
    → weight p' < weight p
    → MainIsGood kernel goal threads m
    → MainIsGood kernel goal (set threads i p') m
unfolding MainIsGood is_over weight
main_after kernel goal threads i p p' (opening names) alive at lighter g = g
main_after kernel goal threads i p p' (joining k) alive at lighter (few, joined) = (
  rw (length-set threads i p') few,
  λ j lt. elim (ℕ_discrete i j) [
    | yes e ↦
        let gone = joined j lt in
        let same : p ≡ ended = cc in absurd (omega (arith, rw same at lighter))
    | no ne ↦ get_elem?-set_ne threads p' ne ∙ joined j lt
  ],
)
main_after kernel goal threads i p p' (over e) alive at lighter g = absurd (cc)

module _ (pintos : PintosList) (kernel : Kernel) (granted : Grants kernel) {goal : Text → ℕ} where
  open granted use {grants}

  pub thread-Inv :
      {s : State} (i : ℕ) (p p' : Place) (l : LockedList)
      → is_over s.main ≡ false
      → get_elem? s.threads i ≡ some p
      → (v : Inv kernel goal s) → Kept v.f p p' s.word_counts l
      → Inv kernel goal (record s { word_counts = l; threads = set s.threads i p' })
  thread-Inv {s} i p p' l alive at v k = record {
    f = k.g;
    tallied = k.tallied;
    balance = λ w. omega (arith, v.balance w, k.kept w, sum_of-set (left w) s.threads i p p' at);
    held = omega (arith, v.held, k.lock, sum_of-set holds s.threads i p p' at);
    good = IsGood-after kernel i p p' l v at k;
    main_good = main_after kernel goal s.threads i p p' s.main alive at k.lighter v.main_good;
  }

  -- The fate of the i-th thread.
  pub thread-Kept :
      {s : State} (i : ℕ) (p p' : Place) (l : LockedList)
      → get_elem? s.threads i ≡ some p
      → (v : Inv kernel goal s) → advance pintos (kernel.grant i) p s.word_counts ≡ moved p' l
      → Kept v.f p p' s.word_counts l
  thread-Kept {s} i p p' l at v e =
      Fate-moved
        (advance-Fate pintos (kernel.grant i) (grants i) v.f p s.word_counts (v.good i p at)
          (omega (arith, v.held, le-sum_of holds s.threads i p at)) v.tallied)
        e

  pub never_faults :
      {s : State} (i : ℕ) (p : Place)
      → get_elem? s.threads i ≡ some p
      → (v : Inv kernel goal s) → advance pintos (kernel.grant i) p s.word_counts ≢ faulted
  never_faults {s} i p at v = Fate-faulted (
      advance-Fate pintos (kernel.grant i) (grants i) v.f p s.word_counts (v.good i p at)
        (omega (arith, v.held, le-sum_of holds s.threads i p at)) v.tallied)
