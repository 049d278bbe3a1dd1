-- ===== src/WordCount/Pwords/Ends.antt =====
-- Every run of pwords.c comes to its end: no state before the end is stuck, and the steps are bounded.
use operating_systems_and_sy.Prelude.{
  ℕ, suc, ◌+◌, ◌-◌, ◌*◌, ◌<◌, ◌≤◌, ◌≡◌, ◌≢◌, refl, ◌⊎◌, inl, inr, true, false, Option, none, some,
  List, [], ◌∷◌, length, get_elem?, set, length-set, length-append, arith,
}
use operating_systems_and_sy.CLib.{Text}
use operating_systems_and_sy.WordCount.Program.{Exit}
use operating_systems_and_sy.WordCount.Pintos.{PintosList}
use operating_systems_and_sy.WordCount.Pwords.{
  Place, reading, ended, Advanced, advance, MainAt, opening, joining, over, State, is_over, Kernel,
  main_step, Step, main_moves, thread_moves, thread_faults, start, Reach, here, step,
}
use operating_systems_and_sy.WordCount.Pwords.Threads.{
  weight, holds, bit, Fate, Fate.moves, Fate.blocked, Fate.over,
}
use operating_systems_and_sy.WordCount.Pwords.Fates.{advance-Fate}
use operating_systems_and_sy.WordCount.Pwords.Places.{
  sum_of, sum_of-append, sum_of-set, le-sum_of, sum_of_pos, lt-length,
}
use operating_systems_and_sy.WordCount.Pwords.Inv.{Inv, Grants, thread-Kept, never_faults}
use operating_systems_and_sy.WordCount.Pwords.Main.{
  opened, joined, printed, Next, opens, created, joins, prints, awaits, done, main_step-Next,
}
use operating_systems_and_sy.WordCount.Pwords.Same.{CanRun, goal_of, Reach-Inv}

-- Five steps for a byte and three for a file.
unfoldable pub file_steps : Kernel → List Text → ℕ
file_steps kernel [] = 0
file_steps kernel (name ∷ names) = elim (kernel.files name) [
  | none ↦ file_steps kernel names
  | some file ↦ 5 * length file + 3 + file_steps kernel names
]

-- A bound on the steps of a run.
unfoldable pub steps_bound : Kernel → List Text → List ℕ → ℕ
steps_bound kernel [] stdin = 5 * length stdin + 3
steps_bound kernel (name ∷ names) stdin = file_steps kernel (name ∷ names) + 2

-- A bound on the steps that the main thread can still take.
main_weight : Kernel → MainAt → ℕ → ℕ
main_weight kernel (opening names) threads = file_steps kernel names + threads + 2
main_weight kernel (joining k) threads = (threads - k) + 1
main_weight kernel (over e) threads = 0

measure : Kernel → State → ℕ
measure kernel s = sum_of weight s.threads + main_weight kernel s.main (length s.threads)

opening_weight :
    (kernel : Kernel) (name : Text) (names : List Text) (file : List ℕ) (m : MainAt) (threads : ℕ)
    → m ≡ opening (name ∷ names)
    → kernel.files name ≡ some file
    → main_weight kernel m threads ≡ 5 * length file + 3 + file_steps kernel names + threads + 2
unfolding main_weight file_steps
opening_weight kernel name names file m threads at e = rw (at, e, file_steps) refl

Next-lighter :
    (pintos : PintosList) (kernel : Kernel) {s t : State} {o : Option State}
    → Next pintos kernel s o
    → o ≡ some t
    → measure kernel t < measure kernel s
unfolding measure main_weight weight file_steps
Next-lighter pintos kernel {s} {t} (opens name names file at e small others) h =
    let same : opened names file s ≡ t = cc in
    rw (← same) (
      omega (
        arith,
        opening_weight kernel name names file s.main (length s.threads) at e,
        sum_of-append weight s.threads (reading file 0 ∷ []),
        length-append s.threads (reading file 0 ∷ []),
      ))
Next-lighter pintos kernel {s} {t} (created at) h =
    let same : joined 0 s ≡ t = cc in rw (← same, at) (omega arith)
Next-lighter pintos kernel {s} {t} (joins k at gone) h =
    let same : joined (suc k) s ≡ t = cc in
    rw (← same, at) (omega (arith, lt-length s.threads k ended gone))
Next-lighter pintos kernel {s} {t} (prints k at last) h =
    let same : printed pintos s ≡ t = cc in rw (← same, at) (omega arith)
Next-lighter pintos kernel (awaits k p at e ne) h = absurd (cc)
Next-lighter pintos kernel (done e at) h = absurd (cc)

module _ (pintos : PintosList) (kernel : Kernel) where
  -- A thread that has not ended moves, or waits for one that holds the mutex.
  thread_can :
      {s : State} (i : ℕ) (p : Place) {a : Advanced} {f : Text → ℕ}
      → is_over s.main ≡ false
      → get_elem? s.threads i ≡ some p
      → advance pintos (kernel.grant i) p s.word_counts ≡ a
      → Fate f p s.word_counts a
      → p ≢ ended
      → ((t : State) × Step pintos kernel s t) ⊎ ((s.word_counts.locked ≡ true) × (holds p ≡ 0))
  thread_can {s} i p alive at e (moves p' l k) ne =
      inl (
        record s { word_counts = l; threads = set s.threads i p' },
        thread_moves i p p' l alive at e,
      )
  thread_can i p alive at e (blocked locked free) ne = inr (locked, free)
  thread_can i p alive at e (over h) ne = absurd (ne h)

module _ (pintos : PintosList) (kernel : Kernel) (granted : Grants kernel) {goal : Text → ℕ} where
  open granted use {grants}

  Step-lighter :
      {s t : State}
      → Step pintos kernel s t
      → Inv kernel goal s
      → measure kernel t < measure kernel s
  unfolding measure
  Step-lighter {s} (main_moves t e) v =
      Next-lighter pintos kernel
        (main_step-Next pintos kernel granted goal s.main s refl v.main_good) e
  Step-lighter {s} (thread_moves i p p' l alive at e) v =
      let k = thread-Kept pintos kernel granted i p p' l at v e in
      rw (length-set s.threads i p')
        (omega (arith, k.lighter, sum_of-set weight s.threads i p p' at))
  Step-lighter (thread_faults i p alive at e) v =
      absurd (never_faults pintos kernel granted i p at v e)

  Fate-at :
      {s : State} (i : ℕ) (p : Place)
      → get_elem? s.threads i ≡ some p
      → (v : Inv kernel goal s)
      → Fate v.f p s.word_counts (advance pintos (kernel.grant i) p s.word_counts)
  Fate-at {s} i p at v =
      advance-Fate pintos (kernel.grant i) (grants i) v.f p s.word_counts (v.good i p at)
        (omega (arith, v.held, le-sum_of holds s.threads i p at)) v.tallied

  -- The thread that holds the mutex moves.
  holder_can :
      {s : State} (i : ℕ) (p : Place)
      → is_over s.main ≡ false
      → get_elem? s.threads i ≡ some p
      → 0 < holds p
      → Inv kernel goal s
      → (t : State) × Step pintos kernel s t
  unfolding holds
  holder_can {s} i p alive at pos v =
      elim (thread_can pintos kernel i p alive at refl (Fate-at i p at v)
        (λ e. unfold holds in omega (arith, rw e at pos))) [
          | inl can ↦ can
          | inr (locked, free) ↦ absurd (omega arith)
        ]

  -- Where a thread has not ended, it or the one that holds the mutex moves.
  some_can :
      {s : State} (i : ℕ) (p : Place)
      → is_over s.main ≡ false
      → get_elem? s.threads i ≡ some p
      → p ≢ ended
      → Inv kernel goal s
      → (t : State) × Step pintos kernel s t
  some_can {s} i p alive at ne v =
      elim (thread_can pintos kernel i p alive at refl (Fate-at i p at v) ne) [
        | inl can ↦ can
        | inr (locked, free) ↦
            let one : bit s.word_counts.locked ≡ 1 = rw locked refl in
            let (j, q, at', pos) = sum_of_pos holds s.threads (omega (arith, v.held, one)) in
            holder_can j q alive at' pos v
      ]

  Next-can :
      {s : State} {o : Option State}
      → Next pintos kernel s o
      → main_step pintos kernel s.main s ≡ o
      → Inv kernel goal s
      → ((e : Exit) × (s.main ≡ over e)) ⊎ ((t : State) × Step pintos kernel s t)
  unfolding is_over
  Next-can (opens name names file at e small others) h v = inr (_, main_moves _ h)
  Next-can (created at) h v = inr (_, main_moves _ h)
  Next-can (joins k at gone) h v = inr (_, main_moves _ h)
  Next-can (prints k at last) h v = inr (_, main_moves _ h)
  Next-can (awaits k p at e ne) h v = inr (some_can k p (rw at refl) e ne v)
  Next-can (done e at) h v = inl (e, at)

start-measure :
    (pintos : PintosList) (kernel : Kernel) (names : List Text) (stdin : List ℕ)
    → measure kernel (start pintos kernel names stdin) ≤ steps_bound kernel names stdin
unfolding measure start steps_bound main_weight weight
start-measure pintos kernel [] stdin = omega arith
start-measure pintos kernel (name ∷ names) stdin = omega arith

module _ (pintos : PintosList) (kernel : Kernel) (granted : Grants kernel) (names : List Text)
    (stdin : List ℕ) (can : CanRun kernel names stdin) where
  Reach-measure :
      {n : ℕ} {s : State}
      → Reach pintos kernel names stdin n s
      → n + measure kernel s ≤ steps_bound kernel names stdin
  Reach-measure here = omega (arith, start-measure pintos kernel names stdin)
  Reach-measure (step r st) = omega (
    arith,
    Reach-measure r,
    Step-lighter pintos kernel granted st (Reach-Inv pintos kernel granted names stdin can r),
  )

  -- However the threads of pwords.c are scheduled: if memory is granted, the threads are created and
  -- the files, or the standard input if none is named, can be read, every run has at most five steps
  -- for a byte, three for a file and three more, and as long as the process has not exited, the main
  -- thread or some other can take a step.
  pub pwords_ends :
      {n : ℕ} {s : State}
      → Reach pintos kernel names stdin n s
      → (n ≤ steps_bound kernel names stdin)
        × (((e : Exit) × (s.main ≡ over e)) ⊎ ((t : State) × Step pintos kernel s t))
  pwords_ends {n} {s} r =
      let v = Reach-Inv pintos kernel granted names stdin can r in
      (
        omega (arith, Reach-measure r),
        Next-can pintos kernel granted
            (main_step-Next pintos kernel granted (goal_of kernel names stdin) s.main s refl
              v.main_good)
            refl v,
      )
