-- ===== src/WordCount/Pwords/Main.antt =====
-- The steps of the main thread of pwords.c keep the invariant, and so does every step.
use operating_systems_and_sy.Prelude.{
  ℕ, suc, ◌+◌, ◌^◌, ◌<◌, ◌≡◌, ◌≢◌, refl, inl, inr, Option, none, some, List, [], ◌∷◌, ◌++◌, length,
  get_elem?, Option-cases,
}
use operating_systems_and_sy.CLib.{Text}
use operating_systems_and_sy.WordCount.Table.{less_count}
use operating_systems_and_sy.WordCount.Program.{Exit, exited}
use operating_systems_and_sy.WordCount.Program.Output.{CanOpen}
use operating_systems_and_sy.WordCount.Pintos.{PintosList}
use operating_systems_and_sy.WordCount.Pintos.Locked.{fprint_words_p, wordcount_sort_p}
use operating_systems_and_sy.WordCount.Pwords.{
  Place, reading, locking, finding, storing, unlocking, ended, MainAt, opening, joining, over,
  State, Kernel, open_next, join_next, main_step,
}
use operating_systems_and_sy.WordCount.Pwords.Inv.{MainIsGood, Grants}

-- A file that is opened, and its thread.
abbrev pub opened : List Text → List ℕ → State → State
opened names file s = record s { main = opening names; threads = s.threads ++ reading file 0 ∷ [] }

abbrev pub joined : ℕ → State → State
joined k s = record s { main = joining k }

module _ (pintos : PintosList) where
  abbrev pub printed : State → State
  printed s = record s {
    main = over (exited 0 (fprint_words_p (wordcount_sort_p pintos less_count s.word_counts)));
  }

  -- What the main thread does next, where nothing is refused.
  pub data Next (kernel : Kernel) (s : State) : Option State → Type 0 where
    opens :
        (name : Text) (names : List Text) (file : List ℕ)
        → s.main ≡ opening (name ∷ names)
        → kernel.files name ≡ some file
        → length file + 1 < 2 ^ 63
        → CanOpen kernel.files names
        → Next kernel s (some (opened names file s))
    created : s.main ≡ opening [] → Next kernel s (some (joined 0 s))
    joins :
        (k : ℕ)
        → s.main ≡ joining k
        → get_elem? s.threads k ≡ some ended
        → Next kernel s (some (joined (suc k) s))
    prints :
        (k : ℕ)
        → s.main ≡ joining k
        → get_elem? s.threads k ≡ none
        → Next kernel s (some (printed s))
    awaits :
        (k : ℕ) (p : Place)
        → s.main ≡ joining k
        → get_elem? s.threads k ≡ some p
        → p ≢ ended
        → Next kernel s none
    done : (e : Exit) → s.main ≡ over e → Next kernel s none

  module _ (kernel : Kernel) (granted : Grants kernel) where
    open granted use {creates}

    open_next-opened :
        (name : Text) (names : List Text) (file : List ℕ) (s : State)
        → kernel.files name ≡ some file
        → open_next pintos kernel name names s ≡ opened names file s
    unfolding open_next
    open_next-opened name names file s e = rw (e, open_next, creates (length s.threads)) refl

    join_next-Next :
        (k : ℕ) (s : State) → s.main ≡ joining k → Next kernel s (join_next pintos kernel k s)
    unfolding join_next
    join_next-Next k s at = elim (Option-cases (get_elem? s.threads k)) [
      | inl e ↦ rw (e, join_next) (prints k at e)
      | inr (ended, e) ↦ rw (e, join_next) (joins k at e)
      | inr (reading f n, e) ↦ rw (e, join_next) (awaits k (reading f n) at e (λ h. cc))
      | inr (locking w f n, e) ↦ rw (e, join_next) (awaits k (locking w f n) at e (λ h. cc))
      | inr (finding w f n, e) ↦ rw (e, join_next) (awaits k (finding w f n) at e (λ h. cc))
      | inr (storing pos w f n, e) ↦ rw (e, join_next) (awaits k (storing pos w f n) at e (λ h. cc))
      | inr (unlocking f n, e) ↦ rw (e, join_next) (awaits k (unlocking f n) at e (λ h. cc))
    ]

    pub main_step-Next :
        (goal : Text → ℕ) (m : MainAt) (s : State)
        → s.main ≡ m
        → MainIsGood kernel goal s.threads m
        → Next kernel s (main_step pintos kernel m s)
    unfolding main_step MainIsGood
    main_step-Next goal (opening []) s at g = created at
    main_step-Next goal (opening (name ∷ names)) s at ((file, e, small), others) =
        rw (open_next-opened name names file s e) (opens name names file at e small others)
    main_step-Next goal (joining k) s at g = join_next-Next k s at
    main_step-Next goal (over e) s at g = done e at
