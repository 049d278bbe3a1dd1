-- ===== src/WordCount/Pwords.antt =====
-- pwords.c, linked with word_count_p.c: a thread for each file counts its words into one list with a
-- mutex. Every pthread call is a step of its own, and so are the search of the list and the change
-- that follows it.
pub mod Threads
pub mod Fates
pub mod Places
pub mod Inv
pub mod Main
pub mod Steps
pub mod Same
pub mod Ends
mod Tests
use operating_systems_and_sy.Prelude.{
  ℕ, zero, suc, ◌+◌, ◌≡◌, Bool, true, false, Option, none, some, List, [], ◌∷◌, ◌++◌, length,
  get_elem?, set, ◌==◌, if◌then◌else◌,
}
use operating_systems_and_sy.CLib.{Text, codes}
use operating_systems_and_sy.CLib.Decimal.{decimal}
use operating_systems_and_sy.WordCount.Table.{entry, less_count}
use operating_systems_and_sy.WordCount.Stream.{word, nothing, overrun, get_word}
use operating_systems_and_sy.WordCount.Program.{Exit, exited, crashed}
use operating_systems_and_sy.WordCount.Pintos.{PintosList, increase}
use operating_systems_and_sy.WordCount.Pintos.Locked.{
  LockedList, find_word_p, fprint_words_p, init_words_p, wordcount_sort_p,
}

-- Where a thread stands in `count_words`, with the rest of its file and the number of its requests for
-- memory: at `get_word`, or in `add_word` with a word, at the lock, at `find_word`, at the change of
-- the list for what that found, or at the unlock; or it has ended.
pub data Place : Type 0 where
  reading : (file : List ℕ) → (requests : ℕ) → Place
  locking : Text → (file : List ℕ) → (requests : ℕ) → Place
  finding : Text → (file : List ℕ) → (requests : ℕ) → Place
  storing : Option ℕ → Text → (file : List ℕ) → (requests : ℕ) → Place
  unlocking : (file : List ℕ) → (requests : ℕ) → Place
  ended : Place

-- What a thread can do: a step, wait for the mutex, nothing more, or write where it must not.
pub data Advanced : Type 0 where
  moved : Place → LockedList → Advanced
  waits : Advanced
  stopped : Advanced
  faulted : Advanced

-- Where the main thread stands: opening the files that are left, joining the k-th thread, or past the
-- end of the process.
pub data MainAt : Type 0 where
  opening : List Text → MainAt
  joining : ℕ → MainAt
  over : Exit → MainAt

pub record State : Type 0 where
  pub main : MainAt
  pub word_counts : LockedList
  pub threads : List Place

unfoldable pub is_over : MainAt → Bool
is_over (opening names) = false
is_over (joining k) = false
is_over (over e) = true

-- `files` says what `fopen` opens; `create` is the result of `pthread_create` for the t-th thread, and
-- `grant` says which requests for memory of the t-th thread are granted.
pub record Kernel : Type 0 where
  pub files : Text → Option (List ℕ)
  pub create : ℕ → ℕ
  pub grant : ℕ → ℕ → Bool

module _ (pintos : PintosList) where
  -- `thread_count_words`, by one step.
  unfoldable pub advance : (ℕ → Bool) → Place → LockedList → Advanced
  advance grant (reading file n) l =
      let r = get_word grant file n in
      elim (r.got) [
        | nothing ↦ moved ended l
        | overrun ↦ faulted
        | word w ↦
            moved (if length w == 1 then reading r.rest r.requests else locking w r.rest r.requests)
              l
      ]
  advance grant (locking w file n) l =
      if l.locked then waits else moved (finding w file n) (record l { locked = true })
  advance grant (finding w file n) l = moved (storing (find_word_p l w) w file n) l
  advance grant (storing (some i) w file n) l =
      moved (unlocking file n) (record l { lst = increase l.lst i 1 })
  advance grant (storing none w file n) l =
      if grant n
      then moved (unlocking file (n + 1))
          (record l { lst = pintos.list_push_back l.lst (entry w 1) })
      else faulted
  advance grant (unlocking file n) l = moved (reading file n) (record l { locked = false })
  advance grant ended l = stopped

  module _ (kernel : Kernel) where
    -- One round of the loop that opens the files and creates the threads. `exit(-1)` is status 255.
    unfoldable pub open_next : Text → List Text → State → State
    open_next name names s = elim (kernel.files name) [
      | none ↦ record s {
        main = over (exited 255 (codes "ERROR; cannot open file " ++ name ++ 10 ∷ []));
      }
      | some f ↦
          if kernel.create (length s.threads) == 0
          then record s { main = opening names; threads = s.threads ++ reading f 0 ∷ [] }
          else record s {
            main = over (
                exited 255 (
                  codes "ERROR; return code from pthread_create() is "
                  ++ decimal (kernel.create (length s.threads))
                  ++ 10 ∷ []));
          }
    ]

    -- `pthread_join`, or the output behind the last one.
    unfoldable pub join_next : ℕ → State → Option State
    join_next k s = elim (get_elem? s.threads k) [
      | none ↦ some (record s {
        main = over (exited 0 (fprint_words_p (wordcount_sort_p pintos less_count s.word_counts)));
      })
      | some ended ↦ some (record s { main = joining (suc k) })
      | some p ↦ none
    ]

    unfoldable pub main_step : MainAt → State → Option State
    main_step (opening (name ∷ names)) s = some (open_next name names s)
    main_step (opening []) s = some (record s { main = joining 0 })
    main_step (joining k) s = join_next k s
    main_step (over e) s = none

    -- A fault of a thread is the end of the process.
    pub data Step (s : State) : State → Type 0 where
      main_moves : (t : State) → main_step s.main s ≡ some t → Step s t
      thread_moves :
          (i : ℕ) (p p' : Place) (l : LockedList)
          → is_over s.main ≡ false
          → get_elem? s.threads i ≡ some p
          → advance (kernel.grant i) p s.word_counts ≡ moved p' l
          → Step s (record s { word_counts = l; threads = set s.threads i p' })
      thread_faults :
          (i : ℕ) (p : Place)
          → is_over s.main ≡ false
          → get_elem? s.threads i ≡ some p
          → advance (kernel.grant i) p s.word_counts ≡ faulted
          → Step s (record s { main = over crashed })

    -- With no argument the main thread counts the words of the standard input itself; it stands in the
    -- table as the only thread.
    unfoldable pub start : List Text → List ℕ → State
    start [] stdin = record {
      main = joining 0;
      word_counts = init_words_p pintos;
      threads = reading stdin 0 ∷ [];
    }
    start (name ∷ names) stdin = record {
      main = opening (name ∷ names);
      word_counts = init_words_p pintos;
      threads = [];
    }

    -- The states after `n` steps.
    pub data Reach (names : List Text) (stdin : List ℕ) : ℕ → State → Type 0 where
      here : Reach names stdin zero (start names stdin)
      step : {n : ℕ} {s t : State} → Reach names stdin n s → Step s t → Reach names stdin (suc n) t
