-- ===== src/WordCount/Pwords/Tests.antt =====
-- A run of one thread from the first step to the last.
use operating_systems_and_sy.Prelude.{
  ◌≤◌, ◌≡◌, ◌⊎◌, refl, true, false, none, some, List, [], ◌∷◌, if◌then◌else◌, arith,
}
use operating_systems_and_sy.CLib.{Text, codes, str_eq, strcmp, isalpha, tolower}
use operating_systems_and_sy.WordCount.Pintos.Plain.{plain_lists}
use operating_systems_and_sy.WordCount.Table.{entry, less_count}
use operating_systems_and_sy.WordCount.Stream.{
  get_word, skip, first_letter, put, accumulate, terminate,
}
use operating_systems_and_sy.WordCount.Program.{Exit, exited}
use operating_systems_and_sy.WordCount.Program
use operating_systems_and_sy.WordCount.Pintos.{find_entry}
use operating_systems_and_sy.WordCount.Pintos.Locked.{
  LockedList, find_word_p, fprint_words_p, wordcount_sort_p, init_words_p,
}
use operating_systems_and_sy.WordCount.Pwords.{
  Place, reading, locking, finding, storing, unlocking, ended, advance, MainAt, opening, joining,
  over, State, is_over, Kernel, open_next, join_next, main_step, Step, main_moves, thread_moves,
  start, Reach, here, step,
}
use operating_systems_and_sy.WordCount.Pwords.Inv.{Grants}
use operating_systems_and_sy.WordCount.Pwords.Same.{CanRun, pwords-words}
use operating_systems_and_sy.WordCount.Pwords.Ends.{steps_bound, pwords_ends}

abbrev kernel : Kernel
kernel = record {
  files = λ name. if str_eq name (codes "f") then some (codes "to") else none;
  create = λ t. 0;
  grant = λ t n. true;
}

kernel-Grants : Grants kernel
kernel-Grants = record { creates = λ t. refl; grants = λ t n. refl }

abbrev args : List Text
args = codes "f" ∷ []

args-CanRun : CanRun kernel args []
unfolding str_eq strcmp
args-CanRun = ((codes "to", refl, omega arith), tt)

abbrev at : MainAt → Place → LockedList → State
at m p l = record { main = m; word_counts = l; threads = p ∷ [] }

abbrev none_yet : LockedList
none_yet = record { lst = []; locked = false }

abbrev counted_to : LockedList
counted_to = record { lst = entry (codes "to") 1 ∷ []; locked = false }

-- The file is opened, the thread finds its word, adds it under the mutex, and ends; then the main
-- thread joins it and prints.
abbrev finished : State
finished =
    at (over (exited 0 (fprint_words_p (wordcount_sort_p plain_lists less_count counted_to)))) ended
      counted_to

abbrev Finished : Type 0
Finished = Reach plain_lists kernel args [] 10 finished

run : Finished
unfolding start init_words_p main_step open_next join_next advance get_word skip first_letter put
    accumulate terminate isalpha tolower find_word_p find_entry is_over str_eq strcmp
run =
    step
      (step
        (step
          (step
            (step
              (step
                (step
                  (step
                    (step
                      (step here
                        (main_moves (at (opening []) (reading (codes "to") 0) none_yet) refl))
                      (main_moves (at (joining 0) (reading (codes "to") 0) none_yet) refl))
                    (thread_moves 0 (reading (codes "to") 0) (locking (codes "to") [] 1) none_yet
                      refl refl refl))
                  (thread_moves 0 (locking (codes "to") [] 1) (finding (codes "to") [] 1)
                    (record { lst = []; locked = true }) refl refl refl))
                (thread_moves 0 (finding (codes "to") [] 1) (storing none (codes "to") [] 1)
                  (record { lst = []; locked = true }) refl refl refl))
              (thread_moves 0 (storing none (codes "to") [] 1) (unlocking [] 2)
                (record { lst = entry (codes "to") 1 ∷ []; locked = true }) refl refl refl))
            (thread_moves 0 (unlocking [] 2) (reading [] 2) counted_to refl refl refl))
          (thread_moves 0 (reading [] 2) ended counted_to refl refl refl))
        (main_moves (at (joining 1) ended counted_to) refl))
      (main_moves finished refl)

pwords-words_example :
    (out : Text) × (exited 0 (fprint_words_p (wordcount_sort_p plain_lists less_count counted_to))
      ≡ exited 0 out)
    × (Program.main (λ n. true) kernel.files args [] ≡ exited 0 out)
pwords-words_example =
    pwords-words plain_lists kernel kernel-Grants (λ n. true) (λ n. refl) args [] args-CanRun run
      refl

pwords_ends_example :
    (10 ≤ steps_bound kernel args [])
    × (((e : Exit) × (finished.main ≡ over e)) ⊎ ((t : State) × Step plain_lists kernel finished t))
pwords_ends_example = pwords_ends plain_lists kernel kernel-Grants args [] args-CanRun run
