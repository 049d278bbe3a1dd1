-- ===== src/WordCount/Pintos/Locked.antt =====
-- The functions of word_count_p.c, whose list has a mutex, and `fprint_words` of both files.
use operating_systems_and_sy.Prelude.{
  ℕ, ◌≡◌, refl, Bool, false, Option, none, some, [], ◌∷◌, ◌++◌, if◌then◌else◌,
}
use operating_systems_and_sy.CLib.{Text}
use operating_systems_and_sy.WordCount.Table.{WordCounts, entry, Less}
use operating_systems_and_sy.WordCount.Print.{print_line}
use operating_systems_and_sy.WordCount.Pintos.{
  PintosList, find_entry, increase, add_word_l, add_word_with_count,
}

-- `word_count_list_t` with PTHREADS.
pub record LockedList : Type 0 where
  pub lst : WordCounts
  pub locked : Bool

-- How `add_word` ends: it waits for the mutex, it returns, or it writes through NULL with the mutex.
pub data Added : Type 0 where
  blocked : Added
  returned : LockedList → Added
  null_write : Added

-- `fprintf(outfile, "%8d\t%s\n", wc->count, wc->word)` for each entry that the traversal meets.
unfoldable pub fprint_words_l : WordCounts → Text
fprint_words_l [] = []
fprint_words_l (wc ∷ next) = print_line wc ++ fprint_words_l next

unfoldable pub find_word_p : LockedList → Text → Option ℕ
find_word_p wclist w = find_entry wclist.lst w 0

unfoldable pub fprint_words_p : LockedList → Text
fprint_words_p wclist = fprint_words_l wclist.lst

module _ (pintos : PintosList) where
  unfoldable pub init_words_p : LockedList
  init_words_p = record { lst = pintos.list_init; locked = false }

  unfoldable pub len_words_p : LockedList → ℕ
  len_words_p wclist = pintos.list_size wclist.lst

  -- Between pthread_mutex_lock and pthread_mutex_unlock.
  unfoldable pub add_locked : Bool → WordCounts → Text → Option WordCounts
  add_locked granted l w = elim (find_entry l w 0) [
    | some i ↦ some (increase l i 1)
    | none ↦ if granted then some (pintos.list_push_back l (entry w 1)) else none
  ]

  unfoldable pub add_word_p : Bool → LockedList → Text → Added
  add_word_p granted wclist w =
      if wclist.locked then blocked else elim (add_locked granted wclist.lst w) [
        | none ↦ null_write
        | some l ↦ returned (record { lst = l; locked = false })
      ]

  unfoldable pub wordcount_sort_p : Less → LockedList → LockedList
  wordcount_sort_p less wclist = record wclist { lst = pintos.list_sort less wclist.lst }

  -- On a list whose mutex is free, `add_word` of word_count_p.c does to the list what that of
  -- word_count_l.c does, and leaves the mutex free.
  pub add_word_p-add_word_l :
      (granted : Bool) (l l' : WordCounts) (w : Text)
      → add_word_l pintos granted l w ≡ some l'
      → add_word_p granted (record { lst = l; locked = false }) w
        ≡ returned (record { lst = l'; locked = false })
  unfolding add_word_p add_locked add_word_l add_word_with_count
  add_word_p-add_word_l granted l l' w h = rw h refl
