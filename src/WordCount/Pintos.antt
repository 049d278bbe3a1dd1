-- ===== src/WordCount/Pintos.antt =====
-- word_count_l.c and word_count_p.c, the word lists over the lists of Pintos, and pwords.c, which
-- shares one such list among threads. The list operations are an interface with the behaviour that
-- list.h documents; a list is given by the entries that a traversal meets.
pub mod Added
pub mod Threads
pub mod Locked
pub mod Count
pub mod Sorted
pub mod Plain
mod Tests
use mathlib.Core.List.{Perm}
use operating_systems_and_sy.Prelude.{
  ℕ, zero, suc, ◌+◌, ◌%◌, ◌^◌, ◌≡◌, Bool, true, false, Option, none, some, List, [], ◌∷◌, ◌++◌,
  length, get_elem?, set, ◌==◌, if◌then◌else◌,
}
use operating_systems_and_sy.CLib.{Text, str_eq}
use operating_systems_and_sy.WordCount.Table.{WordCount, WordCounts, entry, int_add, Less}
use operating_systems_and_sy.WordCount.Table.Sort.{IsStrictWeak, IsSorted}

pub record PintosList : Type 0 where
  pub list_init : WordCounts
  pub list_size : WordCounts → ℕ
  pub list_push_back : WordCounts → WordCount → WordCounts
  pub list_sort : Less → WordCounts → WordCounts
  pub init-nil : list_init ≡ []
  pub size-length : (l : WordCounts) → list_size l ≡ length l
  pub push_back-append : (l : WordCounts) (e : WordCount) → list_push_back l e ≡ l ++ e ∷ []
  pub sort-IsSorted :
      (less : Less) (l : WordCounts)
      → IsStrictWeak less
      → IsSorted less (list_sort less l) × Perm (list_sort less l) l

-- The loop of `find_word`, from the k-th entry on.
unfoldable pub find_entry : WordCounts → Text → ℕ → Option ℕ
find_entry [] w k = none
find_entry (wc ∷ next) w k = if str_eq wc.word w then some k else find_entry next w (suc k)

-- `res->count += count` at the i-th entry.
unfoldable pub increase : WordCounts → ℕ → ℕ → WordCounts
increase [] i n = []
increase (wc ∷ next) zero n = record wc { count = int_add wc.count n } ∷ next
increase (wc ∷ next) (suc i) n = wc ∷ increase next i n

module _ (pintos : PintosList) where
  unfoldable pub init_words_l : WordCounts
  init_words_l = pintos.list_init

  unfoldable pub len_words_l : WordCounts → ℕ
  len_words_l wclist = pintos.list_size wclist

  -- The result of `malloc` is not checked: none is a write through NULL.
  unfoldable pub add_word_with_count : Bool → WordCounts → Text → ℕ → Option WordCounts
  add_word_with_count granted wclist w n = elim (find_entry wclist w 0) [
    | some i ↦ some (increase wclist i n)
    | none ↦ if granted then some (pintos.list_push_back wclist (entry w n)) else none
  ]

  -- `add_word` of both files; that of word_count_p.c runs under the lock of the list.
  unfoldable pub add_word_l : Bool → WordCounts → Text → Option WordCounts
  add_word_l granted wclist w = add_word_with_count granted wclist w 1

  unfoldable pub wordcount_sort_l : Less → WordCounts → WordCounts
  wordcount_sort_l less wclist = pintos.list_sort less wclist

  -- The threads of pwords.c: the shared list, and for each thread the words that `get_word` has still
  -- to give it. A call of `add_word` is one step, since it holds the lock from end to end.
  pub record Shared : Type 0 where
    pub word_counts : WordCounts
    pub words : List (List Text)

  pub data Step (s : Shared) : Shared → Type 0 where
    letter :
        (i : ℕ) (w : Text) (ws : List Text)
        → get_elem? s.words i ≡ some (w ∷ ws)
        → (length w == 1) ≡ true
        → Step s (record s { words = set s.words i ws })
    counts :
        (i : ℕ) (w : Text) (ws : List Text) (l : WordCounts)
        → get_elem? s.words i ≡ some (w ∷ ws)
        → (length w == 1) ≡ false
        → add_word_l true s.word_counts w ≡ some l
        → Step s (record s { word_counts = l; words = set s.words i ws })

  pub data Reach (words : List (List Text)) : Shared → Type 0 where
    here : Reach words (record { word_counts = init_words_l; words = words })
    step : {s t : Shared} → Reach words s → Step s t → Reach words t
