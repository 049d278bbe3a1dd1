-- ===== src/WordCount/Table.antt =====
-- word_count.c: a linked list of words with their counts, in the order of its `next` pointers.
pub mod Count
pub mod Sort
pub mod Sums
pub mod Unique
pub mod Tally
use Prim.Native.Nat.{Ordering}
use operating_systems_and_sy.Prelude.{
  ℕ, zero, suc, ◌+◌, ◌%◌, ◌^◌, Bool, true, false, ◌&&◌, ◌||◌, Option, none, some, List, [], ◌∷◌,
  ◌++◌, ltb, ◌==◌, if◌then◌else◌,
}
use operating_systems_and_sy.CLib.{Text, str_eq, str_lt, codes}

-- A 32-bit `int` is its bit pattern, below 2^32; addition is that of the machine, which wraps.
abbrev pub int_add : ℕ → ℕ → ℕ
int_add a b = (a + b) % 2 ^ 32

-- Flipping the sign bit takes the order of `int` to the order of the patterns.
unfoldable pub flip_sign : ℕ → ℕ
flip_sign a = (a + 2 ^ 31) % 2 ^ 32

unfoldable pub int_lt : ℕ → ℕ → Bool
int_lt a b = ltb (flip_sign a) (flip_sign b)

unfoldable pub int_eq : ℕ → ℕ → Bool
int_eq a b = flip_sign a == flip_sign b

-- `word_count_t`; `next` is the order of the list.
pub record WordCount : Type 0 where
  pub word : Text
  pub count : ℕ

abbrev pub WordCounts : Type 0
WordCounts = List WordCount

abbrev pub entry : Text → ℕ → WordCount
entry w n = record { word = w; count = n }

unfoldable pub init_words : WordCounts
init_words = []

-- The loop of `len_words`, from `cur` on.
len_loop : WordCounts → ℕ → ℕ
len_loop [] len = len
len_loop (cur ∷ next) len = len_loop next ((len + 1) % 2 ^ 64)

unfoldable pub len_words : WordCounts → ℕ
unfolding len_loop
len_words wclist = len_loop wclist 0

-- The loop of `find_word`, from the `i`-th entry on. A pointer to an entry is its position.
find_loop : WordCounts → Text → ℕ → Option ℕ
find_loop [] w i = none
find_loop (wc ∷ next) w i = if str_eq w wc.word then some i else find_loop next w (suc i)

unfoldable pub find_word : WordCounts → Text → Option ℕ
unfolding find_loop
find_word wclist w = find_loop wclist w 0

-- `wc->count++` at the `i`-th entry.
unfoldable pub increment : WordCounts → ℕ → WordCounts
increment [] i = []
increment (wc ∷ next) zero = record wc { count = int_add wc.count 1 } ∷ next
increment (wc ∷ next) (suc i) = wc ∷ increment next i

-- `granted` is whether `malloc` returns memory. The Boolean of the result is whether the returned
-- pointer is not NULL.
unfoldable pub add_word : Bool → WordCounts → Text → WordCounts × Bool
unfolding find_word increment
add_word granted wclist w = elim (find_word wclist w) [
  | some i ↦ (increment wclist i, true)
  | none ↦ if granted then (entry w 1 ∷ wclist, true) else (wclist, false)
]

-- The order of the entries that a sort takes, `bool less(const word_count_t *, ...)`.
abbrev pub Less : Type 0
Less = WordCount → WordCount → Bool

-- The loop of `wordcount_insert_ordered`, from `cur` on: `prev` stays in front.
insert_after : Less → WordCount → WordCounts → WordCounts
insert_after less elem [] = elem ∷ []
insert_after less elem (cur ∷ next) =
    if less cur elem then cur ∷ insert_after less elem next else elem ∷ cur ∷ next

unfoldable pub wordcount_insert_ordered : Less → WordCount → WordCounts → WordCounts
unfolding insert_after
wordcount_insert_ordered less elem [] = elem ∷ []
wordcount_insert_ordered less elem (prev ∷ next) =
    if less elem prev then elem ∷ prev ∷ next else prev ∷ insert_after less elem next

-- The loop of `wordcount_sort`, from `head` on.
sort_loop : Less → WordCounts → WordCounts → WordCounts
sort_loop less [] sorted = sorted
sort_loop less (head ∷ next) sorted =
    sort_loop less next (wordcount_insert_ordered less head sorted)

unfoldable pub wordcount_sort : Less → WordCounts → WordCounts
unfolding sort_loop wordcount_insert_ordered init_words
wordcount_sort less wclist = sort_loop less wclist init_words

-- word_helpers.c
unfoldable pub less_count : Less
unfolding int_lt int_eq
less_count wc1 wc2 =
    int_lt wc1.count wc2.count || (int_eq wc1.count wc2.count && str_lt wc1.word wc2.word)

unfoldable pub less_word : Less
less_word wc1 wc2 = str_lt wc1.word wc2.word
