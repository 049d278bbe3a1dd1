-- ===== src/WordCount/Table/Sums.antt =====
-- Sums over the entries of a list, which its order does not change.
use operating_systems_and_sy.Prelude.{ℕ, ◌+◌, ◌≤◌, ◌≡◌, refl, [], ◌∷◌, if◌then◌else◌, arith}
use operating_systems_and_sy.CLib.{Text, str_eq}
use operating_systems_and_sy.WordCount.Table.{
  WordCount, WordCounts, Less, insert_after, wordcount_insert_ordered, sort_loop, wordcount_sort,
  init_words,
}
use operating_systems_and_sy.WordCount.Table.Count.{count_of, entries, IsDistinct}

-- A sum over the entries.
abbrev pub sum_by : (WordCount → ℕ) → WordCounts → ℕ
sum_by f [] = 0
sum_by f (wc ∷ l) = f wc + sum_by f l

module _ (f : WordCount → ℕ) (less : Less) where
  sum_by-insert_after :
      (e : WordCount) (l : WordCounts) → sum_by f (insert_after less e l) ≡ f e + sum_by f l
  unfolding insert_after
  sum_by-insert_after e [] = refl
  sum_by-insert_after e (c ∷ l) = ground (arith, sum_by-insert_after e l)

  sum_by-insert :
      (e : WordCount) (l : WordCounts)
      → sum_by f (wordcount_insert_ordered less e l) ≡ f e + sum_by f l
  unfolding wordcount_insert_ordered
  sum_by-insert e [] = refl
  sum_by-insert e (p ∷ l) = ground (arith, sum_by-insert_after e l)

  sum_by-sort_loop :
      (l sorted : WordCounts) → sum_by f (sort_loop less l sorted) ≡ sum_by f l + sum_by f sorted
  unfolding sort_loop
  sum_by-sort_loop [] sorted = omega arith
  sum_by-sort_loop (e ∷ l) sorted =
      omega
        (arith, sum_by-sort_loop l (wordcount_insert_ordered less e sorted), sum_by-insert e sorted)

  sum_by-sort : (l : WordCounts) → sum_by f (wordcount_sort less l) ≡ sum_by f l
  unfolding wordcount_sort init_words
  sum_by-sort l = omega (arith, sum_by-sort_loop l [])

abbrev pub one_at : Text → WordCount → ℕ
one_at w wc = if str_eq w wc.word then 1 else 0

abbrev pub count_at : Text → WordCount → ℕ
count_at w wc = if str_eq w wc.word then wc.count else 0

pub entries-sum_by : (l : WordCounts) (w : Text) → entries l w ≡ sum_by (one_at w) l
unfolding entries
entries-sum_by [] w = refl
entries-sum_by (wc ∷ l) w = ground (arith, entries-sum_by l w)

count_none : (l : WordCounts) (w : Text) → entries l w ≡ 0 → sum_by (count_at w) l ≡ 0
unfolding entries
count_none [] w h = refl
count_none (wc ∷ l) w h = ground (arith, count_none l w)

pub count_of-sum_by :
    (l : WordCounts) (w : Text) → entries l w ≤ 1 → count_of l w ≡ sum_by (count_at w) l
unfolding entries count_of
count_of-sum_by [] w h = refl
count_of-sum_by (wc ∷ l) w h = ground (arith, count_of-sum_by l w, count_none l w)

-- Sorting a list with one entry for a word at most changes neither that nor any count, whatever the
-- order.
pub count_of-sort :
    (less : Less) (l : WordCounts)
    → IsDistinct l
    → IsDistinct (wordcount_sort less l)
      × ((w : Text) → count_of (wordcount_sort less l) w ≡ count_of l w)
count_of-sort less l h = (distinct, same)
  where
    distinct : IsDistinct (wordcount_sort less l)
    distinct w = omega (
      arith,
      entries-sum_by (wordcount_sort less l) w,
      entries-sum_by l w,
      sum_by-sort (one_at w) less l,
      h w,
    )

    same : (w : Text) → count_of (wordcount_sort less l) w ≡ count_of l w
    same w = omega (
      arith,
      count_of-sum_by (wordcount_sort less l) w (distinct w),
      count_of-sum_by l w (h w),
      sum_by-sort (count_at w) less l,
    )
