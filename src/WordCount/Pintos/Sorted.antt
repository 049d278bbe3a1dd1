-- ===== src/WordCount/Pintos/Sorted.antt =====
-- What is printed of a list that `list_sort` has sorted.
use operating_systems_and_sy.Prelude.{◌≡◌, refl, sym, ap, ◌∙◌, ℕ, [], ◌∷◌}
use operating_systems_and_sy.CLib.{Text}
use operating_systems_and_sy.WordCount.Table.{WordCounts, less_count}
use operating_systems_and_sy.WordCount.Table.Sort.{less_count-IsStrictWeak}
use operating_systems_and_sy.WordCount.Table.Tally.{Tally, Tally-perm, Tally-unique}
use operating_systems_and_sy.WordCount.Print.{fprint_words}
use operating_systems_and_sy.WordCount.Program.Tallied.{Lists}
use operating_systems_and_sy.WordCount.Pintos.{PintosList, wordcount_sort_l}
use operating_systems_and_sy.WordCount.Pintos.Locked.{fprint_words_l}

pub fprint_words_l-eq : (l : WordCounts) → fprint_words_l l ≡ fprint_words l
unfolding fprint_words_l fprint_words
fprint_words_l-eq [] = refl
fprint_words_l-eq (wc ∷ l) = rw (fprint_words_l-eq l) refl

-- Two lists of the same words, each in order, are printed alike.
pub Lists-same : {f : Text → ℕ} {a b : Text} → Lists f a → Lists f b → a ≡ b
Lists-same x y =
    x.printed
    ∙ ap fprint_words (Tally-unique x.l y.l x.tallied y.tallied x.sorted y.sorted)
    ∙ sym y.printed

-- Sorted by `list_sort` and printed, a list that counts words is the list of them.
pub Lists-sorted :
    (pintos : PintosList) {f : Text → ℕ} (l : WordCounts)
    → Tally f l
    → Lists f (fprint_words_l (wordcount_sort_l pintos less_count l))
unfolding wordcount_sort_l
Lists-sorted pintos l t =
    let l' = pintos.list_sort less_count l in
    let (sorted, same) = pintos.sort-IsSorted less_count l less_count-IsStrictWeak in
    record {
      l = l';
      printed = fprint_words_l-eq l';
      sorted = sorted;
      tallied = Tally-perm l l' same t;
    }
