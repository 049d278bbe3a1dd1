-- ===== src/WordCount/Pintos/Plain.antt =====
-- The lists of Pintos as plain lists, for concrete inputs.
use operating_systems_and_sy.Prelude.{refl, [], ◌∷◌, ◌++◌, length}
use operating_systems_and_sy.WordCount.Table.{wordcount_sort}
use operating_systems_and_sy.WordCount.Table.Sort.{wordcount_sort-IsSorted}
use operating_systems_and_sy.WordCount.Pintos.{PintosList}

abbrev pub plain_lists : PintosList
plain_lists = record {
  list_init = [];
  list_size = λ l. length l;
  list_push_back = λ l e. l ++ e ∷ [];
  list_sort = wordcount_sort;
  init-nil = refl;
  size-length = λ l. refl;
  push_back-append = λ l e. refl;
  sort-IsSorted = λ less l laws. wordcount_sort-IsSorted less laws l;
}
