-- ===== src/WordCount/Table/Sort.antt =====
-- `wordcount_sort` orders the list and keeps its entries, for every order that is a strict weak one,
-- as `less_count` and `less_word` are.
use mathlib.Core.List.{Perm, perm_middle}
use mathlib.Core.List.Perm
use operating_systems_and_sy.Prelude.{
  ◌≡◌, true, false, [], ◌∷◌, ◌++◌, arith, Bool-cases, inl, inr, append-nil,
}
use operating_systems_and_sy.CLib.Order.{str_lt_asymm, str_lt_trans, not_str_lt_trans}
use operating_systems_and_sy.WordCount.Table.{
  WordCount, WordCounts, Less, insert_after, wordcount_insert_ordered, sort_loop, wordcount_sort,
  less_count, less_word, int_lt, int_eq, init_words,
}

-- The laws that the sort relies on.
pub record IsStrictWeak (less : Less) : Type 0 where
  pub asymm : (a b : WordCount) → less a b ≡ true → less b a ≡ false
  pub trans : (a b c : WordCount) → less a b ≡ true → less b c ≡ true → less a c ≡ true
  pub not_trans : (a b c : WordCount) → less a b ≡ false → less b c ≡ false → less a c ≡ false

-- No entry of `l` is less than `a`.
abbrev pub IsFirst : Less → WordCount → WordCounts → Type 0
IsFirst less a [] = Unit
IsFirst less a (b ∷ l) = (less b a ≡ false) × IsFirst less a l

-- No entry is less than one before it.
abbrev pub IsSorted : Less → WordCounts → Type 0
IsSorted less [] = Unit
IsSorted less (a ∷ l) = IsFirst less a l × IsSorted less l

module _ (less : Less) (laws : IsStrictWeak less) where
  open laws use {asymm, trans, not_trans}

  IsFirst-below :
      (a b : WordCount) (l : WordCounts) → less b a ≡ false → IsFirst less b l → IsFirst less a l
  IsFirst-below a b [] h f = tt
  IsFirst-below a b (c ∷ l) h f = (not_trans c b a f.0 h, IsFirst-below a b l h f.1)

  IsFirst-insert :
      (a e : WordCount) (l : WordCounts)
      → less e a ≡ false
      → IsFirst less a l
      → IsFirst less a (insert_after less e l)
  unfolding insert_after
  IsFirst-insert a e [] h f = (h, tt)
  IsFirst-insert a e (c ∷ l) h f = elim (Bool-cases (less c e)) [
    | inl lt ↦ rw lt (f.0, IsFirst-insert a e l h f.1)
    | inr ge ↦ rw ge (h, f)
  ]

  insert_after-IsSorted :
      (e : WordCount) (l : WordCounts) → IsSorted less l → IsSorted less (insert_after less e l)
  unfolding insert_after
  insert_after-IsSorted e [] s = (tt, tt)
  insert_after-IsSorted e (c ∷ l) s = elim (Bool-cases (less c e)) [
    | inl lt ↦ rw lt (IsFirst-insert c e l (asymm c e lt) s.0, insert_after-IsSorted e l s.1)
    | inr ge ↦ rw ge ((ge, IsFirst-below e c l ge s.0), s)
  ]

  insert-IsSorted :
      (e : WordCount) (l : WordCounts)
      → IsSorted less l
      → IsSorted less (wordcount_insert_ordered less e l)
  unfolding wordcount_insert_ordered
  insert-IsSorted e [] s = (tt, tt)
  insert-IsSorted e (p ∷ l) s = elim (Bool-cases (less e p)) [
    | inl lt ↦ rw lt ((asymm e p lt, IsFirst-below e p l (asymm e p lt) s.0), s)
    | inr ge ↦ rw ge (IsFirst-insert p e l ge s.0, insert_after-IsSorted e l s.1)
  ]

  sort_loop-IsSorted :
      (l sorted : WordCounts) → IsSorted less sorted → IsSorted less (sort_loop less l sorted)
  unfolding sort_loop
  sort_loop-IsSorted [] sorted s = s
  sort_loop-IsSorted (e ∷ l) sorted s =
      sort_loop-IsSorted l (wordcount_insert_ordered less e sorted) (insert-IsSorted e sorted s)

insert_after-perm :
    (less : Less) (e : WordCount) (l : WordCounts) → Perm (insert_after less e l) (e ∷ l)
unfolding insert_after
insert_after-perm less e [] = Perm.rfl
insert_after-perm less e (c ∷ l) = elim (Bool-cases (less c e)) [
  | inl lt ↦ rw lt (Perm.trans (Perm.cons c (insert_after-perm less e l)) (Perm.swap e c l))
  | inr ge ↦ rw ge Perm.rfl
]

insert-perm :
    (less : Less) (e : WordCount) (l : WordCounts)
    → Perm (wordcount_insert_ordered less e l) (e ∷ l)
unfolding wordcount_insert_ordered
insert-perm less e [] = Perm.rfl
insert-perm less e (p ∷ l) = elim (Bool-cases (less e p)) [
  | inl lt ↦ rw lt Perm.rfl
  | inr ge ↦ rw ge (Perm.trans (Perm.cons p (insert_after-perm less e l)) (Perm.swap e p l))
]

sort_loop-perm :
    (less : Less) (l sorted : WordCounts) → Perm (sort_loop less l sorted) (l ++ sorted)
unfolding sort_loop
sort_loop-perm less [] sorted = Perm.rfl
sort_loop-perm less (e ∷ l) sorted =
    Perm.trans (sort_loop-perm less l (wordcount_insert_ordered less e sorted))
      (Perm.trans (Perm.append_left l (insert-perm less e sorted)) (perm_middle l sorted))

-- For a strict weak order, `wordcount_sort` returns the entries of the list, each as often, and no
-- entry is less than one before it.
pub wordcount_sort-IsSorted :
    (less : Less)
    → IsStrictWeak less
    → (l : WordCounts) → IsSorted less (wordcount_sort less l) × Perm (wordcount_sort less l) l
unfolding wordcount_sort init_words
wordcount_sort-IsSorted less laws l =
    (sort_loop-IsSorted less laws l [] tt, rw append-nil at (sort_loop-perm less l []))

-- `less_count`, by the count as an `int` and then by the word, is a strict weak order.
pub less_count-IsStrictWeak : IsStrictWeak less_count
unfolding less_count int_lt int_eq
less_count-IsStrictWeak = record {
  asymm = λ a b h. ground (arith, str_lt_asymm a.word b.word);
  trans = λ a b c h k. ground (arith, str_lt_trans a.word b.word c.word);
  not_trans = λ a b c h k. ground (arith, not_str_lt_trans a.word b.word c.word);
}

-- So is `less_word`.
pub less_word-IsStrictWeak : IsStrictWeak less_word
unfolding less_word
less_word-IsStrictWeak = record {
  asymm = λ a b. str_lt_asymm a.word b.word;
  trans = λ a b c. str_lt_trans a.word b.word c.word;
  not_trans = λ a b c. not_str_lt_trans a.word b.word c.word;
}
