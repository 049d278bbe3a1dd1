-- ===== src/WordCount/Pintos/Added.antt =====
-- What `add_word_with_count` does to the counts.
use operating_systems_and_sy.Prelude.{
  ℕ, suc, ◌+◌, ◌-◌, ◌^◌, ◌<◌, ◌≡◌, refl, sym, ap, ◌∙◌, ◌⊎◌, inl, inr, true, none, some, [], ◌∷◌,
  ◌++◌, if◌then◌else◌, Bool-cases, arith,
}
use operating_systems_and_sy.CLib.{Text, str_eq}
use operating_systems_and_sy.CLib.Order.{str_eq_iff}
use operating_systems_and_sy.WordCount.Table.{WordCounts, entry, int_add}
use operating_systems_and_sy.WordCount.Table.Count.{count_of, entries}
use operating_systems_and_sy.WordCount.Table.Unique.{AreInts}
use operating_systems_and_sy.WordCount.Table.Tally.{Tally, more, Tally-more}
use operating_systems_and_sy.WordCount.Pintos.{
  PintosList, find_entry, increase, add_word_with_count,
}

-- The list with `n` more of a word, by one pass.
unfoldable pub added : WordCounts → Text → ℕ → WordCounts
added [] w n = entry w n ∷ []
added (wc ∷ next) w n =
    let rest = added next w n in
    if str_eq wc.word w then record wc { count = int_add wc.count n } ∷ next else wc ∷ rest

find_entry-cases :
    (l : WordCounts) (w : Text) (n k : ℕ)
    → ((find_entry l w k ≡ none) × (added l w n ≡ l ++ entry w n ∷ []))
      ⊎ ((i : ℕ) × (find_entry l w k ≡ some (i + k)) × (added l w n ≡ increase l i n))
unfolding find_entry added increase
find_entry-cases [] w n k = inl (refl, refl)
find_entry-cases (wc ∷ l) w n k = elim (Bool-cases (str_eq wc.word w)) [
  | inl e ↦ inr (0, rw e (ap some (omega arith)), rw e refl)
  | inr e ↦ elim (find_entry-cases l w n (suc k)) [
    | inl (miss, same) ↦ inl (rw e miss, rw e (ap (λ r. wc ∷ r) same))
    | inr (i, at, same) ↦
        inr (suc i, rw e (at ∙ ap some (omega arith)), rw e (ap (λ r. wc ∷ r) same))
  ]
]

-- With memory granted, `add_word_with_count` gives the list in which one pass adds to the entry of the
-- word, or puts an entry for it at the end.
pub add_word_with_count-added :
    (pintos : PintosList) (l : WordCounts) (w : Text) (n : ℕ)
    → add_word_with_count pintos true l w n ≡ some (added l w n)
unfolding add_word_with_count
add_word_with_count-added pintos l w n = elim (find_entry-cases l w n 0) [
  | inl (miss, same) ↦
      rw (miss, add_word_with_count) (ap some (pintos.push_back-append l (entry w n) ∙ sym same))
  | inr (i, at, same) ↦
      rw (at, add_word_with_count)
        (ap some (ap (λ (k : ℕ). increase l k n) (omega arith) ∙ sym same))
]

pub added-count_of :
    (l : WordCounts) (w v : Text) (n : ℕ)
    → n < 2 ^ 32
    → count_of (added l w n) v ≡ (if str_eq v w then int_add (count_of l v) n else count_of l v)
unfolding added count_of
added-count_of [] w v n small = elim (Bool-cases (str_eq v w)) [
  | inl e ↦ rw e (omega arith)
  | inr e ↦ rw e refl
]
added-count_of (wc ∷ l) w v n small = ground (
  arith,
  added-count_of l w v n small,
  str_eq_iff v w,
  str_eq_iff v wc.word,
  str_eq_iff wc.word w,
)

-- With memory granted and a count in the range of an `int`, `add_word_with_count` adds the count to
-- that of its word, where a word that is not listed counts 0, and leaves every other count.
pub add_word_with_count-count_of :
    (pintos : PintosList) (l : WordCounts) (w v : Text) (n : ℕ)
    → n < 2 ^ 32
    → (l' : WordCounts) × (add_word_with_count pintos true l w n ≡ some l')
      × (count_of l' v ≡ (if str_eq v w then int_add (count_of l v) n else count_of l v))
add_word_with_count-count_of pintos l w v n small =
    (added l w n, add_word_with_count-added pintos l w n, added-count_of l w v n small)

added-entries :
    (l : WordCounts) (w v : Text) (n : ℕ)
    → entries (added l w n) v ≡ (if str_eq v w then suc (entries l v - 1) else entries l v)
unfolding added entries
added-entries [] w v n = ground arith
added-entries (wc ∷ l) w v n =
    ground
      (arith, added-entries l w v n, str_eq_iff v w, str_eq_iff v wc.word, str_eq_iff wc.word w)

added-AreInts : (l : WordCounts) (w : Text) (n : ℕ) → n < 2 ^ 32 → AreInts l → AreInts (added l w n)
unfolding added
added-AreInts [] w n small h = (small, tt)
added-AreInts (wc ∷ l) w n small h = elim (Bool-cases (str_eq wc.word w)) [
  | inl e ↦ rw e (omega arith, h.1)
  | inr e ↦ rw e (h.0, added-AreInts l w n small h.1)
]

-- A count that is added counts so many more of its word.
pub Tally-added :
    {f : Text → ℕ} (l : WordCounts) (w : Text) (n : ℕ)
    → 0 < n
    → n < 2 ^ 32
    → Tally f l
    → Tally (more n w f) (added l w n)
Tally-added l w n pos small t =
    Tally-more n w l (added l w n) pos t (λ v. added-entries l w v n)
      (λ v. added-count_of l w v n small) (added-AreInts l w n small t.ints)
