-- ===== src/WordCount/Forks/Tallied.antt =====
-- Lists that are added entry by entry, as `merge_counts` adds what a child has printed.
use operating_systems_and_sy.Prelude.{
  ℕ, ◌+◌, ◌^◌, ◌<◌, ◌≤◌, ◌≡◌, List, [], ◌∷◌, length, ◌==◌, Bool-cases, inl, inr, arith,
}
use operating_systems_and_sy.CLib.{Text, str_eq}
use operating_systems_and_sy.WordCount.Table.{WordCount, WordCounts}
use operating_systems_and_sy.WordCount.Table.Sums.{sum_by, count_at, count_of-sum_by}
use operating_systems_and_sy.WordCount.Table.Tally.{
  Tally, Tally-nil, Tally-same, Tally-IsDistinct, more,
}
use operating_systems_and_sy.WordCount.Stream.Words.{words_from}
use operating_systems_and_sy.WordCount.Stream.Counts.{occurrences}
use operating_systems_and_sy.WordCount.Stream.Tallied.{with_words}
use operating_systems_and_sy.WordCount.Merge.Printed.{added_all}
use operating_systems_and_sy.WordCount.Pintos.Added.{added, Tally-added}
use operating_systems_and_sy.WordCount.Pintos.Count.{enter_l, Tally-enter_l}
use operating_systems_and_sy.WordCount.Pintos.Count.Lines.{
  total, added-total, enter_l-total, length-words_from,
}

-- Every count is above 0.
abbrev ArePositive : WordCounts → Type 0
ArePositive [] = Unit {0}
ArePositive (wc ∷ l) = (0 < wc.count) × ArePositive l

added-ArePositive :
    (l : WordCounts) (w : Text) → total l + 1 < 2 ^ 32 → ArePositive l → ArePositive (added l w 1)
unfolding added
added-ArePositive [] w small h = (omega arith, tt)
added-ArePositive (wc ∷ l) w small h = elim (Bool-cases (str_eq wc.word w)) [
  | inl e ↦ rw e (omega arith, h.1)
  | inr e ↦ rw e (h.0, added-ArePositive l w (omega arith) h.1)
]

enter_l-ArePositive :
    (ws : List Text) (l : WordCounts)
    → total l + length ws < 2 ^ 32
    → ArePositive l
    → ArePositive (enter_l ws l)
unfolding enter_l
enter_l-ArePositive [] l small h = h
enter_l-ArePositive (w ∷ ws) l small h = elim (Bool-cases (length w == 1)) [
  | inl e ↦ rw e (enter_l-ArePositive ws l (omega arith) h)
  | inr e ↦ rw e (
      enter_l-ArePositive ws (added l w 1) (omega (arith, added-total l w 1))
        (added-ArePositive l w (omega arith) h))
]

added_sums :
    (wc : WordCount) (m : WordCounts) (f : Text → ℕ) (v : Text)
    → sum_by (count_at v) m + more wc.count wc.word f v ≡ sum_by (count_at v) (wc ∷ m) + f v
added_sums wc m f v = omega arith

Tally-added_all :
    (m : WordCounts) {f : Text → ℕ} (l : WordCounts)
    → ArePositive m
    → total m < 2 ^ 32
    → Tally f l
    → Tally (λ v. sum_by (count_at v) m + f v) (added_all l m)
unfolding added_all
Tally-added_all [] {f} l pos small t = Tally-same {f = f} (λ v. omega arith) t
Tally-added_all (wc ∷ m) {f} l pos small t = Tally-same (added_sums wc m f) (
    Tally-added_all m (added l wc.word wc.count) pos.1 (omega arith)
      (Tally-added l wc.word wc.count pos.0 (omega arith) t))

occurrences-le : (v : Text) (ws : List Text) → occurrences v ws ≤ length ws
unfolding occurrences
occurrences-le v [] = omega arith
occurrences-le v (w ∷ ws) = ground (arith, occurrences-le v ws)

-- The counts of one stream of less than 10^8 bytes, added to a list.
pub Tally-merged :
    (s : List ℕ) {f : Text → ℕ} (l : WordCounts)
    → length s < 10 ^ 8
    → Tally f l
    → Tally (with_words (words_from s []) f) (added_all l (enter_l (words_from s []) []))
Tally-merged s {f} l small t = Tally-same sums (
    Tally-added_all m l (enter_l-ArePositive ws [] (omega (arith, length-words_from s [])) tt)
      (omega (arith, enter_l-total ws [], length-words_from s [])) t)
  where
    ws : List Text
    ws = words_from s []

    m : WordCounts
    m = enter_l ws []

    own : Tally (with_words ws (λ v. 0)) m
    own = Tally-enter_l ws [] Tally-nil

    sums : (v : Text) → sum_by (count_at v) m + f v ≡ with_words ws f v
    sums v = omega (
      arith,
      count_of-sum_by m v (Tally-IsDistinct own v),
      own.counted v,
      occurrences-le v ws,
      length-words_from s [],
    )
