-- ===== src/WordCount/Stream/Tallied.antt =====
-- The entry of the words of a stream, as a count of each.
use operating_systems_and_sy.Prelude.{
  ℕ, ◌+◌, true, List, [], ◌∷◌, length, arith, Bool-cases, inl, inr, ◌==◌,
}
use operating_systems_and_sy.CLib.{Text}
use operating_systems_and_sy.WordCount.Table.{WordCounts, add_word}
use operating_systems_and_sy.WordCount.Table.Tally.{Tally, Tally-same, Tally-add_word, more}
use operating_systems_and_sy.WordCount.Stream.Counts.{occurrences, enter}

-- The occurrences among the words `ws`, besides those that `f` gives.
abbrev pub with_words : List Text → (Text → ℕ) → Text → ℕ
with_words ws f v = occurrences v ws + f v

pub Tally-enter :
    (ws : List Text) {f : Text → ℕ} (l : WordCounts)
    → Tally f l
    → Tally (with_words ws f) (enter ws l)
unfolding enter
Tally-enter [] {f} l t = Tally-same {f = f} (λ v. unfold occurrences in omega arith) t
Tally-enter (w ∷ ws) {f} l t = elim (Bool-cases (length w == 1)) [
  | inl short ↦ rw short (
      Tally-same {f = with_words ws f} (λ v. unfold occurrences in rw short (omega arith))
        (Tally-enter ws l t))
  | inr long ↦ rw long (
      Tally-same {f = with_words ws (more 1 w f)} (λ v. unfold occurrences in rw long (omega arith))
        (Tally-enter ws (add_word true l w).0 (Tally-add_word l w t)))
]
