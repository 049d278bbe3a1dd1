-- ===== src/WordCount/Pintos/Count/Lines.antt =====
-- The list that `count_words` makes of a short stream can be printed and read again: its words are
-- letters, and its counts are bounded by the number of bytes.
use operating_systems_and_sy.Prelude.{
  ℕ, ◌+◌, ◌^◌, ◌<◌, ◌≤◌, ◌≡◌, true, false, inl, inr, List, [], ◌∷◌, ◌++◌, length, length-append,
  ◌==◌, Bool-cases, arith,
}
use operating_systems_and_sy.CLib.{Text, isalpha, tolower, isspace, str_eq}
use operating_systems_and_sy.WordCount.Table.{WordCounts}
use operating_systems_and_sy.WordCount.Table.Sums.{sum_by}
use operating_systems_and_sy.WordCount.Stream.Words.{words_from, emit}
use operating_systems_and_sy.WordCount.Merge.Scan.{AreVisible}
use operating_systems_and_sy.WordCount.Merge.Printed.{CanScan}
use operating_systems_and_sy.WordCount.Pintos.Added.{added}
use operating_systems_and_sy.WordCount.Pintos.Count.{enter_l}

-- Words that are not empty and have no white space.
abbrev pub AreWords : List Text → Type 0
AreWords [] = Unit {0}
AreWords (w ∷ ws) = ((0 < length w) × AreVisible w) × AreWords ws

letter-visible : (c : ℕ) → isalpha c ≡ true → isspace (tolower c) ≡ false
unfolding isalpha tolower isspace
letter-visible c h = ground arith

AreVisible-append : (w : Text) (c : ℕ) → AreVisible w → isspace c ≡ false → AreVisible (w ++ c ∷ [])
AreVisible-append [] c v h = (h, tt)
AreVisible-append (d ∷ w) c v h = (v.0, AreVisible-append w c v.1 h)

emit-AreWords :
    (run : Text) (ws : List Text) → AreVisible run → AreWords ws → AreWords (emit run ws)
emit-AreWords [] ws v h = h
emit-AreWords (c ∷ run) ws v h = ((omega arith, v), h)

words_from-AreWords : (s : List ℕ) (run : Text) → AreVisible run → AreWords (words_from s run)
unfolding words_from
words_from-AreWords [] run v = emit-AreWords run [] v tt
words_from-AreWords (c ∷ s) run v = elim (Bool-cases (isalpha c)) [
  | inl e ↦ rw e (
      words_from-AreWords s (run ++ tolower c ∷ [])
        (AreVisible-append run (tolower c) v (letter-visible c e)))
  | inr e ↦ rw e (emit-AreWords run (words_from s []) v (words_from-AreWords s [] tt))
]

length-emit : (run : Text) (ws : List Text) → length (emit run ws) ≤ length run + length ws
length-emit [] ws = omega arith
length-emit (c ∷ run) ws = omega arith

pub length-words_from :
    (s : List ℕ) (run : Text) → length (words_from s run) ≤ length s + length run
unfolding words_from
length-words_from [] run = omega (arith, length-emit run [])
length-words_from (c ∷ s) run = elim (Bool-cases (isalpha c)) [
  | inl e ↦ rw e (
      omega
        (arith, length-words_from s (run ++ tolower c ∷ []), length-append run (tolower c ∷ [])))
  | inr e ↦ rw e (omega (arith, length-emit run (words_from s []), length-words_from s []))
]

abbrev pub total : WordCounts → ℕ
total l = sum_by (λ wc. wc.count) l

pub added-total : (l : WordCounts) (w : Text) (n : ℕ) → total (added l w n) ≤ total l + n
unfolding added
added-total [] w n = omega arith
added-total (wc ∷ l) w n = elim (Bool-cases (str_eq wc.word w)) [
  | inl e ↦ rw e (omega arith)
  | inr e ↦ rw e (omega (arith, added-total l w n))
]

pub enter_l-total : (ws : List Text) (l : WordCounts) → total (enter_l ws l) ≤ total l + length ws
unfolding enter_l
enter_l-total [] l = omega arith
enter_l-total (w ∷ ws) l = elim (Bool-cases (length w == 1)) [
  | inl e ↦ rw e (omega (arith, enter_l-total ws l))
  | inr e ↦ rw e (omega (arith, enter_l-total ws (added l w 1), added-total l w 1))
]

-- The words of the entries.
abbrev Spelled : WordCounts → Type 0
Spelled [] = Unit {0}
Spelled (wc ∷ l) = ((0 < length wc.word) × AreVisible wc.word) × Spelled l

added-Spelled :
    (l : WordCounts) (w : Text) (n : ℕ)
    → 0 < length w
    → AreVisible w
    → Spelled l
    → Spelled (added l w n)
unfolding added
added-Spelled [] w n pos v h = ((pos, v), tt)
added-Spelled (wc ∷ l) w n pos v h = elim (Bool-cases (str_eq wc.word w)) [
  | inl e ↦ rw e h
  | inr e ↦ rw e (h.0, added-Spelled l w n pos v h.1)
]

enter_l-Spelled :
    (ws : List Text) (l : WordCounts) → AreWords ws → Spelled l → Spelled (enter_l ws l)
unfolding enter_l
enter_l-Spelled [] l a h = h
enter_l-Spelled (w ∷ ws) l a h = elim (Bool-cases (length w == 1)) [
  | inl e ↦ rw e (enter_l-Spelled ws l a.1 h)
  | inr e ↦ rw e (enter_l-Spelled ws (added l w 1) a.1 (added-Spelled l w 1 a.0.0 a.0.1 h))
]

Spelled-CanScan : (l : WordCounts) → total l < 10 ^ 8 → Spelled l → CanScan l
Spelled-CanScan [] h s = tt
Spelled-CanScan (wc ∷ l) h s = ((omega arith, s.0.0, s.0.1), Spelled-CanScan l (omega arith) s.1)

-- The words of a stream of less than 10^8 bytes, counted from the empty list, can be scanned.
pub words-CanScan : (s : List ℕ) → length s < 10 ^ 8 → CanScan (enter_l (words_from s []) [])
words-CanScan s small =
    let ws = words_from s [] in
    Spelled-CanScan (enter_l ws []) (omega (arith, enter_l-total ws [], length-words_from s []))
      (enter_l-Spelled ws [] (words_from-AreWords s [] tt) tt)
