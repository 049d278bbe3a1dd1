-- ===== src/WordCount/Pintos/Threads.antt =====
-- However the threads of pwords.c are scheduled, they count the words of all the files.
use operating_systems_and_sy.Prelude.{
  ℕ, zero, suc, ◌+◌, ◌%◌, ◌^◌, ◌<◌, ◌≡◌, refl, sym, ◌∙◌, true, false, some, List, [], ◌∷◌,
  get_elem?, set, length, ◌==◌, if◌then◌else◌, arith,
}
use operating_systems_and_sy.CLib.{Text, str_eq}
use operating_systems_and_sy.WordCount.Table.Count.{count_of}
use operating_systems_and_sy.WordCount.Stream.Counts.{occurrences}
use operating_systems_and_sy.WordCount.Pintos.{
  PintosList, init_words_l, add_word_l, Shared, Step, letter, counts, Reach, here, step,
}
use operating_systems_and_sy.WordCount.Pintos.Added.{
  added, add_word_with_count-added, added-count_of,
}

-- How often a word stands among the words of all the threads.
unfoldable pub in_all : Text → List (List Text) → ℕ
in_all v [] = 0
in_all v (ws ∷ more) = occurrences v ws + in_all v more

in_all-set :
    (v : Text) (l : List (List Text)) (i : ℕ) (old new : List Text)
    → get_elem? l i ≡ some old
    → in_all v (set l i new) + occurrences v old ≡ in_all v l + occurrences v new
unfolding in_all
in_all-set v [] i old new h = absurd (cc h)
in_all-set v (ws ∷ l) zero old new h = let e : ws ≡ old = cc h in rw e (omega arith)
in_all-set v (ws ∷ l) (suc i) old new h = omega (arith, in_all-set v l i old new h)

occurrences-letter :
    (v w : Text) (ws : List Text)
    → (length w == 1) ≡ true
    → occurrences v (w ∷ ws) ≡ occurrences v ws
unfolding occurrences
occurrences-letter v w ws h = rw h (omega arith)

occurrences-long :
    (v w : Text) (ws : List Text)
    → (length w == 1) ≡ false
    → occurrences v (w ∷ ws) ≡ (if str_eq v w then 1 else 0) + occurrences v ws
unfolding occurrences
occurrences-long v w ws h = rw h refl

module _ {pintos : PintosList} where
  -- What is counted and what is left make up what there was.
  Balance : Text → List (List Text) → Shared pintos → Type 0
  Balance v words s =
      (count_of s.word_counts v < 2 ^ 32)
      × ((count_of s.word_counts v + in_all v s.words) % 2 ^ 32 ≡ in_all v words % 2 ^ 32)

  Step-Balance :
      (v : Text) (words : List (List Text)) {s t : Shared pintos}
      → Step pintos s t
      → Balance v words s
      → Balance v words t
  unfolding Balance add_word_l
  Step-Balance v words {s} (letter i w ws h short) (small, total) = (
    small,
    omega (arith, total, in_all-set v s.words i (w ∷ ws) ws h, occurrences-letter v w ws short),
  )
  Step-Balance v words {s} (counts i w ws l h long e) (small, total) =
      let both : some (added s.word_counts w 1) ≡ some l =
        sym (add_word_with_count-added pintos s.word_counts w 1) ∙ e in
      let same : added s.word_counts w 1 ≡ l = cc both in
      let new = added-count_of s.word_counts w v 1 (omega arith) in
      rw (← same) (
        ground (
          arith,
          new,
          total,
          small,
          in_all-set v s.words i (w ∷ ws) ws h,
          occurrences-long v w ws long,
        ))

  Reach-Balance :
      (v : Text) (words : List (List Text)) {s : Shared pintos}
      → Reach pintos words s
      → Balance v words s
  unfolding Balance init_words_l count_of
  Reach-Balance v words here = rw pintos.init-nil (omega arith, omega arith)
  Reach-Balance v words (step r s) = Step-Balance v words s (Reach-Balance v words r)

  -- In whatever order the threads of pwords.c add their words, with memory granted: once no occurrence
  -- of a word is left to be taken, its count in the shared list is its number of occurrences among the
  -- words of two or more letters of all the threads together, modulo 2^32, the range of an `int`.
  pub pwords-occurrences :
      (v : Text) (words : List (List Text)) {s : Shared pintos}
      → Reach pintos words s
      → in_all v s.words ≡ 0
      → count_of s.word_counts v ≡ in_all v words % 2 ^ 32
  unfolding Balance
  pwords-occurrences v words r empty =
      let (small, total) = Reach-Balance v words r in omega (arith, small, total, empty)
