-- ===== src/WordCount/Table/Count.antt =====
-- What `find_word` and `add_word` do to the counts.
use operating_systems_and_sy.Prelude.{
  ℕ, suc, ◌+◌, ◌-◌, ◌%◌, ◌^◌, ◌<◌, ◌≤◌, ◌≡◌, refl, Bool, true, false, none, some, [], ◌∷◌, length,
  arith, if◌then◌else◌, ap, ◌∙◌, ◌⊎◌, Bool-cases, inl, inr,
}
use operating_systems_and_sy.CLib.{Text, str_eq}
use operating_systems_and_sy.CLib.Order.{str_eq_iff}
use operating_systems_and_sy.WordCount.Table.{
  WordCount, WordCounts, entry, int_add, len_words, len_loop, find_word, find_loop, increment,
  add_word,
}

-- The count of a word: that of its first entry, or 0.
unfoldable pub count_of : WordCounts → Text → ℕ
count_of [] w = 0
count_of (wc ∷ next) w = if str_eq w wc.word then wc.count else count_of next w

-- The number of entries for a word.
unfoldable pub entries : WordCounts → Text → ℕ
entries [] w = 0
entries (wc ∷ next) w = if str_eq w wc.word then suc (entries next w) else entries next w

-- `len_words` counts the entries of every list that fits in memory.
len_loop_lem : (l : WordCounts) (n : ℕ) → length l + n < 2 ^ 64 → len_loop l n ≡ length l + n
unfolding len_loop
len_loop_lem [] n h = omega arith
len_loop_lem (wc ∷ l) n h =
    let e : (n + 1) % 2 ^ 64 ≡ n + 1 = omega arith in rw e (omega (arith, len_loop_lem l (n + 1)))

-- On a list of less than 2^64 entries `len_words` returns their number.
pub len_words-length : (l : WordCounts) → length l < 2 ^ 64 → len_words l ≡ length l
unfolding len_words
len_words-length l h = omega (arith, len_loop_lem l 0)

-- What the increment of the `i`-th entry does, where the search for `w` stops at it.
record Hit (l : WordCounts) (w : Text) (i : ℕ) : Type 0 where
  counted :
      (v : Text)
      → count_of (increment l i) v ≡ (if str_eq v w then int_add (count_of l v) 1 else count_of l v)
  kept : (v : Text) → entries (increment l i) v ≡ entries l v
  listed : 0 < entries l w

Hit-first :
    (wc : WordCount) (l : WordCounts) (w : Text) → str_eq w wc.word ≡ true → Hit (wc ∷ l) w 0
unfolding count_of entries increment
Hit-first wc l w e = record {
  counted = λ v. ground (arith, (str_eq_iff w wc.word).0 e);
  kept = λ v. refl;
  listed = rw e (omega arith);
}

Hit-later :
    (wc : WordCount) (l : WordCounts) (w : Text) (i : ℕ)
    → str_eq w wc.word ≡ false
    → Hit l w i
    → Hit (wc ∷ l) w (suc i)
unfolding count_of entries increment
Hit-later wc l w i e hit = record {
  counted = λ v.
      ground (arith, hit.counted v, str_eq_iff v w, str_eq_iff v wc.word, str_eq_iff w wc.word);
  kept = λ v. ground (arith, hit.kept v);
  listed = rw e hit.listed;
}

Miss : WordCounts → Text → Type 0
Miss l w = (entries l w ≡ 0) × (count_of l w ≡ 0)

find_loop-cases :
    (l : WordCounts) (w : Text) (k : ℕ)
    → ((find_loop l w k ≡ none) × Miss l w)
      ⊎ ((i : ℕ) × (find_loop l w k ≡ some (i + k)) × Hit l w i)
unfolding find_loop count_of entries Miss
find_loop-cases [] w k = inl (refl, (refl, refl))
find_loop-cases (wc ∷ l) w k = elim (Bool-cases (str_eq w wc.word)) [
  | inl e ↦ inr (0, rw e (ap some (omega arith)), Hit-first wc l w e)
  | inr e ↦ elim (find_loop-cases l w (suc k)) [
    | inl miss ↦ inl (rw e miss.0, (rw e miss.1.0, rw e miss.1.1))
    | inr hit ↦
        inr (suc (hit.0), rw e (hit.1 ∙ ap some (omega arith)), Hit-later wc l w hit.0 e hit.2)
  ]
]

find_word-cases :
    (l : WordCounts) (w : Text)
    → ((find_word l w ≡ none) × Miss l w) ⊎ ((i : ℕ) × (find_word l w ≡ some i) × Hit l w i)
unfolding find_word
find_word-cases l w = elim (find_loop-cases l w 0) [
  | inl miss ↦ inl miss
  | inr hit ↦ inr (hit.0, hit.1 ∙ ap some (omega arith), hit.2)
]

pub add_word_new :
    (granted : Bool) (l : WordCounts) (w : Text)
    → find_word l w ≡ none
    → add_word granted l w ≡ (if granted then (entry w 1 ∷ l, true) else (l, false))
unfolding add_word
add_word_new granted l w e = rw (e, add_word)

pub add_word_old :
    (granted : Bool) (l : WordCounts) (w : Text) (i : ℕ)
    → find_word l w ≡ some i
    → add_word granted l w ≡ (increment l i, true)
unfolding add_word
add_word_old granted l w i e = rw (e, add_word)

-- With memory granted, `add_word` adds one to the count of its word, where a word that is not listed
-- counts 0 and the addition is that of `int`, leaves every other count, and returns an entry.
pub add_word-count_of :
    (l : WordCounts) (w v : Text)
    → (count_of (add_word true l w).0 v
        ≡ (if str_eq v w then int_add (count_of l v) 1 else count_of l v))
      × ((add_word true l w).1 ≡ true)
add_word-count_of l w v = elim (find_word-cases l w) [
  | inl miss ↦
      unfold count_of Miss in
      rw (add_word_new true l w miss.0) (ground (arith, miss.1, str_eq_iff v w), refl)
  | inr hit ↦ rw (add_word_old true l w hit.0 hit.1) (hit.2.counted v, refl)
]

-- With memory granted, `add_word` leaves the entries, and puts one where the word had none.
pub add_word-entries :
    (l : WordCounts) (w v : Text)
    → entries (add_word true l w).0 v ≡ (if str_eq v w then suc (entries l v - 1) else entries l v)
add_word-entries l w v = elim (find_word-cases l w) [
  | inl miss ↦
      unfold entries Miss in
      rw (add_word_new true l w miss.0) (ground (arith, miss.1, str_eq_iff v w))
  | inr hit ↦
      rw (add_word_old true l w hit.0 hit.1)
        (ground (arith, hit.2.kept v, hit.2.listed, str_eq_iff v w))
]

abbrev pub IsDistinct : WordCounts → Type 0
IsDistinct l = (w : Text) → entries l w ≤ 1

-- A list with one entry for a word keeps that under `add_word`, memory granted or not.
pub add_word-IsDistinct :
    (granted : Bool) (l : WordCounts) (w : Text)
    → IsDistinct l
    → IsDistinct (add_word granted l w).0
add_word-IsDistinct granted l w h v = elim (find_word-cases l w) [
  | inl miss ↦
      unfold entries Miss in
      rw (add_word_new granted l w miss.0) (ground (arith, miss.1, str_eq_iff v w, h v))
  | inr hit ↦ rw (add_word_old granted l w hit.0 hit.1) (omega (arith, hit.2.kept v, h v))
]

-- When `malloc` fails, a word that is not listed leaves the list as it was, and the result is NULL.
pub add_word_fails : (l : WordCounts) (w : Text) → entries l w ≡ 0 → add_word false l w ≡ (l, false)
add_word_fails l w h = elim (find_word-cases l w) [
  | inl miss ↦ add_word_new false l w miss.0
  | inr hit ↦ absurd (omega (arith, hit.2.listed))
]
