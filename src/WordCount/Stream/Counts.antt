-- ===== src/WordCount/Stream/Counts.antt =====
-- `count_words` counts, for each word of two or more letters, how often it occurs in the stream.
use operating_systems_and_sy.Prelude.{
  ℕ, zero, suc, ◌+◌, ◌%◌, ◌^◌, ◌<◌, ◌≡◌, refl, sym, ◌∙◌, ap, ◌⊎◌, inl, inr, Bool, true, false, List,
  [], ◌∷◌, length, arith, Bool-cases, ◌==◌, if◌then◌else◌,
}
use operating_systems_and_sy.CLib.{Text, str_eq}
use operating_systems_and_sy.WordCount.Table.{WordCounts, init_words, add_word}
use operating_systems_and_sy.WordCount.Table.Count.{
  count_of, entries, IsDistinct, add_word-count_of, add_word-IsDistinct,
}
use operating_systems_and_sy.WordCount.Stream.{
  Got, word, nothing, overrun, Read, get_word, counted, count_loop, count_words,
}
use operating_systems_and_sy.WordCount.Stream.Words.{words_from}
use operating_systems_and_sy.WordCount.Stream.Get.{
  get_word-ne-overrun, get_word-rest, get_word-next,
}

-- Words of one letter are left out.
abbrev pub is_long : Text → Bool
is_long w = elim (length w == 1) [ true ↦ false | false ↦ true ]

-- How often `v` stands among the words of two or more letters.
unfoldable pub occurrences : Text → List Text → ℕ
occurrences v [] = 0
occurrences v (w ∷ ws) =
    (if length w == 1 then 0 else if str_eq v w then 1 else 0) + occurrences v ws

-- The entry of a list of words, one after another.
unfoldable pub enter : List Text → WordCounts → WordCounts
enter [] l = l
enter (w ∷ ws) l = if length w == 1 then enter ws l else enter ws (add_word true l w).0

pub enter-count_of :
    (ws : List Text) (l : WordCounts) (v : Text)
    → count_of l v < 2 ^ 32
    → count_of (enter ws l) v ≡ (count_of l v + occurrences v ws) % 2 ^ 32
unfolding enter occurrences
enter-count_of [] l v h = omega arith
enter-count_of (w ∷ ws) l v h = elim (Bool-cases (length w == 1)) [
  | inl short ↦ rw short (enter-count_of ws l v h ∙ ap (λ (k : ℕ). k % 2 ^ 32) (omega arith))
  | inr long ↦
      rw long (ground (arith, add_word-count_of l w v, enter-count_of ws (add_word true l w).0 v))
]

pub enter-IsDistinct : (ws : List Text) (l : WordCounts) → IsDistinct l → IsDistinct (enter ws l)
unfolding enter
enter-IsDistinct [] l h = h
enter-IsDistinct (w ∷ ws) l h = elim (Bool-cases (length w == 1)) [
  | inl short ↦ rw short (enter-IsDistinct ws l h)
  | inr long ↦ rw long (enter-IsDistinct ws (add_word true l w).0 (add_word-IsDistinct true l w h))
]

module _ (grant : ℕ → Bool) (fuel : ℕ) (l : WordCounts) (s : List ℕ) (n : ℕ) where
  abbrev r : Read
  r = get_word grant s n

  loop_end : r.got ≡ nothing → count_loop grant (suc fuel) l s n ≡ counted l r.requests
  unfolding count_loop
  loop_end e = rw (e, count_loop)

  loop_short :
      (w : Text)
      → r.got ≡ word w
      → (length w == 1) ≡ true
      → count_loop grant (suc fuel) l s n ≡ count_loop grant fuel l r.rest r.requests
  unfolding count_loop
  loop_short w e short = rw (e, count_loop, short)

  loop_added :
      (w : Text)
      → r.got ≡ word w
      → (length w == 1) ≡ false
      → (add_word (grant r.requests) l w).1 ≡ true
      → count_loop grant (suc fuel) l s n
        ≡ count_loop grant fuel (add_word (grant r.requests) l w).0 r.rest (r.requests + 1)
  unfolding count_loop
  loop_added w e long ok = rw (e, count_loop, long, ok)

  loop_refused :
      (w : Text)
      → r.got ≡ word w
      → (length w == 1) ≡ false
      → (add_word (grant r.requests) l w).1 ≡ false
      → count_loop grant (suc fuel) l s n
        ≡ counted (add_word (grant r.requests) l w).0 (r.requests + 1)
  unfolding count_loop
  loop_refused w e long ko = rw (e, count_loop, long, ko)

Got-cases : (g : Got) → (g ≡ nothing) ⊎ (g ≡ overrun) ⊎ ((w : Text) × (g ≡ word w))
Got-cases nothing = inl refl
Got-cases overrun = inr (inl refl)
Got-cases (word w) = inr (inr (w, refl))

module _ (grant : ℕ → Bool) where
  count_loop-ends :
      (fuel : ℕ) (l : WordCounts) (s : List ℕ) (n : ℕ)
      → length s < fuel
      → length s + 1 < 2 ^ 63
      → (l' : WordCounts) × (n' : ℕ) × (count_loop grant fuel l s n ≡ counted l' n')
  count_loop-ends zero l s n enough small = absurd (omega arith)
  count_loop-ends (suc fuel) l s n enough small = elim (Got-cases (get_word grant s n).got) [
    | inl e ↦ (l, _, loop_end grant fuel l s n e)
    | inr (inl e) ↦ absurd (get_word-ne-overrun grant s n small e)
    | inr (inr (w, e)) ↦
        let r = get_word grant s n in
        let shorter = get_word-rest grant s n w e in
        elim (Bool-cases (length w == 1)) [
          | inl short ↦
              rw (loop_short grant fuel l s n w e short)
                (count_loop-ends fuel l r.rest r.requests (omega arith) (omega arith))
          | inr long ↦ elim (Bool-cases (add_word (grant r.requests) l w).1) [
            | inl ok ↦ rw (loop_added grant fuel l s n w e long ok) (
                count_loop-ends fuel (add_word (grant r.requests) l w).0 r.rest (r.requests + 1)
                  (omega arith) (omega arith))
            | inr ko ↦ (_, _, loop_refused grant fuel l s n w e long ko)
          ]
        ]
  ]

  -- On a stream of less than 2^63 - 1 bytes `count_words` ends with a list, and writes past no
  -- buffer, whichever requests for memory are granted.
  pub count_words_total :
      (l : WordCounts) (s : List ℕ) (n : ℕ)
      → length s + 1 < 2 ^ 63
      → (l' : WordCounts) × (n' : ℕ) × (count_words grant l s n ≡ counted l' n')
  unfolding count_words
  count_words_total l s n small = count_loop-ends (suc (length s)) l s n (omega arith) small

  module _ (all : (m : ℕ) → grant m ≡ true) where
    count_loop-enter :
        (fuel : ℕ) (l : WordCounts) (s : List ℕ) (n : ℕ)
        → length s < fuel
        → length s + 1 < 2 ^ 63
        → (n' : ℕ) × (count_loop grant fuel l s n ≡ counted (enter (words_from s []) l) n')
    unfolding enter
    count_loop-enter zero l s n enough small = absurd (omega arith)
    count_loop-enter (suc fuel) l s n enough small = elim (get_word-next grant all s n small) [
      | inl done ↦
          let (e, words) = done in
          (
            _,
            loop_end grant fuel l s n e
                ∙ ap (λ ws. counted (enter ws l) ((get_word grant s n).requests)) (sym words),
          )
      | inr next ↦
          let (w, e, words, shorter, proper) = next in
          let r = get_word grant s n in
          elim (Bool-cases (length w == 1)) [
            | inl short ↦
                rw (loop_short grant fuel l s n w e short, words, short)
                  (count_loop-enter fuel l r.rest r.requests (omega arith) (omega arith))
            | inr long ↦
                let granted = all r.requests in
                let ok : (add_word (grant r.requests) l w).1 ≡ true =
                  rw granted ((add_word-count_of l w w).1) in
                rw (loop_added grant fuel l s n w e long ok, words, long, granted)
                  (count_loop-enter fuel (add_word true l w).0 r.rest (r.requests + 1) (omega arith)
                    (omega arith))
          ]
    ]

    -- `count_words` enters the words of the stream one after another.
    pub count_words-enter :
        (l : WordCounts) (s : List ℕ) (n : ℕ)
        → length s + 1 < 2 ^ 63
        → (n' : ℕ) × (count_words grant l s n ≡ counted (enter (words_from s []) l) n')
    unfolding count_words
    count_words-enter l s n small = count_loop-enter (suc (length s)) l s n (omega arith) small

    -- With memory granted, on a stream of less than 2^63 - 1 bytes, `count_words` from the empty list
    -- ends with a list that has one entry for a word at most, and in which the count of each word is
    -- the number of its occurrences among the maximal runs of two or more letters, in lower case,
    -- modulo 2^32, the range of an `int`.
    pub count_words-occurrences :
        (s : List ℕ) (n : ℕ)
        → length s + 1 < 2 ^ 63
        → (l : WordCounts) × (n' : ℕ) × (count_words grant init_words s n ≡ counted l n')
          × IsDistinct l
          × ((v : Text) → count_of l v ≡ occurrences v (words_from s []) % 2 ^ 32)
    unfolding init_words
    count_words-occurrences s n small =
        let (n', e) = count_words-enter [] s n small in
        (
          enter (words_from s []) [],
          n',
          e,
          enter-IsDistinct (words_from s []) [] (λ v. unfold entries in omega arith),
          λ v.
              unfold count_of in
              enter-count_of (words_from s []) [] v (omega arith)
              ∙ ap (λ (k : ℕ). k % 2 ^ 32) (omega arith),
        )
