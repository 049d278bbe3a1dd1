-- ===== src/WordCount/Pintos/Count.antt =====
-- `count_words` of word_helpers.c, linked with word_count_l.c.
pub mod Lines
use operating_systems_and_sy.Prelude.{
  ℕ, zero, suc, ◌+◌, ◌^◌, ◌<◌, ◌≡◌, refl, sym, ap, ◌∙◌, inl, inr, Bool, true, false, none, some,
  List, [], ◌∷◌, length, ◌==◌, if◌then◌else◌, Bool-cases, arith,
}
use operating_systems_and_sy.CLib.{Text, str_eq}
use operating_systems_and_sy.WordCount.Table.{WordCounts}
use operating_systems_and_sy.WordCount.Table.Tally.{Tally, Tally-same, more}
use operating_systems_and_sy.WordCount.Stream.{word, nothing, overrun, Read, get_word}
use operating_systems_and_sy.WordCount.Stream.Words.{words_from}
use operating_systems_and_sy.WordCount.Stream.Get.{get_word-next}
use operating_systems_and_sy.WordCount.Stream.Counts.{occurrences}
use operating_systems_and_sy.WordCount.Stream.Tallied.{with_words}
use operating_systems_and_sy.WordCount.Pintos.{PintosList, add_word_l, add_word_with_count}
use operating_systems_and_sy.WordCount.Pintos.Added.{added, add_word_with_count-added, Tally-added}

-- How `count_words` ends. The fuel is a bound on the words that are left.
pub data Ending : Type 0 where
  counted : WordCounts → Ending
  overran : Ending
  null_write : Ending
  out_of_fuel : Ending

module _ (pintos : PintosList) (grant : ℕ → Bool) where
  -- A request number is set aside for the `malloc` of each call of `add_word`, which returns an entry
  -- or writes through NULL.
  unfoldable pub count_loop_l : ℕ → WordCounts → List ℕ → ℕ → Ending
  count_loop_l zero wclist infile n = out_of_fuel
  count_loop_l (suc fuel) wclist infile n =
      let r = get_word grant infile n in
      elim (r.got) [
        | nothing ↦ counted wclist
        | overrun ↦ overran
        | word w ↦ elim (length w == 1) [
          | true ↦ count_loop_l fuel wclist r.rest r.requests
          | false ↦ elim (add_word_l pintos (grant r.requests) wclist w) [
            | some l ↦ count_loop_l fuel l r.rest (r.requests + 1)
            | none ↦ null_write
          ]
        ]
      ]

  unfoldable pub count_words_l : WordCounts → List ℕ → ℕ → Ending
  count_words_l wclist infile n = count_loop_l (suc (length infile)) wclist infile n

-- The words of two or more letters, added one after another.
unfoldable pub enter_l : List Text → WordCounts → WordCounts
enter_l [] l = l
enter_l (w ∷ ws) l = if length w == 1 then enter_l ws l else enter_l ws (added l w 1)

pub add_word_l-added :
    (pintos : PintosList) (l : WordCounts) (w : Text)
    → add_word_l pintos true l w ≡ some (added l w 1)
unfolding add_word_l
add_word_l-added pintos l w = add_word_with_count-added pintos l w 1

module _ (pintos : PintosList) (grant : ℕ → Bool) (fuel : ℕ) (l : WordCounts) (s : List ℕ)
    (n : ℕ) where
  abbrev r : Read
  r = get_word grant s n

  loop_end : r.got ≡ nothing → count_loop_l pintos grant (suc fuel) l s n ≡ counted l
  unfolding count_loop_l
  loop_end e = rw (e, count_loop_l)

  loop_short :
      (w : Text)
      → r.got ≡ word w
      → (length w == 1) ≡ true
      → count_loop_l pintos grant (suc fuel) l s n
        ≡ count_loop_l pintos grant fuel l r.rest r.requests
  unfolding count_loop_l
  loop_short w e short = rw (e, count_loop_l, short)

  loop_added :
      (w : Text)
      → r.got ≡ word w
      → (length w == 1) ≡ false
      → grant r.requests ≡ true
      → count_loop_l pintos grant (suc fuel) l s n
        ≡ count_loop_l pintos grant fuel (added l w 1) r.rest (r.requests + 1)
  unfolding count_loop_l
  loop_added w e long ok = rw (e, count_loop_l, long, ok, add_word_l-added pintos l w)

module _ (pintos : PintosList) (grant : ℕ → Bool) (all : (m : ℕ) → grant m ≡ true) where
  count_loop_l-enter :
      (fuel : ℕ) (l : WordCounts) (s : List ℕ) (n : ℕ)
      → length s < fuel
      → length s + 1 < 2 ^ 63
      → count_loop_l pintos grant fuel l s n ≡ counted (enter_l (words_from s []) l)
  unfolding enter_l
  count_loop_l-enter zero l s n enough small = absurd (omega arith)
  count_loop_l-enter (suc fuel) l s n enough small = elim (get_word-next grant all s n small) [
    | inl (e, words) ↦
        loop_end pintos grant fuel l s n e ∙ ap (λ ws. counted (enter_l ws l)) (sym words)
    | inr (w, e, words, shorter, proper) ↦
        let r = get_word grant s n in
        elim (Bool-cases (length w == 1)) [
          | inl short ↦
              rw (loop_short pintos grant fuel l s n w e short, words, short)
                (count_loop_l-enter fuel l r.rest r.requests (omega arith) (omega arith))
          | inr long ↦
              rw (loop_added pintos grant fuel l s n w e long (all r.requests), words, long)
                (count_loop_l-enter fuel (added l w 1) r.rest (r.requests + 1) (omega arith)
                  (omega arith))
        ]
  ]

  -- With memory granted, `count_words` adds the words of the stream one after another.
  pub count_words_l-enter :
      (l : WordCounts) (s : List ℕ) (n : ℕ)
      → length s + 1 < 2 ^ 63
      → count_words_l pintos grant l s n ≡ counted (enter_l (words_from s []) l)
  unfolding count_words_l
  count_words_l-enter l s n small = count_loop_l-enter (suc (length s)) l s n (omega arith) small

pub Tally-enter_l :
    (ws : List Text) {f : Text → ℕ} (l : WordCounts)
    → Tally f l
    → Tally (with_words ws f) (enter_l ws l)
unfolding enter_l
Tally-enter_l [] {f} l t = Tally-same {f = f} (λ v. unfold occurrences in omega arith) t
Tally-enter_l (w ∷ ws) {f} l t = elim (Bool-cases (length w == 1)) [
  | inl short ↦ rw short (
      Tally-same {f = with_words ws f} (λ v. unfold occurrences in rw short (omega arith))
        (Tally-enter_l ws l t))
  | inr long ↦ rw long (
      Tally-same {f = with_words ws (more 1 w f)} (λ v. unfold occurrences in rw long (omega arith))
        (Tally-enter_l ws (added l w 1) (Tally-added l w 1 (omega arith) (omega arith) t)))
]
