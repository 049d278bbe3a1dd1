-- ===== src/WordCount/Merge/Printed.antt =====
-- `merge_counts` reads what `fprint_words` prints.
use operating_systems_and_sy.Prelude.{
  ℕ, zero, suc, ◌^◌, ◌<◌, ◌≤◌, ◌≡◌, refl, ◌∙◌, true, false, [], ◌∷◌, ◌++◌, length, length-append,
  arith,
}
use operating_systems_and_sy.CLib.{Text}
use operating_systems_and_sy.CLib.Atoi.{after_spaces}
use operating_systems_and_sy.WordCount.Table.{WordCount, WordCounts}
use operating_systems_and_sy.WordCount.Print.{print_int, pad8, print_line, fprint_words}
use operating_systems_and_sy.WordCount.Pintos.{PintosList}
use operating_systems_and_sy.WordCount.Pintos.Added.{added, add_word_with_count-added}
use operating_systems_and_sy.WordCount.Merge.{
  pair, at_end, scan_signed, scan_line, merged, merge_loop, merge_counts,
}
use operating_systems_and_sy.WordCount.Merge.Scan.{
  AreVisible, after_spaces-twice, scan_line-same, scan_line-printed,
}

abbrev pub CanScan : WordCounts → Type 0
CanScan [] = Unit {0}
CanScan (wc ∷ l) = ((wc.count < 10 ^ 8) × (0 < length wc.word) × AreVisible wc.word) × CanScan l

-- The entries of one list added to another, in order.
unfoldable pub added_all : WordCounts → WordCounts → WordCounts
added_all l [] = l
added_all l (wc ∷ more) = added_all (added l wc.word wc.count) more

pub printed_head :
    (wc : WordCount) (l : WordCounts)
    → scan_line (fprint_words (wc ∷ l)) ≡ scan_line (print_line wc ++ fprint_words l)
unfolding fprint_words
printed_head wc l = refl

line_longer : (wc : WordCount) → 0 < length (print_line wc)
unfolding print_line
line_longer wc = omega (arith, length-append (pad8 (print_int wc.count) ++ (9 ∷ wc.word)) (10 ∷ []))

pub printed_longer : (l : WordCounts) → length l ≤ length (fprint_words l)
unfolding fprint_words
printed_longer [] = omega arith
printed_longer (wc ∷ l) =
    omega (arith, length-append (print_line wc) (fprint_words l), line_longer wc, printed_longer l)

pub scan_nothing : scan_line [] ≡ at_end
unfolding scan_line scan_signed after_spaces
scan_nothing = refl

merge_end :
    (pintos : PintosList) (fuel : ℕ) (wclist : WordCounts) (s : Text)
    → after_spaces s ≡ after_spaces (fprint_words [])
    → merge_loop pintos true (suc fuel) wclist s ≡ merged wclist false
unfolding merge_loop fprint_words
merge_end pintos fuel wclist s e = rw (scan_line-same s [] e ∙ scan_nothing, merge_loop) refl

merge_step :
    (pintos : PintosList) (fuel : ℕ) (wclist : WordCounts) (s : Text) (k : ℕ) (w rest : Text)
    → scan_line s ≡ pair k w rest
    → merge_loop pintos true (suc fuel) wclist s
      ≡ merge_loop pintos true fuel (added wclist w k) rest
unfolding merge_loop
merge_step pintos fuel wclist s k w rest e =
    rw (e, merge_loop, add_word_with_count-added pintos wclist w k) refl

module _ (pintos : PintosList) where
  merge_loop-printed :
      (fuel : ℕ) (wclist l : WordCounts) (s : Text)
      → length l < fuel
      → CanScan l
      → after_spaces s ≡ after_spaces (fprint_words l)
      → merge_loop pintos true fuel wclist s ≡ merged (added_all wclist l) false
  unfolding added_all
  merge_loop-printed zero wclist l s h can e = absurd (omega arith)
  merge_loop-printed (suc fuel) wclist [] s h can e = merge_end pintos fuel wclist s e
  merge_loop-printed (suc fuel) wclist (wc ∷ l) s h ((small, pos, visible), can) e =
      merge_step pintos fuel wclist s wc.count wc.word (after_spaces (fprint_words l)) (
        scan_line-same s (fprint_words (wc ∷ l)) e
        ∙ printed_head wc l
        ∙ scan_line-printed wc (fprint_words l) small pos visible)
      ∙ merge_loop-printed fuel (added wclist wc.word wc.count) l (after_spaces (fprint_words l))
          (omega arith) can (after_spaces-twice (fprint_words l))

  -- With memory granted, `merge_counts` reads every line that `fprint_words` prints for a list whose
  -- counts are below 10^8 and whose words are not empty and have no white space: it ends without a
  -- message, with each count added to that of its word, in the order of the lines.
  pub merge_counts-printed :
      (wclist l : WordCounts)
      → CanScan l
      → merge_counts pintos true wclist (fprint_words l) ≡ merged (added_all wclist l) false
  unfolding merge_counts
  merge_counts-printed wclist l can =
      merge_loop-printed (suc (length (fprint_words l))) wclist l (fprint_words l)
        (omega (arith, printed_longer l)) can refl
