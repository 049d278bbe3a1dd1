-- ===== src/WordCount/Merge/Waits.antt =====
-- `merge_counts` on a pipe that has no end waits for more behind the lines that `fprint_words` prints.
use operating_systems_and_sy.Prelude.{
  ℕ, zero, suc, ◌<◌, ◌≡◌, refl, ◌∙◌, ap, true, false, [], ◌∷◌, length, Bool-cases, inl, inr, arith,
}
use operating_systems_and_sy.CLib.{Text}
use operating_systems_and_sy.CLib.Atoi.{after_spaces}
use operating_systems_and_sy.WordCount.Table.{WordCounts}
use operating_systems_and_sy.WordCount.Print.{fprint_words}
use operating_systems_and_sy.WordCount.Pintos.{PintosList}
use operating_systems_and_sy.WordCount.Pintos.Added.{added, add_word_with_count-added}
use operating_systems_and_sy.WordCount.Merge.{
  pair, scan_line, signed_asks, line_asks, waits, open_loop, merge_open,
}
use operating_systems_and_sy.WordCount.Merge.Scan.{
  after_spaces-twice, scan_line-same, scan_line-printed,
}
use operating_systems_and_sy.WordCount.Merge.Printed.{CanScan, printed_head, printed_longer}

nothing_asks : (s : Text) → after_spaces s ≡ after_spaces (fprint_words []) → line_asks s ≡ true
unfolding line_asks signed_asks fprint_words after_spaces
nothing_asks s e = ap signed_asks e

module _ (pintos : PintosList) where
  asks-waits :
      (fuel : ℕ) (wclist : WordCounts) (s : Text)
      → line_asks s ≡ true
      → open_loop pintos true (suc fuel) wclist s ≡ waits
  unfolding open_loop
  asks-waits fuel wclist s e = rw e refl

  open_step :
      (fuel : ℕ) (wclist : WordCounts) (s : Text) (k : ℕ) (w rest : Text)
      → line_asks s ≡ false
      → scan_line s ≡ pair k w rest
      → open_loop pintos true (suc fuel) wclist s
        ≡ open_loop pintos true fuel (added wclist w k) rest
  unfolding open_loop
  open_step fuel wclist s k w rest within e =
      rw (within, e, open_loop, add_word_with_count-added pintos wclist w k) refl

  open_loop-waits :
      (fuel : ℕ) (wclist l : WordCounts) (s : Text)
      → length l < fuel
      → CanScan l
      → after_spaces s ≡ after_spaces (fprint_words l)
      → open_loop pintos true fuel wclist s ≡ waits
  open_loop-waits zero wclist l s h can e = absurd (omega arith)
  open_loop-waits (suc fuel) wclist [] s h can e = asks-waits fuel wclist s (nothing_asks s e)
  open_loop-waits (suc fuel) wclist (wc ∷ l) s h ((small, pos, visible), can) e =
      elim (Bool-cases (line_asks s)) [
        | inl asks ↦ asks-waits fuel wclist s asks
        | inr within ↦
            open_step fuel wclist s wc.count wc.word (after_spaces (fprint_words l)) within (
              scan_line-same s (fprint_words (wc ∷ l)) e
              ∙ printed_head wc l
              ∙ scan_line-printed wc (fprint_words l) small pos visible)
            ∙ open_loop-waits fuel (added wclist wc.word wc.count) l (after_spaces (fprint_words l))
                (omega arith) can (after_spaces-twice (fprint_words l))
      ]

  pub merge_open-waits :
      (wclist l : WordCounts) → CanScan l → merge_open pintos true wclist (fprint_words l) ≡ waits
  unfolding merge_open
  merge_open-waits wclist l can =
      open_loop-waits (suc (length (fprint_words l))) wclist l (fprint_words l)
        (omega (arith, printed_longer l)) can refl
