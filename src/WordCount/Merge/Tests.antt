-- ===== src/WordCount/Merge/Tests.antt =====
-- Two printed counts.
use operating_systems_and_sy.Prelude.{◌≡◌, refl, true, false, [], ◌∷◌, ◌++◌, arith}
use operating_systems_and_sy.CLib.{codes, isspace, str_eq, strcmp}
use operating_systems_and_sy.CLib.Decimal.{isdigit, value_from}
use operating_systems_and_sy.CLib.Atoi.{after_spaces}
use operating_systems_and_sy.WordCount.Pintos.{add_word_with_count, find_entry, increase}
use operating_systems_and_sy.WordCount.Pintos.Plain.{plain_lists}
use operating_systems_and_sy.WordCount.Table.{WordCounts, entry}
use operating_systems_and_sy.WordCount.Print.{fprint_words}
use operating_systems_and_sy.WordCount.Merge.{
  merged, merge_counts, stops, waits, merge_open, open_loop, line_asks, signed_asks, number_asks,
  word_asks, digits_within, word_within, scan_line, scan_signed, scan_number, scan_word,
}
use operating_systems_and_sy.WordCount.Merge.Printed.{CanScan, added_all, merge_counts-printed}

abbrev printed : WordCounts
printed = entry (codes "be") 2 ∷ entry (codes "to") 100 ∷ []

printed-CanScan : CanScan printed
unfolding isspace
printed-CanScan = (
  (omega arith, omega arith, (refl, (refl, tt))),
  ((omega arith, omega arith, (refl, (refl, tt))), tt),
)

merge_counts-printed_example :
    merge_counts plain_lists true (entry (codes "to") 1 ∷ []) (fprint_words printed)
    ≡ merged (added_all (entry (codes "to") 1 ∷ []) printed) false
merge_counts-printed_example =
    merge_counts-printed plain_lists (entry (codes "to") 1 ∷ []) printed printed-CanScan

-- On a pipe that stays open, a count of nine digits ends the loop before it comes to wait, and a shorter
-- one does not.
nine_digits :
    merge_open plain_lists true [] (codes "100000000" ++ (9 ∷ (codes "to" ++ 10 ∷ [])))
    ≡ stops (merged (entry (codes "0") 10000000 ∷ []) true)
unfolding isspace isdigit after_spaces value_from str_eq strcmp merge_open open_loop line_asks
    signed_asks number_asks word_asks digits_within word_within scan_line scan_signed scan_number
    scan_word add_word_with_count find_entry increase
nine_digits = refl

eight_digits :
    merge_open plain_lists true [] (codes "10000000" ++ (9 ∷ (codes "to" ++ 10 ∷ []))) ≡ waits
unfolding isspace isdigit after_spaces value_from str_eq strcmp merge_open open_loop line_asks
    signed_asks number_asks word_asks digits_within word_within scan_line scan_signed scan_number
    scan_word add_word_with_count find_entry increase
eight_digits = refl
