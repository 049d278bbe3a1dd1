-- ===== src/WordCount/Print.antt =====
-- `fprint_words` of word_count.c.
use operating_systems_and_sy.Prelude.{
  ℕ, zero, suc, ◌-◌, ◌^◌, [], ◌∷◌, ◌++◌, length, ltb, if◌then◌else◌,
}
use operating_systems_and_sy.CLib.{Text}
use operating_systems_and_sy.CLib.Decimal.{decimal}
use operating_systems_and_sy.WordCount.Table.{WordCount, WordCounts}

abbrev pub spaces : ℕ → Text
spaces zero = []
spaces (suc n) = b' ' ∷ spaces n

-- The `%d` of an `int` that is given as a pattern.
unfoldable pub print_int : ℕ → Text
print_int a = if ltb a (2 ^ 31) then decimal a else b'-' ∷ decimal (2 ^ 32 - a)

-- `%8d`: at least eight characters, with spaces in front.
unfoldable pub pad8 : Text → Text
pad8 s = spaces (8 - length s) ++ s

-- `fprintf(outfile, "%8d\t%s\n", wc->count, wc->word)`
unfoldable pub print_line : WordCount → Text
unfolding print_int pad8
print_line wc = pad8 (print_int wc.count) ++ 9 ∷ wc.word ++ 10 ∷ []

unfoldable pub fprint_words : WordCounts → Text
unfolding print_line
fprint_words [] = []
fprint_words (wc ∷ next) = print_line wc ++ fprint_words next
