-- ===== src/WordCount/Merge/Scan.antt =====
-- What one call of `fscanf` in `merge_counts` takes from a printed line.
use operating_systems_and_sy.Prelude.{
  ℕ, zero, suc, ◌-◌, ◌%◌, ◌^◌, ◌<◌, ◌≤◌, ◌≡◌, refl, ap, ◌∙◌, true, false, [], ◌∷◌, ◌++◌,
  append_assoc, length, ◌==◌, Bool-cases, inl, inr, arith, lt→ltb,
}
use operating_systems_and_sy.CLib.{Text, isspace}
use operating_systems_and_sy.CLib.Decimal.{
  decimal, isdigit, value_from, AreDigits, value-decimal, decimal-digits, length-decimal,
}
use operating_systems_and_sy.CLib.Atoi.{after_spaces, digit_cases}
use operating_systems_and_sy.WordCount.Table.{WordCount}
use operating_systems_and_sy.WordCount.Print.{spaces, print_int, pad8, print_line}
use operating_systems_and_sy.WordCount.Merge.{
  digits_within, word_within, pair, scan_word, scan_number, scan_signed, scan_line,
}

-- A word as the program prints it, and a count of at most eight digits.
abbrev pub AreVisible : Text → Type 0
AreVisible [] = Unit {0}
AreVisible (c ∷ w) = (isspace c ≡ false) × AreVisible w

pub after_spaces-spaces : (n : ℕ) (s : Text) → after_spaces (spaces n ++ s) ≡ after_spaces s
unfolding after_spaces isspace
after_spaces-spaces zero s = refl
after_spaces-spaces (suc n) s = after_spaces-spaces n s

pub digits_within-all :
    (width : ℕ) (d s : Text)
    → AreDigits d
    → length d ≤ width
    → digits_within width (d ++ 9 ∷ s) ≡ (d, 9 ∷ s)
unfolding digits_within AreDigits isdigit
digits_within-all zero [] s h fits = refl
digits_within-all zero (c ∷ d) s h fits = absurd (omega arith)
digits_within-all (suc width) [] s h fits = refl
digits_within-all (suc width) (c ∷ d) s h fits =
    rw h.0 (ap (λ r. (c ∷ r.0, r.1)) (digits_within-all width d s h.1 (omega arith)))

pub word_within-all : (w s : Text) → AreVisible w → word_within (w ++ 10 ∷ s) ≡ (w, 10 ∷ s)
unfolding word_within
word_within-all [] s h = unfold isspace in refl
word_within-all (c ∷ w) s h = rw h.0 (ap (λ r. (c ∷ r.0, r.1)) (word_within-all w s h.1))

pub scan_number-digits :
    (d s : Text)
    → AreDigits d
    → 0 < length d
    → length d ≤ 8
    → scan_number (λ n. n) 8 (d ++ 9 ∷ s) ≡ scan_word (value_from 0 d % 2 ^ 32) (9 ∷ s)
unfolding scan_number
scan_number-digits d s h pos fits =
    let some_digit : (length d == 0) ≡ false = ground arith in
    rw (digits_within-all 8 d s h fits, some_digit) refl

pub first_digit : (c : ℕ) (d : Text) → AreDigits (c ∷ d) → isdigit c ≡ true
unfolding AreDigits
first_digit c d h = h.0

-- The first character of a run of digits is neither white space nor a sign.
pub scan_line-digits :
    (d s : Text)
    → AreDigits d
    → 0 < length d
    → length d ≤ 8
    → scan_line (d ++ 9 ∷ s) ≡ scan_word (value_from 0 d % 2 ^ 32) (9 ∷ s)
unfolding scan_line scan_signed after_spaces
scan_line-digits [] s h pos fits = absurd (omega arith)
scan_line-digits (c ∷ d) s h pos fits =
    let (a, b, e) = digit_cases c (first_digit c d h) in
    rw (a, b, e) (scan_number-digits (c ∷ d) s h pos fits)

pub after_spaces-twice : (s : Text) → after_spaces (after_spaces s) ≡ after_spaces s
unfolding after_spaces
after_spaces-twice [] = refl
after_spaces-twice (c ∷ s) = elim (Bool-cases (isspace c)) [
  | inl e ↦ rw e (after_spaces-twice s)
  | inr e ↦ rw e (rw e refl)
]

pub after_tab : (c : ℕ) (s : Text) → isspace c ≡ false → after_spaces (9 ∷ c ∷ s) ≡ c ∷ s
unfolding after_spaces isspace
after_tab c s h = rw h refl

pub after_newline : (s : Text) → after_spaces (10 ∷ s) ≡ after_spaces s
unfolding after_spaces isspace
after_newline s = refl

pub scan_line-spaces : (n : ℕ) (s : Text) → scan_line (spaces n ++ s) ≡ scan_line s
unfolding scan_line
scan_line-spaces n s = ap scan_signed (after_spaces-spaces n s)

pub scan_line-same : (s t : Text) → after_spaces s ≡ after_spaces t → scan_line s ≡ scan_line t
unfolding scan_line
scan_line-same s t e = ap scan_signed e

pub scan_word-visible :
    (k : ℕ) (w s : Text)
    → AreVisible w
    → 0 < length w
    → scan_word k (9 ∷ (w ++ (10 ∷ s))) ≡ pair k w (after_spaces s)
unfolding scan_word
scan_word-visible k [] s h pos = absurd (omega arith)
scan_word-visible k (c ∷ w) s h pos =
    let starts : after_spaces (9 ∷ (c ∷ (w ++ (10 ∷ s)))) ≡ c ∷ (w ++ (10 ∷ s)) =
      after_tab c (w ++ (10 ∷ s)) h.0 in
    let some_letter : (length (c ∷ w) == 0) ≡ false = ground arith in
    rw (starts, word_within-all (c ∷ w) s h, some_letter) (ap (pair k (c ∷ w)) (after_newline s))

pub line_parts :
    (n : ℕ) (d w s : Text)
    → (((spaces n ++ d) ++ (9 ∷ w)) ++ (10 ∷ [])) ++ s ≡ spaces n ++ (d ++ (9 ∷ (w ++ (10 ∷ s))))
line_parts n d w s = simp append_assoc

pub print_line-parts :
    (wc : WordCount) (s : Text)
    → wc.count < 2 ^ 31
    → print_line wc ++ s
      ≡ spaces (8 - length (decimal wc.count)) ++ (decimal wc.count ++ (9 ∷ (wc.word ++ (10 ∷ s))))
unfolding print_line pad8 print_int
print_line-parts wc s small =
    rw (lt→ltb wc.count (2 ^ 31) small)
      (line_parts (8 - length (decimal wc.count)) (decimal wc.count) wc.word s)

pub scan_line-printed :
    (wc : WordCount) (s : Text)
    → wc.count < 10 ^ 8
    → 0 < length wc.word
    → AreVisible wc.word
    → scan_line (print_line wc ++ s) ≡ pair wc.count wc.word (after_spaces s)
scan_line-printed wc s small pos visible =
    let (low, high) = length-decimal wc.count small in
    let whole : wc.count % 2 ^ 32 ≡ wc.count = omega arith in
    let rest = wc.word ++ (10 ∷ s) in
    rw (print_line-parts wc s (omega arith)) (
      scan_line-spaces (8 - length (decimal wc.count)) (decimal wc.count ++ (9 ∷ rest))
      ∙ scan_line-digits (decimal wc.count) rest (decimal-digits wc.count) low high
      ∙ rw (value-decimal wc.count, whole) (scan_word-visible wc.count wc.word s visible pos))
