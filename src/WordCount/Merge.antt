-- ===== src/WordCount/Merge.antt =====
-- `merge_counts` of fwords.c, which reads the counts that another process has printed.
pub mod Scan
pub mod Printed
pub mod Waits
mod Tests
use operating_systems_and_sy.Prelude.{
  ℕ, zero, suc, ◌+◌, ◌-◌, ◌%◌, ◌^◌, ◌≡◌, Bool, true, false, Option, none, some, List, [], ◌∷◌, ◌++◌,
  length, ◌==◌, ◌||◌, if◌then◌else◌,
}
use operating_systems_and_sy.CLib.{Text, isspace}
use operating_systems_and_sy.CLib.Decimal.{isdigit, value_from}
use operating_systems_and_sy.CLib.Atoi.{after_spaces}
use operating_systems_and_sy.WordCount.Table.{WordCounts}
use operating_systems_and_sy.WordCount.Pintos.{PintosList, add_word_with_count}

-- At most `width` digits, and what follows them.
unfoldable pub digits_within : ℕ → Text → Text × Text
digits_within zero s = ([], s)
digits_within (suc width) [] = ([], [])
digits_within (suc width) (c ∷ s) =
    let more = digits_within width s in if isdigit c then (c ∷ more.0, more.1) else ([], c ∷ s)

-- The characters before the next white space, and what follows them.
unfoldable pub word_within : Text → Text × Text
word_within [] = ([], [])
word_within (c ∷ s) =
    let more = word_within s in if isspace c then ([], c ∷ s) else (c ∷ more.0, more.1)

-- What `fscanf(count_stream, "%8d\t%ms\n", &count, &word)` comes to: both, with the rest of the stream,
-- or its result, where -1 is `at_end`. The count is the bit pattern of an `int`.
pub data Scanned : Type 0 where
  pair : ℕ → Text → Text → Scanned
  matched : ℕ → Scanned
  at_end : Scanned

unfoldable pub scan_word : ℕ → Text → Scanned
scan_word count s =
    let word = word_within (after_spaces s) in
    if length word.0 == 0 then matched 1 else pair count word.0 (after_spaces word.1)

unfoldable pub scan_number : (ℕ → ℕ) → ℕ → Text → Scanned
scan_number sign width s =
    let number = digits_within width s in
    if length number.0 == 0
    then matched 0
    else scan_word (sign (value_from 0 number.0 % 2 ^ 32)) number.1

-- A sign counts for the width.
unfoldable pub scan_signed : Text → Scanned
scan_signed [] = at_end
scan_signed (c ∷ s) =
    if c == b'-'
    then scan_number (λ n. (2 ^ 32 - n) % 2 ^ 32) 7 s
    else if c == b'+'
    then scan_number (λ n. n) 7 s
    else scan_number (λ n. n) 8 (c ∷ s)

unfoldable pub scan_line : Text → Scanned
scan_line s = scan_signed (after_spaces s)

abbrev is_empty : Text → Bool
is_empty [] = true
is_empty (c ∷ s) = false

-- How the loop ends: with the list, and whether a message was printed, or by a write through the
-- result of a `malloc` that failed.
pub data Merged : Type 0 where
  merged : WordCounts → Bool → Merged
  null_write : Merged
  out_of_fuel : Merged

module _ (pintos : PintosList) (granted : Bool) where
  unfoldable pub merge_loop : ℕ → WordCounts → Text → Merged
  merge_loop zero wclist s = out_of_fuel
  merge_loop (suc fuel) wclist s = elim (scan_line s) [
    | at_end ↦ merged wclist false
    | matched k ↦ merged wclist true
    | pair count word rest ↦ elim (add_word_with_count pintos granted wclist word count) [
      | none ↦ null_write
      | some l ↦ merge_loop fuel l rest
    ]
  ]

  -- Each line takes a character of the stream.
  unfoldable pub merge_counts : WordCounts → Text → Merged
  merge_counts wclist s = merge_loop (suc (length s)) wclist s

-- Whether the call of `fscanf` asks for a character behind the last one of `s`, here of its part "%ms\n",
-- which reads on to the character behind the white space that follows the word.
unfoldable pub word_asks : Text → Bool
word_asks s = is_empty (after_spaces (word_within (after_spaces s)).1)

unfoldable pub number_asks : ℕ → Text → Bool
number_asks width s =
    let number = digits_within width s in
    if length number.0 == 0 then is_empty s else word_asks number.1

unfoldable pub signed_asks : Text → Bool
signed_asks [] = true
signed_asks (c ∷ s) = if c == b'-' || c == b'+' then number_asks 7 s else number_asks 8 (c ∷ s)

unfoldable pub line_asks : Text → Bool
line_asks s = signed_asks (after_spaces s)

-- How the loop goes on a pipe that has no end, since its writing end stays open: it waits for more for
-- ever, or stops before.
pub data Opened : Type 0 where
  waits : Opened
  stops : Merged → Opened

module _ (pintos : PintosList) (granted : Bool) where
  unfoldable pub open_loop : ℕ → WordCounts → Text → Opened
  open_loop zero wclist s = stops out_of_fuel
  open_loop (suc fuel) wclist s = if line_asks s then waits else elim (scan_line s) [
    | at_end ↦ stops (merged wclist false)
    | matched k ↦ stops (merged wclist true)
    | pair count word rest ↦ elim (add_word_with_count pintos granted wclist word count) [
      | none ↦ stops null_write
      | some l ↦ open_loop fuel l rest
    ]
  ]

  -- `merge_counts` on such a pipe, through which the bytes `s` come.
  unfoldable pub merge_open : WordCounts → Text → Opened
  merge_open wclist s = open_loop (suc (length s)) wclist s
