-- ===== src/CLib/Atoi.antt =====
-- `atoi` on numbers in the range of an `int`, whose result is a bit pattern below 2^32.
use operating_systems_and_sy.Prelude.{
  ℕ, ◌-◌, ◌%◌, ◌^◌, ◌<◌, ◌≡◌, refl, ◌∙◌, ap, true, false, [], ◌∷◌, ◌==◌, if◌then◌else◌, arith,
}
use operating_systems_and_sy.CLib.{Text, isspace}
use operating_systems_and_sy.CLib.Decimal.{
  decimal, isdigit, value_from, AreDigits, value-decimal, decimal-digits,
}

-- The digits at the start of a string.
unfoldable pub leading_digits : Text → Text
leading_digits [] = []
leading_digits (c ∷ s) = let rest = leading_digits s in if isdigit c then c ∷ rest else []

unfoldable pub after_spaces : Text → Text
after_spaces [] = []
after_spaces (c ∷ s) = let rest = after_spaces s in if isspace c then rest else c ∷ s

unfoldable pub signed : Text → ℕ
signed [] = 0
signed (c ∷ s) =
    if c == b'-'
    then (2 ^ 32 - value_from 0 (leading_digits s) % 2 ^ 32) % 2 ^ 32
    else if c == b'+'
    then value_from 0 (leading_digits s) % 2 ^ 32
    else value_from 0 (leading_digits (c ∷ s)) % 2 ^ 32

unfoldable pub atoi : Text → ℕ
atoi s = signed (after_spaces s)

leading_digits-all : (s : Text) → AreDigits s → leading_digits s ≡ s
unfolding leading_digits AreDigits
leading_digits-all [] h = refl
leading_digits-all (c ∷ s) h = rw h.0 (ap (λ t. c ∷ t) (leading_digits-all s h.1))

-- A digit is neither white space nor a sign.
pub digit_cases :
    (c : ℕ) → isdigit c ≡ true → (isspace c ≡ false) × ((c == b'-') ≡ false) × ((c == b'+') ≡ false)
unfolding isdigit isspace
digit_cases c h = (ground arith, ground arith, ground arith)

atoi-digits : (s : Text) → AreDigits s → atoi s ≡ value_from 0 s % 2 ^ 32
unfolding atoi after_spaces signed AreDigits
atoi-digits [] h = unfold value_from in refl
atoi-digits (c ∷ s) h =
    let (a, b, d) = digit_cases c h.0 in
    rw (a, b, d) (ap (λ t. value_from 0 t % 2 ^ 32) (leading_digits-all (c ∷ s) h))

-- `atoi` reads back what `printf` writes for a number below 2^32.
pub atoi-decimal : (n : ℕ) → n < 2 ^ 32 → atoi (decimal n) ≡ n
atoi-decimal n h = atoi-digits (decimal n) (decimal-digits n) ∙ rw value-decimal (omega arith)
