-- ===== src/CLib/Decimal.antt =====
-- Decimal numbers: what `printf` writes for a number, and what `scanf` and `atoi` read.
use operating_systems_and_sy.Prelude.{
  ℕ, zero, suc, ◌+◌, ◌-◌, ◌*◌, ◌/◌, ◌%◌, ◌^◌, ◌<◌, ◌≤◌, ◌≡◌, ◌∙◌, ap, length, Bool, true, [], ◌∷◌,
  ltb, leb, ◌&&◌, if◌then◌else◌, arith, Bool-cases, inl, inr,
}
use operating_systems_and_sy.CLib.{Text}

-- The digits of `n` in front of `acc`.
digits_onto : ℕ → ℕ → Text → Text
digits_onto zero n acc = acc
digits_onto (suc fuel) n acc =
    let more = digits_onto fuel (n / 10) ((b'0' + n % 10) ∷ acc) in
    if ltb n 10 then (b'0' + n) ∷ acc else more

unfoldable pub decimal : ℕ → Text
unfolding digits_onto
decimal n = digits_onto (suc n) n []

unfoldable pub isdigit : ℕ → Bool
isdigit c = leb b'0' c && leb c b'9'

-- The number that a run of digits stands for, after the digits of `acc`.
unfoldable pub value_from : ℕ → Text → ℕ
value_from acc [] = acc
value_from acc (c ∷ s) = value_from (acc * 10 + (c - b'0')) s

unfoldable pub AreDigits : Text → Type 0
AreDigits [] = Unit
AreDigits (c ∷ s) = (isdigit c ≡ true) × AreDigits s

-- Reading back what was written.
digits_onto_value :
    (fuel n : ℕ) (acc : Text) → n < fuel → value_from 0 (digits_onto fuel n acc) ≡ value_from n acc
unfolding digits_onto value_from
digits_onto_value zero n acc h = absurd (omega arith)
digits_onto_value (suc fuel) n acc h = elim (Bool-cases (ltb n 10)) [
  | inl small ↦ rw small (ap (λ (k : ℕ). value_from k acc) (omega arith))
  | inr big ↦ rw big (
      digits_onto_value fuel (n / 10) ((b'0' + n % 10) ∷ acc) (ground arith)
      ∙ ap (λ (k : ℕ). value_from k acc) (omega arith))
]

-- The digits that `printf` writes for a number stand for that number.
pub value-decimal : (n : ℕ) → value_from 0 (decimal n) ≡ n
unfolding decimal value_from
value-decimal n = digits_onto_value (suc n) n [] (omega arith)

digits_onto_digits : (fuel n : ℕ) (acc : Text) → AreDigits acc → AreDigits (digits_onto fuel n acc)
unfolding digits_onto AreDigits isdigit
digits_onto_digits zero n acc h = h
digits_onto_digits (suc fuel) n acc h = elim (Bool-cases (ltb n 10)) [
  | inl small ↦ rw small (ground arith, h)
  | inr big ↦ rw big (digits_onto_digits fuel (n / 10) ((b'0' + n % 10) ∷ acc) (ground arith, h))
]

pub decimal-digits : (n : ℕ) → AreDigits (decimal n)
unfolding decimal AreDigits
decimal-digits n = digits_onto_digits (suc n) n [] tt

abbrev power_of_ten : ℕ → ℕ
power_of_ten zero = 10
power_of_ten (suc k) = 10 * power_of_ten k

length-digits_onto :
    (k fuel n : ℕ) (acc : Text)
    → n < fuel
    → n < power_of_ten k
    → (length acc < length (digits_onto fuel n acc))
      × (length (digits_onto fuel n acc) ≤ suc k + length acc)
unfolding digits_onto
length-digits_onto k zero n acc h b = absurd (omega arith)
length-digits_onto zero (suc fuel) n acc h b =
    let small : ltb n 10 ≡ true = ground arith in rw small (omega arith, omega arith)
length-digits_onto (suc k) (suc fuel) n acc h b = elim (Bool-cases (ltb n 10)) [
  | inl small ↦ rw small (omega arith, omega arith)
  | inr big ↦
      let (low, high) =
        length-digits_onto k fuel (n / 10) ((b'0' + n % 10) ∷ acc) (ground arith) (omega arith) in
      rw big (omega arith, omega arith)
]

-- A number below 10^8 has one to eight digits.
pub length-decimal : (n : ℕ) → n < 10 ^ 8 → (0 < length (decimal n)) × (length (decimal n) ≤ 8)
unfolding decimal
length-decimal n h = length-digits_onto 7 (suc n) n [] (omega arith) (omega arith)
