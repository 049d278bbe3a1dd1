-- ===== src/CLib/Order.antt =====
-- `strcmp` is a total order on strings.
use Prim.Native.Nat.{Ordering}
use operating_systems_and_sy.Prelude.{
  ◌≡◌, refl, ◌↔◌, true, false, [], ◌∷◌, arith, Bool-cases, inl, inr,
}
use operating_systems_and_sy.CLib.{Text, strcmp, str_eq, str_lt}

strcmp_self : (a : Text) → strcmp a a ≡ Ordering.eq
unfolding strcmp
strcmp_self [] = refl
strcmp_self (x ∷ xs) = ground (arith, strcmp_self xs)

eq_of_strcmp : (a b : Text) → strcmp a b ≡ Ordering.eq → a ≡ b
unfolding strcmp
eq_of_strcmp [] [] h = refl
eq_of_strcmp [] (y ∷ ys) h = cc
eq_of_strcmp (x ∷ xs) [] h = cc
eq_of_strcmp (x ∷ xs) (y ∷ ys) h = ground (arith, eq_of_strcmp xs ys)

-- The test by `strcmp` is equality.
pub str_eq_iff : (a b : Text) → (str_eq a b ≡ true) ↔ (a ≡ b)
unfolding str_eq
str_eq_iff a b = (λ h. eq_of_strcmp a b (ground arith), λ e. rw e (ground (arith, strcmp_self b)))

pub str_lt_asymm : (a b : Text) → str_lt a b ≡ true → str_lt b a ≡ false
unfolding str_lt strcmp
str_lt_asymm [] [] h = refl
str_lt_asymm [] (y ∷ ys) h = refl
str_lt_asymm (x ∷ xs) [] h = cc
str_lt_asymm (x ∷ xs) (y ∷ ys) h = ground (arith, str_lt_asymm xs ys)

pub str_lt_trans : (a b c : Text) → str_lt a b ≡ true → str_lt b c ≡ true → str_lt a c ≡ true
unfolding str_lt strcmp
str_lt_trans [] [] [] h k = h
str_lt_trans [] (y ∷ ys) [] h k = cc
str_lt_trans [] b (z ∷ zs) h k = refl
str_lt_trans (x ∷ xs) [] c h k = cc
str_lt_trans (x ∷ xs) (y ∷ ys) [] h k = cc
str_lt_trans (x ∷ xs) (y ∷ ys) (z ∷ zs) h k = ground (arith, str_lt_trans xs ys zs)

-- Of two strings that differ, one is below the other.
pub str_lt_total : (a b : Text) → str_lt a b ≡ false → str_lt b a ≡ false → a ≡ b
unfolding str_lt strcmp
str_lt_total [] [] h k = refl
str_lt_total [] (y ∷ ys) h k = cc
str_lt_total (x ∷ xs) [] h k = cc
str_lt_total (x ∷ xs) (y ∷ ys) h k = ground (arith, str_lt_total xs ys)

pub not_str_lt_trans : (a b c : Text) → str_lt a b ≡ false → str_lt b c ≡ false → str_lt a c ≡ false
not_str_lt_trans a b c h k = elim (Bool-cases (str_lt a c)) [
  | inl lt ↦ elim (Bool-cases (str_lt b a)) [
    | inl lt' ↦ cc (str_lt_trans b a c lt' lt)
    | inr ge ↦ let e : a ≡ b = str_lt_total a b h ge in cc
  ]
  | inr ge ↦ ge
]
