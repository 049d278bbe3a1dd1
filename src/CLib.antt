-- ===== src/CLib.antt =====
-- What the sources use of the C library, in the "C" locale that they leave in force. A character is
-- its code, 0 to 255, and a string is the list of its characters before the terminating NUL.
pub mod Order
pub mod Decimal
pub mod Atoi
use Prim.Native.Char.{code}
use Prim.Native.String.{String}
use Prim.Native.Nat.{compare, Ordering}
use operating_systems_and_sy.Prelude.{
  ℕ, zero, suc, ◌+◌, ◌-◌, ◌/◌, ◌%◌, Bool, true, false, ◌&&◌, ◌||◌, List, [], ◌∷◌, ◌++◌, leb, ltb,
  ◌==◌, if◌then◌else◌,
}

abbrev pub Text : Type 0
Text = List ℕ

-- The characters of an ASCII literal.
abbrev pub codes : String → Text
codes String.[] = []
codes (String.◌∷◌ c s) = code c ∷ codes s

-- The sign of `strcmp`: the first characters that differ decide.
unfoldable pub strcmp : Text → Text → Ordering
strcmp [] [] = Ordering.eq
strcmp [] (y ∷ ys) = Ordering.lt
strcmp (x ∷ xs) [] = Ordering.gt
strcmp (x ∷ xs) (y ∷ ys) = elim (compare x y) [
  | Ordering.lt ↦ Ordering.lt
  | Ordering.eq ↦ strcmp xs ys
  | Ordering.gt ↦ Ordering.gt
]

-- `strcmp(a, b) == 0`
unfoldable pub str_eq : Text → Text → Bool
str_eq a b = elim (strcmp a b) [ Ordering.eq ↦ true | _ ↦ false ]

-- `strcmp(a, b) < 0`
unfoldable pub str_lt : Text → Text → Bool
str_lt a b = elim (strcmp a b) [ Ordering.lt ↦ true | _ ↦ false ]

unfoldable pub is_upper : ℕ → Bool
is_upper c = leb b'A' c && leb c b'Z'

unfoldable pub is_lower : ℕ → Bool
is_lower c = leb b'a' c && leb c b'z'

unfoldable pub isalpha : ℕ → Bool
unfolding is_upper is_lower
isalpha c = is_upper c || is_lower c

unfoldable pub tolower : ℕ → ℕ
unfolding is_upper
tolower c = if is_upper c then c + 32 else c

-- space, and \t \n \v \f \r
unfoldable pub isspace : ℕ → Bool
isspace c = c == 32 || (leb 9 c && leb c 13)
