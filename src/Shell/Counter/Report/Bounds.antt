-- ===== src/Shell/Counter/Report/Bounds.antt =====
-- The reported counts bound those of the threads.
use operating_systems_and_sy.Prelude.{ℕ, ◌≤◌, ◌≡◌, refl, ◌⊎◌, inl, List, [], ◌∷◌, arith}
use operating_systems_and_sy.Shell.Counter.Report.{min_loop, max_loop, fairness}

-- Each of the numbers is from `low` to `high`.
abbrev pub AllWithin : ℕ → ℕ → List ℕ → Type 0
AllWithin low high [] = Unit {0}
AllWithin low high (c ∷ rest) = ((low ≤ c) × (c ≤ high)) × AllWithin low high rest

-- The number is one of the list.
abbrev pub OneOf : ℕ → List ℕ → Type 0
OneOf n [] = ⊥
OneOf n (c ∷ rest) = (n ≡ c) ⊎ OneOf n rest

min_loop_le : (m : ℕ) (l : List ℕ) → min_loop m l ≤ m
unfolding min_loop
min_loop_le m [] = omega arith
min_loop_le m (c ∷ l) = ground (arith, min_loop_le m l, min_loop_le c l)

max_loop_ge : (m : ℕ) (l : List ℕ) → m ≤ max_loop m l
unfolding max_loop
max_loop_ge m [] = omega arith
max_loop_ge m (c ∷ l) = ground (arith, max_loop_ge m l, max_loop_ge c l)

loops-AllWithin : (l : List ℕ) (m k : ℕ) → AllWithin (min_loop m l) (max_loop k l) l
unfolding min_loop max_loop
loops-AllWithin [] m k = tt
loops-AllWithin (c ∷ l) m k = (
  (
    ground (arith, min_loop_le m l, min_loop_le c l),
    ground (arith, max_loop_ge k l, max_loop_ge c l),
  ),
  loops-AllWithin l _ _,
)

min_loop-OneOf : (m : ℕ) (l : List ℕ) → OneOf (min_loop m l) (m ∷ l)
unfolding min_loop
min_loop-OneOf m [] = inl refl
min_loop-OneOf m (c ∷ l) = ground (arith, min_loop-OneOf m l, min_loop-OneOf c l)

max_loop-OneOf : (m : ℕ) (l : List ℕ) → OneOf (max_loop m l) (m ∷ l)
unfolding max_loop
max_loop-OneOf m [] = inl refl
max_loop-OneOf m (c ∷ l) = ground (arith, max_loop-OneOf m l, max_loop-OneOf c l)

-- The two numbers that are reported for fairness are counts of threads, and no count of a thread is
-- below the one or above the other.
pub fairness-AllWithin :
    (first : ℕ) (rest : List ℕ)
    → AllWithin (fairness first rest).0 (fairness first rest).1 (first ∷ rest)
      × OneOf (fairness first rest).0 (first ∷ first ∷ rest)
      × OneOf (fairness first rest).1 (first ∷ first ∷ rest)
unfolding fairness
fairness-AllWithin first rest = (
  loops-AllWithin (first ∷ rest) first first,
  min_loop-OneOf first (first ∷ rest),
  max_loop-OneOf first (first ∷ rest),
)
