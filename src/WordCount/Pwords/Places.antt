-- ===== src/WordCount/Pwords/Places.antt =====
-- Sums over the threads of pwords.c.
use operating_systems_and_sy.Prelude.{
  ℕ, zero, suc, ◌+◌, ◌<◌, ◌≤◌, ◌≡◌, ◌≢◌, ◌⊎◌, inl, inr, refl, ap, none, some, List, [], ◌∷◌, ◌++◌,
  length, get_elem?, set, arith,
}

zero_or_pos : (n : ℕ) → (n ≡ 0) ⊎ (0 < n)
zero_or_pos zero = inl refl
zero_or_pos (suc n) = inr (omega arith)

module _ {A : Type 0} (f : A → ℕ) where
  abbrev pub sum_of : List A → ℕ
  sum_of [] = 0
  sum_of (p ∷ ps) = f p + sum_of ps

  pub sum_of-append : (ps qs : List A) → sum_of (ps ++ qs) ≡ sum_of ps + sum_of qs
  sum_of-append [] qs = omega arith
  sum_of-append (p ∷ ps) qs = omega (arith, sum_of-append ps qs)

  pub sum_of-set :
      (ps : List A) (i : ℕ) (old new : A)
      → get_elem? ps i ≡ some old
      → sum_of (set ps i new) + f old ≡ sum_of ps + f new
  sum_of-set [] i old new h = absurd (cc)
  sum_of-set (p ∷ ps) zero old new h = let e : p ≡ old = cc in rw e (omega arith)
  sum_of-set (p ∷ ps) (suc i) old new h = omega (arith, sum_of-set ps i old new h)

  pub le-sum_of : (ps : List A) (i : ℕ) (p : A) → get_elem? ps i ≡ some p → f p ≤ sum_of ps
  le-sum_of [] i p h = absurd (cc)
  le-sum_of (q ∷ ps) zero p h = let e : q ≡ p = cc in rw e (omega arith)
  le-sum_of (q ∷ ps) (suc i) p h = omega (arith, le-sum_of ps i p h)

  -- Two of them.
  pub two-le-sum_of :
      (ps : List A) (i j : ℕ) (p q : A)
      → i ≢ j
      → get_elem? ps i ≡ some p
      → get_elem? ps j ≡ some q
      → f p + f q ≤ sum_of ps
  two-le-sum_of [] i j p q ne h k = absurd (cc)
  two-le-sum_of (r ∷ ps) zero zero p q ne h k = absurd (ne refl)
  two-le-sum_of (r ∷ ps) zero (suc j) p q ne h k =
      let e : r ≡ p = cc in rw e (omega (arith, le-sum_of ps j q k))
  two-le-sum_of (r ∷ ps) (suc i) zero p q ne h k =
      let e : r ≡ q = cc in rw e (omega (arith, le-sum_of ps i p h))
  two-le-sum_of (r ∷ ps) (suc i) (suc j) p q ne h k =
      omega (arith, two-le-sum_of ps i j p q (λ e. ne (ap suc e)) h k)

  pub sum_of-zero :
      (ps : List A) → ((i : ℕ) (p : A) → get_elem? ps i ≡ some p → f p ≡ 0) → sum_of ps ≡ 0
  sum_of-zero [] h = refl
  sum_of-zero (p ∷ ps) h = omega (arith, h 0 p refl, sum_of-zero ps (λ i. h (suc i)))

  -- A sum above 0 has a part above 0.
  pub sum_of_pos :
      (ps : List A) → 0 < sum_of ps → (i : ℕ) × (p : A) × (get_elem? ps i ≡ some p) × (0 < f p)
  sum_of_pos [] h = absurd (omega arith)
  sum_of_pos (p ∷ ps) h = elim (zero_or_pos (f p)) [
    | inl e ↦ let (i, q, at, pos) = sum_of_pos ps (omega arith) in (suc i, q, at, pos)
    | inr pos ↦ (0, p, refl, pos)
  ]

-- A place in a list to which one is added.
pub get_elem?-added :
    {A : Type 0} (ps : List A) (i : ℕ) (q p : A)
    → get_elem? (ps ++ q ∷ []) i ≡ some p
    → (get_elem? ps i ≡ some p) ⊎ (p ≡ q)
get_elem?-added [] zero q p h = inr (cc)
get_elem?-added [] (suc i) q p h = absurd (cc)
get_elem?-added (r ∷ ps) zero q p h = inl h
get_elem?-added (r ∷ ps) (suc i) q p h = get_elem?-added ps i q p h

pub lt-length : {A : Type 0} (ps : List A) (i : ℕ) (p : A) → get_elem? ps i ≡ some p → i < length ps
lt-length [] i p h = absurd (cc)
lt-length (q ∷ ps) zero p h = omega arith
lt-length (q ∷ ps) (suc i) p h = omega (arith, lt-length ps i p h)

pub length-le : {A : Type 0} (ps : List A) (i : ℕ) → get_elem? ps i ≡ none → length ps ≤ i
length-le [] i h = omega arith
length-le (q ∷ ps) zero h = absurd (cc)
length-le (q ∷ ps) (suc i) h = omega (arith, length-le ps i h)
