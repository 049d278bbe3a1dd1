-- ===== src/Spooler/Threads/Progress/Count.antt =====
-- Sums over the first `n` threads.
use operating_systems_and_sy.Prelude.{
  ℕ, zero, suc, ◌+◌, ◌<◌, ◌≤◌, ◌≡◌, ◌⊎◌, inl, inr, refl, update, ℕ_discrete, arith,
}

pub zero_or_pos : (n : ℕ) → (n ≡ 0) ⊎ (0 < n)
zero_or_pos zero = inl refl
zero_or_pos (suc n) = inr (omega arith)

module _ {P : Type 0} (f : P → ℕ) where
  unfoldable pub total : ℕ → (ℕ → P) → ℕ
  total zero pc = 0
  total (suc n) pc = f (pc n) + total n pc

  total_outside : (n i : ℕ) (pc : ℕ → P) (p : P) → n ≤ i → total n (update pc i p) ≡ total n pc
  unfolding total
  total_outside zero i pc p h = refl
  total_outside (suc n) i pc p h = ground (arith, total_outside n i pc p)

  -- One thread moves.
  pub total-update :
      (n i : ℕ) (pc : ℕ → P) (p : P) → i < n → total n (update pc i p) + f (pc i) ≡ total n pc + f p
  unfolding total
  total-update zero i pc p h = absurd (omega arith)
  total-update (suc n) i pc p h = elim (ℕ_discrete i n) [
    | yes e ↦ rw (← e) (ground (arith, total_outside i i pc p))
    | no ne ↦ ground (arith, total-update n i pc p)
  ]

  pub le-total : (n i : ℕ) (pc : ℕ → P) → i < n → f (pc i) ≤ total n pc
  unfolding total
  le-total zero i pc h = absurd (omega arith)
  le-total (suc n) i pc h = elim (ℕ_discrete i n) [
    | yes e ↦ rw e (omega arith)
    | no ne ↦ omega (arith, le-total n i pc (omega arith))
  ]

  pub total_pos : (n : ℕ) (pc : ℕ → P) → 0 < total n pc → (i : ℕ) × (i < n) × (0 < f (pc i))
  unfolding total
  total_pos zero pc h = absurd (omega arith)
  total_pos (suc n) pc h = elim (zero_or_pos (f (pc n))) [
    | inl e ↦ let (i, lt, pos) = total_pos n pc (omega arith) in (i, omega arith, pos)
    | inr pos ↦ (n, omega arith, pos)
  ]

  pub total_zero : (n : ℕ) (pc : ℕ → P) → ((i : ℕ) → f (pc i) ≡ 0) → total n pc ≡ 0
  unfolding total
  total_zero zero pc h = refl
  total_zero (suc n) pc h = omega (arith, h n, total_zero n pc h)

  pub total_same :
      (n : ℕ) (pc pc' : ℕ → P) → ((i : ℕ) → f (pc' i) ≡ f (pc i)) → total n pc' ≡ total n pc
  unfolding total
  total_same zero pc pc' h = refl
  total_same (suc n) pc pc' h = omega (arith, h n, total_same n pc pc' h)
