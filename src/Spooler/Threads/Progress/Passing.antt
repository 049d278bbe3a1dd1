-- ===== src/Spooler/Threads/Progress/Passing.antt =====
-- With one condition variable: what a step, a signal and a wake-up make of a thread that can go on.
use operating_systems_and_sy.Prelude.{
  ℕ, ◌≡◌, ◌≢◌, ◌⊎◌, inl, inr, refl, Bool, true, false, none, some, [], ◌∷◌, arith,
}
use operating_systems_and_sy.Spooler.Threads.Thread.{
  one_cv, Cv, con, Shared, Pc, producing, ins_wake, ins_wait, ins_blocked, ins_signal, ins_unlock,
  rem_wake, rem_wait, rem_blocked, rem_signal, rem_unlock, Move, ins_release, rem_release,
  ins_block, rem_block,
}
use operating_systems_and_sy.Spooler.Threads.System.{signals, blocked_on, wake, wake_con, inserting}
use operating_systems_and_sy.Spooler.Threads.Invariant.{holds, got_null}
use operating_systems_and_sy.Spooler.Threads.Progress.Moving.{live}
use operating_systems_and_sy.Spooler.Threads.Progress.Owner.{consumes}

module _ {A : Type 0} where
  abbrev pub passed : Pc A → Bool
  passed (ins_wait a l) = true
  passed (ins_unlock l) = true
  passed rem_wait = true
  passed (rem_unlock r) = true
  passed _ = false

  pub passed-holds : (p : Pc A) → passed p ≡ true → holds p ≡ true
  passed-holds p e = ground arith

  -- Who stops going on has made its signal, and only a signal leads behind a signal.
  pub Move-live :
      {i : ℕ} {m m' : Shared A} {p p' : Pc A}
      → Move one_cv i m p m' p'
      → ((live p' ≡ true) ⊎ (passed p ≡ true)) × (passed p' ≡ false)
  Move-live ins_block = (inr refl, refl)
  Move-live rem_block = (inr refl, refl)
  Move-live (ins_release {l = []}) = (inr refl, refl)
  Move-live (ins_release {l = a ∷ l}) = (inr refl, refl)
  Move-live (rem_release {r = none}) = (inr refl, refl)
  Move-live (rem_release {r = some a}) = (inr refl, refl)
  Move-live mv = (inl refl, refl)

  pub Move-inserting :
      {i : ℕ} {m m' : Shared A} {p p' : Pc A}
      → Move one_cv i m p m' p'
      → inserting p' ≡ true
      → inserting p ≡ true
  Move-inserting (rem_release {r = none}) h = h
  Move-inserting (rem_release {r = some a}) h = h
  Move-inserting mv h = ground (arith, h)

  pub signals-live :
      {c : Cv} {p' : Pc A} (p : Pc A)
      → signals one_cv p ≡ some (c, p')
      → (live p ≡ true)
        × (holds p ≡ true)
        × (live p' ≡ true)
        × (inserting p' ≡ inserting p)
        × (c ≡ con)
  signals-live (ins_wake a l) e = ground arith
  signals-live (ins_signal l) e = ground arith
  signals-live rem_wake e = ground arith
  signals-live (rem_signal r) e = ground arith
  signals-live p e = absurd (cc)

  pub woken-live :
      {c : Cv} (p : Pc A)
      → blocked_on one_cv p ≡ some c
      → (live p ≡ false)
        × (live (wake p) ≡ true)
        × (passed (wake p) ≡ false)
        × (inserting (wake p) ≡ inserting p)
  woken-live (ins_blocked a l) e = (refl, refl, refl, refl)
  woken-live rem_blocked e = (refl, refl, refl, refl)
  woken-live p e = absurd (cc)

  pub awake-inserting : (p : Pc A) → inserting (wake_con one_cv p) ≡ inserting p
  awake-inserting (ins_blocked a l) = refl
  awake-inserting p = refl

  -- A producer at work or a consumer that has not got NULL goes on or is blocked.
  pub goes_on :
      (p : Pc A)
      → (inserting p ≡ true) ⊎ ((consumes p ≡ true) × (got_null p ≡ false))
      → blocked_on one_cv p ≢ some con
      → live p ≡ true
  goes_on (producing []) (inl e) h = absurd (cc)
  goes_on (producing (a ∷ l)) e h = refl
  goes_on (ins_blocked a l) e h = absurd (h refl)
  goes_on rem_blocked e h = absurd (h refl)
  goes_on p e h = ground arith

  pub consumes-inserting : (p : Pc A) → consumes p ≡ true → inserting p ≡ false
  consumes-inserting (producing l) e = absurd (cc)
  consumes-inserting p e = ground arith
