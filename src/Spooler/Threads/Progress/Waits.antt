-- ===== src/Spooler/Threads/Progress/Waits.antt =====
-- Who waits, who comes, and what one step of one thread does to that.
use operating_systems_and_sy.Prelude.{
  ℕ, ◌+◌, ◌<◌, ◌≤◌, ◌≡◌, ◌≢◌, ◌⊎◌, inl, inr, refl, Bool, true, false, none, some, Bool-cases, arith,
}
use operating_systems_and_sy.Spooler.Ring.{
  Spool, spool_empty, spool_full, spool_insert_unchecked, spool_remove_unchecked,
}
use operating_systems_and_sy.Spooler.Ring.Bounds.{used, IsValid}
use operating_systems_and_sy.Spooler.Threads.Thread.{
  Variant, two_cv, Shared, Pc, ins_lock, ins_test, ins_wake, ins_wait, ins_blocked, ins_woken,
  ins_signal, rem_lock, rem_test, rem_wake, rem_wait, rem_blocked, rem_woken, rem_signal, absent,
  Move, call_insert, ins_acquire, ins_full, ins_store, ins_give_up, ins_block, ins_reacquire,
  ins_release, call_remove, rem_acquire, rem_empty, rem_take, rem_give_up, rem_block, rem_reacquire,
  rem_release, insert_step, remove_step,
}
use operating_systems_and_sy.Spooler.Threads.Invariant.{holds}

module _ {A : Type 0} where
  -- A consumer in pthread_cond_wait.
  abbrev pub waits_con : Pc A → ℕ
  waits_con rem_blocked = 1
  waits_con _ = 0

  -- A consumer on its way to the test of the ring, or a thread that is about to signal `con_cv`.
  abbrev pub for_con : Pc A → ℕ
  for_con rem_lock = 1
  for_con rem_test = 1
  for_con rem_woken = 1
  for_con (ins_wake a l) = 1
  for_con (ins_signal l) = 1
  for_con _ = 0

  -- The same for the producers and `pro_cv`.
  abbrev pub waits_pro : Pc A → ℕ
  waits_pro (ins_blocked a l) = 1
  waits_pro _ = 0

  abbrev pub for_pro : Pc A → ℕ
  for_pro (ins_lock a l) = 1
  for_pro (ins_test a l) = 1
  for_pro (ins_woken a l) = 1
  for_pro rem_wake = 1
  for_pro (rem_signal r) = 1
  for_pro _ = 0

  -- A consumer that has seen the ring empty and is about to wait, and a producer that saw it full.
  abbrev pub saw_empty : Pc A → Bool
  saw_empty rem_wake = true
  saw_empty rem_wait = true
  saw_empty _ = false

  abbrev pub saw_full : Pc A → Bool
  saw_full (ins_wake a l) = true
  saw_full (ins_wait a l) = true
  saw_full _ = false

  empty_used : (sp : Spool A) → spool_empty sp ≡ true → used sp ≡ 0
  unfolding spool_empty
  empty_used sp h = ground arith

  full_free : (sp : Spool A) → spool_full sp ≡ true → sp.capacity ≡ 0
  unfolding spool_full
  full_free sp h = ground arith

  insert_free :
      (sp : Spool A) (a : A)
      → IsValid sp
      → spool_full sp ≡ false
      → ((spool_insert_unchecked sp a).0.capacity + 1 ≡ sp.capacity)
        × ((spool_insert_unchecked sp a).0.size ≡ sp.size)
  unfolding spool_insert_unchecked spool_full
  insert_free sp a v h = ground (arith, v.some_room)

  remove_free :
      (sp : Spool A)
      → IsValid sp
      → spool_empty sp ≡ false
      → ((spool_remove_unchecked sp).0.capacity ≡ sp.capacity + 1)
        × ((spool_remove_unchecked sp).0.size ≡ sp.size)
        × (sp.capacity < sp.size)
  unfolding spool_remove_unchecked spool_empty
  remove_free sp v h = ground (arith, v.small, v.free_in)

  remove_same : (sp : Spool A) → spool_empty sp ≡ true → (spool_remove_unchecked sp).0 ≡ sp
  unfolding spool_remove_unchecked
  remove_same sp h = ground arith

  -- What a step does to those that wait for a string: none is left in the ring, or there are no more
  -- strings than come or are signalled, and no one begins to wait.
  abbrev pub Strings : Shared A → Pc A → Shared A → Pc A → Type 0
  Strings m p m' p' =
      (used m'.spool ≡ 0)
      ⊎ ((used m'.spool + for_con p ≤ used m.spool + for_con p') × (waits_con p' ≤ waits_con p))

  abbrev pub Slots : Shared A → Pc A → Shared A → Pc A → Type 0
  Slots m p m' p' =
      (m'.spool.capacity ≡ 0)
      ⊎ ((m'.spool.capacity + for_pro p ≤ m.spool.capacity + for_pro p')
          × (waits_pro p' ≤ waits_pro p))

  pub Move-Strings :
      {i : ℕ} {m m' : Shared A} {p p' : Pc A}
      → IsValid m.spool
      → (saw_empty p ≡ true → used m.spool ≡ 0)
      → Move two_cv i m p m' p'
      → Strings m p m' p'
  unfolding insert_step remove_step
  Move-Strings {m = m} v empty (ins_store {a = a} room) =
      inr (omega (arith, insert_free m.spool a v room, v.free_in), omega arith)
  Move-Strings {m = m} v empty (rem_empty go) = inl (empty_used m.spool (ground arith))
  Move-Strings {m = m} v empty (rem_take go) = elim (Bool-cases (spool_empty m.spool)) [
    | inl e ↦ inl (rw (remove_same m.spool e) (empty_used m.spool e))
    | inr e ↦ inr (omega (arith, remove_free m.spool v e), omega arith)
  ]
  Move-Strings v empty rem_block = inl (empty refl)
  Move-Strings v empty call_insert = inr (omega arith, omega arith)
  Move-Strings v empty (ins_acquire free) = inr (omega arith, omega arith)
  Move-Strings v empty (ins_full full) = inr (omega arith, omega arith)
  Move-Strings v empty ins_give_up = inr (omega arith, omega arith)
  Move-Strings v empty ins_block = inr (omega arith, omega arith)
  Move-Strings v empty (ins_reacquire free) = inr (omega arith, omega arith)
  Move-Strings v empty ins_release = inr (omega arith, omega arith)
  Move-Strings v empty call_remove = inr (omega arith, omega arith)
  Move-Strings v empty (rem_acquire free) = inr (omega arith, omega arith)
  Move-Strings v empty rem_give_up = inr (omega arith, omega arith)
  Move-Strings v empty (rem_reacquire free) = inr (omega arith, omega arith)
  Move-Strings v empty (rem_release {r = r}) = inr (ground arith, ground arith)

  pub Move-Slots :
      {i : ℕ} {m m' : Shared A} {p p' : Pc A}
      → IsValid m.spool
      → (saw_full p ≡ true → m.spool.capacity ≡ 0)
      → Move two_cv i m p m' p'
      → Slots m p m' p'
  unfolding insert_step remove_step
  Move-Slots {m = m} v full (ins_store {a = a} room) =
      inr (omega (arith, insert_free m.spool a v room), omega arith)
  Move-Slots {m = m} v full (ins_full h) = inl (full_free m.spool h)
  Move-Slots {m = m} v full (rem_take go) = elim (Bool-cases (spool_empty m.spool)) [
    | inl e ↦ inr (rw (remove_same m.spool e) (omega arith), omega arith)
    | inr e ↦ inr (omega (arith, remove_free m.spool v e), omega arith)
  ]
  Move-Slots v full ins_block = inl (full refl)
  Move-Slots v full call_insert = inr (omega arith, omega arith)
  Move-Slots v full (ins_acquire free) = inr (omega arith, omega arith)
  Move-Slots v full (rem_empty go) = inr (omega arith, omega arith)
  Move-Slots v full ins_give_up = inr (omega arith, omega arith)
  Move-Slots v full rem_block = inr (omega arith, omega arith)
  Move-Slots v full (ins_reacquire free) = inr (omega arith, omega arith)
  Move-Slots v full ins_release = inr (omega arith, omega arith)
  Move-Slots v full call_remove = inr (omega arith, omega arith)
  Move-Slots v full (rem_acquire free) = inr (omega arith, omega arith)
  Move-Slots v full rem_give_up = inr (omega arith, omega arith)
  Move-Slots v full (rem_reacquire free) = inr (omega arith, omega arith)
  Move-Slots v full (rem_release {r = r}) = inr (ground arith, ground arith)

  -- Only a thread that holds the lock changes the ring.
  pub Move-spool :
      {v : Variant} {i : ℕ} {m m' : Shared A} {p p' : Pc A}
      → Move v i m p m' p'
      → (m'.spool ≡ m.spool) ⊎ (holds p ≡ true)
  unfolding insert_step remove_step
  Move-spool call_insert = inl refl
  Move-spool (ins_store room) = inr refl
  Move-spool (rem_take go) = inr refl
  Move-spool mv = inl refl

  -- A thread that is about to wait has seen the ring as it is.
  pub Move-saw_empty :
      {i : ℕ} {m m' : Shared A} {p p' : Pc A}
      → Move two_cv i m p m' p'
      → saw_empty p' ≡ true
      → used m'.spool ≡ 0
  unfolding insert_step remove_step
  Move-saw_empty call_insert h = cc
  Move-saw_empty {m = m} (rem_empty go) h = empty_used m.spool (ground arith)
  Move-saw_empty (rem_release {r = none}) h = cc
  Move-saw_empty (rem_release {r = some a}) h = cc
  Move-saw_empty mv h = absurd (cc)

  pub Move-saw_full :
      {i : ℕ} {m m' : Shared A} {p p' : Pc A}
      → Move two_cv i m p m' p'
      → saw_full p' ≡ true
      → m'.spool.capacity ≡ 0
  unfolding insert_step remove_step
  Move-saw_full call_insert h = cc
  Move-saw_full {m = m} (ins_full full) h = full_free m.spool full
  Move-saw_full (rem_release {r = none}) h = cc
  Move-saw_full (rem_release {r = some a}) h = cc
  Move-saw_full mv h = absurd (cc)

  pub saw_empty-holds : (p : Pc A) → saw_empty p ≡ true → holds p ≡ true
  saw_empty-holds rem_wake h = refl
  saw_empty-holds rem_wait h = refl
  saw_empty-holds p h = absurd (cc)

  pub saw_full-holds : (p : Pc A) → saw_full p ≡ true → holds p ≡ true
  saw_full-holds (ins_wake a l) h = refl
  saw_full-holds (ins_wait a l) h = refl
  saw_full-holds p h = absurd (cc)

  pub Move-absent :
      {v : Variant} {i : ℕ} {m m' : Shared A} {p p' : Pc A} → Move v i m p m' p' → p ≢ absent
  Move-absent call_insert e = cc
  Move-absent mv e = cc
