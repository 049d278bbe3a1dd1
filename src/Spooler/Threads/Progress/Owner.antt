-- ===== src/Spooler/Threads/Progress/Owner.antt =====
-- A lock that is taken is held by a thread, and a consumer stays one.
use operating_systems_and_sy.Prelude.{
  ℕ, ◌≡◌, refl, ◌∙◌, Bool, true, false, none, some, update, arith,
}
use operating_systems_and_sy.Spooler.Threads.Thread.{
  Variant, two_cv, Cv, Shared, Pc, ins_wake, ins_blocked, ins_signal, consuming, rem_lock, rem_test,
  rem_retry, rem_wake, rem_wait, rem_blocked, rem_woken, rem_signal, rem_unlock, finished, Move,
  call_insert, ins_acquire, ins_reacquire, rem_acquire, rem_reacquire, rem_release, insert_step,
  remove_step,
}
use operating_systems_and_sy.Spooler.Threads.System.{
  signals, wake, wake_con, System, Step, Spurious, move, signal, signal_none, joined, set_flag,
  broadcast, wake_up,
}
use operating_systems_and_sy.Spooler.Threads.Invariant.{holds}

module _ {A : Type 0} where
  -- The lock is held by the thread that it names.
  abbrev pub Owned : Shared A → (ℕ → Pc A) → Type 0
  Owned m pc = (i : ℕ) → m.buf_lock ≡ some i → holds (pc i) ≡ true

  Move-Owned :
      {v : Variant} {m m' : Shared A} (pc : ℕ → Pc A) {p p' : Pc A} (i : ℕ)
      → Move v i m p m' p'
      → pc i ≡ p
      → Owned m pc
      → Owned m' (update pc i p')
  unfolding insert_step remove_step
  Move-Owned pc i call_insert e o j h = ground (arith, o j h)
  Move-Owned pc i (ins_acquire free) e o j h = ground arith
  Move-Owned pc i (ins_reacquire free) e o j h = ground arith
  Move-Owned pc i (rem_acquire free) e o j h = ground arith
  Move-Owned pc i (rem_reacquire free) e o j h = ground arith
  Move-Owned pc i mv e o j h = ground (arith, o j)

  -- A thread that consumes.
  abbrev pub consumes : Pc A → Bool
  consumes consuming = true
  consumes rem_lock = true
  consumes rem_test = true
  consumes rem_retry = true
  consumes rem_wake = true
  consumes rem_wait = true
  consumes rem_blocked = true
  consumes rem_woken = true
  consumes (rem_signal r) = true
  consumes (rem_unlock r) = true
  consumes finished = true
  consumes _ = false

  Move-consumes :
      {v : Variant} {m m' : Shared A} (pc : ℕ → Pc A) {p p' : Pc A} (i c : ℕ)
      → Move v i m p m' p'
      → pc i ≡ p
      → consumes (pc c) ≡ true
      → consumes (update pc i p' c) ≡ true
  unfolding insert_step remove_step
  Move-consumes pc i c call_insert e h = ground arith
  Move-consumes pc i c (rem_release {r = none}) e h = ground arith
  Move-consumes pc i c (rem_release {r = some a}) e h = ground arith
  Move-consumes pc i c mv e h = ground arith

  signals-kept :
      (v : Variant) {d : Cv} {p' : Pc A} (p : Pc A)
      → signals v p ≡ some (d, p')
      → (holds p ≡ true) × (holds p' ≡ true) × (consumes p' ≡ consumes p)
  signals-kept v (ins_wake a l) e = ground arith
  signals-kept v (ins_signal l) e = ground arith
  signals-kept v rem_wake e = ground arith
  signals-kept v (rem_signal r) e = ground arith
  signals-kept v p e = absurd (cc)

  wake-kept : (p : Pc A) → (holds (wake p) ≡ holds p) × (consumes (wake p) ≡ consumes p)
  wake-kept (ins_blocked a l) = (refl, refl)
  wake-kept p = (refl, refl)

  wake_con-kept :
      (v : Variant) (p : Pc A)
      → (holds (wake_con v p) ≡ holds p) × (consumes (wake_con v p) ≡ consumes p)
  wake_con-kept two_cv (ins_blocked a l) = (refl, refl)
  wake_con-kept v p = wake-kept p

  pub Step-Owned : {v : Variant} {s t : System A} → Step v s t → Owned s.mem s.pc → Owned t.mem t.pc
  Step-Owned {v} {s} (move i mv) o k h = Move-Owned s.pc i mv refl o k h
  Step-Owned {v} {s} (signal i j {p = p} e f) o k h =
      ground (arith, o k h, signals-kept v (s.pc i) e, wake-kept (s.pc j))
  Step-Owned {v} {s} (signal_none i e nobody) o k h =
      ground (arith, o k h, signals-kept v (s.pc i) e)
  Step-Owned (joined e ne f) o k h = o k h
  Step-Owned (set_flag e) o k h = o k h
  Step-Owned {v} {s} (broadcast e) o k h = (wake_con-kept v (s.pc k)).0 ∙ o k h

  pub Step-consumes :
      {v : Variant} {s t : System A} (c : ℕ)
      → Step v s t
      → consumes (s.pc c) ≡ true
      → consumes (t.pc c) ≡ true
  Step-consumes {v} {s} c (move i mv) h = Move-consumes s.pc i c mv refl h
  Step-consumes {v} {s} c (signal i j e f) h =
      ground (arith, h, signals-kept v (s.pc i) e, wake-kept (s.pc j))
  Step-consumes {v} {s} c (signal_none i e nobody) h = ground (arith, h, signals-kept v (s.pc i) e)
  Step-consumes c (joined e ne f) h = h
  Step-consumes c (set_flag e) h = h
  Step-consumes {v} {s} c (broadcast e) h = (wake_con-kept v (s.pc c)).1 ∙ h

  pub Spurious-kept :
      {v : Variant} {s t : System A} (c : ℕ)
      → Spurious v s t
      → (consumes (s.pc c) ≡ true → consumes (t.pc c) ≡ true)
        × (Owned s.mem s.pc → Owned t.mem t.pc)
  Spurious-kept {s} c (wake_up j e) =
      (λ h. ground (arith, wake-kept (s.pc j)), λ o k h. ground (arith, o k h, wake-kept (s.pc j)))
