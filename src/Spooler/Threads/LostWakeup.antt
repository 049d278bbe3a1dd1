-- ===== src/Spooler/Threads/LostWakeup.antt =====
-- `spool_shutdown_efficient` sets the flag and broadcasts without `buf_lock`: a consumer that has
-- tested the flag and is not yet in pthread_cond_wait misses the broadcast.
use mathlib.Core.Path.{subst, fun_ext}
use operating_systems_and_sy.Prelude.{
  ℕ, zero, suc, ◌≡◌, refl, ◌≢◌, true, false, none, some, List, arith, ◌⊎◌, inl, inr,
}
use operating_systems_and_sy.Spooler.Ring.{spool_init_shared, spool_empty}
use operating_systems_and_sy.Spooler.Threads.Thread.{
  Variant, safe, Shared, Pc, consuming, rem_wake, rem_wait, rem_blocked, absent, Move, call_remove,
  rem_acquire, rem_empty, rem_block, keeps_waiting, call_insert, on_empty,
}
use operating_systems_and_sy.Spooler.Threads.System.{
  Main, joining, waiting, update, wake_con, inserting, System, Step, move, signal, signal_none,
  joined, set_flag, broadcast, start, Reach, here, step,
}

module _ {A : Type 0} where
  -- Thread 0 is a consumer, and there is no other thread.
  abbrev pub alone : Pc A → ℕ → Pc A
  alone p zero = p
  alone p (suc i) = absent

  abbrev system : Shared A → Pc A → Main → System A
  system m p main = record { mem = m; pc = alone p; main = main }

  update-alone : (p p' : Pc A) → update (alone p) 0 p' ≡ alone p'
  update-alone p p' = fun_ext (λ i. at i)
    where
      at : (i : ℕ) → update (alone p) 0 p' i ≡ alone p' i
      at zero = ground arith
      at (suc i) = ground arith

  turn :
      {v : Variant} {s : System A} {m m' : Shared A} {p p' : Pc A} {main : Main}
      → Reach v s (system m p main)
      → Move v 0 m p m' p'
      → Reach v s (system m' p' main)
  turn {v} {s} {m} {m'} {p} {p'} {main} r mv =
      subst (λ pc. Reach v s (record { mem = m'; pc = pc; main = main })) (update-alone p p')
        (step r (move 0 mv))

  no-Move :
      {v : Variant} {i : ℕ} {m m' : Shared A} {p p' : Pc A}
      → Move v i m p m' p'
      → (p ≡ rem_blocked) ⊎ (p ≡ absent)
      → ⊥
  no-Move call_insert e = ground arith
  no-Move mv e = ground arith

  alone-cases : (p : Pc A) (i : ℕ) → (alone p i ≡ p) ⊎ (alone p i ≡ absent)
  alone-cases p zero = inl refl
  alone-cases p (suc i) = inr refl

  -- No thread can take a step.
  stuck : {v : Variant} {m : Shared A} {t : System A} → ¬ Step v (system m rem_blocked waiting) t
  stuck (move i mv) = no-Move mv (alone-cases rem_blocked i)
  stuck (signal i j e f) = ground (arith, alone-cases rem_blocked i)
  stuck (signal_none i e f) = ground (arith, alone-cases rem_blocked i)
  stuck (joined e w f) = cc
  stuck (set_flag e) = cc
  stuck (broadcast e) = cc

  -- The memory once the consumer has the lock, and when the flag is set.
  abbrev locked : List A → ℕ → Shared A
  locked storage size = record ((start storage size (alone consuming)).mem) { buf_lock = some 0 }

  abbrev flagged : List A → ℕ → Shared A
  flagged storage size = record (locked storage size) { shutdown = true }

  waits : (v : Variant) (storage : List A) (size : ℕ) → keeps_waiting v (locked storage size) ≡ true
  unfolding spool_init_shared spool_empty
  waits safe storage size = ground arith
  waits v storage size = ground arith

  on_empty-wake : (v : Variant) → v ≢ safe → on_empty {A = A} v ≡ rem_wake
  on_empty-wake safe h = absurd (h refl)
  on_empty-wake v h = refl

  wake_con-alone :
      (v : Variant) → ◌≡◌ {A = ℕ → Pc A} (λ j. wake_con v (alone rem_wait j)) (alone rem_wait)
  wake_con-alone v = fun_ext (λ j. at j)
    where
      at : (j : ℕ) → wake_con v (alone rem_wait j) ≡ alone rem_wait j
      at j = ground (arith, alone-cases rem_wait j)

  module _ (v : Variant) (condvars : v ≢ safe) (storage : List A) (size : ℕ) where
    abbrev first : System A
    first = start storage size (alone consuming)

    -- The consumer has found the spool empty and the flag unset, and has signalled nobody.
    tested : Reach v first (system (locked storage size) rem_wait joining)
    tested =
        subst (λ pc. Reach v first (record { mem = locked storage size; pc = pc; main = joining }))
          (update-alone rem_wake rem_wait)
          (step found (signal_none 0 refl (λ j e. ground (arith, alone-cases rem_wake j))))
      where
        found : Reach v first (system (locked storage size) rem_wake joining)
        found =
            subst (λ p. Reach v first (system (locked storage size) p joining))
              (on_empty-wake v condvars)
              (turn (turn (turn here call_remove) (rem_acquire refl))
                (rem_empty (waits v storage size)))

    -- The main thread sets the flag and broadcasts; the consumer is not in pthread_cond_wait yet.
    broadcasted : Reach v first (system (flagged storage size) rem_wait waiting)
    broadcasted =
        subst (λ pc. Reach v first (record { mem = flagged storage size; pc = pc; main = waiting }))
          (wake_con-alone v)
          (step (step (step tested (joined refl condvars (λ i. none_inserts i))) (set_flag refl))
            (broadcast refl))
      where
        none_inserts : (i : ℕ) → inserting (alone rem_wait i) ≡ false
        none_inserts i = ground (arith, alone-cases rem_wait i)

    -- In the variants with condition variables, whatever the storage and the size, one consumer and
    -- no producer can come to a state in which the shutdown has been flagged and broadcast, the lock
    -- is free, the consumer waits for a signal, and neither it nor the main thread can take a step.
    pub shutdown_missed :
        (s : System A) × Reach v first s
        × (s.mem.shutdown ≡ true)
        × (s.mem.buf_lock ≡ none)
        × (s.main ≡ waiting)
        × (s.pc 0 ≡ rem_blocked)
        × ((t : System A) → ¬ Step v s t)
    shutdown_missed = (_, turn broadcasted rem_block, refl, refl, refl, refl, λ t. stuck)
