-- ===== src/Spooler/Threads/Progress/Stuck.antt =====
-- With two condition variables and a consumer, the threads do not come to a stop while a producer has
-- strings to insert.
use operating_systems_and_sy.Prelude.{
  ℕ, ◌<◌, ◌≤◌, ◌≡◌, ◌≢◌, ◌⊎◌, inl, inr, refl, true, false, List, [], ◌∷◌, Option-cases, arith,
}
use operating_systems_and_sy.Spooler.Threads.Thread.{
  two_cv, Pc, producing, ins_blocked, consuming, rem_blocked, finished, absent,
}
use operating_systems_and_sy.Spooler.Threads.System.{
  inserting, System, Step, Reach, here, step, spurious, start, IsInitial,
}
use operating_systems_and_sy.Spooler.Threads.Invariant.{
  got_null, Inv, start-Inv, Step-Inv, Spurious-Inv,
}
use operating_systems_and_sy.Spooler.Threads.Safety.{Setup}
use operating_systems_and_sy.Spooler.Threads.Progress.Count.{
  zero_or_pos, total, le-total, total_pos, total_zero,
}
use operating_systems_and_sy.Spooler.Threads.Progress.Waits.{
  waits_con, for_con, waits_pro, for_pro, saw_empty, saw_full,
}
use operating_systems_and_sy.Spooler.Threads.Progress.Steps.{Outweighed, inside}
use operating_systems_and_sy.Spooler.Threads.Progress.Signals.{Step-Outweighed}
use operating_systems_and_sy.Spooler.Threads.Progress.Wakes.{Spurious-Outweighed}
use operating_systems_and_sy.Spooler.Threads.Progress.Moving.{live, holds-live, live-Step}
use operating_systems_and_sy.Spooler.Threads.Progress.Owner.{
  Owned, consumes, Step-Owned, Step-consumes, Spurious-kept,
}

module _ {A : Type 0} where
  -- What is needed of a reachable state.
  record Kept (n c : ℕ) (s : System A) : Type 0 where
    q : List A
    inv : Inv two_cv s q
    waits : Outweighed n s.mem s.pc
    owned : Owned s.mem s.pc
    consumer : consumes (s.pc c) ≡ true

  Reach-Kept : {n c : ℕ} {s t : System A} → Reach two_cv s t → Kept n c s → Kept n c t
  Reach-Kept here k = k
  Reach-Kept {n} {c} (step r st) k =
      let before = Reach-Kept r k in
      let (q', inv') = Step-Inv st before.inv in
      record {
        q = q';
        inv = inv';
        waits = Step-Outweighed n st before.inv before.waits;
        owned = Step-Owned st before.owned;
        consumer = Step-consumes c st before.consumer;
      }
  Reach-Kept {n} {c} (spurious r w) k =
      let before = Reach-Kept r k in
      let (consumer', owned') = Spurious-kept c w in
      record {
        q = before.q;
        inv = Spurious-Inv w before.inv;
        waits = Spurious-Outweighed n w before.waits;
        owned = owned' before.owned;
        consumer = consumer' before.consumer;
      }

  initial :
      (p : Pc A)
      → IsInitial p
      → (waits_con p ≡ 0) × (waits_pro p ≡ 0) × (saw_empty p ≡ false) × (saw_full p ≡ false)
  initial (producing l) h = (refl, refl, refl, refl)
  initial consuming h = (refl, refl, refl, refl)
  initial absent h = (refl, refl, refl, refl)
  initial p h = absurd h

  start-Kept :
      (storage : List A) (size : ℕ) (pc : ℕ → Pc A) (n c : ℕ)
      → Setup storage size pc
      → ((i : ℕ) → n ≤ i → pc i ≡ absent)
      → pc c ≡ consuming
      → Kept n c (start storage size pc)
  start-Kept storage size pc n c setup outside e = record {
    q = [];
    inv = start-Inv two_cv storage size pc setup.some_room setup.small setup.fits setup.threads;
    waits = record {
      outside = outside;
      strings = λ pos.
          absurd
            (omega (arith, total_zero waits_con n pc (λ i. (initial (pc i) (setup.threads i)).0)));
      slots = λ pos.
          absurd
            (omega (arith, total_zero waits_pro n pc (λ i. (initial (pc i) (setup.threads i)).1)));
      empty = λ i h. cc ((initial (pc i) (setup.threads i)).2);
      full = λ i h. cc ((initial (pc i) (setup.threads i)).3);
    };
    owned = λ i h. cc;
    consumer = rw e refl;
  }

  for_con-live : (p : Pc A) → 0 < for_con p → live p ≡ true
  for_con-live (producing l) h = absurd (omega arith)
  for_con-live p h = ground arith

  for_pro-live : (p : Pc A) → 0 < for_pro p → live p ≡ true
  for_pro-live (producing l) h = absurd (omega arith)
  for_pro-live p h = ground arith

  inserting-cases : (p : Pc A) → inserting p ≡ true → (live p ≡ true) ⊎ (waits_pro p ≡ 1)
  inserting-cases (producing []) h = absurd (cc)
  inserting-cases (producing (a ∷ l)) h = inl refl
  inserting-cases (ins_blocked a l) h = inr refl
  inserting-cases p h = ground arith

  consumes-cases :
      (p : Pc A) → consumes p ≡ true → (live p ≡ true) ⊎ (waits_con p ≡ 1) ⊎ (got_null p ≡ true)
  consumes-cases (producing l) h = absurd (cc)
  consumes-cases rem_blocked h = inr (inl refl)
  consumes-cases finished h = inr (inr refl)
  consumes-cases p h = ground arith

  waits_con-present : (p : Pc A) → waits_con p ≡ 1 → p ≢ absent
  waits_con-present absent h e = absurd (omega arith)
  waits_con-present p h e = cc

  waits_pro-present : (p : Pc A) → waits_pro p ≡ 1 → p ≢ absent
  waits_pro-present absent h e = absurd (omega arith)
  waits_pro-present p h e = cc

  module _ (n c : ℕ) {s : System A} (k : Kept n c s) where
    open k use {inv, waits, owned, consumer}

    live_can : (i : ℕ) → live (s.pc i) ≡ true → (t : System A) × Step two_cv s t
    live_can i lv = elim (Option-cases s.mem.buf_lock) [
      | inl free ↦ live-Step two_cv n waits.outside i (s.pc i) refl lv (inr free)
      | inr (j, taken) ↦
          let held = owned j taken in
          live-Step two_cv n waits.outside j (s.pc j) refl (holds-live (s.pc j) held) (inl held)
    ]

    -- Threads that come or signal outweigh those that wait, so one of them can take a step.
    coming_can :
        (f : Pc A → ℕ)
        → ((p : Pc A) → 0 < f p → live p ≡ true)
        → 0 < total f n s.pc
        → (t : System A) × Step two_cv s t
    coming_can f lively pos =
        let (i, lt, some_i) = total_pos f n s.pc pos in live_can i (lively (s.pc i) some_i)

    -- The ring is full, and a producer is not done.
    full_can :
        (j : ℕ)
        → inserting (s.pc j) ≡ true
        → s.mem.spool.capacity ≡ 0
        → (t : System A) × Step two_cv s t
    full_can j busy full = elim (consumes-cases (s.pc c) consumer) [
      | inl lv ↦ live_can c lv
      | inr (inl waiting') ↦
          let lt : c < n = inside c waits (waits_con-present (s.pc c) waiting') in
          coming_can for_con for_con-live (
            omega (
              arith,
              waits.strings (omega (arith, le-total waits_con n c s.pc lt)),
              inv.log.ring.valid.some_room,
            ))
      | inr (inr null) ↦
          let (flag, empty) = inv.nulls c null in
          let done = inv.all_joined (inv.flagged flag) j in absurd (cc)
    ]

    busy_can : (j : ℕ) → inserting (s.pc j) ≡ true → (t : System A) × Step two_cv s t
    busy_can j busy = elim (inserting-cases (s.pc j) busy) [
      | inl lv ↦ live_can j lv
      | inr waiting' ↦
          let lt : j < n = inside j waits (waits_pro-present (s.pc j) waiting') in
          let few = waits.slots (omega (arith, le-total waits_pro n j s.pc lt)) in
          elim (zero_or_pos s.mem.spool.capacity) [
            | inl full ↦ full_can j busy full
            | inr room ↦ coming_can for_pro for_pro-live (omega arith)
          ]
    ]

  -- With two condition variables and at least one consumer among finitely many threads: in every state that is
  -- reached from a setup of the threads and in which some producer has still strings to insert or has
  -- not returned from an insertion, some thread can take a step, without a spurious wake-up.
  pub two_cv_goes_on :
      (storage : List A) (size : ℕ) (pc : ℕ → Pc A) (n c : ℕ)
      → Setup storage size pc
      → ((i : ℕ) → n ≤ i → pc i ≡ absent)
      → pc c ≡ consuming
      → {s : System A} → Reach two_cv (start storage size pc) s
      → (j : ℕ) → inserting (s.pc j) ≡ true
      → (t : System A) × Step two_cv s t
  two_cv_goes_on storage size pc n c setup outside e r j busy =
      busy_can n c (Reach-Kept r (start-Kept storage size pc n c setup outside e)) j busy
