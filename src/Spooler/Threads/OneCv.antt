-- ===== src/Spooler/Threads/OneCv.antt =====
-- With one condition variable and a consumer, the threads do not come to a stop while a producer has
-- strings to insert.
use operating_systems_and_sy.Prelude.{
  ℕ, ◌≡◌, ◌≤◌, inl, inr, refl, ◌∙◌, true, false, List, [], ◌∷◌, Option-cases, arith,
}
use operating_systems_and_sy.Spooler.Threads.Thread.{one_cv, Pc, producing, consuming, absent}
use operating_systems_and_sy.Spooler.Threads.System.{
  wake_con, inserting, System, Step, Spurious, move, signal, signal_none, joined, set_flag,
  broadcast, wake_up, Reach, here, step, spurious, start, IsInitial,
}
use operating_systems_and_sy.Spooler.Threads.Invariant.{Inv, start-Inv, Step-Inv, Spurious-Inv}
use operating_systems_and_sy.Spooler.Threads.Progress.{live, holds-live, live-Step}
use operating_systems_and_sy.Spooler.Threads.Progress.Owner.{
  Owned, consumes, Step-Owned, Step-consumes, Spurious-kept,
}
use operating_systems_and_sy.Spooler.Threads.Safety.{Setup}
use operating_systems_and_sy.Spooler.Threads.Progress.{total}
use operating_systems_and_sy.Spooler.Threads.Strings.{weigh, to_insert, Counts, Reach-Counts}
use operating_systems_and_sy.Spooler.Ring.{spool_init_shared}
use operating_systems_and_sy.Spooler.Threads.Progress.Passing.{passed, awake-inserting}
use operating_systems_and_sy.Spooler.Threads.Progress.Relay.{
  Relay, moved-Relay, signal-Relay, wake_up-Relay, signal_none-Relay,
}

module _ {A : Type 0} where
  -- What is needed of a reachable state.
  record Kept (c : ℕ) (s : System A) : Type 0 where
    q : List A
    inv : Inv one_cv s q
    relay : Relay s.pc
    owned : Owned s.mem s.pc
    consumer : consumes (s.pc c) ≡ true

  -- No producer is at work.
  idle-Relay : (pc : ℕ → Pc A) → ((j : ℕ) → inserting (pc j) ≡ false) → Relay pc
  idle-Relay pc done = record {
    someone = λ j h. absurd (cc (done j, h));
    another = λ i j e h. absurd (cc (done j, h));
  }

  Step-Relay : {c : ℕ} {s t : System A} → Step one_cv s t → Kept c s → Relay t.pc
  Step-Relay (move i mv) k = moved-Relay k.inv k.relay i mv
  Step-Relay (signal i j e f) k = signal-Relay k.inv k.relay i j e f
  Step-Relay {c} (signal_none i e nobody) k =
      signal_none-Relay k.inv k.relay c k.consumer i e nobody
  Step-Relay (joined e ne done) k = k.relay
  Step-Relay (set_flag e) k = k.relay
  Step-Relay {s = s} (broadcast e) k =
      idle-Relay (λ j. wake_con one_cv (s.pc j))
        (λ j. awake-inserting (s.pc j) ∙ k.inv.all_joined (λ x. cc (e, x)) j)

  Spurious-Relay : {c : ℕ} {s t : System A} → Spurious one_cv s t → Kept c s → Relay t.pc
  Spurious-Relay (wake_up j e) k = wake_up-Relay k.inv k.relay j e

  Reach-Kept : {c : ℕ} {s t : System A} → Reach one_cv s t → Kept c s → Kept c t
  Reach-Kept here k = k
  Reach-Kept {c} (step r st) k =
      let before = Reach-Kept r k in
      let (q', inv') = Step-Inv st before.inv in
      record {
        q = q';
        inv = inv';
        relay = Step-Relay st before;
        owned = Step-Owned st before.owned;
        consumer = Step-consumes c st before.consumer;
      }
  Reach-Kept {c} (spurious r w) k =
      let before = Reach-Kept r k in
      let (consumer', owned') = Spurious-kept c w in
      record {
        q = before.q;
        inv = Spurious-Inv w before.inv;
        relay = Spurious-Relay w before;
        owned = owned' before.owned;
        consumer = consumer' before.consumer;
      }

  initial : (p : Pc A) → IsInitial p → (inserting p ≡ true → live p ≡ true) × (passed p ≡ false)
  initial (producing []) h = (λ e. e, refl)
  initial (producing (a ∷ l)) h = (λ e. refl, refl)
  initial consuming h = (λ e. refl, refl)
  initial absent h = (λ e. e, refl)
  initial p h = absurd h

  start-Kept :
      (storage : List A) (size : ℕ) (pc : ℕ → Pc A) (c : ℕ)
      → Setup storage size pc
      → pc c ≡ consuming
      → Kept c (start storage size pc)
  start-Kept storage size pc c setup e = record {
    q = [];
    inv = start-Inv one_cv storage size pc setup.some_room setup.small setup.fits setup.threads;
    relay = record {
      someone = λ j h. (j, (initial (pc j) (setup.threads j)).0 h);
      another = λ i j f h. absurd (cc (f, (initial (pc i) (setup.threads i)).1));
    };
    owned = λ i h. cc;
    consumer = rw e refl;
  }

  -- Finitely many threads go on.
  live_can :
      (n : ℕ) {s : System A} (i : ℕ)
      → ((j : ℕ) → n ≤ j → s.pc j ≡ absent)
      → Owned s.mem s.pc
      → live (s.pc i) ≡ true
      → (t : System A) × Step one_cv s t
  live_can n {s} i outside owned lv = elim (Option-cases s.mem.buf_lock) [
    | inl free ↦ live-Step one_cv n outside i (s.pc i) refl lv (inr free)
    | inr (j, taken) ↦
        let held = owned j taken in
        live-Step one_cv n outside j (s.pc j) refl (holds-live (s.pc j) held) (inl held)
  ]

  -- There are no more threads than at the start.
  none_added :
      (storage : List A) (size : ℕ) (pc : ℕ → Pc A) (n : ℕ)
      → ((i : ℕ) → n ≤ i → pc i ≡ absent)
      → {s : System A} → Reach one_cv (start storage size pc) s
      → (i : ℕ) → n ≤ i
      → s.pc i ≡ absent
  unfolding spool_init_shared weigh
  none_added storage size pc n outside r =
      let g : A → ℕ = λ a. 0 in
      let first : Counts g n (total (to_insert g) n pc) size (start storage size pc).mem pc =
        record { outside = outside; sum = omega arith; size = refl } in
      (Reach-Counts g one_cv r first).outside

  -- With one condition variable and at least one consumer among finitely many threads: in every state that
  -- is reached from a setup of the threads and in which some producer has still strings to insert or has
  -- not returned from an insertion, some thread can take a step, without a spurious wake-up.
  pub one_cv_goes_on :
      (storage : List A) (size : ℕ) (pc : ℕ → Pc A) (n c : ℕ)
      → Setup storage size pc
      → ((i : ℕ) → n ≤ i → pc i ≡ absent)
      → pc c ≡ consuming
      → {s : System A} → Reach one_cv (start storage size pc) s
      → (j : ℕ) → inserting (s.pc j) ≡ true
      → (t : System A) × Step one_cv s t
  one_cv_goes_on storage size pc n c setup outside e r j busy =
      let k = Reach-Kept r (start-Kept storage size pc c setup e) in
      let (i, lv) = k.relay.someone j busy in
      live_can n i (none_added storage size pc n outside r) k.owned lv
