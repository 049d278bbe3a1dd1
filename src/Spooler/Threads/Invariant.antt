-- ===== src/Spooler/Threads/Invariant.antt =====
-- The invariant holds at the start, and every step keeps it.
mod Defs
mod Moves
pub use Defs.*
use Moves.{Move-Inv}
use operating_systems_and_sy.Prelude.{
  ℕ, ◌<◌, ◌≤◌, ◌^◌, length, ◌≡◌, refl, ◌≢◌, ◌∙◌, sym, ap, Bool, true, false, not, ◌&&◌, Option,
  none, some, List, [], ◌∷◌, ◌++◌, ℕ_discrete, Bool-cases, inl, inr, arith, append_assoc,
}
use operating_systems_and_sy.Spooler.Ring.{
  Spool, spool_init_shared, spool_empty, spool_full, spool_insert_unchecked, spool_remove_unchecked,
}
use operating_systems_and_sy.Spooler.Ring.Fifo.{
  Represents, insert-Represents, remove-Represents, init-Represents,
}
use operating_systems_and_sy.Spooler.Threads.Thread.{
  Variant, safe, one_cv, two_cv, Cv, con, pro, Shared, Pc, producing, ins_lock, ins_test, ins_retry,
  ins_wake, ins_wait, ins_blocked, ins_woken, ins_signal, ins_unlock, consuming, rem_lock, rem_test,
  rem_retry, rem_wake, rem_wait, rem_blocked, rem_woken, rem_signal, rem_unlock, finished, absent,
  Move, call_insert, ins_acquire, ins_full, ins_store, ins_give_up, ins_block, ins_reacquire,
  ins_release, call_remove, rem_acquire, rem_empty, rem_take, rem_give_up, rem_block, rem_reacquire,
  rem_release, insert_step, remove_step, keeps_waiting, on_full, on_empty, after_insert,
  after_remove, log_removed,
}
use operating_systems_and_sy.Spooler.Threads.System.{
  Main, joining, flagging, broadcasting, waiting, update, signals, blocked_on, wake, wake_con,
  inserting, System, Step, Spurious, move, signal, signal_none, joined, set_flag, broadcast,
  wake_up, Reach, here, step, spurious, start, IsInitial,
}

module _ {A : Type 0} where
  -- A signal or a broadcast moves threads, and gives none of them the lock, a NULL or a string.
  record Quiet (pc pc' : ℕ → Pc A) : Type 0 where
    no_lock : (j : ℕ) → holds (pc' j) ≡ true → holds (pc j) ≡ true
    no_null : (j : ℕ) → got_null (pc' j) ≡ true → got_null (pc j) ≡ true
    no_string : (j : ℕ) → inserting (pc j) ≡ false → inserting (pc' j) ≡ false

  Quiet-Inv :
      {v : Variant} {s : System A} {q : List A} {pc' : ℕ → Pc A}
      → Inv v s q
      → Quiet s.pc pc'
      → Inv v (record s { pc = pc' }) q
  Quiet-Inv inv z = record {
    log = inv.log;
    owns = λ j h. inv.owns j (z.no_lock j h);
    all_joined = λ w j. z.no_string j (inv.all_joined w j);
    flagged = inv.flagged;
    never_joined = inv.never_joined;
    nulls = λ j h. inv.nulls j (z.no_null j h);
  }

  Quiet-trans : {p q r : ℕ → Pc A} → Quiet p q → Quiet q r → Quiet p r
  Quiet-trans y z = record {
    no_lock = λ j h. y.no_lock j (z.no_lock j h);
    no_null = λ j h. y.no_null j (z.no_null j h);
    no_string = λ j h. z.no_string j (y.no_string j h);
  }

  signalled :
      (v : Variant) {c : Cv} (p p' : Pc A)
      → signals v p ≡ some (c, p')
      → (holds p ≡ true) × (got_null p' ≡ got_null p) × (inserting p' ≡ inserting p)
  signalled v (ins_wake a l) p' e = ground arith
  signalled v (rem_signal none) p' e = ground arith
  signalled v (rem_signal (some a)) p' e = ground arith
  signalled v p p' e = ground arith

  woken :
      (p : Pc A)
      → (holds (wake p) ≡ holds p)
        × (got_null (wake p) ≡ got_null p)
        × (inserting (wake p) ≡ inserting p)
  woken (ins_blocked a l) = (refl, refl, refl)
  woken p = (refl, refl, refl)

  broadcast_woken :
      (v : Variant) (p : Pc A)
      → (holds (wake_con v p) ≡ holds p)
        × (got_null (wake_con v p) ≡ got_null p)
        × (inserting (wake_con v p) ≡ inserting p)
  broadcast_woken two_cv (ins_blocked a l) = (refl, refl, refl)
  broadcast_woken v p = woken p

  signal-Quiet :
      (v : Variant) {c : Cv} {p : Pc A} (pc : ℕ → Pc A) (i : ℕ)
      → signals v (pc i) ≡ some (c, p)
      → Quiet pc (update pc i p)
  signal-Quiet v {p = p} pc i e = record {
    no_lock = λ j h. ground (arith, signalled v (pc i) p e);
    no_null = λ j h. ground (arith, signalled v (pc i) p e);
    no_string = λ j h. ground (arith, signalled v (pc i) p e);
  }

  wake-Quiet : (pc pc' : ℕ → Pc A) (j : ℕ) → pc' j ≡ pc j → Quiet pc' (update pc' j (wake (pc j)))
  wake-Quiet pc pc' j e = record {
    no_lock = λ k h. ground (arith, woken (pc j));
    no_null = λ k h. ground (arith, woken (pc j));
    no_string = λ k h. ground (arith, woken (pc j));
  }

  both :
      (v : Variant) {c d : Cv} {p' : Pc A} (p : Pc A)
      → signals v p ≡ some (c, p')
      → blocked_on v p ≡ some d
      → ⊥
  both v (ins_blocked a l) e f = cc
  both v rem_blocked e f = cc
  both v p e f = cc

  broadcast-Quiet : (v : Variant) (pc : ℕ → Pc A) → Quiet pc (λ j. wake_con v (pc j))
  broadcast-Quiet v pc = record {
    no_lock = λ j h. sym (broadcast_woken v (pc j)).0 ∙ h;
    no_null = λ j h. sym (broadcast_woken v (pc j)).1 ∙ h;
    no_string = λ j h. (broadcast_woken v (pc j)).2 ∙ h;
  }

  -- The thread that signals is not the one that is woken.
  pub other :
      (v : Variant) {c d : Cv} {p' : Pc A} (pc : ℕ → Pc A) (i j : ℕ)
      → signals v (pc i) ≡ some (c, p')
      → blocked_on v (pc j) ≡ some d
      → update pc i p' j ≡ pc j
  other v {c} {d} {p'} pc i j e f = elim (ℕ_discrete i j) [
    | yes same ↦
        let e' : signals v (pc j) ≡ some (c, p') = rw (← same) e in absurd (both v (pc j) e' f)
    | no differ ↦ ground arith
  ]

  pub Step-Inv :
      {v : Variant} {s t : System A} {q : List A}
      → Step v s t
      → Inv v s q
      → (q' : List A) × Inv v t q'
  Step-Inv (move i mv) inv = Move-Inv inv i mv
  Step-Inv {v} {s} {q = q} (signal i j e f) inv = (
    q,
    Quiet-Inv inv
        (Quiet-trans (signal-Quiet v s.pc i e) (wake-Quiet s.pc _ j (other v s.pc i j e f))),
  )
  Step-Inv {v} {s} {q = q} (signal_none i e f) inv = (q, Quiet-Inv inv (signal-Quiet v s.pc i e))
  Step-Inv {q = q} (joined e w f) inv = (
    q,
    record {
      log = inv.log;
      owns = inv.owns;
      all_joined = λ _. f;
      flagged = λ _ k. cc;
      never_joined = λ k. absurd (w k);
      nulls = inv.nulls;
    },
  )
  Step-Inv {q = q} (set_flag e) inv = (
    q,
    record {
      log = record { ring = inv.log.ring; balance = inv.log.balance };
      owns = inv.owns;
      all_joined = λ _. inv.all_joined (rw e (λ k. cc));
      flagged = λ _ k. cc;
      never_joined = λ k. cc (inv.never_joined k);
      nulls = λ i h. (refl, (inv.nulls i h).1);
    },
  )
  Step-Inv {v} {s} {q = q} (broadcast e) inv =
      let quiet = broadcast-Quiet v s.pc in
      let inv' = Quiet-Inv inv quiet in
      (
        q,
        record {
          log = inv'.log;
          owns = inv'.owns;
          all_joined = λ _. inv'.all_joined (rw e (λ k. cc));
          flagged = λ _ k. cc;
          never_joined = λ k. cc (inv.never_joined k);
          nulls = inv'.nulls;
        },
      )

  pub Spurious-Inv :
      {v : Variant} {s t : System A} {q : List A} → Spurious v s t → Inv v s q → Inv v t q
  Spurious-Inv {s = s} (wake_up j e) inv = Quiet-Inv inv (wake-Quiet s.pc s.pc j refl)

  initial_facts : (p : Pc A) → IsInitial p → (holds p ≡ false) × (got_null p ≡ false)
  initial_facts (producing l) h = (refl, refl)
  initial_facts consuming h = (refl, refl)
  initial_facts absent h = (refl, refl)
  initial_facts p h = absurd h

  pub start-Inv :
      (v : Variant) (storage : List A) (size : ℕ) (pc : ℕ → Pc A)
      → 0 < size
      → size < 2 ^ 63
      → size ≤ length storage
      → ((i : ℕ) → IsInitial (pc i))
      → Inv v (start storage size pc) []
  start-Inv v storage size pc pos small room init = record {
    log = record { ring = init-Represents storage size pos small room; balance = refl };
    owns = λ i h. cc ((initial_facts (pc i) (init i)).0);
    all_joined = λ w. absurd (w refl);
    flagged = λ h. cc;
    never_joined = λ _. refl;
    nulls = λ i h. cc ((initial_facts (pc i) (init i)).1);
  }

  -- The invariant holds in every state that the threads reach.
  pub Reach-Inv :
      {v : Variant} {s t : System A}
      → Reach v s t
      → (q : List A) × Inv v s q
      → (q : List A) × Inv v t q
  Reach-Inv here h = h
  Reach-Inv (step r st) h = Step-Inv st (Reach-Inv r h).1
  Reach-Inv (spurious r w) h = ((Reach-Inv r h).0, Spurious-Inv w (Reach-Inv r h).1)
