-- ===== src/Spooler/Threads/System.antt =====
-- The threads together: signals, the main thread of Spooler/main.c, and the reachable states.
pub use operating_systems_and_sy.Prelude.{update}
use operating_systems_and_sy.Prelude.{
  ℕ, ◌≡◌, ◌≢◌, Bool, true, false, Option, none, some, List, [], ◌∷◌,
}
use operating_systems_and_sy.Spooler.Ring.{spool_init_shared}
use operating_systems_and_sy.Spooler.Threads.Thread.{
  Variant, safe, two_cv, Cv, con, pro, Shared, Pc, producing, ins_lock, ins_test, ins_retry,
  ins_wake, ins_wait, ins_blocked, ins_woken, ins_signal, ins_unlock, consuming, rem_wake, rem_wait,
  rem_blocked, rem_woken, rem_signal, rem_unlock, absent, Move,
}

-- Where `run_threads` stands, once it has created the threads.
pub data Main : Type 0 where
  joining : Main  -- waits for the producers
  flagging : Main  -- `spool_shutdown_efficient`: before `sp->shutdown = true`
  broadcasting : Main  -- before pthread_cond_broadcast
  waiting : Main  -- waits for the consumers

-- The condition variable on which a producer waits for a free slot.
abbrev pub producers_cv : Variant → Cv
producers_cv two_cv = pro
producers_cv _ = con

module _ {A : Type 0} where
  -- The call of pthread_cond_signal that a thread is about to make, and where it stands after it.
  abbrev pub signals : Variant → Pc A → Option (Cv × Pc A)
  signals v (ins_wake a l) = some (con, ins_wait a l)
  signals v (ins_signal l) = some (con, ins_unlock l)
  signals v rem_wake = some (producers_cv v, rem_wait)
  signals v (rem_signal r) = some (producers_cv v, rem_unlock r)
  signals v _ = none

  abbrev pub blocked_on : Variant → Pc A → Option Cv
  blocked_on v (ins_blocked a l) = some (producers_cv v)
  blocked_on v rem_blocked = some con
  blocked_on v _ = none

  abbrev pub wake : Pc A → Pc A
  wake (ins_blocked a l) = ins_woken a l
  wake rem_blocked = rem_woken
  wake p = p

  -- pthread_cond_broadcast on `con_cv`
  abbrev pub wake_con : Variant → Pc A → Pc A
  wake_con two_cv (ins_blocked a l) = ins_blocked a l
  wake_con _ p = wake p

  -- The thread is a producer that has not returned.
  abbrev pub inserting : Pc A → Bool
  inserting (producing []) = false
  inserting (producing (a ∷ l)) = true
  inserting (ins_lock a l) = true
  inserting (ins_test a l) = true
  inserting (ins_retry a l) = true
  inserting (ins_wake a l) = true
  inserting (ins_wait a l) = true
  inserting (ins_blocked a l) = true
  inserting (ins_woken a l) = true
  inserting (ins_signal l) = true
  inserting (ins_unlock l) = true
  inserting _ = false

-- Thread `i` stands at `pc i`; an index with no thread is `absent`.
pub record System (A : Type 0) : Type 0 where
  pub mem : Shared A
  pub pc : ℕ → Pc A
  pub main : Main

module _ {A : Type 0} where
  -- `spool_shutdown` does nothing in part 2.
  pub data Step (v : Variant) (s : System A) : System A → Type 0 where
    move :
        (i : ℕ) {m : Shared A} {p : Pc A}
        → Move v i s.mem (s.pc i) m p
        → Step v s (record s { mem = m; pc = update s.pc i p })
    signal :
        (i j : ℕ) {c : Cv} {p : Pc A}
        → signals v (s.pc i) ≡ some (c, p)
        → blocked_on v (s.pc j) ≡ some c
        → Step v s (record s { pc = update (update s.pc i p) j (wake (s.pc j)) })
    signal_none :
        (i : ℕ) {c : Cv} {p : Pc A}
        → signals v (s.pc i) ≡ some (c, p)
        → ((j : ℕ) → blocked_on v (s.pc j) ≢ some c)
        → Step v s (record s { pc = update s.pc i p })
    joined :
        s.main ≡ joining
        → v ≢ safe
        → ((i : ℕ) → inserting (s.pc i) ≡ false)
        → Step v s (record s { main = flagging })
    set_flag :
        s.main ≡ flagging
        → Step v s (record s { mem = record (s.mem) { shutdown = true }; main = broadcasting })
    broadcast :
        s.main ≡ broadcasting
        → Step v s (record s { pc = λ j. wake_con v (s.pc j); main = waiting })

  -- pthread_cond_wait may also return with no signal.
  pub data Spurious (v : Variant) (s : System A) : System A → Type 0 where
    wake_up :
        (j : ℕ) {c : Cv}
        → blocked_on v (s.pc j) ≡ some c
        → Spurious v s (record s { pc = update s.pc j (wake (s.pc j)) })

  -- `run_threads`, with the threads created: each is a producer with its strings, or a consumer.
  abbrev pub IsInitial : Pc A → Type 0
  IsInitial (producing l) = Unit {0}
  IsInitial consuming = Unit {0}
  IsInitial absent = Unit {0}
  IsInitial _ = ⊥

  abbrev pub start : List A → ℕ → (ℕ → Pc A) → System A
  start storage size pc = record {
    mem = record {
      spool = spool_init_shared storage size;
      buf_lock = none;
      shutdown = false;
      inserted = [];
      removed = [];
    };
    pc = pc;
    main = joining;
  }

  pub data Reach (v : Variant) (s : System A) : System A → Type 0 where
    here : Reach v s s
    step : {t u : System A} → Reach v s t → Step v t u → Reach v s u
    spurious : {t u : System A} → Reach v s t → Spurious v t u → Reach v s u
