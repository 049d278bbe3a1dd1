-- ===== src/Spooler/Threads/Invariant/Defs.antt =====
-- The invariant of the threads: who has the lock, which strings the spool holds, and what a
-- shutdown and a NULL tell.
use operating_systems_and_sy.Prelude.{ℕ, ◌≡◌, ◌≢◌, Bool, true, false, none, some, List, [], ◌++◌}
use operating_systems_and_sy.Spooler.Ring.Fifo.{Represents}
use operating_systems_and_sy.Spooler.Threads.Thread.{
  Variant, safe, Shared, Pc, ins_test, ins_retry, ins_wake, ins_wait, ins_signal, ins_unlock,
  rem_test, rem_retry, rem_wake, rem_wait, rem_signal, rem_unlock, finished,
}
use operating_systems_and_sy.Spooler.Threads.System.{joining, inserting, System}

module _ {A : Type 0} where
  -- Between pthread_mutex_lock and pthread_mutex_unlock.
  abbrev pub holds : Pc A → Bool
  holds (ins_test a l) = true
  holds (ins_retry a l) = true
  holds (ins_wake a l) = true
  holds (ins_wait a l) = true
  holds (ins_signal l) = true
  holds (ins_unlock l) = true
  holds rem_test = true
  holds rem_retry = true
  holds rem_wake = true
  holds rem_wait = true
  holds (rem_signal r) = true
  holds (rem_unlock r) = true
  holds _ = false

  -- The thread has got NULL from its removal.
  abbrev pub got_null : Pc A → Bool
  got_null (rem_signal none) = true
  got_null (rem_unlock none) = true
  got_null finished = true
  got_null _ = false

  -- The strings of `q` are in the spool `sp`, and all that went in is what came out and `q`.
  pub record Logged (m : Shared A) (q : List A) : Type 0 where
    pub ring : Represents m.spool q
    pub balance : m.inserted ≡ m.removed ++ q

  pub record Inv (v : Variant) (s : System A) (q : List A) : Type 0 where
    pub log : Logged s.mem q
    pub owns : (i : ℕ) → holds (s.pc i) ≡ true → s.mem.buf_lock ≡ some i
    pub all_joined : s.main ≢ joining → (i : ℕ) → inserting (s.pc i) ≡ false
    pub flagged : s.mem.shutdown ≡ true → s.main ≢ joining
    pub never_joined : v ≡ safe → s.main ≡ joining
    pub nulls : (i : ℕ) → got_null (s.pc i) ≡ true → (s.mem.shutdown ≡ true) × (q ≡ [])
