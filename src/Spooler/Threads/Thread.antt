-- ===== src/Spooler/Threads/Thread.antt =====
-- One producer or consumer thread, a pthread call or a guarded access of the spool at a time.
use operating_systems_and_sy.Prelude.{
  ℕ, ◌≡◌, Bool, true, false, not, ◌&&◌, Option, none, some, List, [], ◌∷◌, ◌++◌,
}
use operating_systems_and_sy.Spooler.Ring.{
  Spool, spool_empty, spool_full, spool_insert_unchecked, spool_remove_unchecked,
}

-- PART2, PART3 and PART4 of the sources.
pub data Variant : Type 0 where
  safe one_cv two_cv : Variant

-- The condition variables `con_cv` and `pro_cv`.
pub data Cv : Type 0 where
  con pro : Cv

-- The spool with its lock and its flag. `inserted` and `removed` log the strings that went in and
-- out, in the order of the calls under the lock; the program does not keep them.
pub record Shared (A : Type 0) : Type 0 where
  pub spool : Spool A
  pub buf_lock : Option ℕ
  pub shutdown : Bool
  pub inserted : List A
  pub removed : List A

-- Where a thread stands. A producer carries the strings that it has still to insert.
pub data Pc (A : Type 0) : Type 0 where
  producing : List A → Pc A  -- head of the loop in `producer`
  ins_lock : A → List A → Pc A  -- before pthread_mutex_lock
  ins_test : A → List A → Pc A  -- at the test of `spool_full`, with the lock
  ins_retry : A → List A → Pc A  -- `spool_insert_safe`, full: before pthread_mutex_unlock
  ins_wake : A → List A → Pc A  -- full: before pthread_cond_signal
  ins_wait : A → List A → Pc A  -- before pthread_cond_wait
  ins_blocked : A → List A → Pc A  -- in pthread_cond_wait, without the lock
  ins_woken : A → List A → Pc A  -- in pthread_cond_wait, to take the lock again
  ins_signal : List A → Pc A  -- stored: before pthread_cond_signal
  ins_unlock : List A → Pc A  -- stored: before pthread_mutex_unlock
  consuming : Pc A  -- head of the loop in `consumer`
  rem_lock rem_test rem_retry rem_wake rem_wait rem_blocked rem_woken : Pc A
  rem_signal : Option A → Pc A  -- with the string that was taken, or NULL
  rem_unlock : Option A → Pc A
  finished : Pc A  -- the consumer got NULL and has returned
  absent : Pc A  -- no such thread

module _ {A : Type 0} where
  -- What follows a test that `spool_full` passes.
  abbrev pub on_full : Variant → A → List A → Pc A
  on_full safe a l = ins_retry a l
  on_full _ a l = ins_wake a l

  abbrev pub after_insert : Variant → List A → Pc A
  after_insert safe l = ins_unlock l
  after_insert _ l = ins_signal l

  abbrev pub on_empty : Variant → Pc A
  on_empty safe = rem_retry
  on_empty _ = rem_wake

  abbrev pub after_remove : Variant → Option A → Pc A
  after_remove safe r = rem_unlock r
  after_remove _ r = rem_signal r

  -- The test under which a removal does not go on.
  abbrev pub keeps_waiting : Variant → Shared A → Bool
  keeps_waiting safe m = spool_empty m.spool
  keeps_waiting _ m = spool_empty m.spool && not m.shutdown

  -- `while ((str = spool_remove(sp)))` in `consumer`
  abbrev pub after_str : Option A → Pc A
  after_str none = finished
  after_str (some a) = consuming

  abbrev pub log_removed : Option A → List A → List A
  log_removed none l = l
  log_removed (some a) l = l ++ a ∷ []

  unfoldable pub insert_step : Shared A → A → Shared A
  insert_step m a = record m {
    spool = (spool_insert_unchecked m.spool a).0;
    inserted = m.inserted ++ a ∷ [];
  }

  unfoldable pub remove_step : Shared A → Shared A
  remove_step m =
      let (sp, out) = spool_remove_unchecked m.spool in
      record m { spool = sp; removed = log_removed out m.removed }

  -- One step of thread `i`. The test of the loop and the call behind it are one step: both are made
  -- under `buf_lock`. Signals are steps of the whole system.
  pub data Move (v : Variant) (i : ℕ) (m : Shared A) : Pc A → Shared A → Pc A → Type 0 where
    call_insert : {a : A} {l : List A} → Move v i m (producing (a ∷ l)) m (ins_lock a l)
    ins_acquire :
        {a : A} {l : List A}
        → m.buf_lock ≡ none
        → Move v i m (ins_lock a l) (record m { buf_lock = some i }) (ins_test a l)
    ins_full :
        {a : A} {l : List A}
        → spool_full m.spool ≡ true
        → Move v i m (ins_test a l) m (on_full v a l)
    ins_store :
        {a : A} {l : List A}
        → spool_full m.spool ≡ false
        → Move v i m (ins_test a l) (insert_step m a) (after_insert v l)
    ins_give_up :
        {a : A} {l : List A}
        → Move v i m (ins_retry a l) (record m { buf_lock = none }) (ins_lock a l)
    ins_block :
        {a : A} {l : List A}
        → Move v i m (ins_wait a l) (record m { buf_lock = none }) (ins_blocked a l)
    ins_reacquire :
        {a : A} {l : List A}
        → m.buf_lock ≡ none
        → Move v i m (ins_woken a l) (record m { buf_lock = some i }) (ins_test a l)
    ins_release :
        {l : List A} → Move v i m (ins_unlock l) (record m { buf_lock = none }) (producing l)
    call_remove : Move v i m consuming m rem_lock
    rem_acquire : m.buf_lock ≡ none → Move v i m rem_lock (record m { buf_lock = some i }) rem_test
    rem_empty : keeps_waiting v m ≡ true → Move v i m rem_test m (on_empty v)
    rem_take :
        keeps_waiting v m ≡ false
        → Move v i m rem_test (remove_step m) (after_remove v (spool_remove_unchecked m.spool).1)
    rem_give_up : Move v i m rem_retry (record m { buf_lock = none }) rem_lock
    rem_block : Move v i m rem_wait (record m { buf_lock = none }) rem_blocked
    rem_reacquire :
        m.buf_lock ≡ none → Move v i m rem_woken (record m { buf_lock = some i }) rem_test
    rem_release :
        {r : Option A} → Move v i m (rem_unlock r) (record m { buf_lock = none }) (after_str r)
